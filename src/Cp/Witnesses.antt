-- ===== src/Cp/Witnesses.antt =====
-- The theorems on the control plane at a concrete daemon.
use sdr_slc_rtld.Base.{refl, true, Bytes, [], ◌∷◌, codes}
use sdr_slc_rtld.Cp.World.{World, idle, put_session}
use sdr_slc_rtld.Cp.Dispatch.{handle_payload, Request}
use sdr_slc_rtld.Cp.Lifecycle.{session_create}
use sdr_slc_rtld.Cp.Phase.{free_rx}
use sdr_slc_rtld.Cp.Access.{rx_release}
use sdr_slc_rtld.Cp.Stream.{read_transport}
use sdr_slc_rtld.Cp.Checks.{Checks, read_transport-Checks}
use sdr_slc_rtld.Cp.Radio.{SameRadio}
use sdr_slc_rtld.Cp.Locked.{handle_payload-SameRadio}
use sdr_slc_rtld.Cp.Phase.{Goes}
use sdr_slc_rtld.Cp.Phase.Serve.{handle_payload-Goes}
use sdr_slc_rtld.Cp.Tests.{
  run, greeted, open_text, greeted-Represents, no_message, started, lab, noon,
}

handle_payload-Goes_example : Goes 0 free_rx (handle_payload lab noon 0 open_text greeted)
handle_payload-Goes_example =
    handle_payload-Goes lab noon 0 open_text greeted-Represents run.0 (λ e. refl)

read_transport-Checks_example :
    Checks 0 (codes "2") (rx_release 0) (read_transport 0 (codes "2") no_message 1)
read_transport-Checks_example = read_transport-Checks 0 (codes "2") no_message 1

abbrev start_request : Request
start_request = record { kind = 0; id = codes "3"; command = codes "start_rx" }

-- A session that has connected to a daemon whose rx requires authentication.
abbrev visited : World
visited = (session_create 5 3232235783 (started true)).1

handle_payload-SameRadio_example : SameRadio visited (handle_payload lab noon 0 open_text visited)
unfolding session_create
handle_payload-SameRadio_example = handle_payload-SameRadio lab noon 0 open_text visited refl

-- It has said hello, and answers with the HMAC of the nonce under the key.
abbrev challenged : World
challenged =
    put_session 0
      (record (visited.table 0) { state = idle; nonce = 1 ∷ 2 ∷ []; nonce_valid = true }) visited

abbrev answer_text : Bytes
answer_text =
    codes
      "{\"type\":\"request\",\"id\":\"4\",\"command\":\"authenticate\",\"params\":{\"method\":\"psk-hmac-sha256\",\"response\":\"66bbb23d263c4dff4c344b3e9a819175676975ab25159f93571e058725a45459\"}}"

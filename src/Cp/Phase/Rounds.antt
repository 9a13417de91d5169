-- ===== src/Cp/Phase/Rounds.antt =====
-- cp/cp_session.c: the loop of cp_session_thread, as steps of the daemon.
use sdr_slc_rtld.Base.{ℕ, ◌≡◌, some}
use sdr_slc_rtld.Cp.World.{World, Env}
use sdr_slc_rtld.Cp.Dispatch.{hello, Received, frame, disconnected}
use sdr_slc_rtld.Cp.Phase.{stage, at_rest}
use sdr_slc_rtld.Cp.Phase.Serve.{parsed_command}

-- A frame that brings a hello finds the session at rest.
abbrev pub Orderly : Env → ℕ → Received → World → Type 0
Orderly env i disconnected w = Unit
Orderly env i (frame js) w =
    parsed_command i js (env.parse js) w ≡ some hello → stage (w.table i) ≡ at_rest

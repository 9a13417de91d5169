-- ===== src/Cp/Envelope.antt =====
-- cp/cp_commands.c: hello, authenticate, get_capabilities and ping.
use sdr_slc_rtld.Base.{
  ℕ, zero, suc, ◌+◌, ◌-◌, ◌^◌, ◌%◌, Bool, true, false, not, ◌&&◌, ◌||◌, Option, none, some, List,
  [], ◌∷◌, Bytes, codes, length, eq_bytes, ltb, leb, ◌==◌, if◌then◌else◌,
}
use sdr_slc_rtld.Base.Int.{ℤ, pos, abs, ◌-ℤ◌}
use sdr_slc_rtld.Json.Tokens.{Msg, tok_find_key, tok_str, skip_loop, is_array}
use sdr_slc_rtld.Json.Tokens.{max_json_tokens}
use sdr_slc_rtld.Json.Escape.{json_escape}
use sdr_slc_rtld.Auth.Verify.{auth_hex, auth_verify, Key}
use sdr_slc_rtld.Rtl.Bridge.{Device}
use sdr_slc_rtld.Rtl.Limits.{
  freq_min, freq_max, rate_list, preferred_rate, reference_level_tenth_dbm,
}
use sdr_slc_rtld.Rtl.Control.{gain_list}
use sdr_slc_rtld.Cp.World.{
  Session, World, Input, idle, missing_parameter, unsupported_protocol_version, hello_done,
  ok_response, authenticated, capabilities, Capabilities, pong, auth_failed, put_session,
}
use sdr_slc_rtld.Cp.Access.{send_framed}
use sdr_slc_rtld.Cp.Cmd.{Cmd, ◌>>=◌, ◌>>◌, gets, modify, refuse_if, require, edit, send_ok}
use sdr_slc_rtld.Cp.Params.{find_params, text_is}

-- The loop over supported_protocol_versions, for `supports`. (`offered_release` chooses between
-- two texts of one error.)
unfoldable pub supports_version : ℕ → Msg → ℕ → Bool
unfolding skip_loop
supports_version zero m vi = false
supports_version (suc n) m vi =
    text_is m vi (codes "1.0")
    || (elim (skip_loop max_json_tokens m.toks (m.toks vi).size (vi + 1)) [
      | none ↦ false
      | some j ↦ supports_version n m j
    ])

abbrev pub client_name_of : Msg → ℕ → Bytes
client_name_of m p = elim (tok_find_key m p (codes "client_name")) [
  | none ↦ codes "(unnamed)"
  | some k ↦ tok_str m.js (m.toks k) 48
]

-- auth_make_nonce into a session: the random bytes, or the flag that there are none. The text
-- of the old nonce is left where there are none, as in cmd_authenticate.
unfoldable pub new_nonce : Option Bytes → Session → Session
new_nonce none s = record s { nonce_valid = false }
new_nonce (some raw) s = record s { nonce = raw; nonce_hex = auth_hex raw; nonce_valid = true }

-- hello also blanks the text where there is no random source.
unfoldable pub hello_nonce : Option Bytes → Session → Session
unfolding new_nonce
hello_nonce none s = record s { nonce_valid = false; nonce_hex = [] }
hello_nonce (some raw) s = new_nonce (some raw) s

-- cmd_hello.
unfoldable pub cmd_hello : Input → ℕ → Bytes → Msg → Cmd (Unit {0})
unfolding supports_version hello_nonce
cmd_hello inp i id m = do
  p ← require (find_params m) i id missing_parameter
  vers ← require (tok_find_key m p (codes "supported_protocol_versions")) i id missing_parameter
  refuse_if (not (is_array (m.toks vers).kind)) i id missing_parameter
  refuse_if (not (supports_version (m.toks vers).size m (vers + 1))) i id
      unsupported_protocol_version
  edit i (λ s. record s { client_name = client_name_of m p; state = idle })
  locked ← gets (λ w. w.rx_auth)
  edit i (λ s. if locked then hello_nonce inp.random s else s)
  hex ← gets (λ w. (w.table i).nonce_hex)
  send_ok i id (hello_done (if locked then some hex else none))

-- The members of authenticate.
pub record Attempt : Type 0 where
  pub method : Bytes
  pub key_id : Bytes
  pub response : Bytes

unfoldable pub read_attempt : Msg → Option Attempt
read_attempt m = elim (find_params m) [
  | none ↦ none
  | some p ↦ (elim (tok_find_key m p (codes "method")) [
    | none ↦ none
    | some mi ↦ (elim (tok_find_key m p (codes "response")) [
      | none ↦ none
      | some ri ↦ some (record {
        method = tok_str m.js (m.toks mi) 48;
        response = tok_str m.js (m.toks ri) 80;
        key_id = elim (tok_find_key m p (codes "key_id")) [
          | none ↦ codes "default"
          | some ki ↦ tok_str m.js (m.toks ki) 64
        ];
      })
    ])
  ])
]

-- `if (now - s->auth_window_ns > AUTH_WINDOW_NS)`, in uint64_t.
unfoldable pub roll_window : ℕ → Session → Session
roll_window now s =
    if ltb 60000000000 ((now + 2 ^ 64 - s.auth_window_ns) % 2 ^ 64)
    then record s { auth_window_ns = now; auth_failures = 0 }
    else s

unfoldable pub accepts : List Key → Session → Attempt → Bool
accepts keys s a =
    s.nonce_valid
    && eq_bytes a.method (codes "psk-hmac-sha256")
    && not (length keys == 0)
    && auth_verify keys a.key_id s.nonce a.response

-- A failed attempt: one failure more, a fresh nonce, and the mark to close after the tenth.
unfoldable pub note_failure : Option Bytes → Session → Session
unfolding new_nonce
note_failure random s =
    let s' = new_nonce random (record s { auth_failures = (s.auth_failures + 1) % 2 ^ 32 }) in
    if leb 10 s'.auth_failures then record s' { close_after_reply = true } else s'

abbrev pub fresh_hex : Session → Option Bytes
fresh_hex s = if s.nonce_valid then some s.nonce_hex else none

-- The attempt, behind the reading of its members. The reply of a failure goes out before the
-- mark to close is set; nothing reads the mark in between.
unfoldable pub try_attempt : Input → ℕ → Bytes → Attempt → World → World
unfolding roll_window accepts note_failure
try_attempt inp i id a w =
    let s = roll_window inp.mono_ns (w.table i) in
    if accepts w.keys s a
    then send_framed i (ok_response (json_escape id 288) (authenticated true))
        (put_session i (record s { rx_unlocked = true; nonce_valid = false }) w)
    else (let s' = note_failure inp.random s in
        send_framed i (auth_failed (json_escape id 288) (fresh_hex s')) (put_session i s' w))

unfoldable pub attempt_with : Input → ℕ → Bytes → Msg → Cmd (Unit {0})
unfolding read_attempt try_attempt
attempt_with inp i id m = do
  a ← require (read_attempt m) i id missing_parameter
  modify (try_attempt inp i id a)

-- cmd_authenticate.
unfoldable pub cmd_authenticate : Input → ℕ → Bytes → Msg → Cmd (Unit {0})
unfolding attempt_with
cmd_authenticate inp i id m = do
  locked ← gets (λ w. w.rx_auth)
  (if locked then attempt_with inp i id m else send_ok i id (authenticated false))

-- The step of the search for the gain nearest to 20.0 dB.
unfoldable pub nearest : ℤ → List ℤ → ℤ
nearest best [] = best
nearest best (g ∷ gs) =
    nearest (if ltb (abs (g -ℤ pos 200)) (abs (best -ℤ pos 200)) then g else best) gs

-- load_gain_table.
unfoldable pub load_gain_table : Device → World → World
unfolding nearest
load_gain_table dev w = elim w.gains [
  | some gs ↦ w
  | none ↦ (elim (gain_list dev w.bridge) [
    | [] ↦ record w { gains = some []; gain_default = pos 200 }
    | g ∷ gs ↦ record w { gains = some (g ∷ gs); gain_default = nearest g gs }
  ])
]

abbrev pub gain_table : World → List ℤ
gain_table w = elim w.gains [ none ↦ [] | some gs ↦ gs ]

abbrev last_or : ℤ → List ℤ → ℤ
last_or d [] = d
last_or d (g ∷ gs) = last_or g gs

abbrev first_or : ℤ → List ℤ → ℤ
first_or d [] = d
first_or d (g ∷ gs) = g

-- build_capabilities_json, behind the loading of the gain table.
unfoldable pub build_capabilities : World → Capabilities
build_capabilities w = record {
  auth_psk = w.rx_auth;
  min_hz = freq_min w.bridge.sampling_mode;
  max_hz = freq_max w.bridge.sampling_mode;
  rates = rate_list w.bridge.sampling_mode;
  preferred_rate = preferred_rate w.bridge.sampling_mode;
  preferred_gain = w.gain_default;
  reference_level = reference_level_tenth_dbm w.gain_default;
  gain_min = first_or (pos 0) (gain_table w);
  gain_max = last_or (pos 496) (gain_table w);
  gains = gain_table w;
}

-- cmd_get_capabilities.
unfoldable pub cmd_get_capabilities : Device → ℕ → Bytes → Cmd (Unit {0})
unfolding load_gain_table build_capabilities
cmd_get_capabilities dev i id = do
  modify (load_gain_table dev)
  c ← gets build_capabilities
  send_ok i id (capabilities c)

-- cmd_ping.
unfoldable pub cmd_ping : ℕ → Bytes → Cmd (Unit {0})
cmd_ping i id = send_ok i id pong

-- ===== src/Cp/Locked.antt =====
-- cp/cp_session.c, §26.1: what a session that has not authenticated can bring about.
use sdr_slc_rtld.Base.{
  ℕ, ◌≡◌, refl, Bool, true, false, not, ◌&&◌, Option, none, some, List, [], ◌∷◌, Bytes, codes,
  eq_bytes, if◌then◌else◌, Bool-cases, inl, inr, arith,
}
use sdr_slc_rtld.Json.Tokens.{Tok, Msg, Parsed, tokens, refused, is_object}
use sdr_slc_rtld.Cp.World.{
  World, Env, Input, invalid_request, unauthorized, unknown_command, is_await_hello,
}
use sdr_slc_rtld.Cp.Cmd.{send_error}
use sdr_slc_rtld.Cp.Params.{text_is}
use sdr_slc_rtld.Cp.Config.{cmd_set_frequency, cmd_set_sample_rate}
use sdr_slc_rtld.Cp.Control.{cmd_set_control}
use sdr_slc_rtld.Cp.Stream.{cmd_open_stream}
use sdr_slc_rtld.Cp.Dispatch.{
  Command, hello, authenticate, get_capabilities, set_frequency, set_sample_rate, set_control,
  open_stream, start_rx, stop_rx, close_stream, ping, get_status, get_control, get_clock_status,
  dispatch_table, find_command, run_command, names_rx, cmd_addresses_rx, Request, read_request,
  malformed, is_locked, serve_request, serve_message, store_tokens, serve_parsed, handle_payload,
}
use sdr_slc_rtld.Cp.Phase.Access.{eq_refl}
use sdr_slc_rtld.Cp.Radio.{
  SameRadio, send_error-SameRadio, Spares, cmd_hello-Spares, cmd_authenticate-Spares,
  cmd_get_control-Spares, cmd_get_capabilities-Spares, cmd_ping-Spares, cmd_get_status-Spares,
  cmd_get_clock_status-Spares,
}
use sdr_slc_rtld.Cp.Refusals.{Ends-bind, Ends-Spares, require_function-Ends, configuring-Ends}
use sdr_slc_rtld.Cp.Names.{name_of, find_command-name_of, named}

gate_passed :
    (a k : Bool) {r : Bool}
    → k ≡ false
    → (if a then true else if k then false else r) ≡ false
    → r ≡ false
gate_passed true k q e = ground arith
gate_passed false true q e = ground arith
gate_passed false false q e = e

module _ (cmd : Bytes) (m : Msg) (through : cmd_addresses_rx cmd m ≡ false) where
  set_frequency-names_rx : eq_bytes cmd (name_of set_frequency) ≡ true → names_rx m ≡ false
  unfolding cmd_addresses_rx name_of
  set_frequency-names_rx k = gate_passed _ _ (ground arith) through

  set_sample_rate-names_rx : eq_bytes cmd (name_of set_sample_rate) ≡ true → names_rx m ≡ false
  unfolding cmd_addresses_rx name_of
  set_sample_rate-names_rx k = gate_passed _ _ (ground arith) through

  set_control-names_rx : eq_bytes cmd (name_of set_control) ≡ true → names_rx m ≡ false
  unfolding cmd_addresses_rx name_of
  set_control-names_rx k = gate_passed _ _ (ground arith) through

  open_stream-names_rx : eq_bytes cmd (name_of open_stream) ≡ true → names_rx m ≡ false
  unfolding cmd_addresses_rx name_of
  open_stream-names_rx k = gate_passed _ _ (ground arith) through

  module _ (inp : Input) (i : ℕ) (id : Bytes) where
    run_command-Spares :
        (env : Env) (c : Command)
        → eq_bytes cmd (name_of c) ≡ true
        → Spares (run_command c env inp i id m)
    unfolding run_command cmd_set_frequency cmd_set_sample_rate cmd_set_control cmd_open_stream
        cmd_addresses_rx name_of
    run_command-Spares env hello k = cmd_hello-Spares i id m inp
    run_command-Spares env authenticate k = cmd_authenticate-Spares i id m inp
    run_command-Spares env get_capabilities k = cmd_get_capabilities-Spares i id env.device
    run_command-Spares env set_frequency k =
        Ends-Spares (Ends-bind _ _ (configuring-Ends i id m (set_frequency-names_rx k)))
    run_command-Spares env set_sample_rate k =
        Ends-Spares (Ends-bind _ _ (configuring-Ends i id m (set_sample_rate-names_rx k)))
    run_command-Spares env set_control k =
        Ends-Spares (Ends-bind _ _ (configuring-Ends i id m (set_control-names_rx k)))
    run_command-Spares env open_stream k =
        Ends-Spares (Ends-bind _ _ (require_function-Ends i id m (open_stream-names_rx k)))
    run_command-Spares env start_rx k = absurd (ground arith)
    run_command-Spares env stop_rx k = absurd (ground arith)
    run_command-Spares env close_stream k = absurd (ground arith)
    run_command-Spares env ping k = cmd_ping-Spares i id
    run_command-Spares env get_status k = cmd_get_status-Spares i id inp
    run_command-Spares env get_control k = cmd_get_control-Spares i id m
    run_command-Spares env get_clock_status k = cmd_get_clock_status-Spares i id inp

module _ (env : Env) (inp : Input) (i : ℕ) where
  dispatched-SameRadio :
      (r : Request) (m : Msg) (w : World)
      → cmd_addresses_rx r.command m ≡ false
      → (o : Option Command) → find_command r.command dispatch_table ≡ o
      → SameRadio w (elim o [
        | none ↦ send_error i r.id unknown_command w
        | some c ↦ (run_command c env inp i r.id m w).1
      ])
  dispatched-SameRadio r m w through none e = send_error-SameRadio i r.id unknown_command w
  dispatched-SameRadio r m w through (some c) e =
      (run_command-Spares r.command m through inp i r.id env c
          (find_command-name_of r.command dispatch_table named e)).at
        w

  serve_request-SameRadio :
      (r : Request) (m : Msg) (w : World)
      → is_locked i w ≡ true
      → SameRadio w (serve_request env inp i r m w)
  unfolding serve_request
  serve_request-SameRadio r m w locked =
      elim (Bool-cases
        (is_await_hello (w.table i).state && not (eq_bytes r.command (codes "hello")))) [
          | inl e ↦ rw e (send_error-SameRadio i r.id invalid_request w)
          | inr e ↦
              rw (e, locked)
                (elim (Bool-cases (cmd_addresses_rx r.command m)) [
                  | inl k ↦ rw k (send_error-SameRadio i r.id unauthorized w)
                  | inr k ↦
                      rw k
                        (dispatched-SameRadio r m w k (find_command r.command dispatch_table) refl)
                ])
        ]

  serve_message-SameRadio :
      (m : Msg) (w : World) → is_locked i w ≡ true → SameRadio w (serve_message env inp i m w)
  unfolding serve_message
  serve_message-SameRadio m w locked = by_request (read_request m)
    where
      by_request :
          (o : Option Request)
          → SameRadio w (elim o [
            | none ↦ malformed i w
            | some r ↦
                if text_is m r.kind (codes "request") then serve_request env inp i r m w else w
          ])
      by_request none = send_error-SameRadio i _ invalid_request w
      by_request (some r) = elim (Bool-cases (text_is m r.kind (codes "request"))) [
        | inl k ↦ rw k (serve_request-SameRadio r m w locked)
        | inr k ↦ rw k (refl, refl, refl)
      ]

  store_tokens-is_locked :
      (ts : List Tok) (w : World) → is_locked i w ≡ true → is_locked i (store_tokens i ts w) ≡ true
  store_tokens-is_locked ts w locked = rw (eq_refl i) locked

  serve_parsed-SameRadio :
      (js : Bytes) (o : Parsed) (w : World)
      → is_locked i w ≡ true
      → SameRadio w (serve_parsed env inp i js o w)
  unfolding serve_parsed
  serve_parsed-SameRadio js (refused e ts) w locked =
      send_error-SameRadio i _ invalid_request (store_tokens i ts w)
  serve_parsed-SameRadio js (tokens []) w locked = send_error-SameRadio i _ invalid_request w
  serve_parsed-SameRadio js (tokens (t ∷ ts)) w locked = elim (Bool-cases (is_object t.kind)) [
    | inl k ↦ rw k (serve_message-SameRadio _ _ (store_tokens-is_locked (t ∷ ts) w locked))
    | inr k ↦ rw k (send_error-SameRadio i _ invalid_request (store_tokens i (t ∷ ts) w))
  ]

  -- Where rx requires authentication and session i has not authenticated, no payload of session i,
  -- whatever it holds, changes the state of the tuner's bridge, the table of VITA sessions or the owner
  -- of rx.
  pub handle_payload-SameRadio :
      (js : Bytes) (w : World) → is_locked i w ≡ true → SameRadio w (handle_payload env inp i js w)
  unfolding handle_payload
  handle_payload-SameRadio js w locked = serve_parsed-SameRadio js (env.parse js) w locked

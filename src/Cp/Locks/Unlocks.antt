-- ===== src/Cp/Locks/Unlocks.antt =====
-- cp/cp_session.c and cp/cp_commands.c: what unlocks rx for a session; no payload changes a descriptor.
use sdr_slc_rtld.Base.{
  ℕ, ◌≡◌, refl, ap, sym, ◌∙◌, Bool, true, false, not, ◌&&◌, ◌||◌, Option, none, some, List, [], ◌∷◌,
  Bytes, codes, eq_bytes, ◌==◌, if◌then◌else◌, Bool-cases, inl, inr, arith,
}
use sdr_slc_rtld.Json.Tokens.{Tok, Msg, Parsed, tokens, refused, is_object}
use sdr_slc_rtld.Cp.World.{
  World, Session, Env, Input, Frame, invalid_request, unauthorized, unknown_command, ErrorCode,
  missing_parameter, is_await_hello, put_session, authenticated,
}
use sdr_slc_rtld.Cp.Access.{send_framed}
use sdr_slc_rtld.Cp.Cmd.{◌>>=◌, send_error, fail, send_ok, modify, gets, require}
use sdr_slc_rtld.Cp.Params.{text_is}
use sdr_slc_rtld.Cp.Envelope.{
  Attempt, accepts, roll_window, note_failure, new_nonce, try_attempt, read_attempt, attempt_with,
  cmd_authenticate,
}
use sdr_slc_rtld.Cp.Attempts.{try_attempt-unlocks}
use sdr_slc_rtld.Cp.Dispatch.{
  Command, hello, authenticate, get_capabilities, set_frequency, set_sample_rate, set_control,
  open_stream, start_rx, stop_rx, close_stream, ping, get_status, get_control, get_clock_status,
  dispatch_table, find_command, run_command, cmd_addresses_rx, Request, read_request, malformed,
  is_locked, serve_request, serve_message, store_tokens, overlay, serve_parsed, handle_payload,
}
use sdr_slc_rtld.Cp.Phase.Access.{eq_refl}
use sdr_slc_rtld.Cp.Phase.Serve.{request_command, parsed_command}
use sdr_slc_rtld.Cp.Locks.{
  lock_of, SameLocks, send_framed-SameLocks, put_session-SameLocks, Locks, Locks-fail,
  Locks-send_ok,
}
use sdr_slc_rtld.Cp.Locks.Commands.{
  cmd_hello-Locks, cmd_set_frequency-Locks, cmd_set_sample_rate-Locks, cmd_set_control-Locks,
  cmd_get_control-Locks, cmd_get_capabilities-Locks, cmd_ping-Locks, cmd_get_status-Locks,
  cmd_get_clock_status-Locks,
}
use sdr_slc_rtld.Cp.Locks.Streams.{
  cmd_open_stream-Locks, cmd_start_rx-Locks, cmd_stop_rx-Locks, cmd_close_stream-Locks,
}

-- The command was an authenticate of this session, with a response that auth_verify accepts for
-- the nonce of the session.
pub record Earned (i j : ℕ) (c : Option Command) (w : World) : Type 0 where
  pub own : i ≡ j
  pub command : c ≡ some authenticate
  pub attempt : Attempt
  pub accepted : accepts w.keys (w.table i) attempt ≡ true

or_right : (a b : Bool) → a ≡ false → (a || b) ≡ true → b ≡ true
or_right true b e h = ground (arith, e)
or_right false b e h = h

roll_window-fd : (now : ℕ) (s : Session) → (roll_window now s).fd ≡ s.fd
unfolding roll_window
roll_window-fd now s = ground arith

note_failure-fd : (random : Option Bytes) (s : Session) → (note_failure random s).fd ≡ s.fd
unfolding note_failure new_nonce
note_failure-fd none s = ground arith
note_failure-fd (some raw) s = ground arith

module _ (i j : ℕ) where
  -- If session j is unlocked between two worlds, it has been earned; its descriptor is the same.
  record Earns (c : Option Command) (w w' : World) : Type 0 where
    keeps : (w'.table j).fd ≡ (w.table j).fd
    at : (w.table j).rx_unlocked ≡ false → (w'.table j).rx_unlocked ≡ true → Earned i j c w

  SameLocks-Earns : (c : Option Command) (w w' : World) → SameLocks w w' → Earns c w w'
  SameLocks-Earns c w w' s = record {
    keeps = ap (λ p. p.1) (s j);
    at = λ f t. absurd (ground (arith, ap (λ p. p.0) (s j), f, t));
  }

  Locks-Earns :
      {m : World → Option (Unit {0}) × World} (c : Option Command) (w : World)
      → Locks m
      → Earns c w (m w).1
  Locks-Earns {m} c w k = SameLocks-Earns c w (m w).1 (k.at w)

  elsewhere :
      (f : Frame) (s : Session) (w : World)
      → (i == j) ≡ false
      → lock_of ((send_framed i f (put_session i s w)).table j) ≡ lock_of (w.table j)
  elsewhere f s w h = send_framed-SameLocks i f (put_session i s w) j ∙ rw h refl

  here :
      (f : Frame) (s : Session) (w : World)
      → ((send_framed i f (put_session i s w)).table i).fd ≡ s.fd
  here f s w = ap (λ p. p.1) (send_framed-SameLocks i f (put_session i s w) i) ∙ rw (eq_refl i) refl

  module _ (inp : Input) (id : Bytes) where
    try_attempt-elsewhere :
        (a : Attempt) (w : World)
        → (i == j) ≡ false
        → lock_of ((try_attempt inp i id a w).table j) ≡ lock_of (w.table j)
    unfolding try_attempt
    try_attempt-elsewhere a w h =
        elim (Bool-cases (accepts w.keys (roll_window inp.mono_ns (w.table i)) a)) [
          | inl e ↦ rw e (elsewhere _ _ w h)
          | inr e ↦ rw e (elsewhere _ _ w h)
        ]

    try_attempt-here :
        (a : Attempt) (w : World) → ((try_attempt inp i id a w).table i).fd ≡ (w.table i).fd
    unfolding try_attempt
    try_attempt-here a w =
        let s = roll_window inp.mono_ns (w.table i) in
        elim (Bool-cases (accepts w.keys s a)) [
          | inl e ↦ rw e (
              here _ (record s { rx_unlocked = true; nonce_valid = false }) w
              ∙ roll_window-fd inp.mono_ns (w.table i))
          | inr e ↦ rw e (
              here _ (note_failure inp.random s) w
              ∙ note_failure-fd inp.random s
              ∙ roll_window-fd inp.mono_ns (w.table i))
        ]

    try_attempt-fd :
        (a : Attempt) (w : World) → ((try_attempt inp i id a w).table j).fd ≡ (w.table j).fd
    try_attempt-fd a w = elim (Bool-cases (i == j)) [
      | inl same ↦ (let q : i ≡ j = ground arith in rw (← q) (try_attempt-here a w))
      | inr other ↦ ap (λ p. p.1) (try_attempt-elsewhere a w other)
    ]

    try_attempt-Earns :
        (a : Attempt) (w : World) → Earns (some authenticate) w (try_attempt inp i id a w)
    try_attempt-Earns a w = record {
      keeps = try_attempt-fd a w;
      at = λ f t. elim (Bool-cases (i == j)) [
        | inl same ↦
            (let q : i ≡ j = ground arith in
              record { own = q; command = refl; attempt = a; accepted = by_slot q f t })
        | inr other ↦ absurd (ground (arith, ap (λ p. p.0) (try_attempt-elsewhere a w other), f, t))
      ];
    }
      where
        by_slot :
            i ≡ j
            → (w.table j).rx_unlocked ≡ false
            → ((try_attempt inp i id a w).table j).rx_unlocked ≡ true
            → accepts w.keys (w.table i) a ≡ true
        by_slot q f t =
            let before = ap (λ k. (w.table k).rx_unlocked) q ∙ f in
            let after = ap (λ k. ((try_attempt inp i id a w).table k).rx_unlocked) q ∙ t in
            or_right _ _ before (sym (try_attempt-unlocks inp i id a w) ∙ after)

    cmd_authenticate-Earns :
        (m : Msg) (w : World) → Earns (some authenticate) w (cmd_authenticate inp i id m w).1
    unfolding cmd_authenticate attempt_with gets ◌>>=◌ modify require
    cmd_authenticate-Earns m w = by_flag w.rx_auth
      where
        by_attempt :
            (o : Option Attempt)
            → Earns
                (some authenticate)
                w
                ((require o i id missing_parameter >>= λ a. modify (try_attempt inp i id a)) w).1
        by_attempt none = Locks-Earns _ w (Locks-fail i id missing_parameter)
        by_attempt (some a) = try_attempt-Earns a w

        by_flag :
            (locked : Bool)
            → Earns
                (some authenticate)
                w
                ((if locked then attempt_with inp i id m else send_ok i id (authenticated false))
                  w).1
        by_flag true = by_attempt (read_attempt m)
        by_flag false = Locks-Earns _ w (Locks-send_ok i id (authenticated false))

    run_command-Earns :
        (env : Env) (c : Command) (m : Msg) (w : World)
        → Earns (some c) w (run_command c env inp i id m w).1
    unfolding run_command
    run_command-Earns env authenticate m w = cmd_authenticate-Earns m w
    run_command-Earns env hello m w = Locks-Earns _ w (cmd_hello-Locks i id m inp)
    run_command-Earns env get_capabilities m w =
        Locks-Earns _ w (cmd_get_capabilities-Locks i id env.device)
    run_command-Earns env set_frequency m w =
        Locks-Earns _ w (cmd_set_frequency-Locks i id m env.device)
    run_command-Earns env set_sample_rate m w =
        Locks-Earns _ w (cmd_set_sample_rate-Locks i id m env.device)
    run_command-Earns env set_control m w = Locks-Earns _ w (cmd_set_control-Locks i id m env)
    run_command-Earns env open_stream m w = Locks-Earns _ w (cmd_open_stream-Locks i id m inp)
    run_command-Earns env start_rx m w = Locks-Earns _ w (cmd_start_rx-Locks i id m env.device inp)
    run_command-Earns env stop_rx m w = Locks-Earns _ w (cmd_stop_rx-Locks i id m)
    run_command-Earns env close_stream m w = Locks-Earns _ w (cmd_close_stream-Locks i id m)
    run_command-Earns env ping m w = Locks-Earns _ w (cmd_ping-Locks i id)
    run_command-Earns env get_status m w = Locks-Earns _ w (cmd_get_status-Locks i id inp)
    run_command-Earns env get_control m w = Locks-Earns _ w (cmd_get_control-Locks i id m)
    run_command-Earns env get_clock_status m w =
        Locks-Earns _ w (cmd_get_clock_status-Locks i id inp)

  module _ (env : Env) (inp : Input) where
    send_error-Earns :
        (o : Option Command) (id : Bytes) (c : ErrorCode) (w : World)
        → Earns o w (send_error i id c w)
    unfolding fail
    send_error-Earns o id c w = Locks-Earns o w (Locks-fail i id c)

    dispatched-Earns :
        (o : Option Command) (r : Request) (m : Msg) (w : World)
        → Earns o w (elim o [
          | none ↦ send_error i r.id unknown_command w
          | some c ↦ (run_command c env inp i r.id m w).1
        ])
    dispatched-Earns none r m w = send_error-Earns none r.id unknown_command w
    dispatched-Earns (some c) r m w = run_command-Earns inp r.id env c m w

    serve_request-Earns :
        (r : Request) (m : Msg) (w : World)
        → Earns (find_command r.command dispatch_table) w (serve_request env inp i r m w)
    unfolding serve_request
    serve_request-Earns r m w =
        let o = find_command r.command dispatch_table in
        elim (Bool-cases
          (is_await_hello (w.table i).state && not (eq_bytes r.command (codes "hello")))) [
            | inl e ↦ rw e (send_error-Earns o r.id invalid_request w)
            | inr e ↦ rw e (elim (Bool-cases (is_locked i w && cmd_addresses_rx r.command m)) [
              | inl k ↦ rw k (send_error-Earns o r.id unauthorized w)
              | inr k ↦ rw k (dispatched-Earns o r m w)
            ])
          ]

    serve_message-Earns :
        (m : Msg) (w : World) → Earns (request_command m) w (serve_message env inp i m w)
    unfolding serve_message
    serve_message-Earns m w = by_request (read_request m)
      where
        by_request :
            (o : Option Request)
            → Earns
                (elim o as (λ _. Option Command) [
                  | none ↦ none
                  | some r ↦ find_command r.command dispatch_table
                ])
                w
                (elim o [
                  | none ↦ malformed i w
                  | some r ↦
                      if text_is m r.kind (codes "request")
                      then serve_request env inp i r m w
                      else w
                ])
        by_request none = send_error-Earns none _ invalid_request w
        by_request (some r) = elim (Bool-cases (text_is m r.kind (codes "request"))) [
          | inl k ↦ rw k (serve_request-Earns r m w)
          | inr k ↦ rw k (SameLocks-Earns _ w w (λ j. refl))
        ]

    -- The tokens of the session are read by no part of an attempt.
    store_tokens-Earns :
        (ts : List Tok) (c : Option Command) (w w' : World)
        → Earns c (store_tokens i ts w) w'
        → Earns c w w'
    unfolding accepts
    store_tokens-Earns ts c w w' k =
        let s = record (w.table i) { tokens = overlay ts (w.table i).tokens } in
        record {
          keeps = k.keeps ∙ ap (λ p. p.1) (put_session-SameLocks i s w refl j);
          at = λ f t.
              let e = k.at (ap (λ p. p.0) (put_session-SameLocks i s w refl j) ∙ f) t in
              record {
                own = e.own;
                command = e.command;
                attempt = e.attempt;
                accepted = by_slot e.attempt ∙ e.accepted;
              };
        }
      where
        by_slot :
            (a : Attempt)
            → accepts w.keys (w.table i) a ≡ accepts w.keys ((store_tokens i ts w).table i) a
        by_slot a = rw (eq_refl i) refl

    serve_parsed-Earns :
        (js : Bytes) (o : Parsed) (w : World)
        → Earns (parsed_command i js o w) w (serve_parsed env inp i js o w)
    unfolding serve_parsed
    serve_parsed-Earns js (refused e ts) w =
        store_tokens-Earns ts none w _
          (send_error-Earns none _ invalid_request (store_tokens i ts w))
    serve_parsed-Earns js (tokens []) w = send_error-Earns none _ invalid_request w
    serve_parsed-Earns js (tokens (t ∷ ts)) w = elim (Bool-cases (is_object t.kind)) [
      | inl k ↦
          rw k
            (store_tokens-Earns (t ∷ ts) _ w _ (serve_message-Earns _ (store_tokens i (t ∷ ts) w)))
      | inr k ↦ rw k (
          store_tokens-Earns (t ∷ ts) _ w _
            (send_error-Earns _ _ invalid_request (store_tokens i (t ∷ ts) w)))
    ]

    pub handle_payload-fd :
        (js : Bytes) (w : World) → ((handle_payload env inp i js w).table j).fd ≡ (w.table j).fd
    unfolding handle_payload
    handle_payload-fd js w = (serve_parsed-Earns js (env.parse js) w).keeps

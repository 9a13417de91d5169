-- ===== src/Cp/Phase/Serve.antt =====
-- A message, and a round of a session's thread, as moves of the rx channel.
use sdr_slc_rtld.Base.{
  ℕ, ◌≡◌, refl, not, ◌&&◌, Option, none, some, List, [], ◌∷◌, Bytes, codes, length, eq_bytes,
  if◌then◌else◌, inl, inr, Bool-cases, ap,
}
use sdr_slc_rtld.Json.Tokens.{Tok, Msg, Parsed, tokens, refused, is_object}
use sdr_slc_rtld.Cp.World.{
  World, Env, Input, invalid_request, unauthorized, unknown_command, is_await_hello,
}
use sdr_slc_rtld.Cp.Cmd.{send_error}
use sdr_slc_rtld.Cp.Params.{text_is}
use sdr_slc_rtld.Cp.Dispatch.{
  Command, hello, authenticate, get_capabilities, set_frequency, set_sample_rate, set_control,
  open_stream, start_rx, stop_rx, close_stream, ping, get_status, get_control, get_clock_status,
  dispatch_table, find_command, run_command, cmd_addresses_rx, Request, read_request, malformed,
  is_locked, serve_request, serve_message, store_tokens, serve_parsed, handle_payload,
}
use sdr_slc_rtld.Cp.Phase.{Phase, Represents, stage_at, at_rest, Goes}
use sdr_slc_rtld.Cp.Phase.Keeps.{Keeps, put_session-Represents}
use sdr_slc_rtld.Cp.Phase.Access.{IsLive, eq_refl}
use sdr_slc_rtld.Cp.Phase.Open.{Goes-nowhere, send_error-Represents, cmd_open_stream-Goes}
use sdr_slc_rtld.Cp.Phase.Streams.{cmd_start_rx-Goes, cmd_stop_rx-Goes, cmd_close_stream-Goes}
use sdr_slc_rtld.Cp.Phase.Envelope.{cmd_hello-Keeps, cmd_authenticate-Keeps}
use sdr_slc_rtld.Cp.Phase.Config.{
  cmd_set_frequency-Keeps, cmd_set_sample_rate-Keeps, cmd_set_control-Keeps, cmd_get_control-Keeps,
  cmd_get_capabilities-Keeps, cmd_ping-Keeps, cmd_get_status-Keeps, cmd_get_clock_status-Keeps,
}

-- hello comes from a session that does not hold the channel.
abbrev pub GreetsAtRest : ℕ → Phase → Command → Type 0
GreetsAtRest i p c = c ≡ hello → stage_at p i ≡ at_rest

module _ (env : Env) (inp : Input) (i : ℕ) where
  Keeps-Goes :
      {p : Phase} (f : World → Option (Unit {0}) × World) {w : World}
      → Keeps p f
      → Represents p w
      → Goes i p (f w).1
  Keeps-Goes f {w} k r = Goes-nowhere i (k.at w r)

  pub run_command-Goes :
      (c : Command) (id : Bytes) (m : Msg) (p : Phase) {w : World}
      → Represents p w
      → IsLive i w
      → GreetsAtRest i p c
      → Goes i p (run_command c env inp i id m w).1
  unfolding run_command
  run_command-Goes hello id m p r live g = Keeps-Goes _ (cmd_hello-Keeps inp i id m (g refl)) r
  run_command-Goes authenticate id m p r live g = Keeps-Goes _ (cmd_authenticate-Keeps inp i id m) r
  run_command-Goes get_capabilities id m p r live g =
      Keeps-Goes _ (cmd_get_capabilities-Keeps env.device i id) r
  run_command-Goes set_frequency id m p r live g =
      Keeps-Goes _ (cmd_set_frequency-Keeps env.device i id m) r
  run_command-Goes set_sample_rate id m p r live g =
      Keeps-Goes _ (cmd_set_sample_rate-Keeps env.device i id m) r
  run_command-Goes set_control id m p r live g = Keeps-Goes _ (cmd_set_control-Keeps env i id m) r
  run_command-Goes open_stream id m p r live g = cmd_open_stream-Goes inp i id m p r live
  run_command-Goes start_rx id m p r live g = cmd_start_rx-Goes i id m env.device inp p r
  run_command-Goes stop_rx id m p r live g = cmd_stop_rx-Goes i id m p r
  run_command-Goes close_stream id m p r live g = cmd_close_stream-Goes i id m p r
  run_command-Goes ping id m p r live g = Keeps-Goes _ (cmd_ping-Keeps i id) r
  run_command-Goes get_status id m p r live g = Keeps-Goes _ (cmd_get_status-Keeps inp i id) r
  run_command-Goes get_control id m p r live g = Keeps-Goes _ (cmd_get_control-Keeps i id m) r
  run_command-Goes get_clock_status id m p r live g =
      Keeps-Goes _ (cmd_get_clock_status-Keeps inp i id) r

abbrev pub request_command : Msg → Option Command
request_command m = elim (read_request m) [
  | none ↦ none
  | some r ↦ find_command r.command dispatch_table
]

-- The command that a payload asks for, with the token array that the session's thread parses into.
abbrev pub parsed_command : ℕ → Bytes → Parsed → World → Option Command
parsed_command i js (refused e ts) w = none
parsed_command i js (tokens []) w = none
parsed_command i js (tokens (t ∷ ts)) w = request_command (record {
  js = js;
  toks = ((store_tokens i (t ∷ ts) w).table i).tokens;
  ntok = length (t ∷ ts);
})

store_tokens-IsLive :
    (i : ℕ) (ts : List Tok) (w : World) → IsLive i w → IsLive i (store_tokens i ts w)
store_tokens-IsLive i ts w live = rw (eq_refl i) live

module _ (env : Env) (inp : Input) (i : ℕ) {p : Phase} where
  dispatched :
      (o : Option Command) (r : Request) (m : Msg) {w : World}
      → Represents p w
      → IsLive i w
      → (o ≡ some hello → stage_at p i ≡ at_rest)
      → Goes i p (elim o [
        | none ↦ send_error i r.id unknown_command w
        | some c ↦ (run_command c env inp i r.id m w).1
      ])
  dispatched none r m h live g = Goes-nowhere i (send_error-Represents i r.id unknown_command h)
  dispatched (some c) r m h live g =
      run_command-Goes env inp i c r.id m p h live (λ e. g (ap some e))

  serve_request-Goes :
      (r : Request) (m : Msg) {w : World}
      → Represents p w
      → IsLive i w
      → (find_command r.command dispatch_table ≡ some hello → stage_at p i ≡ at_rest)
      → Goes i p (serve_request env inp i r m w)
  unfolding serve_request
  serve_request-Goes r m {w} h live g =
      elim (Bool-cases
        (is_await_hello (w.table i).state && not (eq_bytes r.command (codes "hello")))) [
          | inl e ↦ rw e (Goes-nowhere i (send_error-Represents i r.id invalid_request h))
          | inr e ↦ rw e (elim (Bool-cases (is_locked i w && cmd_addresses_rx r.command m)) [
            | inl k ↦ rw k (Goes-nowhere i (send_error-Represents i r.id unauthorized h))
            | inr k ↦ rw k (dispatched (find_command r.command dispatch_table) r m h live g)
          ])
        ]

  serve_message-Goes :
      (m : Msg) {w : World}
      → Represents p w
      → IsLive i w
      → (request_command m ≡ some hello → stage_at p i ≡ at_rest)
      → Goes i p (serve_message env inp i m w)
  unfolding serve_message
  serve_message-Goes m {w} h live g = by_request (read_request m) refl
    where
      by_request :
          (o : Option Request)
          → read_request m ≡ o
          → Goes i p (elim o [
            | none ↦ malformed i w
            | some r ↦
                if text_is m r.kind (codes "request") then serve_request env inp i r m w else w
          ])
      by_request none e = Goes-nowhere i (send_error-Represents i _ invalid_request h)
      by_request (some r) e = elim (Bool-cases (text_is m r.kind (codes "request"))) [
        | inl k ↦ rw k (serve_request-Goes r m h live (λ q. g (rw (e, request_command) q)))
        | inr k ↦ rw k (Goes-nowhere i h)
      ]

  store_tokens-Represents :
      (ts : List Tok) {w : World} → Represents p w → Represents p (store_tokens i ts w)
  store_tokens-Represents ts {w} r = put_session-Represents i _ (r.stages i) r

  serve_parsed-Goes :
      (js : Bytes) (o : Parsed) {w : World}
      → Represents p w
      → IsLive i w
      → (parsed_command i js o w ≡ some hello → stage_at p i ≡ at_rest)
      → Goes i p (serve_parsed env inp i js o w)
  unfolding serve_parsed
  serve_parsed-Goes js (refused e ts) h live g =
      Goes-nowhere i (send_error-Represents i _ invalid_request (store_tokens-Represents ts h))
  serve_parsed-Goes js (tokens []) h live g =
      Goes-nowhere i (send_error-Represents i _ invalid_request h)
  serve_parsed-Goes js (tokens (t ∷ ts)) {w} h live g =
      let h' = store_tokens-Represents (t ∷ ts) h in
      elim (Bool-cases (is_object t.kind)) [
        | inl k ↦ rw k (serve_message-Goes _ h' (store_tokens-IsLive i (t ∷ ts) w live) g)
        | inr k ↦ rw k (Goes-nowhere i (send_error-Represents i _ invalid_request h'))
      ]

  -- A payload from session i, whatever it holds, moves the channel along the relation `Moves i`, if
  -- it is not a hello of the session that holds the channel: rx is opened, started, stopped or closed
  -- for session i, or the phase stays.
  pub handle_payload-Goes :
      (js : Bytes) {w : World}
      → Represents p w
      → IsLive i w
      → (parsed_command i js (env.parse js) w ≡ some hello → stage_at p i ≡ at_rest)
      → Goes i p (handle_payload env inp i js w)
  unfolding handle_payload
  handle_payload-Goes js h live g = serve_parsed-Goes js (env.parse js) h live g

-- ===== src/Cp/Dispatch.antt =====
-- cp/cp_session.c: the command table and the loop of a session's thread.
use sdr_slc_rtld.Base.{
  ℕ, Bool, true, false, not, ◌&&◌, ◌||◌, Option, none, some, List, [], ◌∷◌, Bytes, codes, length,
  get_elem?, eq_bytes, ltb, ◌==◌, if◌then◌else◌,
}
use sdr_slc_rtld.Json.Tokens.{Tok, Msg, Parsed, tokens, refused, tok_find_key, tok_str, is_object}
use sdr_slc_rtld.Cp.World.{
  World, Env, Input, invalid_request, unauthorized, unknown_command, is_await_hello, put_session,
}
use sdr_slc_rtld.Cp.Cmd.{Cmd, send_error}
use sdr_slc_rtld.Cp.Params.{find_params, text_is}
use sdr_slc_rtld.Cp.Envelope.{cmd_hello, cmd_authenticate, cmd_get_capabilities, cmd_ping}
use sdr_slc_rtld.Cp.Config.{
  cmd_get_status, cmd_get_clock_status, cmd_set_frequency, cmd_set_sample_rate,
}
use sdr_slc_rtld.Cp.Control.{cmd_set_control, cmd_get_control}
use sdr_slc_rtld.Cp.Stream.{cmd_open_stream, cmd_start_rx, cmd_stop_rx, cmd_close_stream}
use sdr_slc_rtld.Cp.Lifecycle.{session_destroy}

-- The commands of s_dispatch.
pub data Command : Type 0 where
  hello authenticate get_capabilities set_frequency set_sample_rate set_control : Command
  open_stream start_rx stop_rx close_stream : Command
  ping get_status get_control get_clock_status : Command

abbrev pub dispatch_table : List (Bytes × Command)
dispatch_table =
    (codes "hello", hello)
    ∷ (codes "authenticate", authenticate)
    ∷ (codes "get_capabilities", get_capabilities)
    ∷ (codes "set_frequency", set_frequency)
    ∷ (codes "set_sample_rate", set_sample_rate)
    ∷ (codes "set_control", set_control)
    ∷ (codes "open_stream", open_stream)
    ∷ (codes "start_rx", start_rx)
    ∷ (codes "stop_rx", stop_rx)
    ∷ (codes "close_stream", close_stream)
    ∷ (codes "ping", ping)
    ∷ (codes "get_status", get_status)
    ∷ (codes "get_control", get_control)
    ∷ (codes "get_clock_status", get_clock_status)
    ∷ []

-- The search loop over s_dispatch.
unfoldable pub find_command : Bytes → List (Bytes × Command) → Option Command
find_command cmd [] = none
find_command cmd ((name, c) ∷ rest) = if eq_bytes cmd name then some c else find_command cmd rest

-- `s_dispatch[i].fn(s, id_buf, tokens, ntok, msg_buf)`.
unfoldable pub run_command : Command → Env → Input → ℕ → Bytes → Msg → Cmd (Unit {0})
run_command hello env inp i id m = cmd_hello inp i id m
run_command authenticate env inp i id m = cmd_authenticate inp i id m
run_command get_capabilities env inp i id m = cmd_get_capabilities env.device i id
run_command set_frequency env inp i id m = cmd_set_frequency env.device i id m
run_command set_sample_rate env inp i id m = cmd_set_sample_rate env.device i id m
run_command set_control env inp i id m = cmd_set_control env i id m
run_command open_stream env inp i id m = cmd_open_stream inp i id m
run_command start_rx env inp i id m = cmd_start_rx env.device inp i id m
run_command stop_rx env inp i id m = cmd_stop_rx i id m
run_command close_stream env inp i id m = cmd_close_stream i id m
run_command ping env inp i id m = cmd_ping i id
run_command get_status env inp i id m = cmd_get_status inp i id
run_command get_control env inp i id m = cmd_get_control i id m
run_command get_clock_status env inp i id m = cmd_get_clock_status inp i id

abbrev pub names_rx : Msg → Bool
names_rx m = elim (find_params m) [
  | none ↦ false
  | some p ↦ (elim (tok_find_key m p (codes "function")) [
    | none ↦ false
    | some f ↦ text_is m f (codes "rx")
  ])
]

-- cmd_addresses_rx of cp/cp_commands.c.
unfoldable pub cmd_addresses_rx : Bytes → Msg → Bool
cmd_addresses_rx cmd m =
    if eq_bytes cmd (codes "start_rx")
      || eq_bytes cmd (codes "stop_rx")
      || eq_bytes cmd (codes "close_stream")
    then true
    else if not (eq_bytes cmd (codes "set_frequency"))
        && not (eq_bytes cmd (codes "set_sample_rate"))
        && not (eq_bytes cmd (codes "set_control"))
        && not (eq_bytes cmd (codes "open_stream"))
    then false
    else names_rx m

-- The members of a request. `none` is a missing member.
pub record Request : Type 0 where
  pub kind : ℕ
  pub id : Bytes
  pub command : Bytes

unfoldable pub read_request : Msg → Option Request
read_request m = elim (tok_find_key m 0 (codes "type")) [
  | none ↦ none
  | some t ↦ (elim (tok_find_key m 0 (codes "id")) [
    | none ↦ none
    | some k ↦ (elim (tok_find_key m 0 (codes "command")) [
      | none ↦ none
      | some c ↦ some (record {
        kind = t;
        id = tok_str m.js (m.toks k) 128;
        command = tok_str m.js (m.toks c) 64;
      })
    ])
  ])
]

-- `send_error(s, "?", "invalid_request", ...); continue;`
abbrev pub malformed : ℕ → World → World
malformed i = send_error i (codes "?") invalid_request

-- The gate of §26.1.
abbrev pub is_locked : ℕ → World → Bool
is_locked i w = w.rx_auth && not (w.table i).rx_unlocked

-- From the enforcement of hello to the dispatch.
unfoldable pub serve_request : Env → Input → ℕ → Request → Msg → World → World
serve_request env inp i r m w =
    if is_await_hello (w.table i).state && not (eq_bytes r.command (codes "hello"))
    then send_error i r.id invalid_request w
    else if is_locked i w && cmd_addresses_rx r.command m
    then send_error i r.id unauthorized w
    else (elim (find_command r.command dispatch_table) [
      | none ↦ send_error i r.id unknown_command w
      | some c ↦ (run_command c env inp i r.id m w).1
    ])

-- From the extraction of type, id and command on.
unfoldable pub serve_message : Env → Input → ℕ → Msg → World → World
unfolding read_request serve_request
serve_message env inp i m w = elim (read_request m) [
  | none ↦ malformed i w
  | some r ↦ if text_is m r.kind (codes "request") then serve_request env inp i r m w else w
]

-- The token array after a parse: the tokens written, and behind them what stood there.
abbrev pub overlay : List Tok → (ℕ → Tok) → ℕ → Tok
overlay ts stale k = elim (get_elem? ts k) [ none ↦ stale k | some t ↦ t ]

abbrev pub store_tokens : ℕ → List Tok → World → World
store_tokens i ts w =
    put_session i (record (w.table i) { tokens = overlay ts (w.table i).tokens }) w

-- The payload of a frame, parsed and served.
unfoldable pub serve_parsed : Env → Input → ℕ → Bytes → Parsed → World → World
serve_parsed env inp i js (refused e ts) w = malformed i (store_tokens i ts w)
serve_parsed env inp i js (tokens []) w = malformed i w
serve_parsed env inp i js (tokens (t ∷ ts)) w =
    let w' = store_tokens i (t ∷ ts) w in
    if is_object t.kind
    then serve_message env inp i
        (record { js = js; toks = (w'.table i).tokens; ntok = length (t ∷ ts) }) w'
    else malformed i w'

unfoldable pub handle_payload : Env → Input → ℕ → Bytes → World → World
unfolding serve_parsed
handle_payload env inp i js w = serve_parsed env inp i js (env.parse js) w

-- What recv_exact brings: a frame of the announced length, or the end of the connection.
pub data Received : Type 0 where
  frame : Bytes → Received
  disconnected : Received

abbrev pub max_msg_bytes : ℕ
max_msg_bytes = 65536

-- One round of the loop of cp_session_thread, with session_destroy where it breaks.
unfoldable pub thread_round : Env → Input → ℕ → Received → World → World
unfolding handle_payload
thread_round env inp i disconnected w = session_destroy env.device i w
thread_round env inp i (frame js) w =
    if length js == 0 || ltb max_msg_bytes (length js)
    then session_destroy env.device i w
    else (let w' = handle_payload env inp i js w in
        if (w'.table i).close_after_reply then session_destroy env.device i w' else w')

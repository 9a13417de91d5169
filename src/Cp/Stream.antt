-- ===== src/Cp/Stream.antt =====
-- cp/cp_commands.c: open_stream, start_rx, stop_rx and close_stream.
use sdr_slc_rtld.Base.{
  ℕ, [], Bool, true, false, not, ◌&&◌, ◌||◌, Option, none, some, Bytes, codes, eq_bytes, ltb, ◌==◌,
  if◌then◌else◌,
}
use sdr_slc_rtld.Libc.{strtoul, inet_pton}
use sdr_slc_rtld.Json.Tokens.{Msg, tok_find_key, tok_str, is_object}
use sdr_slc_rtld.Rtl.Bridge.{Device}
use sdr_slc_rtld.Rtl.Limits.{payload_fmt}
use sdr_slc_rtld.Rtl.Lifecycle.{bridge_start}
use sdr_slc_rtld.Vita.Packet.{u8}
use sdr_slc_rtld.Vita.Sessions.{Stream, session_add}
use sdr_slc_rtld.Cp.World.{
  Session, World, Input, ErrorCode, Opened, opened, idle, stream_open, streaming, is_streaming,
  missing_parameter, invalid_parameter, in_use, stream_already_open, unsupported_stream_protocol,
  unsupported_format, stream_not_found, busy, device_error, control_revoked, owned_by_other,
  rx_streaming, closed, stream_state, client_request, put_session,
}
use sdr_slc_rtld.Cp.Access.{alloc_stream_id, stream_name, broadcast, rx_claim, rx_release}
use sdr_slc_rtld.Cp.Lifecycle.{drop_token, stop_reading}
use sdr_slc_rtld.Cp.Cmd.{
  Cmd, ◌>>=◌, ◌>>◌, pure, gets, modify, fail, refuse_if, require, edit, send_ok, send_event,
}
use sdr_slc_rtld.Cp.Params.{find_params, require_function, channel_ok, text_is, found}

-- `{ cp_rx_release(s); send_error(...); return; }` behind a test, and behind a lookup.
unfoldable pub release_if : Bool → ℕ → Bytes → ErrorCode → Cmd (Unit {0})
unfolding fail pure
release_if bad i id c w = if bad then fail i id c (rx_release i w) else pure tt w

unfoldable pub require_held {ℓ} : {A : Type ℓ} → Option A → ℕ → Bytes → ErrorCode → Cmd A
unfolding fail pure
require_held none i id c w = fail i id c (rx_release i w)
require_held (some a) i id c w = pure a w

abbrev pub asks : Msg → Option ℕ → Bytes → Bool
asks m none s = false
asks m (some k) s = text_is m k s

-- Whether the format object, if there is one, asks for u8.
unfoldable pub format_matches : Msg → ℕ → Bool
format_matches m f =
    let enc = tok_find_key m f (codes "encoding") in
    let bits = tok_find_key m f (codes "bits_per_component") in
    if asks m (tok_find_key m f (codes "label")) (codes "u8")
    then true
    else if found enc && found bits
    then asks m enc (codes "unsigned") && asks m bits (codes "8")
    else asks m enc (codes "unsigned")

abbrev pub format_ok : Msg → Option ℕ → Bool
format_ok m none = true
format_ok m (some f) = if is_object (m.toks f).kind then format_matches m f else true

abbrev pub version_ok : Msg → Option ℕ → Bool
version_ok m none = true
version_ok m (some k) = text_is m k (codes "VITA-A/1.0")

-- `dp == 0 || dp > 65535`, and the port otherwise.
unfoldable pub parse_port : Bytes → Option ℕ
parse_port s = let dp = strtoul s in if dp == 0 || ltb 65535 dp then none else some dp

-- Where the samples go to.
pub record Destination : Type 0 where
  pub ip : ℕ
  pub port : ℕ

-- The checks of open_stream between the claim and the allocation of the stream.
unfoldable pub read_transport : ℕ → Bytes → Msg → ℕ → Cmd Destination
unfolding format_matches parse_port release_if require_held
read_transport i id m p = do
  proto ← require_held (tok_find_key m p (codes "protocol")) i id missing_parameter
  release_if (not (text_is m proto (codes "vita49"))) i id unsupported_stream_protocol
  v ← require_held (tok_find_key m p (codes "vita")) i id missing_parameter
  release_if (not (is_object (m.toks v).kind)) i id missing_parameter
  release_if (not (version_ok m (tok_find_key m v (codes "protocol_version")))) i id
      unsupported_stream_protocol
  release_if (not (format_ok m (tok_find_key m v (codes "format")))) i id unsupported_format
  d ← require_held (tok_find_key m v (codes "destination")) i id missing_parameter
  release_if (not (is_object (m.toks d).kind)) i id missing_parameter
  ip_i ← require_held (tok_find_key m d (codes "ip")) i id missing_parameter
  port_i ← require_held (tok_find_key m d (codes "port")) i id missing_parameter
  ip ← require_held (inet_pton (tok_str m.js (m.toks ip_i) 16)) i id invalid_parameter
  port ← require_held (parse_port (tok_str m.js (m.toks port_i) 8)) i id invalid_parameter
  pure (record { ip = ip; port = port })

abbrev pub opened_session : ℕ → Destination → Session → Session
opened_session n d s = record s {
  stream_id = stream_name n;
  vita_stream_id = n;
  dest_ip = d.ip;
  dest_port = d.port;
  iq_fmt = u8;
  has_stream = true;
  state = stream_open;
}

abbrev pub describe_stream : Input → ℕ → World → Opened
describe_stream inp i w =
    let s = w.table i in
    record {
      stream_id = s.stream_id;
      sample_rate_sps = w.bridge.rate_sps;
      sampling_mode = w.bridge.sampling_mode;
      source_ip = inp.source_ip;
      dest_ip = s.dest_ip;
      dest_port = s.dest_port;
      vita_stream_id = s.vita_stream_id;
      format = s.iq_fmt;
    }

-- The end of open_stream: the stream is allocated and described.
unfoldable pub allocate_stream : Input → ℕ → Bytes → Destination → Cmd (Unit {0})
allocate_stream inp i id d = do
  n ← (λ w. let (n, w') = alloc_stream_id w in (some n, w'))
  edit i (opened_session n d)
  o ← gets (describe_stream inp i)
  send_ok i id (opened o)
  modify (broadcast (some i) (control_revoked owned_by_other))

abbrev pub claim : ℕ → Cmd Bool
claim i w = let (done, w') = rx_claim i w in (some done, w')

-- open_stream behind its function and channel checks.
unfoldable pub claim_and_open : Input → ℕ → Bytes → Msg → ℕ → Cmd (Unit {0})
unfolding read_transport allocate_stream
claim_and_open inp i id m p = do
  has ← gets (λ w. (w.table i).has_stream)
  refuse_if has i id stream_already_open
  done ← claim i
  refuse_if (not done) i id in_use
  d ← read_transport i id m p
  allocate_stream inp i id d

-- cmd_open_stream.
unfoldable pub cmd_open_stream : Input → ℕ → Bytes → Msg → Cmd (Unit {0})
unfolding claim_and_open
cmd_open_stream inp i id m = do
  p ← require_function i id m
  channel_ok i id m p
  claim_and_open inp i id m p

abbrev pub params_key : Msg → Bytes → Option ℕ
params_key m key = elim (find_params m) [ none ↦ none | some p ↦ tok_find_key m p key ]

-- What the three stream-handle commands begin with: the stream_id names the session's stream.
unfoldable pub require_stream : ℕ → Bytes → Msg → Cmd (Unit {0})
require_stream i id m = do
  si ← require (params_key m (codes "stream_id")) i id missing_parameter
  s ← gets (λ w. w.table i)
  refuse_if (not s.has_stream || not (eq_bytes (tok_str m.js (m.toks si) 32) s.stream_id)) i id
      stream_not_found

abbrev pub stream_of : Input → ℕ → World → Stream
stream_of inp i w =
    let s = w.table i in
    record {
      id = s.stream_id;
      vita_id = s.vita_stream_id;
      ip = s.dest_ip;
      port = s.dest_port;
      format = s.iq_fmt;
      pf_word0 = payload_fmt w.bridge.sampling_mode;
      epoch = inp.epoch;
      rate = w.bridge.rate_sps;
    }

-- `s->vita_token = vita_session_add(...)`.
unfoldable pub add_vita : Input → ℕ → World → World
add_vita inp i w =
    let (t, v) = session_add w.bridge.gain_tenth_db (stream_of inp i w) w.vita in
    put_session i (record (w.table i) { vita_token = t }) (record w { vita = v })

abbrev pub has_token : Option ℕ → Bool
has_token none = false
has_token (some t) = true

unfoldable pub start_bridge : Device → Cmd Bool
start_bridge dev w =
    let (done, b) = bridge_start dev w.bridge in (some done, record w { bridge = b })

-- `{ vita_session_remove(...); s->vita_token = -1; send_error(...); return; }`
unfoldable pub start_failed : ℕ → Bytes → Cmd (Unit {0})
start_failed i id = do modify (drop_token i); fail i id device_error

unfoldable pub announce : ℕ → Bytes → Bool → Cmd (Unit {0})
announce i id on = do
  send_ok i id (rx_streaming on)
  sid ← gets (λ w. (w.table i).stream_id)
  send_event i (stream_state sid on client_request)

-- The start of the tuner behind the allocation of a VITA session.
unfoldable pub start_added : Device → ℕ → Bytes → Cmd (Unit {0})
unfolding start_bridge start_failed announce
start_added dev i id = do
  done ← start_bridge dev
  (if done then pure tt else start_failed i id)
  edit i (λ s. record s { state = streaming })
  announce i id true

unfoldable pub start_stream : Device → Input → ℕ → Bytes → Cmd (Unit {0})
unfolding add_vita start_added
start_stream dev inp i id = do
  modify (add_vita inp i)
  t ← gets (λ w. (w.table i).vita_token)
  refuse_if (not (has_token t)) i id busy
  start_added dev i id

-- cmd_start_rx.
unfoldable pub cmd_start_rx : Device → Input → ℕ → Bytes → Msg → Cmd (Unit {0})
unfolding require_stream start_stream
cmd_start_rx dev inp i id m = do
  require_stream i id m
  st ← gets (λ w. (w.table i).state)
  (if is_streaming st then send_ok i id (rx_streaming true) else start_stream dev inp i id)

unfoldable pub stop_stream : ℕ → Bytes → Cmd (Unit {0})
unfolding announce
stop_stream i id = do
  modify (drop_token i)
  modify stop_reading
  edit i (λ s. record s { state = stream_open })
  announce i id false

-- cmd_stop_rx.
unfoldable pub cmd_stop_rx : ℕ → Bytes → Msg → Cmd (Unit {0})
unfolding require_stream stop_stream
cmd_stop_rx i id m = do
  require_stream i id m
  st ← gets (λ w. (w.table i).state)
  (if is_streaming st then stop_stream i id else send_ok i id (rx_streaming false))

-- The writes of close_stream to the session, and the release.
unfoldable pub close_session : Bool → ℕ → World → World
close_session was_streaming i w =
    let w₁ = drop_token i w in
    let w₂ = if was_streaming then stop_reading w₁ else w₁ in
    rx_release i
      (put_session i (record (w₂.table i) { has_stream = false; state = idle; stream_id = [] }) w₂)

-- cmd_close_stream.
unfoldable pub cmd_close_stream : ℕ → Bytes → Msg → Cmd (Unit {0})
unfolding require_stream close_session
cmd_close_stream i id m = do
  require_stream i id m
  s ← gets (λ w. w.table i)
  modify (close_session (is_streaming s.state) i)
  send_ok i id closed
  (if is_streaming s.state
      then send_event i (stream_state s.stream_id false client_request)
      else pure tt)

-- ===== src/Vita/Sessions.antt =====
-- vita/vita_tx.c: the session table, and the packets that leave for each session.
use Prim.Native.Nat.{bit_and}
use sdr_slc_rtld.Base.{
  ℕ, ◌+◌, ◌%◌, ◌^◌, Bool, true, false, ◌||◌, not, Option, none, some, List, [], ◌∷◌, ◌++◌, Bytes,
  take, set, get_or, leb, ◌==◌, if◌then◌else◌,
}
use sdr_slc_rtld.Base.Int.{ℤ}
use sdr_slc_rtld.Rtl.Limits.{reference_level_tenth_dbm}
use sdr_slc_rtld.Vita.Packet.{IqFormat, int16, build_context_packet, encode_reference_level}

-- `VitaSession`; the pre-built `dest_addr` is `dest_ip` and `dest_port`.
pub record VitaSession : Type 0 where
  pub active : Bool
  pub stream_id : Bytes
  pub vita_stream_id : ℕ
  pub dest_ip : ℕ
  pub dest_port : ℕ
  pub fmt : IqFormat
  pub payload_fmt_word0 : ℕ
  pub if_pkt_count : ℕ
  pub ctx_pkt_count : ℕ
  pub ctx_sent : Bool
  pub ctx_last_ref_word : ℕ
  pub ctx_last_pf_word0 : ℕ
  pub sample_count : ℕ
  pub cb_count : ℕ
  pub epoch_at_start : ℕ
  pub rate_hz_anchor : ℕ

-- What `memset(&s_sessions[token], 0, sizeof(VitaSession))` leaves.
abbrev pub cleared : VitaSession
cleared = record {
  active = false;
  stream_id = [];
  vita_stream_id = 0;
  dest_ip = 0;
  dest_port = 0;
  fmt = int16;
  payload_fmt_word0 = 0;
  if_pkt_count = 0;
  ctx_pkt_count = 0;
  ctx_sent = false;
  ctx_last_ref_word = 0;
  ctx_last_pf_word0 = 0;
  sample_count = 0;
  cb_count = 0;
  epoch_at_start = 0;
  rate_hz_anchor = 0;
}

-- A UDP packet handed to the kernel.
pub record Datagram : Type 0 where
  pub to_ip : ℕ
  pub to_port : ℕ
  pub payload : Bytes

-- The sender's globals; `sent` holds what was handed to the kernel, oldest first.
pub record Vita : Type 0 where
  pub sock_open : Bool
  pub context_enabled : Bool
  pub sessions : List VitaSession
  pub sent : List Datagram

-- `!ctx_sent || ref_word != ctx_last_ref_word || payload_fmt_word0 != ctx_last_pf_word0`.
unfoldable pub context_changed : VitaSession → ℕ → Bool
context_changed s ref_word =
    not s.ctx_sent
    || not (ref_word == s.ctx_last_ref_word)
    || not (s.payload_fmt_word0 == s.ctx_last_pf_word0)

-- send_context_locked on one session, for the gain in tenths of a dB.
unfoldable pub send_context : Bool → ℤ → VitaSession → List Datagram × VitaSession
unfolding context_changed
send_context enabled gain s =
    if not s.active || not enabled
    then ([], s)
    else (let ref_level = reference_level_tenth_dbm gain in
        let ref_word = encode_reference_level ref_level in
        let packet =
          build_context_packet s.vita_stream_id s.ctx_pkt_count s.payload_fmt_word0 ref_level
            (context_changed s ref_word) in
        (
          record { to_ip = s.dest_ip; to_port = s.dest_port; payload = packet } ∷ [],
          record s {
            ctx_pkt_count = bit_and (s.ctx_pkt_count + 1) 0xf;
            ctx_sent = true;
            ctx_last_ref_word = ref_word;
            ctx_last_pf_word0 = s.payload_fmt_word0;
          },
        ))

-- The loop of vita_send_context_all.
unfoldable pub send_context_loop : Bool → ℤ → List VitaSession → List Datagram × List VitaSession
send_context_loop enabled gain [] = ([], [])
send_context_loop enabled gain (s ∷ ss) =
    let (ds, s') = send_context enabled gain s in
    let (rest, ss') = send_context_loop enabled gain ss in (ds ++ rest, s' ∷ ss')

-- vita_send_context_all.
unfoldable pub send_context_all : ℤ → Vita → Vita
send_context_all gain v =
    if not v.sock_open
    then v
    else (let (ds, ss) = send_context_loop v.context_enabled gain v.sessions in
        record v { sessions = ss; sent = v.sent ++ ds })

-- vita_send_context_packet, for a token that is not negative.
unfoldable pub send_context_packet : ℤ → ℕ → Vita → Vita
send_context_packet gain token v =
    if leb 4 token || not v.sock_open
    then v
    else (let (ds, s) = send_context v.context_enabled gain (get_or v.sessions token cleared) in
        record v { sessions = set v.sessions token s; sent = v.sent ++ ds })

-- What vita_session_add is given: the stream, its destination and format, and the clock and
-- the tuner rate at that moment.
pub record Stream : Type 0 where
  pub id : Bytes
  pub vita_id : ℕ
  pub ip : ℕ
  pub port : ℕ
  pub format : IqFormat
  pub pf_word0 : ℕ
  pub epoch : ℕ
  pub rate : ℕ

-- The fields that vita_session_add writes into a slot. `strncpy` copies 31 bytes at most; the
-- slot was cleared, so a NUL follows them.
unfoldable pub anchored : Stream → VitaSession → VitaSession
anchored a s = record s {
  active = true;
  stream_id = take 31 a.id;
  vita_stream_id = a.vita_id;
  dest_ip = a.ip;
  dest_port = a.port;
  fmt = a.format;
  payload_fmt_word0 = a.pf_word0;
  if_pkt_count = 0;
  ctx_pkt_count = 0;
  ctx_sent = false;
  sample_count = 0;
  cb_count = 0;
  epoch_at_start = a.epoch % 2 ^ 32;
  rate_hz_anchor = a.rate;
}

-- The loop over the slots: the token taken, the packets sent, and the table after.
unfoldable pub add_loop :
    Bool → ℤ → Stream → List VitaSession → Option (ℕ × List Datagram × List VitaSession)
add_loop enabled gain a [] = none
add_loop enabled gain a (s ∷ ss) =
    if not s.active
    then (let (ds, s') = send_context enabled gain (anchored a s) in some (0, ds, s' ∷ ss))
    else (elim (add_loop enabled gain a ss) [ none ↦ none | some r ↦ some (r.0 + 1, r.1, s ∷ r.2) ])

-- vita_session_add; no token is the result -1.
unfoldable pub session_add : ℤ → Stream → Vita → Option ℕ × Vita
session_add gain a v = elim (add_loop v.context_enabled gain a v.sessions) [
  | none ↦ (none, v)
  | some r ↦ (some r.0, record v { sessions = r.2; sent = v.sent ++ r.1 })
]

-- vita_session_remove.
unfoldable pub session_remove : ℕ → Vita → Vita
session_remove token v =
    if leb 4 token then v else record v { sessions = set v.sessions token cleared }

unfoldable pub update_loop : ℕ → List VitaSession → List VitaSession
update_loop pf [] = []
update_loop pf (s ∷ ss) =
    (if s.active then record s { payload_fmt_word0 = pf } else s) ∷ update_loop pf ss

-- vita_update_payload_format.
unfoldable pub update_payload_format : ℕ → Vita → Vita
unfolding update_loop
update_payload_format pf v = record v { sessions = update_loop pf v.sessions }

-- vita_tx_init where the socket opens, and vita_tx_destroy.
unfoldable pub tx_init : Vita → Vita
tx_init v = record v { sock_open = true; sessions = cleared ∷ cleared ∷ cleared ∷ cleared ∷ [] }

unfoldable pub tx_destroy : Vita → Vita
tx_destroy v = record v { sock_open = false }

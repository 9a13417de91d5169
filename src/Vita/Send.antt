-- ===== src/Vita/Send.antt =====
-- vita/vita_tx.c: vita_send_callback, the path of the samples.
use Prim.Native.Nat.{bit_and}
use sdr_slc_rtld.Base.{
  ℕ, zero, suc, ◌+◌, ◌*◌, ◌/◌, ◌%◌, ◌^◌, not, ◌||◌, List, [], ◌∷◌, ◌++◌, Bytes, length, drop, min,
  ◌==◌, if◌then◌else◌,
}
use sdr_slc_rtld.Vita.Packet.{build_if_data_packet}
use sdr_slc_rtld.Vita.Sessions.{VitaSession, Datagram, Vita}

-- tsi and picos of the next packet. `rate_hz` is an uint64_t, and so is every product.
unfoldable pub seconds : VitaSession → ℕ
seconds s =
    (s.epoch_at_start
      + (if s.rate_hz_anchor == 0 then 0 else s.sample_count / s.rate_hz_anchor % 2 ^ 32))
    % 2 ^ 32

unfoldable pub picos : VitaSession → ℕ
picos s =
    if s.rate_hz_anchor == 0
    then 0
    else s.sample_count % s.rate_hz_anchor * 1000000000000 % 2 ^ 64 / s.rate_hz_anchor

unfoldable pub data_packet : VitaSession → Bytes → Datagram
data_packet s chunk = record {
  to_ip = s.dest_ip;
  to_port = s.dest_port;
  payload =
      build_if_data_packet s.vita_stream_id s.if_pkt_count (seconds s) (picos s) chunk 256 s.fmt;
}

unfoldable pub advance : VitaSession → VitaSession
advance s = record s {
  if_pkt_count = bit_and (s.if_pkt_count + 1) 0xf;
  sample_count = (s.sample_count + 256) % 2 ^ 64;
}

-- The build loop over `num_pkts` packets of 512 bytes.
unfoldable pub build_loop : ℕ → Bytes → VitaSession → List Datagram × VitaSession
build_loop zero chunk s = ([], s)
build_loop (suc n) chunk s =
    let (ds, s') = build_loop n (drop 512 chunk) (advance s) in (data_packet s chunk ∷ ds, s')

-- One session's turn: its packets go to sendmmsg in one call, and cb_count grows.
unfoldable pub serve_session : ℕ → Bytes → VitaSession → List Datagram × VitaSession
serve_session n buf s =
    if not s.active
    then ([], s)
    else (let (ds, s') = build_loop n buf s in
        (ds, record s' { cb_count = (s'.cb_count + 1) % 2 ^ 64 }))

unfoldable pub serve_loop : ℕ → Bytes → List VitaSession → List Datagram × List VitaSession
serve_loop n buf [] = ([], [])
serve_loop n buf (s ∷ ss) =
    let (ds, s') = serve_session n buf s in
    let (rest, ss') = serve_loop n buf ss in (ds ++ rest, s' ∷ ss')

abbrev pub num_pkts : Bytes → ℕ
num_pkts buf = min (length buf / 512) 1024

-- vita_send_callback. The result of sendmmsg is only logged.
unfoldable pub send_callback : Bytes → Vita → Vita
send_callback buf v =
    if not v.sock_open || length buf / 512 == 0
    then v
    else (let (ds, ss) = serve_loop (num_pkts buf) buf v.sessions in
        record v { sessions = ss; sent = v.sent ++ ds })

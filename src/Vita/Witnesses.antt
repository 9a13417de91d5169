-- ===== src/Vita/Witnesses.antt =====
-- The theorems on vita/vita_tx.c at a sender with one stream.
use sdr_slc_rtld.Base.{
  ℕ, ◌+◌, ◌*◌, ◌%◌, ◌^◌, ◌≡◌, refl, true, none, some, [], ◌∷◌, ◌++◌, Bytes, length, replicate,
  length-replicate, ◌⊎◌, arith,
}
use sdr_slc_rtld.Base.Int.{pos}
use sdr_slc_rtld.Vita.Packet.{u8}
use sdr_slc_rtld.Vita.Sessions.{VitaSession, Vita, Stream, cleared, session_add}
use sdr_slc_rtld.Vita.Send.{serve_session}
use sdr_slc_rtld.Vita.Active.{Adds, session_add-Adds}
use sdr_slc_rtld.Vita.Counts.{AllSized, serve_session-active}
use sdr_slc_rtld.Vita.First.{first_context, session_add-first}

abbrev one_stream : Stream
one_stream = record {
  id = 114 ∷ [];
  vita_id = 1;
  ip = 167772161;
  port = 5000;
  format = u8;
  pf_word0 = 7;
  epoch = 1700000000;
  rate = 2048000;
}

abbrev playing : VitaSession
playing = record cleared {
  active = true;
  fmt = u8;
  if_pkt_count = 15;
  sample_count = 256;
  payload_fmt_word0 = 7;
}

abbrev sender : Vita
sender = record {
  sock_open = true;
  context_enabled = true;
  sessions = playing ∷ cleared ∷ [];
  sent = [];
}

abbrev samples : Bytes
samples = replicate 512 127

session_add-Adds_example : Adds sender (session_add (pos 200) one_stream sender)
session_add-Adds_example = session_add-Adds (pos 200) one_stream sender

serve_session-active_example :
    let r = serve_session 1 samples playing in
    AllSized playing r.0
    × (length r.0 ≡ 1)
    × (r.1.if_pkt_count ≡ (15 + 1) % 16)
    × (r.1.sample_count ≡ (256 + 256 * 1) % 2 ^ 64)
    × (r.1.active ≡ true)
serve_session-active_example =
    serve_session-active 1 samples playing refl (omega arith)
      (omega (arith, length-replicate {A = ℕ} 512 127))

session_add-first_example :
    let r = session_add (pos 200) one_stream sender in
    ((r.0 ≡ none) × (r.1.sent ≡ sender.sent))
    ⊎ ((t : ℕ) × (r.0 ≡ some t)
        × (r.1.sent ≡ sender.sent ++ (first_context (pos 200) one_stream ∷ [])))
session_add-first_example = session_add-first (pos 200) one_stream sender refl

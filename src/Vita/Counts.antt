-- ===== src/Vita/Counts.antt =====
-- What vita_send_callback counts and sends: packet sizes, packet counts and sample counts.
use Prim.Native.Nat.{bit_and}
use sdr_slc_rtld.Base.{
  ℕ, zero, suc, ◌+◌, ◌-◌, ◌*◌, ◌%◌, ◌^◌, ◌≤◌, ◌<◌, ◌≡◌, refl, ap, ◌∙◌, true, false, List, [], ◌∷◌,
  Bytes, length, take, drop, length-append, length-take, ◌==◌, if◌then◌else◌, arith, ==_iff,
  below-at,
}
use sdr_slc_rtld.Vita.Packet.{
  IqFormat, int16, u8, be32, int16_be, int16_payload, build_if_data_packet, padding,
}
use sdr_slc_rtld.Vita.Sessions.{VitaSession, Datagram, Vita}
use sdr_slc_rtld.Vita.Send.{seconds, picos, data_packet, advance, build_loop, serve_session}

length-drop : (n : ℕ) (xs : Bytes) → length (drop n xs) ≡ length xs - n
length-drop zero xs = omega arith
length-drop (suc n) [] = omega arith
length-drop (suc n) (x ∷ xs) = omega (arith, length-drop n xs)

length-int16_payload : (us : Bytes) → length (int16_payload us) ≡ 2 * length us
unfolding int16_payload int16_be
length-int16_payload [] = refl
length-int16_payload (u ∷ us) = omega (arith, length-int16_payload us)

-- The bytes of a packet of 256 samples, by the format.
abbrev pub packet_bytes : IqFormat → ℕ
packet_bytes int16 = 1052
packet_bytes u8 = 540

length-build_if_data_packet :
    (sid count tsi tsf : ℕ) (iq : Bytes) (f : IqFormat)
    → 512 ≤ length iq
    → length (build_if_data_packet sid count tsi tsf iq 256 f) ≡ packet_bytes f
unfolding build_if_data_packet be32
length-build_if_data_packet sid count tsi tsf iq int16 h =
    omega (arith, length-int16_payload (take 512 iq), length-take 512 iq, h)
length-build_if_data_packet sid count tsi tsf iq u8 h =
    omega (arith, length-append (take 512 iq) (padding 256), length-take 512 iq, h)

-- The low four bits of a count that fits them, plus one.
pub next_count : (a : ℕ) → a < 16 → bit_and (a + 1) 0xf ≡ (a + 1) % 16
next_count a h =
    (==_iff (bit_and (a + 1) 0xf) ((a + 1) % 16)).0
      (below-at (λ c. bit_and (c + 1) 0xf == (c + 1) % 16) 16 a h refl)

-- The state of a session after n packets.
record Advanced (n : ℕ) (s s' : VitaSession) : Type 0 where
  packets : s'.if_pkt_count ≡ (s.if_pkt_count + n) % 16
  samples : s'.sample_count ≡ (s.sample_count + 256 * n) % 2 ^ 64
  active : s'.active ≡ s.active
  format : s'.fmt ≡ s.fmt

advance-Advanced : (s : VitaSession) → s.if_pkt_count < 16 → Advanced 1 s (advance s)
unfolding advance
advance-Advanced s h = record {
  packets = next_count s.if_pkt_count h;
  samples = omega arith;
  active = refl;
  format = refl;
}

build_loop-Advanced :
    (n : ℕ) (chunk : Bytes) (s : VitaSession)
    → s.if_pkt_count < 16
    → s.sample_count < 2 ^ 64
    → Advanced n s (build_loop n chunk s).1
unfolding build_loop
build_loop-Advanced zero chunk s h g = record {
  packets = omega (arith, h);
  samples = omega (arith, g);
  active = refl;
  format = refl;
}
build_loop-Advanced (suc n) chunk s h g =
    let a = advance-Advanced s h in
    let r =
      build_loop-Advanced n (drop 512 chunk) (advance s) (omega (arith, a.packets))
        (omega (arith, a.samples)) in
    record {
      packets = omega (arith, r.packets, a.packets);
      samples = omega (arith, r.samples, a.samples);
      active = r.active ∙ a.active;
      format = r.format ∙ a.format;
    }

-- Datagrams for one session: to its destination, with the packet size of its format.
abbrev pub AllSized : VitaSession → List Datagram → Type 0
AllSized s [] = Unit {0}
AllSized s (d ∷ ds) =
    (d.to_ip ≡ s.dest_ip)
    × (d.to_port ≡ s.dest_port)
    × (length d.payload ≡ packet_bytes s.fmt)
    × AllSized s ds

build_loop-AllSized :
    (n : ℕ) (chunk : Bytes) (s : VitaSession)
    → 512 * n ≤ length chunk
    → AllSized s (build_loop n chunk s).0 × (length (build_loop n chunk s).0 ≡ n)
unfolding build_loop data_packet advance
build_loop-AllSized zero chunk s h = (tt, refl)
build_loop-AllSized (suc n) chunk s h =
    let r =
      build_loop-AllSized n (drop 512 chunk) (advance s)
        (omega (arith, h, length-drop 512 chunk)) in
    (
      (
        refl,
        refl,
        length-build_if_data_packet s.vita_stream_id s.if_pkt_count (seconds s) (picos s) chunk
            s.fmt (omega (arith, h)),
        r.0,
      ),
      ap suc r.1,
    )

-- Counts that a session of vita_session_add has, and keeps.
abbrev pub InRange : VitaSession → Type 0
InRange s = (s.if_pkt_count < 16) × (s.sample_count < 2 ^ 64)

-- A turn of an active session, with samples for n packets of 256: n datagrams go to its
-- destination, each of the size of its format, the packet count advances by n modulo 16 and the
-- sample count by 256 * n.
pub serve_session-active :
    (n : ℕ) (buf : Bytes) (s : VitaSession)
    → s.active ≡ true
    → InRange s
    → 512 * n ≤ length buf
    → let r = serve_session n buf s in
      AllSized s r.0
      × (length r.0 ≡ n)
      × (r.1.if_pkt_count ≡ (s.if_pkt_count + n) % 16)
      × (r.1.sample_count ≡ (s.sample_count + 256 * n) % 2 ^ 64)
      × (r.1.active ≡ true)
unfolding serve_session
serve_session-active n buf s on (c, k) h =
    let a = build_loop-Advanced n buf s c k in
    let z = build_loop-AllSized n buf s h in simp on (z.0, z.1, a.packets, a.samples, a.active ∙ on)

serve_session-inactive :
    (n : ℕ) (buf : Bytes) (s : VitaSession) → s.active ≡ false → serve_session n buf s ≡ ([], s)
unfolding serve_session
serve_session-inactive n buf s off = simp off refl

abbrev pub active_count : List VitaSession → ℕ
active_count [] = 0
active_count (s ∷ ss) = (if s.active then 1 else 0) + active_count ss

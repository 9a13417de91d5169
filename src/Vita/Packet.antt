-- ===== src/Vita/Packet.antt =====
-- vita/vita_tx.c: the packet builders. A packet is its bytes, `htonl` written out.
use Prim.Native.Nat.{bit_and, bit_or}
use sdr_slc_rtld.Base.{
  ℕ, ◌+◌, ◌-◌, ◌*◌, ◌/◌, ◌%◌, ◌^◌, Bool, true, false, [], ◌∷◌, ◌++◌, Bytes, take, replicate, leb,
  ltb, ◌==◌, if◌then◌else◌,
}
use sdr_slc_rtld.Base.Int.{ℤ, pos, negsuc}

-- `iq_format_t`.
pub data IqFormat : Type 0 where
  int16 u8 : IqFormat

abbrev pub is_int16 : IqFormat → Bool
is_int16 int16 = true
is_int16 u8 = false

-- A 32-bit word in network order.
unfoldable pub be32 : ℕ → Bytes
be32 w = w / 2 ^ 24 % 256 ∷ w / 2 ^ 16 % 256 ∷ w / 2 ^ 8 % 256 ∷ w % 256 ∷ []

-- The value cast to int16_t by u8_to_int16_be, as its 16-bit pattern. With the samples in
-- tenths, (u - 127.4) * 32767 / 128 is (10 u - 1274) * 32767 / 1280, and the cast drops the
-- fraction; for each of the 256 bytes the program's `float` arithmetic gives the same integer.
-- No byte reaches the clamp.
unfoldable pub sample_int16 : ℕ → ℕ
sample_int16 u =
    if leb 1274 (10 * u)
    then (10 * u - 1274) * 32767 / 1280
    else (2 ^ 16 - (1274 - 10 * u) * 32767 / 1280) % 2 ^ 16

-- The two bytes that u8_to_int16_be leaves in memory on a little-endian host.
unfoldable pub int16_be : ℕ → Bytes
unfolding sample_int16
int16_be u = sample_int16 u / 256 ∷ sample_int16 u % 256 ∷ []

unfoldable pub int16_payload : Bytes → Bytes
unfolding int16_be
int16_payload [] = []
int16_payload (u ∷ us) = int16_be u ++ int16_payload us

abbrev pub payload_bytes : IqFormat → ℕ → ℕ
payload_bytes int16 pairs = pairs * 4 % 2 ^ 16
payload_bytes u8 pairs = pairs * 2 % 2 ^ 16

abbrev pub payload_words : IqFormat → ℕ → ℕ
payload_words int16 pairs = pairs
payload_words u8 pairs = (payload_bytes u8 pairs + 3) / 4 % 2 ^ 16

-- The bytes after the copied samples, up to a whole word.
abbrev pub padding : ℕ → Bytes
padding pairs = if pairs * 2 % 4 == 0 then [] else replicate (4 - pairs * 2 % 4) 0

unfoldable pub if_data_header : ℕ → ℕ → ℕ
if_data_header pkt_count pkt_size =
    bit_or (bit_or 0x18600000 (bit_and pkt_count 0xf * 2 ^ 16)) pkt_size

-- vita_build_if_data_packet; `iq` holds 2 * num_pairs bytes or more.
unfoldable pub build_if_data_packet : ℕ → ℕ → ℕ → ℕ → Bytes → ℕ → IqFormat → Bytes
unfolding be32 if_data_header int16_payload
build_if_data_packet stream_id pkt_count tsi tsf iq num_pairs fmt =
    let pkt_size = (7 + payload_words fmt num_pairs) % 2 ^ 16 in
    be32 (if_data_header pkt_count pkt_size)
    ++ (be32 stream_id
        ++ (be32 0x00402814
            ++ (be32 0x00000001
                ++ (be32 tsi
                    ++ (be32 (tsf / 2 ^ 32 % 2 ^ 32)
                        ++ (be32 (tsf % 2 ^ 32)
                            ++ (if is_int16 fmt
                                then int16_payload (take (num_pairs * 2) iq)
                                else take (num_pairs * 2) iq ++ padding num_pairs)))))))

-- vita_encode_reference_level, for a level in tenths of a dBm. The doubles of the program hold
-- dBm * 128 exactly to far below the distance of (tenths * 128) / 10 from a half, so rounding
-- half away from zero on tenths is the same function.
unfoldable pub encode_reference_level : ℤ → ℕ
encode_reference_level (pos t) = if ltb 327670 (t * 128) then 32767 else (t * 128 + 5) / 10
encode_reference_level (negsuc t) =
    let scaled = (t + 1) * 128 in
    if ltb 327680 scaled then 32768 else (2 ^ 16 - (scaled + 5) / 10) % 2 ^ 16

unfoldable pub cif0 : Bool → ℕ
cif0 changed = bit_or (bit_or 0x01000000 0x00008000) (if changed then 0x80000000 else 0)

unfoldable pub context_header : ℕ → ℕ
context_header pkt_count = bit_or (bit_or 0x40000000 (bit_and pkt_count 0xf * 2 ^ 16)) 6

-- vita_build_context_packet.
unfoldable pub build_context_packet : ℕ → ℕ → ℕ → ℤ → Bool → Bytes
unfolding be32 context_header cif0
build_context_packet stream_id pkt_count pf_word0 ref_level changed =
    be32 (context_header pkt_count)
    ++ (be32 stream_id
        ++ (be32 (cif0 changed)
            ++ (be32 (encode_reference_level ref_level) ++ (be32 pf_word0 ++ be32 0))))

-- ===== src/Mdns/Query.antt =====
-- common/mdns_builtin.c: the reading of queries.
use sdr_slc_rtld.Base.{
  ℕ, zero, suc, ◌+◌, ◌*◌, ◌%◌, Bool, true, false, not, ◌&&◌, ◌||◌, Option, none, some, [], ◌∷◌,
  ◌++◌, Bytes, codes, length, take, drop, byte_at, eq_bytes, map, ltb, leb, ◌==◌, if◌then◌else◌,
}
use sdr_slc_rtld.Libc.{until_nul}
use sdr_slc_rtld.Mdns.Packet.{Service, Which, printed}

-- `jumped_to < 0 ? p : *pos`: where the caller goes on.
abbrev pub resumes : Option ℕ → ℕ → ℕ
resumes none p = p
resumes (some at) p = at

abbrev pub dotted : Bytes → Bytes → Bytes
dotted [] label = label
dotted (c ∷ out) label = (c ∷ out) ++ (b'.' ∷ label)

-- How a round of the loop of dns_read_name ends: with the result of the function, with the `break`
-- at the empty label and `p` behind it, or with the next `p`, what a pointer has left in `*pos`, and
-- the output so far.
pub data Round : Type 0 where
  returns : Round
  breaks : ℕ → Round
  goes_on : ℕ → Option ℕ → Bytes → Round

-- A compression pointer.
unfoldable pub follow_pointer : Bytes → ℕ → Option ℕ → Bytes → Round
follow_pointer buf p at out =
    if leb (length buf) (p + 1)
    then returns
    else goes_on (byte_at buf p % 64 * 256 + byte_at buf (p + 1)) (some (resumes at (p + 2))) out

-- A label, for an output of `cap` bytes.
unfoldable pub take_label : Bytes → ℕ → ℕ → Option ℕ → Bytes → Round
take_label buf cap p at out =
    let l = byte_at buf p in
    if ltb (length buf) (p + 1 + l)
    then returns
    else if ltb cap (length out + l + 2)
    then returns
    else goes_on (p + 1 + l) at (dotted out (take l (drop (p + 1) buf)))

unfoldable pub read_round : Bytes → ℕ → ℕ → Option ℕ → Bytes → Round
unfolding follow_pointer take_label
read_round buf cap p at out =
    if leb (length buf) p
    then returns
    else if byte_at buf p == 0
    then breaks (p + 1)
    else if leb 192 (byte_at buf p)
    then follow_pointer buf p at out
    else take_label buf cap p at out

-- The loop of dns_read_name over at most `guard` labels and pointers.
unfoldable pub read_loop : ℕ → Bytes → ℕ → ℕ → Option ℕ → Bytes → Option (Bytes × ℕ)
unfolding read_round
read_loop zero buf cap p at out = some (out, resumes at p)
read_loop (suc guard) buf cap p at out = elim (read_round buf cap p at out) [
  | returns ↦ none
  | breaks q ↦ some (out, resumes at q)
  | goes_on p' at' out' ↦ read_loop guard buf cap p' at' out'
]

-- dns_read_name.
unfoldable pub dns_read_name : Bytes → ℕ → ℕ → Option (Bytes × ℕ)
unfolding read_loop
dns_read_name buf pos cap = read_loop 64 buf cap pos none []

unfoldable pub to_lower : ℕ → ℕ
to_lower c = if leb b'A' c && leb c b'Z' then c + 32 else c

-- `strcasecmp(a, b) == 0`, of C strings.
unfoldable pub eq_name : Bytes → Bytes → Bool
unfolding to_lower
eq_name a b = eq_bytes (map to_lower a) (map to_lower b)

abbrev pub all_records : Which
all_records = record { ptr = true; srv = true; txt = true; a = true }

abbrev pub no_records : Which
no_records = record { ptr = false; srv = false; txt = false; a = false }

-- `which |= ...`.
abbrev pub join : Which → Which → Which
join x y = record {
  ptr = x.ptr || y.ptr;
  srv = x.srv || y.srv;
  txt = x.txt || y.txt;
  a = x.a || y.a;
}

-- The records for one question.
unfoldable pub records_for : Service → Bytes → ℕ → Which
unfolding eq_name
records_for s name qtype =
    let any = qtype == 255 in
    let is_service = eq_name name (codes "_sdr-slc._tcp.local") && (any || qtype == 12) in
    let is_meta = eq_name name (codes "_services._dns-sd._udp.local") && (any || qtype == 12) in
    if is_service || is_meta
    then all_records
    else if eq_name name (printed 128 (s.instance_name ++ codes "._sdr-slc._tcp.local"))
    then record {
      ptr = false;
      srv = any || qtype == 33;
      txt = any || qtype == 16;
      a = any || qtype == 33;
    }
    else if eq_name name (printed 96 (s.instance_name ++ codes ".local")) && (any || qtype == 1)
    then record no_records { a = true }
    else no_records

abbrev pub u16_at : Bytes → ℕ → ℕ
u16_at buf p = byte_at buf p * 256 + byte_at buf (p + 1)

-- The loop over the questions, of which `qd` are left.
unfoldable pub question_loop : ℕ → Service → Bytes → ℕ → Which → Which
unfolding dns_read_name records_for until_nul
question_loop zero s buf pos which = which
question_loop (suc qd) s buf pos which = elim (dns_read_name buf pos 256) [
  | none ↦ which
  | some r ↦ (elim (ltb (length buf) (r.1 + 4)) [
    | true ↦ which
    | false ↦
        question_loop qd s buf (r.1 + 4)
          (join which (records_for s (until_nul r.0) (u16_at buf r.1)))
  ])
]

-- records_for_query. `(buf[2] & 0x80)` is a byte from 128 on.
unfoldable pub records_for_query : Service → Bytes → Which
unfolding question_loop
records_for_query s buf =
    if ltb (length buf) 12 || leb 128 (byte_at buf 2)
    then no_records
    else question_loop (u16_at buf 4) s buf 12 no_records

abbrev pub is_empty : Which → Bool
is_empty w = not (w.ptr || w.srv || w.txt || w.a)

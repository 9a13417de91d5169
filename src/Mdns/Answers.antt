-- ===== src/Mdns/Answers.antt =====
-- common/mdns_builtin.c: which packets are answered.
use mathlib.Core.List.{append_assoc}
use mathlib.Core.Option.{some-injective}
use sdr_slc_rtld.Base.{
  ℕ, zero, suc, ◌+◌, ◌*◌, ◌/◌, ◌%◌, ◌≤◌, ◌<◌, ◌≡◌, ◌≢◌, refl, ap, sym, ◌∙◌, subst, Bool, true,
  false, none, some, List, [], ◌∷◌, ◌++◌, Bytes, length, set, byte_at, length-append, ltb, leb,
  if◌then◌else◌, arith, Bool-cases, inl, inr,
}
use sdr_slc_rtld.Libc.{until_nul}
use sdr_slc_rtld.Mdns.Packet.{
  Dns, Service, Which, capacity, dns_name, put_answers, put_header, send_records,
}
use sdr_slc_rtld.Mdns.Query.{
  dns_read_name, records_for, question_loop, records_for_query, no_records, join, u16_at,
}
use sdr_slc_rtld.Mdns.Room.{length-set}
use sdr_slc_rtld.Mdns.Names.{AllLabels, name_text, joined, wire, label_count, dns_name-Puts}
use sdr_slc_rtld.Mdns.RoundTrip.{dns_read_name-dns_name}

byte_at-set : (s : Bytes) (i j v : ℕ) → i ≢ j → byte_at (set s i v) j ≡ byte_at s j
byte_at-set [] i j v n = refl
byte_at-set (x ∷ xs) zero zero v n = absurd (n refl)
byte_at-set (x ∷ xs) zero (suc j) v n = refl
byte_at-set (x ∷ xs) (suc i) zero v n = refl
byte_at-set (x ∷ xs) (suc i) (suc j) v n = byte_at-set xs i j v (λ e. n (ap suc e))

byte_at-set_self : (s : Bytes) (i v : ℕ) → i < length s → byte_at (set s i v) i ≡ v
byte_at-set_self [] i v h = absurd (omega (arith, h))
byte_at-set_self (x ∷ xs) zero v h = refl
byte_at-set_self (x ∷ xs) (suc i) v h = byte_at-set_self xs i v (omega (arith, h))

length-put_header : (n : ℕ) (b : Bytes) → length (put_header n b) ≡ length b
unfolding put_header
length-put_header n b = length-set _ 7 _ ∙ length-set _ 6 _ ∙ length-set _ 3 0 ∙ length-set b 2 132

put_header-qr : (n : ℕ) (b : Bytes) → 2 < length b → byte_at (put_header n b) 2 ≡ 132
unfolding put_header
put_header-qr n b h =
    byte_at-set (set (set (set b 2 132) 3 0) 6 (n / 256 % 256)) 7 2 (n % 256)
      (λ e. omega (arith, e))
    ∙ byte_at-set (set (set b 2 132) 3 0) 6 2 (n / 256 % 256) (λ e. omega (arith, e))
    ∙ byte_at-set (set b 2 132) 3 2 0 (λ e. omega (arith, e))
    ∙ byte_at-set_self b 2 132 h

put_header-silent :
    (other : Service) (n : ℕ) (b : Bytes) → records_for_query other (put_header n b) ≡ no_records
unfolding records_for_query
put_header-silent other n b = elim (Bool-cases (ltb (length b) 12)) [
  | inl k ↦ rw (length-put_header n b, k) refl
  | inr k ↦ rw (length-put_header n b, k, put_header-qr n b (ground arith)) refl
]

module _ (s other : Service) (which : Which) (ttl : ℕ) where
  -- No responder answers a packet that send_records has built: responses do not set off responses.
  pub send_records-silent :
      (p : Bytes) → send_records s which ttl ≡ some p → records_for_query other p ≡ no_records
  unfolding send_records
  send_records-silent p e = by_overflow (put_answers s which ttl).dns.overflow e
    where
      by_overflow :
          (b : Bool)
          → (if b
              then none
              else some (
                  put_header (put_answers s which ttl).ancount (put_answers s which ttl).dns.bytes))
            ≡ some p
          → records_for_query other p ≡ no_records
      by_overflow true e = ground arith
      by_overflow false e =
          subst (λ q. records_for_query other q ≡ no_records) (some-injective _ _ e)
            (put_header-silent other _ _)

-- The head of a query of one question.
pub record AsksOnce (head : Bytes) : Type 0 where
  pub long : length head ≡ 12
  pub asks : byte_at head 2 < 128
  pub once : u16_at head 4 ≡ 1

byte_at-before : (s t : Bytes) (i : ℕ) → i < length s → byte_at (s ++ t) i ≡ byte_at s i
byte_at-before [] t i h = absurd (omega (arith, h))
byte_at-before (x ∷ xs) t zero h = refl
byte_at-before (x ∷ xs) t (suc i) h = byte_at-before xs t i (omega (arith, h))

byte_at-behind : (s t : Bytes) (i : ℕ) → byte_at (s ++ t) (length s + i) ≡ byte_at t i
byte_at-behind [] t i = ap (byte_at t) (omega arith)
byte_at-behind (x ∷ xs) t i =
    let next : suc (length xs) + i ≡ suc (length xs + i) = omega arith in
    rw next (byte_at-behind xs t i)

-- Behind the name: the type and the class of the question.
abbrev pub question_end : ℕ → ℕ → Bytes
question_end qtype class = (qtype / 256) ∷ (qtype % 256) ∷ (class / 256) ∷ (class % 256) ∷ []

not_ltb : (a b : ℕ) → b ≤ a → ltb a b ≡ false
not_ltb a b h = ground arith

not_leb : (a : ℕ) {b : ℕ} (c : ℕ) → c ≡ b → b < a → leb a c ≡ false
not_leb a c e h = ground (arith, e, h)

two_bytes : (n a b : ℕ) → a ≡ n / 256 → b ≡ n % 256 → a * 256 + b ≡ n
two_bytes n a b p q = omega (arith, p, q)

one_question :
    (s : Service) (buf : Bytes) (name : Bytes) (at : ℕ)
    → dns_read_name buf 12 256 ≡ some (name, at)
    → at + 4 ≤ length buf
    → question_loop 1 s buf 12 no_records
      ≡ join no_records (records_for s (until_nul name) (u16_at buf at))
unfolding question_loop
one_question s buf name at e h = rw (e, not_ltb (length buf) (at + 4) h, question_loop) refl

module _ (s : Service) (ls : List Bytes) (head : Bytes) (qtype class : ℕ) where
  abbrev named_dns : Dns
  named_dns = dns_name (name_text ls) (record { bytes = head; overflow = false })

  -- A query with one question.
  abbrev pub query : Bytes
  query = named_dns.bytes ++ question_end qtype class

  module _ (ask : AsksOnce head) (labels : AllLabels ls)
      (room : length head + length (wire ls ++ (0 ∷ [])) ≤ capacity) where
    named_bytes : named_dns.bytes ≡ head ++ (wire ls ++ (0 ∷ []))
    named_bytes =
        ap (λ (d : Dns). d.bytes)
          ((dns_name-Puts ls labels).at (record { bytes = head; overflow = false }) room)

    query-head : (i : ℕ) → i < 12 → byte_at query i ≡ byte_at head i
    query-head i h =
        ap (λ b. byte_at (b ++ question_end qtype class) i) named_bytes
        ∙ ap (λ b. byte_at b i) (append_assoc head (wire ls ++ (0 ∷ [])) _)
        ∙ byte_at-before head _ i (omega (arith, ask.long, h))

    query-length : length query ≡ length named_dns.bytes + 4
    query-length = length-append named_dns.bytes (question_end qtype class)

    query-long : 12 ≤ length query
    query-long = omega (
      arith,
      query-length,
      ap length named_bytes,
      length-append head (wire ls ++ (0 ∷ [])),
      ask.long,
    )

    query-qtype : u16_at query (length named_dns.bytes) ≡ qtype
    query-qtype =
        let first =
          ap (byte_at query) (omega arith)
          ∙ byte_at-behind named_dns.bytes (question_end qtype class) 0 in
        two_bytes qtype _ _ first (byte_at-behind named_dns.bytes (question_end qtype class) 1)

    -- A query of one question, for a name of at most 63 labels and 255 bytes that dns_name has written
    -- behind the header, is answered with the records that the responder has for that name and type.
    pub records_for_query-query :
        label_count ls < 64
        → length (name_text ls) < 256
        → records_for_query s query ≡ records_for s (until_nul (joined [] ls)) qtype
    unfolding records_for_query
    records_for_query-query few short =
        let is_query : leb 128 (byte_at query 2) ≡ false =
          not_leb 128 _ (query-head 2 (omega arith)) ask.asks in
        let one : u16_at query 4 ≡ 1 =
          ap (λ x. x * 256 + byte_at query 5) (query-head 4 (omega arith))
          ∙ ap (λ x. byte_at head 4 * 256 + x) (query-head 5 (omega arith))
          ∙ ask.once in
        let name =
          ap (λ n. dns_read_name query n 256) (sym ask.long)
          ∙ dns_read_name-dns_name ls (record { bytes = head; overflow = false })
              (question_end qtype class) 256 labels few (omega (arith, short)) room in
        rw (not_ltb (length query) 12 query-long, is_query, one)
          (one_question s query (joined [] ls) (length named_dns.bytes) name
              (omega (arith, query-length))
            ∙ ap (records_for s (until_nul (joined [] ls))) query-qtype)

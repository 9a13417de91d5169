-- ===== src/Mdns/Room.antt =====
-- common/mdns_builtin.c: how many bytes each part of a packet takes.
use sdr_slc_rtld.Base.{
  ℕ, zero, suc, ◌+◌, ◌-◌, ◌/◌, ◌%◌, ◌≤◌, ◌≡◌, refl, ap, Bool, true, false, Option, none, some, List,
  [], ◌∷◌, Bytes, length, set, length-append, ltb, ◌==◌, arith, Bool-cases, inl, inr,
}
use sdr_slc_rtld.Mdns.Packet.{
  Dns, capacity, dns_put8, dns_put16, dns_put32, put_all, split_dot, name_loop, dns_name, dns_ptr,
  dns_patch_rdlen, put_owner, dns_rr, put_record, put_strings,
}

-- With room for `n` bytes, `f` takes that many at most and sets no flag.
pub record Takes (n : ℕ) (f : Dns → Dns) : Type 0 where
  pub at :
      (d : Dns)
      → d.overflow ≡ false
      → length d.bytes + n ≤ capacity
      → ((f d).overflow ≡ false) × (length (f d).bytes ≤ length d.bytes + n)

pub Takes-chain : {n m : ℕ} {f g : Dns → Dns} → Takes n f → Takes m g → Takes (n + m) (λ d. g (f d))
Takes-chain {n} {m} {f} {g} a b = record {
  at = λ d o r.
      let (o', l) = a.at d o (omega (arith, r)) in
      let (o'', l') = b.at (f d) o' (omega (arith, r, l)) in (o'', omega (arith, l, l'));
}

pub Takes-le : {n m : ℕ} {f : Dns → Dns} → n ≤ m → Takes n f → Takes m f
Takes-le h a = record {
  at = λ d o r. let (o', l) = a.at d o (omega (arith, r, h)) in (o', omega (arith, l, h));
}

Takes-same : Takes 0 (λ d. d)
Takes-same = record { at = λ d o r. (o, omega arith) }

pub put8-Takes : (v : ℕ) → Takes 1 (dns_put8 v)
unfolding dns_put8
put8-Takes v = record {
  at = λ d o r. elim (Bool-cases (ltb (length d.bytes) capacity)) [
    | inl e ↦ rw e (o, omega (arith, length-append d.bytes (v % 256 ∷ [])))
    | inr e ↦ absurd (ground (arith, r))
  ];
}

pub put16-Takes : (v : ℕ) → Takes 2 (dns_put16 v)
unfolding dns_put16
put16-Takes v = Takes-chain (put8-Takes (v / 256)) (put8-Takes v)

put32-Takes : (v : ℕ) → Takes 4 (dns_put32 v)
unfolding dns_put32
put32-Takes v = Takes-chain (put16-Takes (v / 65536)) (put16-Takes (v % 65536))

put_all-Takes : (s : Bytes) → Takes (length s) (put_all s)
unfolding put_all
put_all-Takes [] = Takes-same
put_all-Takes (c ∷ cs) = Takes-le (omega arith) (Takes-chain (put8-Takes c) (put_all-Takes cs))

abbrev Splits : Bytes → Option (Bytes × Bytes) → Type 0
Splits s none = Unit
Splits s (some p) = length p.0 + 1 + length p.1 ≡ length s

split_dot-Splits : (s : Bytes) → Splits s (split_dot s)
unfolding split_dot
split_dot-Splits [] = tt
split_dot-Splits (c ∷ cs) = by_test (c == b'.') (split_dot cs) (split_dot-Splits cs)
  where
    by_test :
        (b : Bool) (o : Option (Bytes × Bytes))
        → Splits cs o
        → Splits (c ∷ cs) (elim b as (λ _. Option (Bytes × Bytes)) [
          | true ↦ some ([], cs)
          | false ↦ (elim o [ none ↦ none | some q ↦ some (c ∷ q.0, q.1) ])
        ])
    by_test true o ih = omega arith
    by_test false none ih = tt
    by_test false (some q) ih = omega (arith, ih)

name_loop-Takes : (fuel : ℕ) (name : Bytes) → Takes (length name) (name_loop fuel name)
unfolding name_loop
name_loop-Takes zero name = Takes-le (omega arith) Takes-same
name_loop-Takes (suc fuel) name =
    by_split (split_dot name) (split_dot-Splits name) (name_loop-Takes fuel)
  where
    by_split :
        (o : Option (Bytes × Bytes))
        → Splits name o
        → ((rest : Bytes) → Takes (length rest) (name_loop fuel rest))
        → Takes (length name) (λ d. elim o as (λ _. Dns) [
          | none ↦ d
          | some p ↦ name_loop fuel p.1 (put_all p.0 (dns_put8 (length p.0) d))
        ])
    by_split none h ih = Takes-le (omega arith) Takes-same
    by_split (some p) h ih =
        Takes-le (omega (arith, h))
          (Takes-chain (Takes-chain (put8-Takes (length p.0)) (put_all-Takes p.0)) (ih p.1))

pub dns_name-Takes : (name : Bytes) → Takes (length name + 1) (dns_name name)
unfolding dns_name
dns_name-Takes name = Takes-chain (name_loop-Takes (length name) name) (put8-Takes 0)

put_owner-Takes : (off : Option ℕ) (name : Bytes) → Takes (length name + 2) (put_owner off name)
unfolding put_owner dns_ptr
put_owner-Takes (some off) name =
    Takes-le (omega arith) (Takes-chain (put8-Takes (192 + off / 256)) (put8-Takes (off % 256)))
put_owner-Takes none name = Takes-le (omega arith) (dns_name-Takes name)

dns_rr-Takes :
    (off : Option ℕ) (name : Bytes) (type class ttl : ℕ)
    → Takes (length name + 12) (dns_rr off name type class ttl)
unfolding dns_rr
dns_rr-Takes off name type class ttl = Takes-le (omega arith) (
    Takes-chain
      (Takes-chain
        (Takes-chain (Takes-chain (put_owner-Takes off name) (put16-Takes type))
          (put16-Takes class))
        (put32-Takes ttl))
      (put16-Takes 0))

pub length-set : (s : Bytes) (i v : ℕ) → length (set s i v) ≡ length s
length-set [] i v = refl
length-set (x ∷ xs) zero v = refl
length-set (x ∷ xs) (suc i) v = ap suc (length-set xs i v)

patch-Takes : (at : ℕ) → Takes 0 (dns_patch_rdlen at)
unfolding dns_patch_rdlen
patch-Takes at = record {
  at = λ d o r. (o, same _ _ _ (length-set d.bytes at _) (length-set _ (at + 1) _));
}
  where
    same : (b m c : ℕ) → m ≡ b → c ≡ m → c ≤ b + 0
    same b m c p q = omega (arith, p, q)

pub put_record-Takes :
    (off : Option ℕ) (name : Bytes) (type class ttl : ℕ) {n : ℕ} (put : Dns → Dns)
    → Takes n put
    → Takes (length name + 12 + n) (put_record off name type class ttl put)
unfolding put_record
put_record-Takes off name type class ttl {n} put t = record {
  at = λ d o r.
      let patched : Takes (length name + 12 + n + 0) (λ d'.
        dns_patch_rdlen (length (dns_rr off name type class ttl d).bytes - 2)
          (put (dns_rr off name type class ttl d'))) =
        Takes-chain (Takes-chain (dns_rr-Takes off name type class ttl) t) (patch-Takes _) in
      (Takes-le (omega arith) patched).at d o r;
}

-- A TXT record holds its strings, each behind a byte for its length.
abbrev pub strings_size : List Bytes → ℕ
strings_size [] = 0
strings_size (t ∷ ts) = length t + 1 + strings_size ts

pub put_strings-Takes : (ts : List Bytes) → Takes (strings_size ts) (put_strings ts)
unfolding put_strings
put_strings-Takes [] = Takes-same
put_strings-Takes (t ∷ ts) =
    Takes-le (omega arith)
      (Takes-chain (Takes-chain (put8-Takes (length t)) (put_all-Takes t)) (put_strings-Takes ts))

-- ===== src/Mdns/Reads.antt =====
-- common/mdns_builtin.c, dns_read_name: what it reads stays within the packet and its output.
use sdr_slc_rtld.Base.{
  ℕ, zero, suc, ◌+◌, ◌≤◌, ◌<◌, ◌≡◌, false, Option, none, some, [], ◌∷◌, Bytes, length, take,
  byte_at, length-append, length-take, ltb, leb, ◌==◌, arith, Bool-cases, inl, inr,
}
use sdr_slc_rtld.Mdns.Query.{
  resumes, dotted, Round, returns, breaks, goes_on, follow_pointer, take_label, read_round,
  read_loop, dns_read_name,
}

-- A name with room for its NUL, and a place to go on behind `pos` that is not behind the packet.
abbrev pub ReadsWithin : Bytes → ℕ → ℕ → Option (Bytes × ℕ) → Type 0
ReadsWithin buf pos cap none = Unit
ReadsWithin buf pos cap (some r) = (length r.0 < cap) × (pos < r.1) × (r.1 ≤ length buf)

pub dotted-length : (out label : Bytes) → length (dotted out label) ≤ length out + length label + 1
dotted-length [] label = omega arith
dotted-length (c ∷ out) label = omega (arith, length-append out (b'.' ∷ label))

slice-length : (n : ℕ) (s : Bytes) → length (take n s) ≤ n
slice-length n s = omega (arith, length-take n s)

module _ (buf : Bytes) (cap pos : ℕ) where
  -- Where the caller would go on, behind the first round.
  abbrev Onward : Option ℕ → ℕ → Type 0
  Onward at p = (pos < resumes at p) × (resumes at p ≤ length buf)

  -- What holds before a round.
  abbrev Place : ℕ → Option ℕ → ℕ → Type 0
  Place zero at p = Onward at p
  Place (suc guard) none p = pos ≤ p
  Place (suc guard) (some a) p = (pos < a) × (a ≤ length buf)

  Onward-Place : (guard : ℕ) (at : Option ℕ) (p : ℕ) → Onward at p → Place guard at p
  Onward-Place zero at p h = h
  Onward-Place (suc guard) none p h = omega (arith, h.0)
  Onward-Place (suc guard) (some a) p h = h

  -- The place behind `q`, which a round has reached from `p`.
  Place-Onward :
      (guard : ℕ) (at : Option ℕ) (p q : ℕ)
      → Place (suc guard) at p
      → p < q
      → q ≤ length buf
      → Onward at q
  Place-Onward guard none p q h k l = (omega (arith, h, k), l)
  Place-Onward guard (some a) p q h k l = h

  fits_label :
      (out label : Bytes) (l : ℕ)
      → length label ≤ l
      → length out + l + 2 ≤ cap
      → length (dotted out label) < cap
  fits_label out label l h k = omega (arith, dotted-length out label, h, k)

  -- What holds behind a round with `guard` rounds left.
  abbrev RoundOk : ℕ → Option ℕ → Bytes → Round → Type 0
  RoundOk guard at out returns = Unit
  RoundOk guard at out (breaks q) = Onward at q
  RoundOk guard at out (goes_on p' at' out') = Place guard at' p' × (length out' < cap)

  module _ (guard p : ℕ) (at : Option ℕ) (out : Bytes) (h : Place (suc guard) at p)
      (l : length out < cap) where
    follow_pointer-RoundOk : RoundOk guard at out (follow_pointer buf p at out)
    unfolding follow_pointer
    follow_pointer-RoundOk = elim (Bool-cases (leb (length buf) (p + 1))) [
      | inl q ↦ rw q tt
      | inr q ↦ rw q (
        Onward-Place guard (some (resumes at (p + 2))) _
            (Place-Onward guard at p (p + 2) h (omega arith) (ground arith)),
        l,
      )
    ]

    take_label-RoundOk :
        (byte_at buf p == 0) ≡ false → RoundOk guard at out (take_label buf cap p at out)
    unfolding take_label
    take_label-RoundOk z = elim (Bool-cases (ltb (length buf) (p + 1 + byte_at buf p))) [
      | inl q ↦ rw q tt
      | inr q ↦ rw q (elim (Bool-cases (ltb cap (length out + byte_at buf p + 2))) [
        | inl r ↦ rw r tt
        | inr r ↦ rw r (
          Onward-Place guard at _
              (Place-Onward guard at p (p + 1 + byte_at buf p) h (omega arith) (ground arith)),
          fits_label out _ (byte_at buf p) (slice-length (byte_at buf p) _) (ground arith),
        )
      ])
    ]

    read_round-RoundOk : RoundOk guard at out (read_round buf cap p at out)
    unfolding read_round
    read_round-RoundOk = elim (Bool-cases (leb (length buf) p)) [
      | inl e ↦ rw e tt
      | inr e ↦ rw e (elim (Bool-cases (byte_at buf p == 0)) [
        | inl z ↦ rw z (Place-Onward guard at p (p + 1) h (omega arith) (ground arith))
        | inr z ↦ rw z (elim (Bool-cases (leb 192 (byte_at buf p))) [
          | inl j ↦ rw j follow_pointer-RoundOk
          | inr j ↦ rw j (take_label-RoundOk z)
        ])
      ])
    ]

  read_loop-ReadsWithin :
      (guard p : ℕ) (at : Option ℕ) (out : Bytes)
      → Place guard at p
      → length out < cap
      → ReadsWithin buf pos cap (read_loop guard buf cap p at out)
  unfolding read_loop
  read_loop-ReadsWithin zero p at out h l = (l, h.0, h.1)
  read_loop-ReadsWithin (suc guard) p at out h l =
      by_round (read_round buf cap p at out) (read_round-RoundOk guard p at out h l)
        (read_loop-ReadsWithin guard)
    where
      by_round :
          (r : Round)
          → RoundOk guard at out r
          → ((p : ℕ) (at : Option ℕ) (out : Bytes)
              → Place guard at p
              → length out < cap
              → ReadsWithin buf pos cap (read_loop guard buf cap p at out))
          → ReadsWithin buf pos cap (elim r as (λ _. Option (Bytes × ℕ)) [
            | returns ↦ none
            | breaks q ↦ some (out, resumes at q)
            | goes_on p' at' out' ↦ read_loop guard buf cap p' at' out'
          ])
      by_round returns ok ih = tt
      by_round (breaks q) ok ih = (l, ok.0, ok.1)
      by_round (goes_on p' at' out') ok ih = ih p' at' out' ok.0 ok.1

  -- For a place within the packet, a name that is read leaves room for its NUL in the output, and the
  -- place to go on lies behind the place it was read at and not behind the packet.
  pub dns_read_name-ReadsWithin : 0 < cap → ReadsWithin buf pos cap (dns_read_name buf pos cap)
  unfolding dns_read_name
  dns_read_name-ReadsWithin room = read_loop-ReadsWithin 64 pos none [] (omega arith) room

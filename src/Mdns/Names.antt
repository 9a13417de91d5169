-- ===== src/Mdns/Names.antt =====
-- common/mdns_builtin.c: dns_read_name reads the names that dns_name writes.
use mathlib.Core.List.{append_assoc, append-nil}
use sdr_slc_rtld.Base.{
  ℕ, zero, suc, ◌+◌, ◌%◌, ◌≤◌, ◌<◌, ◌≡◌, refl, ap, sym, ◌∙◌, false, some, List, [], ◌∷◌, ◌++◌,
  Bytes, length, length-append, ltb, ◌==◌, arith, Bool-cases, inl, inr,
}
use sdr_slc_rtld.Mdns.Packet.{Dns, capacity, dns_put8, put_all, split_dot, name_loop, dns_name}
use sdr_slc_rtld.Mdns.Query.{dotted}

-- A label: one to 63 bytes, and no dot.
abbrev pub NoDot : Bytes → Type 0
NoDot [] = Unit
NoDot (c ∷ cs) = ((c == b'.') ≡ false) × (c < 256) × NoDot cs

pub record IsLabel (l : Bytes) : Type 0 where
  pub some_bytes : 0 < length l
  pub few_bytes : length l < 64
  pub dotless : NoDot l

abbrev pub AllLabels : List Bytes → Type 0
AllLabels [] = Unit
AllLabels (l ∷ ls) = IsLabel l × AllLabels ls

-- The text of a name, with a dot behind each label.
abbrev pub name_text : List Bytes → Bytes
name_text [] = []
name_text (l ∷ ls) = l ++ (b'.' ∷ name_text ls)

-- The name without the last dot, behind what has been read.
abbrev pub joined : Bytes → List Bytes → Bytes
joined out [] = out
joined out (l ∷ ls) = joined (dotted out l) ls

-- The labels on the wire, each behind its length.
abbrev pub wire : List Bytes → Bytes
wire [] = []
wire (l ∷ ls) = length l ∷ (l ++ wire ls)

abbrev pub label_count : List Bytes → ℕ
label_count [] = 0
label_count (l ∷ ls) = suc (label_count ls)

-- `f` appends `t` where there is room for it.
pub record Puts (t : Bytes) (f : Dns → Dns) : Type 0 where
  pub at :
      (d : Dns) → length d.bytes + length t ≤ capacity → f d ≡ record d { bytes = d.bytes ++ t }

Puts-nil : Puts [] (λ d. d)
Puts-nil = record { at = λ d r. ap (λ b. record d { bytes = b }) (sym (append-nil d.bytes)) }

Puts-chain : (s t : Bytes) (f g : Dns → Dns) → Puts s f → Puts t g → Puts (s ++ t) (λ d. g (f d))
Puts-chain s t f g a b = record {
  at = λ d r.
      let d' : Dns = record d { bytes = d.bytes ++ s } in
      ap g (a.at d (omega (arith, r, length-append s t)))
      ∙ b.at d' (omega (arith, r, length-append s t, length-append d.bytes s))
      ∙ ap (λ x. record d { bytes = x }) (append_assoc d.bytes s t);
}

put8-Puts : (v : ℕ) → v < 256 → Puts (v ∷ []) (dns_put8 v)
unfolding dns_put8
put8-Puts v h = record {
  at = λ d r.
      let small : v % 256 ≡ v = omega (arith, h) in
      elim (Bool-cases (ltb (length d.bytes) capacity)) [
        | inl e ↦ rw (e, small) refl
        | inr e ↦ absurd (ground (arith, r))
      ];
}

put_all-Puts : (s : Bytes) → NoDot s → Puts s (put_all s)
unfolding put_all
put_all-Puts [] n = Puts-nil
put_all-Puts (c ∷ cs) (a, b, n) =
    Puts-chain (c ∷ []) cs (dns_put8 c) (put_all cs) (put8-Puts c b) (put_all-Puts cs n)

split_dot-label : (l rest : Bytes) → NoDot l → split_dot (l ++ (b'.' ∷ rest)) ≡ some (l, rest)
unfolding split_dot
split_dot-label [] rest n = refl
split_dot-label (c ∷ cs) rest (a, b, n) = rw (a, split_dot-label cs rest n, split_dot) refl

name_loop-Puts :
    (fuel : ℕ) (ls : List Bytes)
    → AllLabels ls
    → length (name_text ls) ≤ fuel
    → Puts (wire ls) (name_loop fuel (name_text ls))
unfolding name_loop split_dot
name_loop-Puts zero [] a h = Puts-nil
name_loop-Puts (suc fuel) [] a h = Puts-nil
name_loop-Puts zero (l ∷ ls) a h = absurd (omega (arith, h, length-append l (b'.' ∷ name_text ls)))
name_loop-Puts (suc fuel) (l ∷ ls) (a, as₁) h =
    let rest =
      name_loop-Puts fuel ls as₁ (omega (arith, h, length-append l (b'.' ∷ name_text ls))) in
    rw (split_dot-label l (name_text ls) a.dotless, name_loop)
      (Puts-chain (length l ∷ []) (l ++ wire ls) (dns_put8 (length l)) _
        (put8-Puts (length l) (omega (arith, a.few_bytes)))
        (Puts-chain l (wire ls) (put_all l) _ (put_all-Puts l a.dotless) rest))

pub dns_name-Puts :
    (ls : List Bytes) → AllLabels ls → Puts (wire ls ++ (0 ∷ [])) (dns_name (name_text ls))
unfolding dns_name
dns_name-Puts ls a =
    Puts-chain (wire ls) (0 ∷ []) _ (dns_put8 0)
      (name_loop-Puts (length (name_text ls)) ls a (omega arith)) (put8-Puts 0 (omega arith))

-- ===== src/Mdns/RoundTrip.antt =====
-- common/mdns_builtin.c: dns_read_name reads the names that dns_name writes.
use mathlib.Core.List.{append_assoc}
use sdr_slc_rtld.Base.{
  ℕ, zero, suc, ◌+◌, ◌≤◌, ◌<◌, ◌≡◌, refl, ap, sym, ◌∙◌, false, Option, none, some, List, [], ◌∷◌,
  ◌++◌, Bytes, length, take, drop, byte_at, length-append, ltb, leb, ◌==◌, arith,
}
use sdr_slc_rtld.Mdns.Packet.{Dns, capacity, dns_name}
use sdr_slc_rtld.Mdns.Query.{
  resumes, dotted, Round, returns, breaks, goes_on, take_label, read_round, read_loop,
  dns_read_name,
}
use sdr_slc_rtld.Mdns.Reads.{dotted-length}
use sdr_slc_rtld.Mdns.Names.{
  IsLabel, AllLabels, name_text, joined, wire, label_count, dns_name-Puts,
}

pub byte_at-append :
    (pre : Bytes) (x : ℕ) (rest : Bytes) → byte_at (pre ++ (x ∷ rest)) (length pre) ≡ x
byte_at-append [] x rest = refl
byte_at-append (c ∷ pre) x rest = byte_at-append pre x rest

drop-append :
    (pre : Bytes) (x : ℕ) (rest : Bytes) → drop (suc (length pre)) (pre ++ (x ∷ rest)) ≡ rest
drop-append [] x rest = refl
drop-append (c ∷ pre) x rest = drop-append pre x rest

take-append : (l rest : Bytes) → take (length l) (l ++ rest) ≡ l
take-append [] rest = refl
take-append (c ∷ l) rest = ap (λ r. c ∷ r) (take-append l rest)

slice-append :
    (pre : Bytes) (x : ℕ) (l rest : Bytes)
    → take (length l) (drop (length pre + 1) (pre ++ (x ∷ (l ++ rest)))) ≡ l
slice-append pre x l rest =
    let next : length pre + 1 ≡ suc (length pre) = omega arith in
    rw next (ap (take (length l)) (drop-append pre x (l ++ rest))) ∙ take-append l rest

module _ (cap : ℕ) where
  round_end :
      (pre post out : Bytes)
      → read_round (pre ++ (0 ∷ post)) cap (length pre) none out ≡ breaks (length pre + 1)
  unfolding read_round
  round_end pre post out =
      let long : length (pre ++ (0 ∷ post)) ≡ length pre + suc (length post) =
        length-append pre (0 ∷ post) in
      let open_ : leb (length (pre ++ (0 ∷ post))) (length pre) ≡ false = ground (arith, long) in
      rw (open_, byte_at-append pre 0 post) refl

  round_label :
      (pre l rest out : Bytes)
      → IsLabel l
      → length out + length l + 2 ≤ cap
      → read_round (pre ++ (length l ∷ (l ++ rest))) cap (length pre) none out
        ≡ goes_on (length pre + 1 + length l) none (dotted out l)
  unfolding read_round take_label
  round_label pre l rest out i h =
      let buf : Bytes = pre ++ (length l ∷ (l ++ rest)) in
      let long : length buf ≡ length pre + suc (length (l ++ rest)) =
        length-append pre (length l ∷ (l ++ rest)) in
      let parts = length-append l rest in
      let open_ : leb (length buf) (length pre) ≡ false = ground (arith, long) in
      let here = byte_at-append pre (length l) (l ++ rest) in
      let nonzero : (length l == 0) ≡ false = ground (arith, i.some_bytes) in
      let plain : leb 192 (length l) ≡ false = ground (arith, i.few_bytes) in
      let inside : ltb (length buf) (length pre + 1 + length l) ≡ false =
        ground (arith, long, parts) in
      let fits : ltb cap (length out + length l + 2) ≡ false = ground (arith, h) in
      let label : take (length l) (drop (length pre + 1) buf) ≡ l =
        slice-append pre (length l) l rest in
      rw (open_, here, nonzero, plain, inside, fits, label) refl

  abbrev proceed : ℕ → Bytes → Option ℕ → Bytes → Round → Option (Bytes × ℕ)
  proceed guard buf at out r = elim r [
    | returns ↦ none
    | breaks q ↦ some (out, resumes at q)
    | goes_on p' at' out' ↦ read_loop guard buf cap p' at' out'
  ]

  read_loop-step :
      (guard : ℕ) (buf : Bytes) (p : ℕ) (at : Option ℕ) (out : Bytes)
      → read_loop (suc guard) buf cap p at out
        ≡ proceed guard buf at out (read_round buf cap p at out)
  unfolding read_loop
  read_loop-step guard buf p at out = refl

  read_loop-wire :
      (guard : ℕ) (ls : List Bytes) (pre post out : Bytes)
      → AllLabels ls
      → label_count ls < guard
      → length out + length (name_text ls) + 1 ≤ cap
      → read_loop guard (pre ++ (wire ls ++ (0 ∷ post))) cap (length pre) none out
        ≡ some (joined out ls, length pre + length (wire ls) + 1)
  read_loop-wire zero ls pre post out a g h = absurd (omega (arith, g))
  read_loop-wire (suc guard) [] pre post out a g h =
      read_loop-step guard _ (length pre) none out
      ∙ ap (proceed guard (pre ++ (0 ∷ post)) none out) (round_end pre post out)
      ∙ ap (λ p. some (out, p)) (omega arith)
  read_loop-wire (suc guard) (l ∷ ls) pre post out (i, a) g h =
      let tail = wire ls ++ (0 ∷ post) in
      let buf : Bytes = pre ++ (length l ∷ (l ++ tail)) in
      let pre' : Bytes = pre ++ (length l ∷ l) in
      let text = length-append l (b'.' ∷ name_text ls) in
      let head = length-append pre (length l ∷ l) in
      ap (λ r. read_loop (suc guard) (pre ++ (length l ∷ r)) cap (length pre) none out)
        (append_assoc l (wire ls) (0 ∷ post))
      ∙ read_loop-step guard buf (length pre) none out
      ∙ ap (proceed guard buf none out) (round_label pre l tail out i (omega (arith, h, text)))
      ∙ ap (λ b. read_loop guard b cap (length pre + 1 + length l) none (dotted out l))
          (sym (append_assoc pre (length l ∷ l) tail))
      ∙ ap (λ p. read_loop guard (pre' ++ tail) cap p none (dotted out l)) (omega (arith, head))
      ∙ read_loop-wire guard ls pre' post (dotted out l) a (omega (arith, g))
          (omega (arith, h, text, dotted-length out l))
      ∙ ap (λ p. some (joined (dotted out l) ls, p))
          (omega (arith, head, length-append l (wire ls)))

-- A name of at most 63 labels that dns_name has written where there was room for it, whatever follows
-- it in the packet, is read back from the place it begins at: the labels with dots between them,
-- and the place behind the name.
pub dns_read_name-dns_name :
    (ls : List Bytes) (d : Dns) (post : Bytes) (cap : ℕ)
    → AllLabels ls
    → label_count ls < 64
    → length (name_text ls) + 1 ≤ cap
    → length d.bytes + length (wire ls ++ (0 ∷ [])) ≤ capacity
    → dns_read_name ((dns_name (name_text ls) d).bytes ++ post) (length d.bytes) cap
      ≡ some (joined [] ls, length (dns_name (name_text ls) d).bytes)
unfolding dns_read_name
dns_read_name-dns_name ls d post cap a few fits room =
    let e = (dns_name-Puts ls a).at d room in
    let out = length-append d.bytes (wire ls ++ (0 ∷ [])) in
    ap (λ (x : Dns). dns_read_name (x.bytes ++ post) (length d.bytes) cap) e
    ∙ ap (λ b. dns_read_name b (length d.bytes) cap)
        (append_assoc d.bytes (wire ls ++ (0 ∷ [])) post
          ∙ ap (λ r. d.bytes ++ r) (append_assoc (wire ls) (0 ∷ []) post))
    ∙ read_loop-wire cap 64 ls d.bytes post [] a few (omega (arith, fits))
    ∙ ap (λ p. some (joined [] ls, p)) (omega (arith, out, length-append (wire ls) (0 ∷ [])))
    ∙ ap (λ (x : Dns). some (joined [] ls, length x.bytes)) (sym e)

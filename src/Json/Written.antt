-- ===== src/Json/Written.antt =====
-- json/json_builder.c: what has been written, and where the writer stands between two calls.
use mathlib.Core.List.{append_assoc, append-nil}
use sdr_slc_rtld.Base.{
  ℕ, zero, suc, ◌+◌, ◌≤◌, ◌<◌, ◌≡◌, refl, ap, sym, subst, ◌∙◌, Bool, true, false, [], ◌∷◌, ◌++◌,
  Bytes, length, ltb, leb, if◌then◌else◌, ◌⊎◌, inl, inr, Bool-cases, arith, length-append,
}
use sdr_slc_rtld.Base.Int.{pos}
use sdr_slc_rtld.Json.Writer.{
  Jb, jb_putc, jb_puts, jb_sep, descend, ascend, wants_comma, mark_level, clear_level,
}

-- `full` is what should have been written by now: all of it stands in the buffer, or it does not
-- fit, the flag is set, and the buffer holds a beginning of it.
abbrev pub Holds : ℕ → Bytes → Jb → Type 0
Holds cap full j =
    ((j.overflow ≡ false) × (j.text ≡ full) × (length full < cap))
    ⊎ ((j.overflow ≡ true)
        × (cap ≤ length full)
        × (length j.text < cap)
        × ((rest : Bytes) × (full ≡ j.text ++ rest)))

-- The state between two calls: `b` are the bits of the levels below `d`, and `c` tells whether
-- the next element gets a comma.
pub record Stands (cap : ℕ) (b : ℕ → Bool) (full : Bytes) (d : ℕ) (c : Bool) (j : Jb) : Type 0 where
  pub cap_is : j.cap ≡ cap
  pub holds : Holds cap full j
  pub depth_is : j.depth ≡ pos d
  pub comma : wants_comma (pos d) j.need_comma ≡ c
  pub same : (n : ℕ) → n < d → j.need_comma n ≡ b n

abbrev pub comma : Bool → Bytes
comma true = b',' ∷ []
comma false = []

puts-full : (t : Bytes) (j : Jb) → j.overflow ≡ true → jb_puts t j ≡ j
unfolding jb_puts
puts-full t j e = ground arith

puts-overflow :
    (t : Bytes) (j : Jb)
    → j.overflow ≡ false
    → j.cap ≤ length j.text + length t
    → jb_puts t j ≡ record j { overflow = true }
unfolding jb_puts
puts-overflow t j e h = ground arith

puts-fits :
    (t : Bytes) (j : Jb)
    → j.overflow ≡ false
    → length j.text + length t < j.cap
    → jb_puts t j ≡ record j { text = j.text ++ t }
unfolding jb_puts
puts-fits t j e h = ground arith

puts-Holds :
    {cap : ℕ} (t full : Bytes) (j : Jb)
    → j.cap ≡ cap
    → Holds cap full j
    → Holds cap (full ++ t) (jb_puts t j)
puts-Holds {cap} t full j k (inl (o, e, f)) =
    let long = length-append full t in
    let same : length j.text ≡ length full = ap length e in
    elim (Bool-cases (leb cap (length full + length t))) [
      | inl q ↦
          let m : cap ≤ length full + length t = ground arith in
          subst (Holds cap (full ++ t)) (sym (puts-overflow t j o (omega (arith, m, same, k)))) (
            inr
              (refl, omega (arith, long, m), omega (arith, same, f), (t, ap (λ x. x ++ t) (sym e))))
      | inr q ↦
          let m : length full + length t < cap = ground arith in
          subst (Holds cap (full ++ t)) (sym (puts-fits t j o (omega (arith, m, same, k))))
            (inl (o, ap (λ x. x ++ t) e, omega (arith, long, m)))
    ]
puts-Holds {cap} t full j k (inr (o, m, l, (rest, e))) =
    subst (Holds cap (full ++ t)) (sym (puts-full t j o)) (
      inr (
        o,
        omega (arith, m, length-append full t),
        l,
        (rest ++ t, ap (λ x. x ++ t) e ∙ append_assoc j.text rest t),
      ))

puts-need_comma : (t : Bytes) (j : Jb) → (jb_puts t j).need_comma ≡ j.need_comma
unfolding jb_puts
puts-need_comma t j = ground arith

puts-depth : (t : Bytes) (j : Jb) → (jb_puts t j).depth ≡ j.depth
unfolding jb_puts
puts-depth t j = ground arith

puts-cap : (t : Bytes) (j : Jb) → (jb_puts t j).cap ≡ j.cap
unfolding jb_puts
puts-cap t j = ground arith

pub jb_putc-puts : (c : ℕ) (j : Jb) → jb_putc c j ≡ jb_puts (c ∷ []) j
unfolding jb_putc jb_puts
jb_putc-puts c j = ground arith

module _ {cap : ℕ} {b : ℕ → Bool} {d : ℕ} where
  pub puts-Stands :
      {full : Bytes} {c : Bool} (t : Bytes) (j : Jb)
      → Stands cap b full d c j
      → Stands cap b (full ++ t) d c (jb_puts t j)
  puts-Stands {full} t j s = record {
    cap_is = puts-cap t j ∙ s.cap_is;
    holds = puts-Holds t full j s.cap_is s.holds;
    depth_is = puts-depth t j ∙ s.depth_is;
    comma = rw (puts-need_comma t j) s.comma;
    same = rw (puts-need_comma t j) s.same;
  }

  pub putc-Stands :
      {full : Bytes} {c : Bool} (x : ℕ) (j : Jb)
      → Stands cap b full d c j
      → Stands cap b (full ++ (x ∷ [])) d c (jb_putc x j)
  putc-Stands x j s = rw (jb_putc-puts x j) (puts-Stands (x ∷ []) j s)

-- The comma, if one is due.
comma_if : Bool → Jb → Jb
comma_if c j = if c then jb_putc b',' j else j

comma_if-Stands :
    {cap : ℕ} {b : ℕ → Bool} {full : Bytes} {d : ℕ} (c : Bool) (j : Jb)
    → Stands cap b full d c j
    → Stands cap b (full ++ comma c) d c (comma_if c j)
unfolding comma_if
comma_if-Stands true j s = putc-Stands b',' j s
comma_if-Stands {full} false j s = rw append-nil s

abbrev marked : Jb → Jb
marked j = record j { need_comma = mark_level j.depth j.need_comma }

sep-comma_if : (j : Jb) → jb_sep j ≡ marked (comma_if (wants_comma j.depth j.need_comma) j)
unfolding jb_sep comma_if
sep-comma_if j = refl

mark-comma :
    (d : ℕ) (need : ℕ → Bool) → d < 16 → wants_comma (pos d) (mark_level (pos d) need) ≡ ltb 0 d
unfolding mark_level
mark-comma zero need h = refl
mark-comma (suc d) need h = ground arith

mark-same : (d n : ℕ) (need : ℕ → Bool) → n < d → mark_level (pos d) need n ≡ need n
unfolding mark_level
mark-same d n need h = ground arith

clear-comma : (d : ℕ) (need : ℕ → Bool) → wants_comma (pos d) (clear_level (pos d) need) ≡ false
unfolding clear_level
clear-comma zero need = refl
clear-comma (suc d) need = ground arith

clear-same : (d n : ℕ) (need : ℕ → Bool) → n < d → clear_level (pos d) need n ≡ need n
unfolding clear_level
clear-same d n need h = ground arith

module _ {cap : ℕ} {b : ℕ → Bool} {full : Bytes} {d : ℕ} where
  mark-Stands :
      (c : Bool) (j : Jb)
      → d < 16
      → Stands cap b full d c j
      → Stands cap b full d (ltb 0 d) (record j { need_comma = mark_level j.depth j.need_comma })
  mark-Stands c j h s = record {
    cap_is = s.cap_is;
    holds = s.holds;
    depth_is = s.depth_is;
    comma = rw s.depth_is (mark-comma d j.need_comma h);
    same = λ n k. rw s.depth_is (mark-same d n j.need_comma k) ∙ s.same n k;
  }

  pub clear-Stands :
      (c : Bool) (j : Jb)
      → Stands cap b full d c j
      → Stands cap b full d false (record j { need_comma = clear_level j.depth j.need_comma })
  clear-Stands c j s = record {
    cap_is = s.cap_is;
    holds = s.holds;
    depth_is = s.depth_is;
    comma = rw s.depth_is (clear-comma d j.need_comma);
    same = λ n k. rw s.depth_is (clear-same d n j.need_comma k) ∙ s.same n k;
  }

module _ {cap : ℕ} {b : ℕ → Bool} {d : ℕ} where
  pub sep-Stands :
      {full : Bytes} (c : Bool) (j : Jb)
      → d < 16
      → Stands cap b full d c j
      → Stands cap b (full ++ comma c) d (ltb 0 d) (jb_sep j)
  sep-Stands {full} c j h s =
      subst (λ k. Stands cap b (full ++ comma c) d (ltb 0 d) k)
        (ap marked (ap (λ x. comma_if x j) (sym (rw s.depth_is s.comma))) ∙ sym (sep-comma_if j))
        (mark-Stands c (comma_if c j) h (comma_if-Stands c j s))

  pub descend-Stands :
      {full : Bytes} (c : Bool) (j : Jb)
      → Stands cap b full d c j
      → Stands cap j.need_comma full (suc d) false (descend j)
  unfolding descend
  descend-Stands c j s = record {
    cap_is = s.cap_is;
    holds = s.holds;
    depth_is = rw s.depth_is refl;
    comma = rw s.depth_is (clear-comma (suc d) j.need_comma);
    same = λ n k. rw s.depth_is (clear-same (suc d) n j.need_comma k);
  }

  -- The level above is as `j₀` left it when the level `suc d` began.
  pub ascend-Stands :
      {full full₀ : Bytes} {c c₀ : Bool} (j j₀ : Jb)
      → Stands cap b full₀ d c₀ j₀
      → Stands cap j₀.need_comma full (suc d) c j
      → Stands cap b full d c₀ (ascend j)
  unfolding ascend
  ascend-Stands j j₀ s₀ s = record {
    cap_is = s.cap_is;
    holds = s.holds;
    depth_is = rw s.depth_is refl;
    comma = rw s.depth_is (comma_back d (omega arith) (s.same d (omega arith)) ∙ s₀.comma);
    same = λ n k. rw s.depth_is (
        clear-same (suc d) n j.need_comma (omega (arith, k))
        ∙ s.same n (omega (arith, k))
        ∙ s₀.same n k);
  }
    where
      comma_back :
          (e : ℕ)
          → e < suc d
          → j.need_comma e ≡ j₀.need_comma e
          → wants_comma (pos e) (clear_level (pos (suc d)) j.need_comma)
            ≡ wants_comma (pos e) j₀.need_comma
      comma_back zero h q = refl
      comma_back (suc e) h q = clear-same (suc d) (suc e) j.need_comma h ∙ q

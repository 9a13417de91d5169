-- ===== src/Json/Printed.antt =====
-- json/json_builder.c: the calls that write a value, against the text of the value.
use mathlib.Core.List.{append_assoc, append-nil}
use sdr_slc_rtld.Base.{
  ℕ, suc, ◌+◌, ◌<◌, ◌≡◌, refl, ap, sym, subst, ◌∙◌, Bool, true, false, some, [], ◌∷◌, ◌++◌, Bytes,
  ltb, ◌==◌, if◌then◌else◌, inl, arith, lt→ltb,
}
use sdr_slc_rtld.Json.Writer.{
  Jb, jb_init, jb_putc, jb_puts, jb_sep, jb_str, jb_key, jb_unsigned, jb_i32, jb_bool, jb_null,
  jb_obj_begin, jb_obj_end, jb_arr_begin, jb_arr_end, ascend, put_escaped, str_loop,
}
use sdr_slc_rtld.Json.Written.{
  Holds, Stands, comma, jb_putc-puts, puts-Stands, putc-Stands, clear-Stands, sep-Stands,
  descend-Stands, ascend-Stands,
}
use sdr_slc_rtld.Json.Value.{
  Value, null, flag, number, integer, text, array, object, Items, nil, cons, Members, end, member,
  escaped, quoted, print_text, print, print_items, print_members, emit, emit_items, emit_members,
  height, height_items, height_members,
}

either_puts :
    (x : Bool) (t u : Bytes) (g : Jb → Jb) (j : Jb)
    → g j ≡ jb_puts u j
    → (if x then jb_puts t else g) j ≡ jb_puts (if x then t else u) j
either_puts true t u g j e = refl
either_puts false t u g j e = e

put_escaped-puts : (x : ℕ) (j : Jb) → put_escaped x j ≡ jb_puts (escaped x) j
unfolding put_escaped escaped
put_escaped-puts x j = either_puts (x == b'"') _ _ _ j (
    either_puts (x == b'\\') _ _ _ j (
      either_puts (x == b'\n') _ _ _ j (
        either_puts (x == b'\r') _ _ _ j
          (either_puts (x == b'\t') _ _ _ j (either_puts (ltb x 32) _ _ _ j (jb_putc-puts x j))))))

-- A state reached by a chain of pieces, and the text of the chain.
regroup :
    {cap : ℕ} {b : ℕ → Bool} {d : ℕ} {c : Bool} {j : Jb} {full full' : Bytes}
    → full ≡ full'
    → Stands cap b full d c j
    → Stands cap b full' d c j
regroup {cap} {b} {d} {c} {j} e s = subst (λ f. Stands cap b f d c j) e s

module _ {cap : ℕ} {b : ℕ → Bool} {d : ℕ} where
  put_escaped-Stands :
      (full : Bytes) {c : Bool} (x : ℕ) (j : Jb)
      → Stands cap b full d c j
      → Stands cap b (full ++ escaped x) d c (put_escaped x j)
  put_escaped-Stands full x j s = rw (put_escaped-puts x j) (puts-Stands (escaped x) j s)

  str_loop-Stands :
      (t full : Bytes) {c : Bool} (j : Jb)
      → Stands cap b full d c j
      → Stands cap b (full ++ quoted t []) d c (jb_putc b'"' (str_loop t j))
  unfolding str_loop quoted
  str_loop-Stands [] full j s = putc-Stands b'"' j s
  str_loop-Stands (x ∷ t) full j s =
      regroup (append_assoc full (escaped x) (quoted t []))
        (str_loop-Stands t (full ++ escaped x) (put_escaped x j) (put_escaped-Stands full x j s))

  module _ (small : d < 16) (full : Bytes) (c : Bool) (j : Jb) (s : Stands cap b full d c j) where
    -- A separator and one piece.
    sep_puts-Stands :
        (t : Bytes) → Stands cap b (full ++ (comma c ++ t)) d (ltb 0 d) (jb_puts t (jb_sep j))
    sep_puts-Stands t =
        regroup (append_assoc full (comma c) t) (puts-Stands t (jb_sep j) (sep-Stands c j small s))

    jb_str-Stands :
        (t : Bytes)
        → Stands cap b (full ++ (comma c ++ print_text t)) d (ltb 0 d) (jb_str (some t) j)
    unfolding jb_str
    jb_str-Stands t =
        regroup
          (append_assoc (full ++ comma c) (b'"' ∷ []) (quoted t []) ∙ append_assoc full (comma c) _)
          (str_loop-Stands t _ (jb_putc b'"' (jb_sep j))
            (putc-Stands b'"' (jb_sep j) (sep-Stands c j small s)))

    jb_key-Stands :
        (k : Bytes)
        → Stands cap b (full ++ (comma c ++ (print_text k ++ (b':' ∷ [])))) d false (jb_key k j)
    unfolding jb_key
    jb_key-Stands k =
        regroup
          (append_assoc full (comma c ++ print_text k) _
            ∙ ap (λ x. full ++ x) (append_assoc (comma c) (print_text k) _))
          (clear-Stands (ltb 0 d) (jb_putc b':' (jb_str (some k) j))
            (putc-Stands b':' (jb_str (some k) j) (jb_str-Stands k)))

    -- A separator and the bracket that begins a level.
    opened :
        (x : ℕ) → Stands cap b (full ++ (comma c ++ (x ∷ []))) d (ltb 0 d) (jb_putc x (jb_sep j))
    opened x =
        regroup (append_assoc full (comma c) (x ∷ []))
          (putc-Stands x (jb_sep j) (sep-Stands c j small s))

    -- The bracket that ends a level, behind the elements.
    closed :
        (x y : ℕ) (t : Bytes) {c' : Bool} (j' : Jb)
        → Stands cap
            (jb_putc x (jb_sep j)).need_comma
            ((full ++ (comma c ++ (x ∷ []))) ++ t)
            (suc d)
            c'
            j'
        → Stands cap b
            (full ++ (comma c ++ (x ∷ (t ++ (y ∷ [])))))
            d
            (ltb 0 d)
            (jb_putc y (ascend j'))
    closed x y t j' s' =
        regroup
          (append_assoc (full ++ (comma c ++ (x ∷ []))) t (y ∷ [])
            ∙ append_assoc full (comma c ++ (x ∷ [])) _
            ∙ ap (λ r. full ++ r) (append_assoc (comma c) (x ∷ []) _))
          (putc-Stands y (ascend j') (ascend-Stands j' (jb_putc x (jb_sep j)) (opened x) s'))

-- Below the top level a comma is due behind each element.
deeper :
    {cap : ℕ} {b : ℕ → Bool} {full : Bytes} {d : ℕ} {j : Jb}
    → Stands cap b full (suc d) (ltb 0 (suc d)) j
    → Stands cap b full (suc d) true j
deeper {cap} {b} {full} {d} {j} s =
    subst (λ c. Stands cap b full (suc d) c j) (lt→ltb 0 (suc d) (omega arith)) s

mutual
  unfolding emit print height jb_null jb_bool jb_unsigned jb_i32 jb_arr_begin jb_arr_end
      jb_obj_begin jb_obj_end

  emit-Stands :
      (v : Value) (cap : ℕ) (b : ℕ → Bool) (d : ℕ) (full : Bytes) (c : Bool) (j : Jb)
      → d + height v < 16
      → Stands cap b full d c j
      → Stands cap b (full ++ (comma c ++ print v)) d (ltb 0 d) (emit v j)
  emit-Stands null cap b d full c j h s = sep_puts-Stands (omega (arith, h)) full c j s _
  emit-Stands (flag v) cap b d full c j h s = sep_puts-Stands (omega (arith, h)) full c j s _
  emit-Stands (number n) cap b d full c j h s = sep_puts-Stands (omega (arith, h)) full c j s _
  emit-Stands (integer z) cap b d full c j h s = sep_puts-Stands (omega (arith, h)) full c j s _
  emit-Stands (text t) cap b d full c j h s = jb_str-Stands (omega (arith, h)) full c j s t
  emit-Stands (array xs) cap b d full c j h s =
      let small : d < 16 = omega (arith, h) in
      let s₀ = opened small full c j s b'[' in
      let (c', s') =
        emit_items-Stands xs cap _ d _ false _ (omega (arith, h)) (descend-Stands _ _ s₀) in
      closed small full c j s b'[' b']' _ _ s'
  emit-Stands (object ms) cap b d full c j h s =
      let small : d < 16 = omega (arith, h) in
      let s₀ = opened small full c j s b'{' in
      let (c', s') =
        emit_members-Stands ms cap _ d _ false _ (omega (arith, h)) (descend-Stands _ _ s₀) in
      closed small full c j s b'{' b'}' _ _ s'

  emit_items-Stands :
      (xs : Items) (cap : ℕ) (b : ℕ → Bool) (d : ℕ) (full : Bytes) (c : Bool) (j : Jb)
      → suc d + height_items xs < 16
      → Stands cap b full (suc d) c j
      → (c' : Bool) × Stands cap b (full ++ print_items c xs) (suc d) c' (emit_items xs j)
  emit_items-Stands nil cap b d full c j h s = (c, regroup (sym (append-nil full)) s)
  emit_items-Stands (cons v xs) cap b d full c j h s =
      let s₁ = emit-Stands v cap b (suc d) full c j (omega (arith, h)) s in
      let (c', s') = emit_items-Stands xs cap b d _ true _ (omega (arith, h)) (deeper s₁) in
      (
        c',
        regroup
            (append_assoc full (comma c ++ print v) _
              ∙ ap (λ r. full ++ r) (append_assoc (comma c) (print v) _))
            s',
      )

  emit_members-Stands :
      (ms : Members) (cap : ℕ) (b : ℕ → Bool) (d : ℕ) (full : Bytes) (c : Bool) (j : Jb)
      → suc d + height_members ms < 16
      → Stands cap b full (suc d) c j
      → (c' : Bool) × Stands cap b (full ++ print_members c ms) (suc d) c' (emit_members ms j)
  emit_members-Stands end cap b d full c j h s = (c, regroup (sym (append-nil full)) s)
  emit_members-Stands (member k v ms) cap b d full c j h s =
      let s₀ = jb_key-Stands (omega (arith, h)) full c j s k in
      let s₁ = emit-Stands v cap b (suc d) _ false _ (omega (arith, h)) s₀ in
      let (c', s') = emit_members-Stands ms cap b d _ true _ (omega (arith, h)) (deeper s₁) in
      (
        c',
        regroup
            (append_assoc (full ++ (comma c ++ (print_text k ++ (b':' ∷ [])))) (print v) _
              ∙ append_assoc full (comma c ++ (print_text k ++ (b':' ∷ []))) _
              ∙ ap (λ r. full ++ r)
                  (append_assoc (comma c) (print_text k ++ (b':' ∷ [])) _
                    ∙ ap (λ r. comma c ++ r) (append_assoc (print_text k) (b':' ∷ []) _)))
            s',
      )

jb_init-Stands : (cap : ℕ) → 0 < cap → Stands cap (λ n. false) [] 0 false (jb_init cap)
unfolding jb_init
jb_init-Stands cap h = record {
  cap_is = refl;
  holds = inl (refl, refl, h);
  depth_is = refl;
  comma = refl;
  same = λ n k. absurd (omega (arith, k));
}

-- The calls for a value of at most 15 nested levels write its JSON text, with its commas, if the
-- text and a NUL fit the buffer. Otherwise `overflow` is set, and the buffer holds a beginning of the
-- text that leaves room for the NUL.
pub emit-print :
    (v : Value) (cap : ℕ) → 0 < cap → height v < 16 → Holds cap (print v) (emit v (jb_init cap))
emit-print v cap room low =
    (emit-Stands v cap _ 0 [] false (jb_init cap) (omega (arith, low))
      (jb_init-Stands cap room)).holds

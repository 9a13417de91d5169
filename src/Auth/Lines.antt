-- ===== src/Auth/Lines.antt =====
-- common/auth.c: the lines of a key file, and the line that keygen writes.
use sdr_slc_rtld.Base.{
  ℕ, zero, suc, ◌*◌, ◌/◌, ◌%◌, ◌≤◌, ◌≡◌, ◌≢◌, refl, ap, false, [], ◌∷◌, ◌++◌, Bytes, length, ◌==◌,
  arith, Bool-cases, inl, inr,
}
use sdr_slc_rtld.Json.Escape.{hex_digit}
use sdr_slc_rtld.Libc.{is_space, until_nul, fgets}
use sdr_slc_rtld.Auth.Verify.{auth_hex}

-- A text whose last line has its newline.
abbrev pub EndsLine : Bytes → Type 0
EndsLine [] = Unit
EndsLine (c ∷ []) = c ≡ b'\n'
EndsLine (c ∷ d ∷ r) = EndsLine (d ∷ r)

EndsLine-tail : (c : ℕ) (cs : Bytes) → EndsLine (c ∷ cs) → EndsLine cs
EndsLine-tail c [] e = tt
EndsLine-tail c (d ∷ r) e = e

pub fgets-EndsLine : (room : ℕ) (s : Bytes) → EndsLine s → EndsLine (fgets room s).1
unfolding fgets
fgets-EndsLine zero s e = e
fgets-EndsLine (suc room) [] e = tt
fgets-EndsLine (suc room) (c ∷ cs) e = elim (Bool-cases (c == b'\n')) [
  | inl k ↦ rw k (EndsLine-tail c cs e)
  | inr k ↦ rw k (fgets-EndsLine room cs (EndsLine-tail c cs e))
]

pub fgets-append :
    (room : ℕ) (s t : Bytes)
    → EndsLine s
    → s ≢ []
    → fgets room (s ++ t) ≡ ((fgets room s).0, (fgets room s).1 ++ t)
unfolding fgets
fgets-append zero s t e n = refl
fgets-append (suc room) [] t e n = absurd (n refl)
fgets-append (suc room) (c ∷ []) t e n = rw e refl
fgets-append (suc room) (c ∷ d ∷ r) t e n =
    let ih = fgets-append room (d ∷ r) t e (λ k. cc) in
    elim (Bool-cases (c == b'\n')) [ inl k ↦ rw k refl | inr k ↦ rw (k, ih) refl ]

pub fgets-shorter :
    (room : ℕ) (c : ℕ) (cs : Bytes) → length (fgets (suc room) (c ∷ cs)).1 ≤ length cs
unfolding fgets
fgets-shorter room c cs = elim (Bool-cases (c == b'\n')) [
  | inl k ↦ rw k (omega arith)
  | inr k ↦ rw k (fgets-rest room cs)
]
  where
    fgets-rest : (room : ℕ) (s : Bytes) → length (fgets room s).1 ≤ length s
    fgets-rest zero s = omega arith
    fgets-rest (suc room) [] = omega arith
    fgets-rest (suc room) (x ∷ xs) = elim (Bool-cases (x == b'\n')) [
      | inl k ↦ rw k (omega arith)
      | inr k ↦ rw k (omega (arith, fgets-rest room xs))
    ]

-- Bytes that are neither white space nor the NUL.
abbrev pub Visible : Bytes → Type 0
Visible [] = Unit
Visible (c ∷ cs) = (is_space c ≡ false) × (c ≢ 0) × Visible cs

abbrev pub NoNul : Bytes → Type 0
NoNul [] = Unit
NoNul (c ∷ cs) = (c ≢ 0) × NoNul cs

pub Visible-NoNul : (s : Bytes) → Visible s → NoNul s
Visible-NoNul [] v = tt
Visible-NoNul (c ∷ cs) (a, b, v) = (b, Visible-NoNul cs v)

pub NoNul-append : (s t : Bytes) → NoNul s → NoNul t → NoNul (s ++ t)
NoNul-append [] t a b = b
NoNul-append (c ∷ cs) t (x, a) b = (x, NoNul-append cs t a b)

pub until_nul-NoNul : (s : Bytes) → NoNul s → until_nul s ≡ s
unfolding until_nul
until_nul-NoNul [] n = refl
until_nul-NoNul (c ∷ cs) (a, n) = elim (Bool-cases (c == 0)) [
  | inl k ↦ absurd (a (ground arith))
  | inr k ↦ rw k (ap (λ r. c ∷ r) (until_nul-NoNul cs n))
]

hex_digit-Visible : (d : ℕ) → (is_space (hex_digit d) ≡ false) × (hex_digit d ≢ 0)
unfolding hex_digit is_space
hex_digit-Visible d = (ground arith, ground arith)

pub auth_hex-Visible : (raw : Bytes) → Visible (auth_hex raw)
unfolding auth_hex
auth_hex-Visible [] = tt
auth_hex-Visible (b ∷ bs) =
    let (x, x') = hex_digit-Visible (b / 16) in
    let (y, y') = hex_digit-Visible (b % 16) in (x, x', (y, y', auth_hex-Visible bs))

pub length-auth_hex : (raw : Bytes) → length (auth_hex raw) ≡ 2 * length raw
unfolding auth_hex
length-auth_hex [] = refl
length-auth_hex (b ∷ bs) = omega (arith, length-auth_hex bs)

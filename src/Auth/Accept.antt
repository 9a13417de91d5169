-- ===== src/Auth/Accept.antt =====
-- auth_verify accepts exactly the right answers.
use Prim.Native.Nat.{bit_or, bit_xor}
use mathlib.Core.List.{Memᴰ}
use sdr_slc_rtld.Base.{
  ℕ, suc, ◌+◌, ◌*◌, ◌/◌, ◌%◌, ◌<◌, ◌≡◌, ◌↔◌, refl, ap, sym, ◌∙◌, Bool, true, false, not, ◌&&◌,
  Option, none, some, List, [], ◌∷◌, Bytes, AllBelow, length, eq_bytes, eq_bytes_refl,
  eq_bytes_sound, ◌==◌, if◌then◌else◌, arith, Bool-cases, subst, inl, inr,
}
use sdr_slc_rtld.Base.Bits.{bit_xor-eq, bit_xor_self, bit_or-zero}
use sdr_slc_rtld.Json.Escape.{hex_digit}
use sdr_slc_rtld.Auth.Sha256.{auth_hmac_sha256, sha256_final, digest, be_bytes}
use sdr_slc_rtld.Auth.Verify.{
  Key, auth_hex, hexval, unhex, difference, ct_equal, try_keys, auth_verify,
}

hexval-hex_digit : (d : ℕ) → d < 16 → hexval (hex_digit d) ≡ some d
unfolding hexval hex_digit
hexval-hex_digit d h = ground arith

unhex_step :
    (h l : ℕ) (rest : Bytes) {x y : ℕ} {bs : Bytes}
    → hexval h ≡ some x
    → hexval l ≡ some y
    → unhex rest ≡ some bs
    → unhex (h ∷ l ∷ rest) ≡ some ((x * 16 + y) ∷ bs)
unfolding unhex
unhex_step h l rest e f g = rw (e, f, g, unhex) refl

-- Bytes written by auth_hex are read back by the loop of auth_verify.
pub unhex-auth_hex : (bs : Bytes) → AllBelow 256 bs → unhex (auth_hex bs) ≡ some bs
unfolding unhex auth_hex
unhex-auth_hex [] h = refl
unhex-auth_hex (b ∷ bs) (l, h) =
    let join : b / 16 * 16 + b % 16 ≡ b = omega (arith, l) in
    unhex_step (hex_digit (b / 16)) (hex_digit (b % 16)) (auth_hex bs)
      (hexval-hex_digit (b / 16) (omega (arith, l))) (hexval-hex_digit (b % 16) (omega (arith, l)))
      (unhex-auth_hex bs h)
    ∙ ap (λ x. some (x ∷ bs)) join

difference-acc : (acc : ℕ) (a b : Bytes) → difference acc a b ≡ 0 → acc ≡ 0
unfolding difference
difference-acc acc [] b h = h
difference-acc acc (x ∷ xs) [] h = h
difference-acc acc (x ∷ xs) (y ∷ ys) h =
    (bit_or-zero acc (bit_xor x y) (difference-acc (bit_or acc (bit_xor x y)) xs ys h)).0

difference-eq : (acc : ℕ) (a b : Bytes) → length a ≡ length b → difference acc a b ≡ 0 → a ≡ b
unfolding difference
difference-eq acc [] [] l h = refl
difference-eq acc [] (y ∷ ys) l h = cc
difference-eq acc (x ∷ xs) [] l h = cc
difference-eq acc (x ∷ xs) (y ∷ ys) l h =
    let z = bit_or-zero acc (bit_xor x y) (difference-acc (bit_or acc (bit_xor x y)) xs ys h) in
    let e = bit_xor-eq x y z.1 in
    let rest = difference-eq (bit_or acc (bit_xor x y)) xs ys (omega (arith, l)) h in cc (e, rest)

difference_self : (a : Bytes) → difference 0 a a ≡ 0
unfolding difference
difference_self [] = refl
difference_self (x ∷ xs) = rw (bit_xor_self x) (difference_self xs)

-- On two texts of one length, ct_equal is true exactly where they are equal.
pub ct_equal_iff : (a b : Bytes) → length a ≡ length b → (ct_equal a b ≡ true) ↔ (a ≡ b)
unfolding ct_equal
ct_equal_iff a b l = (
  λ h. difference-eq 0 a b l (ground (arith, h)),
  λ e. (let d = difference_self a in rw (← e) (rw d refl)),
)

-- A key of the keyring that has the id and gives the answer.
pub record Answers (keys : List Key) (key_id nonce given : Bytes) : Type 0 where
  pub key : Key
  pub listed : Memᴰ key keys
  pub named : key.key_id ≡ key_id
  pub gives : auth_hmac_sha256 key.psk nonce ≡ given

module _ (key_id nonce given : Bytes) where
  -- Whether one key answers.
  abbrev answers : Key → Bool
  answers k = eq_bytes k.key_id key_id && ct_equal (auth_hmac_sha256 k.psk nonce) given

  try_keys-true : (ks : List Key) → try_keys ks key_id nonce given true ≡ true
  unfolding try_keys
  try_keys-true [] = refl
  try_keys-true (k ∷ ks) = elim (Bool-cases (eq_bytes k.key_id key_id)) [
    | inl e ↦ rw e (try_keys-true ks)
    | inr e ↦ rw e (try_keys-true ks)
  ]

  try_keys-step :
      (k : Key) (ks : List Key)
      → try_keys (k ∷ ks) key_id nonce given false ≡ try_keys ks key_id nonce given (answers k)
  unfolding try_keys
  try_keys-step k ks = ground arith

  try_keys-none : try_keys [] key_id nonce given false ≡ false
  unfolding try_keys
  try_keys-none = refl

  try_keys-found :
      (ks : List Key)
      → try_keys ks key_id nonce given false ≡ true
      → (k : Key) × Memᴰ k ks × (answers k ≡ true)
  try_keys-found [] h = let f = try_keys-none in cc
  try_keys-found (k ∷ ks) h = elim (Bool-cases (answers k)) [
    | inl e ↦ (k, Memᴰ.head refl, e)
    | inr e ↦
        (let r =
            try_keys-found ks
              (ap (try_keys ks key_id nonce given) (sym e) ∙ sym (try_keys-step k ks) ∙ h) in
          (r.0, Memᴰ.tail r.1, r.2))
  ]

  try_keys-finds :
      (ks : List Key) (k : Key)
      → Memᴰ k ks
      → answers k ≡ true
      → try_keys ks key_id nonce given false ≡ true
  try_keys-finds [] k m a = elim m [ ]
  try_keys-finds (x ∷ ks) k (Memᴰ.head e) a =
      try_keys-step x ks
      ∙ ap (try_keys ks key_id nonce given) (ap answers (sym e) ∙ a)
      ∙ try_keys-true ks
  try_keys-finds (x ∷ ks) k (Memᴰ.tail m) a = elim (Bool-cases (answers x)) [
    | inl e ↦ try_keys-step x ks ∙ ap (try_keys ks key_id nonce given) e ∙ try_keys-true ks
    | inr e ↦ try_keys-step x ks ∙ ap (try_keys ks key_id nonce given) e ∙ try_keys-finds ks k m a
  ]

  answers-true :
      (k : Key)
      → length (auth_hmac_sha256 k.psk nonce) ≡ length given
      → answers k ≡ true
      → (k.key_id ≡ key_id) × (auth_hmac_sha256 k.psk nonce ≡ given)
  answers-true k l h =
      let (e, f) : (eq_bytes k.key_id key_id ≡ true)
          × (ct_equal (auth_hmac_sha256 k.psk nonce) given ≡ true) =
        ground arith in
      (eq_bytes_sound k.key_id key_id e, (ct_equal_iff (auth_hmac_sha256 k.psk nonce) given l).0 f)

  answers-makes :
      (k : Key)
      → length (auth_hmac_sha256 k.psk nonce) ≡ length given
      → k.key_id ≡ key_id
      → auth_hmac_sha256 k.psk nonce ≡ given
      → answers k ≡ true
  answers-makes k l e f =
      let c = (ct_equal_iff (auth_hmac_sha256 k.psk nonce) given l).1 f in
      let d : eq_bytes k.key_id key_id ≡ true = rw (← e) (eq_bytes_refl k.key_id) in
      simp (c, d) refl

pub length-auth_hmac_sha256 : (key msg : Bytes) → length (auth_hmac_sha256 key msg) ≡ 32
unfolding auth_hmac_sha256 sha256_final digest be_bytes
length-auth_hmac_sha256 key msg = refl

-- Two digits are read for a byte.
abbrev Halves : Bytes → Option Bytes → Type 0
Halves h none = Unit {0}
Halves h (some g) = length h ≡ 2 * length g

Halves-pair :
    (c d : ℕ) (h : Bytes) (x y : Option ℕ) (o : Option Bytes)
    → Halves h o
    → Halves (c ∷ d ∷ h) (elim x as (λ _. Option Bytes) [
      | none ↦ none
      | some hi ↦ (elim y [
        | none ↦ none
        | some lo ↦ (elim o [ none ↦ none | some bs ↦ some ((hi * 16 + lo) ∷ bs) ])
      ])
    ])
Halves-pair c d h none y o e = tt
Halves-pair c d h (some hi) none o e = tt
Halves-pair c d h (some hi) (some lo) none e = tt
Halves-pair c d h (some hi) (some lo) (some bs) e = omega (arith, e)

unhex-Halves : (h : Bytes) → Halves h (unhex h)
unfolding unhex
unhex-Halves [] = refl
unhex-Halves (c ∷ []) = tt
unhex-Halves (c ∷ d ∷ h) = Halves-pair c d h (hexval c) (hexval d) (unhex h) (unhex-Halves h)

length-unhex : (h g : Bytes) → unhex h ≡ some g → length h ≡ 64 → length g ≡ 32
length-unhex h g e l =
    let q : Halves h (some g) = subst (Halves h) e (unhex-Halves h) in omega (arith, q, l)

nonempty : (n : ℕ) → (suc n == 0) ≡ false
nonempty n = ground arith

-- The tests of auth_verify in front of the loop.
guarded :
    (a b : Bool) (o : Option Bytes) (f : Bytes → Bool)
    → (if a then false else if not b then false else (elim o [ none ↦ false | some g ↦ f g ]))
      ≡ true
    → (b ≡ true) × ((g : Bytes) × (o ≡ some g) × (f g ≡ true))
guarded true b o f h = cc
guarded false false o f h = cc
guarded false true none f h = cc
guarded false true (some g) f h = (refl, (g, refl, h))

module _ (key_id nonce response_hex : Bytes) where
  auth_verify-reads :
      (keys : List Key)
      → auth_verify keys key_id nonce response_hex ≡ true
      → ((length response_hex == 64) ≡ true)
        × ((given : Bytes) × (unhex response_hex ≡ some given)
            × (try_keys keys key_id nonce given false ≡ true))
  unfolding auth_verify
  auth_verify-reads keys h =
      guarded (length keys == 0) (length response_hex == 64) (unhex response_hex)
        (λ g. try_keys keys key_id nonce g false) h

  auth_verify-tries :
      (keys : List Key) (given : Bytes)
      → length response_hex ≡ 64
      → unhex response_hex ≡ some given
      → try_keys keys key_id nonce given false ≡ true
      → auth_verify keys key_id nonce response_hex ≡ true
  unfolding auth_verify
  auth_verify-tries [] given l e h = let f = try_keys-none key_id nonce given in cc
  auth_verify-tries (k ∷ ks) given l e h = rw (nonempty (length ks), l, e) h

  -- auth_verify accepts a response exactly where it has 64 characters that are the hexadecimal
  -- digits of the HMAC of the nonce under a key of the keyring that has the id.
  pub auth_verify_iff :
      (keys : List Key)
      → (auth_verify keys key_id nonce response_hex ≡ true) ↔ (
          (given : Bytes) × (length response_hex ≡ 64)
          × (unhex response_hex ≡ some given)
          × Answers keys key_id nonce given)
  auth_verify_iff keys = (accepted, λ x. accepts x.0 x.1 x.2 x.3)
    where
      accepted :
          auth_verify keys key_id nonce response_hex ≡ true
          → (given : Bytes) × (length response_hex ≡ 64)
            × (unhex response_hex ≡ some given)
            × Answers keys key_id nonce given
      accepted h =
          let (l, (g, e, t)) = auth_verify-reads keys h in
          let len : length response_hex ≡ 64 = ground arith in
          let (k, m, a) = try_keys-found key_id nonce g keys t in
          let (named, gives) =
            answers-true key_id nonce g k
              (length-auth_hmac_sha256 k.psk nonce ∙ sym (length-unhex response_hex g e len)) a in
          (g, len, e, record { key = k; listed = m; named = named; gives = gives })

      accepts :
          (given : Bytes)
          → length response_hex ≡ 64
          → unhex response_hex ≡ some given
          → Answers keys key_id nonce given
          → auth_verify keys key_id nonce response_hex ≡ true
      accepts g len e r = auth_verify-tries keys g len e (
          try_keys-finds key_id nonce g keys r.key r.listed (
            answers-makes key_id nonce g r.key
              (length-auth_hmac_sha256 r.key.psk nonce ∙ sym (length-unhex response_hex g e len))
              r.named r.gives))

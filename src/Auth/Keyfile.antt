-- ===== src/Auth/Keyfile.antt =====
-- common/auth.c: what keygen appends is loaded behind the keys that the file had.
use sdr_slc_rtld.Base.{
  ℕ, zero, suc, ◌≤◌, ◌<◌, ◌≡◌, ◌≢◌, refl, ap, ◌∙◌, Option, none, some, List, [], ◌∷◌, ◌++◌, Bytes,
  length, length-append, arith,
}
use mathlib.Core.Option.{some-injective}
use sdr_slc_rtld.Libc.{fgets}
use sdr_slc_rtld.Auth.Verify.{Key, auth_hex}
use sdr_slc_rtld.Auth.Keyring.{
  KeyFile, absent, unreadable, contents, Line, ignored, malformed, entry, read_line, Round, returns,
  goes_on, take_line, load_loop, auth_keyring_load,
}
use sdr_slc_rtld.Auth.Keygen.{append_to}
use sdr_slc_rtld.Auth.Lines.{EndsLine, fgets-EndsLine, fgets-append, fgets-shorter}

-- The rest of a round: the result, or the loop on the rest of the file.
abbrev onward : ℕ → Bytes → Round → Option (List Key)
onward fuel rest o = elim o as (λ _. Option (List Key)) [
  | returns result ↦ result
  | goes_on more ↦ load_loop fuel rest more
]

load_loop-step :
    (fuel c : ℕ) (cs : Bytes) (keys : List Key)
    → load_loop (suc fuel) (c ∷ cs) keys
      ≡ onward fuel (fgets 335 (c ∷ cs)).1 (take_line (read_line (fgets 335 (c ∷ cs)).0) keys)
unfolding load_loop
load_loop-step fuel c cs keys = refl

-- Any fuel from the length of the file on gives one result.
load_loop-enough :
    (f g : ℕ) (s : Bytes) (keys : List Key)
    → length s ≤ f
    → length s ≤ g
    → load_loop f s keys ≡ load_loop g s keys
unfolding load_loop
load_loop-enough zero zero [] keys h k = refl
load_loop-enough zero (suc g) [] keys h k = refl
load_loop-enough (suc f) zero [] keys h k = refl
load_loop-enough (suc f) (suc g) [] keys h k = refl
load_loop-enough zero g (c ∷ cs) keys h k = absurd (omega (arith, h))
load_loop-enough (suc f) zero (c ∷ cs) keys h k = absurd (omega (arith, k))
load_loop-enough (suc f) (suc g) (c ∷ cs) keys h k =
    by_round (take_line (read_line (fgets 335 (c ∷ cs)).0) keys) (fgets 335 (c ∷ cs)).1
      (fgets-shorter 334 c cs)
      (λ rest more l. load_loop-enough f g rest more (omega (arith, h, l)) (omega (arith, k, l)))
  where
    by_round :
        (o : Round) (rest : Bytes)
        → length rest ≤ length cs
        → ((rest : Bytes) (more : List Key)
            → length rest ≤ length cs
            → load_loop f rest more ≡ load_loop g rest more)
        → onward f rest o ≡ onward g rest o
    by_round (returns result) rest l ih = refl
    by_round (goes_on more) rest l ih = ih rest more l

-- A round ends the loop with keys only where there are as many as the keyring holds.
take_line-full :
    (l : Line) (keys ks : List Key) → take_line l keys ≡ returns (some ks) → 32 ≤ length ks
unfolding take_line
take_line-full ignored keys ks e = ground arith
take_line-full malformed keys ks e = ground arith
take_line-full (entry key_id psk) keys ks e = ground arith

le_step : (a b n : ℕ) → a ≤ b → suc b ≤ suc n → a ≤ n
le_step a b n h k = omega (arith, h, k)

shorter-append : (r s t : Bytes) → length r ≤ length s → length (r ++ t) ≤ length (s ++ t)
shorter-append r s t h = omega (arith, length-append r t, length-append s t, h)

too_many : (xs ys : List Key) → xs ≡ ys → 32 ≤ length xs → length ys < 32 → ⊥
too_many xs ys e m few = omega (arith, ap length e, m, few)

module _ (t : Bytes) where
  -- The keys of the first part are loaded, then the loop goes on with the second part.
  load_loop-append :
      (f g : ℕ) (s : Bytes) (keys : List Key) {ks : List Key}
      → EndsLine s
      → length s ≤ f
      → length (s ++ t) ≤ g
      → load_loop f s keys ≡ some ks
      → length ks < 32
      → load_loop g (s ++ t) keys ≡ load_loop (length t) t ks
  unfolding load_loop
  load_loop-append zero g [] keys e h k q few =
      load_loop-enough g (length t) t keys k (omega arith)
      ∙ ap (load_loop (length t) t) (some-injective _ _ q)
  load_loop-append (suc f) g [] keys e h k q few =
      load_loop-enough g (length t) t keys k (omega arith)
      ∙ ap (load_loop (length t) t) (some-injective _ _ q)
  load_loop-append zero g (c ∷ cs) keys e h k q few = absurd (omega (arith, h))
  load_loop-append (suc f) zero (c ∷ cs) keys e h k q few = absurd (omega (arith, k))
  load_loop-append (suc f) (suc g) (c ∷ cs) keys {ks} e h k q few =
      let split = fgets-append 335 (c ∷ cs) t e (λ z. cc) in
      let line = (fgets 335 (c ∷ cs)).0 in
      let rest = (fgets 335 (c ∷ cs)).1 in
      ap (λ p. onward g p.1 (take_line (read_line p.0) keys)) split
      ∙ by_round (take_line (read_line line) keys) (take_line-full (read_line line) keys)
          (λ more r.
            load_loop-append f g rest more (fgets-EndsLine 335 (c ∷ cs) e)
              (le_step _ _ f (fgets-shorter 334 c cs) h)
              (le_step _ _ g (shorter-append rest cs t (fgets-shorter 334 c cs)) k) r few)
          q
    where
      by_round :
          (o : Round)
          → ((full : List Key) → o ≡ returns (some full) → 32 ≤ length full)
          → ((more : List Key)
              → load_loop f (fgets 335 (c ∷ cs)).1 more ≡ some ks
              → load_loop g ((fgets 335 (c ∷ cs)).1 ++ t) more ≡ load_loop (length t) t ks)
          → onward f (fgets 335 (c ∷ cs)).1 o ≡ some ks
          → onward g ((fgets 335 (c ∷ cs)).1 ++ t) o ≡ load_loop (length t) t ks
      by_round (returns none) full ih q = ground arith
      by_round (returns (some found)) full ih q =
          absurd (too_many found ks (some-injective _ _ q) (full found refl) few)
      by_round (goes_on more) full ih q = ih more q

-- A file that open appends to: absent, or with a newline at the end of its last line.
abbrev pub EndsFile : KeyFile → Type 0
EndsFile absent = Unit
EndsFile unreadable = ⊥
EndsFile (contents s) = EndsLine s

pub auth_keyring_load-append_to :
    (f : KeyFile) (line : Bytes) {ks : List Key}
    → EndsFile f
    → auth_keyring_load f ≡ some ks
    → length ks < 32
    → auth_keyring_load (append_to f line) ≡ load_loop (length line) line ks
unfolding auth_keyring_load append_to
auth_keyring_load-append_to absent line e q few =
    ap (load_loop (length line) line) (some-injective _ _ q)
auth_keyring_load-append_to unreadable line e q few = absurd e
auth_keyring_load-append_to (contents s) line e q few =
    load_loop-append line (length s) (length (s ++ line)) s [] e (omega arith) (omega arith) q few

abbrev pub new_key : Bytes → Bytes → Key
new_key key_id raw = record { key_id = key_id; psk = auth_hex raw }

pub take_line-new :
    (key_id psk : Bytes) (ks : List Key)
    → length ks < 32
    → length key_id < 64
    → length psk < 256
    → take_line (entry key_id psk) ks ≡ goes_on (ks ++ (record { key_id = key_id; psk = psk } ∷ []))
unfolding take_line
take_line-new key_id psk ks few a b = ground arith

pub load_loop-last :
    (s : Bytes) (ks ks' : List Key)
    → s ≢ []
    → fgets 335 s ≡ (s, [])
    → take_line (read_line s) ks ≡ goes_on ks'
    → load_loop (length s) s ks ≡ some ks'
unfolding load_loop
load_loop-last [] ks ks' n e q = absurd (n refl)
load_loop-last (c ∷ cs) ks ks' n e q =
    load_loop-step (length cs) c cs ks
    ∙ ap (λ p. onward (length cs) p.1 (take_line (read_line p.0) ks)) e
    ∙ ap (onward (length cs) []) q
    ∙ load_loop-end (length cs) ks'
  where
    load_loop-end : (fuel : ℕ) (ks : List Key) → load_loop fuel [] ks ≡ some ks
    load_loop-end zero ks = refl
    load_loop-end (suc fuel) ks = refl

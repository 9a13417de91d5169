-- ===== src/Auth/Loaded.antt =====
-- common/auth.c, auth_keyring_load: what holds of every key that is loaded.
use sdr_slc_rtld.Base.{
  ℕ, zero, suc, ◌≤◌, ◌<◌, ◌≡◌, subst, Option, none, some, List, [], ◌∷◌, ◌++◌, Bytes, length,
  length-append, leb, arith, Bool-cases, inl, inr,
}
use sdr_slc_rtld.Libc.{fgets}
use sdr_slc_rtld.Auth.Verify.{Key}
use sdr_slc_rtld.Auth.Keyring.{
  KeyFile, absent, unreadable, contents, Line, ignored, malformed, entry, read_line, too_long,
  max_keys, Round, returns, goes_on, take_line, load_loop, auth_keyring_load,
}

-- The arrays of `auth_key_t` hold the texts and their NUL.
pub record Fits (k : Key) : Type 0 where
  pub id_fits : length k.key_id < 64
  pub psk_fits : length k.psk < 256

abbrev pub AllFit : List Key → Type 0
AllFit [] = Unit
AllFit (k ∷ ks) = Fits k × AllFit ks

-- A keyring within the bounds of `auth_keyring_t`.
pub record IsKeyring (keys : List Key) : Type 0 where
  pub count : length keys ≤ 32
  pub fit : AllFit keys

AllFit-snoc : (ks : List Key) (k : Key) → AllFit ks → Fits k → AllFit (ks ++ (k ∷ []))
AllFit-snoc [] k a f = (f, tt)
AllFit-snoc (x ∷ ks) k (b, a) f = (b, AllFit-snoc ks k a f)

abbrev RoundFits : Round → Type 0
RoundFits (returns none) = Unit
RoundFits (returns (some keys)) = IsKeyring keys
RoundFits (goes_on keys) = IsKeyring keys

take_line-RoundFits : (l : Line) (keys : List Key) → IsKeyring keys → RoundFits (take_line l keys)
unfolding take_line
take_line-RoundFits ignored keys r = r
take_line-RoundFits malformed keys r = tt
take_line-RoundFits (entry key_id psk) keys r = elim (Bool-cases (leb max_keys (length keys))) [
  | inl e ↦ rw e r
  | inr e ↦ rw e (elim (Bool-cases (too_long key_id psk)) [
    | inl k ↦ rw k tt
    | inr k ↦ rw k (
        let f : Fits (record { key_id = key_id; psk = psk }) = ground arith in
        record {
          count =
              ground
                (arith, length-append keys (record { key_id = key_id; psk = psk } ∷ []), r.count);
          fit = AllFit-snoc keys _ r.fit f;
        })
  ])
]

abbrev ResultFits : Option (List Key) → Type 0
ResultFits none = Unit
ResultFits (some keys) = IsKeyring keys

load_loop-ResultFits :
    (fuel : ℕ) (s : Bytes) (keys : List Key) → IsKeyring keys → ResultFits (load_loop fuel s keys)
unfolding load_loop
load_loop-ResultFits zero s keys r = r
load_loop-ResultFits (suc fuel) [] keys r = r
load_loop-ResultFits (suc fuel) (c ∷ cs) keys r =
    let (line, rest) = fgets 335 (c ∷ cs) in
    by_round (take_line (read_line line) keys) (take_line-RoundFits (read_line line) keys r) rest
      (load_loop-ResultFits fuel rest)
  where
    by_round :
        (o : Round)
        → RoundFits o
        → (rest : Bytes)
        → ((more : List Key) → IsKeyring more → ResultFits (load_loop fuel rest more))
        → ResultFits (elim o [ returns result ↦ result | goes_on more ↦ load_loop fuel rest more ])
    by_round (returns none) f rest ih = tt
    by_round (returns (some ks)) f rest ih = f
    by_round (goes_on more) f rest ih = ih more f

-- Every keyring that is loaded is within the bounds of its arrays: at most 32 keys, each id below 64
-- bytes and each secret below 256.
pub auth_keyring_load-IsKeyring :
    (f : KeyFile) {keys : List Key} → auth_keyring_load f ≡ some keys → IsKeyring keys
unfolding auth_keyring_load
auth_keyring_load-IsKeyring f {keys} e = subst ResultFits e (result f)
  where
    empty : IsKeyring []
    empty = record { count = omega arith; fit = tt }

    result : (f : KeyFile) → ResultFits (auth_keyring_load f)
    result absent = empty
    result unreadable = tt
    result (contents s) = load_loop-ResultFits (length s) s [] empty

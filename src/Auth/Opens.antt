-- ===== src/Auth/Opens.antt =====
-- common/auth.c: the answer that a client makes with a key of the keyring is accepted.
use mathlib.Core.List.{Memᴰ}
use sdr_slc_rtld.Base.{
  ℕ, zero, suc, ◌*◌, ◌/◌, ◌%◌, ◌^◌, ◌<◌, ◌≡◌, ◌≢◌, refl, true, some, List, [], ◌∷◌, ◌++◌, Bytes,
  length, arith, AllBelow,
}
use sdr_slc_rtld.Auth.Sha256.{Words, be_bytes, digest, sha256_final, auth_hmac_sha256}
use sdr_slc_rtld.Auth.Verify.{Key, auth_hex, auth_verify}
use sdr_slc_rtld.Auth.Accept.{unhex-auth_hex, auth_verify_iff, length-auth_hmac_sha256}
use sdr_slc_rtld.Auth.Keyring.{auth_keyring_load}
use sdr_slc_rtld.Auth.Keygen.{Settings, Host, keygen}
use sdr_slc_rtld.Auth.Lines.{NoNul, length-auth_hex}
use sdr_slc_rtld.Auth.Keyfile.{EndsFile, new_key}
use sdr_slc_rtld.Auth.NewKey.{keygen-auth_keyring_load}

be_bytes-AllBelow : (n x : ℕ) → AllBelow 256 (be_bytes n x)
unfolding be_bytes
be_bytes-AllBelow zero x = tt
be_bytes-AllBelow (suc n) x = (below_256 (x / 2 ^ (8 * n)), be_bytes-AllBelow n x)
  where
    below_256 : (y : ℕ) → y % 256 < 256
    below_256 y = omega arith

AllBelow-append : (s t : Bytes) → AllBelow 256 s → AllBelow 256 t → AllBelow 256 (s ++ t)
AllBelow-append [] t a b = b
AllBelow-append (c ∷ cs) t (x, a) b = (x, AllBelow-append cs t a b)

digest-AllBelow : (s : Words) → AllBelow 256 (digest s)
unfolding digest
digest-AllBelow s = search (AllBelow-append, be_bytes-AllBelow) depth 20

auth_hmac_sha256-AllBelow : (key msg : Bytes) → AllBelow 256 (auth_hmac_sha256 key msg)
unfolding auth_hmac_sha256 sha256_final
auth_hmac_sha256-AllBelow key msg = digest-AllBelow _

-- The response of §26.2.
abbrev pub response : Bytes → Bytes → Bytes
response psk nonce = auth_hex (auth_hmac_sha256 psk nonce)

auth_verify-response :
    (keys : List Key) (k : Key) (nonce : Bytes)
    → Memᴰ k keys
    → auth_verify keys k.key_id nonce (response k.psk nonce) ≡ true
auth_verify-response keys k nonce m =
    (auth_verify_iff k.key_id nonce (response k.psk nonce) keys).1 (
      auth_hmac_sha256 k.psk nonce,
      omega (
        arith,
        length-auth_hex (auth_hmac_sha256 k.psk nonce),
        length-auth_hmac_sha256 k.psk nonce,
      ),
      unhex-auth_hex (auth_hmac_sha256 k.psk nonce) (auth_hmac_sha256-AllBelow k.psk nonce),
      record { key = k; listed = m; named = refl; gives = refl },
    )

Memᴰ-last : (ks : List Key) (k : Key) → Memᴰ k (ks ++ (k ∷ []))
Memᴰ-last [] k = Memᴰ.head refl
Memᴰ-last (x ∷ ks) k = Memᴰ.tail (Memᴰ-last ks k)

module _ (h : Host) (o : Settings) (raw : Bytes) (keys : List Key) where
  -- keygen makes a key of 32 random bytes. If the file was loaded with fewer than 32 keys and ended
  -- with a newline, the key_id is neither empty nor holds a NUL, and keygen exits with 0, then a daemon
  -- that loads the file afterwards has the same keys and behind them the new one, whose secret is the
  -- text that keygen printed; and it accepts, at every nonce, the response that a client makes from the
  -- key_id and that text.
  pub keygen-auth_verify :
      h.random ≡ some raw
      → length raw ≡ 32
      → auth_keyring_load (h.files o.path) ≡ some keys
      → length keys < 32
      → EndsFile (h.files o.path)
      → o.key_id ≢ []
      → NoNul o.key_id
      → (keygen h o).code ≡ 0
      → (auth_keyring_load (keygen h o).file ≡ some (keys ++ (new_key o.key_id raw ∷ [])))
        × ((keygen h o).printed ≡ some (auth_hex raw))
        × ((nonce : Bytes)
            → auth_verify
                (keys ++ (new_key o.key_id raw ∷ []))
                o.key_id
                nonce
                (response (auth_hex raw) nonce)
              ≡ true)
  keygen-auth_verify r n l few ends named nonul e =
      let (reads, shows) = keygen-auth_keyring_load h o raw keys r n l few ends named nonul e in
      (
        reads,
        shows,
        λ nonce.
            auth_verify-response _ (new_key o.key_id raw) nonce
              (Memᴰ-last keys (new_key o.key_id raw)),
      )

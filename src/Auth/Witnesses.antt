-- ===== src/Auth/Witnesses.antt =====
-- The theorems on common/auth.c at concrete keys and texts.
use sdr_slc_rtld.Base.{
  ◌≡◌, ◌↔◌, refl, true, some, [], ◌∷◌, ◌++◌, eq_bytes, replicate, List, Bytes, length, codes, arith,
}
use sdr_slc_rtld.Auth.Sha256.{Sha256, sha256_init, sha256_update, pad_loop, auth_hmac_sha256}
use sdr_slc_rtld.Auth.Stream.{
  feed, sha256_update-feed, pad_loop-reaches, hmac_reference, auth_hmac_sha256-hmac,
}
use sdr_slc_rtld.Auth.Keyring.{contents, auth_keyring_load}
use sdr_slc_rtld.Auth.Loaded.{IsKeyring, auth_keyring_load-IsKeyring}
use sdr_slc_rtld.Auth.Keygen.{Host, Settings, keygen}
use sdr_slc_rtld.Auth.Keyfile.{new_key}
use sdr_slc_rtld.Auth.Opens.{response, keygen-auth_verify}
use sdr_slc_rtld.Auth.Verify.{Key, auth_hex, unhex, auth_verify}
use sdr_slc_rtld.Auth.Accept.{Answers, auth_verify_iff}

abbrev one_key : List Key
one_key = record { key_id = codes "default"; psk = codes "secret" } ∷ []

auth_verify_iff_example :
    (auth_verify one_key (codes "default") (1 ∷ 2 ∷ []) (codes "00") ≡ true) ↔ (
      (given : Bytes) × (length (codes "00") ≡ 64)
      × (unhex (codes "00") ≡ some given)
      × Answers one_key (codes "default") (1 ∷ 2 ∷ []) given)
auth_verify_iff_example = auth_verify_iff (codes "default") (1 ∷ 2 ∷ []) (codes "00") one_key

-- A context that has read two bytes.
abbrev begun : Sha256
begun = record sha256_init { len = 2; buf = 7 ∷ 8 ∷ [] }

sha256_update-feed_example :
    sha256_update (codes "abc") begun ≡ feed (codes "abc") (record begun { len = 5 })
sha256_update-feed_example = sha256_update-feed (codes "abc") begun (omega arith)

pad_loop-reaches_example : length (pad_loop 64 begun).buf ≡ 56
pad_loop-reaches_example = pad_loop-reaches begun (omega arith)

auth_hmac_sha256-hmac_example :
    auth_hmac_sha256 (codes "secret") (codes "nonce")
    ≡ hmac_reference (codes "secret") (codes "nonce")
auth_hmac_sha256-hmac_example = auth_hmac_sha256-hmac (codes "secret") (codes "nonce")

-- A host with a key file of one key.
abbrev workshop : Host
workshop = record {
  files = λ path. contents (codes "# keys\ndefault abc\n");
  random = some (replicate 32 7);
  made_parent = true;
  opened = true;
  written = 69;
}

abbrev for_lab : Settings
for_lab = record { path = codes "keys"; key_id = codes "lab" }

abbrev old_keys : List Key
old_keys = record { key_id = codes "default"; psk = codes "abc" } ∷ []

workshop_keys : auth_keyring_load (workshop.files for_lab.path) ≡ some old_keys
unfolding auth_keyring_load
workshop_keys = refl

workshop_done : (keygen workshop for_lab).code ≡ 0
unfolding keygen auth_keyring_load eq_bytes
workshop_done = refl

auth_keyring_load-IsKeyring_example : IsKeyring old_keys
auth_keyring_load-IsKeyring_example =
    auth_keyring_load-IsKeyring (workshop.files for_lab.path) workshop_keys

keygen-auth_verify_example :
    (auth_keyring_load (keygen workshop for_lab).file
      ≡ some (old_keys ++ (new_key (codes "lab") (replicate 32 7) ∷ [])))
    × ((keygen workshop for_lab).printed ≡ some (auth_hex (replicate 32 7)))
    × ((nonce : Bytes)
        → auth_verify
            (old_keys ++ (new_key (codes "lab") (replicate 32 7) ∷ []))
            (codes "lab")
            nonce
            (response (auth_hex (replicate 32 7)) nonce)
          ≡ true)
keygen-auth_verify_example =
    keygen-auth_verify workshop for_lab (replicate 32 7) old_keys refl refl workshop_keys
      (omega arith) refl (λ e. cc) (ground arith) workshop_done

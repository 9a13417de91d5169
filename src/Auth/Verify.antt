-- ===== src/Auth/Verify.antt =====
-- common/auth.c: hexadecimal, and auth_verify over the keyring.
use Prim.Native.Nat.{bit_or, bit_xor}
use sdr_slc_rtld.Base.{
  ℕ, ◌+◌, ◌-◌, ◌*◌, ◌/◌, ◌%◌, Bool, false, not, ◌&&◌, ◌||◌, Option, none, some, List, [], ◌∷◌,
  Bytes, length, eq_bytes, leb, ◌==◌, if◌then◌else◌,
}
use sdr_slc_rtld.Json.Escape.{hex_digit}
use sdr_slc_rtld.Auth.Sha256.{auth_hmac_sha256}

-- `auth_key_t`; a keyring is the list of its `n` keys.
pub record Key : Type 0 where
  pub key_id : Bytes
  pub psk : Bytes

-- auth_hex.
unfoldable pub auth_hex : Bytes → Bytes
unfolding hex_digit
auth_hex [] = []
auth_hex (b ∷ bs) = hex_digit (b / 16) ∷ hex_digit (b % 16) ∷ auth_hex bs

-- hexval; -1 is `none`.
unfoldable pub hexval : ℕ → Option ℕ
hexval c =
    if leb b'0' c && leb c b'9'
    then some (c - b'0')
    else if leb b'a' c && leb c b'f'
    then some (c - b'a' + 10)
    else if leb b'A' c && leb c b'F'
    then some (c - b'A' + 10)
    else none

-- The loop of auth_verify that reads `given` from pairs of digits.
unfoldable pub unhex : Bytes → Option Bytes
unfolding hexval
unhex [] = some []
unhex (c ∷ []) = none
unhex (h ∷ l ∷ rest) = elim (hexval h) [
  | none ↦ none
  | some hi ↦ (elim (hexval l) [
    | none ↦ none
    | some lo ↦ (elim (unhex rest) [ none ↦ none | some bs ↦ some ((hi * 16 + lo) ∷ bs) ])
  ])
]

-- The accumulator of ct_equal, over two arrays of one length.
unfoldable pub difference : ℕ → Bytes → Bytes → ℕ
difference acc [] bs = acc
difference acc (a ∷ as') [] = acc
difference acc (a ∷ as') (b ∷ bs) = difference (bit_or acc (bit_xor a b)) as' bs

unfoldable pub ct_equal : Bytes → Bytes → Bool
unfolding difference
ct_equal a b = difference 0 a b == 0

-- The loop over the keys: every key with the id is tried.
unfoldable pub try_keys : List Key → Bytes → Bytes → Bytes → Bool → Bool
try_keys [] key_id nonce given ok = ok
try_keys (k ∷ ks) key_id nonce given ok = try_keys ks key_id nonce given (
    if not (eq_bytes k.key_id key_id)
    then ok
    else ok || ct_equal (auth_hmac_sha256 k.psk nonce) given)

-- auth_verify.
unfoldable pub auth_verify : List Key → Bytes → Bytes → Bytes → Bool
unfolding try_keys unhex
auth_verify keys key_id nonce response_hex =
    if length keys == 0
    then false
    else if not (length response_hex == 64)
    then false
    else (elim (unhex response_hex) [
      | none ↦ false
      | some given ↦ try_keys keys key_id nonce given false
    ])

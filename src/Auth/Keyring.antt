-- ===== src/Auth/Keyring.antt =====
-- common/auth.c: auth_keyring_load.
use sdr_slc_rtld.Base.{
  ℕ, zero, suc, Bool, ◌||◌, Option, none, some, List, [], ◌∷◌, ◌++◌, Bytes, length, leb, ◌==◌,
  if◌then◌else◌,
}
use sdr_slc_rtld.Libc.{is_space, skip_spaces, until_nul, fgets}
use sdr_slc_rtld.Auth.Verify.{Key}

-- What fopen finds at a path.
pub data KeyFile : Type 0 where
  absent unreadable : KeyFile
  contents : Bytes → KeyFile

-- The loop that takes spaces off the end.
unfoldable pub trim_end : Bytes → Bytes
unfolding is_space
trim_end [] = []
trim_end (c ∷ cs) = elim (trim_end cs) [
  | [] ↦ if is_space c then [] else c ∷ []
  | d ∷ ds ↦ c ∷ d ∷ ds
]

-- The bytes up to the first space, and the rest from that space on.
unfoldable pub split_word : Bytes → Bytes × Bytes
unfolding is_space
split_word [] = ([], [])
split_word (c ∷ cs) =
    let (word, rest) = split_word cs in if is_space c then ([], c ∷ cs) else (c ∷ word, rest)

-- What a line holds.
pub data Line : Type 0 where
  ignored malformed : Line
  entry : Bytes → Bytes → Line

-- What stands behind the word.
unfoldable pub read_secret : Bytes → Bytes → Line
unfolding skip_spaces
read_secret key_id [] = malformed
read_secret key_id (c ∷ cs) = elim (skip_spaces cs) [
  | [] ↦ malformed
  | d ∷ ds ↦ entry key_id (d ∷ ds)
]

-- The two halves of a line that has been trimmed.
unfoldable pub read_entry : Bytes → Line
unfolding split_word read_secret
read_entry p = let (key_id, rest) = split_word p in read_secret key_id rest

unfoldable pub read_line : Bytes → Line
unfolding read_entry trim_end until_nul skip_spaces
read_line line = elim (skip_spaces (until_nul line)) [
  | [] ↦ ignored
  | c ∷ cs ↦ if c == b'#' then ignored else read_entry (trim_end (c ∷ cs))
]

abbrev pub max_keys : ℕ
max_keys = 32

abbrev pub too_long : Bytes → Bytes → Bool
too_long key_id psk = leb 64 (length key_id) || leb 256 (length psk)

-- How a round of the loop ends: with the result of the function, or with the keys so far.
pub data Round : Type 0 where
  returns : Option (List Key) → Round
  goes_on : List Key → Round

unfoldable pub take_line : Line → List Key → Round
take_line ignored keys = goes_on keys
take_line malformed keys = returns none
take_line (entry key_id psk) keys =
    if leb max_keys (length keys)
    then returns (some keys)
    else if too_long key_id psk
    then returns none
    else goes_on (keys ++ (record { key_id = key_id; psk = psk } ∷ []))

-- The loop over the lines; `none` is the result -1. Each round reads one byte at least, so the
-- length of the file is fuel enough. A line has AUTH_KEY_ID_MAX + AUTH_PSK_MAX + 15 bytes at most.
unfoldable pub load_loop : ℕ → Bytes → List Key → Option (List Key)
unfolding read_line fgets take_line
load_loop zero s keys = some keys
load_loop (suc fuel) [] keys = some keys
load_loop (suc fuel) (c ∷ cs) keys =
    let (line, rest) = fgets 335 (c ∷ cs) in
    elim (take_line (read_line line) keys) [
      | returns result ↦ result
      | goes_on more ↦ load_loop fuel rest more
    ]

-- auth_keyring_load: the keys, or `none` for -1.
unfoldable pub auth_keyring_load : KeyFile → Option (List Key)
unfolding load_loop
auth_keyring_load absent = some []
auth_keyring_load unreadable = none
auth_keyring_load (contents s) = load_loop (length s) s []

-- ===== src/Auth/Keygen.antt =====
-- common/auth.c: auth_keygen_main.
use sdr_slc_rtld.Base.{
  ℕ, Bool, true, false, not, ◌&&◌, ◌||◌, Option, none, some, List, [], ◌∷◌, ◌++◌, Bytes, codes,
  length, take, eq_bytes, leb, ◌==◌, if◌then◌else◌,
}
use sdr_slc_rtld.Libc.{is_space}
use sdr_slc_rtld.Auth.Verify.{Key, auth_hex}
use sdr_slc_rtld.Auth.Keyring.{KeyFile, absent, unreadable, contents, auth_keyring_load}

-- The settings of the subcommand, without --quiet, which changes the text on the terminal only.
pub record Settings : Type 0 where
  pub path : Bytes
  pub key_id : Bytes

-- What the loop over the arguments comes to: an exit code, or the settings.
pub data Plan : Type 0 where
  exits : ℕ → Plan
  runs : Settings → Plan

-- The loop over argv.
unfoldable pub parse_arguments : List Bytes → Settings → Plan
parse_arguments [] o = runs o
parse_arguments (a ∷ []) o =
    if eq_bytes a (codes "--quiet")
    then runs o
    else if eq_bytes a (codes "-h") || eq_bytes a (codes "--help")
    then exits 0
    else exits 2
parse_arguments (a ∷ value ∷ rest) o =
    let file = parse_arguments rest (record o { path = value }) in
    let name = parse_arguments rest (record o { key_id = value }) in
    let quiet = parse_arguments (value ∷ rest) o in
    if eq_bytes a (codes "--keys-file")
    then file
    else if eq_bytes a (codes "--key-id")
    then name
    else if eq_bytes a (codes "--quiet")
    then quiet
    else if eq_bytes a (codes "-h") || eq_bytes a (codes "--help")
    then exits 0
    else exits 2

-- A byte that a key_id may hold.
unfoldable pub id_byte : ℕ → Bool
unfolding is_space
id_byte c = not (is_space c) && not (c == b'#')

unfoldable pub id_bytes : Bytes → Bool
unfolding id_byte
id_bytes [] = true
id_bytes (c ∷ cs) = id_byte c && id_bytes cs

-- The loop over the keys that looks for the id.
unfoldable pub has_id : List Key → Bytes → Bool
has_id [] key_id = false
has_id (k ∷ ks) key_id = eq_bytes k.key_id key_id || has_id ks key_id

-- What the system answers: the files, 32 random bytes or an error, and whether the directory, the
-- file and the write succeed. A short write is a write that fails and leaves a part of the line.
pub record Host : Type 0 where
  pub files : Bytes → KeyFile
  pub random : Option Bytes
  pub made_parent : Bool
  pub opened : Bool
  pub written : ℕ

-- The exit code, what stands in the key file, and the secret that is printed.
pub record Outcome : Type 0 where
  pub code : ℕ
  pub file : KeyFile
  pub printed : Option Bytes

abbrev pub key_line : Bytes → Bytes → Bytes
key_line key_id psk = key_id ++ (b' ' ∷ (psk ++ (b'\n' ∷ [])))

-- A write behind the end of the file, which open creates if it is absent.
unfoldable pub append_to : KeyFile → Bytes → KeyFile
append_to absent line = contents line
append_to unreadable line = unreadable
append_to (contents s) line = contents (s ++ line)

abbrev fails : ℕ → KeyFile → Outcome
fails code file = record { code = code; file = file; printed = none }

-- The write of the line, and the secret that is shown once.
unfoldable pub write_line : ℕ → KeyFile → Bytes → Bytes → Outcome
unfolding append_to
write_line written file line psk =
    if written == length line
    then record { code = 0; file = append_to file line; printed = some psk }
    else fails 1 (append_to file (take written line))

-- From the random bytes on.
unfoldable pub generate : Host → KeyFile → Bytes → Outcome
unfolding write_line auth_hex
generate h file key_id = elim h.random [
  | none ↦ fails 1 file
  | some raw ↦
      if not h.made_parent || not h.opened
      then fails 1 file
      else write_line h.written file (key_line key_id (auth_hex raw)) (auth_hex raw)
]

-- From the checks of the key_id on.
unfoldable pub keygen : Host → Settings → Outcome
unfolding id_bytes has_id generate
keygen h o =
    let file = h.files o.path in
    if not (id_bytes o.key_id) || leb 64 (length o.key_id)
    then fails 2 file
    else (elim (auth_keyring_load file) [
      | none ↦ fails 1 file
      | some keys ↦ if has_id keys o.key_id then fails 1 file else generate h file o.key_id
    ])

-- auth_keygen_main, with the path of the key file and what stands in it at the end.
unfoldable pub auth_keygen_main : Host → List Bytes → Bytes → Bytes × Outcome
unfolding parse_arguments keygen
auth_keygen_main h argv default_path =
    elim (parse_arguments argv (record { path = default_path; key_id = codes "default" })) [
      | exits code ↦ (default_path, fails code (h.files default_path))
      | runs o ↦ (o.path, keygen h o)
    ]

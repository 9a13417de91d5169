-- ===== src/Json/Escape.antt =====
-- cp/cp_commands.c: json_escape.
use sdr_slc_rtld.Base.{
  ℕ, ◌+◌, ◌-◌, ◌/◌, ◌%◌, [], ◌∷◌, ◌++◌, Bytes, length, ltb, leb, ◌==◌, if◌then◌else◌,
}

-- "%x" of one hexadecimal digit.
unfoldable pub hex_digit : ℕ → ℕ
hex_digit d = if ltb d 10 then b'0' + d else b'a' + (d - 10)

-- What one byte is written as.
unfoldable pub escape_byte : ℕ → Bytes
unfolding hex_digit
escape_byte c =
    if c == b'"'
    then b'\\' ∷ b'"' ∷ []
    else if c == b'\\'
    then b'\\' ∷ b'\\' ∷ []
    else if c == b'\n'
    then b'\\' ∷ b'n' ∷ []
    else if c == b'\r'
    then b'\\' ∷ b'r' ∷ []
    else if c == b'\t'
    then b'\\' ∷ b't' ∷ []
    else if c == 8
    then b'\\' ∷ b'b' ∷ []
    else if c == 12
    then b'\\' ∷ b'f' ∷ []
    else if ltb c 32
    then b'\\' ∷ b'u' ∷ b'0' ∷ b'0' ∷ hex_digit (c / 16) ∷ hex_digit (c % 16) ∷ []
    else c ∷ []

-- The loop, with `o` bytes written so far; it stops before the buffer of `cap` bytes is full.
unfoldable pub escape_loop : ℕ → ℕ → Bytes → Bytes
unfolding escape_byte
escape_loop cap o [] = []
escape_loop cap o (c ∷ cs) =
    let e = escape_byte c in
    let rest = escape_loop cap (o + length e) cs in if leb cap (o + length e) then [] else e ++ rest

-- json_escape of a C string: the bytes before the terminating NUL.
unfoldable pub json_escape : Bytes → ℕ → Bytes
unfolding escape_loop
json_escape s cap = escape_loop cap 0 s

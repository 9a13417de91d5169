-- ===== src/Libc.antt =====
-- The parts of the C library that the model needs: strtoull, strtoul and strtol of an LP64 system
-- at base 10, inet_pton for AF_INET, and the reading of lines.
use sdr_slc_rtld.Base.{
  ℕ, zero, suc, ◌+◌, ◌-◌, ◌*◌, ◌%◌, ◌^◌, Bool, true, false, ◌&&◌, ◌||◌, Option, none, some, [], ◌∷◌,
  Bytes, min, ltb, leb, ◌==◌, if◌then◌else◌,
}
use sdr_slc_rtld.Base.Int.{ℤ, pos, negsuc}

unfoldable pub is_digit : ℕ → Bool
is_digit c = leb b'0' c && leb c b'9'

unfoldable pub is_space : ℕ → Bool
is_space c = c == b' ' || (leb 9 c && leb c 13)

unfoldable pub skip_spaces : Bytes → Bytes
unfolding is_space
skip_spaces [] = []
skip_spaces (c ∷ cs) = let rest = skip_spaces cs in if is_space c then rest else c ∷ cs

-- The value of the leading digits, of any size.
unfoldable pub digits_from : ℕ → Bytes → ℕ
unfolding is_digit
digits_from acc [] = acc
digits_from acc (c ∷ cs) =
    let rest = digits_from (acc * 10 + (c - b'0')) cs in if is_digit c then rest else acc

-- The sign, true for `-`, and the magnitude.
unfoldable pub signed_from : Bytes → Bool × ℕ
unfolding digits_from
signed_from [] = (false, 0)
signed_from (c ∷ cs) =
    if c == b'-'
    then (true, digits_from 0 cs)
    else if c == b'+'
    then (false, digits_from 0 cs)
    else (false, digits_from 0 (c ∷ cs))

-- strtoull: `none` is ERANGE. A minus sign negates in uint64_t.
unfoldable pub strtoull : Bytes → Option ℕ
unfolding skip_spaces signed_from
strtoull s =
    let (negative, n) = signed_from (skip_spaces s) in
    if leb (2 ^ 64) n then none else some (if negative then (2 ^ 64 - n) % 2 ^ 64 else n)

-- strtoul, where `errno` is not looked at: ULONG_MAX out of range.
unfoldable pub strtoul : Bytes → ℕ
unfolding strtoull
strtoul s = elim (strtoull s) [ none ↦ 2 ^ 64 - 1 | some n ↦ n ]

-- strtol, saturated at LONG_MIN and LONG_MAX, as the low 32 bits that `(int)` keeps.
unfoldable pub strtol_int : Bytes → ℤ
unfolding skip_spaces signed_from
strtol_int s =
    let (negative, n) = signed_from (skip_spaces s) in
    let w = if negative then (2 ^ 64 - min n (2 ^ 63)) % 2 ^ 32 else min n (2 ^ 63 - 1) % 2 ^ 32 in
    if ltb w (2 ^ 31) then pos w else negsuc (2 ^ 32 - w - 1)

-- The state of inet_pton: the octets done, and the one being read.
unfoldable pub pton_loop : ℕ → ℕ → Option ℕ → Bytes → Option ℕ
unfolding is_digit
pton_loop n acc none [] = none
pton_loop n acc (some o) [] = if n == 3 then some (acc * 256 + o) else none
pton_loop n acc none (c ∷ cs) =
    let rest = pton_loop n acc (some (c - b'0')) cs in if is_digit c then rest else none
pton_loop n acc (some o) (c ∷ cs) =
    let more = pton_loop n acc (some (o * 10 + (c - b'0'))) cs in
    let dot = pton_loop (n + 1) (acc * 256 + o) none cs in
    if is_digit c
    then (if o == 0 || ltb 255 (o * 10 + (c - b'0')) then none else more)
    else if c == b'.' && ltb n 3
    then dot
    else none

-- inet_pton: the address, first octet highest.
unfoldable pub inet_pton : Bytes → Option ℕ
unfolding pton_loop
inet_pton s = pton_loop 0 0 none s

-- The C string in a buffer: what stands before the NUL.
unfoldable pub until_nul : Bytes → Bytes
until_nul [] = []
until_nul (c ∷ cs) = let rest = c ∷ until_nul cs in if c == 0 then [] else rest

-- fgets with a buffer of `room + 1` bytes: the line with its newline, or the part of it that fits,
-- and what is left of the file.
unfoldable pub fgets : ℕ → Bytes → Bytes × Bytes
fgets zero s = ([], s)
fgets (suc room) [] = ([], [])
fgets (suc room) (c ∷ cs) =
    let (line, rest) = fgets room cs in if c == b'\n' then (c ∷ [], cs) else (c ∷ line, rest)

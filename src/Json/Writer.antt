-- ===== src/Json/Writer.antt =====
-- json/json_builder.c: the writer into a buffer of the caller. No part of the daemon calls it.
use sdr_slc_rtld.Base.{
  ℕ, zero, suc, ◌+◌, ◌/◌, ◌%◌, Bool, true, false, not, ◌&&◌, ◌||◌, Option, none, some, [], ◌∷◌,
  ◌++◌, Bytes, codes, length, take, min, ltb, leb, ◌==◌, if◌then◌else◌,
}
use sdr_slc_rtld.Base.Int.{ℤ, pos, negsuc}
use sdr_slc_rtld.Libc.{until_nul}
use sdr_slc_rtld.Json.Escape.{hex_digit}

-- `JB`. `text` is what stands in `buf` before the NUL, so `pos` is its length; `need_comma n` is
-- bit n of the `uint16_t`.
pub record Jb : Type 0 where
  pub cap : ℕ
  pub text : Bytes
  pub overflow : Bool
  pub need_comma : ℕ → Bool
  pub depth : ℤ

-- jb_putc.
unfoldable pub jb_putc : ℕ → Jb → Jb
jb_putc c j =
    if j.overflow
    then j
    else if leb j.cap (length j.text + 1)
    then record j { overflow = true }
    else record j { text = j.text ++ (c ∷ []) }

-- jb_puts of the bytes of `s`.
unfoldable pub jb_puts : Bytes → Jb → Jb
jb_puts s j =
    if j.overflow
    then j
    else if leb j.cap (length j.text + length s)
    then record j { overflow = true }
    else record j { text = j.text ++ s }

-- `need_comma |= 1u << depth`: the type keeps 16 bits. A shift by a negative count has no meaning
-- in C, and changes nothing here.
unfoldable pub mark_level : ℤ → (ℕ → Bool) → ℕ → Bool
mark_level (pos d) need n = (n == d && ltb n 16) || need n
mark_level (negsuc d) need n = need n

-- `need_comma &= ~(1u << depth)`.
unfoldable pub clear_level : ℤ → (ℕ → Bool) → ℕ → Bool
clear_level (pos d) need n = not (n == d) && need n
clear_level (negsuc d) need n = need n

abbrev pub wants_comma : ℤ → (ℕ → Bool) → Bool
wants_comma (pos zero) need = false
wants_comma (pos (suc d)) need = need (suc d)
wants_comma (negsuc d) need = false

-- jb_sep.
unfoldable pub jb_sep : Jb → Jb
unfolding mark_level jb_putc
jb_sep j =
    let j' = if wants_comma j.depth j.need_comma then jb_putc b',' j else j in
    record j' { need_comma = mark_level j'.depth j'.need_comma }

-- jb_init.
unfoldable pub jb_init : ℕ → Jb
jb_init cap = record {
  cap = cap;
  text = [];
  overflow = false;
  need_comma = λ n. false;
  depth = pos 0;
}

abbrev up : ℤ → ℤ
up (pos d) = pos (suc d)
up (negsuc zero) = pos 0
up (negsuc (suc d)) = negsuc d

abbrev down : ℤ → ℤ
down (pos zero) = negsuc 0
down (pos (suc d)) = pos d
down (negsuc d) = negsuc (suc d)

-- `depth++`, and the comma state of the new level.
unfoldable pub descend : Jb → Jb
unfolding clear_level
descend j = record j { depth = up j.depth; need_comma = clear_level (up j.depth) j.need_comma }

-- The comma state of the level that ends, and `depth--`.
unfoldable pub ascend : Jb → Jb
unfolding clear_level
ascend j = record j { need_comma = clear_level j.depth j.need_comma; depth = down j.depth }

-- jb_obj_begin, jb_obj_end, jb_arr_begin and jb_arr_end.
unfoldable pub jb_obj_begin : Jb → Jb
unfolding jb_sep descend
jb_obj_begin j = descend (jb_putc b'{' (jb_sep j))

unfoldable pub jb_obj_end : Jb → Jb
unfolding ascend jb_putc
jb_obj_end j = jb_putc b'}' (ascend j)

unfoldable pub jb_arr_begin : Jb → Jb
unfolding jb_sep descend
jb_arr_begin j = descend (jb_putc b'[' (jb_sep j))

unfoldable pub jb_arr_end : Jb → Jb
unfolding ascend jb_putc
jb_arr_end j = jb_putc b']' (ascend j)

-- The escape of a byte below a space.
abbrev pub control_escape : ℕ → Bytes
control_escape c = b'\\' ∷ b'u' ∷ b'0' ∷ b'0' ∷ hex_digit (c / 16) ∷ hex_digit (c % 16) ∷ []

-- One round of the loop of jb_str.
unfoldable pub put_escaped : ℕ → Jb → Jb
unfolding jb_puts jb_putc
put_escaped c =
    if c == b'"'
    then jb_puts (b'\\' ∷ b'"' ∷ [])
    else if c == b'\\'
    then jb_puts (b'\\' ∷ b'\\' ∷ [])
    else if c == b'\n'
    then jb_puts (b'\\' ∷ b'n' ∷ [])
    else if c == b'\r'
    then jb_puts (b'\\' ∷ b'r' ∷ [])
    else if c == b'\t'
    then jb_puts (b'\\' ∷ b't' ∷ [])
    else if ltb c 32
    then jb_puts (control_escape c)
    else jb_putc c

-- The loop of jb_str, up to the NUL.
unfoldable pub str_loop : Bytes → Jb → Jb
unfolding put_escaped
str_loop [] j = j
str_loop (c ∷ cs) j = str_loop cs (put_escaped c j)

-- jb_str of a C string, given by its bytes; `none` is NULL.
unfoldable pub jb_str : Option Bytes → Jb → Jb
unfolding jb_sep str_loop
jb_str none j = jb_puts (b'"' ∷ []) (jb_putc b'"' (jb_sep j))
jb_str (some s) j = jb_putc b'"' (str_loop s (jb_putc b'"' (jb_sep j)))

-- jb_strn: the slice is cut to 255 bytes.
unfoldable pub jb_strn : Bytes → ℕ → Jb → Jb
unfolding jb_str until_nul
jb_strn s len = jb_str (some (until_nul (take (min len 255) s)))

-- The digits of "%u" in front of `rest`, for numbers below 10 ^ fuel.
unfoldable pub digits_onto : ℕ → ℕ → Bytes → Bytes
digits_onto zero n rest = rest
digits_onto (suc fuel) n rest =
    let more = digits_onto fuel (n / 10) ((b'0' + n % 10) ∷ rest) in
    if ltb n 10 then (b'0' + n) ∷ rest else more

-- "%u" and "%llu": 20 digits are enough for 64 bits.
unfoldable pub decimal : ℕ → Bytes
unfolding digits_onto
decimal n = digits_onto 20 n []

-- "%d".
unfoldable pub signed_decimal : ℤ → Bytes
unfolding decimal
signed_decimal (pos n) = decimal n
signed_decimal (negsuc n) = b'-' ∷ decimal (suc n)

-- jb_u32 and jb_u64.
unfoldable pub jb_unsigned : ℕ → Jb → Jb
unfolding jb_sep jb_puts
jb_unsigned v j = jb_puts (decimal v) (jb_sep j)

-- jb_i32.
unfoldable pub jb_i32 : ℤ → Jb → Jb
unfolding jb_sep jb_puts
jb_i32 v j = jb_puts (signed_decimal v) (jb_sep j)

-- jb_bool.
unfoldable pub jb_bool : Bool → Jb → Jb
unfolding jb_sep jb_puts
jb_bool v j = jb_puts (if v then codes "true" else codes "false") (jb_sep j)

-- jb_null.
unfoldable pub jb_null : Jb → Jb
unfolding jb_sep jb_puts
jb_null j = jb_puts (codes "null") (jb_sep j)

-- jb_raw.
unfoldable pub jb_raw : Bytes → Jb → Jb
unfolding jb_sep jb_puts
jb_raw raw j = jb_puts raw (jb_sep j)

-- jb_key.
unfoldable pub jb_key : Bytes → Jb → Jb
unfolding jb_str jb_putc clear_level
jb_key k j =
    let j' = jb_putc b':' (jb_str (some k) j) in
    record j' { need_comma = clear_level j'.depth j'.need_comma }

-- jb_kstr, jb_ku64, jb_ki32, jb_kbool and jb_knull.
unfoldable pub jb_kstr : Bytes → Option Bytes → Jb → Jb
unfolding jb_key
jb_kstr k v j = jb_str v (jb_key k j)

unfoldable pub jb_ku64 : Bytes → ℕ → Jb → Jb
unfolding jb_key
jb_ku64 k v j = jb_unsigned v (jb_key k j)

unfoldable pub jb_ki32 : Bytes → ℤ → Jb → Jb
unfolding jb_key
jb_ki32 k v j = jb_i32 v (jb_key k j)

unfoldable pub jb_kbool : Bytes → Bool → Jb → Jb
unfolding jb_key
jb_kbool k v j = jb_bool v (jb_key k j)

unfoldable pub jb_knull : Bytes → Jb → Jb
unfolding jb_key
jb_knull k j = jb_null (jb_key k j)

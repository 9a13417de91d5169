-- ===== src/Json/Value.antt =====
-- json/json_builder.c: JSON values, their texts, and the calls that write them.
use sdr_slc_rtld.Base.{
  ℕ, suc, Bool, true, false, some, [], ◌∷◌, ◌++◌, Bytes, codes, ltb, ◌==◌, if◌then◌else◌,
}
use Prim.Native.Nat.{max}
use sdr_slc_rtld.Base.Int.{ℤ}
use sdr_slc_rtld.Json.Writer.{
  Jb, jb_str, jb_key, jb_unsigned, jb_i32, jb_bool, jb_null, jb_obj_begin, jb_obj_end, jb_arr_begin,
  jb_arr_end, control_escape, decimal, signed_decimal,
}
use sdr_slc_rtld.Json.Written.{comma}

-- A JSON value, as far as the writer has calls for it.
mutual
  pub data Value : Type 0 where
    null : Value
    flag : Bool → Value
    number : ℕ → Value
    integer : ℤ → Value
    text : Bytes → Value
    array : Items → Value
    object : Members → Value

  pub data Items : Type 0 where
    nil : Items
    cons : Value → Items → Items

  pub data Members : Type 0 where
    end : Members
    member : Bytes → Value → Members → Members

-- Strings with their escapes.
unfoldable pub escaped : ℕ → Bytes
escaped c =
    if c == b'"'
    then b'\\' ∷ b'"' ∷ []
    else if c == b'\\'
    then b'\\' ∷ b'\\' ∷ []
    else if c == b'\n'
    then b'\\' ∷ b'n' ∷ []
    else if c == b'\r'
    then b'\\' ∷ b'r' ∷ []
    else if c == b'\t'
    then b'\\' ∷ b't' ∷ []
    else if ltb c 32
    then control_escape c
    else c ∷ []

unfoldable pub quoted : Bytes → Bytes → Bytes
unfolding escaped
quoted [] rest = b'"' ∷ rest
quoted (c ∷ cs) rest = escaped c ++ quoted cs rest

abbrev pub print_text : Bytes → Bytes
print_text s = b'"' ∷ quoted s []

-- The text of a value: commas between the elements, and no white space.
unfoldable mutual
  unfolding quoted

  pub print : Value → Bytes
  print null = codes "null"
  print (flag v) = if v then codes "true" else codes "false"
  print (number n) = decimal n
  print (integer z) = signed_decimal z
  print (text s) = print_text s
  print (array xs) = b'[' ∷ (print_items false xs ++ (b']' ∷ []))
  print (object ms) = b'{' ∷ (print_members false ms ++ (b'}' ∷ []))

  pub print_items : Bool → Items → Bytes
  print_items later nil = []
  print_items later (cons v xs) = comma later ++ (print v ++ print_items true xs)

  pub print_members : Bool → Members → Bytes
  print_members later end = []
  print_members later (member k v ms) =
      comma later ++ (print_text k ++ (b':' ∷ (print v ++ print_members true ms)))

-- The calls that write a value.
unfoldable mutual
  pub emit : Value → Jb → Jb
  emit null j = jb_null j
  emit (flag v) j = jb_bool v j
  emit (number n) j = jb_unsigned n j
  emit (integer z) j = jb_i32 z j
  emit (text s) j = jb_str (some s) j
  emit (array xs) j = jb_arr_end (emit_items xs (jb_arr_begin j))
  emit (object ms) j = jb_obj_end (emit_members ms (jb_obj_begin j))

  pub emit_items : Items → Jb → Jb
  emit_items nil j = j
  emit_items (cons v xs) j = emit_items xs (emit v j)

  pub emit_members : Members → Jb → Jb
  emit_members end j = j
  emit_members (member k v ms) j = emit_members ms (emit v (jb_key k j))

-- How deep a value nests.
unfoldable mutual
  pub height : Value → ℕ
  height null = 0
  height (flag v) = 0
  height (number n) = 0
  height (integer z) = 0
  height (text s) = 0
  height (array xs) = suc (height_items xs)
  height (object ms) = suc (height_members ms)

  pub height_items : Items → ℕ
  height_items nil = 0
  height_items (cons v xs) = max (height v) (height_items xs)

  pub height_members : Members → ℕ
  height_members end = 0
  height_members (member k v ms) = max (height v) (height_members ms)

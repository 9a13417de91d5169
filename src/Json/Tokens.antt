-- ===== src/Json/Tokens.antt =====
-- json/json_builder.h: the helpers that read jsmn tokens.
use sdr_slc_rtld.Base.{
  ℕ, zero, suc, ◌+◌, ◌-◌, Bool, true, false, ◌&&◌, ◌||◌, Option, none, some, List, Bytes, take,
  drop, codes, eq_bytes, if◌then◌else◌,
}

-- `jsmntype_t`; JSMN_UNDEFINED is given to no token.
pub data TokType : Type 0 where
  object array string primitive : TokType

abbrev pub is_object : TokType → Bool
is_object object = true
is_object _ = false

abbrev pub is_array : TokType → Bool
is_array array = true
is_array _ = false

abbrev pub is_string : TokType → Bool
is_string string = true
is_string _ = false

abbrev pub is_primitive : TokType → Bool
is_primitive primitive = true
is_primitive _ = false

-- `jsmntok_t`. No `stop` is an `end` of -1, which no token of a finished parse has.
pub record Tok : Type 0 where
  pub kind : TokType
  pub start : ℕ
  pub stop : Option ℕ
  pub size : ℕ

-- The errors of jsmn_parse, and what it answers, with the tokens that it has written.
pub data JsmnError : Type 0 where
  nomem inval part : JsmnError

pub data Parsed : Type 0 where
  tokens : List Tok → Parsed
  refused : JsmnError → List Tok → Parsed

-- A frame's text and the token array of the session thread. The array is declared outside the
-- loop, so behind the tokens of this message it still holds those of earlier ones.
pub record Msg : Type 0 where
  pub js : Bytes
  pub toks : ℕ → Tok
  pub ntok : ℕ

abbrev pub tok_end : Tok → ℕ
tok_end t = elim t.stop [ none ↦ 0 | some e ↦ e ]

-- The text of a token.
abbrev pub tok_text : Bytes → Tok → Bytes
tok_text js t = take (tok_end t - t.start) (drop t.start js)

unfoldable pub tok_eq : Bytes → Tok → Bytes → Bool
tok_eq js t s = eq_bytes (tok_text js t) s

-- tok_str into a buffer of `cap` bytes, NUL included.
unfoldable pub tok_str : Bytes → Tok → ℕ → Bytes
tok_str js t cap = take (cap - 1) (tok_text js t)

-- The `while (skip > 0)` of tok_find_key. The fuel is the length of the token array; where it
-- runs out the code reads behind the array, and the model gives no index.
unfoldable pub skip_loop : ℕ → (ℕ → Tok) → ℕ → ℕ → Option ℕ
skip_loop fuel toks zero i = some i
skip_loop zero toks (suc skip) i = none
skip_loop (suc fuel) toks (suc skip) i = skip_loop fuel toks (skip + (toks i).size) (i + 1)

abbrev pub max_json_tokens : ℕ
max_json_tokens = 256

unfoldable pub find_loop : ℕ → Msg → ℕ → Bytes → Option ℕ
unfolding skip_loop
find_loop zero m i key = none
find_loop (suc n) m i key =
    if tok_eq m.js (m.toks i) key
    then some (i + 1)
    else (elim (skip_loop max_json_tokens m.toks 1 (i + 1)) [
      | none ↦ none
      | some j ↦ find_loop n m j key
    ])

-- tok_find_key: the index of the value of a key of the object at index `obj`.
unfoldable pub tok_find_key : Msg → ℕ → Bytes → Option ℕ
unfolding find_loop
tok_find_key m obj key = find_loop (m.toks obj).size m (obj + 1) key

unfoldable pub tok_is_true : Bytes → Tok → Bool
tok_is_true js t = is_primitive t.kind && eq_bytes (tok_text js t) (codes "true")

unfoldable pub tok_is_false : Bytes → Tok → Bool
tok_is_false js t = is_primitive t.kind && eq_bytes (tok_text js t) (codes "false")

unfoldable pub tok_is_bool : Bytes → Tok → Bool
unfolding tok_is_true tok_is_false
tok_is_bool js t = tok_is_true js t || tok_is_false js t

-- ===== src/Json/Parser.antt =====
-- A tokeniser to run the tests with, after json/jsmn.h as it is built here: without JSMN_STRICT
-- and JSMN_PARENT_LINKS, and with a token array. The model takes the tokeniser as a parameter.
use sdr_slc_rtld.Base.{
  ℕ, zero, suc, ◌+◌, ◌-◌, Bool, true, false, not, ◌&&◌, ◌||◌, Option, none, some, List, [], ◌∷◌,
  ◌++◌, Bytes, byte_at, length, get_elem?, set, ltb, leb, ◌==◌, if◌then◌else◌,
}
use sdr_slc_rtld.Json.Tokens.{
  TokType, object, array, string, primitive, Tok, is_object, is_array, max_json_tokens, JsmnError,
  nomem, inval, part, Parsed, tokens, refused,
}

-- `jsmn_parser`, with the tokens allocated so far; `toknext` is their number, and no `toksuper`
-- is -1.
pub record Parser : Type 0 where
  pub pos : ℕ
  pub toks : List Tok
  pub toksuper : Option ℕ

pub data Outcome : Type 0 where
  next : Parser → Outcome
  failed : JsmnError → Outcome

-- The characters that end a primitive.
unfoldable pub ends_primitive : ℕ → Bool
ends_primitive c =
    c == b':'
    || c == b','
    || c == b']'
    || c == b'}'
    || c == b' '
    || c == b'\t'
    || c == b'\r'
    || c == b'\n'

-- A scan stops at a position, or fails, or goes on.
pub data Scan : Type 0 where
  stop_at : ℕ → Scan
  bad : JsmnError → Scan
  go_on : ℕ → Scan

unfoldable pub primitive_step : Bytes → ℕ → ℕ → Scan
unfolding ends_primitive
primitive_step js len pos =
    let c = byte_at js pos in
    if leb len pos || c == 0 || ends_primitive c
    then stop_at pos
    else if ltb c 32 || leb 127 c
    then bad inval
    else go_on (pos + 1)

unfoldable pub is_hex : ℕ → Bool
is_hex h = (leb b'0' h && leb h b'9') || (leb b'A' h && leb h b'F') || (leb b'a' h && leb h b'f')

-- `for (i = 0; i < 4 && pos < len; i++, pos++)` of the \u escape.
unfoldable pub hex_loop : ℕ → Bytes → ℕ → ℕ → Scan
unfolding is_hex
hex_loop zero js len pos = go_on pos
hex_loop (suc n) js len pos =
    let rest = hex_loop n js len (pos + 1) in
    if leb len pos then go_on pos else if is_hex (byte_at js pos) then rest else bad inval

unfoldable pub is_simple_escape : ℕ → Bool
is_simple_escape c =
    c == b'"'
    || c == b'/'
    || c == b'\\'
    || c == b'b'
    || c == b'f'
    || c == b'r'
    || c == b'n'
    || c == b't'

unfoldable pub string_step : Bytes → ℕ → ℕ → Scan
unfolding hex_loop is_simple_escape
string_step js len pos =
    let c = byte_at js pos in
    if leb len pos
    then bad part
    else if c == b'"'
    then stop_at pos
    else if c == b'\\' && ltb (pos + 1) len
    then (let e = byte_at js (pos + 1) in
        if is_simple_escape e
        then go_on (pos + 2)
        else if e == b'u'
        then hex_loop 4 js len (pos + 2)
        else bad inval)
    else go_on (pos + 1)

-- A scan takes a byte at least each time round, so the length of the text is fuel enough.
unfoldable pub scan : (ℕ → Scan) → ℕ → ℕ → Scan
scan step zero pos = bad part
scan step (suc fuel) pos = elim (step pos) [
  | stop_at p ↦ stop_at p
  | bad e ↦ bad e
  | go_on p ↦ scan step fuel p
]

-- jsmn_alloc_token and jsmn_fill_token, and the `size++` of the caller.
unfoldable pub grow : Option ℕ → List Tok → List Tok
grow none toks = toks
grow (some i) toks = elim (get_elem? toks i) [
  | none ↦ toks
  | some t ↦ set toks i (record t { size = t.size + 1 })
]

unfoldable pub add_token : Tok → Parser → Outcome
unfolding grow
add_token t p =
    if leb max_json_tokens (length p.toks)
    then failed nomem
    else next (record p { toks = grow p.toksuper p.toks ++ t ∷ [] })

-- jsmn_parse_primitive; `pos` is left on the last character.
unfoldable pub parse_primitive : Bytes → ℕ → Parser → Outcome
unfolding scan primitive_step add_token
parse_primitive js len p = elim (scan (primitive_step js len) (suc len) p.pos) [
  | stop_at e ↦
      add_token (record { kind = primitive; start = p.pos; stop = some e; size = 0 })
        (record p { pos = e - 1 })
  | bad e ↦ failed e
  | go_on e ↦ failed part
]

-- jsmn_parse_string; `pos` is left on the closing quote.
unfoldable pub parse_string : Bytes → ℕ → Parser → Outcome
unfolding scan string_step add_token
parse_string js len p = elim (scan (string_step js len) (suc len) (p.pos + 1)) [
  | stop_at e ↦
      add_token (record { kind = string; start = p.pos + 1; stop = some e; size = 0 })
        (record p { pos = e })
  | bad e ↦ failed e
  | go_on e ↦ failed part
]

abbrev pub is_open : Tok → Bool
is_open t = elim t.stop [ none ↦ true | some e ↦ false ]

-- The greatest index, from `i` on, of a token that is not closed yet.
unfoldable pub last_open : ℕ → List Tok → Option ℕ
last_open i [] = none
last_open i (t ∷ ts) = elim (last_open (i + 1) ts) [
  | none ↦ if is_open t then some i else none
  | some j ↦ some j
]

abbrev pub same_kind : TokType → TokType → Bool
same_kind a b = (is_object a && is_object b) || (is_array a && is_array b)

unfoldable pub open_token : TokType → Parser → Outcome
unfolding grow
open_token kind p =
    if leb max_json_tokens (length p.toks)
    then failed nomem
    else next (record p {
      toks =
          grow p.toksuper p.toks
          ++ record { kind = kind; start = p.pos; stop = none; size = 0 } ∷ [];
      toksuper = some (length p.toks);
    })

-- The token at `i` gets its end; the next token that is still open becomes the parent.
unfoldable pub close_at : TokType → Parser → ℕ → Option Tok → Outcome
unfolding last_open
close_at kind p i none = failed inval
close_at kind p i (some t) =
    if not (same_kind t.kind kind)
    then failed inval
    else (let toks = set p.toks i (record t { stop = some (p.pos + 1) }) in
        next (record p { toks = toks; toksuper = last_open 0 toks }))

unfoldable pub close_token : TokType → Parser → Outcome
unfolding close_at last_open
close_token kind p = elim (last_open 0 p.toks) [
  | none ↦ failed inval
  | some i ↦ close_at kind p i (get_elem? p.toks i)
]

abbrev pub holds_members : Option Tok → Bool
holds_members none = true
holds_members (some t) = is_object t.kind || is_array t.kind

-- The case of a comma: the parent is the innermost container that is open, or stays.
unfoldable pub comma : Parser → Parser
unfolding last_open
comma p = elim p.toksuper [
  | none ↦ p
  | some i ↦
      if holds_members (get_elem? p.toks i)
      then p
      else (elim (last_open 0 p.toks) [ none ↦ p | some j ↦ record p { toksuper = some j } ])
]

unfoldable pub colon : Parser → Parser
colon p = record p { toksuper = elim p.toks [ [] ↦ none | t ∷ ts ↦ some (length (t ∷ ts) - 1) ] }

-- One round of the loop of jsmn_parse, without its `pos++`.
unfoldable pub parse_char : Bytes → ℕ → Parser → ℕ → Outcome
unfolding open_token close_token parse_string parse_primitive comma colon
parse_char js len p c =
    if c == b'{'
    then open_token object p
    else if c == b'['
    then open_token array p
    else if c == b'}'
    then close_token object p
    else if c == b']'
    then close_token array p
    else if c == b'"'
    then parse_string js len p
    else if c == b'\t' || c == b'\r' || c == b'\n' || c == b' '
    then next p
    else if c == b':'
    then next (colon p)
    else if c == b','
    then next (comma p)
    else parse_primitive js len p

-- The loop, and the check behind it that every token is closed. Each round moves `pos` on, so
-- the length is fuel enough.
unfoldable pub parse_loop : ℕ → Bytes → ℕ → Parser → Parsed
unfolding parse_char
parse_loop zero js len p = refused part p.toks
parse_loop (suc fuel) js len p = elim (leb len p.pos || byte_at js p.pos == 0) [
  | true ↦ (elim (last_open 0 p.toks) [ none ↦ tokens p.toks | some i ↦ refused part p.toks ])
  | false ↦ (elim (parse_char js len p (byte_at js p.pos)) [
    | next q ↦ parse_loop fuel js len (record q { pos = q.pos + 1 })
    | failed e ↦ refused e p.toks
  ])
]

-- jsmn_init and jsmn_parse.
unfoldable pub jsmn_parse : Bytes → Parsed
unfolding parse_loop
jsmn_parse js =
    parse_loop (suc (length js)) js (length js) (record { pos = 0; toks = []; toksuper = none })

-- ===== src/Json/Body.antt =====
-- json_escape: what it writes is the body of a JSON string, and it fits the buffer.
use sdr_slc_rtld.Base.{Bool, true, false, not, ◌&&◌, [], ◌∷◌, Bytes, leb, ◌==◌, if◌then◌else◌}

-- The body of a JSON string, read from outside an escape (false) or behind a backslash (true): no
-- quote and no control character outside an escape, and no escape that the end cuts.
unfoldable pub is_body : Bool → Bytes → Bool
is_body false [] = true
is_body true [] = false
is_body true (c ∷ cs) = is_body false cs
is_body false (c ∷ cs) =
    let escape = is_body true cs in
    let plain = is_body false cs in
    if c == b'\\' then escape else leb 32 c && not (c == b'"') && plain

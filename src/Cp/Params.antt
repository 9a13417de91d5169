-- ===== src/Cp/Params.antt =====
-- cp/cp_commands.c: the parameter helpers.
use sdr_slc_rtld.Base.{ℕ, Bool, true, false, not, Option, none, some, Bytes, codes}
use sdr_slc_rtld.Json.Tokens.{Msg, tok_find_key, tok_eq}
use sdr_slc_rtld.Cp.World.{missing_parameter, not_supported, invalid_parameter, in_use}
use sdr_slc_rtld.Cp.Access.{owned_by_another}
use sdr_slc_rtld.Cp.Cmd.{Cmd, ◌>>=◌, ◌>>◌, pure, gets, refuse_if, require}

abbrev pub find_params : Msg → Option ℕ
find_params m = tok_find_key m 0 (codes "params")

abbrev pub text_is : Msg → ℕ → Bytes → Bool
text_is m i s = tok_eq m.js (m.toks i) s

-- require_function: the index of params, for function "rx".
unfoldable pub require_function : ℕ → Bytes → Msg → Cmd ℕ
require_function i id m = do
  p ← require (find_params m) i id missing_parameter
  f ← require (tok_find_key m p (codes "function")) i id missing_parameter
  refuse_if (not (text_is m f (codes "rx"))) i id not_supported
  pure p

abbrev pub found : Option ℕ → Bool
found none = false
found (some _) = true

-- channel_ok.
unfoldable pub channel_ok : ℕ → Bytes → Msg → ℕ → Cmd (Unit {0})
channel_ok i id m p = refuse_if (found (tok_find_key m p (codes "channel"))) i id invalid_parameter

-- may_configure.
unfoldable pub may_configure : ℕ → Bytes → Cmd (Unit {0})
may_configure i id = do other ← gets (owned_by_another i); refuse_if other i id in_use

-- The three lines that the configuring commands begin with.
unfoldable pub configuring : ℕ → Bytes → Msg → Cmd ℕ
configuring i id m = do p ← require_function i id m; channel_ok i id m p; may_configure i id; pure p

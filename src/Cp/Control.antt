-- ===== src/Cp/Control.antt =====
-- cp/cp_commands.c: set_control and get_control.
use sdr_slc_rtld.Base.{
  ℕ, Bool, false, not, ◌&&◌, ◌||◌, Option, none, some, List, [], ◌∷◌, Bytes, codes, eq_bytes,
  if◌then◌else◌,
}
use sdr_slc_rtld.Base.Int.{ℤ, pos, negsuc, leb_ℤ}
use sdr_slc_rtld.Libc.{strtol_int}
use sdr_slc_rtld.Json.Tokens.{
  Msg, tok_find_key, tok_str, tok_is_bool, tok_is_true, is_primitive, is_string,
}
use sdr_slc_rtld.Rtl.Bridge.{SamplingMode, normal, direct_i, direct_q, Bridge}
use sdr_slc_rtld.Rtl.Limits.{same_mode}
use sdr_slc_rtld.Rtl.Control.{set_gain, set_agc, set_bias, set_sampling, set_ppm}
use sdr_slc_rtld.Cp.World.{
  World, Env, Value, ControlName, rf_gain, agc, bias_tee, ppm_correction, direct_sampling, tenth_db,
  flag, tenth_volts, integer, mode, missing_parameter, invalid_parameter, not_supported,
  device_error, stream_reconfiguration_required, applied_value, control_value, control_changed,
  capabilities_changed,
}
use sdr_slc_rtld.Cp.Access.{broadcast}
use sdr_slc_rtld.Cp.Cmd.{Cmd, ◌>>=◌, ◌>>◌, gets, modify, refuse_if, require, edit, send_ok}
use sdr_slc_rtld.Cp.Params.{require_function, channel_ok, configuring, text_is}
use sdr_slc_rtld.Cp.Envelope.{load_gain_table, gain_table}
use sdr_slc_rtld.Cp.Config.{on_bridge, context_to_all, mode_side_effects}

-- The chain of `strcmp(name, ...)`.
unfoldable pub control_of : Bytes → Option ControlName
control_of name =
    if eq_bytes name (codes "rf_gain")
    then some rf_gain
    else if eq_bytes name (codes "agc")
    then some agc
    else if eq_bytes name (codes "bias_tee")
    then some bias_tee
    else if eq_bytes name (codes "ppm_correction")
    then some ppm_correction
    else if eq_bytes name (codes "direct_sampling")
    then some direct_sampling
    else none

-- The value token: its index, and its text in a buffer of 64 bytes.
abbrev pub value_text : Msg → ℕ → Bytes
value_text m vi = tok_str m.js (m.toks vi) 64

-- `t[vi].type != JSMN_PRIMITIVE || tok_is_bool(...)`.
abbrev pub not_numeric : Msg → ℕ → Bool
not_numeric m vi = not (is_primitive (m.toks vi).kind) || tok_is_bool m.js (m.toks vi)

-- The reply to a control that was set, and the event to everyone.
unfoldable pub report : ℕ → Bytes → ControlName → Value → Cmd (Unit {0})
report i id c v = do send_ok i id (applied_value c v); modify (broadcast none (control_changed c v))

unfoldable pub any_near : (ℤ → Bool) → List ℤ → Bool
any_near near [] = false
any_near near (g ∷ gs) = near g || any_near near gs

-- rf_gain where the hardware does not manage it.
unfoldable pub apply_rf_gain : Env → ℕ → Bytes → Bytes → Cmd (Unit {0})
unfolding any_near
apply_rf_gain env i id text = do
  modify (load_gain_table env.device)
  gs ← gets gain_table
  refuse_if (not (any_near (env.gain_near text) gs)) i id invalid_parameter
  applied ← on_bridge (set_gain env.device (env.gain_tenths text))
  edit i (λ s. record s { rf_gain_tenth_db = applied })
  send_ok i id (applied_value rf_gain (tenth_db applied))
  modify context_to_all
  modify (broadcast none (control_changed rf_gain (tenth_db applied)))

unfoldable pub set_rf_gain : Env → ℕ → Bytes → Msg → ℕ → Cmd (Unit {0})
unfolding apply_rf_gain
set_rf_gain env i id m vi = do
  refuse_if (not_numeric m vi) i id invalid_parameter
  managed ← gets (λ w. w.bridge.agc_enabled)
  gain ← gets (λ w. w.bridge.gain_tenth_db)
  (if managed
      then send_ok i id (applied_value rf_gain (tenth_db gain))
      else apply_rf_gain env i id (value_text m vi))

abbrev pub just_bridge : (Bridge → Bridge) → Cmd (Unit {0})
just_bridge f = modify (λ w. record w { bridge = f w.bridge })

unfoldable pub set_agc_control : Env → ℕ → Bytes → Msg → ℕ → Cmd (Unit {0})
set_agc_control env i id m vi = do
  refuse_if (not (tok_is_bool m.js (m.toks vi))) i id invalid_parameter
  let en = tok_is_true m.js (m.toks vi)
  just_bridge (set_agc env.device en)
  send_ok i id (applied_value agc (flag en))
  modify context_to_all
  modify (broadcast none (control_changed agc (flag en)))

unfoldable pub set_bias_control : Env → ℕ → Bytes → Msg → ℕ → Cmd (Unit {0})
unfolding report
set_bias_control env i id m vi = do
  refuse_if (not_numeric m vi) i id invalid_parameter
  let off = env.is_volts (value_text m vi) 0
  let on = env.is_volts (value_text m vi) 50
  refuse_if (not off && not on) i id invalid_parameter
  done ← on_bridge (set_bias env.device (not off))
  refuse_if (not done) i id not_supported
  volts ← gets (λ w. w.bridge.bias_tee_tenth_volts)
  report i id bias_tee (tenth_volts volts)

unfoldable pub set_ppm_control : Env → ℕ → Bytes → Msg → ℕ → Cmd (Unit {0})
unfolding report
set_ppm_control env i id m vi = do
  refuse_if (not_numeric m vi) i id invalid_parameter
  let ppm = strtol_int (value_text m vi)
  refuse_if (not (leb_ℤ (negsuc 99) ppm) || not (leb_ℤ ppm (pos 100))) i id invalid_parameter
  just_bridge (set_ppm env.device ppm)
  now ← gets (λ w. w.bridge.ppm_correction)
  report i id ppm_correction (integer now)

unfoldable pub mode_of : Msg → ℕ → Option SamplingMode
mode_of m vi =
    if text_is m vi (codes "off")
    then some normal
    else if text_is m vi (codes "i_branch")
    then some direct_i
    else if text_is m vi (codes "q_branch")
    then some direct_q
    else none

-- direct_sampling where the mode changes.
unfoldable pub change_sampling : Env → ℕ → Bytes → SamplingMode → Cmd (Unit {0})
unfolding report
change_sampling env i id wanted = do
  has ← gets (λ w. (w.table i).has_stream)
  refuse_if has i id stream_reconfiguration_required
  done ← on_bridge (set_sampling env.device wanted)
  refuse_if (not done) i id device_error
  report i id direct_sampling (mode wanted)
  modify (mode_side_effects env.device)
  modify (broadcast none capabilities_changed)

unfoldable pub set_sampling_control : Env → ℕ → Bytes → Msg → ℕ → Cmd (Unit {0})
unfolding mode_of change_sampling
set_sampling_control env i id m vi = do
  refuse_if (not (is_string (m.toks vi).kind)) i id invalid_parameter
  wanted ← require (mode_of m vi) i id invalid_parameter
  current ← gets (λ w. w.bridge.sampling_mode)
  (if same_mode wanted current
      then send_ok i id (applied_value direct_sampling (mode wanted))
      else change_sampling env i id wanted)

unfoldable pub set_named : ControlName → Env → ℕ → Bytes → Msg → ℕ → Cmd (Unit {0})
unfolding set_rf_gain set_agc_control set_bias_control set_ppm_control set_sampling_control
set_named rf_gain = set_rf_gain
set_named agc = set_agc_control
set_named bias_tee = set_bias_control
set_named ppm_correction = set_ppm_control
set_named direct_sampling = set_sampling_control

-- cmd_set_control.
unfoldable pub cmd_set_control : Env → ℕ → Bytes → Msg → Cmd (Unit {0})
unfolding set_named control_of
cmd_set_control env i id m = do
  p ← configuring i id m
  ni ← require (tok_find_key m p (codes "name")) i id missing_parameter
  vi ← require (tok_find_key m p (codes "value")) i id missing_parameter
  c ← require (control_of (tok_str m.js (m.toks ni) 32)) i id not_supported
  set_named c env i id m vi

unfoldable pub read_control : ControlName → World → Value
read_control rf_gain w = tenth_db w.bridge.gain_tenth_db
read_control agc w = flag w.bridge.agc_enabled
read_control bias_tee w = tenth_volts w.bridge.bias_tee_tenth_volts
read_control ppm_correction w = integer w.bridge.ppm_correction
read_control direct_sampling w = mode w.bridge.sampling_mode

-- cmd_get_control.
unfoldable pub cmd_get_control : ℕ → Bytes → Msg → Cmd (Unit {0})
unfolding read_control
cmd_get_control i id m = do
  p ← require_function i id m
  channel_ok i id m p
  ni ← require (tok_find_key m p (codes "name")) i id missing_parameter
  c ← require (control_of (tok_str m.js (m.toks ni) 32)) i id not_supported
  v ← gets (read_control c)
  send_ok i id (control_value c v)

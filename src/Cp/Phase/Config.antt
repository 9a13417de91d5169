-- ===== src/Cp/Phase/Config.antt =====
-- The commands that configure or report leave the rx channel in its phase.
use sdr_slc_rtld.Base.{ℕ, Bool, true, false, none, Bytes, ◌==◌, if◌then◌else◌, arith}
use sdr_slc_rtld.Base.Int.{ℤ}
use sdr_slc_rtld.Json.Tokens.{Msg}
use sdr_slc_rtld.Rtl.Bridge.{SamplingMode, Device, Bridge}
use sdr_slc_rtld.Rtl.Control.{
  set_frequency, set_rate, set_gain, set_agc, set_bias, set_sampling, set_ppm,
}
use sdr_slc_rtld.Vita.Active.{
  active-send_context_all, length-send_context_all, active-update_loop, length-update_loop,
}
use sdr_slc_rtld.Vita.Sessions.{update_payload_format}
use sdr_slc_rtld.Cp.World.{
  World, Env, Event, Input, Value, ControlName, rf_gain, agc, bias_tee, ppm_correction,
  direct_sampling,
}
use sdr_slc_rtld.Cp.Cmd.{modify}
use sdr_slc_rtld.Cp.Params.{require_function, channel_ok, may_configure, configuring}
use sdr_slc_rtld.Cp.Envelope.{cmd_get_capabilities, cmd_ping, load_gain_table}
use sdr_slc_rtld.Cp.Config.{
  cmd_get_status, cmd_get_clock_status, cmd_set_frequency, cmd_set_sample_rate, clamp_frequency,
  clamp_rate, tell_applied, retune, change_rate, out_of_range, rate_fits, context_to_all,
  mode_side_effects,
}
use sdr_slc_rtld.Cp.Control.{
  cmd_set_control, cmd_get_control, set_named, report, apply_rf_gain, change_sampling, just_bridge,
}
use sdr_slc_rtld.Cp.Phase.{Phase, Represents}
use sdr_slc_rtld.Cp.Phase.Keeps.{
  Keeps, KeepsWorld, SameCount, keeps_rules, bridge-Represents, broadcast-Represents,
  Keeps-on_bridge, Keeps-edit,
}

module _ (dev : Device) where
  set_frequency-SameCount : (f : ℕ) (b : Bridge) → SameCount b (set_frequency dev f b).1
  unfolding set_frequency
  set_frequency-SameCount f b = ground arith

  set_rate-SameCount : (r : ℕ) (b : Bridge) → SameCount b (set_rate dev r b).1
  unfolding set_rate
  set_rate-SameCount r b = ground arith

  set_gain-SameCount : (g : ℤ) (b : Bridge) → SameCount b (set_gain dev g b).1
  unfolding set_gain
  set_gain-SameCount g b = ground arith

  set_agc-SameCount : (on : Bool) (b : Bridge) → SameCount b (set_agc dev on b)
  unfolding set_agc
  set_agc-SameCount on b = ground arith

  pub set_bias-SameCount : (on : Bool) (b : Bridge) → SameCount b (set_bias dev on b).1
  unfolding set_bias
  set_bias-SameCount on b = ground arith

  set_sampling-SameCount : (m : SamplingMode) (b : Bridge) → SameCount b (set_sampling dev m b).1
  unfolding set_sampling
  set_sampling-SameCount m b = ground arith

  set_ppm-SameCount : (p : ℤ) (b : Bridge) → SameCount b (set_ppm dev p b)
  unfolding set_ppm
  set_ppm-SameCount p b = ground arith

module _ {p : Phase} where
  Keeps-just_bridge :
      (f : Bridge → Bridge) → ((b : Bridge) → SameCount b (f b)) → Keeps p (just_bridge f)
  unfolding modify
  Keeps-just_bridge f h = record { at = λ w r. bridge-Represents (f w.bridge) (h w.bridge) r }

  require_function-Keeps : (i : ℕ) (id : Bytes) (m : Msg) → Keeps p (require_function i id m)
  unfolding require_function
  require_function-Keeps i id m = search keeps_rules

  channel_ok-Keeps : (i : ℕ) (id : Bytes) (m : Msg) (k : ℕ) → Keeps p (channel_ok i id m k)
  unfolding channel_ok
  channel_ok-Keeps i id m k = search keeps_rules

  may_configure-Keeps : (i : ℕ) (id : Bytes) → Keeps p (may_configure i id)
  unfolding may_configure
  may_configure-Keeps i id = search keeps_rules

  configuring-Keeps : (i : ℕ) (id : Bytes) (m : Msg) → Keeps p (configuring i id m)
  unfolding configuring
  configuring-Keeps i id m =
      search (keeps_rules, require_function-Keeps, channel_ok-Keeps, may_configure-Keeps)

  load_gain_table-Keeps : (dev : Device) → KeepsWorld p (load_gain_table dev)
  unfolding load_gain_table
  load_gain_table-Keeps dev = record {
    at = λ w r. record {
      owner = ground (arith, r.owner);
      stages = λ j. ground (arith, r.stages j);
      count = ground (arith, r.count);
      runs = ground (arith, r.runs);
      slots = ground (arith, r.slots);
      tokens = λ t. ground (arith, r.tokens t);
    };
  }

  context_to_all-Keeps : KeepsWorld p context_to_all
  unfolding context_to_all
  context_to_all-Keeps = record {
    at = λ w r. record {
      owner = r.owner;
      stages = r.stages;
      count = r.count;
      runs = r.runs;
      slots = cc (r.slots, length-send_context_all w.bridge.gain_tenth_db w.vita);
      tokens = λ t. cc (r.tokens t, active-send_context_all w.bridge.gain_tenth_db w.vita t);
    };
  }

  payload_format-Represents :
      (pf : ℕ) (w : World)
      → Represents p w
      → Represents p (record w { vita = update_payload_format pf w.vita })
  unfolding update_payload_format
  payload_format-Represents pf w r = record {
    owner = r.owner;
    stages = r.stages;
    count = r.count;
    runs = r.runs;
    slots = cc (r.slots, length-update_loop pf w.vita.sessions);
    tokens = λ t. cc (r.tokens t, active-update_loop pf w.vita.sessions t);
  }

  if-Represents :
      (b : Bool) {w w' : World}
      → Represents p w
      → Represents p w'
      → Represents p (if b then w else w')
  if-Represents true r r' = r
  if-Represents false r r' = r'

  tell_applied-Represents :
      (n : ℕ) (e : Event) {w : World} → Represents p w → Represents p (tell_applied n e w)
  unfolding tell_applied
  tell_applied-Represents n e r = if-Represents (n == 0) r (broadcast-Represents none e r)

  retune-Represents :
      (dev : Device) (f : ℕ) (w : World) → Represents p w → Represents p (retune dev f w)
  unfolding retune
  retune-Represents dev f w r =
      tell_applied-Represents _ _ (bridge-Represents _ (set_frequency-SameCount dev f w.bridge) r)

  change_rate-Represents :
      (dev : Device) (f : ℕ) (w : World) → Represents p w → Represents p (change_rate dev f w)
  unfolding change_rate
  change_rate-Represents dev f w r =
      tell_applied-Represents _ _ (bridge-Represents _ (set_rate-SameCount dev f w.bridge) r)

  clamp_frequency-Keeps : (dev : Device) → KeepsWorld p (clamp_frequency dev)
  unfolding clamp_frequency
  clamp_frequency-Keeps dev = record {
    at = λ w r. if-Represents (out_of_range w) (retune-Represents dev _ w r) r;
  }

  clamp_rate-Keeps : (dev : Device) → KeepsWorld p (clamp_rate dev)
  unfolding clamp_rate
  clamp_rate-Keeps dev = record {
    at = λ w r. if-Represents (rate_fits w) r (change_rate-Represents dev _ w r);
  }

  mode_side_effects-Keeps : (dev : Device) → KeepsWorld p (mode_side_effects dev)
  unfolding mode_side_effects
  mode_side_effects-Keeps dev = record {
    at = λ w r. context_to_all-Keeps.at _ (
        payload_format-Represents _ _
          ((clamp_rate-Keeps dev).at _ ((clamp_frequency-Keeps dev).at w r)));
  }

ruleset config_rules = (
  keeps_rules, require_function-Keeps, channel_ok-Keeps, may_configure-Keeps, configuring-Keeps,
  Keeps-on_bridge, Keeps-edit, Keeps-just_bridge, set_frequency-SameCount, set_rate-SameCount,
  set_gain-SameCount, set_agc-SameCount, set_bias-SameCount, set_sampling-SameCount,
  set_ppm-SameCount, load_gain_table-Keeps, context_to_all-Keeps, mode_side_effects-Keeps,
)

module _ {p : Phase} where
  pub cmd_set_frequency-Keeps :
      (dev : Device) (i : ℕ) (id : Bytes) (m : Msg) → Keeps p (cmd_set_frequency dev i id m)
  unfolding cmd_set_frequency
  cmd_set_frequency-Keeps dev i id m = search config_rules depth 24

  pub cmd_set_sample_rate-Keeps :
      (dev : Device) (i : ℕ) (id : Bytes) (m : Msg) → Keeps p (cmd_set_sample_rate dev i id m)
  unfolding cmd_set_sample_rate
  cmd_set_sample_rate-Keeps dev i id m = search config_rules depth 24

  report-Keeps : (i : ℕ) (id : Bytes) (c : ControlName) (v : Value) → Keeps p (report i id c v)
  unfolding report
  report-Keeps i id c v = search config_rules

  apply_rf_gain-Keeps : (env : Env) (i : ℕ) (id t : Bytes) → Keeps p (apply_rf_gain env i id t)
  unfolding apply_rf_gain
  apply_rf_gain-Keeps env i id t = search config_rules depth 24

  change_sampling-Keeps :
      (env : Env) (i : ℕ) (id : Bytes) (m : SamplingMode) → Keeps p (change_sampling env i id m)
  unfolding change_sampling
  change_sampling-Keeps env i id m = search (config_rules, report-Keeps) depth 24

  set_named-Keeps :
      (c : ControlName) (env : Env) (i : ℕ) (id : Bytes) (m : Msg) (vi : ℕ)
      → Keeps p (set_named c env i id m vi)
  unfolding set_named
  set_named-Keeps rf_gain env i id m vi = search (config_rules, apply_rf_gain-Keeps) depth 24
  set_named-Keeps agc env i id m vi = search config_rules depth 24
  set_named-Keeps bias_tee env i id m vi = search (config_rules, report-Keeps) depth 24
  set_named-Keeps ppm_correction env i id m vi = search (config_rules, report-Keeps) depth 24
  set_named-Keeps direct_sampling env i id m vi =
      search (config_rules, change_sampling-Keeps) depth 24

  pub cmd_set_control-Keeps :
      (env : Env) (i : ℕ) (id : Bytes) (m : Msg) → Keeps p (cmd_set_control env i id m)
  unfolding cmd_set_control
  cmd_set_control-Keeps env i id m = search (config_rules, set_named-Keeps) depth 24

  pub cmd_get_control-Keeps : (i : ℕ) (id : Bytes) (m : Msg) → Keeps p (cmd_get_control i id m)
  unfolding cmd_get_control
  cmd_get_control-Keeps i id m = search config_rules depth 24

  pub cmd_get_capabilities-Keeps :
      (dev : Device) (i : ℕ) (id : Bytes) → Keeps p (cmd_get_capabilities dev i id)
  unfolding cmd_get_capabilities
  cmd_get_capabilities-Keeps dev i id = search config_rules depth 24

  pub cmd_ping-Keeps : (i : ℕ) (id : Bytes) → Keeps p (cmd_ping i id)
  unfolding cmd_ping
  cmd_ping-Keeps i id = search config_rules

  pub cmd_get_status-Keeps : (inp : Input) (i : ℕ) (id : Bytes) → Keeps p (cmd_get_status inp i id)
  unfolding cmd_get_status
  cmd_get_status-Keeps inp i id = search config_rules

  pub cmd_get_clock_status-Keeps :
      (inp : Input) (i : ℕ) (id : Bytes) → Keeps p (cmd_get_clock_status inp i id)
  unfolding cmd_get_clock_status
  cmd_get_clock_status-Keeps inp i id = search config_rules

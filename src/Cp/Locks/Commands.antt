-- ===== src/Cp/Locks/Commands.antt =====
-- The commands that greet, configure or report leave rx as locked as it was, and the descriptors.
use sdr_slc_rtld.Base.{
  ℕ, ◌≡◌, refl, Bool, true, false, Option, none, some, List, [], ◌∷◌, Bytes, ◌==◌, if◌then◌else◌,
}
use sdr_slc_rtld.Base.Int.{ℤ, pos}
use sdr_slc_rtld.Json.Tokens.{Msg}
use sdr_slc_rtld.Rtl.Bridge.{SamplingMode, Device}
use sdr_slc_rtld.Rtl.Control.{gain_list}
use sdr_slc_rtld.Cp.World.{
  World, Env, Event, Input, Value, ControlName, Session, rf_gain, agc, bias_tee, ppm_correction,
  direct_sampling,
}
use sdr_slc_rtld.Cp.Params.{require_function, channel_ok, may_configure, configuring}
use sdr_slc_rtld.Cp.Envelope.{
  cmd_hello, cmd_get_capabilities, cmd_ping, load_gain_table, nearest, hello_nonce, new_nonce,
}
use sdr_slc_rtld.Cp.Config.{
  cmd_get_status, cmd_get_clock_status, cmd_set_frequency, cmd_set_sample_rate, clamp_frequency,
  clamp_rate, tell_applied, retune, change_rate, out_of_range, rate_fits, context_to_all,
  mode_side_effects,
}
use sdr_slc_rtld.Cp.Control.{
  cmd_set_control, cmd_get_control, set_named, report, apply_rf_gain, change_sampling,
}
use sdr_slc_rtld.Cp.Locks.{
  lock_of, SameLocks, Locks, LocksWorld, locks_rules, Locks-broadcast, LocksWorld-chain,
}

pub require_function-Locks : (i : ℕ) (id : Bytes) (m : Msg) → Locks (require_function i id m)
unfolding require_function
require_function-Locks i id m = search locks_rules depth 12

pub channel_ok-Locks : (i : ℕ) (id : Bytes) (m : Msg) (k : ℕ) → Locks (channel_ok i id m k)
unfolding channel_ok
channel_ok-Locks i id m k = search locks_rules

may_configure-Locks : (i : ℕ) (id : Bytes) → Locks (may_configure i id)
unfolding may_configure
may_configure-Locks i id = search locks_rules

configuring-Locks : (i : ℕ) (id : Bytes) (m : Msg) → Locks (configuring i id m)
unfolding configuring
configuring-Locks i id m =
    search (locks_rules, require_function-Locks, channel_ok-Locks, may_configure-Locks)

if-SameLocks :
    (b : Bool) (u w w' : World) → SameLocks u w → SameLocks u w' → SameLocks u (if b then w else w')
if-SameLocks true u w w' r r' = r
if-SameLocks false u w w' r r' = r'

load_gain_table-Locks : (dev : Device) → LocksWorld (load_gain_table dev)
unfolding load_gain_table
load_gain_table-Locks dev = record { at = λ w j. by_gains w j w.gains (gain_list dev w.bridge) }
  where
    by_gains :
        (w : World) (j : ℕ) (o : Option (List ℤ)) (gs : List ℤ)
        → lock_of (
            (elim o as (λ _. World) [
              | some gs ↦ w
              | none ↦ (elim gs as (λ _. World) [
                | [] ↦ record w { gains = some []; gain_default = pos 200 }
                | g ∷ gs ↦ record w { gains = some (g ∷ gs); gain_default = nearest g gs }
              ])
            ]).table
              j)
          ≡ lock_of (w.table j)
    by_gains w j (some x) gs = refl
    by_gains w j none [] = refl
    by_gains w j none (g ∷ gs) = refl

context_to_all-Locks : LocksWorld context_to_all
unfolding context_to_all
context_to_all-Locks = record { at = λ w j. refl }

tell_applied-SameLocks : (n : ℕ) (e : Event) (w : World) → SameLocks w (tell_applied n e w)
unfolding tell_applied
tell_applied-SameLocks n e w =
    if-SameLocks (n == 0) w w _ (λ j. refl) ((Locks-broadcast none e).at w)

clamp_frequency-Locks : (dev : Device) → LocksWorld (clamp_frequency dev)
unfolding clamp_frequency retune
clamp_frequency-Locks dev = record {
  at = λ w.
      if-SameLocks (out_of_range w) w _ w (tell_applied-SameLocks _ _ (record w { bridge = _ }))
        (λ j. refl);
}

clamp_rate-Locks : (dev : Device) → LocksWorld (clamp_rate dev)
unfolding clamp_rate change_rate
clamp_rate-Locks dev = record {
  at = λ w.
      if-SameLocks (rate_fits w) w w _ (λ j. refl)
        (tell_applied-SameLocks _ _ (record w { bridge = _ }));
}

mode_side_effects-Locks : (dev : Device) → LocksWorld (mode_side_effects dev)
unfolding mode_side_effects context_to_all
mode_side_effects-Locks dev = record {
  at = (LocksWorld-chain _ _ (clamp_frequency-Locks dev) (clamp_rate-Locks dev)).at;
}

hello_nonce-lock_of :
    (locked : Bool) (random : Option Bytes) (s : Session)
    → lock_of (if locked then hello_nonce random s else s) ≡ lock_of s
unfolding hello_nonce new_nonce
hello_nonce-lock_of false random s = refl
hello_nonce-lock_of true none s = refl
hello_nonce-lock_of true (some raw) s = refl

ruleset config_rules = (
  locks_rules, require_function-Locks, channel_ok-Locks, may_configure-Locks, configuring-Locks,
  load_gain_table-Locks, context_to_all-Locks, mode_side_effects-Locks,
)

module _ (i : ℕ) (id : Bytes) where
  pub cmd_hello-Locks : (m : Msg) (inp : Input) → Locks (cmd_hello inp i id m)
  unfolding cmd_hello
  cmd_hello-Locks m inp = search (config_rules, hello_nonce-lock_of) depth 24

  pub cmd_set_frequency-Locks : (m : Msg) (dev : Device) → Locks (cmd_set_frequency dev i id m)
  unfolding cmd_set_frequency
  cmd_set_frequency-Locks m dev = search config_rules depth 24

  pub cmd_set_sample_rate-Locks : (m : Msg) (dev : Device) → Locks (cmd_set_sample_rate dev i id m)
  unfolding cmd_set_sample_rate
  cmd_set_sample_rate-Locks m dev = search config_rules depth 24

  report-Locks : (c : ControlName) (v : Value) → Locks (report i id c v)
  unfolding report
  report-Locks c v = search config_rules

  apply_rf_gain-Locks : (env : Env) (t : Bytes) → Locks (apply_rf_gain env i id t)
  unfolding apply_rf_gain
  apply_rf_gain-Locks env t = search config_rules depth 24

  change_sampling-Locks : (env : Env) (m : SamplingMode) → Locks (change_sampling env i id m)
  unfolding change_sampling
  change_sampling-Locks env m = search (config_rules, report-Locks) depth 24

  set_named-Locks :
      (c : ControlName) (env : Env) (m : Msg) (vi : ℕ) → Locks (set_named c env i id m vi)
  unfolding set_named
  set_named-Locks rf_gain env m vi = search (config_rules, apply_rf_gain-Locks) depth 24
  set_named-Locks agc env m vi = search config_rules depth 24
  set_named-Locks bias_tee env m vi = search (config_rules, report-Locks) depth 24
  set_named-Locks ppm_correction env m vi = search (config_rules, report-Locks) depth 24
  set_named-Locks direct_sampling env m vi = search (config_rules, change_sampling-Locks) depth 24

  pub cmd_set_control-Locks : (m : Msg) (env : Env) → Locks (cmd_set_control env i id m)
  unfolding cmd_set_control
  cmd_set_control-Locks m env = search (config_rules, set_named-Locks) depth 24

  pub cmd_get_control-Locks : (m : Msg) → Locks (cmd_get_control i id m)
  unfolding cmd_get_control
  cmd_get_control-Locks m = search config_rules depth 24

  pub cmd_get_capabilities-Locks : (dev : Device) → Locks (cmd_get_capabilities dev i id)
  unfolding cmd_get_capabilities
  cmd_get_capabilities-Locks dev = search config_rules depth 24

  pub cmd_ping-Locks : Locks (cmd_ping i id)
  unfolding cmd_ping
  cmd_ping-Locks = search config_rules

  pub cmd_get_status-Locks : (inp : Input) → Locks (cmd_get_status inp i id)
  unfolding cmd_get_status
  cmd_get_status-Locks inp = search config_rules

  pub cmd_get_clock_status-Locks : (inp : Input) → Locks (cmd_get_clock_status inp i id)
  unfolding cmd_get_clock_status
  cmd_get_clock_status-Locks inp = search config_rules

-- ===== src/Cp/Config.antt =====
-- cp/cp_commands.c: get_status, get_clock_status, set_frequency, set_sample_rate, and what a
-- change of the sampling mode brings about.
use sdr_slc_rtld.Base.{
  Bool, ℕ, ◌^◌, ◌%◌, not, ◌||◌, Option, none, some, Bytes, codes, ltb, ◌==◌, if◌then◌else◌,
}
use sdr_slc_rtld.Libc.{strtoull, strtoul}
use sdr_slc_rtld.Json.Tokens.{Msg, tok_find_key, tok_str}
use sdr_slc_rtld.Rtl.Bridge.{Device, Bridge}
use sdr_slc_rtld.Rtl.Limits.{
  freq_min, freq_max, rate_list, rate_listed, preferred_rate, reference_level_tenth_dbm,
  payload_fmt,
}
use sdr_slc_rtld.Rtl.Control.{set_frequency, set_rate}
use sdr_slc_rtld.Rtl.Adc.{adc_level}
use sdr_slc_rtld.Vita.Sessions.{update_payload_format, send_context_all}
use sdr_slc_rtld.Cp.World.{
  World, Input, Status, missing_parameter, invalid_parameter, unsupported_frequency, device_error,
  stream_reconfiguration_required, unsupported_sample_rate, status, clock_status, applied_frequency,
  applied_sample_rate, frequency_changed, sample_rate_changed, Event, is_streaming, is_stream_open,
}
use sdr_slc_rtld.Cp.Access.{broadcast, control_state}
use sdr_slc_rtld.Cp.Cmd.{Cmd, ◌>>=◌, ◌>>◌, gets, modify, refuse_if, require, edit, send_ok}
use sdr_slc_rtld.Cp.Params.{configuring}

unfoldable pub on_bridge {ℓ} : {A : Type ℓ} → (Bridge → A × Bridge) → Cmd A
on_bridge f w = let (a, b) = f w.bridge in (some a, record w { bridge = b })

-- cmd_get_status: a reading is passed on if it lies within its range.
unfoldable pub read_status : Input → ℕ → World → Status
read_status inp i w = record {
  is_streaming = is_streaming (w.table i).state;
  control_state = control_state i w;
  frequency_hz = w.bridge.freq_hz;
  sample_rate_sps = w.bridge.rate_requested_sps;
  actual_sample_rate_sps = w.bridge.rate_sps;
  reference_level = reference_level_tenth_dbm w.bridge.gain_tenth_db;
  adc_overload = w.bridge.adc_overload;
  adc_level = adc_level w.bridge;
  gain = w.bridge.gain_tenth_db;
  agc_on = w.bridge.agc_enabled;
  bias_tenth_volts = w.bridge.bias_tee_tenth_volts;
  ppm = w.bridge.ppm_correction;
  sampling_mode = w.bridge.sampling_mode;
  board_temperature = inp.board_temperature;
  supply_voltage = inp.supply_voltage;
}

unfoldable pub cmd_get_status : Input → ℕ → Bytes → Cmd (Unit {0})
unfolding read_status
cmd_get_status inp i id = do s ← gets (read_status inp i); send_ok i id (status s)

-- cmd_get_clock_status.
unfoldable pub cmd_get_clock_status : Input → ℕ → Bytes → Cmd (Unit {0})
cmd_get_clock_status inp i id = send_ok i id (clock_status inp.epoch)

-- `errno == ERANGE || freq < 1`, and the frequency otherwise.
unfoldable pub parse_frequency : Bytes → Option ℕ
parse_frequency s = elim (strtoull s) [ none ↦ none | some f ↦ if ltb f 1 then none else some f ]

-- cmd_set_frequency.
unfoldable pub cmd_set_frequency : Device → ℕ → Bytes → Msg → Cmd (Unit {0})
unfolding on_bridge parse_frequency
cmd_set_frequency dev i id m = do
  p ← configuring i id m
  fi ← require (tok_find_key m p (codes "frequency_hz")) i id missing_parameter
  freq ← require (parse_frequency (tok_str m.js (m.toks fi) 32)) i id invalid_parameter
  mode ← gets (λ w. w.bridge.sampling_mode)
  refuse_if (ltb freq (freq_min mode) || ltb (freq_max mode) freq) i id unsupported_frequency
  applied ← on_bridge (set_frequency dev freq)
  refuse_if (applied == 0) i id device_error
  edit i (λ s. record s { frequency_hz = applied })
  send_ok i id (applied_frequency applied)
  modify (broadcast none (frequency_changed applied))

-- `(uint32_t)strtoul(rstr, NULL, 10)`.
unfoldable pub parse_rate : Bytes → ℕ
parse_rate s = strtoul s % 2 ^ 32

-- cmd_set_sample_rate.
unfoldable pub cmd_set_sample_rate : Device → ℕ → Bytes → Msg → Cmd (Unit {0})
unfolding on_bridge parse_rate
cmd_set_sample_rate dev i id m = do
  p ← configuring i id m
  st ← gets (λ w. (w.table i).state)
  refuse_if (is_streaming st || is_stream_open st) i id stream_reconfiguration_required
  ri ← require (tok_find_key m p (codes "sample_rate_sps")) i id missing_parameter
  let rate = parse_rate (tok_str m.js (m.toks ri) 16)
  mode ← gets (λ w. w.bridge.sampling_mode)
  refuse_if (not (rate_listed rate (rate_list mode))) i id unsupported_sample_rate
  applied ← on_bridge (set_rate dev rate)
  refuse_if (applied == 0) i id device_error
  edit i (λ s. record s { sample_rate_sps = applied })
  send_ok i id (applied_sample_rate rate)
  modify (broadcast none (sample_rate_changed rate applied))

-- `if (applied) { ... cp_broadcast_event(...); }`
unfoldable pub tell_applied : ℕ → Event → World → World
tell_applied applied e w = if applied == 0 then w else broadcast none e w

abbrev pub out_of_range : World → Bool
out_of_range w =
    ltb w.bridge.freq_hz (freq_min w.bridge.sampling_mode)
    || ltb (freq_max w.bridge.sampling_mode) w.bridge.freq_hz

abbrev pub target_frequency : World → ℕ
target_frequency w =
    if ltb w.bridge.freq_hz (freq_min w.bridge.sampling_mode)
    then freq_min w.bridge.sampling_mode
    else freq_max w.bridge.sampling_mode

unfoldable pub retune : Device → ℕ → World → World
unfolding tell_applied
retune dev target w =
    let (applied, b) = set_frequency dev target w.bridge in
    tell_applied applied (frequency_changed applied) (record w { bridge = b })

unfoldable pub change_rate : Device → ℕ → World → World
unfolding tell_applied
change_rate dev want w =
    let (applied, b) = set_rate dev want w.bridge in
    tell_applied applied (sample_rate_changed want applied) (record w { bridge = b })

-- apply_mode_change_side_effects: the frequency.
unfoldable pub clamp_frequency : Device → World → World
unfolding retune
clamp_frequency dev w = if out_of_range w then retune dev (target_frequency w) w else w

abbrev pub rate_fits : World → Bool
rate_fits w = rate_listed w.bridge.rate_requested_sps (rate_list w.bridge.sampling_mode)

-- apply_mode_change_side_effects: the sample rate.
unfoldable pub clamp_rate : Device → World → World
unfolding change_rate
clamp_rate dev w =
    if rate_fits w then w else change_rate dev (preferred_rate w.bridge.sampling_mode) w

unfoldable pub context_to_all : World → World
context_to_all w = record w { vita = send_context_all w.bridge.gain_tenth_db w.vita }

-- apply_mode_change_side_effects.
unfoldable pub mode_side_effects : Device → World → World
unfolding clamp_frequency clamp_rate context_to_all
mode_side_effects dev w =
    let w' = clamp_rate dev (clamp_frequency dev w) in
    context_to_all
      (record w' { vita = update_payload_format (payload_fmt w'.bridge.sampling_mode) w'.vita })

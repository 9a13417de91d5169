-- ===== src/Rtl/Bridge.antt =====
-- rtl/rtl_bridge.c: the bridge's globals, and librtlsdr as the calls made to it.
use sdr_slc_rtld.Base.{ℕ, Bool, false, List, [], ◌∷◌}
use sdr_slc_rtld.Base.Int.{ℤ, pos}

-- `sampling_mode_t` of config.h.
pub data SamplingMode : Type 0 where
  normal direct_i direct_q : SamplingMode

-- A call of librtlsdr, or of pthread_create for the read thread, with its arguments.
pub data DevCall : Type 0 where
  open_device close_device reset_buffer cancel_async start_thread join_thread : DevCall
  set_center_freq set_sample_rate set_direct_sampling : ℕ → DevCall
  get_center_freq get_sample_rate get_tuner_gain get_tuner_gains : DevCall
  set_tuner_gain_mode set_agc_mode set_bias_tee : Bool → DevCall
  set_tuner_gain set_freq_correction : ℤ → DevCall

-- librtlsdr is not code of the repository. What a call returns may depend on every call before
-- it; `status` is an `int` result, `value` a `uint32_t` one, `gains` the table of
-- rtlsdr_get_tuner_gains (empty where that call fails).
pub record Device : Type 0 where
  pub status : List DevCall → DevCall → ℤ
  pub value : List DevCall → DevCall → ℕ
  pub gains : List ℤ

-- The globals of rtl_bridge.c. `calls` is the history of the device, newest call first.
-- Volts are in tenths. `opened` is `s_dev != NULL`.
pub record Bridge : Type 0 where
  pub opened : Bool
  pub calls : List DevCall
  pub freq_hz : ℕ
  pub rate_sps : ℕ
  pub rate_requested_sps : ℕ
  pub gain_tenth_db : ℤ
  pub agc_enabled : Bool
  pub bias_tee_enabled : Bool
  pub bias_tee_tenth_volts : ℕ
  pub bias_tee_persist : Bool
  pub ppm_correction : ℤ
  pub sampling_mode : SamplingMode
  pub running : Bool
  pub stream_count : ℕ
  pub cb_count : ℕ
  pub adc_sumsq : ℕ
  pub adc_n : ℕ
  pub adc_level_valid : Bool
  pub adc_overload : Bool
  pub last_overload_ms : ℕ

-- Make a call whose result is not looked at.
abbrev pub call : DevCall → Bridge → Bridge
call c b = record b { calls = c ∷ b.calls }

-- The static initialisers.
abbrev pub initial_bridge : Bridge
initial_bridge = record {
  opened = false;
  calls = [];
  freq_hz = 7000000;
  rate_sps = 2048000;
  rate_requested_sps = 2048000;
  gain_tenth_db = pos 200;
  agc_enabled = false;
  bias_tee_enabled = false;
  bias_tee_tenth_volts = 0;
  bias_tee_persist = false;
  ppm_correction = pos 0;
  sampling_mode = normal;
  running = false;
  stream_count = 0;
  cb_count = 0;
  adc_sumsq = 0;
  adc_n = 0;
  adc_level_valid = false;
  adc_overload = false;
  last_overload_ms = 0;
}

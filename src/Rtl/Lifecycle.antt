-- ===== src/Rtl/Lifecycle.antt =====
-- rtl/rtl_bridge.c: rtl_bridge_init to rtl_bridge_force_stop.
use sdr_slc_rtld.Base.{ℕ, ◌+◌, ◌-◌, Bool, true, false, not, ◌&&◌, ◌==◌, if◌then◌else◌}
use sdr_slc_rtld.Base.Int.{ℤ, pos, abs, is_negative}
use sdr_slc_rtld.Rtl.Bridge.{
  SamplingMode, normal, direct_i, direct_q, Device, Bridge, call, open_device, close_device,
  reset_buffer, cancel_async, start_thread, join_thread, set_center_freq, set_sample_rate,
  set_direct_sampling, get_center_freq, get_sample_rate, get_tuner_gain, set_tuner_gain_mode,
  set_agc_mode, set_bias_tee, set_tuner_gain, set_freq_correction,
}

abbrev pub ds_mode : SamplingMode → ℕ
ds_mode normal = 0
ds_mode direct_i = 1
ds_mode direct_q = 2

-- An `int` as the bit pattern that rtlsdr_get_tuner_gain returned; gains are small and not negative.
abbrev pub gain_value : ℕ → ℤ
gain_value v = pos v

-- rtl_reset_adc_level.
unfoldable pub reset_adc_level : Bridge → Bridge
reset_adc_level b = record b {
  adc_level_valid = false;
  adc_sumsq = 0;
  adc_n = 0;
  adc_overload = false;
}

module _ (dev : Device) where
  unfoldable pub init_rate : SamplingMode → Bridge → Bridge
  init_rate mode b =
      let default_rate : ℕ = elim mode [ normal ↦ 2048000 | _ ↦ 1024000 ] in
      let b' = call (set_sample_rate default_rate) b in
      record b' {
        rate_requested_sps = default_rate;
        rate_sps = dev.value b'.calls get_sample_rate;
        calls = (call get_sample_rate b').calls;
      }

  unfoldable pub init_freq : Bridge → Bridge
  init_freq b =
      let b' = call (set_center_freq 7000000) b in
      record b' {
        freq_hz = dev.value b'.calls get_center_freq;
        calls = (call get_center_freq b').calls;
      }

  unfoldable pub init_gain : Bool → Bridge → Bridge
  init_gain agc b =
      let b₁ = call (set_tuner_gain_mode (not agc)) b in
      let b₂ = if agc then b₁ else call (set_tuner_gain (pos 200)) b₁ in
      let b₃ = call (set_agc_mode agc) b₂ in
      record b₃ {
        agc_enabled = agc;
        gain_tenth_db = gain_value (dev.value b₃.calls get_tuner_gain);
        calls = (call get_tuner_gain b₃).calls;
      }

  -- `power` is `bias_tee_volts > 0.0`.
  unfoldable pub init_bias_tee : Bool → Bridge → Bridge
  init_bias_tee power b =
      let done = abs (dev.status b.calls (set_bias_tee power)) == 0 in
      record (call (set_bias_tee power) b) {
        bias_tee_enabled = done && power;
        bias_tee_tenth_volts = if done && power then 50 else 0;
      }

  -- rtl_bridge_init; the flag is false where it returns -1.
  unfoldable pub bridge_init : SamplingMode → Bool → Bool → ℤ → Bridge → Bool × Bridge
  unfolding init_rate init_freq init_gain init_bias_tee
  bridge_init mode power agc ppm b =
      if is_negative (dev.status b.calls open_device)
      then (false, call open_device b)
      else (let b₁ = record (call open_device b) { opened = true; sampling_mode = mode } in
          let b₂ = init_freq (init_rate mode (call (set_direct_sampling (ds_mode mode)) b₁)) in
          let b₃ = init_bias_tee power (init_gain agc b₂) in
          let b₄ = record (call (set_freq_correction ppm) b₃) { ppm_correction = ppm } in
          (true, call reset_buffer b₄))

  -- The part of rtl_bridge_start for the first stream.
  unfoldable pub begin_reading : Bridge → Bool × Bridge
  unfolding reset_adc_level
  begin_reading b =
      let b₁ = record (call reset_buffer (reset_adc_level b)) { cb_count = 0; running = true } in
      let b₂ = call start_thread b₁ in
      if abs (dev.status b₁.calls start_thread) == 0
      then (true, b₂)
      else (false, record b₂ { running = false; stream_count = b₂.stream_count - 1 })

  -- rtl_bridge_start; the flag is false where it returns -1.
  unfoldable pub bridge_start : Bridge → Bool × Bridge
  unfolding begin_reading
  bridge_start b =
      let b₁ = record b { stream_count = b.stream_count + 1 } in
      if b₁.stream_count == 1 then begin_reading b₁ else (true, b₁)

unfoldable pub halt : Bridge → Bridge
halt b =
    let b₁ = record b { running = false } in
    call join_thread (if b.opened then call cancel_async b₁ else b₁)

-- rtl_bridge_stop. `-` stops at 0, as the code does by storing 0 over a negative count.
unfoldable pub bridge_stop : Bridge → Bridge
unfolding halt
bridge_stop b =
    let b₁ = record b { stream_count = b.stream_count - 1 } in
    if b₁.stream_count == 0 && b.running then halt b₁ else b₁

-- rtl_bridge_force_stop.
unfoldable pub bridge_force_stop : Bridge → Bridge
unfolding halt
bridge_force_stop b = let b₁ = record b { stream_count = 0 } in if b.running then halt b₁ else b₁

-- rtl_bridge_destroy.
unfoldable pub bridge_destroy : Bridge → Bridge
bridge_destroy b = if b.opened then record (call close_device b) { opened = false } else b

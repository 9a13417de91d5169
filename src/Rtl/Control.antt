-- ===== src/Rtl/Control.antt =====
-- rtl/rtl_bridge.c: the hardware controls.
use sdr_slc_rtld.Base.{ℕ, ◌^◌, ◌%◌, Bool, true, false, not, List, ◌==◌, if◌then◌else◌}
use sdr_slc_rtld.Base.Int.{ℤ, abs}
use sdr_slc_rtld.Rtl.Bridge.{
  SamplingMode, Device, Bridge, call, set_center_freq, set_sample_rate, set_direct_sampling,
  get_center_freq, get_sample_rate, get_tuner_gain, set_tuner_gain_mode, set_agc_mode, set_bias_tee,
  set_tuner_gain, set_freq_correction,
}
use sdr_slc_rtld.Rtl.Lifecycle.{ds_mode, gain_value}

module _ (dev : Device) where
  -- rtl_set_frequency: the frequency applied, 0 for none.
  unfoldable pub set_frequency : ℕ → Bridge → ℕ × Bridge
  set_frequency freq b =
      if not b.opened
      then (0, b)
      else (let b₁ = call (set_center_freq (freq % 2 ^ 32)) b in
          let applied = dev.value b₁.calls get_center_freq in
          let b₂ = call get_center_freq b₁ in
          (applied, if applied == 0 then b₂ else record b₂ { freq_hz = applied }))

  -- rtl_set_sample_rate: the rate achieved, 0 for none.
  unfoldable pub set_rate : ℕ → Bridge → ℕ × Bridge
  set_rate rate b =
      if not b.opened
      then (0, b)
      else (let b₁ = call (set_sample_rate rate) b in
          let applied = dev.value b₁.calls get_sample_rate in
          let b₂ = record (call get_sample_rate b₁) { rate_requested_sps = rate } in
          (applied, if applied == 0 then b₂ else record b₂ { rate_sps = applied }))

  -- rtl_set_gain, with the gain in tenths of a dB as `(int)round(gain_db * 10.0)` makes it.
  -- The result is the gain applied; -1.0 is returned where no device is open.
  unfoldable pub set_gain : ℤ → Bridge → ℤ × Bridge
  set_gain tenth b =
      if not b.opened
      then (ℤ.negsuc 9, b)
      else (let b₁ = call (set_tuner_gain tenth) (call (set_tuner_gain_mode true) b) in
          let applied = gain_value (dev.value b₁.calls get_tuner_gain) in
          (applied, record (call get_tuner_gain b₁) { gain_tenth_db = applied }))

  -- rtl_set_agc; its result is looked at by nobody.
  unfoldable pub set_agc : Bool → Bridge → Bridge
  set_agc enable b =
      if not b.opened
      then b
      else (let b₁ = call (set_agc_mode enable) b in
          let b₂ =
            if enable
            then call (set_tuner_gain_mode false) b₁
            else call (set_tuner_gain b.gain_tenth_db) (call (set_tuner_gain_mode true) b₁) in
          record b₂ { agc_enabled = enable })

  -- rtl_set_bias_tee for `volts > 0.0`; the flag is true where it returns 0.
  unfoldable pub set_bias : Bool → Bridge → Bool × Bridge
  set_bias enable b =
      if not b.opened
      then (false, b)
      else (let done = abs (dev.status b.calls (set_bias_tee enable)) == 0 in
          let b₁ = call (set_bias_tee enable) b in
          (
            done,
            if done
                then record b₁ {
                  bias_tee_enabled = enable;
                  bias_tee_tenth_volts = if enable then 50 else 0;
                }
                else b₁,
          ))

  -- rtl_set_direct_sampling; the flag is true where it returns 0.
  unfoldable pub set_sampling : SamplingMode → Bridge → Bool × Bridge
  set_sampling mode b =
      if not b.opened
      then (false, b)
      else (let done = abs (dev.status b.calls (set_direct_sampling (ds_mode mode))) == 0 in
          let b₁ = call (set_direct_sampling (ds_mode mode)) b in
          (done, if done then record b₁ { sampling_mode = mode } else b₁))

  -- rtl_set_ppm; its result is looked at by nobody.
  unfoldable pub set_ppm : ℤ → Bridge → Bridge
  set_ppm ppm b =
      if not b.opened
      then b
      else (let done = abs (dev.status b.calls (set_freq_correction ppm)) == 0 in
          let b₁ = call (set_freq_correction ppm) b in
          if done then record b₁ { ppm_correction = ppm } else b₁)

  -- rtl_get_gain_list.
  unfoldable pub gain_list : Bridge → List ℤ
  gain_list b = if b.opened then dev.gains else List.[]

-- ===== src/Rtl/Initial.antt =====
-- rtl/rtl_bridge.c: rtl_bridge_init opens the tuner and leaves it without a stream.
use sdr_slc_rtld.Base.{◌≡◌, refl, Bool, true, false, if◌then◌else◌, Bool-cases, inl, inr, arith}
use sdr_slc_rtld.Base.Int.{ℤ, is_negative}
use sdr_slc_rtld.Rtl.Bridge.{Device, Bridge, SamplingMode, open_device}
use sdr_slc_rtld.Rtl.Lifecycle.{bridge_init, init_rate, init_freq, init_gain, init_bias_tee}
use sdr_slc_rtld.Rtl.Control.{set_gain}

-- No stream is counted, and no thread reads.
abbrev pub Still : Bridge → Type 0
Still b = (b.stream_count ≡ 0) × (b.running ≡ false)

pub bridge_init-Still :
    (dev : Device) (mode : SamplingMode) (power agc : Bool) (ppm : ℤ) (b : Bridge)
    → Still b
    → Still (bridge_init dev mode power agc ppm b).1
unfolding bridge_init init_rate init_freq init_gain init_bias_tee
bridge_init-Still dev mode power true ppm b s =
    elim (Bool-cases (is_negative (dev.status b.calls open_device))) [
      | inl e ↦ rw e s
      | inr e ↦ rw e s
    ]
bridge_init-Still dev mode power false ppm b s =
    elim (Bool-cases (is_negative (dev.status b.calls open_device))) [
      | inl e ↦ rw e s
      | inr e ↦ rw e s
    ]

pub bridge_init-closed :
    (dev : Device) (mode : SamplingMode) (power agc : Bool) (ppm : ℤ) (b : Bridge)
    → (bridge_init dev mode power agc ppm b).0 ≡ false
    → (bridge_init dev mode power agc ppm b).1.opened ≡ b.opened
unfolding bridge_init
bridge_init-closed dev mode power agc ppm b h =
    elim (Bool-cases (is_negative (dev.status b.calls open_device))) [
      | inl e ↦ rw e refl
      | inr e ↦ absurd (ground arith)
    ]

pub set_gain-Still : (dev : Device) (g : ℤ) (b : Bridge) → Still b → Still (set_gain dev g b).1
unfolding set_gain
set_gain-Still dev g b s = elim (Bool-cases b.opened) [ inl e ↦ rw e s | inr e ↦ rw e s ]

pub bridge_init-opened :
    (dev : Device) (mode : SamplingMode) (power agc : Bool) (ppm : ℤ) (b : Bridge)
    → (bridge_init dev mode power agc ppm b).0 ≡ true
    → (bridge_init dev mode power agc ppm b).1.opened ≡ true
unfolding bridge_init init_rate init_freq init_gain init_bias_tee
bridge_init-opened dev mode power true ppm b h =
    elim (Bool-cases (is_negative (dev.status b.calls open_device))) [
      | inl e ↦ absurd (ground arith)
      | inr e ↦ rw e refl
    ]
bridge_init-opened dev mode power false ppm b h =
    elim (Bool-cases (is_negative (dev.status b.calls open_device))) [
      | inl e ↦ absurd (ground arith)
      | inr e ↦ rw e refl
    ]

pub if-holds : (P : Bridge → Type 0) (c : Bool) (x y : Bridge) → P x → P y → P (if c then x else y)
if-holds P true x y s t = s
if-holds P false x y s t = t

pub set_gain-opened :
    (dev : Device) (g : ℤ) (b : Bridge) → b.opened ≡ true → (set_gain dev g b).1.opened ≡ true
unfolding set_gain
set_gain-opened dev g b e = rw e refl

-- ===== src/Rtl/Adc.antt =====
-- rtl/rtl_bridge.c: measure_adc_level and the read of the level.
use sdr_slc_rtld.Base.{
  ℕ, zero, suc, ◌+◌, ◌-◌, ◌*◌, ◌/◌, ◌%◌, ◌^◌, Bool, true, false, not, ◌&&◌, ◌||◌, Option, none,
  some, [], ◌∷◌, Bytes, leb, ◌==◌, if◌then◌else◌,
}
use sdr_slc_rtld.Rtl.Bridge.{Bridge}

pub record Level : Type 0 where
  pub sumsq : ℕ
  pub n : ℕ
  pub clipped : ℕ

-- (v - 128)², for a byte.
unfoldable pub square_from_mid : ℕ → ℕ
square_from_mid v = if leb 128 v then (v - 128) * (v - 128) else (128 - v) * (128 - v)

unfoldable pub is_clipped : ℕ → Bool
is_clipped v = leb v 1 || leb 254 v

unfoldable pub add_sample : Level → ℕ → Level
unfolding square_from_mid is_clipped
add_sample l v = record {
  sumsq = l.sumsq + square_from_mid v;
  n = l.n + 1;
  clipped = if is_clipped v then l.clipped + 1 else l.clipped;
}

-- `for (i = 0; i < len; i += 8)`; the number counts down to the next byte that is sampled.
unfoldable pub sample_loop : ℕ → Level → Bytes → Level
unfolding add_sample
sample_loop skip l [] = l
sample_loop zero l (v ∷ vs) = sample_loop 7 (add_sample l v) vs
sample_loop (suc skip) l (v ∷ vs) = sample_loop skip l vs

unfoldable pub clip_ppm : Level → ℕ
clip_ppm l = l.clipped * 1000000 / l.n % 2 ^ 32

-- `now` is now_ms(); the flag says that s_overload_cb is called. `t - last` is a uint64_t.
unfoldable pub measure_adc_level : ℕ → Bytes → Bridge → Bool × Bridge
unfolding sample_loop clip_ppm
measure_adc_level now [] b = (false, b)
measure_adc_level now (v ∷ vs) b =
    let l = sample_loop 0 (record { sumsq = 0; n = 0; clipped = 0 }) (v ∷ vs) in
    let overload = leb 100 (clip_ppm l) in
    let b' = record b {
      adc_sumsq = l.sumsq;
      adc_n = l.n;
      adc_level_valid = true;
      adc_overload = overload;
    } in
    if overload && not b.adc_overload && leb 1000 ((now + 2 ^ 64 - b.last_overload_ms) % 2 ^ 64)
    then (true, record b' { last_overload_ms = now })
    else (false, b')

-- rtl_get_adc_level_dbfs: what the square root and the logarithm are taken of, or nothing.
unfoldable pub adc_level : Bridge → Option (ℕ × ℕ)
adc_level b = if not b.adc_level_valid || b.adc_n == 0 then none else some (b.adc_sumsq, b.adc_n)

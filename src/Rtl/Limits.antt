-- ===== src/Rtl/Limits.antt =====
-- rtl/rtl_bridge.c: the limits that depend on the sampling mode, and the reference level.
use sdr_slc_rtld.Base.{ℕ, ◌≡◌, refl, Bool, true, false, List, [], ◌∷◌, ◌||◌, ◌==◌, arith, ◌≤◌, ◌<◌}
use sdr_slc_rtld.Base.Int.{ℤ, negsuc, ◌-ℤ◌}
use sdr_slc_rtld.Rtl.Bridge.{SamplingMode, normal, direct_i, direct_q}

abbrev pub is_normal : SamplingMode → Bool
is_normal normal = true
is_normal _ = false

abbrev pub same_mode : SamplingMode → SamplingMode → Bool
same_mode normal normal = true
same_mode direct_i direct_i = true
same_mode direct_q direct_q = true
same_mode _ _ = false

unfoldable pub freq_min : SamplingMode → ℕ
freq_min normal = 500000
freq_min _ = 100000

unfoldable pub freq_max : SamplingMode → ℕ
freq_max normal = 1766000000
freq_max _ = 30000000

unfoldable pub rate_list : SamplingMode → List ℕ
rate_list normal = 250000 ∷ 1024000 ∷ 1536000 ∷ 1800000 ∷ 2048000 ∷ 2400000 ∷ []
rate_list _ = 250000 ∷ 512000 ∷ 1024000 ∷ 2048000 ∷ []

unfoldable pub preferred_rate : SamplingMode → ℕ
preferred_rate normal = 2048000
preferred_rate _ = 1024000

-- The search loop `for (i = 0; i < rate_count; i++) if (rates[i] == rate)` of both callers.
unfoldable pub rate_listed : ℕ → List ℕ → Bool
rate_listed rate [] = false
rate_listed rate (r ∷ rs) = r == rate || rate_listed rate rs

-- rtl_reference_level_dbm, in tenths of a dBm: -10.0 minus the gain.
unfoldable pub reference_level_tenth_dbm : ℤ → ℤ
reference_level_tenth_dbm gain = negsuc 99 -ℤ gain

-- sampling_mode_payload_fmt: Payload Format word 0.
unfoldable pub payload_fmt : SamplingMode → ℕ
payload_fmt normal = 0x300001c7
payload_fmt _ = 0x100001c7

pub preferred_rate-listed : (m : SamplingMode) → rate_listed (preferred_rate m) (rate_list m) ≡ true
unfolding preferred_rate rate_listed rate_list
preferred_rate-listed normal = refl
preferred_rate-listed _ = refl

pub rate_list_bounds :
    (m : SamplingMode) (r : ℕ) → rate_listed r (rate_list m) ≡ true → (250000 ≤ r) × (r ≤ 2400000)
unfolding rate_listed rate_list
rate_list_bounds normal r h = ground arith
rate_list_bounds _ r h = ground arith

pub freq_max-lt : (m : SamplingMode) → (freq_min m ≤ freq_max m) × (freq_max m < 2147483648)
unfolding freq_min freq_max
freq_max-lt normal = omega arith
freq_max-lt _ = omega arith

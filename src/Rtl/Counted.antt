-- ===== src/Rtl/Counted.antt =====
-- rtl_bridge_start and rtl_bridge_stop count the streams: the read thread runs while there is one.
use sdr_slc_rtld.Base.{
  ◌≡◌, refl, Bool, true, false, not, ◌⊎◌, inl, inr, ◌==◌, arith, Bool-cases, ◌+◌, ◌-◌, ◌∷◌,
}
use sdr_slc_rtld.Base.Int.{ℤ, abs}
use sdr_slc_rtld.Rtl.Bridge.{Device, Bridge, start_thread, reset_buffer}
use sdr_slc_rtld.Rtl.Lifecycle.{
  begin_reading, bridge_start, bridge_stop, bridge_force_stop, reset_adc_level,
}

-- The outcomes of a start that is the first: the read thread runs and one stream is counted, or
-- none is and it does not.
abbrev pub Started : Bool × Bridge → Type 0
Started r =
    ((r.0 ≡ true) × (r.1.stream_count ≡ 1) × (r.1.running ≡ true))
    ⊎ ((r.0 ≡ false) × (r.1.stream_count ≡ 0) × (r.1.running ≡ false))

begin_reading-Started :
    (dev : Device) (b : Bridge) → b.stream_count ≡ 1 → Started (begin_reading dev b)
unfolding begin_reading reset_adc_level
begin_reading-Started dev b h = by_status (dev.status (reset_buffer ∷ b.calls) start_thread) refl
  where
    by_status :
        (z : ℤ)
        → dev.status (reset_buffer ∷ b.calls) start_thread ≡ z
        → Started (begin_reading dev b)
    by_status z e = elim (Bool-cases (abs z == 0)) [
      | inl g ↦ ground (arith, e, g, h)
      | inr g ↦ ground (arith, e, g, h)
    ]

pub bridge_start-first :
    (dev : Device) (b : Bridge) → b.stream_count ≡ 0 → Started (bridge_start dev b)
unfolding bridge_start
bridge_start-first dev b h = simp h (begin_reading-Started dev (record b { stream_count = 1 }) refl)

-- The last stop.
pub bridge_stop-last :
    (b : Bridge)
    → b.stream_count ≡ 1
    → b.running ≡ true
    → ((bridge_stop b).stream_count ≡ 0) × ((bridge_stop b).running ≡ false)
unfolding bridge_stop
bridge_stop-last b h k = ground arith

bridge_start-more :
    (dev : Device) (b : Bridge)
    → (b.stream_count == 0) ≡ false
    → bridge_start dev b ≡ (true, record b { stream_count = b.stream_count + 1 })
unfolding bridge_start
bridge_start-more dev b h = let e : (b.stream_count + 1 == 1) ≡ false = ground arith in rw e refl

-- The read thread runs exactly while streams are counted.
abbrev pub IsCounted : Bridge → Type 0
IsCounted b = b.running ≡ not (b.stream_count == 0)

-- rtl_bridge_start on a counted bridge: either it answers with success and one stream more is
-- counted, or it answers with the error, no stream is counted, and none was before. The bridge is counted in either case.
pub bridge_start-IsCounted :
    (dev : Device) (b : Bridge)
    → IsCounted b
    → let r = bridge_start dev b in
      IsCounted r.1
      × (((r.0 ≡ true) × (r.1.stream_count ≡ b.stream_count + 1))
          ⊎ ((r.0 ≡ false) × (r.1.stream_count ≡ 0) × (b.stream_count ≡ 0)))
bridge_start-IsCounted dev b h = elim (Bool-cases (b.stream_count == 0)) [
  | inl e ↦
      (let z : b.stream_count ≡ 0 = ground arith in
        elim (bridge_start-first dev b z) [
          | inl (g, n, k) ↦ (simp (k, n) refl, inl (g, omega (arith, n, z)))
          | inr (g, n, k) ↦ (simp (k, n) refl, inr (g, n, z))
        ])
  | inr e ↦ rw (bridge_start-more dev b e) (ground (arith, h, e), inl (refl, refl))
]

-- rtl_bridge_stop on a counted bridge: one stream less is counted, none where none was, and the
-- bridge is counted.
pub bridge_stop-IsCounted :
    (b : Bridge)
    → IsCounted b
    → IsCounted (bridge_stop b) × ((bridge_stop b).stream_count ≡ b.stream_count - 1)
unfolding bridge_stop
bridge_stop-IsCounted b h = ground arith

-- rtl_bridge_force_stop leaves no stream counted and the read thread stopped.
pub bridge_force_stop-IsCounted :
    (b : Bridge)
    → ((bridge_force_stop b).stream_count ≡ 0) × ((bridge_force_stop b).running ≡ false)
unfolding bridge_force_stop
bridge_force_stop-IsCounted b = ground arith

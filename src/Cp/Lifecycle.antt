-- ===== src/Cp/Lifecycle.antt =====
-- cp/cp_session.c: session_create and session_destroy.
use sdr_slc_rtld.Base.{ℕ, zero, suc, ◌+◌, false, not, ◌&&◌, Option, none, some, ◌==◌, if◌then◌else◌}
use sdr_slc_rtld.Rtl.Bridge.{Device}
use sdr_slc_rtld.Rtl.Lifecycle.{bridge_stop, reset_adc_level}
use sdr_slc_rtld.Rtl.Control.{set_bias}
use sdr_slc_rtld.Vita.Sessions.{session_remove}
use sdr_slc_rtld.Cp.World.{
  Session, World, free_slot, stream_state, control_lost, is_streaming, put_session,
}
use sdr_slc_rtld.Cp.Access.{broadcast, rx_release, max_sessions}

-- The first slot from `i` on whose descriptor is 0.
unfoldable pub free_index : ℕ → ℕ → (ℕ → Session) → Option ℕ
free_index zero i table = none
free_index (suc n) i table =
    let rest = free_index n (i + 1) table in if (table i).fd == 0 then some i else rest

-- session_create; no slot is the result NULL.
unfoldable pub session_create : ℕ → ℕ → World → Option ℕ × World
unfolding free_index
session_create fd ip w = elim (free_index max_sessions 0 w.table) [
  | none ↦ (none, w)
  | some i ↦ (
    some i,
    put_session i
        (record free_slot {
          fd = fd;
          client_ip = ip;
          vita_token = none;
          frequency_hz = 7000000;
          sample_rate_sps = 2048000;
          rf_gain_tenth_db = w.bridge.gain_tenth_db;
          tokens = (w.table i).tokens;
        })
        w,
  )
]

-- `if (s->vita_token >= 0) { vita_session_remove(s->vita_token); s->vita_token = -1; }`
unfoldable pub drop_token : ℕ → World → World
drop_token i w = elim (w.table i).vita_token [
  | none ↦ w
  | some t ↦ record (put_session i (record (w.table i) { vita_token = none }) w) {
    vita = session_remove t w.vita;
  }
]

-- The two calls that end a reading of the tuner.
abbrev pub stop_reading : World → World
stop_reading w = record w { bridge = reset_adc_level (bridge_stop w.bridge) }

-- The part of session_destroy for a session that streams.
unfoldable pub stop_lost : ℕ → World → World
stop_lost i w =
    if is_streaming (w.table i).state
    then broadcast (some i) (stream_state (w.table i).stream_id false control_lost) (stop_reading w)
    else w

-- `if (g_bias_tee_enabled && !g_bias_tee_persist) rtl_set_bias_tee(0.0);`
unfoldable pub bias_off : Device → World → World
bias_off dev w =
    if w.bridge.bias_tee_enabled && not w.bridge.bias_tee_persist
    then record w { bridge = (set_bias dev false w.bridge).1 }
    else w

-- session_destroy.
unfoldable pub session_destroy : Device → ℕ → World → World
unfolding drop_token stop_lost bias_off
session_destroy dev i w =
    let w₁ = bias_off dev (rx_release i (stop_lost i (drop_token i w))) in
    put_session i (record free_slot { tokens = (w₁.table i).tokens }) w₁

-- ===== src/Main/Quiet.antt =====
-- main.c: what the first steps of the start leave as it was.
use sdr_slc_rtld.Base.{
  ℕ, ◌≡◌, refl, ap, Bool, true, false, Option, none, some, List, [], Bytes, not, if◌then◌else◌,
  Bool-cases, inl, inr, arith,
}
use sdr_slc_rtld.Auth.Verify.{Key}
use sdr_slc_rtld.Auth.Keyring.{auth_keyring_load}
use sdr_slc_rtld.Rtl.Bridge.{Device, Bridge}
use sdr_slc_rtld.Rtl.Lifecycle.{bridge_init}
use sdr_slc_rtld.Rtl.Initial.{
  Still, if-holds, bridge_init-Still, bridge_init-opened, set_gain-Still, set_gain-opened,
}
use sdr_slc_rtld.Vita.Sessions.{Vita}
use sdr_slc_rtld.Cp.World.{World}
use sdr_slc_rtld.Cp.Phase.{stage, at_rest}
use sdr_slc_rtld.Main.Options.{Settings}
use sdr_slc_rtld.Main.Daemon.{
  Host, Daemon, check_backend, load_keys, apply_gain, open_tuner, announce, initial_daemon,
  with_bridge, with_vita,
}
use sdr_slc_rtld.Main.Run.{Started, stopped, serves, go_on}

apply_gain-opened :
    (dev : Device) (o : Settings) (b : Bridge)
    → b.opened ≡ true
    → (apply_gain dev o b).opened ≡ true
unfolding apply_gain
apply_gain-opened dev o b e =
    if-holds (λ b. b.opened ≡ true) _ _ b (set_gain-opened dev o.gain_tenth b e) e

apply_gain-Still : (dev : Device) (o : Settings) (b : Bridge) → Still b → Still (apply_gain dev o b)
unfolding apply_gain
apply_gain-Still dev o b s = if-holds Still _ _ b (set_gain-Still dev o.gain_tenth b s) s

-- What holds from the static initialisers on.
pub record Quiet (w : World) : Type 0 where
  pub rest : (j : ℕ) → stage (w.table j) ≡ at_rest
  pub owner : w.rx_owner ≡ none
  pub still : Still w.bridge

pub initial-Quiet : Quiet initial_daemon.world
initial-Quiet = record { rest = λ j. refl; owner = refl; still = (refl, refl) }

Quiet-put :
    {w : World} (b : Bridge) (v : Vita)
    → Still b
    → Quiet w
    → Quiet (record w { bridge = b; vita = v })
Quiet-put b v s q = record { rest = q.rest; owner = q.owner; still = s }

-- What open_tuner makes of the result of rtl_bridge_init.
abbrev pub tuner_opened : Host → Settings → Daemon → Bool × Bridge → Bool × Daemon
tuner_opened h o d r = if not r.0 then (false, with_bridge r.1 d) else (
  true,
  with_bridge (record (apply_gain h.device o r.1) { bias_tee_persist = o.bias_persist })
      (with_vita (record d.world.vita { context_enabled = o.ctx_packets }) d),
)

module _ (h : Host) (o : Settings) where
  pub check_backend-world : (d : Daemon) → (check_backend h o d).1.world ≡ d.world
  unfolding check_backend
  check_backend-world d = elim (Bool-cases o.no_mdns) [ inl e ↦ rw e refl | inr e ↦ rw e refl ]

  pub load_keys-Quiet : (d : Daemon) → Quiet d.world → Quiet (load_keys h o d).1.world
  unfolding load_keys
  load_keys-Quiet d q = elim (Bool-cases o.rx_auth) [
    | inl e ↦ rw e (by_keys (auth_keyring_load (h.files o.keys_file)))
    | inr e ↦ rw e (record { rest = q.rest; owner = q.owner; still = q.still })
  ]
    where
      by_keys :
          (keys : Option (List Key))
          → Quiet
              (elim keys as (λ _. Bool × Daemon) [
                | none ↦ (false, record d { world = record d.world { rx_auth = true; keys = [] } })
                | some keys ↦
                    (true, record d { world = record d.world { rx_auth = true; keys = keys } })
              ]).1.world
      by_keys none = record { rest = q.rest; owner = q.owner; still = q.still }
      by_keys (some keys) = record { rest = q.rest; owner = q.owner; still = q.still }

  pub open_tuner-Quiet : (d : Daemon) → Quiet d.world → Quiet (open_tuner h o d).1.world
  unfolding open_tuner
  open_tuner-Quiet d q =
      by_result (bridge_init h.device o.samp_mode o.bias_tee o.agc o.ppm d.world.bridge)
        (bridge_init-Still h.device o.samp_mode o.bias_tee o.agc o.ppm d.world.bridge q.still)
    where
      by_result : (r : Bool × Bridge) → Still r.1 → Quiet (tuner_opened h o d r).1.world
      by_result (true, b) s = Quiet-put _ _ (apply_gain-Still h.device o b s) q
      by_result (false, b) s = Quiet-put _ _ s q

  pub announce-world : (iface : Bytes) (d : Daemon) → (announce h o iface d).1.world ≡ d.world
  unfolding announce
  announce-world iface d = elim (Bool-cases o.no_mdns) [ inl e ↦ rw e refl | inr e ↦ rw e refl ]

  -- The tuner is open where the start of it has succeeded.
  pub open_tuner-opened :
      (d : Daemon) → (open_tuner h o d).0 ≡ true → (open_tuner h o d).1.world.bridge.opened ≡ true
  unfolding open_tuner
  open_tuner-opened d =
      by_result (bridge_init h.device o.samp_mode o.bias_tee o.agc o.ppm d.world.bridge)
        (bridge_init-opened h.device o.samp_mode o.bias_tee o.agc o.ppm d.world.bridge)
    where
      by_result :
          (r : Bool × Bridge)
          → (r.0 ≡ true → r.1.opened ≡ true)
          → (tuner_opened h o d r).0 ≡ true
          → (tuner_opened h o d r).1.world.bridge.opened ≡ true
      by_result (true, b) s e = apply_gain-opened h.device o b (s refl)
      by_result (false, b) s e = absurd (ground arith)

pub go_on-serves :
    (code : ℕ) (r : Bool × Daemon) (next : Daemon → Started) (d : Daemon)
    → go_on code r next ≡ serves d
    → (r.0 ≡ true) × (next r.1 ≡ serves d)
go_on-serves code (true, x) next d e = (refl, e)
go_on-serves code (false, x) next d e = absurd (ground arith)

pub serves-injective : (c d : Daemon) → serves c ≡ serves d → c ≡ d
serves-injective c d e = ap (λ s. elim s as (λ _. Daemon) [ stopped code x ↦ x | serves x ↦ x ]) e

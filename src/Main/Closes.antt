-- ===== src/Main/Closes.antt =====
-- main.c: each way out of the start, and the end, closes what has been opened.
use sdr_slc_rtld.Base.{
  ◌≡◌, refl, ◌∙◌, Bool, true, false, Option, none, some, List, [], Bool-cases, inl, inr, arith,
  if◌then◌else◌,
}
use sdr_slc_rtld.Auth.Verify.{Key}
use sdr_slc_rtld.Auth.Keyring.{auth_keyring_load}
use sdr_slc_rtld.Rtl.Bridge.{Bridge}
use sdr_slc_rtld.Rtl.Lifecycle.{bridge_init, bridge_destroy, bridge_force_stop, halt}
use sdr_slc_rtld.Rtl.Initial.{if-holds, bridge_init-closed, bridge_init-Still}
use sdr_slc_rtld.Mdns.Front.{mdns_stop}
use sdr_slc_rtld.Vita.Sessions.{tx_destroy}
use sdr_slc_rtld.Cp.Server.{Server, cp_server_start}
use sdr_slc_rtld.Cp.World.{World}
use sdr_slc_rtld.Main.Options.{Settings}
use sdr_slc_rtld.Main.Quiet.{Quiet, tuner_opened}
use sdr_slc_rtld.Main.Boot.{port_opened}
use sdr_slc_rtld.Main.Daemon.{Host, Daemon, load_keys, open_tuner, open_sender, open_port}
use sdr_slc_rtld.Main.Run.{shut_down}

-- The tuner is closed, no thread reads it, and the UDP socket is closed.
pub record Released (w : World) : Type 0 where
  pub tuner : w.bridge.opened ≡ false
  pub reader : w.bridge.running ≡ false
  pub sender : w.vita.sock_open ≡ false

bridge_destroy-closes :
    (b : Bridge) → ((bridge_destroy b).opened ≡ false) × ((bridge_destroy b).running ≡ b.running)
unfolding bridge_destroy
bridge_destroy-closes b = elim (Bool-cases b.opened) [
  | inl e ↦ rw e (refl, refl)
  | inr e ↦ rw e (refl, refl)
]

halt-halts : (b : Bridge) → (halt b).running ≡ false
unfolding halt
halt-halts b = if-holds (λ b. b.running ≡ false) b.opened _ _ refl refl

bridge_force_stop-halts : (b : Bridge) → (bridge_force_stop b).running ≡ false
unfolding bridge_force_stop
bridge_force_stop-halts b = elim (Bool-cases b.running) [
  | inl e ↦ rw e (halt-halts (record b { stream_count = 0; running = true }))
  | inr e ↦ rw e refl
]

pub shut_down-Released : (o : Settings) (d : Daemon) → Released (shut_down o d).world
unfolding shut_down tx_destroy
shut_down-Released o d =
    let b = (if o.no_mdns then d else record d { mdns = mdns_stop d.mdns }).world.bridge in
    let (closed, kept) = bridge_destroy-closes (bridge_force_stop b) in
    record { tuner = closed; reader = kept ∙ bridge_force_stop-halts b; sender = refl }

module _ (h : Host) (o : Settings) where
  pub load_keys-Released : (d : Daemon) → Released d.world → Released (load_keys h o d).1.world
  unfolding load_keys
  load_keys-Released d q = elim (Bool-cases o.rx_auth) [
    | inl e ↦ rw e (by_keys (auth_keyring_load (h.files o.keys_file)))
    | inr e ↦ rw e (record { tuner = q.tuner; reader = q.reader; sender = q.sender })
  ]
    where
      by_keys :
          (keys : Option (List Key))
          → Released
              (elim keys as (λ _. Bool × Daemon) [
                | none ↦ (false, record d { world = record d.world { rx_auth = true; keys = [] } })
                | some keys ↦
                    (true, record d { world = record d.world { rx_auth = true; keys = keys } })
              ]).1.world
      by_keys none = record { tuner = q.tuner; reader = q.reader; sender = q.sender }
      by_keys (some keys) = record { tuner = q.tuner; reader = q.reader; sender = q.sender }

  pub open_sender-Released :
      (d : Daemon)
      → d.world.bridge.running ≡ false
      → (open_sender h d).0 ≡ false
      → Released (open_sender h d).1.world
  unfolding open_sender
  open_sender-Released d r e = elim (Bool-cases h.udp_socket) [
    | inl u ↦ absurd (ground arith)
    | inr u ↦ rw u (record {
      tuner = (bridge_destroy-closes d.world.bridge).0;
      reader = (bridge_destroy-closes d.world.bridge).1 ∙ r;
      sender = refl;
    })
  ]

  pub open_port-Released :
      (d : Daemon)
      → d.world.bridge.running ≡ false
      → (open_port h d).0 ≡ false
      → Released (open_port h d).1.world
  unfolding open_port tx_destroy
  open_port-Released d r = by_server (cp_server_start h.port d.server)
    where
      by_server :
          (x : Bool × Server) → (port_opened d x).0 ≡ false → Released (port_opened d x).1.world
      by_server (true, server) e = absurd (ground arith)
      by_server (false, server) e = record {
        tuner = (bridge_destroy-closes d.world.bridge).0;
        reader = (bridge_destroy-closes d.world.bridge).1 ∙ r;
        sender = refl;
      }

  pub open_tuner-Released :
      (d : Daemon)
      → Quiet d.world
      → Released d.world
      → (open_tuner h o d).0 ≡ false
      → Released (open_tuner h o d).1.world
  unfolding open_tuner
  open_tuner-Released d quiet q e =
      let b = d.world.bridge in
      by_result (bridge_init h.device o.samp_mode o.bias_tee o.agc o.ppm b)
        (λ e. bridge_init-closed h.device o.samp_mode o.bias_tee o.agc o.ppm b e ∙ q.tuner)
        (bridge_init-Still h.device o.samp_mode o.bias_tee o.agc o.ppm b quiet.still).1 e
    where
      by_result :
          (r : Bool × Bridge)
          → (r.0 ≡ false → r.1.opened ≡ false)
          → r.1.running ≡ false
          → (tuner_opened h o d r).0 ≡ false
          → Released (tuner_opened h o d r).1.world
      by_result (true, b) c r e = absurd (ground arith)
      by_result (false, b) c r e = record { tuner = c refl; reader = r; sender = q.sender }

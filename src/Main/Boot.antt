-- ===== src/Main/Boot.antt =====
-- main.c: what the daemon is like when it begins to serve.
use sdr_slc_rtld.Base.{
  ℕ, zero, suc, ◌≡◌, refl, sym, subst, Bool, true, false, [], ◌∷◌, Bytes, get_or, if◌then◌else◌,
  Bool-cases, inl, inr, arith,
}
use sdr_slc_rtld.Rtl.Lifecycle.{bridge_destroy}
use sdr_slc_rtld.Vita.Sessions.{tx_init, tx_destroy, cleared}
use sdr_slc_rtld.Cp.Server.{Server, PortHost, cp_server_start}
use sdr_slc_rtld.Cp.Phase.Reach.{Boots}
use sdr_slc_rtld.Main.Options.{Settings}
use sdr_slc_rtld.Main.Name.{choose_names}
use sdr_slc_rtld.Main.Quiet.{
  Quiet, check_backend-world, load_keys-Quiet, initial-Quiet, open_tuner-Quiet, open_tuner-opened,
  go_on-serves, serves-injective,
}
use sdr_slc_rtld.Main.Daemon.{
  Host, Daemon, check_backend, load_keys, open_tuner, open_sender, open_port, announce,
  initial_daemon, with_bridge, with_vita,
}
use sdr_slc_rtld.Main.Run.{serves, start_up, serve_from}

cleared-inactive :
    (t : ℕ) → (get_or (cleared ∷ cleared ∷ cleared ∷ cleared ∷ []) t cleared).active ≡ false
cleared-inactive zero = refl
cleared-inactive (suc zero) = refl
cleared-inactive (suc (suc zero)) = refl
cleared-inactive (suc (suc (suc zero))) = refl
cleared-inactive (suc (suc (suc (suc t)))) = refl

-- What is open while the daemon serves, and where the relation of steps begins.
pub record Serving (d : Daemon) : Type 0 where
  pub boots : Boots d.world
  pub tuner : d.world.bridge.opened ≡ true
  pub sender : d.world.vita.sock_open ≡ true
  pub listens : d.server.listen_open ≡ true
  pub accepts : d.server.running ≡ true

cp_server_start-opens :
    (h : PortHost) (s : Server)
    → (cp_server_start h s).0 ≡ true
    → ((cp_server_start h s).1.listen_open ≡ true) × ((cp_server_start h s).1.running ≡ true)
unfolding cp_server_start
cp_server_start-opens h s e = ground arith

-- What open_port makes of the result of cp_server_start.
abbrev pub port_opened : Daemon → Bool × Server → Bool × Daemon
port_opened d r = if r.0 then (true, record d { server = r.1 }) else (
  false,
  with_bridge (bridge_destroy d.world.bridge)
      (with_vita (tx_destroy d.world.vita) (record d { server = r.1 })),
)

module _ (h : Host) (o : Settings) where
  open_port-Serving :
      (d : Daemon)
      → Boots d.world
      → d.world.bridge.opened ≡ true
      → d.world.vita.sock_open ≡ true
      → (open_port h d).0 ≡ true
      → Serving (open_port h d).1
  unfolding open_port cp_server_start
  open_port-Serving d b t s e =
      by_server (cp_server_start h.port d.server) (cp_server_start-opens h.port d.server) e
    where
      by_server :
          (r : Bool × Server)
          → (r.0 ≡ true → (r.1.listen_open ≡ true) × (r.1.running ≡ true))
          → (port_opened d r).0 ≡ true
          → Serving (port_opened d r).1
      by_server (true, server) opens e = record {
        boots = b;
        tuner = t;
        sender = s;
        listens = (opens refl).0;
        accepts = (opens refl).1;
      }
      by_server (false, server) opens e = absurd (ground arith)

  announce-Serving : (iface : Bytes) (d : Daemon) → Serving d → Serving (announce h o iface d).1
  unfolding announce
  announce-Serving iface d s = elim (Bool-cases o.no_mdns) [
    | inl e ↦ rw e s
    | inr e ↦ rw e (record {
      boots = s.boots;
      tuner = s.tuner;
      sender = s.sender;
      listens = s.listens;
      accepts = s.accepts;
    })
  ]

  pub open_sender-Boots :
      (d : Daemon) → Quiet d.world → (open_sender h d).0 ≡ true → Boots (open_sender h d).1.world
  unfolding open_sender tx_init
  open_sender-Boots d q e = elim (Bool-cases h.udp_socket) [
    | inl u ↦ rw u (record {
      table = q.rest;
      owner = q.owner;
      count = q.still.0;
      runs = q.still.1;
      slots = refl;
      inactive = cleared-inactive;
    })
    | inr u ↦ absurd (ground arith)
  ]

  open_sender-opened :
      (d : Daemon)
      → d.world.bridge.opened ≡ true
      → (open_sender h d).0 ≡ true
      → ((open_sender h d).1.world.bridge.opened ≡ true)
        × ((open_sender h d).1.world.vita.sock_open ≡ true)
  unfolding open_sender tx_init
  open_sender-opened d t e = elim (Bool-cases h.udp_socket) [
    | inl u ↦ rw u (t, refl)
    | inr u ↦ absurd (ground arith)
  ]

  -- From the tuner on.
  serve_from-Serving :
      (iface : Bytes) (d₂ d : Daemon)
      → Quiet d₂.world
      → serve_from h o iface d₂ ≡ serves d
      → Serving d
  unfolding serve_from
  serve_from-Serving iface d₂ d q e =
      let (t, e₃) = go_on-serves 1 (open_tuner h o d₂) _ d e in
      let d₃ = (open_tuner h o d₂).1 in
      let (v, e₄) = go_on-serves 1 (open_sender h d₃) _ d e₃ in
      let d₄ = (open_sender h d₃).1 in
      let (p, e₅) = go_on-serves 1 (open_port h d₄) _ d e₄ in
      let d₅ = (open_port h d₄).1 in
      let (_, e₆) = go_on-serves 1 (announce h o iface d₅) serves d e₅ in
      let (tuner, sender) = open_sender-opened d₃ (open_tuner-opened h o d₂ t) v in
      let boots = open_sender-Boots d₃ (open_tuner-Quiet h o d₂ q) v in
      subst Serving (serves-injective _ d e₆)
        (announce-Serving iface d₅ (open_port-Serving d₄ boots tuner sender p))

  -- The daemon serves only with the tuner open, the UDP socket open and the control port accepting,
  -- and in a state that the relation of steps begins with: the channel is free, no stream is
  -- counted, no thread reads, and no VITA session is active.
  pub start_up-Serving : (d : Daemon) → start_up h o initial_daemon ≡ serves d → Serving d
  unfolding start_up
  start_up-Serving d e =
      let (_, e₁) = go_on-serves 2 (check_backend h o initial_daemon) _ d e in
      let d₁ = (check_backend h o initial_daemon).1 in
      let (_, e₂) = go_on-serves 1 (load_keys h o d₁) _ d e₁ in
      let d₂ = (load_keys h o d₁).1 in
      let names = choose_names h.system o.iface o.name_arg in
      let q =
        load_keys-Quiet h o d₁
          (subst Quiet (sym (check_backend-world h o initial_daemon)) initial-Quiet) in
      serve_from-Serving names.mdns_iface (record d₂ { device_name = names.device_name }) d
        (record { rest = q.rest; owner = q.owner; still = q.still }) e₂

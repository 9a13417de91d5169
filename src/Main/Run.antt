-- ===== src/Main/Run.antt =====
-- main.c: the start in the order of main, the end, and main.
use sdr_slc_rtld.Base.{ℕ, Bool, true, false, List, [], ◌∷◌, Bytes, codes, eq_bytes, if◌then◌else◌}
use sdr_slc_rtld.Auth.Keygen.{Outcome, auth_keygen_main}
use sdr_slc_rtld.Rtl.Lifecycle.{bridge_force_stop, bridge_destroy}
use sdr_slc_rtld.Vita.Sessions.{tx_destroy}
use sdr_slc_rtld.Cp.Server.{cp_server_stop}
use sdr_slc_rtld.Mdns.Front.{mdns_stop}
use sdr_slc_rtld.Main.Options.{Settings, exits, runs, read_options, defaults, default_keys_file}
use sdr_slc_rtld.Main.Name.{choose_names}
use sdr_slc_rtld.Main.Daemon.{
  Daemon, Host, initial_daemon, with_bridge, with_vita, check_backend, load_keys, open_tuner,
  open_sender, open_port, announce,
}

-- How the start comes out: an exit code, or the daemon that serves.
pub data Started : Type 0 where
  stopped : ℕ → Daemon → Started
  serves : Daemon → Started

-- A step, and the exit code where it fails.
abbrev pub go_on : ℕ → Bool × Daemon → (Daemon → Started) → Started
go_on code (true, d) next = next d
go_on code (false, d) next = stopped code d

-- main from the tuner to "ready".
unfoldable pub serve_from : Host → Settings → Bytes → Daemon → Started
unfolding open_tuner open_sender open_port announce
serve_from h o iface d = go_on 1 (open_tuner h o d) (λ d.
    go_on 1 (open_sender h d)
      (λ d. go_on 1 (open_port h d) (λ d. go_on 1 (announce h o iface d) serves)))

-- main from the end of the options to "ready".
unfoldable pub start_up : Host → Settings → Daemon → Started
unfolding check_backend load_keys choose_names serve_from
start_up h o d = go_on 2 (check_backend h o d) (λ d. go_on 1 (load_keys h o d) (λ d.
    let names = choose_names h.system o.iface o.name_arg in
    serve_from h o names.mdns_iface (record d { device_name = names.device_name })))

-- main from the signal on.
unfoldable pub shut_down : Settings → Daemon → Daemon
unfolding mdns_stop cp_server_stop bridge_force_stop tx_destroy bridge_destroy
shut_down o d =
    let d₁ = if o.no_mdns then d else record d { mdns = mdns_stop d.mdns } in
    let d₂ : Daemon = record d₁ { server = cp_server_stop d₁.server } in
    let d₃ = with_bridge (bridge_force_stop d₂.world.bridge) d₂ in
    let d₄ = with_vita (tx_destroy d₃.world.vita) d₃ in
    with_bridge (bridge_destroy d₄.world.bridge) d₄

-- The daemon with its settings; `served` is what happens between the start and the signal.
unfoldable pub run_daemon : Host → Settings → (Daemon → Daemon) → ℕ × Daemon
unfolding start_up shut_down
run_daemon h o served = elim (start_up h o initial_daemon) [
  | stopped code d ↦ (code, d)
  | serves d ↦ (0, shut_down o (served d))
]

-- How main ends: as keygen, or as the daemon.
pub data Ending : Type 0 where
  as_keygen : Bytes × Outcome → Ending
  as_daemon : ℕ × Daemon → Ending

-- The part of main for a command line without keygen.
unfoldable pub daemon_main : Host → List Bytes → (Daemon → Daemon) → ℕ × Daemon
unfolding read_options run_daemon
daemon_main h argv served =
    let (choices, rest) = h.getopt argv in
    elim (read_options h.floats choices rest defaults) [
      | exits code ↦ (code, initial_daemon)
      | runs o ↦ run_daemon h o served
    ]

-- main, with the arguments behind the program's name.
unfoldable pub main : Host → List Bytes → (Daemon → Daemon) → Ending
unfolding auth_keygen_main daemon_main
main h [] served = as_daemon (daemon_main h [] served)
main h (a ∷ rest) served =
    if eq_bytes a (codes "keygen")
    then as_keygen (auth_keygen_main h.keygen rest default_keys_file)
    else as_daemon (daemon_main h (a ∷ rest) served)

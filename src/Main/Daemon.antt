-- ===== src/Main/Daemon.antt =====
-- main.c: the globals of the program and the steps of its start.
use sdr_slc_rtld.Base.{
  Bool, true, false, not, ◌&&◌, none, some, List, [], Bytes, codes, ◌==◌, if◌then◌else◌,
}
use sdr_slc_rtld.Base.Int.{ℤ, pos, negsuc}
use sdr_slc_rtld.Auth.Keyring.{KeyFile, auth_keyring_load}
use sdr_slc_rtld.Auth.Keygen.{Outcome, auth_keygen_main}
use sdr_slc_rtld.Auth.Keygen
use sdr_slc_rtld.Rtl.Bridge.{Device, Bridge, initial_bridge}
use sdr_slc_rtld.Rtl.Limits.{freq_min, freq_max}
use sdr_slc_rtld.Rtl.Lifecycle.{bridge_init, bridge_destroy}
use sdr_slc_rtld.Rtl.Control.{set_gain}
use sdr_slc_rtld.Vita.Sessions.{Vita, tx_init, tx_destroy}
use sdr_slc_rtld.Cp.World.{World, free_slot}
use sdr_slc_rtld.Cp.Server.{Server, PortHost, cp_server_start}
use sdr_slc_rtld.Mdns.Avahi.{AvahiHost, initial_backend}
use sdr_slc_rtld.Mdns.Start.{Txt, Network, initial_responder}
use sdr_slc_rtld.Mdns.Front.{Front, mdns_set_backend, mdns_start}
use sdr_slc_rtld.Main.Options.{Choice, Floats, Settings}
use sdr_slc_rtld.Main.Name.{System}

-- The globals of the program.
pub record Daemon : Type 0 where
  pub world : World
  pub server : Server
  pub mdns : Front
  pub device_name : Bytes

-- What the program finds: getopt_long with `optind < argc` at its end, atof, SLC_MDNS_AVAHI, the
-- key files, the interfaces, librtlsdr, whether the UDP socket opens, the calls for the control
-- port, the responder and Avahi, and what keygen finds.
pub record Host : Type 0 where
  pub getopt : List Bytes → List Choice × Bool
  pub floats : Floats
  pub avahi_compiled : Bool
  pub files : Bytes → KeyFile
  pub system : System
  pub device : Device
  pub udp_socket : Bool
  pub port : PortHost
  pub network : Network
  pub avahi : AvahiHost
  pub keygen : sdr_slc_rtld.Auth.Keygen.Host

-- The static initialisers.
abbrev pub initial_world : World
initial_world = record {
  table = λ _. free_slot;
  rx_owner = none;
  stream_counter = 0;
  rx_auth = false;
  keys = [];
  gains = none;
  gain_default = pos 0;
  bridge = initial_bridge;
  vita = record { sock_open = false; context_enabled = true; sessions = []; sent = [] };
  out = [];
}

abbrev pub initial_daemon : Daemon
initial_daemon = record {
  world = initial_world;
  server = record { listen_open = false; running = false };
  mdns = record {
    avahi = false;
    iface = [];
    responder = initial_responder;
    backend = initial_backend;
  };
  device_name = codes "RTL-SDR via SLC-RTLd";
}

abbrev pub with_bridge : Bridge → Daemon → Daemon
with_bridge b d = record d { world = record d.world { bridge = b } }

abbrev pub with_vita : Vita → Daemon → Daemon
with_vita v d = record d { world = record d.world { vita = v } }

-- A step of the start: whether it succeeds, and the daemon behind it.
abbrev pub Step : Type 0
Step = Daemon → Bool × Daemon

-- The test of --mdns.
unfoldable pub check_backend : Host → Settings → Step
unfolding mdns_set_backend
check_backend h o d =
    if o.no_mdns
    then (true, d)
    else (let (known, front) = mdns_set_backend h.avahi_compiled o.mdns_backend none d.mdns in
        (known, record d { mdns = front }))

-- The keys.
unfoldable pub load_keys : Host → Settings → Step
unfolding auth_keyring_load
load_keys h o d =
    if not o.rx_auth
    then (true, record d { world = record d.world { rx_auth = false; keys = [] } })
    else (elim (auth_keyring_load (h.files o.keys_file)) [
      | none ↦ (false, record d { world = record d.world { rx_auth = true; keys = [] } })
      | some keys ↦ (true, record d { world = record d.world { rx_auth = true; keys = keys } })
    ])

abbrev is_default_gain : ℤ → Bool
is_default_gain (pos n) = n == 200
is_default_gain (negsuc n) = false

-- --gain.
unfoldable pub apply_gain : Device → Settings → Bridge → Bridge
unfolding set_gain
apply_gain dev o b =
    if not o.agc && not (is_default_gain o.gain_tenth) then (set_gain dev o.gain_tenth b).1 else b

-- The tuner, up to the handler of adc_overload.
unfoldable pub open_tuner : Host → Settings → Step
unfolding bridge_init apply_gain
open_tuner h o d =
    let (done, b) = bridge_init h.device o.samp_mode o.bias_tee o.agc o.ppm d.world.bridge in
    if not done then (false, with_bridge b d) else (
      true,
      with_bridge (record (apply_gain h.device o b) { bias_tee_persist = o.bias_persist })
          (with_vita (record d.world.vita { context_enabled = o.ctx_packets }) d),
    )

-- vita_tx_init, and what main does where it fails.
unfoldable pub open_sender : Host → Step
unfolding tx_init bridge_destroy
open_sender h d = if h.udp_socket then (true, with_vita (tx_init d.world.vita) d) else (
  false,
  with_bridge (bridge_destroy d.world.bridge)
      (with_vita (record (tx_init d.world.vita) { sock_open = false }) d),
)

-- cp_server_start, and what main does where it fails.
unfoldable pub open_port : Host → Step
unfolding cp_server_start tx_destroy bridge_destroy
open_port h d =
    let (done, server) = cp_server_start h.port d.server in
    let d' : Daemon = record d { server = server } in
    if done then (true, d') else (
      false,
      with_bridge (bridge_destroy d.world.bridge) (with_vita (tx_destroy d.world.vita) d'),
    )

-- The publication, which may fail.
unfoldable pub announce : Host → Settings → Bytes → Step
unfolding mdns_set_backend mdns_start freq_min freq_max
announce h o iface d =
    if o.no_mdns
    then (true, d)
    else (let mode = d.world.bridge.sampling_mode in
        let front = (mdns_set_backend h.avahi_compiled o.mdns_backend (some iface) d.mdns).1 in
        let txt : Txt = record {
          name = d.device_name;
          proto = codes "sdr-slc";
          proto_ver = codes "1.0";
          functions = codes "rx";
          hw = codes "RTL-SDR-v4";
          fw = codes "sdr-slc-rtld/1.0";
          minhz = freq_min mode;
          maxhz = freq_max mode;
        } in
        (
          true,
          record d { mdns = (mdns_start h.avahi h.network d.device_name o.cp_port txt front).1 },
        ))

-- ===== src/Main/Witnesses.antt =====
-- The theorems on the start and the end of the daemon, on a machine with a dongle.
use sdr_slc_rtld.Base.{◌≡◌, refl, true, false, none, some, [], ◌∷◌, codes, replicate, eq_bytes}
use sdr_slc_rtld.Base.Int.{pos}
use sdr_slc_rtld.Auth.Keyring.{contents}
use sdr_slc_rtld.Cp.Lifecycle.{session_create}
use sdr_slc_rtld.Rtl.Bridge.{Device}
use sdr_slc_rtld.Main.Options.{Settings, defaults, rx_auth_method}
use sdr_slc_rtld.Main.Daemon.{Daemon, Host, initial_daemon}
use sdr_slc_rtld.Main.Run.{stopped, serves, start_up}
use sdr_slc_rtld.Main.Boot.{Serving, start_up-Serving}
use sdr_slc_rtld.Main.Closes.{Released}

-- A dongle that does what it is told.
abbrev dongle : Device
dongle = record { status = λ past c. pos 0; value = λ past c. 2048000; gains = pos 0 ∷ [] }

abbrev machine : Host
machine = record {
  getopt = λ argv. (rx_auth_method (codes "psk") ∷ [], false);
  floats = record { tenths = λ s. pos 200; near_midpoint = λ s. true };
  avahi_compiled = false;
  files = λ path. contents (codes "default secret\n");
  system = record {
    scanned = λ path. some (184 ∷ 39 ∷ 235 ∷ 1 ∷ 2 ∷ 3 ∷ []);
    entries = none;
    pid = 7;
  };
  device = dongle;
  udp_socket = true;
  port = record { socket = true; bound = true; listens = true; thread = true };
  network = record { interfaces = none; socket = true; bound = true; thread = true };
  avahi = record { new_poll = false; calls_back = none; new_client = false; poll_starts = false };
  keygen = record {
    files = λ path. contents (codes "default secret\n");
    random = some (replicate 32 7);
    made_parent = true;
    opened = true;
    written = 73;
  };
}

abbrev locked : Settings
locked = record defaults { rx_auth = true }

abbrev booted : Daemon
booted = elim (start_up machine locked initial_daemon) [ stopped code d ↦ d | serves d ↦ d ]

booted-serves : start_up machine locked initial_daemon ≡ serves booted
unfolding start_up eq_bytes
booted-serves = refl

start_up-Serving_example : Serving booted
start_up-Serving_example = start_up-Serving machine locked booted booted-serves

-- While it serves, a client connects.
abbrev meets_client : Daemon → Daemon
meets_client d = record d { world = (session_create 5 3232235783 d.world).1 }

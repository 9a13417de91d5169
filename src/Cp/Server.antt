-- ===== src/Cp/Server.antt =====
-- cp/cp_server.c: the control port.
use sdr_slc_rtld.Base.{ℕ, Bool, true, false, not, ◌&&◌, Option, none, some, if◌then◌else◌}
use sdr_slc_rtld.Rtl.Bridge.{Device}
use sdr_slc_rtld.Cp.World.{World}
use sdr_slc_rtld.Cp.Lifecycle.{session_create, session_destroy}

-- The globals: whether s_listen_fd is open, and s_running.
pub record Server : Type 0 where
  pub listen_open : Bool
  pub running : Bool

-- What socket, bind, listen and pthread_create come to.
pub record PortHost : Type 0 where
  pub socket : Bool
  pub bound : Bool
  pub listens : Bool
  pub thread : Bool

-- cp_server_start; the flag is false where it returns -1. The descriptor stays open where bind,
-- listen or pthread_create fails.
unfoldable pub cp_server_start : PortHost → Server → Bool × Server
cp_server_start h s =
    if not h.socket
    then (false, record s { listen_open = false })
    else if not (h.bound && h.listens)
    then (false, record s { listen_open = true })
    else (h.thread, record s { listen_open = true; running = h.thread })

-- cp_server_stop.
unfoldable pub cp_server_stop : Server → Server
cp_server_stop s = record s { running = false; listen_open = false }

-- A connection that accept_thread has accepted: the slot whose thread begins, if one does. `thread`
-- is whether pthread_create succeeds. Where no slot is free, the descriptor is closed.
unfoldable pub accept_connection : Device → Bool → ℕ → ℕ → World → Option ℕ × World
unfolding session_create session_destroy
accept_connection dev thread fd ip w =
    let (slot, w') = session_create fd ip w in
    elim slot [
      | none ↦ (none, w')
      | some i ↦ if thread then (some i, w') else (none, session_destroy dev i w')
    ]

-- ===== src/Cp/Phase/Accepts.antt =====
-- cp/cp_server.c: what accept_thread does with a connection, as steps of the daemon.
use sdr_slc_rtld.Base.{ℕ, Option, none, some}
use sdr_slc_rtld.Cp.World.{World}
use sdr_slc_rtld.Cp.Phase.Access.{IsLive}

-- The session that session_create has found a slot for is live.
abbrev MadeLive : Option ℕ × World → Type 0
MadeLive (none, w) = Unit
MadeLive (some i, w) = IsLive i w

-- ===== src/Main/Released.antt =====
-- main.c: what the daemon leaves when it ends.
use sdr_slc_rtld.Main.Quiet.{Quiet}
use sdr_slc_rtld.Main.Daemon.{Daemon}
use sdr_slc_rtld.Main.Run.{Started, stopped, serves}
use sdr_slc_rtld.Main.Closes.{Released}

-- Of a start that stops, what it has opened is closed.
abbrev pub StopsReleased : Started → Type 0
StopsReleased (stopped code d) = Released d.world
StopsReleased (serves d) = Unit

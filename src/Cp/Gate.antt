-- ===== src/Cp/Gate.antt =====
-- cp/cp_session.c, §26.1: the gates in front of the dispatch.
use sdr_slc_rtld.Cp.World.{World}

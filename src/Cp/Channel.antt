-- ===== src/Cp/Channel.antt =====
-- cp/cp_session.c, vita/vita_tx.c and rtl/rtl_bridge.c together: what holds of the rx channel in
-- every state that the daemon reaches.
use sdr_slc_rtld.Base.{ℕ, ◌≡◌, refl, Bool, true, false, some, ◌==◌, if◌then◌else◌, get_or, ap}
use sdr_slc_rtld.Vita.Sessions.{cleared}
use sdr_slc_rtld.Cp.World.{World, Session, is_streaming}
use sdr_slc_rtld.Cp.Phase.{
  Phase, free_rx, claimed_rx, open_rx, streaming_rx, Represents, Stage, stage, at_rest, claimed,
  holding, flowing,
}
use sdr_slc_rtld.Cp.Phase.Stages.{rest-is_streaming, claimed-is_streaming, holding-state}
use sdr_slc_rtld.Cp.Phase.Access.{eq_true}

-- A session that streams is the one of the phase.
streams_at :
    (s : Session) (st : Stage) (b : Bool)
    → is_streaming s.state ≡ true
    → stage s ≡ (if b then st else at_rest)
    → b ≡ true
streams_at s st true h e = refl
streams_at s st false h e = let f = rest-is_streaming s e in cc

not_streaming :
    (s : Session) (st : Stage) (b : Bool) {A : Type 0}
    → is_streaming s.state ≡ true
    → (stage s ≡ st → is_streaming s.state ≡ false)
    → stage s ≡ (if b then st else at_rest)
    → A
not_streaming s st true h k e = let f = k e in cc
not_streaming s st false h k e = let f = rest-is_streaming s e in cc

-- The phase in which session i streams.
pub streams-phase :
    (i : ℕ) (w : World) (p : Phase)
    → Represents p w
    → is_streaming (w.table i).state ≡ true
    → (t : ℕ) × (p ≡ streaming_rx i t)
streams-phase i w free_rx r h = let f = rest-is_streaming (w.table i) (r.stages i) in cc
streams-phase i w (claimed_rx j) r h =
    not_streaming (w.table i) claimed (j == i) h (claimed-is_streaming (w.table i)) (r.stages i)
streams-phase i w (open_rx j) r h =
    not_streaming (w.table i) holding (j == i) h
      (λ e. ap is_streaming (holding-state (w.table i) e)) (r.stages i)
streams-phase i w (streaming_rx j t) r h = (
  t,
  ap (λ k. streaming_rx k t)
      (eq_true j i (streams_at (w.table i) (flowing t) (j == i) h (r.stages i))),
)

-- What a held channel is to its holder.
abbrev pub SameHold : ℕ → World → World → Type 0
SameHold j w w' =
    (w'.rx_owner ≡ some j)
    × (stage (w'.table j) ≡ stage (w.table j))
    × (w'.bridge.running ≡ w.bridge.running)
    × ((t : ℕ)
        → (get_or w'.vita.sessions t cleared).active ≡ (get_or w.vita.sessions t cleared).active)

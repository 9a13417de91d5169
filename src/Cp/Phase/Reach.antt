-- ===== src/Cp/Phase/Reach.antt =====
-- The daemon from its start on: connections come, their threads serve messages and end, in any
-- order, and the rx channel is in a phase after each step.
use sdr_slc_rtld.Base.{
  ℕ, zero, suc, ◌+◌, ◌≡◌, ◌≢◌, refl, Bool, true, false, Option, none, some, Bytes, ◌==◌,
  if◌then◌else◌, arith, Bool-cases, inl, inr, length, get_or, sym,
}
use sdr_slc_rtld.Vita.Sessions.{cleared}
use sdr_slc_rtld.Cp.World.{World, Session, Env, Input, free_slot, put_session}
use sdr_slc_rtld.Cp.Lifecycle.{free_index, session_create, session_destroy}
use sdr_slc_rtld.Cp.Access.{max_sessions}
use sdr_slc_rtld.Cp.Dispatch.{handle_payload, hello}
use sdr_slc_rtld.Cp.Phase.{
  Phase, free_rx, claimed_rx, open_rx, streaming_rx, Represents, Stage, stage, stage_at, at_rest,
  claimed, holding, broken, flowing, Goes, Moves, stays, opens, starts, stops, closes,
  closes_streaming, allocates, abandons,
}
use sdr_slc_rtld.Cp.Phase.Keeps.{put_session-Represents}
use sdr_slc_rtld.Cp.Phase.Access.{IsLive}
use sdr_slc_rtld.Cp.Phase.Serve.{parsed_command, handle_payload-Goes}
use sdr_slc_rtld.Cp.Phase.Destroy.{session_destroy-Goes}

-- What main leaves before the control port opens.
pub record Boots (w : World) : Type 0 where
  pub table : (j : ℕ) → stage (w.table j) ≡ at_rest
  pub owner : w.rx_owner ≡ none
  pub count : w.bridge.stream_count ≡ 0
  pub runs : w.bridge.running ≡ false
  pub slots : length w.vita.sessions ≡ 4
  pub inactive : (t : ℕ) → (get_or w.vita.sessions t cleared).active ≡ false

-- One event: a connection is accepted, a session's thread serves a payload, or it ends. A thread
-- runs while its slot has a descriptor. A hello of the session that holds the channel is left out.
pub data Steps (env : Env) : World → World → Type 0 where
  connects : (fd ip : ℕ) (w : World) → (fd == 0) ≡ false → Steps env w (session_create fd ip w).1
  serves :
      (inp : Input) (i : ℕ) (js : Bytes) (w : World)
      → IsLive i w
      → (parsed_command i js (env.parse js) w ≡ some hello → stage (w.table i) ≡ at_rest)
      → Steps env w (handle_payload env inp i js w)
  ends : (i : ℕ) (w : World) → IsLive i w → Steps env w (session_destroy env.device i w)

pub data Reached (env : Env) : World → Type 0 where
  boots : (w : World) → Boots w → Reached env w
  steps : (w w' : World) → Reached env w → Steps env w w' → Reached env w'

-- The phase that is passed through inside open_stream.
abbrev pub is_claimed : Phase → Bool
is_claimed (claimed_rx j) = true
is_claimed _ = false

Moves-is_claimed : {i : ℕ} (p q : Phase) → Moves i p q → is_claimed p ≡ false → is_claimed q ≡ false
Moves-is_claimed p _ (stays _) h = h
Moves-is_claimed p q opens h = refl
Moves-is_claimed p q (starts t) h = refl
Moves-is_claimed p q (stops t) h = refl
Moves-is_claimed p q closes h = refl
Moves-is_claimed p q (closes_streaming t) h = refl
Moves-is_claimed p q allocates h = refl
Moves-is_claimed p q abandons h = refl

free_index-free :
    (n k : ℕ) (table : ℕ → Session) (i : ℕ)
    → free_index n k table ≡ some i
    → ((table i).fd == 0) ≡ true
unfolding free_index
free_index-free zero k table i h = cc
free_index-free (suc n) k table i h = elim (Bool-cases ((table k).fd == 0)) [
  | inl e ↦ (let q : k ≡ i = ground (arith, h, e) in rw (← q) e)
  | inr e ↦ free_index-free n (k + 1) table i (ground (arith, h, e))
]

-- A slot without a descriptor belongs to a session at rest.
dead-at :
    (s : Session) (st : Stage) (b : Bool)
    → (s.fd == 0) ≡ true
    → st ≢ broken
    → stage s ≡ (if b then st else at_rest)
    → (if b then st else at_rest) ≡ at_rest
dead-at s st false h n e = refl
dead-at s st true h n e = ground arith

dead-stage_at :
    (p : Phase) (i : ℕ) (s : Session)
    → (s.fd == 0) ≡ true
    → stage s ≡ stage_at p i
    → stage_at p i ≡ at_rest
dead-stage_at free_rx i s h e = refl
dead-stage_at (claimed_rx j) i s h e = dead-at s claimed (j == i) h (λ q. cc) e
dead-stage_at (open_rx j) i s h e = dead-at s holding (j == i) h (λ q. cc) e
dead-stage_at (streaming_rx j t) i s h e = dead-at s (flowing t) (j == i) h (λ q. cc) e

abbrev pub new_slot : ℕ → ℕ → World → ℕ → Session
new_slot fd ip w i = record free_slot {
  fd = fd;
  client_ip = ip;
  vita_token = none;
  frequency_hz = 7000000;
  sample_rate_sps = 2048000;
  rf_gain_tenth_db = w.bridge.gain_tenth_db;
  tokens = (w.table i).tokens;
}

pub session_create-Represents :
    (fd ip : ℕ) {p : Phase} {w : World} → Represents p w → Represents p (session_create fd ip w).1
unfolding session_create
session_create-Represents fd ip {p} {w} r = by_index (free_index max_sessions 0 w.table) refl
  where
    by_index :
        (o : Option ℕ)
        → free_index max_sessions 0 w.table ≡ o
        → Represents p
            (elim o as (λ _. Option ℕ × World) [
              | none ↦ (none, w)
              | some i ↦ (some i, put_session i (new_slot fd ip w i) w)
            ]).1
    by_index none e = r
    by_index (some i) e =
        let dead = free_index-free max_sessions 0 w.table i e in
        put_session-Represents i (new_slot fd ip w i)
          (sym (dead-stage_at p i (w.table i) dead (r.stages i))) r

-- The phase of a daemon that has been reached.
pub record InPhase (w : World) : Type 0 where
  pub phase : Phase
  pub settled : is_claimed phase ≡ false
  pub shows : Represents phase w

went : {i : ℕ} {p : Phase} {w : World} → is_claimed p ≡ false → Goes i p w → InPhase w
went {p = p} h g = record {
  phase = g.to;
  settled = Moves-is_claimed p g.to g.move h;
  shows = g.shows;
}

-- Each step keeps the daemon in a phase.
pub Steps-InPhase : (env : Env) (w w' : World) → Steps env w w' → InPhase w → InPhase w'
Steps-InPhase env w w' (connects fd ip v live) a = record {
  phase = a.phase;
  settled = a.settled;
  shows = session_create-Represents fd ip a.shows;
}
Steps-InPhase env w w' (serves inp i js v live g) a =
    went a.settled (handle_payload-Goes env inp i js a.shows live (λ e. cc (g e, a.shows.stages i)))
Steps-InPhase env w w' (ends i v live) a =
    went a.settled (session_destroy-Goes i env.device a.phase a.shows live)

pub Reached-InPhase : (env : Env) (w : World) → Reached env w → InPhase w
Reached-InPhase env w (boots v b) = record {
  phase = free_rx;
  settled = refl;
  shows = record {
    owner = b.owner;
    stages = b.table;
    count = b.count;
    runs = b.runs;
    slots = b.slots;
    tokens = b.inactive;
  };
}
Reached-InPhase env w (steps v u r s) = Steps-InPhase env v u s (Reached-InPhase env v r)

-- ===== src/Cp/Phase.antt =====
-- The rx channel as its clients see it: free, or held by one session that has a stream open or
-- streaming. The modules below prove that the daemon of cp/, vita/ and rtl/ implements it.
pub mod Keeps
pub mod Config
pub mod Envelope
pub mod Stages
pub mod Access
pub mod Open
pub mod Start
pub mod Stop
pub mod Streams
pub mod Destroy
pub mod Serve
pub mod Reach
pub mod Accepts
pub mod Rounds
use sdr_slc_rtld.Base.{
  ℕ, ◌≡◌, ◌≢◌, Bool, true, false, Option, none, some, ◌==◌, if◌then◌else◌, length, get_or,
}
use sdr_slc_rtld.Vita.Sessions.{cleared}
use sdr_slc_rtld.Cp.World.{Session, World, SessionState, await_hello, idle, stream_open, streaming}

-- Where a session stands; `claimed` is passed through inside open_stream, and `broken` is a
-- combination of fields that should not arise.
pub data Stage : Type 0 where
  at_rest claimed holding broken : Stage
  flowing : ℕ → Stage

-- By: the descriptor is 0, owns_rx, stream_open, state, vita_token.
abbrev pub stage_of : Bool → Bool → Bool → SessionState → Option ℕ → Stage
stage_of dead false false await_hello none = at_rest
stage_of dead false false idle none = at_rest
stage_of true false false await_hello (some t) = at_rest
stage_of true false false idle (some t) = at_rest
stage_of false true false await_hello none = claimed
stage_of false true false idle none = claimed
stage_of false true true stream_open none = holding
stage_of false true true streaming (some t) = flowing t
stage_of _ _ _ _ _ = broken

abbrev pub stage : Session → Stage
stage s = stage_of (s.fd == 0) s.owns_rx s.has_stream s.state s.vita_token

pub data Phase : Type 0 where
  free_rx : Phase
  claimed_rx open_rx : ℕ → Phase
  streaming_rx : ℕ → ℕ → Phase

abbrev pub owner_of : Phase → Option ℕ
owner_of free_rx = none
owner_of (claimed_rx i) = some i
owner_of (open_rx i) = some i
owner_of (streaming_rx i t) = some i

abbrev pub stage_at : Phase → ℕ → Stage
stage_at free_rx j = at_rest
stage_at (claimed_rx i) j = if i == j then claimed else at_rest
stage_at (open_rx i) j = if i == j then holding else at_rest
stage_at (streaming_rx i t) j = if i == j then flowing t else at_rest

abbrev pub count_of : Phase → ℕ
count_of (streaming_rx i t) = 1
count_of _ = 0

abbrev pub runs_in : Phase → Bool
runs_in (streaming_rx i t) = true
runs_in _ = false

abbrev pub token_in : Phase → ℕ → Bool
token_in (streaming_rx i t) u = t == u
token_in _ u = false

-- The daemon is in a phase: the owner, every session's fields, the stream count and the read
-- thread of the tuner, and the sessions that packets are sent for all agree with it.
pub record Represents (p : Phase) (w : World) : Type 0 where
  pub owner : w.rx_owner ≡ owner_of p
  pub stages : (j : ℕ) → stage (w.table j) ≡ stage_at p j
  pub count : w.bridge.stream_count ≡ count_of p
  pub runs : w.bridge.running ≡ runs_in p
  pub slots : length w.vita.sessions ≡ 4
  pub tokens : (t : ℕ) → (get_or w.vita.sessions t cleared).active ≡ token_in p t

-- What one event on the connection of session i can do to the channel.
pub data Moves (i : ℕ) : Phase → Phase → Type 0 where
  stays : (p : Phase) → Moves i p p
  opens : Moves i free_rx (open_rx i)
  starts : (t : ℕ) → Moves i (open_rx i) (streaming_rx i t)
  stops : (t : ℕ) → Moves i (streaming_rx i t) (open_rx i)
  closes : Moves i (open_rx i) free_rx
  allocates : Moves i (claimed_rx i) (open_rx i)
  abandons : Moves i (claimed_rx i) free_rx
  closes_streaming : (t : ℕ) → Moves i (streaming_rx i t) free_rx

-- Where an event on session i leads from a phase.
pub record Goes (i : ℕ) (p : Phase) (w : World) : Type 0 where
  pub to : Phase
  pub move : Moves i p to
  pub shows : Represents to w

-- ===== src/Cp/Locks/Streams.antt =====
-- The commands on streams leave rx as locked as it was, and the descriptors.
use sdr_slc_rtld.Base.{
  ℕ, refl, ◌∙◌, Bool, true, false, Option, none, some, [], Bytes, ◌==◌, if◌then◌else◌, Bool-cases,
  inl, inr,
}
use sdr_slc_rtld.Json.Tokens.{Msg}
use sdr_slc_rtld.Rtl.Bridge.{Device}
use sdr_slc_rtld.Vita.Sessions.{session_remove}
use sdr_slc_rtld.Cp.World.{World, Input, ErrorCode, Session, idle, put_session}
use sdr_slc_rtld.Cp.Access.{rx_claim, rx_release, same_slot, alloc_stream_id}
use sdr_slc_rtld.Cp.Lifecycle.{drop_token, stop_reading}
use sdr_slc_rtld.Cp.Stream.{
  release_if, require_held, read_transport, allocate_stream, claim, claim_and_open, cmd_open_stream,
  Destination, require_stream, add_vita, start_bridge, start_failed, announce, start_added,
  start_stream, cmd_start_rx, stop_stream, cmd_stop_rx, close_session, cmd_close_stream,
}
use sdr_slc_rtld.Cp.Locks.{
  SameLocks, send_framed-SameLocks, put_session-SameLocks, Locks, LocksWorld, locks_rules,
}
use sdr_slc_rtld.Cp.Locks.Commands.{require_function-Locks, channel_ok-Locks}

rx_release-SameLocks : (i : ℕ) (w : World) → SameLocks w (rx_release i w)
unfolding rx_release
rx_release-SameLocks i w j = elim (Bool-cases (same_slot w.rx_owner i)) [
  | inl e ↦ rw e (put_session-SameLocks i (record (w.table i) { owns_rx = false }) w refl j)
  | inr e ↦ rw e (put_session-SameLocks i (record (w.table i) { owns_rx = false }) w refl j)
]

release_if-Locks : (bad : Bool) (i : ℕ) (id : Bytes) (c : ErrorCode) → Locks (release_if bad i id c)
unfolding release_if
release_if-Locks true i id c = record {
  at = λ w j. send_framed-SameLocks i _ (rx_release i w) j ∙ rx_release-SameLocks i w j;
}
release_if-Locks false i id c = record { at = λ w j. refl }

require_held-Locks {ℓ} :
    {A : Type ℓ} (o : Option A) (i : ℕ) (id : Bytes) (c : ErrorCode) → Locks (require_held o i id c)
unfolding require_held
require_held-Locks none i id c = record {
  at = λ w j. send_framed-SameLocks i _ (rx_release i w) j ∙ rx_release-SameLocks i w j;
}
require_held-Locks (some a) i id c = record { at = λ w j. refl }

claim-Locks : (i : ℕ) → Locks (claim i)
unfolding rx_claim
claim-Locks i = record { at = λ w. by_owner w w.rx_owner }
  where
    claimed : (w : World) → SameLocks w (put_session i (record (w.table i) { owns_rx = true }) w)
    claimed w = put_session-SameLocks i (record (w.table i) { owns_rx = true }) w refl

    by_owner :
        (w : World) (o : Option ℕ)
        → SameLocks w
            (elim o as (λ _. Bool × World) [
              | none ↦ (
                true,
                record (put_session i (record (w.table i) { owns_rx = true }) w) {
                  rx_owner = some i;
                },
              )
              | some j ↦
                  if j == i
                  then (true, put_session i (record (w.table i) { owns_rx = true }) w)
                  else (false, w)
            ]).1
    by_owner w none = claimed w
    by_owner w (some j) = elim (Bool-cases (j == i)) [
      | inl e ↦ rw e (claimed w)
      | inr e ↦ rw e (λ k. refl)
    ]

drop_token-Locks : (i : ℕ) → LocksWorld (drop_token i)
unfolding drop_token
drop_token-Locks i = record { at = λ w. by_token w (w.table i).vita_token }
  where
    by_token :
        (w : World) (o : Option ℕ)
        → SameLocks w (elim o as (λ _. World) [
          | none ↦ w
          | some t ↦ record (put_session i (record (w.table i) { vita_token = none }) w) {
            vita = session_remove t w.vita;
          }
        ])
    by_token w none = λ j. refl
    by_token w (some t) = put_session-SameLocks i (record (w.table i) { vita_token = none }) w refl

stop_reading-Locks : LocksWorld stop_reading
stop_reading-Locks = record { at = λ w j. refl }

add_vita-Locks : (inp : Input) (i : ℕ) → LocksWorld (add_vita inp i)
unfolding add_vita
add_vita-Locks inp i = record {
  at = λ w. put_session-SameLocks i (record (w.table i) { vita_token = _ }) w refl;
}

start_bridge-Locks : (dev : Device) → Locks (start_bridge dev)
unfolding start_bridge
start_bridge-Locks dev = record { at = λ w j. refl }

close_session-Locks : (was : Bool) (i : ℕ) → LocksWorld (close_session was i)
unfolding close_session
close_session-Locks true i = record {
  at = λ w.
      let w₂ = stop_reading (drop_token i w) in
      let closed : Session = record (w₂.table i) {
        has_stream = false;
        state = idle;
        stream_id = [];
      } in
      λ j.
        rx_release-SameLocks i (put_session i closed w₂) j
        ∙ put_session-SameLocks i closed w₂ refl j
        ∙ (drop_token-Locks i).at w j;
}
close_session-Locks false i = record {
  at = λ w.
      let w₂ = drop_token i w in
      let closed : Session = record (w₂.table i) {
        has_stream = false;
        state = idle;
        stream_id = [];
      } in
      λ j.
        rx_release-SameLocks i (put_session i closed w₂) j
        ∙ put_session-SameLocks i closed w₂ refl j
        ∙ (drop_token-Locks i).at w j;
}

alloc-Locks : Locks (λ w. (some (alloc_stream_id w).0, (alloc_stream_id w).1))
unfolding alloc_stream_id
alloc-Locks = record { at = λ w j. refl }

ruleset stream_rules = (
  locks_rules, require_function-Locks, channel_ok-Locks, release_if-Locks, require_held-Locks,
  claim-Locks, drop_token-Locks, stop_reading-Locks, add_vita-Locks, start_bridge-Locks,
  close_session-Locks,
)

module _ (i : ℕ) (id : Bytes) where
  read_transport-Locks : (m : Msg) (p : ℕ) → Locks (read_transport i id m p)
  unfolding read_transport
  read_transport-Locks m p = search stream_rules depth 40

  allocate_stream-Locks : (inp : Input) (d : Destination) → Locks (allocate_stream inp i id d)
  unfolding allocate_stream
  allocate_stream-Locks inp d = search (stream_rules, alloc-Locks) depth 24

  claim_and_open-Locks : (inp : Input) (m : Msg) (p : ℕ) → Locks (claim_and_open inp i id m p)
  unfolding claim_and_open
  claim_and_open-Locks inp m p =
      search (stream_rules, read_transport-Locks, allocate_stream-Locks) depth 24

  pub cmd_open_stream-Locks : (m : Msg) (inp : Input) → Locks (cmd_open_stream inp i id m)
  unfolding cmd_open_stream
  cmd_open_stream-Locks m inp = search (stream_rules, claim_and_open-Locks) depth 24

  require_stream-Locks : (m : Msg) → Locks (require_stream i id m)
  unfolding require_stream
  require_stream-Locks m = search stream_rules depth 24

  start_failed-Locks : Locks (start_failed i id)
  unfolding start_failed
  start_failed-Locks = search stream_rules depth 12

  announce-Locks : (on : Bool) → Locks (announce i id on)
  unfolding announce
  announce-Locks on = search stream_rules depth 12

  start_added-Locks : (dev : Device) → Locks (start_added dev i id)
  unfolding start_added
  start_added-Locks dev = search (stream_rules, start_failed-Locks, announce-Locks) depth 24

  start_stream-Locks : (dev : Device) (inp : Input) → Locks (start_stream dev inp i id)
  unfolding start_stream
  start_stream-Locks dev inp = search (stream_rules, start_added-Locks) depth 24

  pub cmd_start_rx-Locks :
      (m : Msg) (dev : Device) (inp : Input) → Locks (cmd_start_rx dev inp i id m)
  unfolding cmd_start_rx
  cmd_start_rx-Locks m dev inp =
      search (stream_rules, require_stream-Locks, start_stream-Locks) depth 24

  stop_stream-Locks : Locks (stop_stream i id)
  unfolding stop_stream
  stop_stream-Locks = search (stream_rules, announce-Locks) depth 24

  pub cmd_stop_rx-Locks : (m : Msg) → Locks (cmd_stop_rx i id m)
  unfolding cmd_stop_rx
  cmd_stop_rx-Locks m = search (stream_rules, require_stream-Locks, stop_stream-Locks) depth 24

  pub cmd_close_stream-Locks : (m : Msg) → Locks (cmd_close_stream i id m)
  unfolding cmd_close_stream
  cmd_close_stream-Locks m = search (stream_rules, require_stream-Locks) depth 24

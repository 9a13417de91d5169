-- ===== src/Cp/Access.antt =====
-- cp/cp_session.c: stream ids, sending, access control and the broadcast of events.
use sdr_slc_rtld.Base.{
  ℕ, zero, suc, ◌+◌, ◌/◌, ◌%◌, ◌^◌, Bool, true, false, not, ◌&&◌, ◌||◌, Option, none, some, List,
  [], ◌∷◌, ◌++◌, Bytes, codes, ltb, ◌==◌, if◌then◌else◌,
}
use sdr_slc_rtld.Cp.World.{
  Session, World, Frame, event, Event, control_revoked, ControlState, free, owned_by_me,
  owned_by_other, adc_overloaded, is_await_hello, is_streaming, put_session,
}

-- "%u": the decimal digits, least significant first as they are found; ten are enough.
unfoldable pub decimal : ℕ → ℕ → Bytes → Bytes
decimal zero n acc = acc
decimal (suc fuel) n acc =
    let acc' = (b'0' + n % 10) ∷ acc in
    let rest = decimal fuel (n / 10) acc' in if ltb n 10 then acc' else rest

unfoldable pub stream_name : ℕ → Bytes
unfolding decimal
stream_name n = codes "rx-" ++ decimal 10 n []

-- alloc_stream_id: the counter is a uint32_t.
unfoldable pub alloc_stream_id : World → ℕ × World
alloc_stream_id w = let n = (w.stream_counter + 1) % 2 ^ 32 in (n, record w { stream_counter = n })

-- send_framed to the session in a slot; a failed send is looked at by no caller.
unfoldable pub send_framed : ℕ → Frame → World → World
send_framed i f w =
    let fd = (w.table i).fd in if fd == 0 then w else record w { out = (fd, f) ∷ w.out }

abbrev pub same_slot : Option ℕ → ℕ → Bool
same_slot none i = false
same_slot (some j) i = j == i

-- The loop of broadcast over the slots that are left, from `i` on.
unfoldable pub broadcast_loop :
    ℕ → ℕ → Option ℕ → Event → (ℕ → Session) → List (ℕ × Frame) → List (ℕ × Frame)
broadcast_loop zero i skip e table out = out
broadcast_loop (suc n) i skip e table out =
    let s = table i in
    broadcast_loop n (i + 1) skip e table (
      if s.fd == 0 || same_slot skip i || is_await_hello s.state
      then out
      else (s.fd, event e) ∷ out)

abbrev pub max_sessions : ℕ
max_sessions = 4

-- broadcast: cp_broadcast_event without a slot to skip, cp_broadcast_event_except with one.
unfoldable pub broadcast : Option ℕ → Event → World → World
unfolding broadcast_loop
broadcast skip e w = record w { out = broadcast_loop max_sessions 0 skip e w.table w.out }

-- cp_rx_claim.
unfoldable pub rx_claim : ℕ → World → Bool × World
rx_claim i w = elim w.rx_owner [
  | none ↦
      (true, record (put_session i (record (w.table i) { owns_rx = true }) w) { rx_owner = some i })
  | some j ↦
      if j == i then (true, put_session i (record (w.table i) { owns_rx = true }) w) else (false, w)
]

-- cp_rx_release.
unfoldable pub rx_release : ℕ → World → World
unfolding broadcast
rx_release i w =
    let w' = put_session i (record (w.table i) { owns_rx = false }) w in
    if same_slot w.rx_owner i
    then broadcast (some i) (control_revoked free) (record w' { rx_owner = none })
    else w'

-- cp_rx_owned_by_other.
unfoldable pub owned_by_another : ℕ → World → Bool
owned_by_another i w = elim w.rx_owner [ none ↦ false | some j ↦ not (j == i) ]

-- cp_rx_control_state.
unfoldable pub control_state : ℕ → World → ControlState
control_state i w = elim w.rx_owner [
  | none ↦ free
  | some j ↦ if j == i then owned_by_me else owned_by_other
]

-- The stream id that cp_on_adc_overload looks for: that of the first session that streams.
unfoldable pub streaming_id : ℕ → ℕ → (ℕ → Session) → Bytes
streaming_id zero i table = []
streaming_id (suc n) i table =
    let s = table i in
    let rest = streaming_id n (i + 1) table in
    if not (s.fd == 0) && is_streaming s.state then s.stream_id else rest

-- cp_on_adc_overload, for the sums that the level is computed of.
unfoldable pub on_adc_overload : ℕ × ℕ → World → World
unfolding streaming_id broadcast
on_adc_overload level w =
    broadcast none (adc_overloaded (streaming_id max_sessions 0 w.table) level) w

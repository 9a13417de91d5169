-- ===== src/Cp/Phase/Start.antt =====
-- start_rx: from an open stream it starts the streaming or leaves the stream open.
use sdr_slc_rtld.Base.{
  ℕ, ◌≡◌, ◌<◌, refl, Bool, true, false, Option, none, some, Bytes, ◌==◌, arith, inl, inr, ◌⊎◌,
  length, subst, sym,
}
use sdr_slc_rtld.Rtl.Bridge.{Device, Bridge}
use sdr_slc_rtld.Rtl.Lifecycle.{bridge_start}
use sdr_slc_rtld.Rtl.Counted.{Started, bridge_start-first}
use sdr_slc_rtld.Vita.Sessions.{Vita}
use sdr_slc_rtld.Vita.Active.{
  Adds, Added, session_add-Adds, active-session_remove, length-session_remove, is_active,
}
use sdr_slc_rtld.Cp.World.{
  Session, World, Input, streaming, busy, device_error, put_session, update,
}
use sdr_slc_rtld.Cp.Lifecycle.{drop_token}
use sdr_slc_rtld.Cp.Cmd.{
  ◌>>=◌, pure, gets, modify, edit, send_ok, send_event, fail, refuse_if, send_error,
}
use sdr_slc_rtld.Cp.Stream.{
  add_vita, stream_of, start_bridge, start_failed, announce, start_added, start_stream,
}
use sdr_slc_rtld.Cp.Phase.{
  Phase, open_rx, streaming_rx, Represents, stage, at_rest, holding, flowing, Goes, starts,
}
use sdr_slc_rtld.Cp.Phase.Keeps.{send_framed-Represents}
use sdr_slc_rtld.Cp.Phase.Access.{eq_refl, only_slot, own_stage, other_stage}
use sdr_slc_rtld.Cp.Phase.Open.{Goes-nowhere, send_error-Represents}

-- Between the allocation of the VITA session and the start of the tuner.
record Primed (i t : ℕ) (w : World) : Type 0 where
  owner : w.rx_owner ≡ some i
  own : stage (record (w.table i) { vita_token = none }) ≡ holding
  token : (w.table i).vita_token ≡ some t
  others : (j : ℕ) → (i == j) ≡ false → stage (w.table j) ≡ at_rest
  count : w.bridge.stream_count ≡ 0
  runs : w.bridge.running ≡ false
  slots : length w.vita.sessions ≡ 4
  tokens : (u : ℕ) → is_active w.vita.sessions u ≡ (t == u)
  below : t < 4

prime-stage : (s : Session) → stage s ≡ holding → stage (record s { vita_token = none }) ≡ holding
prime-stage s h = ground arith

flow-stage :
    (s : Session) (t : ℕ)
    → stage (record s { vita_token = none }) ≡ holding
    → s.vita_token ≡ some t
    → stage (record s { state = streaming }) ≡ flowing t
flow-stage s t h e = ground arith

-- The two outcomes of the allocation of a VITA session.
abbrev Allocates : ℕ → World → Type 0
Allocates i w =
    (Represents (open_rx i) w × ((w.table i).vita_token ≡ none)) ⊎ ((t : ℕ) × Primed i t w)

abbrev placed : ℕ → World → Option ℕ × Vita → World
placed i w (t, v) = put_session i (record (w.table i) { vita_token = t }) (record w { vita = v })

put_own : (i : ℕ) (s : Session) (table : ℕ → Session) → update table i s i ≡ s
put_own i s table = rw (eq_refl i) refl

placed-none :
    (i : ℕ) {w : World} → Represents (open_rx i) w → Allocates i (placed i w (none, w.vita))
placed-none i {w} r = inl (
  record {
    owner = r.owner;
    count = r.count;
    runs = r.runs;
    slots = r.slots;
    tokens = r.tokens;
    stages =
        only_slot i _ holding w.table
          (prime-stage (w.table i) (own_stage i holding (w.table i) (r.stages i)))
          (λ j h. other_stage i holding j (w.table j) (r.stages j) h);
  },
  rw (eq_refl i) refl,
)

placed-some :
    (i t : ℕ) (v : Vita) {w : World}
    → Represents (open_rx i) w
    → Added w.vita.sessions t v.sessions
    → Primed i t (placed i w (some t, v))
placed-some i t v {w} r (len, off, acts, lt) = record {
  owner = r.owner;
  count = r.count;
  runs = r.runs;
  own = rw (eq_refl i) (prime-stage (w.table i) (own_stage i holding (w.table i) (r.stages i)));
  token = rw (eq_refl i) refl;
  others = λ j h. rw h (other_stage i holding j (w.table j) (r.stages j) h);
  slots = cc (len, r.slots);
  tokens = λ u. ground (arith, acts u, r.tokens u);
  below = omega (arith, lt, r.slots);
}

add_vita-Allocates :
    (inp : Input) (i : ℕ) {w : World} → Represents (open_rx i) w → Allocates i (add_vita inp i w)
unfolding add_vita
add_vita-Allocates inp i {w} r =
    by_result _ (session_add-Adds w.bridge.gain_tenth_db (stream_of inp i w) w.vita)
  where
    by_result : (x : Option ℕ × Vita) → Adds w.vita x → Allocates i (placed i w x)
    by_result x (inl e) = subst (λ y. Allocates i (placed i w y)) (sym e) (placed-none i r)
    by_result (o, v) (inr (t, e, added)) = rw e (inr (t, placed-some i t v r added))

-- The tuner runs: the session streams.
Primed-flows :
    (i t : ℕ) (b : Bridge) {w : World}
    → Primed i t w
    → b.stream_count ≡ 1
    → b.running ≡ true
    → Represents
        (streaming_rx i t)
        (put_session i (record (w.table i) { state = streaming }) (record w { bridge = b }))
Primed-flows i t b {w} r h k = record {
  owner = r.owner;
  count = h;
  runs = k;
  slots = r.slots;
  tokens = r.tokens;
  stages = only_slot i _ (flowing t) w.table (flow-stage (w.table i) t r.own r.token) r.others;
}

-- It does not: the VITA session is given back.
Primed-drops :
    (i t : ℕ) (b : Bridge) {w : World}
    → Primed i t w
    → b.stream_count ≡ 0
    → b.running ≡ false
    → Represents (open_rx i) (drop_token i (record w { bridge = b }))
unfolding drop_token
Primed-drops i t b {w} r h k = simp (r.token) (record {
  owner = r.owner;
  count = h;
  runs = k;
  slots = cc (length-session_remove t w.vita, r.slots);
  stages = only_slot i _ holding w.table r.own r.others;
  tokens = λ u. ground (arith, active-session_remove t w.vita u r.slots r.below, r.tokens u);
})

pub announce-Represents :
    (i : ℕ) (id : Bytes) (on : Bool) {p : Phase} {w : World}
    → Represents p w
    → Represents p (announce i id on w).1
unfolding announce ◌>>=◌ send_ok send_event gets modify
announce-Represents i id on r = send_framed-Represents i _ (send_framed-Represents i _ r)

module _ (dev : Device) (i : ℕ) (id : Bytes) where
  start_added-works :
      (w : World) {b : Bridge}
      → bridge_start dev w.bridge ≡ (true, b)
      → start_added dev i id w
        ≡ announce i id true
            (put_session i (record (w.table i) { state = streaming }) (record w { bridge = b }))
  unfolding start_added ◌>>=◌ start_bridge pure edit modify
  start_added-works w e = rw e refl

  start_added-fails :
      (w : World) {b : Bridge}
      → bridge_start dev w.bridge ≡ (false, b)
      → start_added dev i id w
        ≡ (none, send_error i id device_error (drop_token i (record w { bridge = b })))
  unfolding start_added ◌>>=◌ start_bridge start_failed fail modify
  start_added-fails w e = rw e refl

  start_added-Goes :
      (t : ℕ) {w : World} → Primed i t w → Goes i (open_rx i) (start_added dev i id w).1
  start_added-Goes t {w} r =
      by_start (bridge_start dev w.bridge) refl (bridge_start-first dev w.bridge r.count)
    where
      by_start :
          (x : Bool × Bridge)
          → bridge_start dev w.bridge ≡ x
          → Started x
          → Goes i (open_rx i) (start_added dev i id w).1
      by_start (true, b) e (inl (g, h, k)) = rw (start_added-works w e) (record {
        to = streaming_rx i t;
        move = starts t;
        shows = announce-Represents i id true (Primed-flows i t b r h k);
      })
      by_start (false, b) e (inr (g, h, k)) =
          rw (start_added-fails w e)
            (Goes-nowhere i (send_error-Represents i id device_error (Primed-drops i t b r h k)))
      by_start (true, b) e (inr (g, h, k)) = cc
      by_start (false, b) e (inl (g, h, k)) = cc

  module _ (inp : Input) (w : World) where
    start_stream-busy :
        (((add_vita inp i w).table i).vita_token ≡ none)
        → start_stream dev inp i id w ≡ (none, send_error i id busy (add_vita inp i w))
    unfolding start_stream ◌>>=◌ modify gets refuse_if fail
    start_stream-busy h = simp h

    start_stream-added :
        (t : ℕ)
        → ((add_vita inp i w).table i).vita_token ≡ some t
        → start_stream dev inp i id w ≡ start_added dev i id (add_vita inp i w)
    unfolding start_stream ◌>>=◌ modify gets refuse_if pure
    start_stream-added t h = simp h

    pub start_stream-Goes :
        Represents (open_rx i) w → Goes i (open_rx i) (start_stream dev inp i id w).1
    start_stream-Goes r = elim (add_vita-Allocates inp i r) [
      | inl (r', h) ↦ rw (start_stream-busy h) (Goes-nowhere i (send_error-Represents i id busy r'))
      | inr (t, r') ↦ rw (start_stream-added t r'.token) (start_added-Goes t r')
    ]

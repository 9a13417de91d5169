-- ===== src/Cp/Phase/Destroy.antt =====
-- The end of a connection frees the rx channel if the session held it, and stops the tuner.
use sdr_slc_rtld.Base.{
  ℕ, ◌≡◌, refl, true, false, not, ◌&&◌, none, some, ◌==◌, if◌then◌else◌, arith, Bool-cases, inl,
  inr, length, sym, subst, ap,
}
use mathlib.Core.Option.{some-injective}
use sdr_slc_rtld.Rtl.Bridge.{Device}
use sdr_slc_rtld.Vita.Active.{is_active}
use sdr_slc_rtld.Cp.World.{World, Session, Event, free_slot, is_streaming, put_session}
use sdr_slc_rtld.Cp.Access.{rx_release, broadcast, same_slot}
use sdr_slc_rtld.Cp.Lifecycle.{drop_token, stop_lost, bias_off, session_destroy}
use sdr_slc_rtld.Cp.Phase.{
  Phase, free_rx, claimed_rx, open_rx, streaming_rx, Represents, Stage, stage, stage_at, at_rest,
  claimed, holding, flowing, Goes, Moves, closes, abandons, closes_streaming, owner_of, count_of,
  runs_in, token_in,
}
use sdr_slc_rtld.Cp.Phase.Config.{set_bias-SameCount}
use sdr_slc_rtld.Cp.Phase.Stages.{
  claimed-token, claimed-is_streaming, holding-state, holding-token, flowing-state, flowing-token,
  rest-token, rest-is_streaming,
}
use sdr_slc_rtld.Cp.Phase.Access.{IsLive, eq_refl, eq_true, own_stage, other_stage}
use sdr_slc_rtld.Cp.Phase.Open.{Goes-nowhere}
use sdr_slc_rtld.Cp.Phase.Stop.{
  dropped, quiet, drop_token-some, drop_token-none, own_flowing, ended-Represents,
}

-- A phase, but for the fields of slot i.
record Around (i : ℕ) (p : Phase) (w : World) : Type 0 where
  owner : w.rx_owner ≡ owner_of p
  others : (j : ℕ) → (i == j) ≡ false → stage (w.table j) ≡ stage_at p j
  count : w.bridge.stream_count ≡ count_of p
  runs : w.bridge.running ≡ runs_in p
  slots : length w.vita.sessions ≡ 4
  tokens : (t : ℕ) → is_active w.vita.sessions t ≡ token_in p t

module _ (i : ℕ) {p : Phase} where
  Around-put : (s : Session) {w : World} → Around i p w → Around i p (put_session i s w)
  Around-put s r = record {
    owner = r.owner;
    count = r.count;
    runs = r.runs;
    slots = r.slots;
    tokens = r.tokens;
    others = λ j h. rw h (r.others j h);
  }

  Around-broadcast : (e : Event) {w : World} → Around i p w → Around i p (broadcast (some i) e w)
  unfolding broadcast
  Around-broadcast e r = record {
    owner = r.owner;
    count = r.count;
    runs = r.runs;
    slots = r.slots;
    tokens = r.tokens;
    others = r.others;
  }

  Around-bias_off : (dev : Device) {w : World} → Around i p w → Around i p (bias_off dev w)
  unfolding bias_off
  Around-bias_off dev {w} r =
      elim (Bool-cases (w.bridge.bias_tee_enabled && not w.bridge.bias_tee_persist)) [
        | inl e ↦ rw e (
            let h = set_bias-SameCount dev false w.bridge in
            record {
              owner = r.owner;
              slots = r.slots;
              tokens = r.tokens;
              others = r.others;
              count = cc (h.0, r.count);
              runs = cc (h.1, r.runs);
            })
        | inr e ↦ rw e r
      ]

  freed-Represents :
      (s : Session) {w : World}
      → Around i p w
      → stage s ≡ at_rest
      → stage_at p i ≡ at_rest
      → Represents p (put_session i s w)
  freed-Represents s {w} r h g = record {
    owner = r.owner;
    count = r.count;
    runs = r.runs;
    slots = r.slots;
    tokens = r.tokens;
    stages = λ j. elim (Bool-cases (i == j)) [
      | inl same ↦ rw same (let q = eq_true i j same in rw (← q) (cc (h, g)))
      | inr other ↦ rw other (r.others j other)
    ];
  }

module _ (i : ℕ) where
  mine-Around :
      {p : Phase} {w : World}
      → Represents p w
      → owner_of p ≡ some i
      → count_of p ≡ 0
      → runs_in p ≡ false
      → ((u : ℕ) → token_in p u ≡ false)
      → ((j : ℕ) → (i == j) ≡ false → stage_at p j ≡ at_rest)
      → Around i (claimed_rx i) w
  mine-Around r own cnt run tok st = record {
    owner = cc (r.owner, own);
    count = cc (r.count, cnt);
    runs = cc (r.runs, run);
    slots = r.slots;
    tokens = λ u. cc (r.tokens u, tok u);
    others = λ j h. rw h (cc (r.stages j, st j h));
  }

  release-Around : {w : World} → Around i (claimed_rx i) w → Around i free_rx (rx_release i w)
  unfolding rx_release
  release-Around {w} r =
      simp (r.owner, eq_refl i)
        (Around-broadcast i _ (record {
          owner = refl;
          count = r.count;
          runs = r.runs;
          slots = r.slots;
          tokens = r.tokens;
          others = λ j h. rw h (ground (arith, r.others j h, h));
        }))

  release_other-Around :
      {p : Phase} {w : World}
      → Represents p w
      → same_slot (owner_of p) i ≡ false
      → Around i p (rx_release i w)
  unfolding rx_release
  release_other-Around {p} {w} r h =
      let e : same_slot w.rx_owner i ≡ false = subst (λ o. same_slot o i ≡ false) (sym r.owner) h in
      simp (e, same_slot)
        (record {
          owner = r.owner;
          count = r.count;
          runs = r.runs;
          slots = r.slots;
          tokens = r.tokens;
          others = λ j g. rw g (r.stages j);
        })

  -- The writes of session_destroy before the release, by the stage of the session.
  before_release : World → World
  before_release w = stop_lost i (drop_token i w)

  before-idle :
      {w : World}
      → (w.table i).vita_token ≡ none
      → is_streaming (w.table i).state ≡ false
      → before_release w ≡ w
  unfolding before_release stop_lost
  before-idle {w} e h = rw (drop_token-none i w e) (simp h refl)

  quiet-Around :
      (t : ℕ) {w : World} → Represents (streaming_rx i t) w → Around i (claimed_rx i) (quiet i t w)
  quiet-Around t {w} r =
      let e = ended-Represents i t r free_rx (λ _. free_slot) refl refl (λ u. refl) (λ j. refl) in
      record {
        owner = r.owner;
        count = e.count;
        runs = e.runs;
        slots = e.slots;
        tokens = e.tokens;
        others = λ j h. rw h (other_stage i (flowing t) j (w.table j) (r.stages j) h);
      }

  before-flowing :
      (t : ℕ) {w : World}
      → Represents (streaming_rx i t) w
      → Around i (claimed_rx i) (before_release w)
  unfolding before_release stop_lost
  before-flowing t {w} r =
      let h = own_flowing i t r in
      let e : is_streaming ((dropped i t w).table i).state ≡ true =
        simp (eq_refl i, flowing-state (w.table i) t h) refl in
      rw (drop_token-some i t w (flowing-token (w.table i) t h))
        (rw e (Around-broadcast i _ (quiet-Around t r)))

  module _ (dev : Device) where
    settle :
        {p : Phase} (w : World)
        → Around i p (rx_release i (before_release w))
        → stage_at p i ≡ at_rest
        → Represents p (session_destroy dev i w)
    unfolding session_destroy before_release
    settle w r h = freed-Represents i _ (Around-bias_off i dev r) refl h

    settle_idle :
        {p : Phase} (w : World)
        → (w.table i).vita_token ≡ none
        → is_streaming (w.table i).state ≡ false
        → Around i p (rx_release i w)
        → stage_at p i ≡ at_rest
        → Represents p (session_destroy dev i w)
    settle_idle {p} w e h r rest =
        settle w (subst (λ u. Around i p (rx_release i u)) (sym (before-idle e h)) r) rest

    -- A session that does not hold the channel.
    destroy_other :
        (p : Phase) {w : World}
        → Represents p w
        → IsLive i w
        → same_slot (owner_of p) i ≡ false
        → stage_at p i ≡ at_rest
        → Represents p (session_destroy dev i w)
    destroy_other p {w} r live own rest =
        let at : stage (w.table i) ≡ at_rest = cc (r.stages i, rest) in
        settle_idle w (rest-token (w.table i) at live) (rest-is_streaming (w.table i) at)
          (release_other-Around r own) rest

    free_others :
        (j : ℕ) (st : Stage) → (i == j) ≡ false → (if i == j then st else at_rest) ≡ at_rest
    free_others j st h = rw h refl

    destroy_claimed :
        {w : World} → Represents (claimed_rx i) w → Represents free_rx (session_destroy dev i w)
    destroy_claimed {w} r =
        let at = own_stage i claimed (w.table i) (r.stages i) in
        settle_idle w (claimed-token (w.table i) at) (claimed-is_streaming (w.table i) at)
          (release-Around (mine-Around r refl refl refl (λ u. refl) (λ j. free_others j claimed)))
          refl

    destroy_open :
        {w : World} → Represents (open_rx i) w → Represents free_rx (session_destroy dev i w)
    destroy_open {w} r =
        let at = own_stage i holding (w.table i) (r.stages i) in
        settle_idle w (holding-token (w.table i) at)
          (ap is_streaming (holding-state (w.table i) at))
          (release-Around (mine-Around r refl refl refl (λ u. refl) (λ j. free_others j holding)))
          refl

    destroy_streaming :
        (t : ℕ) {w : World}
        → Represents (streaming_rx i t) w
        → Represents free_rx (session_destroy dev i w)
    destroy_streaming t {w} r = settle w (release-Around (before-flowing t r)) refl

    -- The holder's connection ends.
    pub destroy_mine :
        (p : Phase) {w : World}
        → owner_of p ≡ some i
        → Represents p w
        → Represents free_rx (session_destroy dev i w)
    destroy_mine free_rx h r = cc
    destroy_mine (claimed_rx j) {w} h r =
        destroy_claimed (subst (λ k. Represents (claimed_rx k) w) (some-injective j i h) r)
    destroy_mine (open_rx j) {w} h r =
        destroy_open (subst (λ k. Represents (open_rx k) w) (some-injective j i h) r)
    destroy_mine (streaming_rx j t) {w} h r =
        destroy_streaming t (subst (λ k. Represents (streaming_rx k t) w) (some-injective j i h) r)

    by_holder :
        (p : Phase) (j : ℕ) {w : World}
        → owner_of p ≡ some j
        → ((j == i) ≡ false → stage_at p i ≡ at_rest)
        → Represents p w
        → IsLive i w
        → (j ≡ i → Goes i p (session_destroy dev i w))
        → Goes i p (session_destroy dev i w)
    by_holder p j {w} own rest r live mine = elim (Bool-cases (j == i)) [
      | inl same ↦ mine (eq_true j i same)
      | inr other ↦
          Goes-nowhere i (
            destroy_other p r live (subst (λ o. same_slot o i ≡ false) (sym own) other)
              (rest other))
    ]

    rest_if : (j : ℕ) (st : Stage) → (j == i) ≡ false → (if j == i then st else at_rest) ≡ at_rest
    rest_if j st h = rw h refl

    pub session_destroy-Goes :
        (p : Phase) {w : World} → Represents p w → IsLive i w → Goes i p (session_destroy dev i w)
    session_destroy-Goes free_rx r live = Goes-nowhere i (destroy_other free_rx r live refl refl)
    session_destroy-Goes (claimed_rx j) {w} r live =
        by_holder (claimed_rx j) j refl (rest_if j claimed) r live (λ e. record {
          to = free_rx;
          shows = destroy_mine (claimed_rx j) (ap some e) r;
          move = subst (λ k. Moves i (claimed_rx k) free_rx) (sym e) abandons;
        })
    session_destroy-Goes (open_rx j) {w} r live =
        by_holder (open_rx j) j refl (rest_if j holding) r live (λ e. record {
          to = free_rx;
          shows = destroy_mine (open_rx j) (ap some e) r;
          move = subst (λ k. Moves i (open_rx k) free_rx) (sym e) closes;
        })
    session_destroy-Goes (streaming_rx j t) {w} r live =
        by_holder (streaming_rx j t) j refl (rest_if j (flowing t)) r live (λ e. record {
          to = free_rx;
          shows = destroy_mine (streaming_rx j t) (ap some e) r;
          move = subst (λ k. Moves i (streaming_rx k t) free_rx) (sym e) (closes_streaming t);
        })

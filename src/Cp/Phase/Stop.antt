-- ===== src/Cp/Phase/Stop.antt =====
-- start_rx, stop_rx and close_stream, by whether the session has a stream.
use sdr_slc_rtld.Base.{
  ℕ, ◌≡◌, ◌<◌, refl, true, false, Option, none, some, Bytes, ◌==◌, if◌then◌else◌, arith, Bool-cases,
  inl, inr, subst, sym, codes,
}
use sdr_slc_rtld.Json.Tokens.{Msg}
use sdr_slc_rtld.Rtl.Lifecycle.{reset_adc_level}
use sdr_slc_rtld.Rtl.Counted.{bridge_stop-last}
use sdr_slc_rtld.Vita.Sessions.{session_remove}
use sdr_slc_rtld.Vita.Active.{active-lt, active-session_remove, length-session_remove}
use sdr_slc_rtld.Cp.World.{
  Session, World, ErrorCode, stream_open, missing_parameter, stream_not_found, put_session, update,
}
use sdr_slc_rtld.Cp.Access.{rx_release}
use sdr_slc_rtld.Cp.Lifecycle.{drop_token, stop_reading}
use sdr_slc_rtld.Cp.Cmd.{◌>>=◌, pure, gets, modify, edit, fail, refuse_if, require, send_error}
use sdr_slc_rtld.Cp.Stream.{params_key, require_stream, stop_stream, close_session}
use sdr_slc_rtld.Cp.Checks.{bind-passed, bind-failed, require_stream-Checks}
use sdr_slc_rtld.Cp.Phase.{
  Phase, free_rx, claimed_rx, open_rx, streaming_rx, Represents, Stage, stage, stage_at, owner_of,
  count_of, runs_in, token_in, at_rest, claimed, holding, flowing, Goes,
}
use sdr_slc_rtld.Cp.Phase.Keeps.{broadcast-Represents}
use sdr_slc_rtld.Cp.Phase.Stages.{
  rest-has_stream, claimed-has_stream, flowing-token, holding-token, let_go-stage,
  drop_flowing-stage, end_flowing-stage,
}
use sdr_slc_rtld.Cp.Phase.Access.{
  eq_refl, eq_true, only_slot, rest_everywhere, own_stage, other_stage,
}
use sdr_slc_rtld.Cp.Phase.Open.{Goes-nowhere, send_error-Represents}
use sdr_slc_rtld.Cp.Phase.Start.{announce-Represents}

-- The phases in which session i has a stream.
pub data Holds (i : ℕ) : Phase → Type 0 where
  holds_open : Holds i (open_rx i)
  holds_streaming : (t : ℕ) → Holds i (streaming_rx i t)

module _ (i : ℕ) (s : Session) (h : s.has_stream ≡ true) where
  not_at_rest : {A : Type 0} → stage s ≡ at_rest → A
  not_at_rest e = let f = rest-has_stream s e in cc

  not_claimed : {A : Type 0} → stage s ≡ claimed → A
  not_claimed e = let f = claimed-has_stream s e in cc

  is_holder : (j : ℕ) (st : Stage) → stage s ≡ (if j == i then st else at_rest) → j ≡ i
  is_holder j st e = elim (Bool-cases (j == i)) [
    | inl same ↦ eq_true j i same
    | inr other ↦ not_at_rest (ground (arith, e, other))
  ]

  has_stream-Holds : (p : Phase) → stage s ≡ stage_at p i → Holds i p
  has_stream-Holds free_rx e = not_at_rest e
  has_stream-Holds (claimed_rx j) e = elim (Bool-cases (j == i)) [
    | inl same ↦ not_claimed (ground (arith, e, same))
    | inr other ↦ not_at_rest (ground (arith, e, other))
  ]
  has_stream-Holds (open_rx j) e =
      subst (λ k. Holds i (open_rx k)) (sym (is_holder j holding e)) holds_open
  has_stream-Holds (streaming_rx j t) e =
      subst (λ k. Holds i (streaming_rx k t)) (sym (is_holder j (flowing t) e)) (holds_streaming t)

module _ (i : ℕ) (id : Bytes) (m : Msg) (w : World) where
  -- Without a stream the three commands end with an error.
  require_stream-none :
      (w.table i).has_stream ≡ false
      → (c : ErrorCode) × (require_stream i id m w ≡ (none, send_error i id c w))
  unfolding require_stream ◌>>=◌ require fail gets refuse_if pure
  require_stream-none h = by_key (params_key m (codes "stream_id")) refl
    where
      by_key :
          (o : Option ℕ)
          → params_key m (codes "stream_id") ≡ o
          → (c : ErrorCode) × (require_stream i id m w ≡ (none, send_error i id c w))
      by_key none e = (missing_parameter, simp e)
      by_key (some k) e = (stream_not_found, simp (e, h))

  -- A command that needs the stream, by whether the session has one.
  pub with_stream :
      {p : Phase} (f : Unit {0} → World → Option (Unit {0}) × World)
      → Represents p w
      → (Holds i p → Goes i p (f tt w).1)
      → Goes i p ((require_stream i id m >>= f) w).1
  with_stream {p} f r k = elim (Bool-cases (w.table i).has_stream) [
    | inr h ↦
        let (c, e) = require_stream-none h in
        rw (bind-failed (require_stream i id m) f e)
          (Goes-nowhere i (send_error-Represents i id c r))
    | inl h ↦ elim ((require_stream-Checks i id m).at w) [
      | inl (a, e) ↦
          rw (bind-passed (require_stream i id m) f w e)
            (k (has_stream-Holds i (w.table i) h p (r.stages i)))
      | inr (c, e) ↦
          rw (bind-failed (require_stream i id m) f e)
            (Goes-nowhere i (send_error-Represents i id c r))
    ]
  ]

-- The tuner and the VITA session of a stream are given back.
abbrev pub dropped : ℕ → ℕ → World → World
dropped i t w = record (put_session i (record (w.table i) { vita_token = none }) w) {
  vita = session_remove t w.vita;
}

abbrev pub quiet : ℕ → ℕ → World → World
quiet i t w = stop_reading (dropped i t w)

pub drop_token-some :
    (i t : ℕ) (w : World) → (w.table i).vita_token ≡ some t → drop_token i w ≡ dropped i t w
unfolding drop_token
drop_token-some i t w e = rw (e, drop_token) refl

pub drop_token-none : (i : ℕ) (w : World) → (w.table i).vita_token ≡ none → drop_token i w ≡ w
unfolding drop_token
drop_token-none i w e = rw (e, drop_token) refl

module _ (i t : ℕ) {w : World} (r : Represents (streaming_rx i t) w) where
  pub own_flowing : stage (w.table i) ≡ flowing t
  own_flowing = own_stage i (flowing t) (w.table i) (r.stages i)

  pub token_below : t < 4
  token_below =
      let a = active-lt w.vita.sessions t (ground (arith, r.tokens t, eq_refl t)) in
      omega (arith, a, r.slots)

  -- What every way to end a streaming leaves of it, whatever is written to the session.
  pub ended-Represents :
      (p : Phase) (table : ℕ → Session)
      → count_of p ≡ 0
      → runs_in p ≡ false
      → ((u : ℕ) → token_in p u ≡ false)
      → ((j : ℕ) → stage (table j) ≡ stage_at p j)
      → Represents p (record (quiet i t w) { rx_owner = owner_of p; table = table })
  unfolding reset_adc_level
  ended-Represents p table cnt run tok st =
      let b = bridge_stop-last w.bridge r.count r.runs in
      record {
        owner = refl;
        stages = st;
        count = cc (b.0, cnt);
        runs = cc (b.1, run);
        slots = cc (length-session_remove t w.vita, r.slots);
        tokens = λ u.
            ground (arith, active-session_remove t w.vita u r.slots token_below, r.tokens u, tok u);
      }

  others_rest : (s : Session) (j : ℕ) → (i == j) ≡ false → stage (update w.table i s j) ≡ at_rest
  others_rest s j h = rw h (other_stage i (flowing t) j (w.table j) (r.stages j) h)

  stopped-Represents :
      Represents
        (open_rx i)
        (put_session i (record ((quiet i t w).table i) { state = stream_open }) (quiet i t w))
  stopped-Represents =
      subst
        (λ o. Represents (open_rx i) (record (quiet i t w) {
          rx_owner = o;
          table =
              update (quiet i t w).table i (record ((quiet i t w).table i) { state = stream_open });
        }))
        (sym r.owner)
        (ended-Represents (open_rx i) _ refl refl (λ u. refl)
          (only_slot i _ holding (quiet i t w).table
            (rw (eq_refl i) (drop_flowing-stage (w.table i) t own_flowing)) (others_rest _)))

  pub stop_stream-Represents : (id : Bytes) → Represents (open_rx i) (stop_stream i id w).1
  unfolding stop_stream ◌>>=◌ modify edit
  stop_stream-Represents id =
      rw (drop_token-some i t w (flowing-token (w.table i) t own_flowing))
        (announce-Represents i id false stopped-Represents)

module _ (i : ℕ) {w : World} where
  pub let_go-Represents : Represents (open_rx i) w → Represents free_rx (close_session false i w)
  unfolding close_session rx_release
  let_go-Represents r =
      let h = own_stage i holding (w.table i) (r.stages i) in
      simp (drop_token-none i w (holding-token (w.table i) h), r.owner, eq_refl i)
        (broadcast-Represents (some i) _ (record {
          owner = refl;
          count = r.count;
          runs = r.runs;
          slots = r.slots;
          tokens = r.tokens;
          stages =
              rest_everywhere i _ _ (let_go-stage (w.table i) h)
                (λ j e. rw e (other_stage i holding j (w.table j) (r.stages j) e));
        }))

  pub end_streaming-Represents :
      (t : ℕ) → Represents (streaming_rx i t) w → Represents free_rx (close_session true i w)
  unfolding close_session rx_release
  end_streaming-Represents t r =
      let h = own_flowing i t r in
      simp (drop_token-some i t w (flowing-token (w.table i) t h), r.owner, eq_refl i)
        (broadcast-Represents (some i) _ (
          ended-Represents i t r free_rx _ refl refl (λ u. refl)
            (rest_everywhere i _ _ (end_flowing-stage (w.table i) t h)
              (λ j e. rw e (other_stage i (flowing t) j (w.table j) (r.stages j) e)))))

-- ===== src/Cp/Phase/Open.antt =====
-- open_stream: from a free channel it opens a stream or leaves the channel free.
use sdr_slc_rtld.Base.{
  ℕ, ◌≡◌, true, false, Option, none, some, Bytes, ◌==◌, if◌then◌else◌, arith, Bool-cases, inl, inr,
  ◌⊎◌,
}
use sdr_slc_rtld.Json.Tokens.{Msg}
use sdr_slc_rtld.Cp.World.{Session, World, Input, ErrorCode, stream_already_open, in_use}
use sdr_slc_rtld.Cp.Access.{rx_claim, alloc_stream_id}
use sdr_slc_rtld.Cp.Cmd.{◌>>=◌, pure, gets, modify, edit, send_ok, fail, refuse_if, send_error}
use sdr_slc_rtld.Cp.Params.{require_function, channel_ok}
use sdr_slc_rtld.Cp.Stream.{
  Destination, opened_session, allocate_stream, claim_and_open, cmd_open_stream, read_transport,
}
use sdr_slc_rtld.Cp.Checks.{
  Checks, as_it_is, bind-passed, bind-failed, read_transport-Checks, require_function-Checks,
  channel_ok-Checks,
}
use sdr_slc_rtld.Cp.Phase.{
  Phase, free_rx, claimed_rx, open_rx, streaming_rx, Represents, Stage, stage, at_rest, claimed,
  holding, flowing, Goes, Moves, stays, opens, allocates, abandons,
}
use sdr_slc_rtld.Cp.Phase.Keeps.{broadcast-Represents, send_framed-Represents}
use sdr_slc_rtld.Cp.Phase.Stages.{
  claimed-has_stream, holding-has_stream, flowing-has_stream, rest-has_stream,
}
use sdr_slc_rtld.Cp.Phase.Access.{
  IsLive, eq_true, only_slot, own_stage, other_stage, claim_free, claim_again, claim_taken,
  release_claim,
}

pub open-stage :
    (n : ℕ) (d : Destination) (s : Session)
    → stage s ≡ claimed
    → stage (opened_session n d s) ≡ holding
open-stage n d s h = ground arith

-- A phase that stays, and the error message of a check.
pub Goes-nowhere : (i : ℕ) {p : Phase} {w : World} → Represents p w → Goes i p w
Goes-nowhere i {p} r = record { to = p; move = stays p; shows = r }

pub send_error-Represents :
    {p : Phase} (i : ℕ) (id : Bytes) (c : ErrorCode) {w : World}
    → Represents p w
    → Represents p (send_error i id c w)
unfolding send_error
send_error-Represents i id c r = send_framed-Represents i _ r

module _ {A B : Type 0} {i : ℕ} {id : Bytes} {p : Phase} where
  pub Goes-by-Checks :
      (m : World → Option A × World) (f : A → World → Option B × World) {w : World}
      → Checks i id as_it_is m
      → Represents p w
      → ((a : A) → Goes i p (f a w).1)
      → Goes i p ((m >>= f) w).1
  Goes-by-Checks m f {w} c r k = elim (c.at w) [
    | inl (a, e) ↦ rw (bind-passed m f w e) (k a)
    | inr (x, e) ↦ rw (bind-failed m f e) (Goes-nowhere i (send_error-Represents i id x r))
  ]

module _ (inp : Input) (i : ℕ) (id : Bytes) where
  pub allocate_stream-Represents :
      (d : Destination) {w : World}
      → Represents (claimed_rx i) w
      → Represents (open_rx i) (allocate_stream inp i id d w).1
  unfolding allocate_stream ◌>>=◌ alloc_stream_id edit modify gets send_ok
  allocate_stream-Represents d {w} r = broadcast-Represents (some i) _ (
      send_framed-Represents i _ (record {
        owner = r.owner;
        count = r.count;
        runs = r.runs;
        slots = r.slots;
        tokens = r.tokens;
        stages =
            only_slot i _ holding w.table
              (open-stage (alloc_stream_id w).0 d (w.table i)
                (own_stage i claimed (w.table i) (r.stages i)))
              (λ j h. other_stage i claimed j (w.table j) (r.stages j) h);
      }))

  -- Behind a claim that was given.
  pub transport-Represents :
      (m : Msg) (k : ℕ) {w : World}
      → Represents (claimed_rx i) w
      → (Represents free_rx ((read_transport i id m k >>= allocate_stream inp i id) w).1
          ⊎ Represents (open_rx i) ((read_transport i id m k >>= allocate_stream inp i id) w).1)
  transport-Represents m k {w} r = elim ((read_transport-Checks i id m k).at w) [
    | inl (d, e) ↦
        rw (bind-passed (read_transport i id m k) (allocate_stream inp i id) w e)
          (inr (allocate_stream-Represents d r))
    | inr (x, e) ↦
        rw (bind-failed (read_transport i id m k) (allocate_stream inp i id) e)
          (inl (send_error-Represents i id x (release_claim i r)))
  ]

  module _ (m : Msg) (k : ℕ) (w : World) where
    open_refused :
        (w.table i).has_stream ≡ true
        → claim_and_open inp i id m k w ≡ (none, send_error i id stream_already_open w)
    unfolding claim_and_open ◌>>=◌ gets refuse_if fail
    open_refused h = simp h

    open_denied :
        (w.table i).has_stream ≡ false
        → rx_claim i w ≡ (false, w)
        → claim_and_open inp i id m k w ≡ (none, send_error i id in_use w)
    unfolding claim_and_open ◌>>=◌ gets refuse_if fail pure
    open_denied h e = simp (h, e)

    open_given :
        (w.table i).has_stream ≡ false
        → (rx_claim i w).0 ≡ true
        → claim_and_open inp i id m k w
          ≡ (read_transport i id m k >>= allocate_stream inp i id) (rx_claim i w).1
    unfolding claim_and_open ◌>>=◌ gets refuse_if fail pure
    open_given h e = simp (h, e)

    from_claim :
        {p : Phase}
        → (w.table i).has_stream ≡ false
        → (rx_claim i w).0 ≡ true
        → Represents (claimed_rx i) (rx_claim i w).1
        → Moves i p free_rx
        → Moves i p (open_rx i)
        → Goes i p (claim_and_open inp i id m k w).1
    from_claim h e r back on = rw (open_given h e) (elim (transport-Represents m k r) [
      | inl r₀ ↦ record { to = free_rx; move = back; shows = r₀ }
      | inr r₁ ↦ record { to = open_rx i; move = on; shows = r₁ }
    ])

    from_held :
        {p : Phase}
        → (w.table i).has_stream ≡ true
        → Represents p w
        → Goes i p (claim_and_open inp i id m k w).1
    from_held h r =
        rw (open_refused h) (Goes-nowhere i (send_error-Represents i id stream_already_open r))

    from_taken :
        {p : Phase} (j : ℕ)
        → w.rx_owner ≡ some j
        → (j == i) ≡ false
        → stage (w.table i) ≡ at_rest
        → Represents p w
        → Goes i p (claim_and_open inp i id m k w).1
    from_taken j own other rest r =
        rw (open_denied (rest-has_stream (w.table i) rest) (claim_taken i j own other))
          (Goes-nowhere i (send_error-Represents i id in_use r))

    -- The holder of a phase that is not free, or another session.
    by_holder :
        {p : Phase} (j : ℕ) (st : Stage)
        → w.rx_owner ≡ some j
        → stage (w.table i) ≡ (if j == i then st else at_rest)
        → Represents p w
        → (j ≡ i → stage (w.table i) ≡ st → Goes i p (claim_and_open inp i id m k w).1)
        → Goes i p (claim_and_open inp i id m k w).1
    by_holder j st own at r mine = elim (Bool-cases (j == i)) [
      | inl same ↦ mine (eq_true j i same) (ground (arith, at, same))
      | inr other ↦ from_taken j own other (ground (arith, at, other)) r
    ]

    pub claim_and_open-Goes :
        (p : Phase) → Represents p w → IsLive i w → Goes i p (claim_and_open inp i id m k w).1
    claim_and_open-Goes free_rx r live =
        let c = claim_free i r live in
        from_claim (rest-has_stream (w.table i) (r.stages i)) c.0 c.1 (stays free_rx) opens
    claim_and_open-Goes (claimed_rx j) r live =
        by_holder j claimed r.owner (r.stages i) r (λ e at. again j e r at)
      where
        again :
            (j : ℕ)
            → j ≡ i
            → Represents (claimed_rx j) w
            → stage (w.table i) ≡ claimed
            → Goes i (claimed_rx j) (claim_and_open inp i id m k w).1
        again j e r at = rw e (
            let r' : Represents (claimed_rx i) w = rw (← e) r in
            let c = claim_again i r' in
            from_claim (claimed-has_stream (w.table i) at) c.0 c.1 abandons allocates)
    claim_and_open-Goes (open_rx j) r live =
        by_holder j holding r.owner (r.stages i) r
          (λ e at. from_held (holding-has_stream (w.table i) at) r)
    claim_and_open-Goes (streaming_rx j t) r live =
        by_holder j (flowing t) r.owner (r.stages i) r
          (λ e at. from_held (flowing-has_stream (w.table i) t at) r)

  -- open_stream from session i, whatever its parameters are: a free channel is opened for the
  -- session or stays free, and in a phase that a session holds with a stream the phase stays.
  pub cmd_open_stream-Goes :
      (m : Msg) (p : Phase) {w : World}
      → Represents p w
      → IsLive i w
      → Goes i p (cmd_open_stream inp i id m w).1
  unfolding cmd_open_stream
  cmd_open_stream-Goes m p {w} r live =
      Goes-by-Checks (require_function i id m) _ (require_function-Checks i id m) r (λ k.
        Goes-by-Checks (channel_ok i id m k) _ (channel_ok-Checks i id m k) r
          (λ _. claim_and_open-Goes m k w p r live))

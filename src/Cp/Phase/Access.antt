-- ===== src/Cp/Phase/Access.antt =====
-- Claiming and releasing the rx channel.
use sdr_slc_rtld.Base.{
  ℕ, ◌≡◌, refl, true, false, some, ◌==◌, if◌then◌else◌, arith, Bool-cases, inl, inr,
}
use sdr_slc_rtld.Cp.World.{Session, World, update}
use sdr_slc_rtld.Cp.Access.{rx_claim, rx_release}
use sdr_slc_rtld.Cp.Phase.{free_rx, claimed_rx, Represents, Stage, stage, at_rest, claimed}
use sdr_slc_rtld.Cp.Phase.Keeps.{broadcast-Represents}
use sdr_slc_rtld.Cp.Phase.Stages.{claim-stage, claim_again-stage, release-stage}

abbrev pub IsLive : ℕ → World → Type 0
IsLive i w = ((w.table i).fd == 0) ≡ false

pub eq_refl : (i : ℕ) → (i == i) ≡ true
eq_refl i = ground arith

pub eq_true : (i j : ℕ) → (i == j) ≡ true → i ≡ j
eq_true i j h = ground arith

-- The stages after slot i has been written, where every other slot is at rest.
pub only_slot :
    (i : ℕ) (s : Session) (st : Stage) (table : ℕ → Session)
    → stage s ≡ st
    → ((j : ℕ) → (i == j) ≡ false → stage (table j) ≡ at_rest)
    → (j : ℕ) → stage (update table i s j) ≡ (if i == j then st else at_rest)
only_slot i s st table own rest j = elim (Bool-cases (i == j)) [
  | inl same ↦ rw same own
  | inr other ↦ rw other (rest j other)
]

pub rest_everywhere :
    (i : ℕ) (s : Session) (table : ℕ → Session)
    → stage s ≡ at_rest
    → ((j : ℕ) → (i == j) ≡ false → stage (table j) ≡ at_rest)
    → (j : ℕ) → stage (update table i s j) ≡ at_rest
rest_everywhere i s table own rest j = elim (Bool-cases (i == j)) [
  | inl same ↦ rw same own
  | inr other ↦ rw other (rest j other)
]

pub claim_free :
    (i : ℕ) {w : World}
    → Represents free_rx w
    → IsLive i w
    → ((rx_claim i w).0 ≡ true) × Represents (claimed_rx i) (rx_claim i w).1
unfolding rx_claim
claim_free i {w} r live = rw r.owner (
  refl,
  record {
    owner = refl;
    count = r.count;
    runs = r.runs;
    slots = r.slots;
    tokens = r.tokens;
    stages =
        only_slot i _ claimed w.table (claim-stage (w.table i) (r.stages i) live)
          (λ j h. r.stages j);
  },
)

-- The session that a phase names is in the stage of that phase.
module _ (i : ℕ) (st : Stage) where
  pub own_stage : (s : Session) → stage s ≡ (if i == i then st else at_rest) → stage s ≡ st
  own_stage s h = ground (arith, eq_refl i)

  pub other_stage :
      (j : ℕ) (s : Session)
      → stage s ≡ (if i == j then st else at_rest)
      → (i == j) ≡ false
      → stage s ≡ at_rest
  other_stage j s h e = ground arith

pub claim_again :
    (i : ℕ) {w : World}
    → Represents (claimed_rx i) w
    → ((rx_claim i w).0 ≡ true) × Represents (claimed_rx i) (rx_claim i w).1
unfolding rx_claim
claim_again i {w} r = rw r.owner (
    rw (eq_refl i) (
      refl,
      record {
        owner = refl;
        count = r.count;
        runs = r.runs;
        slots = r.slots;
        tokens = r.tokens;
        stages =
            only_slot i _ claimed w.table
              (claim_again-stage (w.table i) (own_stage i claimed (w.table i) (r.stages i)))
              (λ j h. other_stage i claimed j (w.table j) (r.stages j) h);
      },
    ))

-- The channel of another session cannot be claimed.
pub claim_taken :
    (i : ℕ) {w : World} (j : ℕ) → w.rx_owner ≡ some j → (j == i) ≡ false → rx_claim i w ≡ (false, w)
unfolding rx_claim
claim_taken i j e other = rw e (rw other refl)

-- What is left of a phase when its holder has let go of everything but the claim.
pub release_claim :
    (i : ℕ) {w : World} → Represents (claimed_rx i) w → Represents free_rx (rx_release i w)
unfolding rx_release
release_claim i {w} r = rw r.owner (
    rw (eq_refl i) (
      broadcast-Represents (some i) _ (record {
        owner = refl;
        count = r.count;
        runs = r.runs;
        slots = r.slots;
        tokens = r.tokens;
        stages = λ j.
            rest_everywhere i _ w.table
              (release-stage (w.table i) (own_stage i claimed (w.table i) (r.stages i)))
              (λ k h. other_stage i claimed k (w.table k) (r.stages k) h) j;
      })))

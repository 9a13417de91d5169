-- ===== src/Cp/Phase/Keeps.antt =====
-- Parts of command handlers that leave the phase of the rx channel as it is.
use sdr_slc_rtld.Base.{
  ℕ, ◌≡◌, Bool, true, false, Option, none, some, Bytes, ◌==◌, if◌then◌else◌, arith, Bool-cases, inl,
  inr,
}
use sdr_slc_rtld.Rtl.Bridge.{Bridge}
use sdr_slc_rtld.Cp.World.{Session, World, Frame, Event, Answer, ErrorCode, put_session}
use sdr_slc_rtld.Cp.Access.{send_framed, broadcast}
use sdr_slc_rtld.Cp.Cmd.{
  ◌>>=◌, continue, pure, gets, modify, fail, refuse_if, require, edit, send_ok, send_event,
}
use sdr_slc_rtld.Cp.Config.{on_bridge}
use sdr_slc_rtld.Cp.Phase.{Phase, Represents, stage, stage_at}

pub record KeepsWorld (p : Phase) (f : World → World) : Type 0 where
  pub at : (w : World) → Represents p w → Represents p (f w)

pub record Keeps {ℓ} {A : Type ℓ} (p : Phase) (m : World → Option A × World) : Type ℓ where
  pub at : (w : World) → Represents p w → Represents p (m w).1

-- What a phase reads of the bridge.
abbrev pub SameCount : Bridge → Bridge → Type 0
SameCount b b' = (b'.stream_count ≡ b.stream_count) × (b'.running ≡ b.running)

module _ {p : Phase} where
  pub send_framed-Represents :
      (i : ℕ) (f : Frame) {w : World} → Represents p w → Represents p (send_framed i f w)
  unfolding send_framed
  send_framed-Represents i f {w} r = elim (Bool-cases ((w.table i).fd == 0)) [
    | inl e ↦ rw e r
    | inr e ↦ rw e (record {
      owner = r.owner;
      stages = r.stages;
      count = r.count;
      runs = r.runs;
      slots = r.slots;
      tokens = r.tokens;
    })
  ]

  pub broadcast-Represents :
      (skip : Option ℕ) (e : Event) {w : World} → Represents p w → Represents p (broadcast skip e w)
  unfolding broadcast
  broadcast-Represents skip e r = record {
    owner = r.owner;
    stages = r.stages;
    count = r.count;
    runs = r.runs;
    slots = r.slots;
    tokens = r.tokens;
  }

  -- A write to one slot whose stage is still the one of the phase.
  pub put_session-Represents :
      (i : ℕ) (s : Session) {w : World}
      → stage s ≡ stage_at p i
      → Represents p w
      → Represents p (put_session i s w)
  put_session-Represents i s {w} e r = record {
    owner = r.owner;
    count = r.count;
    runs = r.runs;
    slots = r.slots;
    tokens = r.tokens;
    stages = λ j. elim (Bool-cases (i == j)) [
      | inl same ↦ rw same (let q : i ≡ j = ground arith in rw (← q) e)
      | inr other ↦ rw other (r.stages j)
    ];
  }

  pub bridge-Represents :
      {w : World} (b : Bridge)
      → SameCount w.bridge b
      → Represents p w
      → Represents p (record w { bridge = b })
  bridge-Represents b h r = record {
    owner = r.owner;
    stages = r.stages;
    slots = r.slots;
    tokens = r.tokens;
    count = cc (r.count);
    runs = cc (r.runs);
  }

  pub Keeps-pure {ℓ} : {A : Type ℓ} (a : A) → Keeps p (pure a)
  unfolding pure
  Keeps-pure a = record { at = λ w r. r }

  pub Keeps-gets {ℓ} : {A : Type ℓ} (f : World → A) → Keeps p (gets f)
  unfolding gets
  Keeps-gets f = record { at = λ w r. r }

  pub Keeps-modify : (f : World → World) → KeepsWorld p f → Keeps p (modify f)
  unfolding modify
  Keeps-modify f k = record { at = k.at }

  pub Keeps-fail {ℓ} :
      {A : Type ℓ} (i : ℕ) (id : Bytes) (c : ErrorCode) → Keeps p (fail {A = A} i id c)
  unfolding fail
  Keeps-fail i id c = record { at = λ w r. send_framed-Represents i _ r }

  pub Keeps-refuse_if :
      (bad : Bool) (i : ℕ) (id : Bytes) (c : ErrorCode) → Keeps p (refuse_if bad i id c)
  unfolding refuse_if
  Keeps-refuse_if true i id c = record { at = λ w r. send_framed-Represents i _ r }
  Keeps-refuse_if false i id c = record { at = λ w r. r }

  pub Keeps-require {ℓ} :
      {A : Type ℓ} (o : Option A) (i : ℕ) (id : Bytes) (c : ErrorCode) → Keeps p (require o i id c)
  unfolding require
  Keeps-require none i id c = record { at = λ w r. send_framed-Represents i _ r }
  Keeps-require (some a) i id c = record { at = λ w r. r }

  pub Keeps-send_ok : (i : ℕ) (id : Bytes) (a : Answer) → Keeps p (send_ok i id a)
  unfolding send_ok
  Keeps-send_ok i id a = record { at = λ w r. send_framed-Represents i _ r }

  pub Keeps-send_event : (i : ℕ) (e : Event) → Keeps p (send_event i e)
  unfolding send_event
  Keeps-send_event i e = record { at = λ w r. send_framed-Represents i _ r }

  pub Keeps-broadcast : (skip : Option ℕ) (e : Event) → KeepsWorld p (broadcast skip e)
  Keeps-broadcast skip e = record { at = λ w r. broadcast-Represents skip e r }

  pub Keeps-on_bridge {ℓ} :
      {A : Type ℓ} (f : Bridge → A × Bridge)
      → ((b : Bridge) → SameCount b (f b).1)
      → Keeps p (on_bridge f)
  unfolding on_bridge
  Keeps-on_bridge f h = record { at = λ w r. bridge-Represents (f w.bridge).1 (h w.bridge) r }

  pub Keeps-edit_at :
      (i : ℕ) (f : Session → Session)
      → ((s : Session) → stage s ≡ stage_at p i → stage (f s) ≡ stage_at p i)
      → Keeps p (edit i f)
  unfolding edit
  Keeps-edit_at i f h = record {
    at = λ w r. put_session-Represents i (f (w.table i)) (h (w.table i) (r.stages i)) r;
  }

  pub Keeps-edit :
      (i : ℕ) (f : Session → Session) → ((s : Session) → stage (f s) ≡ stage s) → Keeps p (edit i f)
  unfolding edit
  Keeps-edit i f h = record {
    at = λ w r. put_session-Represents i (f (w.table i)) (cc (h (w.table i), r.stages i)) r;
  }

  pub Keeps-if {ℓ} :
      {A : Type ℓ} (b : Bool) (m n : World → Option A × World)
      → Keeps p m
      → Keeps p n
      → Keeps p (if b then m else n)
  Keeps-if true m n km kn = km
  Keeps-if false m n km kn = kn

module _ {ℓ} {A B : Type ℓ} {p : Phase} where
  continue-Represents :
      (o : Option A) (f : A → World → Option B × World) (w : World)
      → ((a : A) → Keeps p (f a))
      → Represents p w
      → Represents p (continue o f w).1
  continue-Represents none f w k r = r
  continue-Represents (some a) f w k r = (k a).at w r

  pub Keeps-bind :
      (m : World → Option A × World) (f : A → World → Option B × World)
      → Keeps p m
      → ((a : A) → Keeps p (f a))
      → Keeps p (m >>= f)
  unfolding ◌>>=◌
  Keeps-bind m f km kf = record { at = λ w r. continue-Represents (m w).0 f (m w).1 kf (km.at w r) }

pub ruleset keeps_rules = (
  Keeps-pure, Keeps-gets, Keeps-modify, Keeps-fail, Keeps-refuse_if, Keeps-require, Keeps-send_ok,
  Keeps-send_event, Keeps-broadcast, Keeps-if, Keeps-bind,
)

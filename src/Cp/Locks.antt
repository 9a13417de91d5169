-- ===== src/Cp/Locks.antt =====
-- Parts of command handlers that unlock rx for no session, lock it for none, and keep descriptors.
pub mod Commands
pub mod Streams
pub mod Unlocks
use sdr_slc_rtld.Base.{
  ℕ, ◌≡◌, refl, ◌∙◌, Bool, true, false, Option, none, some, Bytes, ◌==◌, if◌then◌else◌, Bool-cases,
  inl, inr, arith,
}
use sdr_slc_rtld.Rtl.Bridge.{Bridge}
use sdr_slc_rtld.Cp.World.{Session, World, Frame, Event, Answer, ErrorCode, put_session}
use sdr_slc_rtld.Cp.Access.{send_framed, broadcast}
use sdr_slc_rtld.Cp.Cmd.{
  ◌>>=◌, continue, pure, gets, modify, fail, refuse_if, require, edit, send_ok, send_event,
}
use sdr_slc_rtld.Cp.Config.{on_bridge}
use sdr_slc_rtld.Cp.Control.{just_bridge}

-- What the commands but authenticate leave of a session: whether it has unlocked rx, and its
-- descriptor.
abbrev pub lock_of : Session → Bool × ℕ
lock_of s = (s.rx_unlocked, s.fd)

abbrev pub SameLocks : World → World → Type 0
SameLocks w w' = (j : ℕ) → lock_of (w'.table j) ≡ lock_of (w.table j)

pub SameLocks-trans : (u v w : World) → SameLocks u v → SameLocks v w → SameLocks u w
SameLocks-trans u v w a b j = b j ∙ a j

pub send_framed-SameLocks : (i : ℕ) (f : Frame) (w : World) → SameLocks w (send_framed i f w)
unfolding send_framed
send_framed-SameLocks i f w j = elim (Bool-cases ((w.table i).fd == 0)) [
  | inl e ↦ rw e refl
  | inr e ↦ rw e refl
]

pub put_session-SameLocks :
    (i : ℕ) (s : Session) (w : World)
    → lock_of s ≡ lock_of (w.table i)
    → SameLocks w (put_session i s w)
put_session-SameLocks i s w h j = elim (Bool-cases (i == j)) [
  | inl same ↦ rw same (let q : i ≡ j = ground arith in rw (← q) h)
  | inr other ↦ rw other refl
]

pub record Locks {ℓ} {A : Type ℓ} (m : World → Option A × World) : Type ℓ where
  pub at : (w : World) → SameLocks w (m w).1

pub record LocksWorld (f : World → World) : Type 0 where
  pub at : (w : World) → SameLocks w (f w)

pub LocksWorld-chain :
    (f g : World → World) → LocksWorld f → LocksWorld g → LocksWorld (λ w. g (f w))
LocksWorld-chain f g a b = record {
  at = λ w. SameLocks-trans w (f w) (g (f w)) (a.at w) (b.at (f w));
}

pub Locks-pure {ℓ} : {A : Type ℓ} (a : A) → Locks (pure a)
unfolding pure
Locks-pure a = record { at = λ w j. refl }

pub Locks-gets {ℓ} : {A : Type ℓ} (f : World → A) → Locks (gets f)
unfolding gets
Locks-gets f = record { at = λ w j. refl }

pub Locks-modify : (f : World → World) → LocksWorld f → Locks (modify f)
unfolding modify
Locks-modify f k = record { at = k.at }

pub Locks-fail {ℓ} : {A : Type ℓ} (i : ℕ) (id : Bytes) (c : ErrorCode) → Locks (fail {A = A} i id c)
unfolding fail
Locks-fail i id c = record { at = send_framed-SameLocks i _ }

pub Locks-refuse_if :
    (bad : Bool) (i : ℕ) (id : Bytes) (c : ErrorCode) → Locks (refuse_if bad i id c)
unfolding refuse_if fail pure
Locks-refuse_if true i id c = record { at = send_framed-SameLocks i _ }
Locks-refuse_if false i id c = record { at = λ w j. refl }

pub Locks-require {ℓ} :
    {A : Type ℓ} (o : Option A) (i : ℕ) (id : Bytes) (c : ErrorCode) → Locks (require o i id c)
unfolding require fail pure
Locks-require none i id c = record { at = send_framed-SameLocks i _ }
Locks-require (some a) i id c = record { at = λ w j. refl }

pub Locks-send_ok : (i : ℕ) (id : Bytes) (a : Answer) → Locks (send_ok i id a)
unfolding send_ok modify
Locks-send_ok i id a = record { at = send_framed-SameLocks i _ }

pub Locks-send_event : (i : ℕ) (e : Event) → Locks (send_event i e)
unfolding send_event modify
Locks-send_event i e = record { at = send_framed-SameLocks i _ }

pub Locks-broadcast : (skip : Option ℕ) (e : Event) → LocksWorld (broadcast skip e)
unfolding broadcast
Locks-broadcast skip e = record { at = λ w j. refl }

pub Locks-on_bridge {ℓ} : {A : Type ℓ} (f : Bridge → A × Bridge) → Locks (on_bridge f)
unfolding on_bridge
Locks-on_bridge f = record { at = λ w j. refl }

pub Locks-just_bridge : (f : Bridge → Bridge) → Locks (just_bridge f)
unfolding modify
Locks-just_bridge f = record { at = λ w j. refl }

pub Locks-edit :
    (i : ℕ) (f : Session → Session) → ((s : Session) → lock_of (f s) ≡ lock_of s) → Locks (edit i f)
unfolding edit modify
Locks-edit i f h = record { at = λ w. put_session-SameLocks i _ w (h (w.table i)) }

pub Locks-if {ℓ} :
    {A : Type ℓ} (b : Bool) (m n : World → Option A × World)
    → Locks m
    → Locks n
    → Locks (if b then m else n)
Locks-if true m n km kn = km
Locks-if false m n km kn = kn

module _ {ℓ} {A B : Type ℓ} where
  continue-SameLocks :
      (o : Option A) (f : A → World → Option B × World) (w : World)
      → ((a : A) → Locks (f a))
      → SameLocks w (continue o f w).1
  continue-SameLocks none f w k = λ j. refl
  continue-SameLocks (some a) f w k = (k a).at w

  pub Locks-bind :
      (m : World → Option A × World) (f : A → World → Option B × World)
      → Locks m
      → ((a : A) → Locks (f a))
      → Locks (m >>= f)
  unfolding ◌>>=◌
  Locks-bind m f km kf = record {
    at = λ w.
        SameLocks-trans w (m w).1 (continue (m w).0 f (m w).1).1 (km.at w)
          (continue-SameLocks (m w).0 f (m w).1 kf);
  }

pub ruleset locks_rules = (
  Locks-pure, Locks-gets, Locks-modify, Locks-fail, Locks-refuse_if, Locks-require, Locks-send_ok,
  Locks-send_event, Locks-broadcast, Locks-on_bridge, Locks-just_bridge, Locks-edit, Locks-if,
  Locks-bind,
)

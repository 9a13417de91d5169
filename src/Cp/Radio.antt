-- ===== src/Cp/Radio.antt =====
-- Parts of command handlers that do not touch the radio: the bridge, the VITA table and the owner
-- of rx.
use sdr_slc_rtld.Base.{
  ℕ, ◌≡◌, refl, ◌∙◌, Bool, true, false, Option, none, some, [], ◌∷◌, List, Bytes, ◌==◌,
  if◌then◌else◌, Bool-cases, inl, inr,
}
use sdr_slc_rtld.Base.Int.{ℤ, pos}
use sdr_slc_rtld.Json.Tokens.{Msg}
use sdr_slc_rtld.Rtl.Bridge.{Device}
use sdr_slc_rtld.Rtl.Control.{gain_list}
use sdr_slc_rtld.Cp.World.{Session, World, Frame, Answer, ErrorCode, Input, put_session}
use sdr_slc_rtld.Cp.Access.{send_framed}
use sdr_slc_rtld.Cp.Cmd.{
  ◌>>=◌, continue, pure, gets, modify, fail, refuse_if, require, edit, send_ok, send_error,
}
use sdr_slc_rtld.Cp.Params.{require_function, channel_ok}
use sdr_slc_rtld.Cp.Envelope.{
  Attempt, cmd_hello, cmd_authenticate, cmd_get_capabilities, cmd_ping, load_gain_table, nearest,
  attempt_with, try_attempt, accepts, roll_window,
}
use sdr_slc_rtld.Cp.Config.{cmd_get_status, cmd_get_clock_status}
use sdr_slc_rtld.Cp.Control.{cmd_get_control}

abbrev pub SameRadio : World → World → Type 0
SameRadio w w' = (w'.bridge ≡ w.bridge) × (w'.vita ≡ w.vita) × (w'.rx_owner ≡ w.rx_owner)

pub SameRadio-trans : (u v w : World) → SameRadio u v → SameRadio v w → SameRadio u w
SameRadio-trans u v w (a, b, c) (a', b', c') = (a' ∙ a, b' ∙ b, c' ∙ c)

pub send_framed-SameRadio : (i : ℕ) (f : Frame) (w : World) → SameRadio w (send_framed i f w)
unfolding send_framed
send_framed-SameRadio i f w = elim (Bool-cases ((w.table i).fd == 0)) [
  | inl e ↦ rw e (refl, refl, refl)
  | inr e ↦ rw e (refl, refl, refl)
]

pub send_error-SameRadio :
    (i : ℕ) (id : Bytes) (c : ErrorCode) (w : World) → SameRadio w (send_error i id c w)
unfolding send_error
send_error-SameRadio i id c w = send_framed-SameRadio i _ w

pub record Spares {ℓ} {A : Type ℓ} (m : World → Option A × World) : Type ℓ where
  pub at : (w : World) → SameRadio w (m w).1

pub record SparesWorld (f : World → World) : Type 0 where
  pub at : (w : World) → SameRadio w (f w)

Spares-pure {ℓ} : {A : Type ℓ} (a : A) → Spares (pure a)
unfolding pure
Spares-pure a = record { at = λ w. (refl, refl, refl) }

Spares-gets {ℓ} : {A : Type ℓ} (f : World → A) → Spares (gets f)
unfolding gets
Spares-gets f = record { at = λ w. (refl, refl, refl) }

Spares-modify : (f : World → World) → SparesWorld f → Spares (modify f)
unfolding modify
Spares-modify f k = record { at = k.at }

Spares-fail {ℓ} : {A : Type ℓ} (i : ℕ) (id : Bytes) (c : ErrorCode) → Spares (fail {A = A} i id c)
unfolding fail
Spares-fail i id c = record { at = send_error-SameRadio i id c }

Spares-refuse_if : (bad : Bool) (i : ℕ) (id : Bytes) (c : ErrorCode) → Spares (refuse_if bad i id c)
unfolding refuse_if fail pure
Spares-refuse_if true i id c = record { at = send_error-SameRadio i id c }
Spares-refuse_if false i id c = record { at = λ w. (refl, refl, refl) }

Spares-require {ℓ} :
    {A : Type ℓ} (o : Option A) (i : ℕ) (id : Bytes) (c : ErrorCode) → Spares (require o i id c)
unfolding require fail pure
Spares-require none i id c = record { at = send_error-SameRadio i id c }
Spares-require (some a) i id c = record { at = λ w. (refl, refl, refl) }

Spares-send_ok : (i : ℕ) (id : Bytes) (a : Answer) → Spares (send_ok i id a)
unfolding send_ok modify
Spares-send_ok i id a = record { at = send_framed-SameRadio i _ }

Spares-edit : (i : ℕ) (f : Session → Session) → Spares (edit i f)
unfolding edit modify
Spares-edit i f = record { at = λ w. (refl, refl, refl) }

Spares-if {ℓ} :
    {A : Type ℓ} (b : Bool) (m n : World → Option A × World)
    → Spares m
    → Spares n
    → Spares (if b then m else n)
Spares-if true m n km kn = km
Spares-if false m n km kn = kn

module _ {ℓ} {A B : Type ℓ} where
  continue-SameRadio :
      (o : Option A) (f : A → World → Option B × World) (w : World)
      → ((a : A) → Spares (f a))
      → SameRadio w (continue o f w).1
  continue-SameRadio none f w k = (refl, refl, refl)
  continue-SameRadio (some a) f w k = (k a).at w

  Spares-bind :
      (m : World → Option A × World) (f : A → World → Option B × World)
      → Spares m
      → ((a : A) → Spares (f a))
      → Spares (m >>= f)
  unfolding ◌>>=◌
  Spares-bind m f km kf = record {
    at = λ w.
        SameRadio-trans w (m w).1 (continue (m w).0 f (m w).1).1 (km.at w)
          (continue-SameRadio (m w).0 f (m w).1 kf);
  }

ruleset spares_rules = (
  Spares-pure, Spares-gets, Spares-modify, Spares-fail, Spares-refuse_if, Spares-require,
  Spares-send_ok, Spares-edit, Spares-if, Spares-bind,
)

load_gain_table-Spares : (dev : Device) → SparesWorld (load_gain_table dev)
unfolding load_gain_table
load_gain_table-Spares dev = record { at = λ w. by_gains w w.gains (gain_list dev w.bridge) }
  where
    by_gains :
        (w : World) (o : Option (List ℤ)) (gs : List ℤ)
        → SameRadio w (elim o as (λ _. World) [
          | some gs ↦ w
          | none ↦ (elim gs as (λ _. World) [
            | [] ↦ record w { gains = some []; gain_default = pos 200 }
            | g ∷ gs ↦ record w { gains = some (g ∷ gs); gain_default = nearest g gs }
          ])
        ])
    by_gains w (some x) gs = (refl, refl, refl)
    by_gains w none [] = (refl, refl, refl)
    by_gains w none (g ∷ gs) = (refl, refl, refl)

try_attempt-Spares :
    (inp : Input) (i : ℕ) (id : Bytes) (a : Attempt) → SparesWorld (try_attempt inp i id a)
unfolding try_attempt
try_attempt-Spares inp i id a = record {
  at = λ w. elim (Bool-cases (accepts w.keys (roll_window inp.mono_ns (w.table i)) a)) [
    | inl e ↦ rw e (send_framed-SameRadio i _ (put_session i _ w))
    | inr e ↦ rw e (send_framed-SameRadio i _ (put_session i _ w))
  ];
}

module _ (i : ℕ) (id : Bytes) where
  module _ (m : Msg) where
    pub cmd_hello-Spares : (inp : Input) → Spares (cmd_hello inp i id m)
    unfolding cmd_hello
    cmd_hello-Spares inp = search spares_rules depth 24

    attempt_with-Spares : (inp : Input) → Spares (attempt_with inp i id m)
    unfolding attempt_with
    attempt_with-Spares inp = search (spares_rules, try_attempt-Spares)

    pub cmd_authenticate-Spares : (inp : Input) → Spares (cmd_authenticate inp i id m)
    unfolding cmd_authenticate
    cmd_authenticate-Spares inp = search (spares_rules, attempt_with-Spares) depth 12

    require_function-Spares : Spares (require_function i id m)
    unfolding require_function
    require_function-Spares = search spares_rules depth 12

    channel_ok-Spares : (p : ℕ) → Spares (channel_ok i id m p)
    unfolding channel_ok
    channel_ok-Spares p = search spares_rules

    pub cmd_get_control-Spares : Spares (cmd_get_control i id m)
    unfolding cmd_get_control
    cmd_get_control-Spares =
        search (spares_rules, require_function-Spares, channel_ok-Spares) depth 24

  pub cmd_get_capabilities-Spares : (dev : Device) → Spares (cmd_get_capabilities dev i id)
  unfolding cmd_get_capabilities
  cmd_get_capabilities-Spares dev = search (spares_rules, load_gain_table-Spares) depth 12

  pub cmd_ping-Spares : Spares (cmd_ping i id)
  unfolding cmd_ping
  cmd_ping-Spares = search spares_rules

  pub cmd_get_status-Spares : (inp : Input) → Spares (cmd_get_status inp i id)
  unfolding cmd_get_status
  cmd_get_status-Spares inp = search spares_rules

  pub cmd_get_clock_status-Spares : (inp : Input) → Spares (cmd_get_clock_status inp i id)
  unfolding cmd_get_clock_status
  cmd_get_clock_status-Spares inp = search spares_rules

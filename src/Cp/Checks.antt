-- ===== src/Cp/Checks.antt =====
-- Checks at the head of a command handler: they pass and change nothing, or they answer with an
-- error and return. What else a check that fails does is `back`: nothing, or the release of rx.
use sdr_slc_rtld.Base.{ℕ, ◌≡◌, refl, Bool, true, false, Option, none, some, Bytes, ◌⊎◌, inl, inr}
use sdr_slc_rtld.Json.Tokens.{Msg}
use sdr_slc_rtld.Cp.World.{World, ErrorCode}
use sdr_slc_rtld.Cp.Access.{rx_release}
use sdr_slc_rtld.Cp.Cmd.{◌>>=◌, pure, gets, refuse_if, require, send_error}
use sdr_slc_rtld.Cp.Params.{require_function, channel_ok, may_configure, configuring}
use sdr_slc_rtld.Cp.Stream.{require_stream, release_if, require_held, read_transport}

abbrev pub as_it_is : World → World
as_it_is w = w

abbrev pub Passes {ℓ} :
    {A : Type ℓ} → ℕ → Bytes → (World → World) → World → Option A × World → Type ℓ
Passes {A = A} i id back w r =
    ((a : A) × (r ≡ (some a, w))) ⊎ ((c : ErrorCode) × (r ≡ (none, send_error i id c (back w))))

pub record Checks {ℓ} {A : Type ℓ} (i : ℕ) (id : Bytes) (back : World → World)
    (m : World → Option A × World) : Type ℓ where
  pub at : (w : World) → Passes i id back w (m w)

module _ {i : ℕ} {id : Bytes} where
  pub Checks-pure {ℓ} : {A : Type ℓ} {back : World → World} (a : A) → Checks i id back (pure a)
  unfolding pure
  Checks-pure a = record { at = λ w. inl (a, refl) }

  pub Checks-gets {ℓ} :
      {A : Type ℓ} {back : World → World} (f : World → A) → Checks i id back (gets f)
  unfolding gets
  Checks-gets f = record { at = λ w. inl (f w, refl) }

  pub Checks-refuse_if : (bad : Bool) (c : ErrorCode) → Checks i id as_it_is (refuse_if bad i id c)
  unfolding refuse_if
  Checks-refuse_if true c = record { at = λ w. inr (c, refl) }
  Checks-refuse_if false c = record { at = λ w. inl (tt, refl) }

  pub Checks-require {ℓ} :
      {A : Type ℓ} (o : Option A) (c : ErrorCode) → Checks i id as_it_is (require o i id c)
  unfolding require
  Checks-require none c = record { at = λ w. inr (c, refl) }
  Checks-require (some a) c = record { at = λ w. inl (a, refl) }

  pub Checks-release_if :
      (bad : Bool) (c : ErrorCode) → Checks i id (rx_release i) (release_if bad i id c)
  unfolding release_if
  Checks-release_if true c = record { at = λ w. inr (c, refl) }
  Checks-release_if false c = record { at = λ w. inl (tt, refl) }

  pub Checks-require_held {ℓ} :
      {A : Type ℓ} (o : Option A) (c : ErrorCode)
      → Checks i id (rx_release i) (require_held o i id c)
  unfolding require_held
  Checks-require_held none c = record { at = λ w. inr (c, refl) }
  Checks-require_held (some a) c = record { at = λ w. inl (a, refl) }

module _ {A B : Type 0} where
  pub bind-passed :
      (m : World → Option A × World) (f : A → World → Option B × World) (w : World) {a : A}
      → m w ≡ (some a, w)
      → (m >>= f) w ≡ f a w
  unfolding ◌>>=◌
  bind-passed m f w e = rw e

  pub bind-failed :
      (m : World → Option A × World) (f : A → World → Option B × World) {w w' : World}
      → m w ≡ (none, w')
      → (m >>= f) w ≡ (none, w')
  unfolding ◌>>=◌
  bind-failed m f e = rw e

module _ {A B : Type 0} {i : ℕ} {id : Bytes} {back : World → World} where
  pub Checks-bind :
      (m : World → Option A × World) (f : A → World → Option B × World)
      → Checks i id back m
      → ((a : A) → Checks i id back (f a))
      → Checks i id back (m >>= f)
  Checks-bind m f cm cf = record {
    at = λ w. elim (cm.at w) [
      | inl (a, e) ↦ rw (bind-passed m f w e) ((cf a).at w)
      | inr (c, e) ↦ inr (c, bind-failed m f e)
    ];
  }

pub ruleset checks_rules = (
  Checks-pure, Checks-gets, Checks-refuse_if, Checks-require, Checks-release_if,
  Checks-require_held, Checks-bind,
)

module _ (i : ℕ) (id : Bytes) (m : Msg) where
  pub require_function-Checks : Checks i id as_it_is (require_function i id m)
  unfolding require_function
  require_function-Checks = search checks_rules depth 12

  pub channel_ok-Checks : (p : ℕ) → Checks i id as_it_is (channel_ok i id m p)
  unfolding channel_ok
  channel_ok-Checks p = search checks_rules

  pub may_configure-Checks : Checks i id as_it_is (may_configure i id)
  unfolding may_configure
  may_configure-Checks = search checks_rules

  pub configuring-Checks : Checks i id as_it_is (configuring i id m)
  unfolding configuring
  configuring-Checks =
      search (checks_rules, require_function-Checks, channel_ok-Checks, may_configure-Checks)

  pub require_stream-Checks : Checks i id as_it_is (require_stream i id m)
  unfolding require_stream
  require_stream-Checks = search checks_rules depth 12

  -- The checks of open_stream behind the claim: each failure gives the claim back.
  pub read_transport-Checks : (p : ℕ) → Checks i id (rx_release i) (read_transport i id m p)
  unfolding read_transport
  read_transport-Checks p = search checks_rules depth 40

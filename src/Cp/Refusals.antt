-- ===== src/Cp/Refusals.antt =====
-- cp/cp_commands.c: the checks of params where they name another function than rx.
use sdr_slc_rtld.Base.{
  ℕ, ◌≡◌, refl, Bool, true, false, not, Option, none, some, Bytes, codes, arith,
}
use sdr_slc_rtld.Json.Tokens.{Msg, tok_find_key}
use sdr_slc_rtld.Cp.World.{World, ErrorCode, missing_parameter, not_supported}
use sdr_slc_rtld.Cp.Cmd.{◌>>=◌, ◌>>◌, pure, fail, require, refuse_if}
use sdr_slc_rtld.Cp.Params.{find_params, text_is, require_function, configuring}
use sdr_slc_rtld.Cp.Dispatch.{names_rx}
use sdr_slc_rtld.Cp.Radio.{SameRadio, send_error-SameRadio, Spares}

-- A handler that refuses, whatever the world.
pub record Ends {ℓ} {A : Type ℓ} (m : World → Option A × World) : Type ℓ where
  pub spares : (w : World) → SameRadio w (m w).1
  pub ended : (w : World) → (m w).0 ≡ none

Ends-fail {ℓ} : {A : Type ℓ} (i : ℕ) (id : Bytes) (c : ErrorCode) → Ends (fail {A = A} i id c)
unfolding fail
Ends-fail i id c = record { spares = send_error-SameRadio i id c; ended = λ w. refl }

module _ {ℓ} {A B : Type ℓ} (m : World → Option A × World) (f : A → World → Option B × World) where
  pub Ends-bind : Ends m → Ends (m >>= f)
  unfolding ◌>>=◌
  Ends-bind k = record {
    spares = λ w. rw (k.ended w) (k.spares w);
    ended = λ w. rw (k.ended w) refl;
  }

pub Ends-Spares {ℓ} : {A : Type ℓ} {m : World → Option A × World} → Ends m → Spares m
Ends-Spares k = record { at = k.spares }

module _ (i : ℕ) (id : Bytes) (m : Msg) where
  refuses_text :
      (b : Bool) (p : ℕ) → b ≡ false → Ends (refuse_if (not b) i id not_supported >> pure p)
  unfolding refuse_if
  refuses_text false p e = Ends-bind _ _ (Ends-fail i id not_supported)
  refuses_text true p e = ground arith

  refuses_function :
      (o : Option ℕ) (p : ℕ)
      → (elim o [ none ↦ false | some f ↦ text_is m f (codes "rx") ]) ≡ false
      → Ends (
          require o i id missing_parameter >>= λ f.
          refuse_if (not (text_is m f (codes "rx"))) i id not_supported >> pure p)
  unfolding require fail ◌>>=◌ pure
  refuses_function none p e = Ends-fail i id missing_parameter
  refuses_function (some f) p e = refuses_text (text_is m f (codes "rx")) p e

  refuses_params :
      (o : Option ℕ)
      → (elim o [
        | none ↦ false
        | some p ↦ (elim (tok_find_key m p (codes "function")) [
          | none ↦ false
          | some f ↦ text_is m f (codes "rx")
        ])
      ])
        ≡ false
      → Ends (
          require o i id missing_parameter >>= λ p.
          require (tok_find_key m p (codes "function")) i id missing_parameter >>= λ f.
          refuse_if (not (text_is m f (codes "rx"))) i id not_supported >> pure p)
  unfolding require fail ◌>>=◌ pure
  refuses_params none e = Ends-fail i id missing_parameter
  refuses_params (some p) e = refuses_function (tok_find_key m p (codes "function")) p e

  module _ (other : names_rx m ≡ false) where
    pub require_function-Ends : Ends (require_function i id m)
    unfolding require_function
    require_function-Ends = refuses_params (find_params m) other

    pub configuring-Ends : Ends (configuring i id m)
    unfolding configuring
    configuring-Ends = Ends-bind _ _ require_function-Ends

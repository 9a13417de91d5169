-- ===== src/Cp/Cmd.antt =====
-- The shape of a command handler of cp/cp_commands.c: it writes to the world, and an early
-- `return` ends it. `none` is a handler that has returned.
use sdr_slc_rtld.Base.{ℕ, Bool, Option, none, some, Bytes, if◌then◌else◌}
use sdr_slc_rtld.Json.Escape.{json_escape}
use sdr_slc_rtld.Cp.World.{
  Session, World, ok_response, error_response, event, Event, Answer, ErrorCode, put_session,
}
use sdr_slc_rtld.Cp.Access.{send_framed}

abbrev pub Cmd {ℓ} : Type ℓ → Type ℓ
Cmd A = World → Option A × World

module _ {ℓ} {A : Type ℓ} where
  unfoldable pub pure : A → Cmd A
  pure a w = (some a, w)

  unfoldable pub finish : Cmd A
  finish w = (none, w)

module _ {ℓ κ} {A : Type ℓ} {B : Type κ} where
  abbrev pub continue : Option A → (A → World → Option B × World) → World → Option B × World
  continue none f w = (none, w)
  continue (some a) f w = f a w

  infixl 10 ◌>>=◌ ◌>>◌
  unfoldable pub ◌>>=◌ :
      (World → Option A × World) → (A → World → Option B × World) → World → Option B × World
  unfolding pure finish
  ◌>>=◌ m f w = let (r, w') = m w in continue r f w'

  abbrev pub ◌>>◌ :
      (World → Option A × World) → (World → Option B × World) → World → Option B × World
  m >> n = m >>= λ _. n

unfoldable pub modify : (World → World) → Cmd (Unit {0})
modify f w = (some tt, f w)

unfoldable pub gets {ℓ} : {A : Type ℓ} → (World → A) → Cmd A
gets f w = (some (f w), w)

-- send_ok, send_error and send_event. The id buffer of 288 bytes is filled by json_escape.
unfoldable pub send_ok : ℕ → Bytes → Answer → Cmd (Unit {0})
unfolding modify
send_ok i id a = modify (send_framed i (ok_response (json_escape id 288) a))

unfoldable pub send_event : ℕ → Event → Cmd (Unit {0})
unfolding modify
send_event i e = modify (send_framed i (event e))

unfoldable pub send_error : ℕ → Bytes → ErrorCode → World → World
send_error i id c w = send_framed i (error_response (json_escape id 288) c) w

-- `send_error(...); return;`
unfoldable pub fail {ℓ} : {A : Type ℓ} → ℕ → Bytes → ErrorCode → Cmd A
unfolding send_error
fail i id c w = (none, send_error i id c w)

-- `if (bad) { send_error(...); return; }`
unfoldable pub refuse_if : Bool → ℕ → Bytes → ErrorCode → Cmd (Unit {0})
unfolding fail pure
refuse_if bad i id c = if bad then fail i id c else pure tt

-- The value of a lookup, or `{ send_error(...); return; }`.
unfoldable pub require {ℓ} : {A : Type ℓ} → Option A → ℕ → Bytes → ErrorCode → Cmd A
unfolding fail pure
require none i id c = fail i id c
require (some a) i id c = pure a

-- Writes to the handler's own session.
unfoldable pub edit : ℕ → (Session → Session) → Cmd (Unit {0})
unfolding modify
edit i f = modify (λ w. put_session i (f (w.table i)) w)

pub ruleset cmd_opens = (◌>>=◌, modify, gets, fail, refuse_if, require, edit)

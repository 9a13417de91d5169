-- ===== src/Cp/Phase/Envelope.antt =====
-- hello and authenticate: the rx channel stays in its phase, where hello is not sent by the
-- session that holds it.
use sdr_slc_rtld.Base.{ℕ, ◌≡◌, Bool, Option, Bytes, if◌then◌else◌, arith, Bool-cases, inl, inr}
use sdr_slc_rtld.Json.Tokens.{Msg}
use sdr_slc_rtld.Cp.World.{Session, Input, idle}
use sdr_slc_rtld.Cp.Cmd.{edit}
use sdr_slc_rtld.Cp.Envelope.{
  Attempt, cmd_hello, cmd_authenticate, attempt_with, try_attempt, roll_window, note_failure,
  hello_nonce, accepts,
}
use sdr_slc_rtld.Cp.Phase.{Phase, stage, stage_at, at_rest}
use sdr_slc_rtld.Cp.Phase.Keeps.{
  Keeps, KeepsWorld, keeps_rules, Keeps-edit, Keeps-edit_at, put_session-Represents,
  send_framed-Represents,
}

roll_window-stage : (now : ℕ) (s : Session) → stage (roll_window now s) ≡ stage s
unfolding roll_window
roll_window-stage now s = ground arith

note_failure-stage : (r : Option Bytes) (s : Session) → stage (note_failure r s) ≡ stage s
unfolding note_failure
note_failure-stage r s = ground arith

hello_nonce-stage :
    (on : Bool) (r : Option Bytes) (s : Session)
    → stage (if on then hello_nonce r s else s) ≡ stage s
unfolding hello_nonce
hello_nonce-stage on r s = ground arith

hello_edit-stage :
    (name : Bytes) (s : Session)
    → stage s ≡ at_rest
    → stage (record s { client_name = name; state = idle }) ≡ at_rest
hello_edit-stage name s h = ground arith

module _ {p : Phase} where
  try_attempt-Keeps :
      (inp : Input) (i : ℕ) (id : Bytes) (a : Attempt) → KeepsWorld p (try_attempt inp i id a)
  unfolding try_attempt
  try_attempt-Keeps inp i id a = record {
    at = λ w r.
        let s = roll_window inp.mono_ns (w.table i) in
        elim (Bool-cases (accepts w.keys s a)) [
          | inl good ↦ rw good (
              send_framed-Represents i _ (
                put_session-Represents i _
                  (cc (roll_window-stage inp.mono_ns (w.table i), r.stages i)) r))
          | inr bad ↦ rw bad (
              send_framed-Represents i _ (
                put_session-Represents i _
                  (cc (
                    note_failure-stage inp.random s,
                    roll_window-stage inp.mono_ns (w.table i),
                    r.stages i,
                  ))
                  r))
        ];
  }

  attempt_with-Keeps :
      (inp : Input) (i : ℕ) (id : Bytes) (m : Msg) → Keeps p (attempt_with inp i id m)
  unfolding attempt_with
  attempt_with-Keeps inp i id m = search (keeps_rules, try_attempt-Keeps)

  pub cmd_authenticate-Keeps :
      (inp : Input) (i : ℕ) (id : Bytes) (m : Msg) → Keeps p (cmd_authenticate inp i id m)
  unfolding cmd_authenticate
  cmd_authenticate-Keeps inp i id m = search (keeps_rules, attempt_with-Keeps) depth 12

  -- hello from a session that holds no stream.
  pub cmd_hello-Keeps :
      (inp : Input) (i : ℕ) (id : Bytes) (m : Msg)
      → stage_at p i ≡ at_rest
      → Keeps p (cmd_hello inp i id m)
  unfolding cmd_hello
  cmd_hello-Keeps inp i id m rest =
      search (keeps_rules, Keeps-edit, hello_nonce-stage, hello_write) depth 24
    where
      hello_write :
          (name : Bytes) → Keeps p (edit i (λ s. record s { client_name = name; state = idle }))
      hello_write name =
          Keeps-edit_at i _ (λ s h. cc (rest, hello_edit-stage name s (cc (rest, h))))

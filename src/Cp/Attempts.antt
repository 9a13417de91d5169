-- ===== src/Cp/Attempts.antt =====
-- cp/cp_commands.c: what an attempt to authenticate does to the session.
use sdr_slc_rtld.Base.{
  ℕ, ◌+◌, ◌-◌, ◌%◌, ◌^◌, ◌≡◌, refl, ap, ◌∙◌, Bool, true, false, ◌||◌, List, Bytes, ltb, ◌==◌,
  Bool-cases, inl, inr, arith,
}
use sdr_slc_rtld.Cp.World.{World, Session, Input, Frame, put_session}
use sdr_slc_rtld.Cp.Access.{send_framed}
use sdr_slc_rtld.Cp.Envelope.{Attempt, accepts, roll_window, note_failure, new_nonce, try_attempt}
use sdr_slc_rtld.Auth.Verify.{Key}

send_framed-table : (i : ℕ) (f : Frame) (w : World) → (send_framed i f w).table ≡ w.table
unfolding send_framed
send_framed-table i f w = elim (Bool-cases ((w.table i).fd == 0)) [
  | inl e ↦ rw e refl
  | inr e ↦ rw e refl
]

eq_refl : (i : ℕ) → (i == i) ≡ true
eq_refl i = ground arith

put_send :
    (i : ℕ) (f : Frame) (s : Session) (w : World)
    → ((send_framed i f (put_session i s w)).table i) ≡ s
put_send i f s w = ap (λ t. t i) (send_framed-table i f (put_session i s w)) ∙ rw (eq_refl i) refl

accepts-roll_window :
    (now : ℕ) (keys : List Key) (s : Session) (a : Attempt)
    → accepts keys (roll_window now s) a ≡ accepts keys s a
unfolding accepts roll_window
accepts-roll_window now keys s a =
    elim (Bool-cases (ltb 60000000000 ((now + 2 ^ 64 - s.auth_window_ns) % 2 ^ 64))) [
      | inl e ↦ rw e refl
      | inr e ↦ rw e refl
    ]

module _ (inp : Input) (i : ℕ) (id : Bytes) (a : Attempt) (w : World) where
  abbrev pub after : Session
  after = (try_attempt inp i id a w).table i

  abbrev pub rolled : Session
  rolled = roll_window inp.mono_ns (w.table i)

  after-accepted :
      accepts w.keys (w.table i) a ≡ true
      → after ≡ record rolled { rx_unlocked = true; nonce_valid = false }
  unfolding try_attempt
  after-accepted h =
      let e = accepts-roll_window inp.mono_ns w.keys (w.table i) a ∙ h in
      rw (e, after) (put_send i _ (record rolled { rx_unlocked = true; nonce_valid = false }) w)

  after-refused : accepts w.keys (w.table i) a ≡ false → after ≡ note_failure inp.random rolled
  unfolding try_attempt
  after-refused h =
      let e = accepts-roll_window inp.mono_ns w.keys (w.table i) a ∙ h in
      rw (e, after) (put_send i _ (note_failure inp.random rolled) w)

  roll-unlocked : rolled.rx_unlocked ≡ (w.table i).rx_unlocked
  unfolding roll_window
  roll-unlocked = ground arith

  note-unlocked : (note_failure inp.random rolled).rx_unlocked ≡ rolled.rx_unlocked
  unfolding note_failure new_nonce
  note-unlocked = ground arith

  pub try_attempt-unlocks :
      after.rx_unlocked ≡ ((w.table i).rx_unlocked || accepts w.keys (w.table i) a)
  try_attempt-unlocks = elim (Bool-cases (accepts w.keys (w.table i) a)) [
    | inl e ↦ ap (λ s. s.rx_unlocked) (after-accepted e) ∙ rw e (or_true (w.table i).rx_unlocked)
    | inr e ↦
        ap (λ s. s.rx_unlocked) (after-refused e)
        ∙ note-unlocked
        ∙ roll-unlocked
        ∙ rw e (or_false (w.table i).rx_unlocked)
  ]
    where
      or_true : (b : Bool) → true ≡ (b || true)
      or_true true = refl
      or_true false = refl

      or_false : (b : Bool) → b ≡ (b || false)
      or_false true = refl
      or_false false = refl

-- ===== src/Vita/Active.antt =====
-- Which sessions of vita/vita_tx.c are active, through each operation on the table.
use sdr_slc_rtld.Base.{
  ℕ, zero, suc, ◌<◌, ◌+◌, ◌⊎◌, ◌++◌, ◌≡◌, refl, ap, Bool, true, false, not, Option, none, some,
  List, [], ◌∷◌, arith, length, get_or, set, leb, ◌==◌, if◌then◌else◌, Bool-cases, inl, inr,
}
use sdr_slc_rtld.Base.Int.{ℤ}
use sdr_slc_rtld.Vita.Sessions.{
  VitaSession, Datagram, Vita, Stream, cleared, send_context, send_context_loop, send_context_all,
  add_loop, session_remove, session_add, update_loop, anchored,
}

abbrev pub is_active : List VitaSession → ℕ → Bool
is_active ss t = (get_or ss t cleared).active

pub active-lt : (ss : List VitaSession) (t : ℕ) → is_active ss t ≡ true → t < length ss
active-lt [] t h = cc
active-lt (s ∷ ss) zero h = omega arith
active-lt (s ∷ ss) (suc t) h = omega (arith, active-lt ss t h)

pub active-send_context :
    (on : Bool) (gain : ℤ) (s : VitaSession) → (send_context on gain s).1.active ≡ s.active
unfolding send_context
active-send_context on gain s = ground arith

pub active-send_context_loop :
    (on : Bool) (gain : ℤ) (ss : List VitaSession) (t : ℕ)
    → is_active (send_context_loop on gain ss).1 t ≡ is_active ss t
unfolding send_context_loop
active-send_context_loop on gain [] t = refl
active-send_context_loop on gain (s ∷ ss) zero = active-send_context on gain s
active-send_context_loop on gain (s ∷ ss) (suc t) = active-send_context_loop on gain ss t

pub length-send_context_loop :
    (on : Bool) (gain : ℤ) (ss : List VitaSession)
    → length (send_context_loop on gain ss).1 ≡ length ss
unfolding send_context_loop
length-send_context_loop on gain [] = refl
length-send_context_loop on gain (s ∷ ss) = ap suc (length-send_context_loop on gain ss)

pub active-send_context_all :
    (gain : ℤ) (v : Vita) (t : ℕ)
    → is_active (send_context_all gain v).sessions t ≡ is_active v.sessions t
unfolding send_context_all
active-send_context_all gain v t = elim (Bool-cases v.sock_open) [
  | inl e ↦ rw e (active-send_context_loop v.context_enabled gain v.sessions t)
  | inr e ↦ rw e
]

pub length-send_context_all :
    (gain : ℤ) (v : Vita) → length (send_context_all gain v).sessions ≡ length v.sessions
unfolding send_context_all
length-send_context_all gain v = elim (Bool-cases v.sock_open) [
  | inl e ↦ rw e (length-send_context_loop v.context_enabled gain v.sessions)
  | inr e ↦ rw e
]

pub active-update_loop :
    (pf : ℕ) (ss : List VitaSession) (t : ℕ) → is_active (update_loop pf ss) t ≡ is_active ss t
unfolding update_loop
active-update_loop pf [] t = refl
active-update_loop pf (s ∷ ss) zero = ground arith
active-update_loop pf (s ∷ ss) (suc t) = active-update_loop pf ss t

pub length-update_loop : (pf : ℕ) (ss : List VitaSession) → length (update_loop pf ss) ≡ length ss
unfolding update_loop
length-update_loop pf [] = refl
length-update_loop pf (s ∷ ss) = ap suc (length-update_loop pf ss)

pub get_or-set {ℓ} :
    {A : Type ℓ} (xs : List A) (t u : ℕ) (v d : A)
    → t < length xs
    → get_or (set xs t v) u d ≡ (if t == u then v else get_or xs u d)
get_or-set [] t u v d h = elim h [ ]
get_or-set (x ∷ xs) zero zero v d h = refl
get_or-set (x ∷ xs) zero (suc u) v d h = ground arith
get_or-set (x ∷ xs) (suc t) zero v d h = ground arith
get_or-set (x ∷ xs) (suc t) (suc u) v d h = ground (arith, get_or-set xs t u v d (omega arith))

pub length-set {ℓ} : {A : Type ℓ} (xs : List A) (t : ℕ) (v : A) → length (set xs t v) ≡ length xs
length-set [] t v = refl
length-set (x ∷ xs) zero v = refl
length-set (x ∷ xs) (suc t) v = ap suc (length-set xs t v)

-- Where a token was taken, it was free, and it is the one that has become active.
abbrev pub Added : List VitaSession → ℕ → List VitaSession → Type 0
Added ss k ss' =
    (length ss' ≡ length ss)
    × (is_active ss k ≡ false)
    × ((t : ℕ) → is_active ss' t ≡ (if k == t then true else is_active ss t))
    × (k < length ss)

add-here :
    (on : Bool) (gain : ℤ) (a : Stream) (s : VitaSession) (ss : List VitaSession)
    → s.active ≡ false
    → Added (s ∷ ss) 0 ((send_context on gain (anchored a s)).1 ∷ ss)
unfolding anchored
add-here on gain a s ss h = (refl, h, by_token, omega arith)
  where
    by_token :
        (t : ℕ)
        → is_active ((send_context on gain (anchored a s)).1 ∷ ss) t
          ≡ (if 0 == t then true else is_active (s ∷ ss) t)
    by_token zero = active-send_context on gain (anchored a s)
    by_token (suc t) = ground arith

add-there :
    (s : VitaSession) (ss ss' : List VitaSession) (k : ℕ)
    → Added ss k ss'
    → Added (s ∷ ss) (k + 1) (s ∷ ss')
add-there s ss ss' k (len, off, acts, lt) = (ap suc len, ground arith, by_token, omega arith)
  where
    by_token : (t : ℕ) → is_active (s ∷ ss') t ≡ (if k + 1 == t then true else is_active (s ∷ ss) t)
    by_token zero = ground arith
    by_token (suc t) = ground (arith, acts t)

-- The result of the loop over the slots.
abbrev pub IsAdded : List VitaSession → Option (ℕ × List Datagram × List VitaSession) → Type 0
IsAdded ss none = Unit {0}
IsAdded ss (some r) = Added ss r.0 r.2

add-skip :
    (s : VitaSession) (ss : List VitaSession) (o : Option (ℕ × List Datagram × List VitaSession))
    → IsAdded ss o
    → IsAdded (s ∷ ss) (elim o [ none ↦ none | some r ↦ some (r.0 + 1, r.1, s ∷ r.2) ])
add-skip s ss none h = tt
add-skip s ss (some r) h = add-there s ss r.2 r.0 h

-- The two branches of a slot, by whether it is active.
add-slot :
    (on : Bool) (gain : ℤ) (a : Stream) (s : VitaSession) (ss : List VitaSession) (b : Bool)
    → s.active ≡ b
    → IsAdded ss (add_loop on gain a ss)
    → IsAdded (s ∷ ss) (
        if not b
        then (let (ds, s') = send_context on gain (anchored a s) in some (0, ds, s' ∷ ss))
        else (elim (add_loop on gain a ss) [ none ↦ none | some r ↦ some (r.0 + 1, r.1, s ∷ r.2) ]))
add-slot on gain a s ss true h rest = add-skip s ss (add_loop on gain a ss) rest
add-slot on gain a s ss false h rest = add-here on gain a s ss h

pub add_loop-IsAdded :
    (on : Bool) (gain : ℤ) (a : Stream) (ss : List VitaSession) → IsAdded ss (add_loop on gain a ss)
unfolding add_loop
add_loop-IsAdded on gain a [] = tt
add_loop-IsAdded on gain a (s ∷ ss) =
    add-slot on gain a s ss s.active refl (add_loop-IsAdded on gain a ss)

-- What vita_session_add can do.
abbrev pub Adds : Vita → Option ℕ × Vita → Type 0
Adds v r = (r ≡ (none, v)) ⊎ ((t : ℕ) × (r.0 ≡ some t) × Added v.sessions t r.1.sessions)

-- vita_session_add changes nothing and gives no token, or the slot of its token, which was not
-- active, becomes active, and no other slot becomes active or ceases to be.
pub session_add-Adds : (gain : ℤ) (a : Stream) (v : Vita) → Adds v (session_add gain a v)
unfolding session_add
session_add-Adds gain a v =
    by_result (add_loop v.context_enabled gain a v.sessions)
      (add_loop-IsAdded v.context_enabled gain a v.sessions)
  where
    by_result :
        (o : Option (ℕ × List Datagram × List VitaSession))
        → IsAdded v.sessions o
        → Adds v (elim o [
          | none ↦ (none, v)
          | some r ↦ (some r.0, record v { sessions = r.2; sent = v.sent ++ r.1 })
        ])
    by_result none h = inl refl
    by_result (some r) h = inr (r.0, refl, h)

-- vita_session_remove of a token that is in range.
pub active-session_remove :
    (t : ℕ) (v : Vita) (u : ℕ)
    → length v.sessions ≡ 4
    → t < 4
    → is_active (session_remove t v).sessions u ≡ (if t == u then false else is_active v.sessions u)
unfolding session_remove
active-session_remove t v u len lt =
    ground (arith, get_or-set v.sessions t u cleared cleared (omega (arith, len, lt)))

pub length-session_remove :
    (t : ℕ) (v : Vita) → length (session_remove t v).sessions ≡ length v.sessions
unfolding session_remove
length-session_remove t v = elim (Bool-cases (leb 4 t)) [
  | inl e ↦ rw e refl
  | inr e ↦ rw e (length-set v.sessions t cleared)
]

-- ===== src/Vita/First.antt =====
-- Context packets: the first packet of a stream, and the change bit.
use sdr_slc_rtld.Base.{
  ℕ, ◌+◌, ◌≡◌, refl, ap, Bool, true, false, not, Option, none, some, List, [], ◌∷◌, ◌++◌,
  if◌then◌else◌, inl, inr, ◌⊎◌,
}
use sdr_slc_rtld.Base.Int.{ℤ}
use sdr_slc_rtld.Rtl.Limits.{reference_level_tenth_dbm}
use sdr_slc_rtld.Vita.Packet.{build_context_packet}
use sdr_slc_rtld.Vita.Sessions.{
  VitaSession, Datagram, Vita, Stream, context_changed, send_context, anchored, add_loop,
  session_add,
}

-- The packet that a stream begins with: count 0 and the change bit set.
abbrev pub first_context : ℤ → Stream → Datagram
first_context gain a = record {
  to_ip = a.ip;
  to_port = a.port;
  payload = build_context_packet a.vita_id 0 a.pf_word0 (reference_level_tenth_dbm gain) true;
}

send_context-anchored :
    (on : Bool) (gain : ℤ) (a : Stream) (s : VitaSession)
    → on ≡ true
    → (send_context on gain (anchored a s)).0 ≡ first_context gain a ∷ []
unfolding send_context anchored context_changed
send_context-anchored on gain a s h = rw h refl

-- What the loop over the slots sends, if it finds one.
abbrev Begins : ℤ → Stream → Option (ℕ × List Datagram × List VitaSession) → Type 0
Begins gain a none = Unit {0}
Begins gain a (some r) = r.1 ≡ first_context gain a ∷ []

add_loop-Begins :
    (enabled : Bool) (gain : ℤ) (a : Stream) (ss : List VitaSession)
    → enabled ≡ true
    → Begins gain a (add_loop enabled gain a ss)
unfolding add_loop
add_loop-Begins enabled gain a [] e = tt
add_loop-Begins enabled gain a (s ∷ ss) e =
    by_slot s.active (add_loop enabled gain a ss) (add_loop-Begins enabled gain a ss e)
  where
    by_slot :
        (on : Bool) (o : Option (ℕ × List Datagram × List VitaSession))
        → Begins gain a o
        → Begins gain a (
            if not on
            then some (
              0,
              (send_context enabled gain (anchored a s)).0,
              (send_context enabled gain (anchored a s)).1 ∷ ss,
            )
            else (elim o [ none ↦ none | some r ↦ some (r.0 + 1, r.1, s ∷ r.2) ]))
    by_slot true none h = tt
    by_slot true (some r) h = h
    by_slot false o h = send_context-anchored enabled gain a s e

-- With context packets enabled, vita_session_add sends, for the slot that it takes, exactly one
-- packet, and that is the context packet with count 0, the stream's format and reference level, and the
-- change bit set; where it takes no slot it sends nothing.
pub session_add-first :
    (gain : ℤ) (a : Stream) (v : Vita)
    → v.context_enabled ≡ true
    → let r = session_add gain a v in
      ((r.0 ≡ none) × (r.1.sent ≡ v.sent))
      ⊎ ((t : ℕ) × (r.0 ≡ some t) × (r.1.sent ≡ v.sent ++ (first_context gain a ∷ [])))
unfolding session_add
session_add-first gain a v on =
    by_result (add_loop v.context_enabled gain a v.sessions)
      (add_loop-Begins v.context_enabled gain a v.sessions on)
  where
    by_result :
        (o : Option (ℕ × List Datagram × List VitaSession))
        → Begins gain a o
        → let r : Option ℕ × Vita = elim o [
          | none ↦ (none, v)
          | some r ↦ (some r.0, record v { sessions = r.2; sent = v.sent ++ r.1 })
        ] in
          ((r.0 ≡ none) × (r.1.sent ≡ v.sent))
          ⊎ ((t : ℕ) × (r.0 ≡ some t) × (r.1.sent ≡ v.sent ++ (first_context gain a ∷ [])))
    by_result none h = inl (refl, refl)
    by_result (some r) h = inr (r.0, refl, ap (λ ds. v.sent ++ ds) h)

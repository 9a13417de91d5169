-- ===== src/Mdns/Freed.antt =====
-- common/mdns_avahi.c: what the backend makes of libavahi it frees.
use sdr_slc_rtld.Base.{ℕ, ◌≡◌, refl, ap, false, List, [], ◌∷◌, Bytes, arith, Bool-cases, inl, inr}
use sdr_slc_rtld.Mdns.Start.{Txt}
use sdr_slc_rtld.Mdns.Avahi.{
  Kind, poll, client, group, Backend, initial_backend, GroupState, ClientState, GroupAnswers,
  AvahiHost, group_cb, client_cb, mdns_avahi_stop, mdns_avahi_start,
}
use sdr_slc_rtld.Mdns.Balanced.{
  makes, frees, number, Balanced, group_cb-Balanced, client_cb-Balanced, mdns_avahi_stop-Balanced,
  mdns_avahi_stop-empty, make_client-Balanced,
}

-- A callback of libavahi.
pub data Event : Type 0 where
  on_group : GroupState → Event
  on_client : ClientState → GroupAnswers → Event

-- The backend after callbacks, in their order.
abbrev pub after : List Event → Backend → Backend
after [] b = b
after (on_group s ∷ es) b = after es (group_cb s b)
after (on_client s a ∷ es) b = after es (client_cb s a b)

after-Balanced : (es : List Event) (b : Backend) → Balanced b → Balanced (after es b)
after-Balanced [] b r = r
after-Balanced (on_group s ∷ es) b r = after-Balanced es (group_cb s b) (group_cb-Balanced s b r)
after-Balanced (on_client s a ∷ es) b r =
    after-Balanced es (client_cb s a b) (client_cb-Balanced s a b r)

module _ (h : AvahiHost) (instance_name : Bytes) (port : ℕ) (txt : Txt) where
  abbrev started : Backend
  started = (mdns_avahi_start h instance_name port txt initial_backend).1

  started-Balanced : Balanced started
  unfolding mdns_avahi_start
  started-Balanced = elim (Bool-cases h.new_poll) [
    | inl e ↦
        rw e
          (make_client-Balanced h _ (record { polls = refl; clients = refl; groups = refl }) refl)
    | inr e ↦ rw e (record { polls = refl; clients = refl; groups = refl })
  ]

  -- From the start of the Avahi backend, whether it succeeds or not, over any callbacks of libavahi
  -- to its end, as many polls, clients and entry groups have been freed as have been made.
  pub mdns_avahi_stop-frees :
      (events : List Event) (k : Kind)
      → makes k (mdns_avahi_stop (after events started)).calls
        ≡ frees k (mdns_avahi_stop (after events started)).calls
  mdns_avahi_stop-frees events k =
      let b = after events started in
      let r = mdns_avahi_stop-Balanced b (after-Balanced events started started-Balanced) in
      let (p, c, g) = mdns_avahi_stop-empty b in by_kind k r p c g
    where
      by_kind :
          (k : Kind) {b : Backend}
          → Balanced b
          → b.has_poll ≡ false
          → b.has_client ≡ false
          → b.has_group ≡ false
          → makes k b.calls ≡ frees k b.calls
      by_kind poll r p c g = omega (arith, r.polls, ap number p)
      by_kind client r p c g = omega (arith, r.clients, ap number c)
      by_kind group r p c g = omega (arith, r.groups, ap number g)

-- ===== src/Mdns/Front.antt =====
-- common/mdns.c: the choice of the backend.
use sdr_slc_rtld.Base.{
  ℕ, Bool, true, false, ◌&&◌, Option, none, some, Bytes, codes, eq_bytes, if◌then◌else◌,
}
use sdr_slc_rtld.Mdns.Packet.{printed}
use sdr_slc_rtld.Mdns.Start.{Txt, Network, Responder, mdns_builtin_start, mdns_builtin_stop}
use sdr_slc_rtld.Mdns.Avahi.{AvahiHost, Backend, mdns_avahi_start, mdns_avahi_stop}

-- The globals of mdns.c over those of the backends.
pub record Front : Type 0 where
  pub avahi : Bool
  pub iface : Bytes
  pub responder : Responder
  pub backend : Backend

-- mdns_set_backend. `compiled` is SLC_MDNS_AVAHI.
unfoldable pub mdns_set_backend : Bool → Bytes → Option Bytes → Front → Bool × Front
mdns_set_backend compiled name iface f =
    let f' : Front = elim iface [ none ↦ f | some text ↦ record f { iface = printed 32 text } ] in
    if eq_bytes name (codes "builtin")
    then (true, record f' { avahi = false })
    else if eq_bytes name (codes "avahi") && compiled
    then (true, record f' { avahi = true })
    else (false, f')

-- mdns_start.
unfoldable pub mdns_start : AvahiHost → Network → Bytes → ℕ → Txt → Front → Bool × Front
unfolding mdns_builtin_start mdns_avahi_start
mdns_start h net instance_name port txt f =
    if f.avahi
    then (let (done, b) = mdns_avahi_start h instance_name port txt f.backend in
        (done, record f { backend = b }))
    else (let (done, r) = mdns_builtin_start net f.iface instance_name port txt f.responder in
        (done, record f { responder = r }))

-- mdns_stop.
unfoldable pub mdns_stop : Front → Front
unfolding mdns_builtin_stop mdns_avahi_stop
mdns_stop f =
    if f.avahi
    then record f { backend = mdns_avahi_stop f.backend }
    else record f { responder = mdns_builtin_stop f.responder }

-- ===== src/Mdns/Start.antt =====
-- common/mdns_builtin.c: the responder's start, its thread and its end.
use sdr_slc_rtld.Base.{
  ℕ, Bool, true, false, not, ◌&&◌, ◌||◌, Option, none, some, List, [], ◌∷◌, ◌++◌, Bytes, codes,
  eq_bytes, if◌then◌else◌,
}
use sdr_slc_rtld.Json.Writer.{decimal}
use sdr_slc_rtld.Mdns.Packet.{Service, Which, printed, send_records}
use sdr_slc_rtld.Mdns.Query.{all_records, records_for_query, is_empty}

-- An entry of getifaddrs. `inet` says that it has an address, and that of AF_INET.
pub record Interface : Type 0 where
  pub name : Option Bytes
  pub inet : Bool
  pub loopback : Bool
  pub address : ℕ

abbrev is_unnamed : Bytes → Bool
is_unnamed [] = true
is_unnamed (c ∷ cs) = false

-- Whether the loop of read_ipv4 passes over an entry.
unfoldable pub skips : Bytes → Interface → Bool
skips iface i = elim i.name [
  | none ↦ true
  | some name ↦ not i.inet || (if is_unnamed iface then i.loopback else not (eq_bytes name iface))
]

unfoldable pub first_address : Bytes → List Interface → Option ℕ
unfolding skips
first_address iface [] = none
first_address iface (i ∷ rest) =
    let later = first_address iface rest in if skips iface i then later else some i.address

-- read_ipv4, where `none` is getifaddrs failing.
unfoldable pub read_ipv4 : Bytes → Option (List Interface) → Option ℕ
unfolding first_address
read_ipv4 iface none = none
read_ipv4 iface (some list) = first_address iface list

-- `mdns_txt_t`.
pub record Txt : Type 0 where
  pub name : Bytes
  pub proto : Bytes
  pub proto_ver : Bytes
  pub functions : Bytes
  pub hw : Bytes
  pub fw : Bytes
  pub minhz : ℕ
  pub maxhz : ℕ

-- An element of s_txt.
abbrev field : Bytes → Bytes → Bytes
field key value = printed 160 (key ++ (b'=' ∷ value))

unfoldable pub txt_strings : Txt → List Bytes
unfolding decimal
txt_strings t =
    field (codes "name") t.name
    ∷ field (codes "proto") t.proto
    ∷ field (codes "proto_ver") t.proto_ver
    ∷ field (codes "functions") t.functions
    ∷ field (codes "hw") t.hw
    ∷ field (codes "fw") t.fw
    ∷ field (codes "minhz") (decimal t.minhz)
    ∷ field (codes "maxhz") (decimal t.maxhz)
    ∷ []

-- The responder's globals; `sent` holds the datagrams, oldest first.
pub record Responder : Type 0 where
  pub sock : Bool
  pub running : Bool
  pub published : Bool
  pub service : Service
  pub sent : List Bytes

-- The static initialisers.
abbrev pub initial_responder : Responder
initial_responder = record {
  sock = false;
  running = false;
  published = false;
  service = record { instance_name = []; ip = 0; port = 0; txt = [] };
  sent = [];
}

-- What the system answers at the start: the interfaces, and whether socket, bind and
-- pthread_create succeed.
pub record Network : Type 0 where
  pub interfaces : Option (List Interface)
  pub socket : Bool
  pub bound : Bool
  pub thread : Bool

-- A call of send_records.
unfoldable pub send : Which → ℕ → Responder → Responder
unfolding send_records
send which ttl r = if not r.sock then r else (elim (send_records r.service which ttl) [
  | none ↦ r
  | some p ↦ record r { sent = r.sent ++ (p ∷ []) }
])

-- The part of mdns_builtin_start behind bind.
unfoldable pub publish : Bool → Responder → Bool × Responder
unfolding send
publish thread r =
    let r' = record (send all_records 120 (record r { sock = true })) { published = true } in
    (thread, record r' { running = thread })

-- mdns_builtin_start; the flag is false where it returns -1.
unfoldable pub mdns_builtin_start : Network → Bytes → Bytes → ℕ → Txt → Responder → Bool × Responder
unfolding read_ipv4 txt_strings publish
mdns_builtin_start net iface instance_name port txt r =
    let service : Service = record {
      instance_name = printed 64 instance_name;
      ip = r.service.ip;
      port = port;
      txt = txt_strings txt;
    } in
    elim (read_ipv4 (printed 32 iface) net.interfaces) [
      | none ↦ (false, record r { service = service })
      | some ip ↦
          let r' = record r { service = record service { ip = ip } } in
          if not (net.socket && net.bound)
          then (false, record r' { sock = false })
          else publish net.thread r'
    ]

-- A round of responder_thread with a datagram.
unfoldable pub answer_datagram : Bytes → Responder → Responder
unfolding send records_for_query
answer_datagram rx r =
    let which = records_for_query r.service rx in if is_empty which then r else send which 120 r

-- mdns_builtin_stop.
unfoldable pub mdns_builtin_stop : Responder → Responder
unfolding send
mdns_builtin_stop r =
    if not r.sock
    then r
    else (let r' = if r.published then send all_records 0 r else r in
        record r' { running = false; sock = false; published = false })

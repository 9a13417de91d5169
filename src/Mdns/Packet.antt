-- ===== src/Mdns/Packet.antt =====
-- common/mdns_builtin.c: the packet builder and send_records.
use sdr_slc_rtld.Base.{
  ℕ, zero, suc, ◌+◌, ◌-◌, ◌/◌, ◌%◌, ◌^◌, Bool, true, false, Option, none, some, List, [], ◌∷◌, ◌++◌,
  Bytes, codes, length, take, set, replicate, ltb, ◌==◌, if◌then◌else◌,
}

-- `DNS`: the bytes of `buf` before `pos`. The buffer behind them holds zeros.
pub record Dns : Type 0 where
  pub bytes : Bytes
  pub overflow : Bool

abbrev pub capacity : ℕ
capacity = 1024

-- dns_init.
unfoldable pub dns_init : Dns
dns_init = record { bytes = replicate 12 0; overflow = false }

-- dns_put8 of the low eight bits.
unfoldable pub dns_put8 : ℕ → Dns → Dns
dns_put8 v d =
    if ltb (length d.bytes) capacity
    then record d { bytes = d.bytes ++ (v % 256 ∷ []) }
    else record d { overflow = true }

-- dns_put16 and dns_put32.
unfoldable pub dns_put16 : ℕ → Dns → Dns
unfolding dns_put8
dns_put16 v d = dns_put8 v (dns_put8 (v / 256) d)

unfoldable pub dns_put32 : ℕ → Dns → Dns
unfolding dns_put16
dns_put32 v d = dns_put16 (v % 65536) (dns_put16 (v / 65536) d)

-- A loop of dns_put8 over the bytes of a text.
unfoldable pub put_all : Bytes → Dns → Dns
unfolding dns_put8
put_all [] d = d
put_all (c ∷ cs) d = put_all cs (dns_put8 c d)

-- The text up to the next dot, and what stands behind the dot; `none` without a dot.
unfoldable pub split_dot : Bytes → Option (Bytes × Bytes)
split_dot [] = none
split_dot (c ∷ cs) = elim (c == b'.') [
  | true ↦ some ([], cs)
  | false ↦ (elim (split_dot cs) [ none ↦ none | some p ↦ some (c ∷ p.0, p.1) ])
]

-- The loop of dns_name. Each round takes a dot at least, so the length is fuel enough. A text
-- behind the last dot is left out, and so is all behind an empty name.
unfoldable pub name_loop : ℕ → Bytes → Dns → Dns
unfolding split_dot put_all
name_loop zero name d = d
name_loop (suc fuel) name d = elim (split_dot name) [
  | none ↦ d
  | some p ↦ name_loop fuel p.1 (put_all p.0 (dns_put8 (length p.0) d))
]

-- dns_name, without the offset that it returns, which is `pos` before.
unfoldable pub dns_name : Bytes → Dns → Dns
unfolding name_loop
dns_name name d = dns_put8 0 (name_loop (length name) name d)

abbrev pub position : Dns → ℕ
position d = length d.bytes

-- dns_ptr.
unfoldable pub dns_ptr : ℕ → Dns → Dns
unfolding dns_put8
dns_ptr off d = dns_put8 (off % 256) (dns_put8 (192 + off / 256) d)

-- dns_patch_rdlen. A write behind `pos` is not seen again.
unfoldable pub dns_patch_rdlen : ℕ → Dns → Dns
dns_patch_rdlen at d =
    let rdlen = position d - at - 2 in
    record d { bytes = set (set d.bytes at (rdlen / 256 % 256)) (at + 1) (rdlen % 256) }

-- A name in a record: an offset that it has in the packet, or the name in full.
unfoldable pub put_owner : Option ℕ → Bytes → Dns → Dns
unfolding dns_ptr dns_name
put_owner (some off) name d = dns_ptr off d
put_owner none name d = dns_name name d

-- dns_rr, without the offset of RDLENGTH that it returns.
unfoldable pub dns_rr : Option ℕ → Bytes → ℕ → ℕ → ℕ → Dns → Dns
unfolding put_owner dns_put32
dns_rr name_off name type class ttl d =
    dns_put16 0 (dns_put32 ttl (dns_put16 class (dns_put16 type (put_owner name_off name d))))

-- What the responder publishes. The address is a number of which the first octet is the lowest
-- byte, as `s_ip` is on the machines that the daemon runs on.
pub record Service : Type 0 where
  pub instance_name : Bytes
  pub ip : ℕ
  pub port : ℕ
  pub txt : List Bytes

-- snprintf into an array of `size` bytes.
abbrev pub printed : ℕ → Bytes → Bytes
printed size s = take (size - 1) s

abbrev pub service_type : Bytes
service_type = codes "_sdr-slc._tcp.local."

abbrev pub instance_fqdn : Service → Bytes
instance_fqdn s = printed 96 (s.instance_name ++ (b'.' ∷ service_type))

abbrev pub host_fqdn : Service → Bytes
host_fqdn s = printed 80 (s.instance_name ++ codes ".local.")

-- The records that a response carries.
pub record Which : Type 0 where
  pub ptr : Bool
  pub srv : Bool
  pub txt : Bool
  pub a : Bool

-- The variables of send_records.
pub record Draft : Type 0 where
  pub dns : Dns
  pub inst_off : Option ℕ
  pub host_off : Option ℕ
  pub ancount : ℕ

-- `off`, or where the name has been written in full.
abbrev known : Option ℕ → ℕ → Option ℕ
known none at = some at
known (some off) at = some off

-- A record: its head, the data that `put` writes, and the length patched in.
unfoldable pub put_record : Option ℕ → Bytes → ℕ → ℕ → ℕ → (Dns → Dns) → Dns → Dns
unfolding dns_rr dns_patch_rdlen
put_record off name type class ttl put d =
    let head = dns_rr off name type class ttl d in dns_patch_rdlen (position head - 2) (put head)

-- The class IN, and IN with the cache-flush bit.
abbrev pub class_in : ℕ
class_in = 1

abbrev pub class_flush : ℕ
class_flush = 32769

-- The four branches of send_records.
unfoldable pub put_ptr : Service → ℕ → Draft → Draft
unfolding put_record
put_ptr s ttl w =
    let head = dns_rr none service_type 12 class_in ttl w.dns in
    record w {
      dns = put_record none service_type 12 class_in ttl (dns_name (instance_fqdn s)) w.dns;
      inst_off = some (position head);
      ancount = w.ancount + 1;
    }

abbrev srv_head : Service → Dns → Dns
srv_head s d = dns_put16 s.port (dns_put16 0 (dns_put16 0 d))

unfoldable pub put_srv : Service → ℕ → Draft → Draft
unfolding put_record
put_srv s ttl w =
    let head = dns_rr w.inst_off (instance_fqdn s) 33 class_flush ttl w.dns in
    record w {
      dns =
          put_record w.inst_off (instance_fqdn s) 33 class_flush ttl
            (λ d. dns_name (host_fqdn s) (srv_head s d)) w.dns;
      inst_off = known w.inst_off (position w.dns);
      host_off = some (position (srv_head s head));
      ancount = w.ancount + 1;
    }

-- The strings of a TXT record, each behind its length.
unfoldable pub put_strings : List Bytes → Dns → Dns
unfolding put_all
put_strings [] d = d
put_strings (t ∷ ts) d = put_strings ts (put_all t (dns_put8 (length t) d))

unfoldable pub put_txt : Service → ℕ → Draft → Draft
unfolding put_record put_strings
put_txt s ttl w = record w {
  dns = put_record w.inst_off (instance_fqdn s) 16 class_flush ttl (put_strings s.txt) w.dns;
  inst_off = known w.inst_off (position w.dns);
  ancount = w.ancount + 1;
}

-- The octets of the address, in the order of the network.
abbrev put_address : ℕ → Dns → Dns
put_address ip d =
    dns_put8 (ip / 2 ^ 24) (dns_put8 (ip / 2 ^ 16) (dns_put8 (ip / 2 ^ 8) (dns_put8 ip d)))

unfoldable pub put_a : Service → ℕ → Draft → Draft
unfolding put_record
put_a s ttl w = record w {
  dns = put_record w.host_off (host_fqdn s) 1 class_flush ttl (put_address s.ip) w.dns;
  ancount = w.ancount + 1;
}

abbrev pub when : Bool → (Draft → Draft) → Draft → Draft
when b f w = if b then f w else w

unfoldable pub put_answers : Service → Which → ℕ → Draft
unfolding put_ptr put_srv put_txt put_a dns_init
put_answers s which ttl = when which.a (put_a s ttl) (
    when which.txt (put_txt s ttl) (
      when which.srv (put_srv s ttl) (
        when which.ptr (put_ptr s ttl)
          (record { dns = dns_init; inst_off = none; host_off = none; ancount = 0 }))))

-- The writes to the header: QR and AA, and the number of answers.
unfoldable pub put_header : ℕ → Bytes → Bytes
put_header ancount b = set (set (set (set b 2 0x84) 3 0) 6 (ancount / 256 % 256)) 7 (ancount % 256)

-- send_records: the datagram that is handed to the socket, if one is.
unfoldable pub send_records : Service → Which → ℕ → Option Bytes
unfolding put_answers put_header
send_records s which ttl =
    let w = put_answers s which ttl in
    if w.dns.overflow then none else some (put_header w.ancount w.dns.bytes)

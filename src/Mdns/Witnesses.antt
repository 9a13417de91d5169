-- ===== src/Mdns/Witnesses.antt =====
-- The theorems on the mDNS responder at a daemon named SLC-000001.
use sdr_slc_rtld.Base.{
  ◌≤◌, ◌≡◌, refl, false, true, none, some, List, [], ◌∷◌, ◌++◌, Bytes, codes, length, eq_bytes,
  arith,
}
use sdr_slc_rtld.Libc.{until_nul}
use sdr_slc_rtld.Mdns.Packet.{Dns, Service, capacity, dns_name, send_records}
use sdr_slc_rtld.Mdns.Query.{all_records, no_records, dns_read_name, records_for, records_for_query}
use sdr_slc_rtld.Mdns.Start.{Txt}
use sdr_slc_rtld.Mdns.Avahi.{
  AvahiHost, Backend, initial_backend, group, running, established, mdns_avahi_start,
  mdns_avahi_stop,
}
use sdr_slc_rtld.Mdns.Balanced.{makes, frees}
use sdr_slc_rtld.Mdns.Freed.{on_group, after, mdns_avahi_stop-frees}
use sdr_slc_rtld.Mdns.Fits.{send_records-fits}
use sdr_slc_rtld.Mdns.Reads.{ReadsWithin, dns_read_name-ReadsWithin}
use sdr_slc_rtld.Mdns.Names.{AllLabels, name_text, joined}
use sdr_slc_rtld.Mdns.RoundTrip.{dns_read_name-dns_name}
use sdr_slc_rtld.Mdns.Answers.{send_records-silent, AsksOnce, query, records_for_query-query}

abbrev dongle : Service
dongle = record {
  instance_name = codes "SLC-000001";
  ip = 0x0a00a8c0;
  port = 50000;
  txt = codes "name=SLC-000001" ∷ codes "proto=sdr-slc" ∷ [];
}

abbrev type_labels : List Bytes
type_labels = codes "_sdr-slc" ∷ codes "_tcp" ∷ codes "local" ∷ []

type_labels-AllLabels : AllLabels type_labels
type_labels-AllLabels = (
  record { some_bytes = omega arith; few_bytes = omega arith; dotless = ground arith },
  (
    record { some_bytes = omega arith; few_bytes = omega arith; dotless = ground arith },
    (record { some_bytes = omega arith; few_bytes = omega arith; dotless = ground arith }, tt),
  ),
)

-- A query of one question.
abbrev head : Bytes
head = 0 ∷ 0 ∷ 0 ∷ 0 ∷ 0 ∷ 1 ∷ 0 ∷ 0 ∷ 0 ∷ 0 ∷ 0 ∷ 0 ∷ []

head-AsksOnce : AsksOnce head
head-AsksOnce = record { long = refl; asks = omega arith; once = refl }

send_records-fits_example :
    (p : Bytes) × (send_records dongle all_records 120 ≡ some p) × (length p ≤ capacity)
send_records-fits_example = send_records-fits dongle 120 all_records (omega arith)

dns_read_name-ReadsWithin_example :
    ReadsWithin
      (5 ∷ b'l' ∷ b'o' ∷ b'c' ∷ b'a' ∷ b'l' ∷ 0 ∷ [])
      0
      16
      (dns_read_name (5 ∷ b'l' ∷ b'o' ∷ b'c' ∷ b'a' ∷ b'l' ∷ 0 ∷ []) 0 16)
dns_read_name-ReadsWithin_example =
    dns_read_name-ReadsWithin (5 ∷ b'l' ∷ b'o' ∷ b'c' ∷ b'a' ∷ b'l' ∷ 0 ∷ []) 16 0 (omega arith)

abbrev fresh : Dns
fresh = record { bytes = head; overflow = false }

dns_read_name-dns_name_example :
    dns_read_name ((dns_name (name_text type_labels) fresh).bytes ++ (0 ∷ 12 ∷ [])) 12 256
    ≡ some (joined [] type_labels, length (dns_name (name_text type_labels) fresh).bytes)
dns_read_name-dns_name_example =
    dns_read_name-dns_name type_labels fresh (0 ∷ 12 ∷ []) 256 type_labels-AllLabels (omega arith)
      (omega arith) (omega arith)

-- The response with all records.
abbrev response : Bytes
response = elim (send_records dongle all_records 120) [ none ↦ [] | some p ↦ p ]

response-sent : send_records dongle all_records 120 ≡ some response
unfolding send_records
response-sent = refl

send_records-silent_example : records_for_query dongle response ≡ no_records
send_records-silent_example =
    send_records-silent dongle dongle all_records 120 response response-sent

-- The service type is asked for: all records are sent.
browse : records_for dongle (until_nul (joined [] type_labels)) 12 ≡ all_records
unfolding records_for eq_bytes until_nul
browse = refl

records_for_query-query_example :
    records_for_query dongle (query dongle type_labels head 12 1)
    ≡ records_for dongle (until_nul (joined [] type_labels)) 12
records_for_query-query_example =
    records_for_query-query dongle type_labels head 12 1 head-AsksOnce type_labels-AllLabels
      (omega arith) (omega arith) (omega arith)

-- avahi-daemon runs already when the client is made.
abbrev at_home : AvahiHost
at_home = record {
  new_poll = true;
  calls_back =
      some (running, record { new_group = true; is_empty = true; added = true; committed = true });
  new_client = true;
  poll_starts = true;
}

abbrev labels_txt : Txt
labels_txt = record {
  name = codes "SLC-000001";
  proto = codes "sdr-slc";
  proto_ver = codes "1.0";
  functions = codes "rx";
  hw = codes "RTL-SDR-v4";
  fw = codes "sdr-slc-rtld/1.0";
  minhz = 500000;
  maxhz = 1766000000;
}

abbrev ended : Backend
ended = mdns_avahi_stop (
    after (on_group established ∷ [])
      (mdns_avahi_start at_home (codes "SLC-000001") 4620 labels_txt initial_backend).1)

mdns_avahi_stop-frees_example : makes group ended.calls ≡ frees group ended.calls
mdns_avahi_stop-frees_example =
    mdns_avahi_stop-frees at_home (codes "SLC-000001") 4620 labels_txt (on_group established ∷ [])
      group

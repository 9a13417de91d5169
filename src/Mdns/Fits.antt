-- ===== src/Mdns/Fits.antt =====
-- common/mdns_builtin.c: the responses fit their buffer.
use sdr_slc_rtld.Base.{
  ℕ, ◌+◌, ◌/◌, ◌^◌, ◌≤◌, ◌≡◌, refl, ◌∙◌, Bool, true, false, none, some, Bytes, length, length-take,
  arith, ◌++◌, ◌∷◌,
}
use sdr_slc_rtld.Mdns.Packet.{
  capacity, dns_init, Service, service_type, instance_fqdn, host_fqdn, Which, Draft, put_ptr,
  put_srv, put_txt, put_a, when, put_answers, put_header, send_records,
}
use sdr_slc_rtld.Mdns.Room.{
  Takes-chain, Takes-le, put8-Takes, put16-Takes, dns_name-Takes, put_record-Takes, strings_size,
  put_strings-Takes, length-set,
}

-- The same of a branch of send_records.
record Steps (n : ℕ) (f : Draft → Draft) : Type 0 where
  at :
      (w : Draft)
      → w.dns.overflow ≡ false
      → length w.dns.bytes + n ≤ capacity
      → ((f w).dns.overflow ≡ false) × (length (f w).dns.bytes ≤ length w.dns.bytes + n)

Steps-when :
    {n : ℕ} {f : Draft → Draft} (b : Bool) (m : ℕ) (w : Draft)
    → Steps n f
    → w.dns.overflow ≡ false
    → length w.dns.bytes ≤ m
    → m + n ≤ capacity
    → ((when b f w).dns.overflow ≡ false) × (length (when b f w).dns.bytes ≤ m + n)
Steps-when true m w s o l r =
    let (o', l') = s.at w o (omega (arith, l, r)) in (o', omega (arith, l, l'))
Steps-when false m w s o l r = (o, omega (arith, l))

module _ (s : Service) (ttl : ℕ) where
  instance_length : length (instance_fqdn s) ≤ 95
  instance_length = omega (arith, length-take 95 (s.instance_name ++ (b'.' ∷ service_type)))

  host_length : length (host_fqdn s) ≤ 79
  host_length = omega (arith, length-take 79 (s.instance_name ++ _))

  put_ptr-Steps : Steps 128 (put_ptr s ttl)
  unfolding put_ptr
  put_ptr-Steps = record {
    at = λ w.
        (Takes-le (omega (arith, instance_length))
            (put_record-Takes none service_type 12 1 ttl _ (dns_name-Takes (instance_fqdn s)))).at
          w.dns;
  }

  put_srv-Steps : Steps 193 (put_srv s ttl)
  unfolding put_srv
  put_srv-Steps = record {
    at = λ w.
        (Takes-le (omega (arith, instance_length, host_length)) (
            put_record-Takes w.inst_off (instance_fqdn s) 33 32769 ttl _ (
              Takes-chain
                (Takes-chain (Takes-chain (put16-Takes 0) (put16-Takes 0)) (put16-Takes s.port))
                (dns_name-Takes (host_fqdn s))))).at
          w.dns;
  }

  put_txt-Steps : Steps (107 + strings_size s.txt) (put_txt s ttl)
  unfolding put_txt
  put_txt-Steps = record {
    at = λ w.
        (Takes-le (omega (arith, instance_length)) (
            put_record-Takes w.inst_off (instance_fqdn s) 16 32769 ttl _
              (put_strings-Takes s.txt))).at
          w.dns;
  }

  put_a-Steps : Steps 95 (put_a s ttl)
  unfolding put_a
  put_a-Steps = record {
    at = λ w.
        (Takes-le (omega (arith, host_length)) (
            put_record-Takes w.host_off (host_fqdn s) 1 32769 ttl _ (
              Takes-chain
                (Takes-chain (Takes-chain (put8-Takes s.ip) (put8-Takes (s.ip / 2 ^ 8)))
                  (put8-Takes (s.ip / 2 ^ 16)))
                (put8-Takes (s.ip / 2 ^ 24))))).at
          w.dns;
  }

  module _ (which : Which) (small : strings_size s.txt ≤ 489) where
    put_answers-fits :
        ((put_answers s which ttl).dns.overflow ≡ false)
        × (length (put_answers s which ttl).dns.bytes ≤ capacity)
    unfolding put_answers
    put_answers-fits =
        let w : Draft = record { dns = dns_init; inst_off = none; host_off = none; ancount = 0 } in
        let w₁ = when which.ptr (put_ptr s ttl) w in
        let w₂ = when which.srv (put_srv s ttl) w₁ in
        let w₃ = when which.txt (put_txt s ttl) w₂ in
        let (o₁, l₁) = Steps-when which.ptr 12 w put_ptr-Steps refl (omega arith) (omega arith) in
        let (o₂, l₂) = Steps-when which.srv 140 w₁ put_srv-Steps o₁ l₁ (omega arith) in
        let (o₃, l₃) = Steps-when which.txt 333 w₂ put_txt-Steps o₂ l₂ text in
        let (o₄, l₄) =
          Steps-when which.a (333 + (107 + strings_size s.txt)) w₃ put_a-Steps o₃ l₃ address in
        (o₄, total _ l₄)
      where
        text : 333 + (107 + strings_size s.txt) ≤ capacity
        text = omega (arith, small)

        address : 333 + (107 + strings_size s.txt) + 95 ≤ capacity
        address = omega (arith, small)

        total : (n : ℕ) → n ≤ 333 + (107 + strings_size s.txt) + 95 → n ≤ capacity
        total n h = omega (arith, h, small)

    -- A response is sent for every set of records and every instance name, and it fits the buffer of
    -- 1024 bytes, if the TXT strings with their length bytes add up to 489 at most.
    pub send_records-fits :
        (p : Bytes) × (send_records s which ttl ≡ some p) × (length p ≤ capacity)
    unfolding send_records put_header
    send_records-fits =
        let (o, l) = put_answers-fits in
        let w = put_answers s which ttl in
        (put_header w.ancount w.dns.bytes, rw o refl, omega (arith, l, same w.ancount w.dns.bytes))
      where
        same : (n : ℕ) (b : Bytes) → length (put_header n b) ≡ length b
        same n b = length-set _ 7 _ ∙ length-set _ 6 _ ∙ length-set _ 3 0 ∙ length-set b 2 132

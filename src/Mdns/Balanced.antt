-- ===== src/Mdns/Balanced.antt =====
-- common/mdns_avahi.c: the backend holds what it has made and not freed.
use sdr_slc_rtld.Base.{
  ℕ, ◌+◌, ◌≡◌, refl, ap, ◌∙◌, not, if◌then◌else◌, Bool, true, false, Option, none, some, List, [],
  ◌∷◌, arith,
}
use sdr_slc_rtld.Mdns.Avahi.{
  Kind, poll, client, group, AvahiCall, made, freed, poll_stopped, Backend, GroupState, ClientState,
  GroupAnswers, AvahiHost, uncommited, registering, established, collision, failure,
  client_registering, running, client_collision, client_failure, connecting, group_cb, add_service,
  publish_service, client_cb, free_group, free_client, free_poll, mdns_avahi_stop, call_back,
  make_client,
}

abbrev pub same_kind : Kind → Kind → Bool
same_kind poll poll = true
same_kind client client = true
same_kind group group = true
same_kind _ _ = false

abbrev pub number : Bool → ℕ
number true = 1
number false = 0

-- How many objects of a kind have been made, and freed.
abbrev pub makes : Kind → List AvahiCall → ℕ
makes k [] = 0
makes k (made l ∷ cs) = number (same_kind k l) + makes k cs
makes k (c ∷ cs) = makes k cs

abbrev pub frees : Kind → List AvahiCall → ℕ
frees k [] = 0
frees k (freed l ∷ cs) = number (same_kind k l) + frees k cs
frees k (c ∷ cs) = frees k cs

-- One object of a kind that the backend holds has not been freed.
abbrev pub Even : Kind → Bool → List AvahiCall → Type 0
Even k held calls = makes k calls ≡ frees k calls + number held

pub record Balanced (b : Backend) : Type 0 where
  pub polls : Even poll b.has_poll b.calls
  pub clients : Even client b.has_client b.calls
  pub groups : Even group b.has_group b.calls

if-Balanced :
    (c : Bool) (x y : Backend)
    → (c ≡ true → Balanced x)
    → (c ≡ false → Balanced y)
    → Balanced (if c then x else y)
if-Balanced true x y r q = r refl
if-Balanced false x y r q = q refl

pub group_cb-Balanced : (s : GroupState) (b : Backend) → Balanced b → Balanced (group_cb s b)
unfolding group_cb
group_cb-Balanced uncommited b r = r
group_cb-Balanced registering b r = r
group_cb-Balanced established b r = record {
  polls = r.polls;
  clients = r.clients;
  groups = r.groups;
}
group_cb-Balanced collision b r = record { polls = r.polls; clients = r.clients; groups = r.groups }
group_cb-Balanced failure b r = record { polls = r.polls; clients = r.clients; groups = r.groups }

add_service-Balanced : (a : GroupAnswers) (b : Backend) → Balanced b → Balanced (add_service a b)
unfolding add_service
add_service-Balanced a b r = record {
  polls = ground (arith, r.polls);
  clients = ground (arith, r.clients);
  groups = ground (arith, r.groups);
}

-- A group that has just been made.
made_group-Balanced :
    (b : Backend)
    → Balanced b
    → b.has_group ≡ false
    → Balanced (record b { has_group = true; calls = made group ∷ b.calls })
made_group-Balanced b r e = record {
  polls = omega (arith, r.polls);
  clients = omega (arith, r.clients);
  groups = omega (arith, r.groups, ap number e);
}

publish_service-Balanced :
    (a : GroupAnswers) (b : Backend) → Balanced b → Balanced (publish_service a b)
unfolding publish_service
publish_service-Balanced a b r =
    if-Balanced b.has_group _ _ (λ _. add_service-Balanced a b r)
      (λ e.
        if-Balanced a.new_group _ b
          (λ _.
            add_service-Balanced a (record b { has_group = true; calls = made group ∷ b.calls })
              (made_group-Balanced b r e))
          (λ _. r))

pub client_cb-Balanced :
    (s : ClientState) (a : GroupAnswers) (b : Backend) → Balanced b → Balanced (client_cb s a b)
unfolding client_cb
client_cb-Balanced running a b r = publish_service-Balanced a b r
client_cb-Balanced client_failure a b r = record {
  polls = r.polls;
  clients = r.clients;
  groups = r.groups;
}
client_cb-Balanced connecting a b r = r
client_cb-Balanced client_registering a b r =
    if-Balanced b.has_group _ _
      (λ _. record { polls = r.polls; clients = r.clients; groups = r.groups })
      (λ _. record { polls = r.polls; clients = r.clients; groups = r.groups })
client_cb-Balanced client_collision a b r =
    if-Balanced b.has_group _ _
      (λ _. record { polls = r.polls; clients = r.clients; groups = r.groups })
      (λ _. record { polls = r.polls; clients = r.clients; groups = r.groups })

module _ (b : Backend) (r : Balanced b) where
  free_group-Balanced : Balanced (free_group b)
  unfolding free_group
  free_group-Balanced = record {
    polls = ground (arith, r.polls);
    clients = ground (arith, r.clients);
    groups = ground (arith, r.groups);
  }

  free_client-Balanced : Balanced (free_client b)
  unfolding free_client
  free_client-Balanced = record {
    polls = ground (arith, r.polls);
    clients = ground (arith, r.clients);
    groups = ground (arith, r.groups);
  }

  free_poll-Balanced : Balanced (free_poll b)
  unfolding free_poll
  free_poll-Balanced = record {
    polls = ground (arith, r.polls);
    clients = ground (arith, r.clients);
    groups = ground (arith, r.groups);
  }

pub mdns_avahi_stop-Balanced : (b : Backend) → Balanced b → Balanced (mdns_avahi_stop b)
unfolding mdns_avahi_stop
mdns_avahi_stop-Balanced b r =
    let b₁ : Backend = if b.has_poll then record b { calls = poll_stopped ∷ b.calls } else b in
    let r₁ : Balanced b₁ =
      if-Balanced b.has_poll _ b
        (λ _. record { polls = r.polls; clients = r.clients; groups = r.groups }) (λ _. r) in
    let r₂ = free_group-Balanced b₁ r₁ in
    let r₃ = free_client-Balanced (free_group b₁) r₂ in
    let r₄ = free_poll-Balanced (free_client (free_group b₁)) r₃ in
    record { polls = r₄.polls; clients = r₄.clients; groups = r₄.groups }

pub mdns_avahi_stop-empty :
    (b : Backend)
    → ((mdns_avahi_stop b).has_poll ≡ false)
      × ((mdns_avahi_stop b).has_client ≡ false)
      × ((mdns_avahi_stop b).has_group ≡ false)
unfolding mdns_avahi_stop free_group free_client free_poll
mdns_avahi_stop-empty b = (ground arith, ground arith, ground arith)

call_back-Balanced :
    (o : Option (ClientState × GroupAnswers)) (b : Backend) → Balanced b → Balanced (call_back o b)
unfolding call_back
call_back-Balanced none b r = r
call_back-Balanced (some c) b r = client_cb-Balanced c.0 c.1 b r

call_back-has_client :
    (o : Option (ClientState × GroupAnswers)) (b : Backend)
    → (call_back o b).has_client ≡ b.has_client
unfolding call_back client_cb publish_service add_service
call_back-has_client none b = refl
call_back-has_client (some (running, a)) b = ground arith
call_back-has_client (some (client_failure, a)) b = refl
call_back-has_client (some (connecting, a)) b = refl
call_back-has_client (some (client_registering, a)) b = ground arith
call_back-has_client (some (client_collision, a)) b = ground arith

free_poll-has_client : (b : Backend) → (free_poll b).has_client ≡ b.has_client
unfolding free_poll
free_poll-has_client b = ground arith

-- A client that has just been made, or has not.
made_client-Balanced :
    (b : Backend)
    → Balanced b
    → b.has_client ≡ false
    → Balanced (record b { has_client = true; calls = made client ∷ b.calls })
made_client-Balanced b r e = record {
  polls = omega (arith, r.polls);
  clients = omega (arith, r.clients, ap number e);
  groups = omega (arith, r.groups);
}

no_client-Balanced :
    (b : Backend) → Balanced b → b.has_client ≡ false → Balanced (record b { has_client = false })
no_client-Balanced b r e = record {
  polls = r.polls;
  clients = omega (arith, r.clients, ap number e);
  groups = r.groups;
}

pub make_client-Balanced :
    (h : AvahiHost) (b : Backend) → Balanced b → b.has_client ≡ false → Balanced (make_client h b).1
unfolding make_client
make_client-Balanced h b r e = by_client h.new_client h.poll_starts
  where
    b' : Backend
    b' = call_back h.calls_back b

    r' : Balanced b'
    r' = call_back-Balanced h.calls_back b r

    none_yet : b'.has_client ≡ false
    none_yet = call_back-has_client h.calls_back b ∙ e

    b'' : Backend
    b'' = record b' { has_client = true; calls = made client ∷ b'.calls }

    by_client :
        (new starts : Bool)
        → Balanced
            (if◌then◌else◌ {A = Bool × Backend}
              (not new)
              (false, record (free_poll b') { has_client = false })
              (if starts then (true, b'') else (false, mdns_avahi_stop b''))).1
    by_client true true = made_client-Balanced b' r' none_yet
    by_client true false = mdns_avahi_stop-Balanced b'' (made_client-Balanced b' r' none_yet)
    by_client false starts =
        no_client-Balanced (free_poll b') (free_poll-Balanced b' r')
          (free_poll-has_client b' ∙ none_yet)

-- ===== src/Mdns/Avahi.antt =====
-- common/mdns_avahi.c: the backend on top of avahi-daemon, with libavahi as the calls made to it.
use sdr_slc_rtld.Base.{
  ℕ, Bool, true, false, not, Option, none, some, List, [], ◌∷◌, Bytes, if◌then◌else◌,
}
use sdr_slc_rtld.Mdns.Packet.{printed}
use sdr_slc_rtld.Mdns.Start.{Txt, txt_strings}

-- The objects of libavahi that the backend holds.
pub data Kind : Type 0 where
  poll client group : Kind

-- A call of libavahi that makes, frees or starts something, or changes the entry group.
pub data AvahiCall : Type 0 where
  made freed : Kind → AvahiCall
  poll_stopped group_reset group_committed : AvahiCall
  service_added : Bytes → ℕ → List Bytes → AvahiCall

-- The globals: whether g_poll, g_client and g_group are set, what is published, and the calls that
-- have succeeded, newest first.
pub record Backend : Type 0 where
  pub has_poll : Bool
  pub has_client : Bool
  pub has_group : Bool
  pub instance_name : Bytes
  pub port : ℕ
  pub published : Bool
  pub txt : List Bytes
  pub calls : List AvahiCall

abbrev pub initial_backend : Backend
initial_backend = record {
  has_poll = false;
  has_client = false;
  has_group = false;
  instance_name = [];
  port = 0;
  published = false;
  txt = [];
  calls = [];
}

-- `AvahiEntryGroupState` and `AvahiClientState`.
pub data GroupState : Type 0 where
  uncommited registering established collision failure : GroupState

pub data ClientState : Type 0 where
  client_registering running client_collision client_failure connecting : ClientState

-- What libavahi answers in publish_service.
pub record GroupAnswers : Type 0 where
  pub new_group : Bool
  pub is_empty : Bool
  pub added : Bool
  pub committed : Bool

-- group_cb.
unfoldable pub group_cb : GroupState → Backend → Backend
group_cb established b = record b { published = true }
group_cb collision b = record b { published = false }
group_cb failure b = record b { published = false }
group_cb uncommited b = b
group_cb registering b = b

-- publish_service behind the making of the group.
unfoldable pub add_service : GroupAnswers → Backend → Backend
add_service a b =
    if not a.is_empty
    then b
    else if not a.added
    then b
    else (let b' : Backend = record b {
      calls = service_added b.instance_name b.port b.txt ∷ b.calls;
    } in
        if a.committed then record b' { calls = group_committed ∷ b'.calls } else b')

-- publish_service.
unfoldable pub publish_service : GroupAnswers → Backend → Backend
unfolding add_service
publish_service a b =
    if b.has_group
    then add_service a b
    else if a.new_group
    then add_service a (record b { has_group = true; calls = made group ∷ b.calls })
    else b

-- client_cb.
unfoldable pub client_cb : ClientState → GroupAnswers → Backend → Backend
unfolding publish_service
client_cb running a b = publish_service a b
client_cb client_failure a b = record b { published = false }
client_cb connecting a b = b
client_cb _ a b =
    let b' : Backend = record b { published = false } in
    if b.has_group then record b' { calls = group_reset ∷ b.calls } else b'

-- `if (p) { free(p); p = NULL; }` for each of the three.
unfoldable pub free_group : Backend → Backend
free_group b =
    if b.has_group then record b { has_group = false; calls = freed group ∷ b.calls } else b

unfoldable pub free_client : Backend → Backend
free_client b =
    if b.has_client then record b { has_client = false; calls = freed client ∷ b.calls } else b

unfoldable pub free_poll : Backend → Backend
free_poll b = if b.has_poll then record b { has_poll = false; calls = freed poll ∷ b.calls } else b

-- mdns_avahi_stop.
unfoldable pub mdns_avahi_stop : Backend → Backend
unfolding free_group free_client free_poll
mdns_avahi_stop b =
    let b₁ = if b.has_poll then record b { calls = poll_stopped ∷ b.calls } else b in
    record (free_poll (free_client (free_group b₁))) { published = false }

-- What libavahi answers in mdns_avahi_start. avahi_client_new calls client_cb before it returns,
-- with the state and the answers of `calls_back`, if it gets that far.
pub record AvahiHost : Type 0 where
  pub new_poll : Bool
  pub calls_back : Option (ClientState × GroupAnswers)
  pub new_client : Bool
  pub poll_starts : Bool

unfoldable pub call_back : Option (ClientState × GroupAnswers) → Backend → Backend
unfolding client_cb
call_back none b = b
call_back (some c) b = client_cb c.0 c.1 b

-- From avahi_client_new on.
unfoldable pub make_client : AvahiHost → Backend → Bool × Backend
unfolding call_back free_poll mdns_avahi_stop
make_client h b =
    let b' = call_back h.calls_back b in
    if not h.new_client
    then (false, record (free_poll b') { has_client = false })
    else (let b'' : Backend = record b' { has_client = true; calls = made client ∷ b'.calls } in
        if h.poll_starts then (true, b'') else (false, mdns_avahi_stop b''))

-- mdns_avahi_start; the flag is false where it returns -1.
unfoldable pub mdns_avahi_start : AvahiHost → Bytes → ℕ → Txt → Backend → Bool × Backend
unfolding txt_strings make_client
mdns_avahi_start h instance_name port txt b =
    let b' : Backend = record b {
      instance_name = printed 64 instance_name;
      port = port;
      txt = txt_strings txt;
      has_poll = h.new_poll;
    } in
    if h.new_poll then make_client h (record b' { calls = made poll ∷ b.calls }) else (false, b')

-- ===== src/Cp/Names.antt =====
-- cp/cp_session.c: the names in s_dispatch, and what the search over them finds.
use mathlib.Core.Option.{some-injective}
use sdr_slc_rtld.Base.{
  ap, ◌≡◌, refl, ◌∙◌, sym, Bool, true, false, some, List, [], ◌∷◌, Bytes, codes, eq_bytes,
  if◌then◌else◌, arith,
}
use sdr_slc_rtld.Cp.Dispatch.{
  Command, hello, authenticate, get_capabilities, set_frequency, set_sample_rate, set_control,
  open_stream, start_rx, stop_rx, close_stream, ping, get_status, get_control, get_clock_status,
  dispatch_table, find_command,
}

-- The name of a command in the table.
unfoldable pub name_of : Command → Bytes
name_of hello = codes "hello"
name_of authenticate = codes "authenticate"
name_of get_capabilities = codes "get_capabilities"
name_of set_frequency = codes "set_frequency"
name_of set_sample_rate = codes "set_sample_rate"
name_of set_control = codes "set_control"
name_of open_stream = codes "open_stream"
name_of start_rx = codes "start_rx"
name_of stop_rx = codes "stop_rx"
name_of close_stream = codes "close_stream"
name_of ping = codes "ping"
name_of get_status = codes "get_status"
name_of get_control = codes "get_control"
name_of get_clock_status = codes "get_clock_status"

abbrev pub AllNamed : List (Bytes × Command) → Type 0
AllNamed [] = Unit
AllNamed ((n, c) ∷ t) = (n ≡ name_of c) × AllNamed t

module _ (cmd : Bytes) where
  pub find_command-name_of :
      (t : List (Bytes × Command)) {c : Command}
      → AllNamed t
      → find_command cmd t ≡ some c
      → eq_bytes cmd (name_of c) ≡ true
  unfolding find_command
  find_command-name_of [] a e = ground arith
  find_command-name_of ((n, d) ∷ t) {c} (a, named) e =
      by_test (eq_bytes cmd n) refl e (find_command-name_of t named)
    where
      by_test :
          (b : Bool)
          → eq_bytes cmd n ≡ b
          → (if b then some d else find_command cmd t) ≡ some c
          → (find_command cmd t ≡ some c → eq_bytes cmd (name_of c) ≡ true)
          → eq_bytes cmd (name_of c) ≡ true
      by_test true k e rest =
          let same = some-injective d c e in
          sym (ap (λ x. eq_bytes cmd (name_of x)) same) ∙ sym (ap (eq_bytes cmd) a) ∙ k
      by_test false k e rest = rest e

pub named : AllNamed dispatch_table
unfolding name_of
named = (
  refl,
  (
    refl,
    (
      refl,
      (refl, (refl, (refl, (refl, (refl, (refl, (refl, (refl, (refl, (refl, (refl, tt))))))))))),
    ),
  ),
)

-- ===== src/Cp/Tests.antt =====
-- A device, a client and its messages, for the tests and the witnesses.
use sdr_slc_rtld.Base.{
  ℕ, zero, suc, sym, ◌∙◌, get_or, length, eq_bytes, ◌≡◌, refl, Bool, true, false, Option, none,
  some, List, [], ◌∷◌, codes, ◌==◌, Bytes,
}
use sdr_slc_rtld.Base.Int.{pos, pos_part}
use sdr_slc_rtld.Rtl.Bridge.{
  Device, DevCall, get_center_freq, get_sample_rate, get_tuner_gain, initial_bridge, Bridge,
}
use sdr_slc_rtld.Vita.Sessions.{cleared, Vita, Datagram}
use sdr_slc_rtld.Cp.World.{World, Env, Input, free_slot, no_token, is_streaming}
use sdr_slc_rtld.Json.Parser.{jsmn_parse}
use sdr_slc_rtld.Json.Tokens.{Msg}
use sdr_slc_rtld.Cp.Envelope.{Attempt, accepts}
use sdr_slc_rtld.Cp.Lifecycle.{session_create}
use sdr_slc_rtld.Cp.Dispatch.{
  cmd_addresses_rx, handle_payload, frame, Command, hello, open_stream, start_rx, read_request,
  find_command,
}
use sdr_slc_rtld.Cp.Phase.{
  stage, at_rest, Represents, Phase, free_rx, claimed_rx, open_rx, streaming_rx,
}
use sdr_slc_rtld.Cp.Phase.Access.{IsLive}
use sdr_slc_rtld.Cp.Phase.Serve.{parsed_command}
use sdr_slc_rtld.Cp.Phase.Reach.{Boots, Reached, boots, steps, connects, serves, Reached-InPhase}

abbrev pub quiet_value : List DevCall → DevCall → ℕ
quiet_value past get_center_freq = 7100000
quiet_value past get_sample_rate = 2048000
quiet_value past get_tuner_gain = 197
quiet_value past _ = 0

-- A dongle that does what it is told, with three gain steps.
abbrev pub dongle : Device
dongle = record {
  status = λ past c. pos 0;
  value = quiet_value;
  gains = pos 0 ∷ pos 197 ∷ pos 496 ∷ [];
}

abbrev pub lab : Env
lab = record {
  device = dongle;
  parse = jsmn_parse;
  gain_near = λ text g. pos_part g == 197;
  gain_tenths = λ text. pos 197;
  is_volts = λ text v. v == 0;
}

abbrev pub noon : Input
noon = record {
  mono_ns = 70000000000;
  epoch = 1700000000;
  random = some (1 ∷ 2 ∷ []);
  source_ip = 3232235777;
  board_temperature = none;
  supply_voltage = none;
}

abbrev pub idle_vita : Vita
idle_vita = record {
  sock_open = true;
  context_enabled = true;
  sent = [];
  sessions = cleared ∷ cleared ∷ cleared ∷ cleared ∷ [];
}

abbrev pub open_bridge : Bridge
open_bridge = record initial_bridge { opened = true }

-- The daemon behind its start, with or without authentication.
abbrev pub started : Bool → World
started locked = record {
  table = λ i. free_slot;
  rx_owner = none;
  stream_counter = 0;
  rx_auth = locked;
  keys = record { key_id = codes "default"; psk = codes "secret" } ∷ [];
  gains = none;
  gain_default = pos 0;
  bridge = open_bridge;
  vita = idle_vita;
  out = [];
}

abbrev pub hello_text : Bytes
hello_text =
    codes
      "{\"type\":\"request\",\"id\":\"1\",\"command\":\"hello\",\"params\":{\"supported_protocol_versions\":[\"1.0\"]}}"

abbrev pub open_text : Bytes
open_text =
    codes
      "{\"type\":\"request\",\"id\":\"2\",\"command\":\"open_stream\",\"params\":{\"function\":\"rx\",\"protocol\":\"vita49\",\"vita\":{\"destination\":{\"ip\":\"192.168.1.7\",\"port\":5000}}}}"

abbrev pub start_text : Bytes
start_text =
    codes
      "{\"type\":\"request\",\"id\":\"3\",\"command\":\"start_rx\",\"params\":{\"stream_id\":\"rx-1\"}}"

abbrev pub connected : World
connected = (session_create 5 3232235783 (started false)).1

abbrev pub greeted : World
greeted = handle_payload lab noon 0 hello_text connected

abbrev pub ready : World
ready = handle_payload lab noon 0 open_text greeted

abbrev pub flowing : World
flowing = handle_payload lab noon 0 start_text ready

-- A second client, while the first one streams.
abbrev pub crowded : World
crowded = (session_create 6 3232235784 flowing).1

-- What the run from a hello to a stream leaves, step by step.
pub run :
    IsLive 0 greeted
    × (stage (greeted.table 0) ≡ at_rest)
    × (greeted.rx_owner ≡ none)
    × IsLive 0 ready
    × (parsed_command 0 start_text (lab.parse start_text) ready ≡ some start_rx)
    × IsLive 1 crowded
    × (crowded.rx_owner ≡ some 0)
    × (is_streaming (crowded.table 0).state ≡ true)
    × ((get_or crowded.vita.sessions 0 cleared).active ≡ true)
    × (length crowded.vita.sent ≡ 1)
unfolding handle_payload jsmn_parse session_create sdr_slc_rtld.Cp.Dispatch.serve_message
    sdr_slc_rtld.Json.Tokens.tok_find_key sdr_slc_rtld.Json.Tokens.tok_eq sdr_slc_rtld.Base.eq_bytes
    sdr_slc_rtld.Json.Tokens.tok_str find_command sdr_slc_rtld.Cp.Dispatch.run_command
    sdr_slc_rtld.Cp.Envelope.cmd_hello sdr_slc_rtld.Cp.Cmd.◌>>=◌ sdr_slc_rtld.Cp.Cmd.require
    sdr_slc_rtld.Cp.Cmd.refuse_if sdr_slc_rtld.Cp.Cmd.edit sdr_slc_rtld.Cp.Cmd.gets
    sdr_slc_rtld.Cp.Cmd.send_ok sdr_slc_rtld.Cp.Access.send_framed
    sdr_slc_rtld.Cp.Stream.cmd_open_stream sdr_slc_rtld.Cp.Params.require_function
    sdr_slc_rtld.Cp.Params.channel_ok sdr_slc_rtld.Cp.Access.rx_claim sdr_slc_rtld.Libc.inet_pton
    sdr_slc_rtld.Libc.strtoul sdr_slc_rtld.Cp.Access.broadcast
    sdr_slc_rtld.Cp.Access.alloc_stream_id sdr_slc_rtld.Cp.Stream.cmd_start_rx
    sdr_slc_rtld.Cp.Access.stream_name sdr_slc_rtld.Vita.Sessions.session_add
    sdr_slc_rtld.Vita.Sessions.add_loop sdr_slc_rtld.Rtl.Lifecycle.bridge_start
    sdr_slc_rtld.Cp.Cmd.send_event sdr_slc_rtld.Vita.Sessions.send_context
    sdr_slc_rtld.Vita.Sessions.anchored
run = (refl, refl, refl, refl, refl, refl, refl, refl, refl, refl)

started-Boots : Boots (started false)
started-Boots = record {
  table = λ j. refl;
  owner = refl;
  count = refl;
  runs = refl;
  slots = refl;
  inactive = no_session;
}
  where
    no_session : (t : ℕ) → (get_or idle_vita.sessions t cleared).active ≡ false
    no_session zero = refl
    no_session (suc zero) = refl
    no_session (suc (suc zero)) = refl
    no_session (suc (suc (suc zero))) = refl
    no_session (suc (suc (suc (suc t)))) = refl

connected-Reached : Reached lab connected
connected-Reached =
    steps (started false) connected (boots (started false) started-Boots)
      (connects 5 3232235783 (started false) refl)

pub greeted-Reached : Reached lab greeted
unfolding session_create
greeted-Reached =
    steps connected greeted connected-Reached (serves noon 0 hello_text connected refl (λ e. refl))

ready-Reached : Reached lab ready
ready-Reached =
    steps greeted ready greeted-Reached (serves noon 0 open_text greeted run.0 (λ e. run.1))

flowing-Reached : Reached lab flowing
flowing-Reached =
    steps ready flowing ready-Reached
      (serves noon 0 start_text ready run.3 (λ e. not_hello (sym run.4 ∙ e)))
  where
    not_hello : some start_rx ≡ some hello → stage (ready.table 0) ≡ at_rest
    not_hello e = cc

pub crowded-Reached : Reached lab crowded
crowded-Reached = steps flowing crowded flowing-Reached (connects 6 3232235784 flowing refl)

free_phase : (p : Phase) (w : World) → w.rx_owner ≡ none → Represents p w → Represents free_rx w
free_phase free_rx w e r = r
free_phase (claimed_rx j) w e r = let f = r.owner in cc
free_phase (open_rx j) w e r = let f = r.owner in cc
free_phase (streaming_rx j t) w e r = let f = r.owner in cc

pub greeted-Represents : Represents free_rx greeted
greeted-Represents =
    let r = Reached-InPhase lab greeted greeted-Reached in free_phase r.phase greeted run.2 r.shows

abbrev pub no_message : Msg
no_message = record { js = []; toks = λ k. no_token; ntok = 1 }

abbrev pub guess : Attempt
guess = record { method = codes "psk-hmac-sha256"; key_id = codes "default"; response = codes "00" }

pub refused_guess : accepts (started true).keys ((started true).table 0) guess ≡ false
unfolding accepts
refused_guess = refl

pub start_is_rx : cmd_addresses_rx (codes "start_rx") no_message ≡ true
unfolding cmd_addresses_rx eq_bytes
start_is_rx = refl

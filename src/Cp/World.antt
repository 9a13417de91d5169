-- ===== src/Cp/World.antt =====
-- cp/cp_session.h and cp/cp_session.c: the session table, the globals around it, and the frames
-- that leave. A frame is its fields: the text of messages, and constants, are left out.
use sdr_slc_rtld.Base.{ℕ, Bool, true, false, Option, none, some, List, [], Bytes, ◌==◌}
use sdr_slc_rtld.Base.{if◌then◌else◌}
use sdr_slc_rtld.Base.Int.{ℤ, pos}
use sdr_slc_rtld.Json.Tokens.{Tok, primitive, Parsed}
use sdr_slc_rtld.Auth.Verify.{Key}
use sdr_slc_rtld.Rtl.Bridge.{SamplingMode, Device, Bridge}
use sdr_slc_rtld.Vita.Packet.{IqFormat, int16}
use sdr_slc_rtld.Vita.Sessions.{Vita}

-- `SessionState`.
pub data SessionState : Type 0 where
  await_hello idle stream_open streaming : SessionState

abbrev pub is_await_hello : SessionState → Bool
is_await_hello await_hello = true
is_await_hello _ = false

abbrev pub is_streaming : SessionState → Bool
is_streaming streaming = true
is_streaming _ = false

abbrev pub is_stream_open : SessionState → Bool
is_stream_open stream_open = true
is_stream_open _ = false

-- `Session`, with the token array of its thread. No `vita_token` is -1. Gains are in tenths.
pub record Session : Type 0 where
  pub fd : ℕ
  pub state : SessionState
  pub client_ip : ℕ
  pub owns_rx : Bool
  pub client_name : Bytes
  pub nonce : Bytes
  pub nonce_hex : Bytes
  pub nonce_valid : Bool
  pub rx_unlocked : Bool
  pub auth_failures : ℕ
  pub auth_window_ns : ℕ
  pub close_after_reply : Bool
  pub has_stream : Bool
  pub stream_id : Bytes
  pub vita_stream_id : ℕ
  pub dest_ip : ℕ
  pub dest_port : ℕ
  pub iq_fmt : IqFormat
  pub vita_token : Option ℕ
  pub frequency_hz : ℕ
  pub sample_rate_sps : ℕ
  pub rf_gain_tenth_db : ℤ
  pub tokens : ℕ → Tok

abbrev pub no_token : Tok
no_token = record { kind = primitive; start = 0; stop = none; size = 0 }

-- What `memset(s, 0, sizeof(*s))` leaves; the token is 0, not -1.
abbrev pub free_slot : Session
free_slot = record {
  fd = 0;
  state = await_hello;
  client_ip = 0;
  owns_rx = false;
  client_name = [];
  nonce = [];
  nonce_hex = [];
  nonce_valid = false;
  rx_unlocked = false;
  auth_failures = 0;
  auth_window_ns = 0;
  close_after_reply = false;
  has_stream = false;
  stream_id = [];
  vita_stream_id = 0;
  dest_ip = 0;
  dest_port = 0;
  iq_fmt = int16;
  vita_token = some 0;
  frequency_hz = 0;
  sample_rate_sps = 0;
  rf_gain_tenth_db = pos 0;
  tokens = λ _. no_token;
}

pub data ErrorCode : Type 0 where
  invalid_request missing_parameter not_supported invalid_parameter in_use unauthorized : ErrorCode
  unknown_command unsupported_protocol_version unsupported_frequency device_error : ErrorCode
  stream_reconfiguration_required unsupported_sample_rate stream_already_open : ErrorCode
  unsupported_stream_protocol unsupported_format stream_not_found busy : ErrorCode

pub data ControlName : Type 0 where
  rf_gain agc bias_tee ppm_correction direct_sampling : ControlName

pub data Value : Type 0 where
  tenth_db : ℤ → Value
  flag : Bool → Value
  tenth_volts : ℕ → Value
  integer : ℤ → Value
  mode : SamplingMode → Value

pub data ControlState : Type 0 where
  free owned_by_me owned_by_other : ControlState

-- The object of get_capabilities.
pub record Capabilities : Type 0 where
  pub auth_psk : Bool
  pub min_hz : ℕ
  pub max_hz : ℕ
  pub rates : List ℕ
  pub preferred_rate : ℕ
  pub preferred_gain : ℤ
  pub reference_level : ℤ
  pub gain_min : ℤ
  pub gain_max : ℤ
  pub gains : List ℤ

-- The object of get_status. A sensor that cannot be read is `none`.
pub record Status : Type 0 where
  pub is_streaming : Bool
  pub control_state : ControlState
  pub frequency_hz : ℕ
  pub sample_rate_sps : ℕ
  pub actual_sample_rate_sps : ℕ
  pub reference_level : ℤ
  pub adc_overload : Bool
  pub adc_level : Option (ℕ × ℕ)
  pub gain : ℤ
  pub agc_on : Bool
  pub bias_tenth_volts : ℕ
  pub ppm : ℤ
  pub sampling_mode : SamplingMode
  pub board_temperature : Option ℤ
  pub supply_voltage : Option ℤ

-- The object of open_stream.
pub record Opened : Type 0 where
  pub stream_id : Bytes
  pub sample_rate_sps : ℕ
  pub sampling_mode : SamplingMode
  pub source_ip : ℕ
  pub dest_ip : ℕ
  pub dest_port : ℕ
  pub vita_stream_id : ℕ
  pub format : IqFormat

pub data Answer : Type 0 where
  hello_done : Option Bytes → Answer
  authenticated : Bool → Answer
  capabilities : Capabilities → Answer
  pong : Answer
  status : Status → Answer
  clock_status : ℕ → Answer
  applied_frequency : ℕ → Answer
  applied_sample_rate : ℕ → Answer
  applied_value : ControlName → Value → Answer
  control_value : ControlName → Value → Answer
  opened : Opened → Answer
  rx_streaming : Bool → Answer
  closed : Answer

pub data Reason : Type 0 where
  client_request control_lost : Reason

pub data Event : Type 0 where
  control_revoked : ControlState → Event
  stream_state : Bytes → Bool → Reason → Event
  frequency_changed : ℕ → Event
  sample_rate_changed : ℕ → ℕ → Event
  control_changed : ControlName → Value → Event
  capabilities_changed : Event
  adc_overloaded : Bytes → ℕ × ℕ → Event

-- The payload of a frame. `id` is the text of the id member as it is written out.
pub data Frame : Type 0 where
  ok_response : Bytes → Answer → Frame
  error_response : Bytes → ErrorCode → Frame
  auth_failed : Bytes → Option Bytes → Frame
  event : Event → Frame

-- Everything that the control plane reads and writes. `out` has each frame with the descriptor
-- that it was sent to, newest first. `gains` is s_gains once it is loaded.
pub record World : Type 0 where
  pub table : ℕ → Session
  pub rx_owner : Option ℕ
  pub stream_counter : ℕ
  pub rx_auth : Bool
  pub keys : List Key
  pub gains : Option (List ℤ)
  pub gain_default : ℤ
  pub bridge : Bridge
  pub vita : Vita
  pub out : List (ℕ × Frame)

-- What the code asks of others: librtlsdr, the tokeniser of json/jsmn.h, and `strtod` with the comparisons made of its
-- result: whether a text is within 0.05 of a gain in tenths, the gain in tenths that it rounds
-- to, and whether it is exactly that many tenths of a volt.
pub record Env : Type 0 where
  pub device : Device
  pub parse : Bytes → Parsed
  pub gain_near : Bytes → ℤ → Bool
  pub gain_tenths : Bytes → ℤ
  pub is_volts : Bytes → ℕ → Bool

-- What the system answers while one message is handled: the clocks, 16 random bytes or none,
-- the local address of the connection, and the sensors.
pub record Input : Type 0 where
  pub mono_ns : ℕ
  pub epoch : ℕ
  pub random : Option Bytes
  pub source_ip : ℕ
  pub board_temperature : Option ℤ
  pub supply_voltage : Option ℤ

abbrev pub update : (ℕ → Session) → ℕ → Session → ℕ → Session
update table i s j = if i == j then s else table j

abbrev pub put_session : ℕ → Session → World → World
put_session i s w = record w { table = update w.table i s }

-- ===== src/Main/Options.antt =====
-- main.c: the options of the command line.
use sdr_slc_rtld.Base.{
  ℕ, ◌-◌, ◌%◌, ◌^◌, Bool, true, false, ◌||◌, Option, none, some, List, [], ◌∷◌, Bytes, codes, take,
  eq_bytes, if◌then◌else◌,
}
use sdr_slc_rtld.Base.Int.{ℤ, pos, negsuc}
use sdr_slc_rtld.Libc.{strtol_int}
use sdr_slc_rtld.Rtl.Bridge.{SamplingMode, normal, direct_i, direct_q}

-- What getopt_long returns, with optarg where the option has an argument. `unknown` is '?'.
pub data Choice : Type 0 where
  port rx_port iface_name name rx_auth_method keys_path : Bytes → Choice
  normal_mode direct_i_mode direct_q_mode : Choice
  bias_on bias_kept agc_on : Choice
  ppm_text gain_text zero_point : Bytes → Choice
  no_context no_publication : Choice
  backend : Bytes → Choice
  to_syslog verbose help unknown : Choice

-- The variables of main. Gains are in tenths; the settings of the log are left out.
pub record Settings : Type 0 where
  pub cp_port : ℕ
  pub vita_src_port : ℕ
  pub iface : Option Bytes
  pub name_arg : Option Bytes
  pub samp_mode : SamplingMode
  pub bias_tee : Bool
  pub bias_persist : Bool
  pub agc : Bool
  pub ctx_packets : Bool
  pub no_mdns : Bool
  pub mdns_backend : Bytes
  pub rx_auth : Bool
  pub ppm : ℤ
  pub gain_tenth : ℤ
  pub keys_file : Bytes

abbrev pub default_keys_file : Bytes
default_keys_file = codes "/etc/sdr-slc/rtld.keys"

abbrev pub defaults : Settings
defaults = record {
  cp_port = 4620;
  vita_src_port = 4621;
  iface = none;
  name_arg = none;
  samp_mode = normal;
  bias_tee = false;
  bias_persist = false;
  agc = false;
  ctx_packets = true;
  no_mdns = false;
  mdns_backend = codes "builtin";
  rx_auth = false;
  ppm = pos 0;
  gain_tenth = pos 200;
  keys_file = default_keys_file;
}

-- What the loop over the options comes to: an exit code, or the settings.
pub data Plan : Type 0 where
  exits : ℕ → Plan
  runs : Settings → Plan

-- `(uint16_t)atoi(optarg)`.
unfoldable pub port_of : Bytes → ℕ
unfolding strtol_int
port_of s = elim (strtol_int s) [ pos n ↦ n % 2 ^ 16 | negsuc n ↦ (2 ^ 32 - 1 - n) % 2 ^ 16 ]

-- --rx-auth.
unfoldable pub choose_auth : Bytes → Settings → Plan
choose_auth s o =
    if eq_bytes s (codes "psk") || eq_bytes s (codes "psk-hmac-sha256")
    then runs (record o { rx_auth = true })
    else if eq_bytes s (codes "none")
    then runs (record o { rx_auth = false })
    else exits 2

-- atof is a parameter, with what is made of its result: `(int)(atof(s) * 10.0)`, and whether it
-- is from 96 to 160.
pub record Floats : Type 0 where
  pub tenths : Bytes → ℤ
  pub near_midpoint : Bytes → Bool

-- The switch of main.
unfoldable pub choose : Floats → Choice → Settings → Plan
unfolding port_of choose_auth strtol_int
choose f (port s) o = runs (record o { cp_port = port_of s })
choose f (rx_port s) o = runs (record o { vita_src_port = port_of s })
choose f (iface_name s) o = runs (record o { iface = some s })
choose f (name s) o = runs (record o { name_arg = some s })
choose f (rx_auth_method s) o = choose_auth s o
choose f (keys_path s) o = runs (record o { keys_file = take 511 s })
choose f normal_mode o = runs (record o { samp_mode = normal })
choose f direct_i_mode o = runs (record o { samp_mode = direct_i })
choose f direct_q_mode o = runs (record o { samp_mode = direct_q })
choose f bias_on o = runs (record o { bias_tee = true })
choose f bias_kept o = runs (record o { bias_tee = true; bias_persist = true })
choose f agc_on o = runs (record o { agc = true })
choose f (ppm_text s) o = runs (record o { ppm = strtol_int s })
choose f (gain_text s) o = runs (record o { gain_tenth = f.tenths s })
choose f (zero_point s) o = if f.near_midpoint s then runs o else exits 2
choose f no_context o = runs (record o { ctx_packets = false })
choose f no_publication o = runs (record o { no_mdns = true })
choose f (backend s) o = runs (record o { mdns_backend = s })
choose f to_syslog o = runs o
choose f verbose o = runs o
choose f help o = exits 0
choose f unknown o = exits 2

-- The loop over the options. `rest` is `optind < argc`.
unfoldable pub read_options : Floats → List Choice → Bool → Settings → Plan
unfolding choose
read_options f [] rest o = if rest then exits 2 else runs o
read_options f (c ∷ cs) rest o = elim (choose f c o) [
  | exits code ↦ exits code
  | runs o' ↦ read_options f cs rest o'
]

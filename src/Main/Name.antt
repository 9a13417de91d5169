-- ===== src/Main/Name.antt =====
-- main.c: read_mac, pick_mac and the instance name.
use sdr_slc_rtld.Base.{
  ℕ, ◌+◌, ◌-◌, ◌/◌, ◌%◌, ◌^◌, Bool, false, ◌&&◌, ◌||◌, Option, none, some, List, [], ◌∷◌, ◌++◌,
  Bytes, codes, map, take, ltb, ◌==◌, eq_bytes, if◌then◌else◌,
}

-- What the system shows: the numbers that fscanf reads from a file, if it can be opened; the
-- entries of /sys/class/net, if it can be opened; and the process number.
pub record System : Type 0 where
  pub scanned : Bytes → Option (List ℕ)
  pub entries : Option (List Bytes)
  pub pid : ℕ

-- The six numbers, if there are six and one is not zero.
unfoldable pub six_numbers : List ℕ → Option (List ℕ)
six_numbers (a ∷ b ∷ c ∷ d ∷ e ∷ f ∷ []) =
    if a == 0 && b == 0 && c == 0 && d == 0 && e == 0 && f == 0
    then none
    else some (map (λ m. m % 256) (a ∷ b ∷ c ∷ d ∷ e ∷ f ∷ []))
six_numbers _ = none

-- read_mac.
unfoldable pub read_mac : System → Bytes → Option (List ℕ)
unfolding six_numbers
read_mac sys iface =
    elim (sys.scanned (take 127 (codes "/sys/class/net/" ++ (iface ++ codes "/address")))) [
      | none ↦ none
      | some numbers ↦ six_numbers numbers
    ]

-- The loop over the preferred interfaces.
unfoldable pub first_mac : System → List Bytes → Option (List ℕ × Bytes)
unfolding read_mac
first_mac sys [] = none
first_mac sys (iface ∷ rest) =
    let later = first_mac sys rest in
    elim (read_mac sys iface) [ none ↦ later | some mac ↦ some (mac, iface) ]

-- An entry that the loop over the directory passes over.
unfoldable pub hidden : Bytes → Bool
hidden [] = false
hidden (c ∷ cs) = c == b'.' || eq_bytes (c ∷ cs) (codes "lo")

-- The loop over the directory.
unfoldable pub listed_mac : System → List Bytes → Option (List ℕ × Bytes)
unfolding read_mac hidden
listed_mac sys [] = none
listed_mac sys (e ∷ rest) =
    let later = listed_mac sys rest in
    if hidden e
    then later
    else (elim (read_mac sys e) [ none ↦ later | some mac ↦ some (mac, take 15 e) ])

abbrev names_one : Option Bytes → Option Bytes
names_one none = none
names_one (some []) = none
names_one (some (c ∷ cs)) = some (c ∷ cs)

-- pick_mac: the address, and the interface that it is of.
unfoldable pub pick_mac : System → Option Bytes → Option (List ℕ × Bytes)
unfolding first_mac listed_mac
pick_mac sys iface = elim (names_one iface) [
  | some name ↦ (elim (read_mac sys name) [ none ↦ none | some mac ↦ some (mac, take 31 name) ])
  | none ↦ (elim (first_mac sys (codes "eth0" ∷ codes "end0" ∷ codes "wlan0" ∷ [])) [
    | some found ↦ some found
    | none ↦ (elim sys.entries [ none ↦ none | some entries ↦ listed_mac sys entries ])
  ])
]

abbrev upper_hex : ℕ → ℕ
upper_hex d = if ltb d 10 then b'0' + d else b'A' + (d - 10)

-- "%02X" of a byte.
unfoldable pub hex_byte : ℕ → Bytes
hex_byte v = upper_hex (v / 16) ∷ upper_hex (v % 16) ∷ []

-- "SLC-%02X%02X%02X" of the last three octets.
unfoldable pub mac_name : List ℕ → Bytes
unfolding hex_byte
mac_name (a ∷ b ∷ c ∷ d ∷ e ∷ f ∷ []) = codes "SLC-" ++ (hex_byte d ++ (hex_byte e ++ hex_byte f))
mac_name _ = []

-- "SLC-%06X" of the low 24 bits.
unfoldable pub pid_name : ℕ → Bytes
unfolding hex_byte
pid_name pid =
    codes "SLC-"
    ++ (hex_byte (pid / 2 ^ 16 % 256) ++ (hex_byte (pid / 256 % 256) ++ hex_byte (pid % 256)))

unfoldable pub without_spaces : Bytes → Bytes
without_spaces s = map (λ c. if c == b' ' || c == b'\t' then b'-' else c) s

-- g_device_name and mdns_iface.
pub record Names : Type 0 where
  pub device_name : Bytes
  pub mdns_iface : Bytes

abbrev asked_iface : Option Bytes → Bytes
asked_iface none = []
asked_iface (some name) = take 31 name

-- The part of main that chooses the names.
unfoldable pub choose_names : System → Option Bytes → Option Bytes → Names
unfolding without_spaces pick_mac mac_name pid_name
choose_names sys iface name_arg = elim (names_one name_arg) [
  | some name ↦ record {
    device_name = without_spaces (take 63 name);
    mdns_iface = asked_iface iface;
  }
  | none ↦ (elim (pick_mac sys iface) [
    | some found ↦ record { device_name = mac_name found.0; mdns_iface = found.1 }
    | none ↦ record { device_name = pid_name sys.pid; mdns_iface = asked_iface iface }
  ])
]

-- ===== src/Lib.antt =====
-- sdr-slc-rtld: the daemon that serves an RTL-SDR dongle over SDR-SLC-CP-1.0 (JSON over TCP) and
-- streams its samples as VITA-49 packets over UDP.
--
-- The parts and their files. A definition has the name of the C function it translates, without the
-- prefixes cp_, rtl_, rtl_bridge_ and vita_; the commands keep theirs.
--   Base: shared names, lists over native numbers, tests, bits.
--   Json: json/json_builder.h (Tokens: the lookups in a message's tokens) and json_escape of
--     cp/cp_commands.c (Escape, Body). json/jsmn.h is a copy of another project's library: the
--     parameter `parse` of Cp.World.Env. Parser is an instance of it for the tests. Writer is
--     json/json_builder.c; Value has the values that can be written as a tree, how such a tree
--     reads, and the calls that write it; Written and Printed are on the result.
--   Auth: common/auth.c: Sha256 (SHA-256, HMAC), Verify (hexadecimal, auth_verify), Accept,
--     Stream (the hashes over messages that come in parts), Keyring (auth_keyring_load), Keygen
--     (auth_keygen_main). Loaded, Lines, Keyline, Keyfile, NewKey and Opens are on the key file.
--   Libc: strtoul, strtoull, strtol, inet_pton, isspace and fgets, as far as they are used.
--   Mdns: common/mdns_builtin.c: Packet (the packet builder and send_records), Query
--     (dns_read_name and records_for_query), Room and Fits (sizes), Reads, Names, RoundTrip
--     (names), Answers (which packets are answered), Start (mdns_builtin_start, its thread and
--     mdns_builtin_stop); common/mdns_avahi.c: Avahi, with libavahi as the calls made to it, Balanced
--     and Freed; common/mdns.c: Front.
--   Rtl: rtl/rtl_bridge.c: Bridge (the globals, and librtlsdr as the parameter `Device`, which
--     answers each call from the history of calls), Limits, Lifecycle, Control, Adc, Counted.
--   Vita: vita/vita_tx.c: Packet (the two builders), Sessions (the table and the context packets),
--     Send (vita_send_callback), Active, Counts, First.
--   Cp: cp/cp_session.c and cp/cp_commands.c: World (all that the control plane reads and writes,
--     with the frames that leave), Access (claim, release, broadcast), Lifecycle (session_create,
--     session_destroy), Cmd (the shape of a handler: a state and an early return), Params, Envelope,
--     Config, Control, Stream (the commands), Dispatch (a round of a session's thread); Server is
--     cp/cp_server.c.
--     Proofs: Checks, Gate, Radio, Refusals, Names, Locked, Locks (what unlocks rx), Attempts,
--     Channel, and Phase, which shows that the daemon implements an exclusive channel: free, or held
--     by one session that has a stream open or streaming.
--
--   Main: main.c: Options (the command line), Name (the instance name), Daemon (the globals and the
--     steps of the start), Run (the start, the end, main). Quiet and Boot are on the state in which
--     the daemon begins to serve, Closes and Released on what it leaves when it ends.
--
-- How they interact: main opens the tuner, the UDP socket and the control port, and publishes the
-- daemon. A session's thread hands each message to a command; a command changes its session, the
-- bridge, and the VITA table, and sends frames to its own connection or to all. The tuner's read
-- thread calls vita_send_callback and measure_adc_level on each buffer. Cp.Phase.Reach has the daemon
-- as a relation of steps, from what main leaves when it begins to serve: a connection is accepted, a
-- thread serves a payload, a thread ends, in any order.
--
-- Bounds: unsigned integers keep their wrap-around (% 2 ^ w). Decibels and volts are in tenths.
-- tok_find_key skips with the size of the token array as fuel: the code would read behind the array
-- where it runs out. sha256_update has a byte of fuel for each byte, pad_loop 64 rounds. The loop
-- over the lines of the key file has as much as the file has bytes, that of dns_name as much as the
-- name has bytes; dns_read_name has its own bound of 64 rounds, the questions of a packet that of
-- their count.
--
-- Not modelled: the text of messages and constant fields of answers; sockets, threads and mutexes
-- (one step is one message); logging and texts for the terminal; jb_f32 and jb_kf32, which print a
-- double. A hello of the session that holds rx is left out of the relation of steps: it resets the
-- state of the session while the stream goes on.
pub mod Base
pub mod Json
pub mod Auth
pub mod Libc
pub mod Rtl
pub mod Vita
pub mod Cp
pub mod Mdns
pub mod Main

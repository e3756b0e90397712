-- ===== src/Lib.antt =====
-- A model of the UHF ground station's own code, under
-- UHF_GS_CSP-term software_22May2025/src/ (src/ below), and what is proved of it.
--
-- The station stands between a mission control station (MCS), which sends files over TCP, and a
-- satellite, which it reaches by a GS100 radio and an antenna rotator. A file of the MCS goes to
-- send_packet: process_mcs_file takes it apart, and it goes out by csp_sendto or is a command to the
-- station. A packet of the satellite goes to receive_packet: it is saved behind a header of the
-- same form and sent to the MCS by downlink_client. Beside them the tracker chooses a satellite,
-- fetches its orbit elements, points the rotator and corrects the radio's frequencies.
--
-- - World: the variables with static storage as one record `Station`; a call of code that is not
--   the station's (the C library, the system, libcsp, libparam, curl, the orbit predictor) is a
--   value of `Call` on the trace, and what it answers is the parameter `Env`, which may depend
--   on all earlier calls; `Prog` runs with both and ends by a return, `exit` or undefined
--   behaviour. World/Frame: programs that keep a part of the station;
--   World/Ends: programs that do not run out of fuel; World/Files: files that hold a packet.
-- - Common: tests, lists, ℤ, shifts and decimal numbers.
-- - Mcs: src/process_mcs_file.c. Send: src/send_packet.c. Receive: src/receive_packet.c and the
--   station's own function in lib/libcsp/src/csp_conn.c. Downlink: src/downlink_client.c.
-- - Timestamp: src/get_timestamp.c. Rotator: src/serial_rotator.c.
-- - Tracker: src/doppler_freq_correction.c, as Radio (the settings, the ping, the amplifier),
--   Elements (tleupdate), Select (mcs_sat_sel), Pass (doppler_tracking and the pass) and Console.
-- - Server: src/tcp_server.c, which takes the files of the MCS. Tasks: src/task_server.c, which takes
--   the packets of the satellite.
-- - Itoa: src/itoa.c. CspHeader: src/generate_csp_header.c. Fifo: src/csp_fifowriter.c.
-- - Start: src/main.c, the options and the order of the start. Buffers: the sizes of fixed buffers.
-- - Csp: libcsp's transactions and order of bytes, which the clients of subsystems take as parameters.
-- - Gatoss: clients/gatoss-uc/gatoss_common.c, positions in seven bytes, and gatoss_client.c: in
--   Gatoss/Client its lists, which come in several packets, and in Gatoss/Transactions its other
--   functions. Nanocam: clients/nanocam2/nanocam.c, with the types of nanocam_types.h. PowerIf:
--   clients/libp60/power_if.c. Eps: clients/nanopower/src/nanopower2.c, with the structs of
--   io/nanopower2.h. Com: clients/nanocom/nanocom.c, and, in Com/Console, the commands of
--   cmd_com.c. Hub: clients/nanohub/nanohub.c. Obc: clients/a712/nanomind.c. Gssb: clients/libgssb/gssb_client.c.
-- - Examples: runs at fixed inputs.
--
-- Functions and variables keep the source's names; macros are in lower case. A pointer or stream of
-- 0 is NULL, and a use of it is undefined, as is a write past a buffer whose size the code gives.
-- A loop over what a stream holds is a recursion on the list that the stream answers.
-- The year loop of get_format_timestamp has 100 rounds, enough for an `int` of seconds, and the
-- month loop 13. A round of the TCP server has 1024 steps, the size of a descriptor set. The
-- endless loops of the servers, the loop over the packets of a connection, which may always get
-- another, and the loop of a pass, where the clock need not advance, have any fuel.
-- The digits of itoa have 32 rounds, enough for an `int` in a base of at least 2.
--
-- The bytes of data that a libcsp buffer has are a parameter, `room` of `Env`, and a read of more
-- into a packet is undefined. How many bytes a send takes is its answer.
--
-- Not modelled: console output and logging; the hub's dialogue hub_edit_conf; src/predict.c, an adapted copy of PREDICT; the
-- libraries under lib/ and the other clients under clients/; src/mission_init.c, a table for an
-- add-on; the threads, of which each function runs alone here.
pub mod Common
pub mod World
pub mod Csp
pub mod Rotator
pub mod Timestamp
pub mod Mcs
pub mod Downlink
pub mod Receive
pub mod Tracker
pub mod Send
pub mod Server
pub mod Tasks
pub mod Itoa
pub mod CspHeader
pub mod Start
pub mod Fifo
pub mod Gatoss
pub mod Nanocam
pub mod PowerIf
pub mod Eps
pub mod Com
pub mod Hub
pub mod Obc
pub mod Gssb
pub mod Buffers
pub mod Examples

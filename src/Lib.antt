-- ===== src/Lib.antt =====
-- Verification of waybeam_wfb_ng: the decision logic of the vehicle's link controller
-- (vehicle/link_controller.c), of its channel switch receiver (vehicle/csa), and of the ground
-- station's supervisor (ground).
--
-- The program. The vehicle sends video over a broadcast radio. The link controller sizes the FEC
-- blocks from the video frames (the FEC controller), picks the modulation from what the ground
-- station reports (the MCS selector), keeps the encoder's bitrate inside what the radio carries
-- (bitrate_assert), and obeys the commands that come up the link (the command channel, and an open
-- recovery channel beside it). An HTTP query sets the tunables of the configuration. The CSA
-- receiver hops the radio to an announced channel and back when nothing is heard there. The parts
-- meet in the controller record: a change of modulation locks the bitrate there, and a written
-- bitrate or a changed radio opens a settle window in which the FEC controller holds its size. On
-- the ground the supervisor keeps the radio tunnels' processes running, sends the commands,
-- announces a channel switch and hops itself at the same time, and scans the channels for the
-- vehicle. The two sides meet on the wire: the text of an announcement and the sixteen bytes of a
-- command are read by the vehicle's own functions.
--
-- The files.
--   Base       shared names, lists, integers, machine words, the ring buffer, byte strings.
--              Base/Floating is the parameter for float and double.
--   Csa        vehicle/csa/csa.c: Json (find_key, get_str, get_int), Machine (csa_feed,
--              csa_link_alive, csa_tick), Allow (the allowlist parsers), and the proofs: Run (runs
--              of events), Vetted (only vetted channels), Switch (reverts,
--              confirmations, cooldown), Steady (the schedule stands).
--   Mcs        the selector of vehicle/link_controller.c: Types, Selector (the change ring and
--              selector_commit, selector_tick_no_data), Law (selector_update), and the proofs:
--              Fired, Rungs, Guards (which rule fired and why), Freeze,
--              Frozen, Pinned (the flap-freeze), Failsafe, Changes, Valid.
--              The scorer before it: Antennas (json_get_int_in, the antenna list), Scorer
--              (scorer_reset, scorer_update), and the proofs: Fuel, Slots, Smooth.
--   Fec        controller_update and fec_compute of vehicle/link_controller.c: Types, Headroom,
--              Sizing, Controller, and the proofs: Bounds, Gating, Emission.
--   Radio      vehicle/link_controller.c: Types, Rate (phy_mbps, the payload table, the airtime
--              guard), Bitrate (venc_apply, bitrate_assert), Observe (radio_apply_observation,
--              wfb_stats_handle_datagram), Ordered (commit_mcs_change and the deferred drop of the
--              main loop), and the proofs: Tiers, Locked, Caps.
--   Wcmd       shared/wcmd_proto.h and vehicle/link_controller.c: Types, Clamp (wcmd_clamp_value,
--              wcmd_build_path), Apply and Dispatch (wcmd_dispatch, cut into its gates and its
--              keys), Recovery (recovery_dispatch), Wire (the request that the main loop reads), and
--              the proofs: Gates, Burst, Armed, Armable, Values.
--   Tunables   the registry of vehicle/link_controller.c: Types, Table (TUNABLES), Setter
--              (tunable_write, tunable_find, apply_query), Verdict (what each
--              pair comes to), and the proofs: Typed, Reported.
--   Ground     ground/gs_supervisor.c, gs_supervisor_csa.c, gs_supervisor_scan.c and
--              gs_supervisor_http.c. Query (qs_get, qs_get_int, qs_pct_decode), Decimal and Frame
--              (the text of the announcement), Types, Hop (csa_send_commit_frame, csa_tick), Start
--              (the route /api/v1/system/csa), Command (wcmd_emit, logsync_emit, recovery_emit),
--              Operator (the route /api/v1/cmd), Tunnels (tunnel_spawn, tunnel_request_stop,
--              tunnel_on_exit, supervisor_reap, the tick, system up and down), Scan (scan_tick, its
--              start and its end), ScanStart (the route /api/v1/system/scan). The proofs: Granted,
--              Fits and Burst (a session and its frames), Schedule and Verify (the hops), Roundtrip
--              and Meet (with the vehicle), Wire, Route and Limit (commands), Supervise and Restart
--              (tunnels), ScanSteps, ScanGranted, Sweep, Course, Heard and Trail (scans).
--
-- The correspondence. A C function that writes through a pointer returns the new record; an output
-- argument is an Option. The functions keep their names, without the prefix that the module now
-- carries (selector_update is Mcs.Law.update, controller_update is Fec.Controller.update). Code
-- that talks to the encoder, to wfb_tx, to iw or to the recovery hook takes the answer as a
-- parameter (venc, ack, World), and what it sends is in its result.
-- Signed integers are unbounded, since their overflow is undefined in C; uint64_t times and
-- uint32_t counters wrap around (Base/Word). No law of floating point is assumed: the theorems
-- hold for any operations, and the tests run on fixed point numbers. Loops are structural
-- recursion; only the scorer's loop over the antennas runs on fuel, the length of the text, of which
-- every round leaves less. C strings are lists of bytes; strtol reads a decimal number and
-- saturates, and long has the 32 bits of the vehicle's processor; the ground station's query takes
-- ten bytes at most, which a long of 64 bits holds. csa_run_iw and run_iw_set_channel are entries in
-- the list of hops. What fork, waitpid, kill, sendto and the clocks give is a parameter, and a reply
-- of the HTTP server is its status. A write behind the end of an array sets a flag (stray_write).
--
-- Not modelled: sockets, processes and HTTP itself, logging, status reports and other text for
-- people, which only put out what the modelled state holds; the vehicle's probe records and the
-- rest of its main loop; of the ground station, the statistics that it draws from the tunnels, its
-- configuration file and its logger; and the tools in other languages.
pub mod Base
pub mod Csa
pub mod Mcs
pub mod Fec
pub mod Ground
pub mod Tunables
pub mod Radio
pub mod Wcmd

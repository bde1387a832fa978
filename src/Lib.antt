-- ===== src/Lib.antt =====
-- HillGrov: the firmware of a plant growing system, whose master board and zone boards stand in a
-- ring of one-way serial lines.
--
-- The parts. A frame is built and read by components/ring_proto: ring_frame.c puts a header, a
-- payload and the check sequence of ring_crc.c behind the byte stuffing of ring_cobs.c, and takes
-- them apart byte by byte. components/ring_link/ring_link.c hands every decoded frame to
-- ring_route.c and then queues it, sends it on or drops it. On top of the frames the master keeps
-- its queue of frames that wait for an acknowledgement (ring_trk.c), a zone remembers its last
-- command (ring_dup.c), configurations travel in chunks (ring_cfgx.c), payloads are packed and
-- parsed (ring_tlm.c, ring_tlm_hb.c), and the master judges zones and ring (ring_health.c). Above these the master enrols zones in a table
-- (node_store/ztab.c) that it keeps in an envelope (hg_blob.c), brings new firmware to the zones
-- (node_mgr/fleet_seq.c), and a new image is on trial before it is kept (ota_trial/trial_eval.c). What happens is recorded for
-- the operator (alarm_mgr.c) and told in lines of text (notify.c). The configuration that each zone keeps is brought into step with the
-- master's copy (node_mgr_cfg.c, node_mgr_cfg_latch.c). The operator types lines (cli_line.c) that are
-- commands for this board or another (cmd_core), or logs in to the web pages (web_auth.c).
--
-- The files.
--   Ring/Crc        components/ring_proto/ring_crc.c, ring_crc16
--   Ring/Cobs       components/ring_proto/ring_cobs.c, ring_cobs_encode and ring_cobs_decode
--   Ring/Frame      components/ring_proto/ring_frame.c, ring_frame_encode and ring_dec_feed
--   Ring/Route      components/ring_proto/ring_route.c, ring_route
--   Ring/Dup        components/ring_proto/ring_dup.c, ring_dup_check, _start and _done
--   Ring/Tracker    components/ring_proto/ring_trk.c, ring_trk_submit, _tick, _ack, _cancel and
--                   _unclaimed
--   Ring/Chunks     components/ring_proto/ring_cfgx.c, ring_cfg_chunk_build and ring_casm_feed
--   Ring/Telemetry  components/ring_proto/ring_tlm.c
--   Ring/Heartbeat  components/ring_proto/ring_tlm_hb.c
--   Ring/Health     components/ring_proto/ring_health.c, ring_health_eval and what it calls
--   Link            components/ring_link/ring_link.c, ring_link_dispatch and what it calls
--   Blob            components/hg_blob/hg_blob.c, hg_blob_wrap and hg_blob_unwrap
--   NodeStore       components/node_store/ztab.c, the zone table and ztab_enrol
--   Fleet           components/node_mgr/fleet_seq.c, the update of the zones one by one
--   Trial           components/ota_trial/trial_eval.c, trial_eval
--   Alarm           components/alarm_mgr/alarm_mgr.c, the ring of the last events (am_copy_event)
--                   and the active set (active_upsert, active_clear)
--   Image           components/hg_image/hg_image.c, hg_image_parse and hg_image_is
--   CfgSync         components/node_mgr/node_mgr_cfg_latch.c; CfgSync/Decide and CfgSync/Tick
--                   components/node_mgr/node_mgr_cfg.c, CfgSync/Writes node_mgr_cfg_api.c
--   Cmd             components/cmd_core: Cmd/Text cmd_tok.c, Cmd/Args, Cmd/Rows and Cmd/Dispatch
--                   cmd_dispatch.c
--   Cli             components/cli_line/cli_line.c
--   WebAuth         components/web_auth/web_auth.c: the login; WebAuth/Header the cookies, WebAuth/Restart
--                   the packing
--   Notify          components/notify/notify.c
--   Base            lists, Boolean tests, machine words and bits that all share
--   Tests           the theorems at concrete inputs
-- A line's handler, the hook to the ring and the help's text are arguments of the dispatcher. Each file
-- has the definitions of its source file; its folder has the proofs about them.
--
-- The correspondence. A struct is a record and a function returns the new record beside its
-- result. Numbers are natural numbers: an assignment to a uint8_t, uint16_t or uint32_t that can
-- overflow is taken modulo the width, and a difference of 32-bit times is taken modulo 2 ^ 32.
-- Byte arrays are lists; an index out of range reads 0, and the code's own tests exclude it where
-- that matters. A queued configuration is the check sequence of its bytes as a function of the
-- generation that it is stamped with; a row's pointer to its arguments is a function of the place.
-- A signed offset is the bit pattern of its 32 bits. The COBS encoder reserves a code byte by a 0
-- that it overwrites later. Texts that the code only compares or sends are values of a data type
-- with one constructor for each format.
--
-- Bounds and fuel. The outer loop of the COBS decoder runs on fuel, the number of its input bytes:
-- each round takes at least one byte, so that this many rounds are enough. The dispatcher of
-- commands runs on 6 steps of fuel: each zone address in front of a command takes two of the at
-- most 12 tokens. All other loops are structural. The sizes (128 bytes of payload, 143 on the
-- wire, 8 tracked frames, 7 chunks of 112 bytes) are those of ring_proto.h.
--
-- Not modelled. Null pointers: every pointer argument is taken to be there. UART, FreeRTOS queues,
-- timers, NVS and the network: a write to the line is an item of a list, a queue's send is a
-- parameter, a time is an argument. User interface, web server and vendored code are left out.
pub mod Base
pub mod Blob
pub mod Ring
pub mod Link
pub mod Fleet
pub mod NodeStore
pub mod Trial
pub mod Alarm
pub mod Image
pub mod Cmd
pub mod Cli
pub mod CfgSync
pub mod WebAuth
pub mod Notify
pub mod Tests

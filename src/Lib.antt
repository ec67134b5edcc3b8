-- ===== src/Lib.antt =====
-- The Bluetooth audio module: its portable core, crates/bluetooth-audio-core, and of the device crate,
-- crates/bluetooth-audio-device, what it keeps on files and the character device.
--
-- A writer puts MP3 bytes into the endpoint of audio_input.rs, whose ring the Bluetooth owner
-- empties. The owner decodes and encodes them, paces the packets with media.rs and sends them over
-- the media channel that the AVDTP source of avdtp.rs negotiates with the headset. controller.rs
-- drives the scan, the pairing and the connection, over the table of discovery.rs. avrcp.rs keeps the
-- volume in step with the headset's, volume_store.rs and peer_store.rs keep it and the headset on files.
--
-- Files, with crates/bluetooth-audio-core/src/ left out of the paths:
-- - Base: names, lists, tests and machine words that the others share. An integer is a natural number
--   and its wrap-around is written out. `Method` is a method on `&mut self`: it gives the result with
--   the state that it leaves, on an error too.
-- - Input/Ring: `InputRing` of audio_input.rs. The buffer is a function from slots to bytes, the
--   cursors are u32 values, and `write` and `read` are each two halves, the claim before the
--   compare-and-exchange and the commit at it, so that other calls can run in between.
-- - Input/Endpoint: `AudioInput` of audio_input.rs. The atomics are fields, `ControlGuard` is
--   `with_control`, and `write_between` takes what other threads do between the two checks of the
--   generation. Endpoint/Worker has the calls of the Bluetooth owner, and
--   Endpoint/Late runs in which they come late.
-- - Avdtp: avdtp.rs. `Source` is the struct, `Port` pairs it with the output buffer. Local has the
--   commands of this side, Answers the sink's answers, Remote the sink's commands, Sbc the choice
--   of a configuration, Receive the packets and their reassembly, Wire the frames.
-- - Media: `StreamPacketizer` and `PacketClock` of media.rs. Media/Tone has `TonePacketizer`, with
--   `write_frame` and the table of sbc_tone_frames.rs.
-- - Discovery: discovery.rs and the address of address.rs. The part of the array in use is a list.
-- - Manager: model.rs and controller.rs. The `Platform` trait is a record parameter, whose methods
--   are any functions on any state.
-- - Avrcp: avrcp.rs. `Port` pairs the controller with the output buffer, Avrcp/Receive has the packets
--   of the peer. Of the sixteen rounds of `allocate_transaction` the model has sixteen, and says `none`
--   for the `unreachable!`.
-- - Mp3: mp3.rs. Window is the input buffer of `Mp3ByteStream`, Stream the rest of it, Decoder
--   `Mp3Decoder`, Samples the volume and the resampling loop. A read out of bounds is `none`. The
--   decoder of nanomp3 is a parameter: any state, and any function for its `decode`.
-- - Storage: Storage/Peer is peer.rs with `DeviceName::as_str`, Storage/Peer/File
--   crates/bluetooth-audio-device/src/target/peer_store.rs, Storage/Volume volume_store.rs beside it.
--   Storage/Files has the seven calls of NuttX as a record parameter, and `IsDisk`, what POSIX says of
--   them, which the theorems on files assume: a file is created without O_TRUNC, so its old bytes past
--   a write stay, and an open, a read, a write or an unlink may fail. The code drops the answer of the
--   unlink before the create, so those theorems take a hypothesis that no temporary file is left over
--   or that the unlink succeeds. The test for UTF-8 is a parameter.
-- - Device: Device/Controls is the queue of controls of
--   crates/bluetooth-audio-device/src/target/audio_device.rs, Device/Handlers its file operations with
--   `set_absolute_volume` of transport.rs, Device/Schedule `queue` and the `schedule_` functions of
--   audio_stream.rs. The work that waits for the owner is a list, `Firmware` says whether the
--   firmware has memory and an owner, and what it makes of an AVRCP packet is a parameter. The result
--   of `bt_queue_external` is dropped by the code: work that is handed to it is taken to be queued, as
--   a comment in audio_stream.rs says of the firmware's entry point. Device/Runs has runs of the
--   device's calls, each one step, while no waiting work is taken up; what the owner does with it,
--   `audio_work` and `audio_wake_work`, is not modelled, but for the test of a wake on its generations.
--   Of the acceptance of a SUSPEND in transport.rs there is what it does to the endpoint, the wakes and
--   the state of the media channel.
-- - Tests: the theorems at concrete inputs.
--
-- Bounds and fuel: `Avdtp.Sbc.scan` takes the length of the payload as fuel and uses up two bytes or
-- more at each round. The other loops are structural. `Media.Clock` is described up to 2 ^ 37 samples
-- in one run, some 36 days.
--
-- Left out: the memory orderings of the atomics, as a call or half a call is one step; the getters
-- and `initialize_at` of audio_input.rs and of mp3.rs; ui.rs and compatibility.rs; the text of an
-- address; the rest of the device crate, most of which calls the firmware over raw pointers; and the
-- libraries under third_party.
pub mod Base
pub mod Input
pub mod Avdtp
pub mod Media
pub mod Discovery
pub mod Manager
pub mod Avrcp
pub mod Mp3
pub mod Storage
pub mod Device
pub mod Tests

-- ===== src/Lib.antt =====
-- MixTor, a pluggable transport for Tor: the cells, the cipher, the mux and the shaping state machines.
--
-- The program carries Tor streams in cells of 514 bytes. A reader loop cuts what it reads from a socket
-- into tagged cells (src/transport.rs, `bridge_stream_reader`, `mux_tor_reader`); an emitter mixes them
-- with dummy cells and seals each into one frame (src/crypto.rs, `FrameCipher`); the other side opens the
-- frames, drops the dummies and forwards the payloads, either to one stream (`strip_and_forward`) or by
-- stream id (`mux_demux_to_bridges` on the server, `receive_mux_inbound` on the client).
--
-- Files and what they model (paths from the repository's root):
--   Base        lists, bytes, Boolean tests, results, and the random generator as an interface (Rng)
--   Cell        src/transport.rs: encode_real_cell, encode_close_cell, decode_real_cell
--   Reader      src/transport.rs: bridge_stream_reader, mux_tor_reader, the loop of shaped_forward
--   Frame       src/crypto.rs: FrameCipher, seal, open, enc_frame_len; the AEAD is the interface Aead
--   Packet      src/clumping.rs: Packet; src/composition.rs: MixedFrame
--   Strip       src/transport.rs: encode_frame, read_sealed_frame, strip_and_forward
--   StreamMap   the HashMap of stream ids of src/transport.rs, as an association list
--   MuxClient   src/transport.rs: MuxWire::add_stream, the rounds of receive_mux_inbound; the cache of wires
--               of MuxClientHandle is MuxClient/Wires
--   MuxServer   src/transport.rs: the rounds of mux_demux_to_bridges, BridgeStreamGuard, the two caps
--   Relay       src/transport.rs: the hold phase of bridge_stream_relay; a bridge that refuses, and the
--               writers bridge_stream_writer and mux_tor_writer, are Relay/Ends
--   Tail        src/transport.rs: EpochClock, TailPolicy, tail_targets; TailPolicy::from_env is Tail/Env
--   Gates       src/bin/mixtor-server.rs: serve_accept_loop; src/transport.rs: the handler of a server's
--               connection up to its relays, blackhole, global_connection_sem
--   Identity    src/bin/mixtor-server.rs: load_identity, write_secret_file, finish, --keygen-file
--   Session     src/session_bounder.rs: SessionClass, FuzzedClassThresholds, SessionBounder
--   Seeds       src/seeds.rs: EphemeralSeed::generate, SessionSeeds
--   Clump       src/clumping.rs: ClumpingConfig, ClumpingPool
--   Timing      src/timing.rs: TimingConfig, SeedATimingScheduler
--   Decimal     numbers as decimal text, as the source's standard library prints and parses them
--   Hex         src/crypto.rs: key_to_hex, key_from_hex
--   Handshake   src/crypto.rs: the MARK and MAC messages, derive_session, both handshake roles
--   Socks       src/socks.rs: accept_socks5_connect and all it calls
--   Buckets     src/optimal_padding.rs: build_buckets, optimal_pad_length, OptimalPadder
--   Correlator  src/timing_correlator.rs: inject_real, advance_clock, tick, pad_to_cell; validate and new
--               are Correlator/Start, inject_burst and drain_ready are Correlator/Drain
--   Composer    src/composition.rs: CompositionConfig, SeedBComposer; its bursts are Composer/Bursts
--   Shaped      src/composition.rs: ShapedSession, the composer in front of the correlator; its new, and
--               shaped_composition_config of src/transport.rs, are Shaped/Start
--   Emitter     src/transport.rs: FlowSlot, service_flow; run_emitter is Emitter/Run, the set-up of
--               shaped_forward and register_shaped_flow are Emitter/Register
--   Lab         src/lab.rs: LogRow, LabLogger and its writer thread, where no write fails
--   Attack      src/correlation_attack.rs: parse_reader, parse_line; the flows and their time series are
--               Attack/Series, the correlations and volume_attack are Attack/Correlation, linking_attack
--               is Attack/Linking
--   Samples     concrete instances of the interfaces, for the tests
--
-- State is passed explicitly. Asynchronous code is modelled by what it meets: a socket is the list of
-- results of its reads, a channel says how many cells it still takes or what `try_send` answers, and the
-- interleaving of the server's wire with its relays and with other wires is a step relation
-- (MuxServer/Caps), in which a round is cut between the raise of the shared counter and its test. Instants and durations are nanoseconds. Bytes and machine integers are natural
-- numbers, with wrap-around and saturation written out where the source has them.
--
-- The libraries that the code calls are parameters: the generator (Rng), the AEAD with its documented laws
-- (Aead), the hash, the curve and the clock of the handshake (Primitives), and the channel and the socket
-- of the emitter (Pipe). The floating-point parts of the timing correlator (Clock) and of the composer
-- (Meters: spectral delays, the differentially private shaper, the accountant, the self-tester) are
-- parameters too, and so are the comparisons and the literals of doubles (Floats, ClockSource), the
-- floats and distributions of the timing scheduler (Sampler) and all arithmetic of the attacks (Attack/Floats).
-- What the file system does to the identity's file is an argument (FileSystem). The seeds
-- and the draws of a flow are arguments. In the composer a panic of gen_range or expect is a result
-- (Stop). A call of the composer, the correlator or the emitter reads the clock once, but each poll of
-- drain_ready and each service of run_emitter has an instant of its own.
--
-- Fuel: the scan of add_stream has 2^16 rounds, one for each value of its counter; strip_and_forward has
-- one round for each byte of the wire and one more; the loop of ClumpingPool::push has one round for each
-- buffered packet and one more; the loop of service_flow has one round for each byte of PENDING_CAP, since
-- a round adds a frame to the bytes that wait. The round of run_emitter has one step for each flow, since
-- a service lowers the number of flows that are still to come; the fuel of drain_ready is an argument. In
-- the first three and the last running out of fuel is a value of its own, which the theorems exclude; the
-- other two return what they have, and are shown to end by their condition.
--
-- Not modelled: sockets and the command lines; a write to a socket that fails within a message of a relay,
-- and a write to the lab log that fails; the attacks of src/correlation_attack.rs on sizes, totals
-- and durations, and its report; the other statistics in floating point (src/spectral.rs,
-- src/privacy_accountant.rs, src/dp_shaper.rs, src/self_test.rs).
pub mod Base
pub mod Decimal
pub mod Cell
pub mod Reader
pub mod Seeds
pub mod Packet
pub mod Frame
pub mod Strip
pub mod Session
pub mod Tail
pub mod StreamMap
pub mod MuxClient
pub mod Clump
pub mod Timing
pub mod MuxServer
pub mod Gates
pub mod Relay
pub mod Hex
pub mod Socks
pub mod Handshake
pub mod Identity
pub mod Lab
pub mod Attack
pub mod Buckets
pub mod Correlator
pub mod Composer
pub mod Shaped
pub mod Emitter
pub mod Samples

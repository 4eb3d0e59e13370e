-- ===== src/Lib.antt =====
-- A model of rtpmidid: MIDI over RTP between a host's MIDI ports and the network.
--
-- A peer (lib/rtppeer.cpp) is one end of a session. It reads datagrams of two UDP ports, answers
-- the session's commands, measures latency, and turns RTP packets into MIDI events and events into
-- packets. A client (lib/rtpclient.cpp) drives a peer: it looks for an address to connect to,
-- invites, and measures the clock on a schedule. A server (lib/rtpserver.cpp) has a peer for each
-- client that invites it. The poller (lib/poller.cpp) runs their timers, and signals
-- (include/rtpmidid/signal.hpp) call their listeners. The daemon's router (src/midirouter.cpp)
-- passes MIDI between its peers: ALSA sequencer ports (src/aseq.cpp), device files, whose streams
-- the normalizer (src/midi_normalizer.cpp) cuts into messages, and network peers, which mDNS, the
-- configuration file (src/ini.cpp) or the command line (src/argv.cpp) name. What mDNS finds and
-- what the daemon announces goes through Avahi (lib/mdns_rtpmidi.cpp). The daemon makes its peers
-- at its start (src/main.cpp, src/factory.cpp), on a connection, and on the commands of a control
-- socket (src/control_socket.cpp). All packets are read and written through the buffers of
-- include/rtpmidid/iobytes.hpp.
--
-- Which file models what:
--   Errors            the exceptions, and results; `fault` is undefined behaviour
--   Bytes             include/rtpmidid/iobytes.hpp: io_bytes_reader as Reader, io_bytes_writer as
--                     Writer; a function of the same name for each method
--   Normalizer        src/midi_normalizer.cpp
--   Peer              include/rtpmidid/rtppeer.hpp: the fields, signals, commands and statuses; the
--                     constructor, reset and get_timestamp of lib/rtppeer.cpp; the monad of methods
--   Peer.Commands     parse_command, parse_command_ok, _in, _by, _no, _ck and parse_feedback
--   Peer.Midi         parse_midi, next_midi_packet_length, read_delta_time and parse_sysex
--   Peer.Journal      parse_journal, parse_journal_chapter and parse_journal_chapter_N
--   Peer.Sending      send_midi, send_ck0, send_goodbye, send_feedback, connect_to, disconnect and the
--                     destructor
--   Peer.Receive      data_ready, is_command and is_feedback
--   Client            lib/rtpclient_statemachine.cpp: the states, the events and their transitions
--   Client.Entry      lib/rtpclient.cpp: the entry functions, handle_event's nested calls,
--                     add_server_address and connect
--   Router            src/midirouter.cpp
--   Server            lib/rtpserver.cpp and lib/rtpserverpeer.cpp: the peers, how they are found and heard
--   Server.Serving    lib/rtpserver.cpp: serve is rtpserver_t::data_ready, goodbyes ~rtpserver_t
--   Text              src/stringpp.hpp and src/stringpp.cpp
--   Settings          src/settings.hpp, and str_to_log_level of lib/logger.cpp
--   Settings.Sections  src/ini.cpp: what parse_line does with a section and with a key's value
--   Settings.Ini      src/ini.cpp: load_ini and the rest of IniReader::parse_line
--   Settings.Arguments  src/argv.cpp: the options and parse_argv
--   Sequencer         src/aseq.cpp: read_ready, connect, disconnect and connection_t
--   Sequencer.Midi    src/aseq.cpp: mididata_to_evs_f and ev_to_mididata_f
--   Signals           include/rtpmidid/signal.hpp
--   Poller            lib/poller.cpp: the timers and the calls put off
--   Discovery         src/rtpmidiremotehandler.cpp and src/local_alsa_listener.cpp, with
--                     make_local_alsa_listener of src/factory.cpp
--   Mdns              lib/mdns_rtpmidi.cpp: the announcements and the remote servers
--   Mdns.Callbacks    lib/mdns_rtpmidi.cpp: what Avahi calls; Mdns.Handled joins it to Discovery
--   Mdns.Timeouts     lib/mdns_rtpmidi.cpp: Avahi's timeouts as timers of the poller
--   Daemon            src/factory.cpp, setup of src/main.cpp, src/network_rtpmidi_*.cpp
--   Control           src/control_socket.cpp: what its commands work on, and the JSON interface
--   Control.Commands  the functions of the commands
--   Control.Peers     the commands to one peer, with src/midipeer.cpp and local_alsa_listener.cpp
--   Control.Socket    parse_command and data_ready
--   Stats             lib/stats.cpp
--   NetworkAddress    lib/networkaddress.cpp and its header
--   AlsaPort          src/local_alsa_peer.cpp
--   Udp               lib/udppeer.cpp: the buffer that a datagram is received in
--   AlsaNetwork       src/local_alsa_multi_listener.cpp
--   RawMidi           src/local_rawmidi_peer.cpp
--   AutoAnnounce      src/hwautoannounce.cpp
--   Packet            include/rtpmidid/packet.hpp and lib/rtpmidipacket.cpp
--   Packet.Command    include/rtpmidid/rtpmidipacket.hpp: the packets of the session commands
-- Message has the voice messages and SysEx messages of the MIDI standard, apart from the code, and no
-- system common or real-time messages. Common has what all share. The
-- other files hold proofs, and those named Examples hold runs of the code.
--
-- How state and calls are modelled. A method of a peer is a function on the peer's record, the
-- buffer and the signals so far; it returns, throws with what it has changed, or has undefined
-- behaviour. A signal is recorded, and its listeners run after the method that sends it. A client's
-- entry functions give actions (what they ask of sockets, timers and the peer) and the event they
-- fire next; what sockets, timers and the peer give back comes in as a further event. A router's
-- calls of its peers' methods are recorded in their order. The server runs its listeners behind
-- each method of a peer. The callbacks of a signal or of the poller are what they ask of that
-- signal or poller. What Avahi is asked for is a list of actions, and the JSON library is a record
-- of the calls that the source makes of it; the values that report a status are given to the
-- commands. Numbers have the widths of the source: what wraps there is written with a remainder;
-- counters that would take 2^31 steps to wrap do not.
--
-- Loops. All recursion is on lists and counts, but for these. The loop over a packet's commands has
-- fuel: one more than the bytes that are left, and each round reads at least one byte. The nested
-- calls of a client's handle_event have fuel too, which is given from outside: the statement on the
-- client's search says that some amount is enough; so have the poller's calls put off, which may go
-- on for ever. The loops over a SysEx and over MIDI data have as much fuel as there are bytes, and the
-- one over the expired timers has one more than there are such timers, which the statements on them
-- say is enough.
--
-- The clock, the random numbers, the network (name resolution, and whether a socket opens), the
-- sequencer library's coder and answers, Avahi's answers, the host's name, the JSON library,
-- doubles, files and regular expressions, and the poller's sort are arguments.
--
-- Not modelled: sockets, name resolution, file descriptors and epoll; Avahi's watches of them; the
-- opening of the sequencer and the loops over its clients; how a network
-- listener passes the router's MIDI on to its RTP peers; the control socket's set-up, logging and
-- JSON status; the flags and the event iterator of MIDI packets.
pub mod Common
pub mod Errors
pub mod Bytes
pub mod Message
pub mod Normalizer
pub mod Peer
pub mod Client
pub mod Router
pub mod Text
pub mod Settings
pub mod Server
pub mod Packet
pub mod Sequencer
pub mod Signals
pub mod Poller
pub mod Discovery
pub mod AlsaNetwork
pub mod RawMidi
pub mod AutoAnnounce
pub mod Mdns
pub mod Daemon
pub mod Control
pub mod Stats
pub mod NetworkAddress
pub mod AlsaPort
pub mod Udp

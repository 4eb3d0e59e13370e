-- ===== src/Daemon/Examples.antt =====
-- A daemon with one ALSA announcement, one server and one device, and a connection that comes and goes.
use rtpmidid.Common.{◌≡◌, refl, ℕ, ◌+◌, List, [], ◌∷◌, arith, none, some, false, true, inl}
use rtpmidid.Text.{Text, codes}
use rtpmidid.Settings.{Settings, default_settings}
use rtpmidid.Router.{Router, Call, midi_call, find, erase, change, send_midi, get_peerdata_by_id}
use rtpmidid.Daemon.{
  Daemon, local_alsa_peer, network_rtpmidi_peer, make_pair, close_connection, setup,
}
use rtpmidid.Daemon.Joined.{IsFresh, with_pair, made, make_pair_joins}
use rtpmidid.Daemon.Parted.{close_connection_parts}
use rtpmidid.Daemon.Numbered.{setup-IsFresh}
use rtpmidid.Daemon.{network_send, hear_server}
use rtpmidid.Daemon.Delivered.{network_delivers}
use rtpmidid.Message.{voice3}
use rtpmidid.Peer.{Peer, Clock, midi_port, send_event, get_timestamp}
use rtpmidid.Peer.RtpPacket.{rtp_bytes}
use rtpmidid.Server.{Server, ServerPeer, Address, midi_signal, ck_wait}
use rtpmidid.Server.Serving.{served, Chance, serve}
use rtpmidid.Server.Invariant.{IsValid}
use rtpmidid.Udp.{received}

abbrev settings : Settings
settings = record default_settings {
  alsa_announces = codes "Network" ∷ [];
  rtpmidi_announces = record { name = codes "Desk"; port = codes "5004" } ∷ [];
  rawmidi =
      record {
        device = codes "/dev/midi1";
        name = codes "Keys";
        local_udp_port = codes "5010";
        remote_udp_port = codes "0";
        hostname = [];
      }
      ∷ [];
}

abbrev guessed : Text → Text
guessed device = device

abbrev running : Daemon
running = (setup guessed 1 settings).0

setup-IsFresh_example : IsFresh (setup guessed 1 settings).0.router
setup-IsFresh_example = setup-IsFresh guessed 1 settings (omega arith)

started :
    running.router
    ≡ record { max_id = 5; peers = made 4 (3 ∷ []) ∷ made 3 (4 ∷ []) ∷ made 2 [] ∷ made 1 [] ∷ [] }
unfolding setup find erase change
started = refl

make_pair_joins_example :
    let (ids, d', calls) =
      make_pair (local_alsa_peer (codes "Stage")) (network_rtpmidi_peer (codes "Stage")) running in
    let n = running.router.max_id in
    (ids ≡ (n, n + 1))
    × (d'.router ≡ with_pair n (n ∷ []) ((n + 1) ∷ []) running.router.peers)
    × ((send_midi n (0xF8 ∷ []) d'.router).1 ≡ midi_call (n + 1) n (0xF8 ∷ []) ∷ [])
    × ((send_midi (n + 1) (0xF8 ∷ []) d'.router).1 ≡ midi_call n (n + 1) (0xF8 ∷ []) ∷ [])
make_pair_joins_example =
    make_pair_joins (local_alsa_peer (codes "Stage")) (network_rtpmidi_peer (codes "Stage")) running
      (0xF8 ∷ []) setup-IsFresh_example

close_connection_parts_example :
    (r : Router) × (calls : List Call) × (close_connection
        (5 + 1)
        (with_pair 5 (5 ∷ []) ((5 + 1) ∷ []) (made 2 (1 ∷ []) ∷ made 1 [] ∷ []))
      ≡ some (r, calls))
    × ((k : ℕ) → get_peerdata_by_id r k ≡ find k (made 2 (1 ∷ []) ∷ made 1 [] ∷ []))
close_connection_parts_example =
    close_connection_parts 5 (made 2 (1 ∷ []) ∷ made 1 [] ∷ []) (ground arith) (ground arith)

abbrev at_second : ℕ → Clock
at_second n = record { tv_sec = n; tv_nsec = 0 }

-- A connected peer of each of two daemons.
abbrev near : Peer
near = record {
  status = 3;
  initiator_id = 0xCAFE0001;
  remote_ssrc = 0x4321;
  local_ssrc = 0x1234;
  local_name = 0x41 ∷ [];
  remote_name = 0x42 ∷ [];
  seq_nr_ack = 7;
  seq_nr = 7;
  remote_seq_nr = 0;
  timestamp_start = 50000;
  latency = 0;
  waiting_ck = false;
  running_status = 0;
  sysex = [];
}

abbrev far : Peer
far = record near {
  remote_ssrc = 0x1234;
  local_ssrc = 0x4321;
  local_name = 0x42 ∷ [];
  remote_name = 0x41 ∷ [];
}

-- The router of the daemon that gets the message: peer 2 sends to peer 1.
abbrev linked : Router
linked = record { max_id = 3; peers = made 2 (1 ∷ []) ∷ made 1 [] ∷ [] }

-- The other daemon's server, with that peer in it.
abbrev studio : Address
studio = record { ip = 1; port = 5004 }

abbrev far_peer : ServerPeer
far_peer = record { id = 1; peer = far; address = studio; remote_port = 5004; timer = ck_wait }

abbrev server : Server
server = record { max_peer_data_id = 2; peers = far_peer ∷ []; name = 0x42 ∷ [] }

abbrev chance : Chance
chance = record { random_ssrc = 0x1234; random_seq = 7; clock = at_second 6; grows = true }

abbrev datagram : List ℕ
datagram = rtp_bytes 8 10000 0x1234 (0x90 ∷ 60 ∷ 100 ∷ [])

server-IsValid : IsValid server
server-IsValid = (
  omega arith,
  record {
    status_bits = omega arith;
    initiator = omega arith;
    remote = omega arith;
    ack = omega arith;
    seq = omega arith;
    remote_seq = omega arith;
    latency_width = omega arith;
    voice = inl refl;
  },
  omega arith,
)

network_delivers_example :
    (network_send (at_second 6) (0x90 ∷ 60 ∷ 100 ∷ []) near
      ≡ some (record near { seq_nr = 8 }, send_event datagram midi_port ∷ []))
    × (serve chance (received datagram) studio midi_port server
        ≡ served
            (record server {
              peers =
                  record far_peer { peer = record far { remote_seq_nr = 8; running_status = 0x90 } }
                  ∷ [];
            })
            (midi_signal (0x90 ∷ 60 ∷ 100 ∷ []) ∷ [])
            none)
    × ((hear_server 2 (midi_signal (0x90 ∷ 60 ∷ 100 ∷ []) ∷ []) linked).1
        ≡ midi_call 1 2 (0x90 ∷ 60 ∷ 100 ∷ []) ∷ [])
unfolding get_peerdata_by_id find get_timestamp
network_delivers_example =
    network_delivers (at_second 6) chance studio near (voice3 0x90 60 100) server [] far_peer [] 2
      linked (omega arith, omega arith, inl (omega arith)) (omega arith) refl (omega arith) refl
      server-IsValid refl tt refl refl

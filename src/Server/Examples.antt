-- ===== src/Server/Examples.antt =====
-- The theorems on the server at a concrete server, and clients.
use rtpmidid.Common.{ℕ, ◌+◌, ◌≡◌, refl, List, [], ◌∷◌, true, none, inl, arith}
use rtpmidid.Message
use rtpmidid.Message.{Message, voice3}
use rtpmidid.Peer.{
  Clock, midi_port, control_port, in_command, create, connected, control_connected,
  disconnected_peer_disconnected,
}
use rtpmidid.Peer.RtpPacket.{rtp_bytes}
use rtpmidid.Peer.Delivery.{status_left}
use rtpmidid.Peer.Goodbye.{by_bytes}
use rtpmidid.Server.{
  Server, ServerPeer, Address, fresh, send_datagram, status_signal, midi_signal, find_peer,
  find_peer_by_initiator_id,
}
use rtpmidid.Server.Serving.{Chance, served, serve, and_serve, new_peer, goodbyes}
use rtpmidid.Server.Invariant.{IsValid, Keeps, serve-IsValid}
use rtpmidid.Server.Sessions.{
  invitation, acceptance, with_new, joined, invitations_join, goodbyes_leave,
}
use rtpmidid.Server.Farewell.{farewells, goodbyes-connected}
use rtpmidid.Server.Misrouted.{serve_message, serve_misrouted}

abbrev noon : Clock
noon = record { tv_sec = 1000; tv_nsec = 500 }

abbrev chance : Chance
chance = record { random_ssrc = 0x1234; random_seq = 7; clock = noon; grows = true }

abbrev studio : Address
studio = record { ip = 1; port = 5004 }

abbrev hall : Address
hall = record { ip = 2; port = 5004 }

-- "Hi", and a server with one client in it.
abbrev greeting : List ℕ
greeting = 0x48 ∷ 0x69 ∷ []

abbrev empty_server : Server
empty_server = fresh greeting

abbrev first_client : ServerPeer
first_client = joined chance studio empty_server 0xCAFE0001 0x4321 (0x41 ∷ [])

abbrev busy : Server
busy = with_new chance empty_server first_client

busy-IsValid : IsValid busy
unfolding create
busy-IsValid = omega arith

serve-IsValid_example : Keeps (serve chance (0xFF ∷ 0xFF ∷ 0x49 ∷ 0x4e ∷ []) hall control_port busy)
serve-IsValid_example =
    serve-IsValid chance (0xFF ∷ 0xFF ∷ 0x49 ∷ 0x4e ∷ []) hall control_port busy busy-IsValid

-- A second client.
abbrev second_new : ServerPeer
second_new = new_peer chance hall busy

invitations_join_example :
    and_serve
      (serve chance (invitation 0xCAFE0002 0x4444 (0x42 ∷ [])) hall control_port busy)
      (serve chance (invitation 0xCAFE0002 0x4444 (0x42 ∷ [])) hall midi_port)
    ≡ served
        (with_new chance busy (joined chance hall busy 0xCAFE0002 0x4444 (0x42 ∷ [])))
        (send_datagram control_port hall (acceptance 0xCAFE0002 second_new.peer)
          ∷ status_signal 2 control_connected
          ∷ send_datagram midi_port
              (record hall { port = hall.port + 1 })
              (acceptance 0xCAFE0002 second_new.peer)
          ∷ status_signal 2 connected
          ∷ [])
        none
unfolding find_peer_by_initiator_id find_peer create
invitations_join_example =
    invitations_join chance chance hall hall busy 0xCAFE0002 0x4444 (0x42 ∷ []) busy-IsValid refl
      (omega arith) (omega arith) (omega arith) (omega arith)

goodbyes_leave_example :
    and_serve
      (serve chance (by_bytes 0xCAFE0001 0x4321) studio midi_port busy)
      (serve chance (by_bytes 0xCAFE0001 0x4321) studio control_port)
    ≡ served (record busy { peers = [] }) (status_signal 1 disconnected_peer_disconnected ∷ []) none
unfolding create
goodbyes_leave_example =
    goodbyes_leave chance chance studio studio busy [] first_client [] midi_port 0xCAFE0001
      busy-IsValid refl tt refl (omega arith) (omega arith)

goodbyes-connected_example :
    goodbyes busy ≡ served (record busy { peers = [] }) (farewells busy.peers) none
goodbyes-connected_example = goodbyes-connected busy (refl, tt)

abbrev note : Message
note = voice3 0x90 60 127

serve_message_example :
    serve chance (rtp_bytes 5 99 0x4321 (Message.bytes note)) studio midi_port busy
    ≡ served
        (record busy {
          peers =
              record first_client {
                peer = record first_client.peer {
                  remote_seq_nr = 5;
                  running_status = status_left note;
                };
              }
              ∷ [];
        })
        (midi_signal (Message.bytes note) ∷ [])
        none
unfolding create
serve_message_example =
    serve_message chance studio busy [] first_client [] 5 99 note busy-IsValid refl tt refl
      (omega arith, omega arith, inl (omega arith)) (omega arith) (omega arith) refl (omega arith)

serve_misrouted_example :
    serve chance (rtp_bytes in_command 99 0x4321 (0x90 ∷ 60 ∷ 127 ∷ [])) studio midi_port busy
    ≡ served busy [] none
unfolding find_peer_by_initiator_id find_peer create
serve_misrouted_example =
    serve_misrouted chance studio busy 99 0x4321 (0x90 ∷ 60 ∷ 127 ∷ []) refl (omega arith)

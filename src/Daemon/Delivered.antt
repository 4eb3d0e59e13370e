-- ===== src/Daemon/Delivered.antt =====
-- MIDI from one daemon to the other: src/network_rtpmidi_client.cpp on the one side, which hands it to
-- lib/rtppeer.cpp, and on the other side lib/udppeer.cpp, which gets the datagrams, lib/rtpserver.cpp,
-- src/network_rtpmidi_listener.cpp and src/midirouter.cpp.
use rtpmidid.Common.{
  ℕ, zero, suc, ◌+◌, ◌%◌, ◌^◌, ◌≤◌, ◌≡◌, refl, ap, ◌∙◌, List, [], ◌∷◌, ◌++◌, length, length-append,
  take, append-nil, none, some, false, Bool-cases, inl, inr, ltb, arith,
}
use rtpmidid.Common.Words.{IsU32}
use rtpmidid.Message
use rtpmidid.Message.{Message, IsMessage}
use rtpmidid.Peer.{Peer, midi_port, Clock, send_event, connected, get_timestamp}
use rtpmidid.Peer.RtpPacket.{rtp_bytes, size_header, send_midi_sends}
use rtpmidid.Peer.Delivery.{status_left}
use rtpmidid.Server.{Server, ServerPeer, Address, midi_signal}
use rtpmidid.Server.Serving.{served, Chance, serve}
use rtpmidid.Server.Invariant.{IsValid}
use rtpmidid.Server.Routing.{OtherSsrcs}
use rtpmidid.Server.Misrouted.{is_command_code, serve_message}
use rtpmidid.Udp.{received}
use rtpmidid.Router.{Router, send_midi, get_peerdata_by_id}
use rtpmidid.Router.Connections.{expected_calls, send_midi_calls}
use rtpmidid.Daemon.{network_send, network_midi, hear_server}

take_short : (n : ℕ) (xs : List ℕ) → length xs ≤ n → take n xs ≡ xs
take_short zero [] h = refl
take_short zero (x ∷ xs) h = absurd (omega arith)
take_short (suc n) [] h = refl
take_short (suc n) (x ∷ xs) h = ap (◌∷◌ x) (take_short n xs (omega arith))

length-size_header : (n : ℕ) → length (size_header n) ≤ 2
length-size_header n = elim (Bool-cases (ltb n 16)) [
  | inl e ↦ rw e (omega arith)
  | inr e ↦ rw e (omega arith)
]

received_whole :
    (seq timestamp ssrc : ℕ) (events : List ℕ)
    → length events ≤ 1484
    → received (rtp_bytes seq timestamp ssrc events) ≡ rtp_bytes seq timestamp ssrc events
unfolding received
received_whole seq timestamp ssrc events h = take_short 1500 (rtp_bytes seq timestamp ssrc events) (
    omega (
      arith,
      length-append (size_header (length events)) events,
      length-size_header (length events),
    ))

-- One MIDI signal.
hear_one :
    (peer_id : ℕ) (midi : List ℕ) (r : Router)
    → (hear_server peer_id (midi_signal midi ∷ []) r).1
      ≡ expected_calls r peer_id midi (get_peerdata_by_id r peer_id)
unfolding hear_server network_midi
hear_one peer_id midi r = append-nil (send_midi peer_id midi r).1 ∙ send_midi_calls peer_id midi r

-- A MIDI message of at most 1484 bytes that the router of one daemon gives to a connected network peer
-- goes out as exactly one datagram. The other daemon's server gets all of its bytes on the MIDI port,
-- and hands exactly the message to its network peer, from which it reaches every peer that the router
-- there knows and that the network peer is linked to, once for each link and in the order of the links,
-- and no other one. The server is valid, the peer in it that has the sender's SSRC, with no peer that
-- has it in front, is not in the middle of a SysEx, and the sequence number of the datagram is no
-- command code.
pub network_delivers :
    (c : Clock) (chance : Chance) (from : Address) (p : Peer) (m : Message) (s : Server)
    (before : List ServerPeer) (sp : ServerPeer) (after : List ServerPeer) (peer_id : ℕ)
    (r : Router)
    → IsMessage m
    → length (Message.bytes m) ≤ 1484
    → p.status ≡ connected
    → IsU32 p.local_ssrc
    → is_command_code ((p.seq_nr + 1) % 2 ^ 16) ≡ false
    → IsValid s
    → s.peers ≡ before ++ sp ∷ after
    → OtherSsrcs sp.peer.remote_ssrc before
    → sp.peer.remote_ssrc ≡ p.local_ssrc
    → sp.peer.sysex ≡ []
    → let seq = (p.seq_nr + 1) % 2 ^ 16 in
      let datagram = rtp_bytes seq (get_timestamp c p % 2 ^ 32) p.local_ssrc (Message.bytes m) in
      (network_send c (Message.bytes m) p
        ≡ some (record p { seq_nr = seq }, send_event datagram midi_port ∷ []))
      × (serve chance (received datagram) from midi_port s
          ≡ served
              (record s {
                peers =
                    before
                    ++ record sp {
                      peer = record sp.peer { remote_seq_nr = seq; running_status = status_left m };
                    }
                      ∷ after;
              })
              (midi_signal (Message.bytes m) ∷ [])
              none)
      × ((hear_server peer_id (midi_signal (Message.bytes m) ∷ []) r).1
          ≡ expected_calls r peer_id (Message.bytes m) (get_peerdata_by_id r peer_id))
unfolding network_send get_timestamp
network_delivers c chance from p m s before sp after peer_id r h short on width code v ps o known
      closed =
    let seq = (p.seq_nr + 1) % 2 ^ 16 in
    let timestamp = get_timestamp c p % 2 ^ 32 in
    (
      send_midi_sends c p (Message.bytes m) on (omega arith),
      rw (received_whole seq timestamp p.local_ssrc (Message.bytes m) short, ← known)
          (serve_message chance from s before sp after seq timestamp m v ps o closed h (omega arith)
            (omega arith) code (rw known width)),
      hear_one peer_id (Message.bytes m) r,
    )

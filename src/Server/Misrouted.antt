-- ===== src/Server/Misrouted.antt =====
-- lib/rtpserver.cpp: MIDI packets at a server, by their sequence numbers.
use rtpmidid.Common.{
  ℕ, ◌<◌, ◌≡◌, refl, ap, ◌∙◌, subst, List, [], ◌∷◌, ◌++◌, Bool, false, none, ◌==◌, arith, length,
  ◌||◌,
}
use rtpmidid.Common.Words.{IsU16, IsU32, from_u32_lem, from_u16_lem}
use rtpmidid.Errors.{ok}
use rtpmidid.Message
use rtpmidid.Message.{Message, IsMessage}
use rtpmidid.Peer.{
  midi_port, in_command, ok_command, no_command, by_command, ck_command, rs_command,
}
use rtpmidid.Peer.Receive.{is_command}
use rtpmidid.Peer.RtpPacket.{rtp_bytes}
use rtpmidid.Peer.Delivery.{data_ready_message, status_left}
use rtpmidid.Server.{
  Server, ServerPeer, midi_signal, Address, recipient, by_ssrc, find_peer, find_peer_by_ssrc,
  put_in, find_peer_by_initiator_id, find_recipient, find_peer_by_packet, put_peer, hear_all,
}
use rtpmidid.Server.Serving.{served, Chance, deliver_to, serve, settle}
use rtpmidid.Server.Invariant.{IsValid, Between}
use rtpmidid.Server.Routing.{OtherSsrcs, find_peer-first, put_in-middle}
use rtpmidid.Server.Heard.{after_call-returned}

abbrev pub is_command_code : ℕ → Bool
is_command_code n =
    n == in_command
    || n == ok_command
    || n == no_command
    || n == by_command
    || n == ck_command
    || n == rs_command

recipient-rtp_bytes :
    (seq timestamp ssrc : ℕ) (events : List ℕ)
    → IsU16 seq
    → IsU32 ssrc
    → is_command_code seq ≡ false
    → recipient midi_port (rtp_bytes seq timestamp ssrc events) ≡ ok (by_ssrc ssrc)
unfolding recipient
recipient-rtp_bytes seq timestamp ssrc events hs hr n =
    rw (from_u16_lem seq hs, from_u32_lem ssrc hr) (ground arith)

-- A packet with one message of fewer than 4096 bytes, whose sequence number is none of the six command
-- codes, and that comes to the MIDI port of a valid server, goes to the peer that has its SSRC and in
-- front of which no peer has it, if that peer has no SysEx open: the server passes on exactly that
-- message, that peer notes the sequence number and the running status, and nothing else changes.
pub serve_message :
    (r : Chance) (from : Address) (s : Server) (before : List ServerPeer) (sp : ServerPeer)
    (after : List ServerPeer) (seq timestamp : ℕ) (m : Message)
    → IsValid s
    → s.peers ≡ before ++ sp ∷ after
    → OtherSsrcs sp.peer.remote_ssrc before
    → sp.peer.sysex ≡ []
    → IsMessage m
    → length (Message.bytes m) < 4096
    → IsU16 seq
    → is_command_code seq ≡ false
    → IsU32 sp.peer.remote_ssrc
    → serve r (rtp_bytes seq timestamp sp.peer.remote_ssrc (Message.bytes m)) from midi_port s
      ≡ served
          (record s {
            peers =
                before
                ++ record sp {
                  peer = record sp.peer { remote_seq_nr = seq; running_status = status_left m };
                }
                  ∷ after;
          })
          (midi_signal (Message.bytes m) ∷ [])
          none
unfolding serve find_peer_by_packet find_recipient deliver_to hear_all settle find_peer_by_ssrc
    put_peer
serve_message r from s before sp after seq timestamp m v p o closed h short hs n hr =
    let new = record sp {
      peer = record sp.peer { remote_seq_nr = seq; running_status = status_left m };
    } in
    let b : Between 1 (before ++ sp ∷ after) s.max_peer_data_id =
      subst (λ ps. Between 1 ps s.max_peer_data_id) p v in
    let found =
      ap (find_peer (λ x. x.peer.remote_ssrc == sp.peer.remote_ssrc)) p
      ∙ find_peer-first before sp after o in
    let put : put_in new s.peers ≡ before ++ new ∷ after =
      ap (put_in new) p ∙ put_in-middle 1 s.max_peer_data_id before sp new after b refl in
    rw (recipient-rtp_bytes seq timestamp sp.peer.remote_ssrc (Message.bytes m) hs hr n, found)
      (after_call-returned s sp _ _ _ (
          data_ready_message r.clock sp.peer seq timestamp sp.peer.remote_ssrc m h short closed hs
            hr refl)
        ∙ rw put)

-- A MIDI packet whose sequence number is 0x494e, the code of an invitation, is dropped, whichever peer
-- has its SSRC and whatever it holds, where no peer's initiator id is the number of its SSRC: the peer
-- is looked for by that number as an initiator id.
pub serve_misrouted :
    (r : Chance) (from : Address) (s : Server) (timestamp ssrc : ℕ) (events : List ℕ)
    → find_peer_by_initiator_id ssrc s ≡ none
    → IsU32 ssrc
    → serve r (rtp_bytes in_command timestamp ssrc events) from midi_port s ≡ served s [] none
unfolding serve find_peer_by_packet recipient find_recipient deliver_to is_command
serve_misrouted r from s timestamp ssrc events e h = rw (from_u32_lem ssrc h, e) (ground arith)

-- ===== src/Peer/Goodbye.antt =====
-- lib/rtppeer.cpp: how a session ends (BY, NO).
use rtpmidid.Common.{
  ℕ, ◌≡◌, List, [], ◌∷◌, ◌++◌, arith, some, ◌==◌, ==_refl, Bool-cases, inl, inr, if◌then◌else◌,
}
use rtpmidid.Common.Bits.{clear_bit}
use rtpmidid.Common.Words.{IsU32, u32_bytes, from_u32_lem}
use rtpmidid.Peer.{
  Peer, Port, midi_port, control_port, port_bit, Clock, send_event, status_change_event, call,
  call_with, returned, connected, not_connected, reset, disconnected_disconnect,
  disconnected_peer_disconnected,
}
use rtpmidid.Peer.Sending.{disconnect, send_goodbye}
use rtpmidid.Peer.Commands.{run_command, parse_command_by}
use rtpmidid.Peer.Receive.{data_ready}
use rtpmidid.Peer.Handshake.{data_ready_command}
use rtpmidid.Peer.Session.{deliver}

abbrev pub by_bytes : ℕ → ℕ → List ℕ
by_bytes initiator ssrc =
    0xFF ∷ 0xFF ∷ 0x42 ∷ 0x59 ∷ 0 ∷ 0 ∷ 0 ∷ 2 ∷ (u32_bytes initiator ++ u32_bytes ssrc)

-- The goodbye packets of a connected peer, and its event.
pub disconnect-connected :
    (p : Peer)
    → p.status ≡ connected
    → returned (call disconnect p)
      ≡ some (
        reset p,
        send_event (by_bytes p.initiator_id p.local_ssrc) midi_port
            ∷ send_event (by_bytes p.initiator_id p.local_ssrc) control_port
            ∷ status_change_event disconnected_disconnect
            ∷ [],
      )
unfolding disconnect send_goodbye reset
disconnect-connected p e = rw e

-- What a peer does with a goodbye from the other end of its session.
pub data_ready_by :
    (c : Clock) (p : Peer) (port : Port) (initiator : ℕ)
    → IsU32 initiator
    → IsU32 p.remote_ssrc
    → returned (call_with (data_ready c port) p (by_bytes initiator p.remote_ssrc))
      ≡ some (
        record p { status = clear_bit p.status (port_bit port); initiator_id = initiator },
        if clear_bit p.status (port_bit port) == not_connected
            then status_change_event disconnected_peer_disconnected ∷ []
            else [],
      )
unfolding run_command parse_command_by
data_ready_by c p port initiator hi hs =
    rw
      (
        data_ready_command c port p 0x42 0x59
            (0 ∷ 0 ∷ 0 ∷ 2 ∷ (u32_bytes initiator ++ u32_bytes p.remote_ssrc)) (omega arith),
        from_u32_lem initiator hi,
        from_u32_lem p.remote_ssrc hs,
        ==_refl p.remote_ssrc,
      )
      (elim (Bool-cases (clear_bit p.status (port_bit port) == not_connected)) [
        | inl e ↦ rw e
        | inr e ↦ rw e
      ])

-- A connected peer that disconnects, and whose initiator id and SSRC have 32 bits, sends exactly one
-- goodbye on the MIDI port and then one on the control port, tells its listeners once that it
-- disconnected, and is reset. The other end, if it is connected, knows the SSRC and gets both
-- goodbyes, then has status NOT_CONNECTED and has told its listeners once that the peer disconnected.
pub disconnect_reaches :
    (c : Clock) (p q : Peer)
    → p.status ≡ connected
    → q.status ≡ connected
    → q.remote_ssrc ≡ p.local_ssrc
    → IsU32 p.initiator_id
    → IsU32 p.local_ssrc
    → let goodbye = by_bytes p.initiator_id p.local_ssrc in
      (returned (call disconnect p)
        ≡ some (
          reset p,
          send_event goodbye midi_port
              ∷ send_event goodbye control_port
              ∷ status_change_event disconnected_disconnect
              ∷ [],
        ))
      × (deliver c q ((goodbye, midi_port) ∷ (goodbye, control_port) ∷ [])
          ≡ some (
            record q { status = not_connected; initiator_id = p.initiator_id },
            status_change_event disconnected_peer_disconnected ∷ [],
          ))
disconnect_reaches c p q ep eq es hi hs = (
  disconnect-connected p ep,
  rw
      (
        ← es,
        data_ready_by c q midi_port p.initiator_id hi (rw es hs),
        data_ready_by c (record q { status = clear_bit q.status 1; initiator_id = p.initiator_id })
            control_port p.initiator_id hi (rw es hs),
      )
      (rw eq),
)

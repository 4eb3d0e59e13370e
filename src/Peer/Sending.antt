-- ===== src/Peer/Sending.antt =====
-- lib/rtppeer.cpp: the packets that a peer sends of its own accord.
use rtpmidid.Common.{ℕ, ◌+◌, ◌/◌, ◌%◌, ◌^◌, true, ◌==◌, ltb, if◌then◌else◌}
use rtpmidid.Common.Bits.{test_bit}
use rtpmidid.Bytes.{
  Reader, Writer, writer, size, write_uint8, write_uint16, write_uint32, write_uint64, write_str0,
  copy_from,
}
use rtpmidid.Peer.{
  Port, midi_port, control_port, M, ◌>>=◌, ◌>>◌, pure, choose, get_peer, modify, emit, lift,
  send_event, status_change_event, Clock, get_timestamp, reset, not_connected, control_connected,
  midi_connected, connected, disconnected_disconnect, in_command, by_command, ck_command,
  rs_command,
}

-- The twelve bytes of a clock command before its three timestamps, which follow.
unfoldable pub send_ck : ℕ → ℕ → ℕ → ℕ → ℕ → Port → M (Unit {0})
unfolding write_uint8 write_uint16 write_uint32 write_uint64
send_ck local_ssrc count ck1 ck2 ck3 port = do
  w ← lift (write_uint16 0xFFFF (writer 36))
  w ← lift (write_uint16 ck_command w)
  w ← lift (write_uint32 local_ssrc w)
  w ← lift (write_uint8 count w)
  w ← lift (write_uint8 0 w)
  w ← lift (write_uint16 0 w)
  w ← lift (write_uint64 ck1 w)
  w ← lift (write_uint64 ck2 w)
  w ← lift (write_uint64 ck3 w)
  emit (send_event w.written port)

unfoldable pub send_ck0 : Clock → M (Unit {0})
unfolding send_ck
send_ck0 c = do
  modify (λ p. record p { waiting_ck = true })
  p ← get_peer
  send_ck p.local_ssrc 0 (get_timestamp c p) 0 0 midi_port

-- The size of the payload: four bits in one byte, or twelve bits in two.
unfoldable pub write_events_size : ℕ → Writer → M Writer
unfolding write_uint8
write_events_size n w =
    choose (ltb n 16) (lift (write_uint8 n w))
      (do w ← lift (write_uint8 (n / 256 % 16 + 0x80) w); lift (write_uint8 (n % 256) w))

unfoldable pub send_midi : Clock → Reader → M (Unit {0})
unfolding write_uint8 write_uint16 write_uint32
send_midi c events = do
  p ← get_peer
  choose (p.status == connected)
      (do
        let timestamp = get_timestamp c p % 2 ^ 32
        modify (λ p. record p { seq_nr = (p.seq_nr + 1) % 2 ^ 16 })
        p ← get_peer
        w ← lift (write_uint8 0x80 (writer 4108))
        w ← lift (write_uint8 0x61 w)
        w ← lift (write_uint16 p.seq_nr w)
        w ← lift (write_uint32 timestamp w)
        w ← lift (write_uint32 p.local_ssrc w)
        w ← write_events_size (size events) w
        w ← lift (copy_from events w)
        emit (send_event w.written midi_port))
      (pure tt)

-- The status after a goodbye to one port.
unfoldable pub status_after_goodbye : Port → ℕ → ℕ
status_after_goodbye midi_port status =
    let s = if status == connected then control_connected else status in
    if s == midi_connected then not_connected else s
status_after_goodbye control_port status =
    let s = if status == connected then midi_connected else status in
    if s == control_connected then not_connected else s

unfoldable pub send_goodbye : Port → M (Unit {0})
unfolding write_uint16 write_uint32 status_after_goodbye
send_goodbye to_port = do
  p ← get_peer
  w ← lift (write_uint16 0xFFFF (writer 64))
  w ← lift (write_uint16 by_command w)
  w ← lift (write_uint32 2 w)
  w ← lift (write_uint32 p.initiator_id w)
  w ← lift (write_uint32 p.local_ssrc w)
  emit (send_event w.written to_port)
  modify (λ p. record p { status = status_after_goodbye to_port p.status })
  p ← get_peer
  choose (p.status == not_connected) (emit (status_change_event disconnected_disconnect)) (pure tt)

unfoldable pub send_feedback : ℕ → M (Unit {0})
unfolding write_uint16 write_uint32
send_feedback seqnum = do
  modify (λ p. record p { remote_seq_nr = seqnum % 2 ^ 16 })
  p ← get_peer
  w ← lift (write_uint16 0xFFFF (writer 96))
  w ← lift (write_uint16 rs_command w)
  w ← lift (write_uint32 p.local_ssrc w)
  w ← lift (write_uint32 seqnum w)
  emit (send_event w.written control_port)

unfoldable pub connect_to : Port → M (Unit {0})
unfolding write_uint16 write_uint32
connect_to rtp_port = do
  p ← get_peer
  w ← lift (write_uint16 0xFFFF (writer 1500))
  w ← lift (write_uint16 in_command w)
  w ← lift (write_uint32 2 w)
  w ← lift (write_uint32 p.initiator_id w)
  w ← lift (write_uint32 p.local_ssrc w)
  w ← lift (write_str0 p.local_name w)
  emit (send_event w.written rtp_port)

unfoldable pub disconnect : M (Unit {0})
disconnect = do
  p ← get_peer
  choose (test_bit p.status 1) (send_goodbye midi_port) (pure tt)
  p ← get_peer
  choose (test_bit p.status 0) (send_goodbye control_port) (pure tt)
  modify reset

-- `~rtppeer_t`
unfoldable pub destroy : M (Unit {0})
destroy = do
  p ← get_peer
  choose (p.status == connected) (do send_goodbye control_port; send_goodbye midi_port) (pure tt)

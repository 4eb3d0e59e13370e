-- ===== src/Peer/Commands.antt =====
-- lib/rtppeer.cpp: the session commands that a peer receives.
use rtpmidid.Common.{ℕ, ◌+◌, ◌-◌, ◌%◌, ◌^◌, false, ◌==◌, leb, if◌then◌else◌}
use rtpmidid.Common.Bits.{set_bit, clear_bit}
use rtpmidid.Errors.{invalid_command, not_implemented, bad_protocol, unknown_initiator, fault}
use rtpmidid.Bytes.{
  writer, size, read_uint8, read_uint16, read_uint32, read_uint64, read_str0, write_uint16,
  write_uint32, write_str0, seek,
}
use rtpmidid.Peer.{
  Peer, Port, M, ◌>>=◌, ◌>>◌, pure, raise, choose, guard, get_peer, modify, emit, lift, read,
  get_buffer, set_buffer, send_event, status_change_event, ck_event, add_stat, Clock, get_timestamp,
  connected, not_connected, port_bit, disconnected_peer_disconnected,
  disconnected_connection_rejected, in_command, ok_command, no_command, by_command, ck_command,
}
use rtpmidid.Peer.Sending.{send_ck}

-- The status gains or loses the bit of the port.
abbrev join_port : Port → Peer → Peer
join_port port p = record p { status = set_bit p.status (port_bit port) }

abbrev leave_port : Port → Peer → Peer
leave_port port p = record p { status = clear_bit p.status (port_bit port) }

unfoldable pub parse_command_ok : Port → M (Unit {0})
unfolding read_uint32
parse_command_ok port = do
  p ← get_peer
  choose (p.status == connected) (pure tt) (do
    protocol ← read read_uint32
    initiator_id ← read read_uint32
    remote_ssrc ← read read_uint32
    modify (λ p. record p { remote_ssrc = remote_ssrc })
    remote_name ← read read_str0
    modify (λ p. record p { remote_name = remote_name })
    guard (protocol == 2) bad_protocol
    p ← get_peer
    guard (initiator_id == p.initiator_id) unknown_initiator
    modify (join_port port)
    p ← get_peer
    emit (status_change_event p.status))

unfoldable pub parse_command_in : Port → M (Unit {0})
unfolding read_uint32 write_uint16 write_uint32
parse_command_in port = do
  protocol ← read read_uint32
  initiator_id ← read read_uint32
  modify (λ p. record p { initiator_id = initiator_id })
  remote_ssrc ← read read_uint32
  modify (λ p. record p { remote_ssrc = remote_ssrc })
  remote_name ← read read_str0
  modify (λ p. record p { remote_name = remote_name })
  guard (protocol == 2) bad_protocol
  p ← get_peer
  w ← lift (write_uint16 0xFFFF (writer 128))
  w ← lift (write_uint16 ok_command w)
  w ← lift (write_uint32 2 w)
  w ← lift (write_uint32 p.initiator_id w)
  w ← lift (write_uint32 p.local_ssrc w)
  w ← lift (write_str0 p.local_name w)
  emit (send_event w.written port)
  modify (join_port port)
  p ← get_peer
  emit (status_change_event p.status)

unfoldable pub parse_command_by : Port → M (Unit {0})
unfolding read_uint32
parse_command_by port = do
  protocol ← read read_uint32
  initiator_id ← read read_uint32
  modify (λ p. record p { initiator_id = initiator_id })
  remote_ssrc ← read read_uint32
  guard (protocol == 2) bad_protocol
  p ← get_peer
  choose (remote_ssrc == p.remote_ssrc)
      (do
        modify (leave_port port)
        p ← get_peer
        choose (p.status == not_connected)
            (emit (status_change_event disconnected_peer_disconnected)) (pure tt))
      (pure tt)

unfoldable pub parse_command_no : Port → M (Unit {0})
unfolding read_uint32
parse_command_no port = do
  protocol ← read read_uint32
  initiator_id ← read read_uint32
  modify (λ p. record p { initiator_id = initiator_id })
  remote_ssrc ← read read_uint32
  guard (protocol == 2) bad_protocol
  modify (leave_port port)
  emit (status_change_event disconnected_connection_rejected)

-- The three counts of a clock exchange; any other count is ignored.
unfoldable pub answer_ck0 : Clock → ℕ → Port → M (Unit {0})
unfolding send_ck
answer_ck0 c ck1 port = do p ← get_peer; send_ck p.local_ssrc 1 ck1 (get_timestamp c p) 0 port

unfoldable pub answer_ck1 : Clock → ℕ → Port → M (Unit {0})
unfolding send_ck read_uint64
answer_ck1 c ck1 port = do
  ck2 ← read read_uint64
  p ← get_peer
  let ck3 = get_timestamp c p
  let latency = (ck3 + 2 ^ 64 - ck1) % 2 ^ 64
  modify (λ p. record p { latency = latency; waiting_ck = false })
  emit (ck_event latency)
  emit (add_stat latency)
  send_ck p.local_ssrc 2 ck1 ck2 ck3 port

unfoldable pub finish_ck2 : Clock → M (Unit {0})
unfolding read_uint64
finish_ck2 c = do
  ck2 ← read read_uint64
  p ← get_peer
  let latency = (get_timestamp c p + 2 ^ 64 - ck2) % 2 ^ 64
  modify (λ p. record p { latency = latency })
  emit (add_stat latency)
  emit (ck_event latency)

unfoldable pub parse_command_ck : Clock → Port → M (Unit {0})
unfolding read_uint8 read_uint16 read_uint32 read_uint64
parse_command_ck c port = do
  ssrc ← read read_uint32
  count ← read read_uint8
  padding ← read read_uint8
  padding ← read read_uint16
  ck1 ← read read_uint64
  choose (count == 0) (answer_ck0 c ck1 port)
      (choose (count == 1) (answer_ck1 c ck1 port) (choose (count == 2) (finish_ck2 c) (pure tt)))

-- The switch on the command.
unfoldable pub run_command : Clock → Port → ℕ → M (Unit {0})
run_command c port command = choose (command == ok_command) (parse_command_ok port) (
    choose (command == in_command) (parse_command_in port) (
      choose (command == ck_command) (parse_command_ck c port) (
        choose (command == by_command) (parse_command_by port)
          (choose (command == no_command) (parse_command_no port) (raise not_implemented)))))

unfoldable pub parse_command : Clock → Port → M (Unit {0})
unfolding read_uint16
parse_command c port = do
  r ← get_buffer
  guard (leb 16 (size r)) invalid_command
  signature ← read read_uint16
  command ← read read_uint16
  run_command c port command

-- `buffer.position = buffer.start + 8`, with no check: `is_feedback` has asked for twelve bytes.
unfoldable pub parse_feedback : M (Unit {0})
unfolding read_uint16 seek
parse_feedback = do
  r ← get_buffer
  r ← lift (if leb 8 (size r) then seek 8 r else fault)
  set_buffer r
  seq ← read read_uint16
  modify (λ p. record p { seq_nr_ack = seq })

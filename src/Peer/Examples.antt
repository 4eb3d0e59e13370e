-- ===== src/Peer/Examples.antt =====
-- Concrete peers and packets: runs of the code, and the theorems at concrete inputs.
use rtpmidid.Common.{ℕ, ◌+◌, ◌%◌, ◌^◌, ◌≡◌, refl, List, [], ◌∷◌, false, some, arith, inl, replicate}
use rtpmidid.Bytes.{reader}
use rtpmidid.Message.{voice3}
use rtpmidid.Errors.{unknown_initiator}
use rtpmidid.Peer.{
  Peer, midi_port, control_port, Clock, send_event, get_timestamp, disconnected_disconnect,
  midi_event, status_change_event, ck_event, add_stat, undefined, call, call_with, returned,
  refused, not_connected, reset, disconnected_peer_disconnected,
}
use rtpmidid.Peer.Sending.{send_midi, disconnect}
use rtpmidid.Peer.Receive.{data_ready}
use rtpmidid.Peer.Session.{deliver, invite, invite_connects, ◌>>=◌}
use rtpmidid.Peer.Handshake.{session_bytes}
use rtpmidid.Peer.RtpPacket.{rtp_bytes}
use rtpmidid.Peer.Delivery.{send_midi_delivers}
use rtpmidid.Peer.Goodbye.{by_bytes, disconnect_reaches}
use rtpmidid.Peer.ClockSync.{exchange, exchange_measures}
use rtpmidid.Peer.Parts.{rtp_each, begun, continued, ended, sysex_in_parts}
use rtpmidid.Peer.Faults.{
  data_byte_first_undefined, invitation_name_overflows, foreign_acceptance_overwrites,
}
use rtpmidid.Peer.Invariant.{IsValid, Leaves, data_ready-IsValid}

abbrev at_second : ℕ → Clock
at_second n = record { tv_sec = n; tv_nsec = 0 }

-- A peer called "A".
abbrev alice : Peer
alice = record {
  status = 0;
  initiator_id = 0xCAFE0001;
  remote_ssrc = 0;
  local_ssrc = 0x1234;
  local_name = 0x41 ∷ [];
  remote_name = [];
  seq_nr_ack = 7;
  seq_nr = 7;
  remote_seq_nr = 0;
  timestamp_start = 50000;
  latency = 0;
  waiting_ck = false;
  running_status = 0;
  sysex = [];
}

-- A peer called "Bo", with another SSRC.
abbrev bob : Peer
bob = record alice {
  initiator_id = 0;
  local_ssrc = 0x4321;
  local_name = 0x42 ∷ 0x6f ∷ [];
  timestamp_start = 90000;
}

abbrev alice_connected : Peer
alice_connected = record alice { status = 3; remote_ssrc = 0x4321; remote_name = bob.local_name }

abbrev bob_connected : Peer
bob_connected = record bob { status = 3; remote_ssrc = 0x1234; remote_name = alice.local_name }

-- The packet of a note that is sent one second after the peer began.
abbrev note_packet : List ℕ
note_packet = rtp_bytes 8 10000 0x1234 (0x90 ∷ 60 ∷ 100 ∷ [])

send_midi_delivers_example :
    (returned (call (send_midi (at_second 6) (reader (0x90 ∷ 60 ∷ 100 ∷ []))) alice_connected)
      ≡ some (record alice_connected { seq_nr = 8 }, send_event note_packet midi_port ∷ []))
    × (returned (call_with (data_ready (at_second 6) midi_port) bob_connected note_packet)
        ≡ some (
          record bob_connected { remote_seq_nr = 8; running_status = 0x90 },
          midi_event (0x90 ∷ 60 ∷ 100 ∷ []) ∷ [],
        ))
unfolding get_timestamp
send_midi_delivers_example =
    send_midi_delivers (at_second 6) (at_second 6) alice_connected bob_connected
      (voice3 0x90 60 100) (omega arith, omega arith, inl (omega arith)) (omega arith) refl refl
      refl (omega arith)

invite_connects_example :
    (invite (at_second 6) control_port (alice, bob) >>= invite (at_second 7) midi_port)
    ≡ some (
      record alice { status = 3; remote_ssrc = 0x4321; remote_name = 0x42 ∷ 0x6f ∷ [] },
      record bob {
        status = 3;
        initiator_id = 0xCAFE0001;
        remote_ssrc = 0x1234;
        remote_name = 0x41 ∷ [];
      },
    )
invite_connects_example =
    invite_connects (at_second 6) (at_second 7) alice bob
      (record {
        client_name = omega arith;
        server_name = omega arith;
        client_fits = omega arith;
        server_fits = omega arith;
        initiator = omega arith;
        client_ssrc = omega arith;
        server_ssrc = omega arith;
      })
      refl refl

bob-IsValid : IsValid bob_connected
bob-IsValid = record {
  status_bits = omega arith;
  initiator = omega arith;
  remote = omega arith;
  ack = omega arith;
  seq = omega arith;
  remote_seq = omega arith;
  latency_width = omega arith;
  voice = inl refl;
}

data_ready-IsValid_example : Leaves IsValid (
    call_with
      (data_ready (at_second 6) midi_port)
      bob_connected
      (rtp_bytes 9 0 0x1234 (0x90 ∷ 60 ∷ 100 ∷ [])))
data_ready-IsValid_example =
    data_ready-IsValid (at_second 6) midi_port bob_connected
      (rtp_bytes 9 0 0x1234 (0x90 ∷ 60 ∷ 100 ∷ [])) bob-IsValid

-- Three parts of a SysEx, in packets with the numbers 20, 21 and 22.
sysex_in_parts_example :
    deliver (at_second 6) bob_connected (
      rtp_each
        (λ n. (20 + n) % 2 ^ 16)
        (λ n. 500)
        0x1234
        0
        (begun (1 ∷ 2 ∷ []) ∷ continued (3 ∷ []) ∷ ended (4 ∷ []) ∷ []))
    ≡ some (
      record bob_connected { remote_seq_nr = 22 },
      midi_event (0xF0 ∷ 1 ∷ 2 ∷ 3 ∷ 4 ∷ 0xF7 ∷ []) ∷ [],
    )
sysex_in_parts_example =
    sysex_in_parts (at_second 6) (λ n. (20 + n) % 2 ^ 16) (λ n. 500) 0x1234 (λ n. omega arith)
      (omega arith) bob_connected (1 ∷ 2 ∷ []) ((3 ∷ []) ∷ []) (4 ∷ []) refl refl
      ((omega arith, (omega arith, tt)), omega arith) (((omega arith, tt), omega arith), tt)
      ((omega arith, tt), omega arith) (omega arith)

data_byte_first_undefined_example :
    call_with
      (data_ready (at_second 6) midi_port)
      bob_connected
      (rtp_bytes 9 0 0x1234 (60 ∷ 100 ∷ []))
    ≡ undefined
data_byte_first_undefined_example =
    data_byte_first_undefined (at_second 6) bob_connected 9 0 0x1234 60 (100 ∷ []) (omega arith)
      (omega arith) (omega arith) (omega arith) refl

abbrev goodbye : List ℕ
goodbye = by_bytes 0xCAFE0001 0x1234

disconnect_reaches_example :
    (returned (call disconnect alice_connected)
      ≡ some (
        reset alice_connected,
        send_event goodbye midi_port
            ∷ send_event goodbye control_port
            ∷ status_change_event disconnected_disconnect
            ∷ [],
      ))
    × (deliver (at_second 8) bob_connected ((goodbye, midi_port) ∷ (goodbye, control_port) ∷ [])
        ≡ some (
          record bob_connected { status = not_connected; initiator_id = 0xCAFE0001 },
          status_change_event disconnected_peer_disconnected ∷ [],
        ))
disconnect_reaches_example =
    disconnect_reaches (at_second 8) alice_connected bob_connected refl refl refl (omega arith)
      (omega arith)

exchange_measures_example :
    (out : List ℕ) × (exchange
        (at_second 10)
        (at_second 11)
        (at_second 12)
        (at_second 13)
        (alice_connected, bob_connected)
      ≡ some (
        (
          record alice_connected { latency = 20000; waiting_ck = false },
          ck_event 20000 ∷ add_stat 20000 ∷ send_event out midi_port ∷ [],
        ),
        (record bob_connected { latency = 20000 }, add_stat 20000 ∷ ck_event 20000 ∷ []),
      ))
exchange_measures_example =
    exchange_measures (at_second 10) (at_second 11) (at_second 12) (at_second 13) alice_connected
      bob_connected (omega arith) (omega arith) (omega arith) (omega arith)

foreign_acceptance_overwrites_example :
    refused (
      call_with
        (data_ready (at_second 6) control_port)
        alice
        (session_bytes 0x4f 0x4b 5 0x999 (0x45 ∷ [])))
    ≡ some (unknown_initiator, record alice { remote_ssrc = 0x999; remote_name = 0x45 ∷ [] }, [])
foreign_acceptance_overwrites_example =
    foreign_acceptance_overwrites (at_second 6) alice control_port 5 0x999 (0x45 ∷ []) refl
      (omega arith) (omega arith) (omega arith) (omega arith)

abbrev long_named : Peer
long_named = record bob { local_name = replicate 112 0x41 }

invitation_name_overflows_example :
    call_with
      (data_ready (at_second 6) control_port)
      long_named
      (session_bytes 0x49 0x4e 5 0x999 (0x45 ∷ []))
    ≡ undefined
invitation_name_overflows_example =
    invitation_name_overflows (at_second 6) long_named control_port 5 0x999 (0x45 ∷ [])
      (omega arith) refl

-- ===== src/Peer/Handshake.antt =====
-- lib/rtppeer.cpp: the invitation (IN) and its answer (OK), one port at a time.
use rtpmidid.Common.{
  ℕ, ◌+◌, ◌≤◌, ◌<◌, ◌≡◌, List, [], ◌∷◌, ◌++◌, length, drop, length-append, arith, some, leb, ◌==◌,
  ==_refl, true, false,
}
use rtpmidid.Common.Words.{from_u16, IsU32, u32_bytes, from_u32_lem}
use rtpmidid.Common.Bits.{set_bit}
use rtpmidid.Bytes.RoundTrip.{IsText, read_str0_text, write_str0_fits}
use rtpmidid.Peer.{
  Peer, Port, midi_port, control_port, port_bit, Clock, send_event, status_change_event, call,
  call_with, returned, connected,
}
use rtpmidid.Peer.Sending.{connect_to}
use rtpmidid.Peer.Commands.{parse_command, run_command, parse_command_in, parse_command_ok}
use rtpmidid.Peer.Receive.{data_ready, is_command}

-- A packet of at least 16 bytes that begins with FF FF goes to the switch on commands, on both
-- ports, with the position behind the command.
pub data_ready_command :
    (c : Clock) (port : Port) (p : Peer) (c1 c2 : ℕ) (xs : List ℕ)
    → 12 ≤ length xs
    → call_with (data_ready c port) p (0xFF ∷ 0xFF ∷ c1 ∷ c2 ∷ xs)
      ≡ run_command c port (from_u16 c1 c2) (record {
        peer = p;
        buffer = record { seen = c2 ∷ c1 ∷ 0xFF ∷ 0xFF ∷ []; rest = xs };
        events = [];
      })
unfolding is_command
data_ready_command c midi_port p c1 c2 xs h =
    let enough : leb 16 (0 + length (0xFF ∷ 0xFF ∷ c1 ∷ c2 ∷ xs)) ≡ true = ground arith in
    unfold data_ready parse_command in rw (enough, enough)
data_ready_command c control_port p c1 c2 xs h =
    let enough : leb 16 (0 + length (0xFF ∷ 0xFF ∷ c1 ∷ c2 ∷ xs)) ≡ true = ground arith in
    unfold data_ready parse_command in rw (enough, enough)

-- The packets of an invitation and of its acceptance differ in the command.
abbrev pub session_bytes : ℕ → ℕ → ℕ → ℕ → List ℕ → List ℕ
session_bytes c1 c2 initiator ssrc name =
    0xFF
    ∷ 0xFF
    ∷ c1
    ∷ c2
    ∷ 0
    ∷ 0
    ∷ 0
    ∷ 2
    ∷ (u32_bytes initiator ++ (u32_bytes ssrc ++ (name ++ 0 ∷ [])))

pub session_long :
    (initiator ssrc : ℕ) (name : List ℕ)
    → 12 ≤ length (drop 4 (session_bytes 0 0 initiator ssrc name))
session_long initiator ssrc name = omega (arith, length-append name (0 ∷ []))

pub connect_to_sends :
    (p : Peer) (port : Port)
    → length p.local_name < 1484
    → returned (call (connect_to port) p)
      ≡ some (
        p,
        send_event (session_bytes 0x49 0x4e p.initiator_id p.local_ssrc p.local_name) port ∷ [],
      )
unfolding connect_to
connect_to_sends p port h = rw (write_str0_fits, h)

-- What a peer answers to an invitation.
pub data_ready_in :
    (c : Clock) (p : Peer) (port : Port) (initiator ssrc : ℕ) (name : List ℕ)
    → IsU32 initiator
    → IsU32 ssrc
    → IsText name
    → length p.local_name < 112
    → returned (call_with (data_ready c port) p (session_bytes 0x49 0x4e initiator ssrc name))
      ≡ some (
        record p {
          status = set_bit p.status (port_bit port);
          initiator_id = initiator;
          remote_ssrc = ssrc;
          remote_name = name;
        },
        send_event (session_bytes 0x4f 0x4b initiator p.local_ssrc p.local_name) port
            ∷ status_change_event (set_bit p.status (port_bit port))
            ∷ [],
      )
unfolding run_command parse_command_in
data_ready_in c p port initiator ssrc name hi hs hn h = rw (
  data_ready_command c port p 0x49 0x4e _ (session_long initiator ssrc name),
  from_u32_lem initiator hi,
  from_u32_lem ssrc hs,
  read_str0_text,
  hn,
  write_str0_fits,
  h,
)

-- What a peer that is not connected does with an acceptance of its own invitation.
pub data_ready_ok :
    (c : Clock) (p : Peer) (port : Port) (ssrc : ℕ) (name : List ℕ)
    → (p.status == connected) ≡ false
    → IsU32 p.initiator_id
    → IsU32 ssrc
    → IsText name
    → returned (call_with (data_ready c port) p (session_bytes 0x4f 0x4b p.initiator_id ssrc name))
      ≡ some (
        record p {
          status = set_bit p.status (port_bit port);
          remote_ssrc = ssrc;
          remote_name = name;
        },
        status_change_event (set_bit p.status (port_bit port)) ∷ [],
      )
unfolding run_command parse_command_ok
data_ready_ok c p port ssrc name free hi hs hn = rw (
  data_ready_command c port p 0x4f 0x4b _ (session_long p.initiator_id ssrc name),
  free,
  from_u32_lem p.initiator_id hi,
  from_u32_lem ssrc hs,
  read_str0_text,
  hn,
  ==_refl p.initiator_id,
)

-- ===== src/Server.antt =====
-- lib/rtpserver.cpp and lib/rtpserverpeer.cpp: a server that keeps one peer for each client.
-- A peer's method runs to its end and its signals are heard after it, in their order: what the
-- server's listeners do (send, pass on, set a timer, remove the peer) changes nothing that the method
-- reads. What the server asks of the outside is recorded as actions.
-- Timers are state, and fire by `timer_expires`; the sockets are actions.
pub mod Serving
pub mod Routing
pub mod Heard
pub mod Invariant
pub mod Sessions
pub mod Misrouted
pub mod Farewell
mod Examples
use rtpmidid.Common.{
  ℕ, zero, suc, ◌+◌, ◌%◌, ◌^◌, List, [], ◌∷◌, ◌++◌, length, drop, Bool, true, false, ◌==◌, leb, not,
  ◌&&◌, if◌then◌else◌, Option, none, some,
}
use rtpmidid.Common.Words.{from_u16}
use rtpmidid.Common.Bits.{test_bit}
use rtpmidid.Errors.{Error, Result, ok, throw, fault, ◌>>=◌}
use rtpmidid.Bytes.{Reader, reader, bytes, read_uint32, size}
use rtpmidid.Peer.{
  Peer, Port, midi_port, control_port, Clock, Signal, send_event, midi_event, status_change_event,
  ck_event, add_stat, Outcome, done, thrown, undefined, out_of_fuel, call, call_with, create,
  connected, control_connected, in_command, ok_command, no_command, by_command, ck_command,
  rs_command,
}
use rtpmidid.Peer.Receive.{data_ready, is_command}
use rtpmidid.Peer.Sending.{send_midi, send_goodbye, disconnect}

-- `network_address_t`
pub record Address : Type 0 where
  pub ip : ℕ
  pub port : ℕ

-- The timer of a peer: 5 s for the second port to connect, 60 s for the next clock exchange, or none.
pub data PeerTimer : Type 0 where
  midi_wait ck_wait disabled : PeerTimer

-- `rtpserverpeer_t`. `remote_port` is the port of the peer's `remote_address`, which the first packet
-- came from; `address` is changed by each sending.
pub record ServerPeer : Type 0 where
  pub id : ℕ
  pub peer : Peer
  pub address : Address
  pub remote_port : ℕ
  pub timer : PeerTimer

pub record Server : Type 0 where
  pub max_peer_data_id : ℕ
  pub peers : List ServerPeer
  pub name : List ℕ

-- A datagram from one of the two sockets, and the server's own signals: the status of the peer with
-- an id, and MIDI.
pub data Action : Type 0 where
  send_datagram : Port → Address → List ℕ → Action
  status_signal : ℕ → ℕ → Action
  midi_signal : List ℕ → Action

abbrev pub fresh : List ℕ → Server
fresh name = record { max_peer_data_id = 1; peers = []; name = name }

unfoldable pub find_peer : (ServerPeer → Bool) → List ServerPeer → Option ServerPeer
find_peer test [] = none
find_peer test (sp ∷ sps) = if test sp then some sp else find_peer test sps

unfoldable pub find_peer_by_ssrc : ℕ → Server → Option ServerPeer
unfolding find_peer
find_peer_by_ssrc ssrc s = find_peer (λ sp. sp.peer.remote_ssrc == ssrc) s.peers

unfoldable pub find_peer_by_initiator_id : ℕ → Server → Option ServerPeer
unfolding find_peer
find_peer_by_initiator_id initiator s = find_peer (λ sp. sp.peer.initiator_id == initiator) s.peers

unfoldable pub find_peer_data_by_id : ℕ → Server → Option ServerPeer
unfolding find_peer
find_peer_data_by_id id s = find_peer (λ sp. sp.id == id) s.peers

-- Who a packet is for, as its command says.
pub data Recipient : Type 0 where
  by_initiator by_ssrc : ℕ → Recipient
  nobody : Recipient

-- A read at an offset, which throws beyond the end.
unfoldable pub uint32_at : ℕ → List ℕ → Result ℕ
unfolding read_uint32
uint32_at offset packet = read_uint32 (reader (drop offset packet)) >>= λ r. ok r.0

by_ssrc_at : ℕ → List ℕ → Result Recipient
by_ssrc_at offset packet = uint32_at offset packet >>= λ ssrc. ok (by_ssrc ssrc)

by_initiator_at : ℕ → List ℕ → Result Recipient
by_initiator_at offset packet = uint32_at offset packet >>= λ i. ok (by_initiator i)

-- The switch on bytes 2 and 3, whatever the first two bytes are.
route : ℕ → ℕ → Port → List ℕ → Result Recipient
unfolding uint32_at by_ssrc_at by_initiator_at
route command second port packet =
    if command == in_command
    then by_initiator_at 8 packet
    else if command == ok_command
    then by_initiator_at 8 packet
    else if command == no_command
    then by_initiator_at 8 packet
    else if command == by_command
    then by_ssrc_at 12 packet
    else if command == ck_command
    then by_ssrc_at 4 packet
    else if command == rs_command
    then by_ssrc_at 4 packet
    else elim port [
      | midi_port ↦ if second % 128 == 0x61 then by_ssrc_at 8 packet else ok nobody
      | control_port ↦ ok nobody
    ]

-- The bytes of the command are read with no check of the packet's size.
unfoldable pub recipient : Port → List ℕ → Result Recipient
unfolding route
recipient port (a ∷ b ∷ c ∷ d ∷ rest) = route (from_u16 c d) b port (a ∷ b ∷ c ∷ d ∷ rest)
recipient port _ = fault

unfoldable pub find_recipient : Recipient → Server → Option ServerPeer
unfolding find_peer_by_initiator_id find_peer_by_ssrc
find_recipient (by_initiator i) s = find_peer_by_initiator_id i s
find_recipient (by_ssrc ssrc) s = find_peer_by_ssrc ssrc s
find_recipient nobody s = none

unfoldable pub find_peer_by_packet : Port → List ℕ → Server → Result (Option ServerPeer)
find_peer_by_packet port packet s = recipient port packet >>= λ r. ok (find_recipient r s)

-- `rtpserverpeer_t::sendto`, through `rtpserver_t::sendto`.
unfoldable pub sendto : Port → List ℕ → ServerPeer → ServerPeer × List Action
sendto midi_port packet sp =
    let to = record sp.address { port = sp.remote_port + 1 } in
    (record sp { address = to }, send_datagram midi_port to packet ∷ [])
sendto control_port packet sp =
    let to = record sp.address { port = sp.remote_port } in
    (record sp { address = to }, send_datagram control_port to packet ∷ [])

abbrev pub is_disconnected : ℕ → Bool
is_disconnected status = test_bit status 7

-- `status_change`, up to the removal.
unfoldable pub status_change : ℕ → ServerPeer → ServerPeer × List Action
status_change status sp = (
  if status == connected then record sp { timer = ck_wait } else sp,
  status_signal sp.id status ∷ [],
)

-- What the listeners of `setup_connections` do with a signal of the peer.
unfoldable pub hear : Signal → ServerPeer → ServerPeer × List Action
unfolding sendto status_change
hear (send_event packet port) sp = sendto port packet sp
hear (status_change_event status) sp = status_change status sp
hear (midi_event midi) sp = (sp, midi_signal midi ∷ [])
hear (ck_event latency) sp = (record sp { timer = ck_wait }, [])
hear (add_stat latency) sp = (sp, [])

-- A status from DISCONNECTED on removes the peer from its server, and drops its listeners.
unfoldable pub leaves : Signal → Bool
leaves (status_change_event status) = is_disconnected status
leaves _ = false

-- The signals of a peer that is in the server's list; the last result tells whether it left.
unfoldable pub hear_all : List Signal → ServerPeer → ServerPeer × List Action × Bool
unfolding hear leaves
hear_all [] sp = (sp, [], false)
hear_all (signal ∷ signals) sp =
    let (sp1, actions) = hear signal sp in
    let rest = hear_all signals sp1 in
    if leaves signal then (sp1, actions, true) else (rest.0, actions ++ rest.1, rest.2)

-- A peer that is moved in the vector connects its listeners again, with a timer of 5 s.
unfoldable pub moved : ServerPeer → ServerPeer
moved sp = record sp { timer = midi_wait }

abbrev pub move_all : List ServerPeer → List ServerPeer
move_all [] = []
move_all (sp ∷ sps) = moved sp ∷ move_all sps

-- `remove_peer`: the peers behind it move forward. Ids differ (Server.Invariant), so there is one.
unfoldable pub remove_from : ℕ → List ServerPeer → List ServerPeer
unfolding moved
remove_from id [] = []
remove_from id (sp ∷ sps) = if sp.id == id then move_all sps else sp ∷ remove_from id sps

unfoldable pub remove_peer : ℕ → Server → Server
unfolding remove_from
remove_peer id s = record s { peers = remove_from id s.peers }

unfoldable pub put_in : ServerPeer → List ServerPeer → List ServerPeer
put_in sp [] = []
put_in sp (x ∷ xs) = if x.id == sp.id then sp ∷ xs else x ∷ put_in sp xs

-- A change of a peer through its pointer.
unfoldable pub put_peer : ServerPeer → Server → Server
unfolding put_in
put_peer sp s = record s { peers = put_in sp s.peers }

-- ===== src/Server/Serving.antt =====
-- lib/rtpserver.cpp: one call of the server: the packet is looked at, its peer found or made, and the
-- peer's method run.
use rtpmidid.Common.{
  ℕ, ◌+◌, List, [], ◌∷◌, ◌++◌, Bool, true, false, ◌==◌, ◌&&◌, if◌then◌else◌, Option, none, some,
}
use rtpmidid.Common.Bits.{test_bit}
use rtpmidid.Errors.{Error, Result, ok, throw, fault}
use rtpmidid.Bytes.{Reader, reader}
use rtpmidid.Peer.{
  Port, Clock, Signal, Outcome, done, thrown, undefined, out_of_fuel, call, call_with, create,
  control_connected, midi_port, control_port, M, get_peer, choose, pure, ◌>>=◌, ◌>>◌,
}
use rtpmidid.Peer.Receive.{data_ready, is_command}
use rtpmidid.Peer.Sending.{send_midi, send_goodbye, disconnect}
use rtpmidid.Server.{
  find_peer_data_by_id, find_peer_by_packet, hear, hear_all, moved, move_all, remove_peer, put_peer,
  Address, PeerTimer, midi_wait, ck_wait, disabled, ServerPeer, Server, Action,
}

-- How a call of the server ends; an exception has the state and the actions up to it.
pub data Served : Type 0 where
  served : Server → List Action → Option Error → Served
  unserved starved : Served

unfoldable pub settle : Server → ServerPeer × List Action × Bool → Option Error → Served
unfolding put_peer remove_peer
settle s (sp, actions, gone) e =
    served (if gone then remove_peer sp.id s else put_peer sp s) actions e

-- A method of a peer in the list ran, and its signals are heard.
unfoldable pub after_call : Server → ServerPeer → Outcome (Unit {0}) → Served
unfolding hear_all settle
after_call s sp (done a w) = settle s (hear_all w.events (record sp { peer = w.peer })) none
after_call s sp (thrown e w) = settle s (hear_all w.events (record sp { peer = w.peer })) (some e)
after_call s sp undefined = unserved
after_call s sp out_of_fuel = starved

-- The two random numbers of a new peer, the time, and whether the vector has to grow: then the peers
-- that are in it move.
pub record Chance : Type 0 where
  pub random_ssrc : ℕ
  pub random_seq : ℕ
  pub clock : Clock
  pub grows : Bool

-- A peer that is not in the list yet cannot be removed from it.
unfoldable pub hear_each : List Signal → ServerPeer → ServerPeer × List Action
unfolding hear
hear_each [] sp = (sp, [])
hear_each (signal ∷ signals) sp =
    let (sp1, actions) = hear signal sp in
    let (sp2, more) = hear_each signals sp1 in (sp2, actions ++ more)

abbrev pub grown : Bool → List ServerPeer → List ServerPeer
grown true sps = move_all sps
grown false sps = sps

-- The constructor `rtpserverpeer_t(buffer, addr, port, name, server)`: it has taken an id also where
-- it throws, and then there is no new peer.
unfoldable pub after_create : Chance → Server → ServerPeer → Outcome (Unit {0}) → Served
unfolding hear_each moved
after_create r s sp (done a w) =
    let (sp1, actions) = hear_each w.events (record sp { peer = w.peer }) in
    served
      (record s {
        max_peer_data_id = s.max_peer_data_id + 1;
        peers = grown r.grows s.peers ++ sp1 ∷ [];
      })
      actions none
after_create r s sp (thrown e w) =
    let (sp1, actions) = hear_each w.events (record sp { peer = w.peer }) in
    served (record s { max_peer_data_id = s.max_peer_data_id + 1 }) actions (some e)
after_create r s sp undefined = unserved
after_create r s sp out_of_fuel = starved

abbrev pub new_peer : Chance → Address → Server → ServerPeer
new_peer r from s = record {
  id = s.max_peer_data_id;
  peer = create s.name r.random_ssrc r.random_seq r.clock;
  address = from;
  remote_port = from.port;
  timer = midi_wait;
}

unfoldable pub create_peer_from : Chance → List ℕ → Address → Port → Server → Served
create_peer_from r packet from port s =
    let sp = new_peer r from s in
    after_create r s sp (call_with (data_ready r.clock port) sp.peer packet)

-- `buffer.start[2] == 'I' && buffer.start[3] == 'N'`
abbrev pub is_invitation : List ℕ → Bool
is_invitation (a ∷ b ∷ c ∷ d ∷ rest) = c == 0x49 && d == 0x4e
is_invitation _ = false

unfoldable pub deliver_to :
    Chance → List ℕ → Address → Port → Server → Result (Option ServerPeer) → Served
deliver_to r packet from port s (ok (some sp)) =
    after_call s sp (call_with (data_ready r.clock port) sp.peer packet)
deliver_to r packet from port s (ok none) =
    if is_command (reader packet) && is_invitation packet
    then create_peer_from r packet from port s
    else served s [] none
deliver_to r packet from port s (throw e) = served s [] (some e)
deliver_to r packet from port s fault = unserved

-- `data_ready`, for a datagram at one of the two sockets.
unfoldable pub serve : Chance → List ℕ → Address → Port → Server → Served
serve r packet from port s = deliver_to r packet from port s (find_peer_by_packet port packet s)

-- Calls of the peers in a row: the next starts from what the last left, unless it threw.
abbrev pub add_actions : List Action → Served → Served
add_actions actions (served s more e) = served s (actions ++ more) e
add_actions actions unserved = unserved
add_actions actions starved = starved

unfoldable pub and_serve : Served → (Server → Served) → Served
and_serve (served s actions none) f = add_actions actions (f s)
and_serve (served s actions (some e)) f = served s actions (some e)
and_serve unserved f = unserved
and_serve starved f = starved

unfoldable pub send_midi_to : Clock → Reader → List ServerPeer → Server → Served
unfolding and_serve after_call
send_midi_to c midi [] s = served s [] none
send_midi_to c midi (sp ∷ sps) s =
    and_serve (after_call s sp (call (send_midi c midi) sp.peer)) (send_midi_to c midi sps)

unfoldable pub send_midi_to_all_peers : Clock → Reader → Server → Served
unfolding send_midi_to
send_midi_to_all_peers c midi s = send_midi_to c midi s.peers s

-- `~rtpserver_t`, over the ids of the peers that it copies: a peer that leaves is no longer in the
-- list, and the peers behind it have moved.
unfoldable pub send_goodbyes : M (Unit {0})
send_goodbyes = do
  p ← get_peer
  choose (test_bit p.status 0) (send_goodbye control_port) (pure tt)
  p ← get_peer
  choose (test_bit p.status 1) (send_goodbye midi_port) (pure tt)

abbrev pub ids_of : List ServerPeer → List ℕ
ids_of [] = []
ids_of (sp ∷ sps) = sp.id ∷ ids_of sps

unfoldable pub say_goodbye : ServerPeer → Server → Served
unfolding after_call
say_goodbye sp s = after_call s sp (call send_goodbyes sp.peer)

unfoldable pub goodbye_to_all : List ℕ → Server → Served
unfolding and_serve say_goodbye find_peer_data_by_id
goodbye_to_all [] s = served s [] none
goodbye_to_all (id ∷ ids) s =
    and_serve
      (elim (find_peer_data_by_id id s) [ none ↦ served s [] none | some sp ↦ say_goodbye sp s ])
      (goodbye_to_all ids)

unfoldable pub goodbyes : Server → Served
unfolding goodbye_to_all
goodbyes s = goodbye_to_all (ids_of s.peers) s

expire : PeerTimer → ServerPeer → Server → Served
unfolding after_call
expire midi_wait sp s =
    if sp.peer.status == control_connected
    then after_call s (record sp { timer = disabled }) (call disconnect sp.peer)
    else served (put_peer (record sp { timer = disabled }) s) [] none
expire ck_wait sp s = after_call s (record sp { timer = disabled }) (call disconnect sp.peer)
expire disabled sp s = served s [] none

-- The timer of the peer with an id fires.
unfoldable pub timer_expires : ℕ → Server → Served
unfolding expire find_peer_data_by_id
timer_expires id s = elim (find_peer_data_by_id id s) [
  | none ↦ served s [] none
  | some sp ↦ expire sp.timer sp s
]

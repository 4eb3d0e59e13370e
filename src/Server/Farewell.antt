-- ===== src/Server/Farewell.antt =====
-- lib/rtpserver.cpp: the goodbyes of a server that ends.
use rtpmidid.Common.{ℕ, ◌+◌, ◌≡◌, refl, sym, ap, ◌∙◌, List, [], ◌∷◌, ◌++◌, All, some, none, ==_refl}
use rtpmidid.Peer.{
  Peer, midi_port, control_port, send_event, status_change_event, call, returned, connected,
  not_connected, disconnected_disconnect,
}
use rtpmidid.Peer.Sending.{send_goodbye}
use rtpmidid.Peer.Goodbye.{by_bytes}
use rtpmidid.Server.{
  Server, ServerPeer, Action, send_datagram, status_signal, find_peer_data_by_id, find_peer, moved,
  move_all, remove_from, remove_peer, hear_all,
}
use rtpmidid.Server.Serving.{
  served, and_serve, send_goodbyes, ids_of, say_goodbye, goodbye_to_all, goodbyes,
}
use rtpmidid.Server.Heard.{after_call-returned}

abbrev pub IsConnected : ServerPeer → Type 0
IsConnected sp = sp.peer.status ≡ connected

-- What a client of a server gets when the server ends, and what the server's listeners are told.
abbrev pub farewell : ServerPeer → List Action
farewell sp =
    let packet = by_bytes sp.peer.initiator_id sp.peer.local_ssrc in
    send_datagram control_port (record sp.address { port = sp.remote_port }) packet
    ∷ send_datagram midi_port (record sp.address { port = sp.remote_port + 1 }) packet
    ∷ status_signal sp.id disconnected_disconnect
    ∷ []

abbrev pub farewells : List ServerPeer → List Action
farewells [] = []
farewells (sp ∷ sps) = farewell sp ++ farewells sps

send_goodbyes-connected :
    (p : Peer)
    → p.status ≡ connected
    → returned (call send_goodbyes p)
      ≡ some (
        record p { status = not_connected },
        send_event (by_bytes p.initiator_id p.local_ssrc) control_port
            ∷ send_event (by_bytes p.initiator_id p.local_ssrc) midi_port
            ∷ status_change_event disconnected_disconnect
            ∷ [],
      )
unfolding send_goodbyes send_goodbye
send_goodbyes-connected p e = rw e

say_goodbye-connected :
    (sp : ServerPeer) (s : Server)
    → IsConnected sp
    → say_goodbye sp s ≡ served (remove_peer sp.id s) (farewell sp) none
unfolding say_goodbye hear_all
say_goodbye-connected sp s e =
    after_call-returned s sp (call send_goodbyes sp.peer) _ _ (send_goodbyes-connected sp.peer e)

ids_of-move_all : (sps : List ServerPeer) → ids_of (move_all sps) ≡ ids_of sps
unfolding moved
ids_of-move_all [] = refl
ids_of-move_all (sp ∷ sps) = ap (λ ids. sp.id ∷ ids) (ids_of-move_all sps)

farewells-move_all : (sps : List ServerPeer) → farewells (move_all sps) ≡ farewells sps
unfolding moved
farewells-move_all [] = refl
farewells-move_all (sp ∷ sps) = rw (farewells-move_all sps)

IsConnected-move_all :
    (sps : List ServerPeer) → All IsConnected sps → All IsConnected (move_all sps)
unfolding moved
IsConnected-move_all [] on = tt
IsConnected-move_all (sp ∷ sps) (first, on) = (first, IsConnected-move_all sps on)

goodbye_to_first :
    (sp : ServerPeer) (sps : List ServerPeer) (ids : List ℕ) (s : Server)
    → IsConnected sp
    → goodbye_to_all (sp.id ∷ ids) (record s { peers = sp ∷ sps })
      ≡ and_serve
          (served (record s { peers = move_all sps }) (farewell sp) none)
          (goodbye_to_all ids)
unfolding goodbye_to_all find_peer_data_by_id find_peer remove_peer remove_from
goodbye_to_first sp sps ids s on =
    rw (==_refl sp.id, say_goodbye-connected sp (record s { peers = sp ∷ sps }) on, ==_refl sp.id)

goodbye_to_all-connected :
    (ids : List ℕ) (sps : List ServerPeer) (s : Server)
    → ids_of sps ≡ ids
    → All IsConnected sps
    → goodbye_to_all ids (record s { peers = sps })
      ≡ served (record s { peers = [] }) (farewells sps) none
unfolding goodbye_to_all and_serve
goodbye_to_all-connected [] [] s e on = refl
goodbye_to_all-connected (id ∷ ids) [] s e on = cc
goodbye_to_all-connected [] (sp ∷ sps) s e on = cc
goodbye_to_all-connected (id ∷ ids) (sp ∷ sps) s e (first, on) =
    let here : sp.id ≡ id = cc in
    let rest : ids_of sps ≡ ids = cc in
    ap (λ i. goodbye_to_all (i ∷ ids) (record s { peers = sp ∷ sps })) (sym here)
    ∙ goodbye_to_first sp sps ids s first
    ∙ rw (
      goodbye_to_all-connected ids (move_all sps) s (ids_of-move_all sps ∙ rest)
          (IsConnected-move_all sps on),
      farewells-move_all sps,
    )

-- A server that ends, with connected peers only, says goodbye to each in the order of its list: on
-- the control port and then on the MIDI port, with the peer's initiator id and SSRC. Its listeners
-- are told once for each, right after its goodbyes, and no peer is left.
pub goodbyes-connected :
    (s : Server)
    → All IsConnected s.peers
    → goodbyes s ≡ served (record s { peers = [] }) (farewells s.peers) none
unfolding goodbyes
goodbyes-connected s on = goodbye_to_all-connected (ids_of s.peers) s.peers s refl on

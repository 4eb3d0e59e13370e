-- ===== src/Server/Sessions.antt =====
-- lib/rtpserver.cpp: a client that connects to a server, and one that leaves it.
use rtpmidid.Common.{
  ℕ, ◌+◌, ◌<◌, ◌≡◌, refl, ap, ◌∙◌, subst, Bool, List, [], ◌∷◌, ◌++◌, true, none, some, ◌==◌,
  ==_refl, arith, length, leb,
}
use rtpmidid.Common.Words.{IsU32}
use rtpmidid.Bytes.RoundTrip.{IsText}
use rtpmidid.Peer.{
  Peer, Port, midi_port, control_port, create, connected, control_connected, midi_connected,
  disconnected_peer_disconnected,
}
use rtpmidid.Peer.Goodbye.{by_bytes, data_ready_by}
use rtpmidid.Peer.Handshake.{session_bytes, session_long, data_ready_in}
use rtpmidid.Peer.Receive.{is_command}
use rtpmidid.Server.{
  find_peer, move_all, find_peer_by_ssrc, remove_peer, put_peer, Server, ServerPeer, send_datagram,
  status_signal, Address, ck_wait, find_peer_by_initiator_id, find_peer_by_packet, find_recipient,
  hear_all,
}
use rtpmidid.Server.Serving.{
  served, Chance, grown, new_peer, serve, and_serve, deliver_to, create_peer_from, hear_each,
  settle,
}
use rtpmidid.Server.Invariant.{IsValid, Between, Between-grown}
use rtpmidid.Server.Heard.{after_call-returned, after_create-returned}
use rtpmidid.Server.Routing.{
  recipient-session_bytes, find_peer_by_initiator-grown, find_peer-last, put_in-last,
  find_peer-put_in, recipient-by_bytes, remove_from-put_in, OtherSsrcs, find_peer-first,
  remove_from-middle,
}

abbrev pub invitation : ℕ → ℕ → List ℕ → List ℕ
invitation initiator ssrc name = session_bytes 0x49 0x4e initiator ssrc name

abbrev pub acceptance : ℕ → Peer → List ℕ
acceptance initiator p = session_bytes 0x4f 0x4b initiator p.local_ssrc p.local_name

-- The peer of a client that is invited on one port, and on both.
abbrev pub half_joined : Chance → Address → Server → ℕ → ℕ → List ℕ → ServerPeer
half_joined r from s initiator ssrc name =
    let sp = new_peer r from s in
    record sp {
      peer = record sp.peer {
        status = control_connected;
        initiator_id = initiator;
        remote_ssrc = ssrc;
        remote_name = name;
      };
    }

abbrev pub joined : Chance → Address → Server → ℕ → ℕ → List ℕ → ServerPeer
joined r from s initiator ssrc name =
    let sp = half_joined r from s initiator ssrc name in
    record sp {
      peer = record sp.peer { status = connected };
      address = record from { port = from.port + 1 };
      timer = ck_wait;
    }

abbrev pub other_port : Port → Port
other_port midi_port = control_port
other_port control_port = midi_port

-- The status of a connected peer, and the peer, after a goodbye on one port.
abbrev left_by : Port → ℕ
left_by midi_port = control_connected
left_by control_port = midi_connected

abbrev half_left : ServerPeer → Port → ℕ → ServerPeer
half_left sp port initiator = record sp {
  peer = record sp.peer { status = left_by port; initiator_id = initiator };
}

abbrev pub with_new : Chance → Server → ServerPeer → Server
with_new r s sp = record s {
  max_peer_data_id = s.max_peer_data_id + 1;
  peers = grown r.grows s.peers ++ sp ∷ [];
}

first_invitation :
    (r : Chance) (from : Address) (s : Server) (initiator ssrc : ℕ) (name : List ℕ)
    → find_peer_by_initiator_id initiator s ≡ none
    → IsU32 initiator
    → IsU32 ssrc
    → IsText name
    → length s.name < 112
    → serve r (invitation initiator ssrc name) from control_port s
      ≡ served
          (with_new r s (half_joined r from s initiator ssrc name))
          (send_datagram control_port from (acceptance initiator (new_peer r from s).peer)
            ∷ status_signal s.max_peer_data_id control_connected
            ∷ [])
          none
unfolding serve find_peer_by_packet find_recipient deliver_to is_command create_peer_from hear_each
    create
first_invitation r from s initiator ssrc name e hi hs hn h =
    let long : leb 16 (0 + length (session_bytes 0x49 0x4e initiator ssrc name)) ≡ true =
      ground (arith, session_long initiator ssrc name) in
    rw (recipient-session_bytes control_port initiator ssrc name hi, e, long)
      (after_create-returned r s (new_peer r from s) _ _ _ (
        data_ready_in r.clock (new_peer r from s).peer control_port initiator ssrc name hi hs hn h))

second_invitation :
    (r r' : Chance) (from from' : Address) (s : Server) (initiator ssrc : ℕ) (name : List ℕ)
    → IsValid s
    → find_peer_by_initiator_id initiator s ≡ none
    → IsU32 initiator
    → IsU32 ssrc
    → IsText name
    → length s.name < 112
    → serve r'
        (invitation initiator ssrc name)
        from'
        midi_port
        (with_new r s (half_joined r from s initiator ssrc name))
      ≡ served
          (with_new r s (joined r from s initiator ssrc name))
          (send_datagram midi_port
              (record from { port = from.port + 1 })
              (acceptance initiator (new_peer r from s).peer)
            ∷ status_signal s.max_peer_data_id connected
            ∷ [])
          none
unfolding serve find_peer_by_packet find_recipient deliver_to find_peer_by_initiator_id hear_all
    settle put_peer create
second_invitation r r' from from' s initiator ssrc name b e hi hs hn h =
    let sp = half_joined r from s initiator ssrc name in
    rw
      (
        recipient-session_bytes midi_port initiator ssrc name hi,
        find_peer-last (λ x. x.peer.initiator_id == initiator) (grown r.grows s.peers) sp
            (find_peer_by_initiator-grown initiator r.grows s.peers e) (==_refl initiator),
      )
      (after_call-returned (with_new r s sp) sp _ _ _
          (data_ready_in r'.clock sp.peer midi_port initiator ssrc name hi hs hn h)
        ∙ rw (
            put_in-last 1 s.max_peer_data_id (grown r.grows s.peers) sp
              (joined r from s initiator ssrc name)
              (Between-grown r.grows 1 s.max_peer_data_id s.peers b) refl refl))

-- A client whose initiator id no peer of a valid server has, and that invites the server on the control
-- port and then on the MIDI port, with one initiator id, gets two acceptances: the first at the address
-- that the first invitation came from, and the second at the port behind that one, wherever the second
-- invitation came from. The server then has one more peer, the last one, with a new id: it is
-- connected, knows the client's SSRC and name, and waits for a clock exchange. The server's listeners
-- are told of both steps. The client's name is a C string, the numbers have 32 bits, and the server's
-- name is shorter than 112 bytes.
pub invitations_join :
    (r r' : Chance) (from from' : Address) (s : Server) (initiator ssrc : ℕ) (name : List ℕ)
    → IsValid s
    → find_peer_by_initiator_id initiator s ≡ none
    → IsU32 initiator
    → IsU32 ssrc
    → IsText name
    → length s.name < 112
    → and_serve
        (serve r (invitation initiator ssrc name) from control_port s)
        (serve r' (invitation initiator ssrc name) from' midi_port)
      ≡ served
          (with_new r s (joined r from s initiator ssrc name))
          (send_datagram control_port from (acceptance initiator (new_peer r from s).peer)
            ∷ status_signal s.max_peer_data_id control_connected
            ∷ send_datagram midi_port
                (record from { port = from.port + 1 })
                (acceptance initiator (new_peer r from s).peer)
            ∷ status_signal s.max_peer_data_id connected
            ∷ [])
          none
unfolding and_serve
invitations_join r r' from from' s initiator ssrc name b e hi hs hn h = rw (
  first_invitation r from s initiator ssrc name e hi hs hn h,
  second_invitation r r' from from' s initiator ssrc name b e hi hs hn h,
)

first_goodbye :
    (r : Chance) (from : Address) (s : Server) (sp : ServerPeer) (port : Port) (initiator : ℕ)
    → find_peer_by_ssrc sp.peer.remote_ssrc s ≡ some sp
    → sp.peer.status ≡ connected
    → IsU32 initiator
    → IsU32 sp.peer.remote_ssrc
    → serve r (by_bytes initiator sp.peer.remote_ssrc) from port s
      ≡ served (put_peer (half_left sp port initiator) s) [] none
unfolding serve find_peer_by_packet find_recipient deliver_to hear_all settle
first_goodbye r from s sp midi_port initiator e c hi hs =
    rw (recipient-by_bytes midi_port initiator sp.peer.remote_ssrc hs, e)
      (after_call-returned s sp _ _ _ (data_ready_by r.clock sp.peer midi_port initiator hi hs)
        ∙ rw c)
first_goodbye r from s sp control_port initiator e c hi hs =
    rw (recipient-by_bytes control_port initiator sp.peer.remote_ssrc hs, e)
      (after_call-returned s sp _ _ _ (data_ready_by r.clock sp.peer control_port initiator hi hs)
        ∙ rw c)

second_goodbye :
    (r : Chance) (from : Address) (s : Server) (sp : ServerPeer) (port : Port) (initiator : ℕ)
    → find_peer_by_ssrc sp.peer.remote_ssrc s ≡ some sp
    → sp.peer.status ≡ left_by port
    → IsU32 initiator
    → IsU32 sp.peer.remote_ssrc
    → serve r (by_bytes initiator sp.peer.remote_ssrc) from (other_port port) s
      ≡ served (remove_peer sp.id s) (status_signal sp.id disconnected_peer_disconnected ∷ []) none
unfolding serve find_peer_by_packet find_recipient deliver_to hear_all settle
second_goodbye r from s sp midi_port initiator e c hi hs =
    rw (recipient-by_bytes control_port initiator sp.peer.remote_ssrc hs, e)
      (after_call-returned s sp _ _ _ (data_ready_by r.clock sp.peer control_port initiator hi hs)
        ∙ rw c)
second_goodbye r from s sp control_port initiator e c hi hs =
    rw (recipient-by_bytes midi_port initiator sp.peer.remote_ssrc hs, e)
      (after_call-returned s sp _ _ _ (data_ready_by r.clock sp.peer midi_port initiator hi hs)
        ∙ rw c)

-- A connected peer of a valid server, in front of which no peer has its remote SSRC, and whose client
-- says goodbye with that SSRC on the two ports, in either order, is gone from the server: the peers in
-- front of it are as they were, and those behind it have moved forward. The server's listeners are
-- told once, and nothing is sent. The SSRC and the initiator id have 32 bits.
pub goodbyes_leave :
    (r r' : Chance) (from from' : Address) (s : Server) (before : List ServerPeer) (sp : ServerPeer)
    (after : List ServerPeer) (first : Port) (initiator : ℕ)
    → IsValid s
    → s.peers ≡ before ++ sp ∷ after
    → OtherSsrcs sp.peer.remote_ssrc before
    → sp.peer.status ≡ connected
    → IsU32 initiator
    → IsU32 sp.peer.remote_ssrc
    → and_serve
        (serve r (by_bytes initiator sp.peer.remote_ssrc) from first s)
        (serve r' (by_bytes initiator sp.peer.remote_ssrc) from' (other_port first))
      ≡ served
          (record s { peers = before ++ move_all after })
          (status_signal sp.id disconnected_peer_disconnected ∷ [])
          none
unfolding find_peer_by_ssrc put_peer remove_peer and_serve
goodbyes_leave r r' from from' s before sp after first initiator v p o c hi hs =
    let left = half_left sp first initiator in
    let test : ServerPeer → Bool = λ x. x.peer.remote_ssrc == sp.peer.remote_ssrc in
    let b : Between 1 (before ++ sp ∷ after) s.max_peer_data_id =
      subst (λ ps. Between 1 ps s.max_peer_data_id) p v in
    let found : find_peer test s.peers ≡ some sp =
      ap (find_peer test) p ∙ find_peer-first before sp after o in
    let again =
      find_peer-put_in test 1 s.max_peer_data_id s.peers sp left found v refl
        (==_refl sp.peer.remote_ssrc) in
    rw
      (
        first_goodbye r from s sp first initiator found c hi hs,
        second_goodbye r' from' (put_peer left s) left first initiator again refl hi hs,
      )
      (rw (
        remove_from-put_in s.peers left,
        p,
        remove_from-middle 1 s.max_peer_data_id before sp after b,
      ))

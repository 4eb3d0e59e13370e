-- ===== src/Server/Invariant.antt =====
-- lib/rtpserver.cpp: the ids of the peers, and the peers themselves, through every packet.
use rtpmidid.Common.{
  ℕ, ◌+◌, ◌≤◌, ◌≡◌, refl, ◌∙◌, List, [], ◌∷◌, ◌++◌, Bool, true, false, Bool-cases, inl, inr, Option,
  none, some, ◌==◌, ◌&&◌, ==→eq, arith, subst,
}
use rtpmidid.Errors.{Error, Result, ok, throw, fault, ◌>>=◌}
use rtpmidid.Bytes.{reader}
use rtpmidid.Peer.{Port, Clock, Signal, Outcome, done, thrown, undefined, out_of_fuel, create}
use rtpmidid.Peer.Receive.{is_command}
use rtpmidid.Peer.Invariant
use rtpmidid.Peer.Invariant.{Leaves, data_ready-IsValid}
use rtpmidid.Server.{
  Server, ServerPeer, Address, find_peer, find_recipient, Recipient, by_initiator, by_ssrc, nobody,
  move_all, moved, remove_from, remove_peer, put_in, put_peer, hear_all, find_peer_by_packet,
  recipient,
}
use rtpmidid.Server.Serving.{
  Served, served, unserved, starved, Chance, settle, after_call, after_create, grown, new_peer,
  create_peer_from, deliver_to, serve, is_invitation,
}
use rtpmidid.Server.Heard.{hear_all_same, hear_each_same}

-- Ids grow along the list, from `lo` on and below `hi`; and each peer is valid.
abbrev pub Between : ℕ → List ServerPeer → ℕ → Type 0
Between lo [] hi = lo ≤ hi
Between lo (sp ∷ sps) hi = (lo ≤ sp.id) × Invariant.IsValid sp.peer × Between (sp.id + 1) sps hi

-- The ids of the server's peers differ, and lie below the next id; each peer is valid.
abbrev pub IsValid : Server → Type 0
IsValid s = Between 1 s.peers s.max_peer_data_id

Between-lower :
    (lo lo' hi : ℕ) (sps : List ServerPeer) → lo' ≤ lo → Between lo sps hi → Between lo' sps hi
Between-lower lo lo' hi [] h b = omega arith
Between-lower lo lo' hi (sp ∷ sps) h b = (omega arith, b.1, b.2)

Between-move_all :
    (lo hi : ℕ) (sps : List ServerPeer) → Between lo sps hi → Between lo (move_all sps) hi
unfolding moved
Between-move_all lo hi [] b = b
Between-move_all lo hi (sp ∷ sps) b = (b.0, b.1, Between-move_all (sp.id + 1) hi sps b.2)

pub Between-grown :
    (g : Bool) (lo hi : ℕ) (sps : List ServerPeer) → Between lo sps hi → Between lo (grown g sps) hi
Between-grown true lo hi sps b = Between-move_all lo hi sps b
Between-grown false lo hi sps b = b

Between-remove_from :
    (id lo hi : ℕ) (sps : List ServerPeer) → Between lo sps hi → Between lo (remove_from id sps) hi
unfolding remove_from
Between-remove_from id lo hi [] b = b
Between-remove_from id lo hi (sp ∷ sps) b = elim (Bool-cases (sp.id == id)) [
  | inl hit ↦ rw hit (
      Between-lower (sp.id + 1) lo hi (move_all sps) (omega arith)
        (Between-move_all (sp.id + 1) hi sps b.2))
  | inr miss ↦ rw miss (b.0, b.1, Between-remove_from id (sp.id + 1) hi sps b.2)
]

Between-put_in :
    (new : ServerPeer) (lo hi : ℕ) (sps : List ServerPeer)
    → Invariant.IsValid new.peer
    → Between lo sps hi
    → Between lo (put_in new sps) hi
unfolding put_in
Between-put_in new lo hi [] v b = b
Between-put_in new lo hi (sp ∷ sps) v b = elim (Bool-cases (sp.id == new.id)) [
  | inl hit ↦
      let same : sp.id ≡ new.id = ==→eq sp.id new.id hit in
      rw hit (omega arith, v, subst (λ k. Between (k + 1) sps hi) same b.2)
  | inr miss ↦ rw miss (b.0, b.1, Between-put_in new (sp.id + 1) hi sps v b.2)
]

Between-add :
    (lo hi : ℕ) (sps : List ServerPeer) (new : ServerPeer)
    → Between lo sps hi
    → Invariant.IsValid new.peer
    → new.id ≡ hi
    → Between lo (sps ++ new ∷ []) (hi + 1)
Between-add lo hi [] new b v e = (omega arith, v, omega arith)
Between-add lo hi (sp ∷ sps) new b v e = (b.0, b.1, Between-add (sp.id + 1) hi sps new b.2 v e)

Between-wider : (lo hi : ℕ) (sps : List ServerPeer) → Between lo sps hi → Between lo sps (hi + 1)
Between-wider lo hi [] b = omega arith
Between-wider lo hi (sp ∷ sps) b = (b.0, b.1, Between-wider (sp.id + 1) hi sps b.2)

find_peer-IsValid :
    (test : ServerPeer → Bool) (lo hi : ℕ) (sps : List ServerPeer) (sp : ServerPeer)
    → find_peer test sps ≡ some sp
    → Between lo sps hi
    → Invariant.IsValid sp.peer
unfolding find_peer
find_peer-IsValid test lo hi [] sp e b = cc
find_peer-IsValid test lo hi (x ∷ xs) sp e b = elim (Bool-cases (test x)) [
  | inl hit ↦
      let found : some x ≡ some sp = rw hit at e in
      let same : x ≡ sp = cc in subst (λ (o : ServerPeer). Invariant.IsValid o.peer) same b.1
  | inr miss ↦ find_peer-IsValid test (x.id + 1) hi xs sp (rw miss at e) b.2
]

-- What a call of the server leaves: a valid server, or undefined behaviour; fuel never runs out.
abbrev pub Keeps : Served → Type 0
Keeps (served s actions e) = IsValid s
Keeps unserved = Unit
Keeps starved = ⊥

settle-IsValid :
    (s : Server) (signals : List Signal) (sp : ServerPeer) (e : Option Error)
    → IsValid s
    → Invariant.IsValid sp.peer
    → Keeps (settle s (hear_all signals sp) e)
unfolding settle put_peer remove_peer
settle-IsValid s signals sp e b v = elim (Bool-cases (hear_all signals sp).2) [
  | inl gone ↦
      rw gone (Between-remove_from (hear_all signals sp).0.id 1 s.max_peer_data_id s.peers b)
  | inr stays ↦ rw stays (
      Between-put_in (hear_all signals sp).0 1 s.max_peer_data_id s.peers
        (rw (hear_all_same signals sp).1 v) b)
]

pub after_call-IsValid :
    (s : Server) (sp : ServerPeer) (o : Outcome (Unit {0}))
    → IsValid s
    → Leaves Invariant.IsValid o
    → Keeps (after_call s sp o)
unfolding after_call
after_call-IsValid s sp (done a w) b v =
    settle-IsValid s w.events (record sp { peer = w.peer }) none b v
after_call-IsValid s sp (thrown e w) b v =
    settle-IsValid s w.events (record sp { peer = w.peer }) (some e) b v
after_call-IsValid s sp undefined b v = tt
after_call-IsValid s sp out_of_fuel b v = v

after_create-IsValid :
    (r : Chance) (s : Server) (sp : ServerPeer) (o : Outcome (Unit {0}))
    → IsValid s
    → sp.id ≡ s.max_peer_data_id
    → Leaves Invariant.IsValid o
    → Keeps (after_create r s sp o)
unfolding after_create
after_create-IsValid r s sp (done a w) b i v =
    let same = hear_each_same w.events (record sp { peer = w.peer }) in
    Between-add 1 s.max_peer_data_id (grown r.grows s.peers) _
      (Between-grown r.grows 1 s.max_peer_data_id s.peers b) (rw same.1 v) (same.0 ∙ i)
after_create-IsValid r s sp (thrown e w) b i v = Between-wider 1 s.max_peer_data_id s.peers b
after_create-IsValid r s sp undefined b i v = tt
after_create-IsValid r s sp out_of_fuel b i v = v

create-IsValid : (name : List ℕ) (a b : ℕ) (c : Clock) → Invariant.IsValid (create name a b c)
unfolding create
create-IsValid name a b c = ground arith

find_recipient-IsValid :
    (r : Recipient) (s : Server) (sp : ServerPeer)
    → find_recipient r s ≡ some sp
    → IsValid s
    → Invariant.IsValid sp.peer
unfolding find_recipient
find_recipient-IsValid (by_initiator i) s sp e b =
    find_peer-IsValid (λ x. x.peer.initiator_id == i) 1 s.max_peer_data_id s.peers sp e b
find_recipient-IsValid (by_ssrc i) s sp e b =
    find_peer-IsValid (λ x. x.peer.remote_ssrc == i) 1 s.max_peer_data_id s.peers sp e b
find_recipient-IsValid nobody s sp e b = cc

found-IsValid :
    (r : Chance) (packet : List ℕ) (from : Address) (port : Port) (s : Server)
    (o : Option ServerPeer)
    → IsValid s
    → ((sp : ServerPeer) → o ≡ some sp → Invariant.IsValid sp.peer)
    → Keeps (deliver_to r packet from port s (ok o))
unfolding deliver_to create_peer_from
found-IsValid r packet from port s (some sp) b v =
    after_call-IsValid s sp _ b (data_ready-IsValid r.clock port sp.peer packet (v sp refl))
found-IsValid r packet from port s none b v =
    elim (Bool-cases (is_command (reader packet) && is_invitation packet)) [
      | inl new ↦ rw new (
          after_create-IsValid r s (new_peer r from s) _ b refl (
            data_ready-IsValid r.clock port _ packet
              (create-IsValid s.name r.random_ssrc r.random_seq r.clock)))
      | inr other ↦ rw other b
    ]

routed-IsValid :
    (r : Chance) (packet : List ℕ) (from : Address) (port : Port) (s : Server)
    (to : Result Recipient)
    → IsValid s
    → Keeps (deliver_to r packet from port s (to >>= λ x. ok (find_recipient x s)))
routed-IsValid r packet from port s (ok x) b =
    found-IsValid r packet from port s (find_recipient x s) b
      (λ sp e. find_recipient-IsValid x s sp e b)
routed-IsValid r packet from port s (throw e) b = unfold deliver_to in b
routed-IsValid r packet from port s fault b = unfold deliver_to in tt

-- Whatever a datagram's bytes are and whoever it comes from, the server's handling of it has fuel
-- enough, and leaves a valid server valid, where it returns and where it throws: the ids of its peers
-- differ and lie below the next one, and each peer is valid.
pub serve-IsValid :
    (r : Chance) (packet : List ℕ) (from : Address) (port : Port) (s : Server)
    → IsValid s
    → Keeps (serve r packet from port s)
unfolding serve find_peer_by_packet
serve-IsValid r packet from port s b = routed-IsValid r packet from port s (recipient port packet) b

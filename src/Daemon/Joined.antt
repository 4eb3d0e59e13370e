-- ===== src/Daemon/Joined.antt =====
-- src/network_rtpmidi_multi_listener.cpp and src/factory.cpp: two peers that are made together, and
-- what each of them sends from then on.
use rtpmidid.Common.{
  ℕ, ◌+◌, ◌%◌, ◌^◌, ◌<◌, ◌≡◌, ap, ◌∙◌, List, [], ◌∷◌, ◌++◌, All, false, ◌==◌, ==_refl, arith, some,
}
use native.Mathlib.Nat.{mod-eq_of_lt}
use rtpmidid.Router.{
  Router, Connection, midi_call, find, change, keys, add_peer, connect, send_midi,
  get_peerdata_by_id,
}
use rtpmidid.Router.Connections.{Without, send_midi_calls}
use rtpmidid.Router.Keys.{Distinct, erase_absent}
use rtpmidid.Daemon.{Daemon, Kind, fresh_peer, make_peer, connect_both, make_pair}

-- The ids in a router's map, and in its links, are smaller than the next one, which is not 0 and is
-- not about to wrap.
abbrev pub Below : ℕ → Connection → Type 0
Below n c = (c.id < n) × All (λ to. to < n) c.send_to

pub record IsFresh (r : Router) : Type 0 where
  pub positive : 0 < r.max_id
  pub room : r.max_id + 2 < 2 ^ 32
  pub below : All (Below r.max_id) r.peers
  pub distinct : Distinct (keys r.peers)

pub Below-Without :
    (n k : ℕ) (cs : List Connection) → n < k + 1 → All (Below n) cs → Without k (keys cs)
Below-Without n k [] h b = tt
Below-Without n k (c ∷ cs) h b = (ground (arith, b.0.0), Below-Without n k cs h b.1)

-- The connection of a peer that has just been added.
abbrev pub made : ℕ → List ℕ → Connection
made k send_to = record {
  id = k;
  peer = record { peer_id = k; packets_sent = 0; packets_recv = 0 };
  send_to = send_to;
}

pub add_peer_fresh :
    (r : Router)
    → r.max_id + 1 < 2 ^ 32
    → Without r.max_id (keys r.peers)
    → add_peer fresh_peer r
      ≡ (r.max_id, record { max_id = r.max_id + 1; peers = made r.max_id [] ∷ r.peers })
unfolding add_peer
add_peer_fresh r h w = rw (erase_absent r.max_id r.peers w, mod-eq_of_lt h)

pub next_other : (n : ℕ) → ((n + 1) == n) ≡ false
next_other n = ground arith

-- A router with two new peers in front of those that it had.
abbrev pub with_pair : ℕ → List ℕ → List ℕ → List Connection → Router
with_pair n to_first to_second cs = record {
  max_id = n + 1 + 1;
  peers = made (n + 1) to_first ∷ made n to_second ∷ cs;
}

module _ (n : ℕ) (xs ys : List ℕ) (cs : List Connection) where
  pub find_first : find n (with_pair n xs ys cs).peers ≡ some (made n ys)
  unfolding find
  find_first = rw (next_other n, ==_refl n)

  pub find_second : find (n + 1) (with_pair n xs ys cs).peers ≡ some (made (n + 1) xs)
  unfolding find
  find_second = rw (==_refl (n + 1))

  connect_first :
      (connect n (n + 1) (with_pair n xs ys cs)).0 ≡ with_pair n xs (ys ++ (n + 1) ∷ []) cs
  unfolding connect change
  connect_first = rw (find_first, find_second, connect, next_other n, ==_refl n)

  connect_second : (connect (n + 1) n (with_pair n xs ys cs)).0 ≡ with_pair n (xs ++ n ∷ []) ys cs
  unfolding connect change
  connect_second = rw (find_second, find_first, connect, ==_refl (n + 1))

connect_both_joined :
    (n : ℕ) (cs : List Connection)
    → (connect_both n (n + 1) (with_pair n [] [] cs)).0 ≡ with_pair n (n ∷ []) ((n + 1) ∷ []) cs
unfolding connect_both
connect_both_joined n cs =
    ap (λ r. (connect (n + 1) n r).0) (connect_first n [] [] cs)
    ∙ connect_second n [] ((n + 1) ∷ []) cs

make_both :
    (first second : Kind) (d : Daemon)
    → IsFresh d.router
    → (make_peer second (make_peer first d).1).1.router
      ≡ with_pair d.router.max_id [] [] d.router.peers
unfolding make_peer
make_both first second d v =
    let n = d.router.max_id in
    let cs = d.router.peers in
    let one : Router = record { max_id = n + 1; peers = made n [] ∷ cs } in
    let absent : Without (n + 1) (keys (made n [] ∷ cs)) =
      (ground arith, Below-Without n (n + 1) cs (omega arith) v.below) in
    ap (λ r. (add_peer fresh_peer r).1)
      (ap (λ x. x.1)
        (add_peer_fresh d.router (omega (arith, v.room))
          (Below-Without n n cs (omega arith) v.below)))
    ∙ ap (λ x. x.1) (add_peer_fresh one (omega (arith, v.room)) absent)

-- What the two send.
send_pair :
    (n : ℕ) (cs : List Connection) (midi : List ℕ)
    → let r = with_pair n (n ∷ []) ((n + 1) ∷ []) cs in
      ((send_midi n midi r).1 ≡ midi_call (n + 1) n midi ∷ [])
      × ((send_midi (n + 1) midi r).1 ≡ midi_call n (n + 1) midi ∷ [])
unfolding get_peerdata_by_id
send_pair n cs midi =
    let r = with_pair n (n ∷ []) ((n + 1) ∷ []) cs in
    let first = find_first n (n ∷ []) ((n + 1) ∷ []) cs in
    let second = find_second n (n ∷ []) ((n + 1) ∷ []) cs in
    (
      send_midi_calls n midi r ∙ rw (first, second),
      send_midi_calls (n + 1) midi r ∙ rw (second, first),
    )

-- Two peers that are made together get the next two ids. What each of them sends goes to the other and
-- to no one else, and every peer that was there before stays as it was. The router must have room for
-- two more ids, and its ids must be different and smaller than the next one.
pub make_pair_joins :
    (first second : Kind) (d : Daemon) (midi : List ℕ)
    → IsFresh d.router
    → let (ids, d', calls) = make_pair first second d in
      let n = d.router.max_id in
      (ids ≡ (n, n + 1))
      × (d'.router ≡ with_pair n (n ∷ []) ((n + 1) ∷ []) d.router.peers)
      × ((send_midi n midi d'.router).1 ≡ midi_call (n + 1) n midi ∷ [])
      × ((send_midi (n + 1) midi d'.router).1 ≡ midi_call n (n + 1) midi ∷ [])
unfolding make_pair make_peer
make_pair_joins first second d midi v =
    let n = d.router.max_id in
    let next : (n + 1) % 2 ^ 32 ≡ n + 1 = mod-eq_of_lt (omega (arith, v.room)) in
    let both = (make_peer second (make_peer first d).1).1.router in
    let joined : (make_pair first second d).1.router
        ≡ with_pair n (n ∷ []) ((n + 1) ∷ []) d.router.peers =
      ap (λ k. (connect_both n k both).0) next
      ∙ ap (λ r. (connect_both n (n + 1) r).0) (make_both first second d v)
      ∙ connect_both_joined n d.router.peers in
    let sent = send_pair n d.router.peers midi in
    (
      ap (λ k. (n, k)) next,
      joined,
      ap (λ r. (send_midi n midi r).1) joined ∙ sent.0,
      ap (λ r. (send_midi (n + 1) midi r).1) joined ∙ sent.1,
    )

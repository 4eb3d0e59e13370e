-- ===== src/Daemon/Parted.antt =====
-- src/network_rtpmidi_peer.cpp: the end of a connection that a server's listener made.
use rtpmidid.Common.{
  ℕ, ◌+◌, ◌<◌, ◌≡◌, ◌≢◌, refl, sym, ap, ◌∙◌, List, [], ◌∷◌, ◌++◌, length, All, true, false,
  Bool-cases, inl, inr, ◌==◌, ==→eq, arith, some,
}
use mathlib.Core.Option
use rtpmidid.Router.{
  Router, Connection, Call, find, keys, is_known, remove_peer, get_peerdata_by_id, send_to_of,
}
use rtpmidid.Router.Connections.{Without, remove_all_same, unlink}
use rtpmidid.Router.Removal.{remove_peer_unlinks}
use rtpmidid.Router.Keys.{Distinct, remove_peer-Distinct, remove_peer_unknown, find_absent}
use rtpmidid.Daemon.{remove_connected, and_removed, close_connection}
use rtpmidid.Daemon.Joined.{Below, Below-Without, with_pair, find_first, find_second}

-- The peers of a router that has room have no link to the next ids.
no_link :
    (n k : ℕ) (cs : List Connection) (j : ℕ)
    → n < k + 1
    → All (Below n) cs
    → Option.map (unlink k) (find j cs) ≡ find j cs
unfolding find
no_link n k [] j h b = refl
no_link n k (c ∷ cs) j h b = elim (Bool-cases (c.id == j)) [
  | inl y ↦ rw (y, remove_all_same k c.send_to (above n k c.send_to h b.0.1))
  | inr y ↦ rw (y, no_link n k cs j h b.1)
]
  where
    above : (n k : ℕ) (xs : List ℕ) → n < k + 1 → All (λ to. to < n) xs → Without k xs
    above n k [] h b = tt
    above n k (x ∷ xs) h b = (ground (arith, b.0), above n k xs h b.1)

module _ (n : ℕ) (cs : List Connection) where
  abbrev pair : Router
  pair = with_pair n (n ∷ []) ((n + 1) ∷ []) cs

  first_known : is_known pair n ≡ true
  first_known = rw (find_first n (n ∷ []) ((n + 1) ∷ []) cs)

  pair-Distinct : All (Below n) cs → Distinct (keys cs) → Distinct (keys pair.peers)
  pair-Distinct b d = (
    (ground arith, Below-Without n (n + 1) cs (omega arith) b),
    (Below-Without n n cs (omega arith) b, d),
  )

  close_pair :
      close_connection (n + 1) pair
      ≡ some (
        (remove_peer (n + 1) (remove_peer n pair).0).0,
        ((remove_peer n pair).1 ++ []) ++ (remove_peer (n + 1) (remove_peer n pair).0).1,
      )
  unfolding close_connection remove_connected send_to_of
  close_pair =
      ap
        (λ links.
          and_removed (n + 1)
            (remove_connected (length links) 0 (n + 1) (links, length links) pair))
        links
      ∙ ap (and_removed (n + 1)) round
    where
      links : send_to_of (n + 1) pair ≡ n ∷ []
      links = rw (find_second n (n ∷ []) ((n + 1) ∷ []) cs, send_to_of)

      apart : (n == (n + 1)) ≡ false
      apart = ground arith

      round :
          remove_connected 1 0 (n + 1) (n ∷ [], 1) pair
          ≡ some ((remove_peer n pair).0, (remove_peer n pair).1 ++ [])
      round = rw (first_known, apart)

  abbrev without_first : Router
  without_first = (remove_peer n pair).0

  abbrev without_both : Router
  without_both = (remove_peer (n + 1) without_first).0

  second_known : is_known without_first (n + 1) ≡ true
  unfolding get_peerdata_by_id
  second_known = rw (
    remove_peer_unlinks n (n + 1) pair first_known (λ e. omega arith),
    find_second n (n ∷ []) ((n + 1) ∷ []) cs,
  )

  find_old : (k : ℕ) → n ≢ k → n + 1 ≢ k → find k pair.peers ≡ find k cs
  unfolding find
  find_old k a b = ground (arith, a, b)

  parted :
      (k : ℕ)
      → All (Below n) cs
      → Distinct (keys cs)
      → get_peerdata_by_id without_both k ≡ find k cs
  unfolding get_peerdata_by_id
  parted k b d =
      let pd = pair-Distinct b d in
      elim (Bool-cases (n + 1 == k)) [
        | inl y ↦
            let e = ==→eq (n + 1) k y in
            rw (← e) (
              remove_peer_unknown (n + 1) without_first (remove_peer-Distinct n pair pd)
              ∙ sym (find_absent (n + 1) cs (Below-Without n (n + 1) cs (omega arith) b)))
        | inr y ↦
            let other : n + 1 ≢ k = ground arith in
            let last = remove_peer_unlinks (n + 1) k without_first second_known other in
            elim (Bool-cases (n == k)) [
              | inl z ↦
                  let e = ==→eq n k z in
                  last
                  ∙ ap (λ j. Option.map (unlink (n + 1)) (find j without_first.peers)) (sym e)
                  ∙ ap (Option.map (unlink (n + 1))) (remove_peer_unknown n pair pd)
                  ∙ sym (find_absent n cs (Below-Without n n cs (omega arith) b))
                  ∙ ap (λ j. find j cs) e
              | inr z ↦
                  let apart : n ≢ k = ground arith in
                  last
                  ∙ ap (Option.map (unlink (n + 1))) (
                      remove_peer_unlinks n k pair first_known apart
                      ∙ ap (Option.map (unlink n)) (find_old k apart other)
                      ∙ no_link n n cs k (omega arith) b)
                  ∙ no_link n (n + 1) cs k (omega arith) b
            ]
      ]

-- When a connection that a server's listener made has come to its end, both of its peers are taken
-- away: the router is left with the peers that it had before the connection was made, each with the
-- links that it had, and it knows neither of the two. The ids that were there must be different and
-- smaller than those of the two.
pub close_connection_parts :
    (n : ℕ) (cs : List Connection)
    → All (Below n) cs
    → Distinct (keys cs)
    → (r : Router) × (calls : List Call) × (close_connection
          (n + 1)
          (with_pair n (n ∷ []) ((n + 1) ∷ []) cs)
        ≡ some (r, calls))
      × ((k : ℕ) → get_peerdata_by_id r k ≡ find k cs)
close_connection_parts n cs b d =
    let first = remove_peer n (pair n cs) in
    let both = remove_peer (n + 1) first.0 in
    (both.0, (first.1 ++ []) ++ both.1, close_pair n cs, λ k. parted n cs k b d)

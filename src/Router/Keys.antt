-- ===== src/Router/Keys.antt =====
-- src/midirouter.cpp: the ids in the map, each of which stands there once, and a peer that is removed.
use rtpmidid.Common.{
  ℕ, ◌≡◌, refl, ◌∙◌, List, [], ◌∷◌, Bool-cases, inl, inr, ◌==◌, ==→eq, none, Option-cases,
}
use rtpmidid.Router.{
  Router, Connection, find, change, erase, keys, disconnect, send_to_of, remove_links,
  remove_all_links, remove_peer, get_peerdata_by_id,
}
use rtpmidid.Router.Connections.{Without}

-- No id stands twice in the map.
abbrev pub Distinct : List ℕ → Type 0
Distinct [] = Unit
Distinct (k ∷ ks) = Without k ks × Distinct ks

pub keys-change :
    (k : ℕ) (f : Connection → Connection) (cs : List Connection)
    → ((c : Connection) → (f c).id ≡ c.id)
    → keys (change k f cs) ≡ keys cs
unfolding change
keys-change k f [] h = refl
keys-change k f (c ∷ cs) h = elim (Bool-cases (c.id == k)) [
  | inl y ↦ rw (y, h c)
  | inr y ↦ rw (y, keys-change k f cs h)
]

keys-disconnect : (from to : ℕ) (r : Router) → keys (disconnect from to r).0.peers ≡ keys r.peers
unfolding disconnect
keys-disconnect from to r = elim (Option-cases (find from r.peers)) [
  | inl e ↦ rw (e, disconnect)
  | inr (p, e) ↦ elim (Option-cases (find to r.peers)) [
    | inl n ↦ rw (e, n, disconnect)
    | inr (q, n) ↦ rw (e, n, disconnect) (keys-change from _ r.peers (λ c. refl))
  ]
]

keys-remove_links :
    (p key : ℕ) (others : List ℕ) (r : Router)
    → keys (remove_links p key others r).0.peers ≡ keys r.peers
unfolding remove_links
keys-remove_links p key [] r = refl
keys-remove_links p key (to ∷ others) r = elim (Bool-cases (to == p)) [
  | inl y ↦
      let s = (disconnect key p r).0 in
      rw y (
        keys-remove_links p key others (disconnect p key s).0
        ∙ keys-disconnect p key s
        ∙ keys-disconnect key p r)
  | inr y ↦ rw y (keys-remove_links p key others (disconnect p key r).0 ∙ keys-disconnect p key r)
]

keys-remove_all_links :
    (p : ℕ) (ks : List ℕ) (r : Router) → keys (remove_all_links p ks r).0.peers ≡ keys r.peers
unfolding remove_all_links
keys-remove_all_links p [] r = refl
keys-remove_all_links p (key ∷ ks) r =
    keys-remove_all_links p ks (remove_links p key (send_to_of key r) r).0
    ∙ keys-remove_links p key (send_to_of key r) r

pub find_absent : (p : ℕ) (cs : List Connection) → Without p (keys cs) → find p cs ≡ none
unfolding find
find_absent p [] h = refl
find_absent p (c ∷ cs) h = rw (h.0, find_absent p cs h.1)

Without-sym : (p k : ℕ) (ks : List ℕ) → p ≡ k → Without k ks → Without p ks
Without-sym p k ks e h = rw e h

find-erase_self : (p : ℕ) (cs : List Connection) → Distinct (keys cs) → find p (erase p cs) ≡ none
unfolding find erase
find-erase_self p [] d = refl
find-erase_self p (c ∷ cs) d = elim (Bool-cases (c.id == p)) [
  | inl y ↦ rw y (find_absent p cs (rw (==→eq c.id p y) at d.0))
  | inr y ↦ rw (y, y) (find-erase_self p cs d.1)
]

Without-erase :
    (k p : ℕ) (cs : List Connection) → Without k (keys cs) → Without k (keys (erase p cs))
unfolding erase
Without-erase k p [] h = tt
Without-erase k p (c ∷ cs) h = elim (Bool-cases (c.id == p)) [
  | inl y ↦ rw y h.1
  | inr y ↦ rw y (h.0, Without-erase k p cs h.1)
]

Distinct-erase : (p : ℕ) (cs : List Connection) → Distinct (keys cs) → Distinct (keys (erase p cs))
unfolding erase
Distinct-erase p [] d = tt
Distinct-erase p (c ∷ cs) d = elim (Bool-cases (c.id == p)) [
  | inl y ↦ rw y d.1
  | inr y ↦ rw y (Without-erase c.id p cs d.0, Distinct-erase p cs d.1)
]

pub erase_absent : (p : ℕ) (cs : List Connection) → Without p (keys cs) → erase p cs ≡ cs
unfolding erase
erase_absent p [] h = refl
erase_absent p (c ∷ cs) h = rw (h.0, erase_absent p cs h.1)

pub remove_peer-Distinct :
    (p : ℕ) (r : Router) → Distinct (keys r.peers) → Distinct (keys (remove_peer p r).0.peers)
unfolding remove_peer
remove_peer-Distinct p r d = Distinct-erase p _ (rw (keys-remove_all_links p (keys r.peers) r) d)

-- A peer that is removed is unknown from then on, where no id stands twice in the map.
pub remove_peer_unknown :
    (p : ℕ) (r : Router) → Distinct (keys r.peers) → get_peerdata_by_id (remove_peer p r).0 p ≡ none
unfolding get_peerdata_by_id remove_peer
remove_peer_unknown p r d = find-erase_self p _ (rw (keys-remove_all_links p (keys r.peers) r) d)

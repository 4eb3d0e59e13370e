-- ===== src/Server/Routing.antt =====
-- lib/rtpserver.cpp: who a packet is for.
use rtpmidid.Common.{
  ℕ, ◌+◌, ◌≤◌, ◌≡◌, ◌≢◌, All, refl, ap, List, [], ◌∷◌, ◌++◌, Bool, true, false, Bool-cases, inl,
  inr, none, some, ◌==◌, ==_refl, arith,
}
use rtpmidid.Common.Words.{IsU32, from_u32_lem}
use rtpmidid.Errors.{ok}
use rtpmidid.Peer.{Port}
use rtpmidid.Peer.Handshake.{session_bytes}
use rtpmidid.Peer.Goodbye.{by_bytes}
use rtpmidid.Server.{
  ServerPeer, find_peer, recipient, by_initiator, by_ssrc, moved, move_all, put_in, remove_from,
}
use rtpmidid.Server.Serving.{grown}
use rtpmidid.Server.Invariant.{Between}

pub recipient-session_bytes :
    (port : Port) (initiator ssrc : ℕ) (name : List ℕ)
    → IsU32 initiator
    → recipient port (session_bytes 0x49 0x4e initiator ssrc name) ≡ ok (by_initiator initiator)
unfolding recipient
recipient-session_bytes port initiator ssrc name h = rw (from_u32_lem initiator h)

pub recipient-by_bytes :
    (port : Port) (initiator ssrc : ℕ)
    → IsU32 ssrc
    → recipient port (by_bytes initiator ssrc) ≡ ok (by_ssrc ssrc)
unfolding recipient
recipient-by_bytes port initiator ssrc h = rw (from_u32_lem ssrc h)

-- A search that looks at the peers alone does not notice that some have moved.
pub find_peer_by_initiator-grown :
    (i : ℕ) (g : Bool) (sps : List ServerPeer)
    → find_peer (λ sp. sp.peer.initiator_id == i) sps ≡ none
    → find_peer (λ sp. sp.peer.initiator_id == i) (grown g sps) ≡ none
unfolding find_peer moved
find_peer_by_initiator-grown i false sps e = e
find_peer_by_initiator-grown i true [] e = e
find_peer_by_initiator-grown i true (sp ∷ sps) e = elim (Bool-cases (sp.peer.initiator_id == i)) [
  | inl hit ↦ let found : some sp ≡ none = rw hit at e in cc
  | inr miss ↦ rw miss (find_peer_by_initiator-grown i true sps (rw miss at e))
]

pub find_peer-last :
    (test : ServerPeer → Bool) (sps : List ServerPeer) (sp : ServerPeer)
    → find_peer test sps ≡ none
    → test sp ≡ true
    → find_peer test (sps ++ sp ∷ []) ≡ some sp
unfolding find_peer
find_peer-last test [] sp e h = rw h
find_peer-last test (x ∷ xs) sp e h = elim (Bool-cases (test x)) [
  | inl hit ↦ let found : some x ≡ none = rw hit at e in cc
  | inr miss ↦ rw miss (find_peer-last test xs sp (rw miss at e) h)
]

-- The change of the last peer, whose id is not below the others'.
pub put_in-last :
    (lo hi : ℕ) (sps : List ServerPeer) (old new : ServerPeer)
    → Between lo sps hi
    → old.id ≡ hi
    → new.id ≡ hi
    → put_in new (sps ++ old ∷ []) ≡ sps ++ new ∷ []
unfolding put_in
put_in-last lo hi [] old new b e f = let same : (old.id == new.id) ≡ true = ground arith in rw same
put_in-last lo hi (sp ∷ sps) old new b e f =
    let differ : (sp.id == new.id) ≡ false = ground (arith, below (sp.id + 1) hi sps b.2) in
    rw differ (ap (◌∷◌ sp) (put_in-last (sp.id + 1) hi sps old new b.2 e f))
  where
    below : (lo hi : ℕ) (sps : List ServerPeer) → Between lo sps hi → lo ≤ hi
    below lo hi [] b = b
    below lo hi (sp ∷ sps) b = omega (arith, below (sp.id + 1) hi sps b.2)

-- A peer that is found lies above the lower bound of the ids.
found-above :
    (test : ServerPeer → Bool) (lo hi : ℕ) (sps : List ServerPeer) (sp : ServerPeer)
    → find_peer test sps ≡ some sp
    → Between lo sps hi
    → lo ≤ sp.id
unfolding find_peer
found-above test lo hi [] sp e b = cc
found-above test lo hi (x ∷ xs) sp e b = elim (Bool-cases (test x)) [
  | inl hit ↦
      let found : some x ≡ some sp = rw hit at e in let same : x.id ≡ sp.id = cc in omega arith
  | inr miss ↦ omega (arith, found-above test (x.id + 1) hi xs sp (rw miss at e) b.2)
]

-- A peer that was found, and is changed so that the search still fits it, is found again.
pub find_peer-put_in :
    (test : ServerPeer → Bool) (lo hi : ℕ) (sps : List ServerPeer) (sp new : ServerPeer)
    → find_peer test sps ≡ some sp
    → Between lo sps hi
    → new.id ≡ sp.id
    → test new ≡ true
    → find_peer test (put_in new sps) ≡ some new
unfolding find_peer put_in
find_peer-put_in test lo hi [] sp new e b i t = cc
find_peer-put_in test lo hi (x ∷ xs) sp new e b i t = elim (Bool-cases (test x)) [
  | inl hit ↦
      let found : some x ≡ some sp = rw hit at e in
      let same : x.id ≡ sp.id = cc in
      let here : (x.id == new.id) ≡ true = ground arith in rw (here, t)
  | inr miss ↦
      let later : find_peer test xs ≡ some sp = rw miss at e in
      let past : (x.id == new.id) ≡ false =
        ground (arith, found-above test (x.id + 1) hi xs sp later b.2) in
      rw (past, miss) (find_peer-put_in test (x.id + 1) hi xs sp new later b.2 i t)
]

-- A change to a peer that goes is lost with it.
pub remove_from-put_in :
    (sps : List ServerPeer) (new : ServerPeer)
    → remove_from new.id (put_in new sps) ≡ remove_from new.id sps
unfolding remove_from put_in
remove_from-put_in [] new = refl
remove_from-put_in (x ∷ xs) new = elim (Bool-cases (x.id == new.id)) [
  | inl hit ↦ rw (hit, ==_refl new.id)
  | inr miss ↦ rw (miss, miss) (ap (◌∷◌ x) (remove_from-put_in xs new))
]

-- None of some peers has the SSRC.
abbrev pub OtherSsrcs : ℕ → List ServerPeer → Type 0
OtherSsrcs ssrc = All (λ sp. sp.peer.remote_ssrc ≢ ssrc)

pub find_peer-first :
    (before : List ServerPeer) (sp : ServerPeer) (after : List ServerPeer)
    → OtherSsrcs sp.peer.remote_ssrc before
    → find_peer (λ x. x.peer.remote_ssrc == sp.peer.remote_ssrc) (before ++ sp ∷ after) ≡ some sp
unfolding find_peer
find_peer-first [] sp after o = rw (==_refl sp.peer.remote_ssrc)
find_peer-first (x ∷ xs) sp after o =
    let other : x.peer.remote_ssrc ≢ sp.peer.remote_ssrc = o.0 in
    let miss : (x.peer.remote_ssrc == sp.peer.remote_ssrc) ≡ false = ground arith in
    rw miss (find_peer-first xs sp after o.1)

middle-above :
    (lo hi : ℕ) (before : List ServerPeer) (sp : ServerPeer) (after : List ServerPeer)
    → Between lo (before ++ sp ∷ after) hi
    → lo ≤ sp.id
middle-above lo hi [] sp after b = b.0
middle-above lo hi (x ∷ xs) sp after b =
    omega (arith, b.0, middle-above (x.id + 1) hi xs sp after b.2)

-- A change, and a removal, of a peer whose id is its own.
pub put_in-middle :
    (lo hi : ℕ) (before : List ServerPeer) (sp new : ServerPeer) (after : List ServerPeer)
    → Between lo (before ++ sp ∷ after) hi
    → new.id ≡ sp.id
    → put_in new (before ++ sp ∷ after) ≡ before ++ new ∷ after
unfolding put_in
put_in-middle lo hi [] sp new after b i =
    let here : (sp.id == new.id) ≡ true = ground arith in rw here
put_in-middle lo hi (x ∷ xs) sp new after b i =
    let past : (x.id == new.id) ≡ false =
      ground (arith, middle-above (x.id + 1) hi xs sp after b.2) in
    rw past (ap (◌∷◌ x) (put_in-middle (x.id + 1) hi xs sp new after b.2 i))

pub remove_from-middle :
    (lo hi : ℕ) (before : List ServerPeer) (sp : ServerPeer) (after : List ServerPeer)
    → Between lo (before ++ sp ∷ after) hi
    → remove_from sp.id (before ++ sp ∷ after) ≡ before ++ move_all after
unfolding remove_from
remove_from-middle lo hi [] sp after b = rw (==_refl sp.id)
remove_from-middle lo hi (x ∷ xs) sp after b =
    let past : (x.id == sp.id) ≡ false =
      ground (arith, middle-above (x.id + 1) hi xs sp after b.2) in
    rw past (ap (◌∷◌ x) (remove_from-middle (x.id + 1) hi xs sp after b.2))

-- ===== src/Router/Removal.antt =====
-- src/midirouter.cpp: what is left of a peer that was removed.
use rtpmidid.Common.{
  ℕ, ◌≡◌, ◌≢◌, subst, refl, ap, sym, ◌∙◌, List, [], ◌∷◌, All, Bool, true, false, Bool-cases, inl,
  inr, ◌⊎◌, ◌==◌, ==_refl, ==→eq, arith, Option, none, some, Option-cases, if◌then◌else◌, ◌&&◌,
}
use mathlib.Core.Option
use rtpmidid.Router.{
  Router, Connection, find, erase, keys, is_known, disconnect, remove_links, remove_all_links,
  remove_peer, get_peerdata_by_id, send_to_of, is_some_connection,
}
use rtpmidid.Router.Connections.{
  Without, remove_all-Without, remove_all_same, unlink, disconnect_links,
}

abbrev CleanAt : ℕ → Option Connection → Type 0
CleanAt p none = Unit
CleanAt p (some c) = Without p c.send_to

unlinked : ℕ → Option Connection → Option Connection
unlinked p o = Option.map (unlink p) o

unlinked-CleanAt : (p : ℕ) (o : Option Connection) → CleanAt p (unlinked p o)
unfolding unlinked
unlinked-CleanAt p none = tt
unlinked-CleanAt p (some c) = remove_all-Without p c.send_to

unlinked_same : (p : ℕ) (o : Option Connection) → CleanAt p o → unlinked p o ≡ o
unfolding unlinked
unlinked_same p none h = refl
unlinked_same p (some c) h = rw (remove_all_same p c.send_to h)

unlinked_again : (p : ℕ) (o : Option Connection) → unlinked p (unlinked p o) ≡ unlinked p o
unlinked_again p o = unlinked_same p (unlinked p o) (unlinked-CleanAt p o)

if_last {ℓ} : {A : Type ℓ} (a b c : Bool) (x y : A) → c ≡ false → (if a && b && c then x else y) ≡ y
if_last true true c x y h = rw h
if_last true false c x y h = refl
if_last false b c x y h = refl

-- One `disconnect` from the peer that goes changes no other one.
disconnect_other :
    (p key k : ℕ) (r : Router)
    → (p == k) ≡ false
    → find k (disconnect p key r).0.peers ≡ find k r.peers
unfolding get_peerdata_by_id
disconnect_other p key k r h =
    disconnect_links p key k r ∙ if_last (is_known r p) (is_known r key) (p == k) _ _ h

unlinked_if :
    (p : ℕ) (a : Bool) (o : Option Connection)
    → unlinked p (if a then unlinked p o else o) ≡ unlinked p o
unlinked_if p true o = unlinked_again p o
unlinked_if p false o = refl

-- One `disconnect` to it, from a peer that is known or not, unlinks it at most.
disconnect_unlinks :
    (p key k : ℕ) (r : Router)
    → unlinked p (find k (disconnect key p r).0.peers) ≡ unlinked p (find k r.peers)
unfolding get_peerdata_by_id unlinked
disconnect_unlinks p key k r =
    ap (unlinked p) (disconnect_links key p k r) ∙ unlinked_if p _ (find k r.peers)

disconnect_cleans :
    (p key : ℕ) (r : Router)
    → is_known r p ≡ true
    → CleanAt p (find key (disconnect key p r).0.peers)
unfolding get_peerdata_by_id unlinked
disconnect_cleans p key r h = elim (Option-cases (find key r.peers)) [
  | inl e ↦ rw (disconnect_links key p key r, e) tt
  | inr (c, e) ↦ rw (disconnect_links key p key r, e, h, ==_refl) (remove_all-Without p c.send_to)
]

known_if :
    (p : ℕ) (b : Bool) (o : Option Connection)
    → is_some_connection (if b then Option.map (unlink p) o else o) ≡ is_some_connection o
known_if p true none = refl
known_if p true (some c) = refl
known_if p false o = refl

keeps_known : (from to k : ℕ) (r : Router) → is_known (disconnect from to r).0 k ≡ is_known r k
unfolding get_peerdata_by_id
keeps_known from to k r =
    ap is_some_connection (disconnect_links from to k r) ∙ known_if to _ (find k r.peers)

-- What a part of `remove_peer` does to the connection of another peer `k`: at most it unlinks it.
-- And who is known stays known.
record Unlinks (p : ℕ) (r r' : Router) : Type 0 where
  at_most : (k : ℕ) → (p == k) ≡ false → unlinked p (find k r'.peers) ≡ unlinked p (find k r.peers)
  clean : (k : ℕ) → (p == k) ≡ false → CleanAt p (find k r.peers) → CleanAt p (find k r'.peers)
  known : (k : ℕ) → is_known r' k ≡ is_known r k

Unlinks-refl : (p : ℕ) (r : Router) → Unlinks p r r
Unlinks-refl p r = record { at_most = λ k h. refl; clean = λ k h c. c; known = λ k. refl }

Unlinks-trans : (p : ℕ) (r s t : Router) → Unlinks p r s → Unlinks p s t → Unlinks p r t
Unlinks-trans p r s t a b = record {
  at_most = λ k h. b.at_most k h ∙ a.at_most k h;
  clean = λ k h c. b.clean k h (a.clean k h c);
  known = λ k. b.known k ∙ a.known k;
}

CleanAt-if :
    (p : ℕ) (b : Bool) (o : Option Connection)
    → CleanAt p o
    → CleanAt p (if b then Option.map (unlink p) o else o)
CleanAt-if p true none h = tt
CleanAt-if p true (some c) h = remove_all-Without p c.send_to
CleanAt-if p false o h = h

disconnect_from-Unlinks : (p key : ℕ) (r : Router) → Unlinks p r (disconnect p key r).0
disconnect_from-Unlinks p key r = record {
  at_most = λ k h. ap (unlinked p) (disconnect_other p key k r h);
  clean = λ k h c. rw (disconnect_other p key k r h) c;
  known = λ k. keeps_known p key k r;
}

disconnect_keeps_clean :
    (p key k : ℕ) (r : Router)
    → CleanAt p (find k r.peers)
    → CleanAt p (find k (disconnect key p r).0.peers)
unfolding get_peerdata_by_id
disconnect_keeps_clean p key k r c =
    rw (disconnect_links key p k r) (CleanAt-if p _ (find k r.peers) c)

disconnect_to-Unlinks : (p key : ℕ) (r : Router) → Unlinks p r (disconnect key p r).0
disconnect_to-Unlinks p key r = record {
  at_most = λ k h. disconnect_unlinks p key k r;
  clean = λ k h c. disconnect_keeps_clean p key k r c;
  known = λ k. keeps_known key p k r;
}

-- The loop over one peer's links.
remove_links-Unlinks :
    (p key : ℕ) (others : List ℕ) (r : Router) → Unlinks p r (remove_links p key others r).0
unfolding remove_links
remove_links-Unlinks p key [] r = Unlinks-refl p r
remove_links-Unlinks p key (to ∷ others) r = elim (Bool-cases (to == p)) [
  | inl hit ↦
      let s = (disconnect key p r).0 in
      let t = (disconnect p key s).0 in
      rw hit (
        Unlinks-trans p r s _ (disconnect_to-Unlinks p key r) (
          Unlinks-trans p s t _ (disconnect_from-Unlinks p key s)
            (remove_links-Unlinks p key others t)))
  | inr miss ↦
      let t = (disconnect p key r).0 in
      rw miss (
        Unlinks-trans p r t _ (disconnect_from-Unlinks p key r)
          (remove_links-Unlinks p key others t))
]

remove_links_cleans :
    (p key : ℕ) (others : List ℕ) (r : Router)
    → (p == key) ≡ false
    → is_known r p ≡ true
    → Without p others ⊎ CleanAt p (find key (remove_links p key others r).0.peers)
unfolding remove_links
remove_links_cleans p key [] r n h = inl tt
remove_links_cleans p key (to ∷ others) r n h = elim (Bool-cases (to == p)) [
  | inl hit ↦
      let s = (disconnect key p r).0 in
      let t = (disconnect p key s).0 in
      inr (
        rw hit (
          (remove_links-Unlinks p key others t).clean key n
            ((disconnect_from-Unlinks p key s).clean key n (disconnect_cleans p key r h))))
  | inr miss ↦
      let t = (disconnect p key r).0 in
      elim (remove_links_cleans p key others t n (keeps_known p key p r ∙ h)) [
        | inl w ↦ inl (miss, w)
        | inr c ↦ inr (rw miss c)
      ]
]

remove_key_cleans :
    (p key : ℕ) (r : Router)
    → (p == key) ≡ false
    → is_known r p ≡ true
    → CleanAt p (find key (remove_links p key (send_to_of key r) r).0.peers)
unfolding send_to_of
remove_key_cleans p key r n h = elim (remove_links_cleans p key (send_to_of key r) r n h) [
  | inl w ↦
      (remove_links-Unlinks p key (send_to_of key r) r).clean key n
        (elim (Option-cases (find key r.peers)) [
          | inl e ↦ rw e tt
          | inr (c, e) ↦ rw e (rw (e, send_to_of) at w)
        ])
  | inr c ↦ c
]

remove_all_links-Unlinks :
    (p : ℕ) (ks : List ℕ) (r : Router) → Unlinks p r (remove_all_links p ks r).0
unfolding remove_all_links
remove_all_links-Unlinks p [] r = Unlinks-refl p r
remove_all_links-Unlinks p (key ∷ ks) r =
    Unlinks-trans p r _ _ (remove_links-Unlinks p key (send_to_of key r) r)
      (remove_all_links-Unlinks p ks (remove_links p key (send_to_of key r) r).0)

-- After the loop over some ids, each of these is clean.
remove_all_links_cleans :
    (p : ℕ) (ks : List ℕ) (r : Router)
    → is_known r p ≡ true
    → All (λ k. (p == k) ≡ false → CleanAt p (find k (remove_all_links p ks r).0.peers)) ks
unfolding remove_all_links
remove_all_links_cleans p [] r h = tt
remove_all_links_cleans p (key ∷ ks) r h =
    let s = (remove_links p key (send_to_of key r) r).0 in
    let kept = (remove_links-Unlinks p key (send_to_of key r) r).known p in
    (
      λ n. (remove_all_links-Unlinks p ks s).clean key n (remove_key_cleans p key r n h),
      remove_all_links_cleans p ks s (kept ∙ h),
    )

at_key :
    (P : ℕ → Type 0) (k : ℕ) (cs : List Connection) → All P (keys cs) → (find k cs ≡ none) ⊎ P k
unfolding find
at_key P k [] h = inl refl
at_key P k (c ∷ cs) h = elim (Bool-cases (c.id == k)) [
  | inl hit ↦ inr (subst P (==→eq c.id k hit) h.0)
  | inr miss ↦ rw miss (at_key P k cs h.1)
]

find-erase : (p k : ℕ) (cs : List Connection) → (p == k) ≡ false → find k (erase p cs) ≡ find k cs
unfolding find erase
find-erase p k [] n = refl
find-erase p k (c ∷ cs) n = ground (arith, find-erase p k cs n)

-- Removing a known peer leaves every other peer as it was, less its links to the peer that went:
-- none of these is left, and the other links keep their order.
pub remove_peer_unlinks :
    (p k : ℕ) (r : Router)
    → is_known r p ≡ true
    → p ≢ k
    → get_peerdata_by_id (remove_peer p r).0 k ≡ Option.map (unlink p) (get_peerdata_by_id r k)
unfolding get_peerdata_by_id remove_peer unlinked
remove_peer_unlinks p k r h other =
    let n : (p == k) ≡ false = ground arith in
    let s = (remove_all_links p (keys r.peers) r).0 in
    let u = remove_all_links-Unlinks p (keys r.peers) r in
    let c : CleanAt p (find k s.peers) =
      elim (at_key _ k r.peers (remove_all_links_cleans p (keys r.peers) r h)) [
        | inl e ↦ u.clean k n (rw e tt)
        | inr f ↦ f n
      ] in
    find-erase p k s.peers n ∙ sym (unlinked_same p (find k s.peers) c) ∙ u.at_most k n

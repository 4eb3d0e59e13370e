-- ===== src/Router/Connections.antt =====
-- src/midirouter.cpp: connecting, disconnecting, and who gets a message.
use rtpmidid.Common.{
  take_all, drop_all, ℕ, zero, suc, ◌+◌, ◌≡◌, refl, ap, ◌∙◌, List, [], ◌∷◌, ◌++◌, length, take,
  drop, get_or, All, true, false, Bool-cases, inl, inr, ◌==◌, arith, Option, none, some,
  Option-cases, ==→eq, append_assoc, append-nil, length-append, take-length_append,
  drop-length_append, All-append,
}
use rtpmidid.Common.{if◌then◌else◌, ◌&&◌}
use mathlib.Core.Option
use rtpmidid.Router.{
  Router, Connection, Call, midi_call, find, change, remove_all, erase_value, Storage, is_known,
  count_sent, count_recv, disconnect_loop, disconnect, send_midi, send_midi_to, send_midi_all,
  get_peerdata_by_id,
}

abbrev pub Without : ℕ → List ℕ → Type 0
Without to = All (λ x. (x == to) ≡ false)

pub remove_all-Without : (to : ℕ) (xs : List ℕ) → Without to (remove_all to xs)
unfolding remove_all
remove_all-Without to [] = tt
remove_all-Without to (x ∷ xs) = elim (Bool-cases (x == to)) [
  | inl hit ↦ rw hit (remove_all-Without to xs)
  | inr miss ↦ rw miss (miss, remove_all-Without to xs)
]

pub remove_all_same : (to : ℕ) (xs : List ℕ) → Without to xs → remove_all to xs ≡ xs
unfolding remove_all
remove_all_same to [] h = refl
remove_all_same to (x ∷ xs) h = rw (h.0, remove_all_same to xs h.1)

-- The storage after the first erase, which further ones leave as it is.
abbrev erased : ℕ → List ℕ → Storage
erased to xs = (remove_all to xs ++ drop (length (remove_all to xs)) xs, length (remove_all to xs))

erase_value_again : (to : ℕ) (xs : List ℕ) → erase_value to (erased to xs) ≡ erased to xs
unfolding erase_value
erase_value_again to xs =
    let kept = remove_all to xs in
    rw (
      take-length_append kept (drop (length kept) xs),
      remove_all_same to kept (remove_all-Without to xs),
      drop-length_append kept (drop (length kept) xs),
    )

loop_erased :
    (n i from to : ℕ) (xs : List ℕ) → (disconnect_loop n i from to (erased to xs)).0 ≡ erased to xs
unfolding disconnect_loop
loop_erased zero i from to xs = refl
loop_erased (suc n) i from to xs = elim (Bool-cases (get_or 0 (erased to xs).0 i == to)) [
  | inl hit ↦ rw (hit, erase_value_again to xs) (loop_erased n (i + 1) from to xs)
  | inr miss ↦ rw miss (loop_erased n (i + 1) from to xs)
]

get_or_at : (pre xs : List ℕ) (x : ℕ) → get_or 0 (pre ++ x ∷ xs) (length pre) ≡ x
get_or_at [] xs x = refl
get_or_at (y ∷ pre) xs x = get_or_at pre xs x

erase_first : (to : ℕ) (xs : List ℕ) → erase_value to (xs, length xs) ≡ erased to xs
unfolding erase_value
erase_first to xs = rw take_all

loop_from :
    (from to : ℕ) (pre rest : List ℕ)
    → Without to pre
    → (disconnect_loop (length rest) (length pre) from to (pre ++ rest, length (pre ++ rest))).0
      ≡ erased to (pre ++ rest)
unfolding disconnect_loop
loop_from from to pre [] h = rw (append-nil, remove_all_same to pre h, drop_all, append-nil)
loop_from from to pre (x ∷ rest) h = elim (Bool-cases (x == to)) [
  | inl hit ↦
      rw (get_or_at, hit, erase_first to (pre ++ x ∷ rest))
        (loop_erased (length rest) (length pre + 1) from to (pre ++ x ∷ rest))
  | inr miss ↦
      let step : length (pre ++ x ∷ []) ≡ length pre + 1 = length-append pre (x ∷ []) in
      rw (get_or_at, miss)
        (rw (append_assoc pre (x ∷ []) rest, step) at
          (loop_from from to (pre ++ x ∷ []) rest (All-append _ pre (x ∷ []) h (miss, tt))))
]

-- The loop of `disconnect` leaves the vector without the peer, wherever and however often it stood
-- there, with the others in their order.
pub disconnect_loop_removes :
    (from to : ℕ) (xs : List ℕ)
    → let s = (disconnect_loop (length xs) 0 from to (xs, length xs)).0 in
      take s.1 s.0 ≡ remove_all to xs
disconnect_loop_removes from to xs = rw (loop_from from to [] xs tt, take-length_append)

find-change :
    (k j : ℕ) (f : Connection → Connection) (cs : List Connection)
    → ((c : Connection) → (f c).id ≡ c.id)
    → find j (change k f cs) ≡ (if k == j then Option.map f (find j cs) else find j cs)
unfolding find change
find-change k j f [] h = ground arith
find-change k j f (c ∷ cs) h = ground (arith, h c, find-change k j f cs h)

abbrev pub unlink : ℕ → Connection → Connection
unlink to c = record c { send_to = remove_all to c.send_to }

disconnect_known :
    (from to k : ℕ) (r : Router) (p q : Connection)
    → find from r.peers ≡ some p
    → find to r.peers ≡ some q
    → find k (disconnect from to r).0.peers
      ≡ (if from == k then Option.map (unlink to) (find k r.peers) else find k r.peers)
unfolding disconnect
disconnect_known from to k r p q ep eq =
    rw (ep, eq, disconnect, disconnect_loop_removes from to p.send_to, find-change)
      (elim (Bool-cases (from == k)) [
        | inl same ↦ rw (same, ← ==→eq from k same, ep)
        | inr other ↦ rw other
      ])

disconnect_no_from :
    (from to : ℕ) (r : Router) → find from r.peers ≡ none → disconnect from to r ≡ (r, [])
unfolding disconnect
disconnect_no_from from to r e = rw (e, disconnect)

disconnect_no_to :
    (from to : ℕ) (r : Router) (p : Connection)
    → find from r.peers ≡ some p
    → find to r.peers ≡ none
    → disconnect from to r ≡ (r, [])
unfolding disconnect
disconnect_no_to from to r p ep e = rw (ep, e, disconnect)

-- Disconnecting one known peer from another takes every link from the first to the second away,
-- keeps the first one's other links in their order, and changes no other peer. Where one of the two
-- is unknown, no peer changes.
pub disconnect_links :
    (from to k : ℕ) (r : Router)
    → get_peerdata_by_id (disconnect from to r).0 k ≡ (
        if is_known r from && is_known r to && from == k
        then Option.map (unlink to) (get_peerdata_by_id r k)
        else get_peerdata_by_id r k)
unfolding get_peerdata_by_id
disconnect_links from to k r = elim (Option-cases (find from r.peers)) [
  | inl e ↦ rw (disconnect_no_from from to r e, e)
  | inr (p, ep) ↦ elim (Option-cases (find to r.peers)) [
    | inl e ↦ rw (disconnect_no_to from to r p ep e, ep, e)
    | inr (q, eq) ↦ rw (disconnect_known from to k r p q ep eq, ep, eq)
  ]
]

-- Who is called for a message: the linked peers that the router knows, in the order of the links.
abbrev pub deliveries : Router → ℕ → List ℕ → List ℕ → List Call
deliveries r from midi [] = []
deliveries r from midi (to ∷ others) =
    if is_known r to
    then midi_call to from midi ∷ deliveries r from midi others
    else deliveries r from midi others

is_known-change :
    (k j : ℕ) (f : Connection → Connection) (r : Router)
    → ((c : Connection) → (f c).id ≡ c.id)
    → is_known (record r { peers = change k f r.peers }) j ≡ is_known r j
is_known-change k j f r h = ground (arith, find-change k j f r.peers h)

deliveries_same :
    (r r' : Router) (from : ℕ) (midi targets : List ℕ)
    → ((j : ℕ) → is_known r' j ≡ is_known r j)
    → deliveries r' from midi targets ≡ deliveries r from midi targets
deliveries_same r r' from midi [] h = refl
deliveries_same r r' from midi (to ∷ others) h = rw (h to, deliveries_same r r' from midi others h)

send_midi_to_unknown :
    (from to : ℕ) (midi : List ℕ) (r : Router)
    → find to r.peers ≡ none
    → send_midi_to from to midi r ≡ (r, [])
unfolding send_midi_to
send_midi_to_unknown from to midi r e = elim (Option-cases (find from r.peers)) [
  | inl n ↦ rw (n, send_midi_to)
  | inr (p, ep) ↦ rw (ep, e, send_midi_to)
]

send_midi_to_known :
    (from to : ℕ) (midi : List ℕ) (r : Router) (p q : Connection)
    → find from r.peers ≡ some p
    → find to r.peers ≡ some q
    → send_midi_to from to midi r
      ≡ (record r { peers = change to count_recv r.peers }, midi_call to from midi ∷ [])
unfolding send_midi_to
send_midi_to_known from to midi r p q ep eq = rw (ep, eq, send_midi_to)

send_midi_all_calls :
    (from : ℕ) (targets midi : List ℕ) (r : Router)
    → is_known r from ≡ true
    → (send_midi_all from targets midi r).1 ≡ deliveries r from midi targets
unfolding send_midi_all
send_midi_all_calls from [] midi r h = refl
send_midi_all_calls from (to ∷ others) midi r h = elim (Option-cases (find from r.peers)) [
  | inl e ↦ cc (h, e)
  | inr (p, ep) ↦ elim (Option-cases (find to r.peers)) [
    | inl e ↦
        rw (send_midi_to_unknown from to midi r e, e) (send_midi_all_calls from others midi r h)
    | inr (q, eq) ↦
        let r' = record r { peers = change to count_recv r.peers } in
        let same = λ (j : ℕ). is_known-change to j count_recv r (λ c. refl) in
        rw (send_midi_to_known from to midi r p q ep eq, eq)
          (ap (◌∷◌ (midi_call to from midi)) (
            send_midi_all_calls from others midi r' (same from ∙ h)
            ∙ deliveries_same r r' from midi others same))
  ]
]

abbrev pub expected_calls : Router → ℕ → List ℕ → Option Connection → List Call
expected_calls r from midi none = []
expected_calls r from midi (some c) = deliveries r from midi c.send_to

-- A message from a known peer is given to exactly the peers that it is linked to and that the
-- router knows, once for each link and in the order of the links. A message from an unknown peer is
-- given to nobody.
pub send_midi_calls :
    (from : ℕ) (midi : List ℕ) (r : Router)
    → (send_midi from midi r).1 ≡ expected_calls r from midi (get_peerdata_by_id r from)
unfolding send_midi get_peerdata_by_id
send_midi_calls from midi r = elim (Option-cases (find from r.peers)) [
  | inl e ↦ rw (e, send_midi)
  | inr (p, ep) ↦
      let r' = record r { peers = change from count_sent r.peers } in
      let same = λ (j : ℕ). is_known-change from j count_sent r (λ c. refl) in
      rw (ep, send_midi)
        (send_midi_all_calls from p.send_to midi r' (same from ∙ rw ep)
          ∙ deliveries_same r r' from midi p.send_to same)
]

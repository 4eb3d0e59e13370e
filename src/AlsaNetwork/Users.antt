-- ===== src/AlsaNetwork/Users.antt =====
-- src/local_alsa_multi_listener.cpp: the users of one server.
use rtpmidid.Common.{
  ℕ, ◌≡◌, ◌≢◌, refl, ap, ◌∙◌, List, [], ◌∷◌, ◌++◌, true, false, ◌==◌, ==_refl, arith, none, some,
  All,
}
use rtpmidid.Common.Int.{ℤ, pos, ◌-ℤ◌}
use rtpmidid.Text.{Text, same_text}
use rtpmidid.Text.Laws.{same_text_refl}
use rtpmidid.Sequencer.{SeqPort, same_port}
use rtpmidid.AlsaNetwork.{
  AlsaNetwork, NetworkListener, remove_peer, find_port, erase_port, set_port, new_alsa_connection,
  remove_alsa_connection, use_each, find_listener, erase_listener,
}

-- Two ports connect under one name, one after the other.
abbrev pub two_users : SeqPort → SeqPort → Text → ℕ → ℕ → AlsaNetwork → AlsaNetwork
two_users first second name id other_id s =
    (new_alsa_connection second name other_id (new_alsa_connection first name id s).0).0

-- No listener has the name, and none has the id.
abbrev pub IsUnused : Text → ℕ → List NetworkListener → Type 0
IsUnused name id = All (λ l. (same_text l.name name ≡ false) × (l.peer_id ≢ id))

abbrev counted : Text → ℕ → ℤ → NetworkListener
counted name id n = record { peer_id = id; name = name; use_count = n }

use_each-unused :
    (name : Text) (id : ℕ) (ls : List NetworkListener)
    → IsUnused name id ls
    → use_each name ls ≡ (ls, none)
use_each-unused name id [] u = refl
use_each-unused name id (l ∷ ls) u =
    let other : same_text l.name name ≡ false = u.0.0 in rw (other, use_each-unused name id ls u.1)

use_each-last :
    (name : Text) (id : ℕ) (ls : List NetworkListener)
    → IsUnused name id ls
    → use_each name (ls ++ counted name id (pos 0) ∷ [])
      ≡ (ls ++ counted name id (pos 1) ∷ [], some id)
use_each-last name id [] u = rw (same_text_refl name)
use_each-last name id (l ∷ ls) u =
    let other : same_text l.name name ≡ false = u.0.0 in rw (other, use_each-last name id ls u.1)

listener-last :
    (name : Text) (id : ℕ) (n : ℤ) (ls : List NetworkListener)
    → IsUnused name id ls
    → (find_listener id (ls ++ counted name id n ∷ []) ≡ some (counted name id n))
      × (erase_listener id (ls ++ counted name id n ∷ []) ≡ ls)
listener-last name id n [] u = (rw (==_refl id), rw (==_refl id))
listener-last name id n (l ∷ ls) u =
    let differ : l.peer_id ≢ id = u.0.1 in
    let other : (l.peer_id == id) ≡ false = ground arith in
    let rest = listener-last name id n ls u.1 in (rw other rest.0, rw other (ap (◌∷◌ l) rest.1))

abbrev other_ports : SeqPort → SeqPort → AlsaNetwork → List (SeqPort × ℕ)
other_ports first second s = erase_port second (erase_port first s.aseqpeers)

first_joins :
    (first : SeqPort) (name : Text) (id : ℕ) (s : AlsaNetwork)
    → IsUnused name id s.listeners
    → (new_alsa_connection first name id s).0 ≡ record s {
      aseqpeers = (first, id) ∷ erase_port first s.aseqpeers;
      listeners = s.listeners ++ counted name id (pos 0) ∷ [];
    }
unfolding new_alsa_connection set_port
first_joins first name id s u = rw (use_each-unused name id s.listeners u)

second_joins :
    (first second : SeqPort) (name : Text) (id other_id : ℕ) (s : AlsaNetwork)
    → same_port first second ≡ false
    → IsUnused name id s.listeners
    → (new_alsa_connection second name other_id (record s {
      aseqpeers = (first, id) ∷ erase_port first s.aseqpeers;
      listeners = s.listeners ++ counted name id (pos 0) ∷ [];
    })).0
      ≡ record s {
        aseqpeers = (second, id) ∷ (first, id) ∷ other_ports first second s;
        listeners = s.listeners ++ counted name id (pos 1) ∷ [];
      }
unfolding new_alsa_connection set_port erase_port
second_joins first second name id other_id s h u = rw (use_each-last name id s.listeners u, h)

two_connected :
    (first second : SeqPort) (name : Text) (id other_id : ℕ) (s : AlsaNetwork)
    → same_port first second ≡ false
    → IsUnused name id s.listeners
    → two_users first second name id other_id s ≡ record s {
      aseqpeers = (second, id) ∷ (first, id) ∷ other_ports first second s;
      listeners = s.listeners ++ counted name id (pos 1) ∷ [];
    }
two_connected first second name id other_id s h u =
    ap (λ n. (new_alsa_connection second name other_id n).0) (first_joins first name id s u)
    ∙ second_joins first second name id other_id s h u

-- The first one, and the second one, of the two leaves.
abbrev both : SeqPort → SeqPort → Text → ℕ → AlsaNetwork → AlsaNetwork
both first second name id s = record s {
  aseqpeers = (second, id) ∷ (first, id) ∷ other_ports first second s;
  listeners = s.listeners ++ counted name id (pos 1) ∷ [];
}

same_self : (p : SeqPort) → same_port p p ≡ true
same_self p = rw (==_refl p.client, ==_refl p.port)

first_leaves :
    (first second : SeqPort) (name : Text) (id : ℕ) (s : AlsaNetwork)
    → same_port second first ≡ false
    → IsUnused name id s.listeners
    → remove_alsa_connection first (both first second name id s)
      ≡ (record s { aseqpeers = (second, id) ∷ other_ports first second s }, remove_peer id ∷ [])
unfolding remove_alsa_connection find_port erase_port ◌-ℤ◌
first_leaves first second name id s k u =
    let last = listener-last name id (pos 1) s.listeners u in
    rw (k, same_self first, last.0, k, same_self first, last.1)

second_leaves :
    (first second : SeqPort) (name : Text) (id : ℕ) (s : AlsaNetwork)
    → IsUnused name id s.listeners
    → remove_alsa_connection second (both first second name id s)
      ≡ (record s { aseqpeers = (first, id) ∷ other_ports first second s }, remove_peer id ∷ [])
unfolding remove_alsa_connection find_port erase_port ◌-ℤ◌
second_leaves first second name id s u =
    let last = listener-last name id (pos 1) s.listeners u in
    rw (same_self second, last.0, same_self second, last.1)

-- Where two different ports connect under one name, which no listener has before, and either of them
-- leaves, the server that they share is removed from the router, while the other port still stands for
-- it: the count of its users begins at 0 with one user. The new server's id is no listener's; what else
-- is connected stays as it was, but for older entries of the two ports, which are gone.
pub two_users_lose_server :
    (first second : SeqPort) (name : Text) (id other_id : ℕ) (s : AlsaNetwork)
    → same_port first second ≡ false
    → IsUnused name id s.listeners
    → let rest = erase_port second (erase_port first s.aseqpeers) in
      let shared = two_users first second name id other_id s in
      (remove_alsa_connection first shared
        ≡ (record s { aseqpeers = (second, id) ∷ rest }, remove_peer id ∷ []))
      × (remove_alsa_connection second shared
          ≡ (record s { aseqpeers = (first, id) ∷ rest }, remove_peer id ∷ []))
two_users_lose_server first second name id other_id s h u =
    let k : same_port second first ≡ false = ground arith in
    let connected = two_connected first second name id other_id s h u in
    (
      ap (remove_alsa_connection first) connected ∙ first_leaves first second name id s k u,
      ap (remove_alsa_connection second) connected ∙ second_leaves first second name id s u,
    )

-- ===== src/AlsaNetwork.antt =====
-- src/local_alsa_multi_listener.cpp and src/network_rtpmidi_listener.hpp: the ALSA port `Network`, and a
-- server for each name that connects to it. The unordered map of ports is an association list.
pub mod Users
mod Examples
use rtpmidid.Common.{
  ℕ, zero, suc, List, [], ◌∷◌, ◌++◌, Bool, true, false, ◌==◌, if◌then◌else◌, Option, none, some,
}
use rtpmidid.Common.Int.{ℤ, pos, negsuc, ◌-ℤ◌, increment}
use rtpmidid.Text.{Text, same_text}
use rtpmidid.Sequencer.{SeqPort, same_port}

-- `network_rtpmidi_listener_t`, as far as its users go.
pub record NetworkListener : Type 0 where
  pub peer_id : ℕ
  pub name : Text
  pub use_count : ℤ

-- `local_alsa_multi_listener_t`, with the listeners that the router has.
pub record AlsaNetwork : Type 0 where
  pub peer_id : ℕ
  pub aseqpeers : List (SeqPort × ℕ)
  pub listeners : List NetworkListener

-- What is asked of the router, and of the sequencer: MIDI for one port.
pub data Action : Type 0 where
  connect_peers : ℕ → ℕ → Action
  remove_peer : ℕ → Action
  send_midi_to : ℕ → ℕ → List ℕ → Action
  send_to_port : SeqPort → List ℕ → Action

unfoldable pub find_port : SeqPort → List (SeqPort × ℕ) → Option ℕ
find_port p [] = none
find_port p ((q, id) ∷ ports) = if same_port q p then some id else find_port p ports

unfoldable pub erase_port : SeqPort → List (SeqPort × ℕ) → List (SeqPort × ℕ)
erase_port p [] = []
erase_port p ((q, id) ∷ ports) =
    let rest = erase_port p ports in if same_port q p then ports else (q, id) ∷ rest

-- `aseqpeers[port] = id`
unfoldable pub set_port : SeqPort → ℕ → List (SeqPort × ℕ) → List (SeqPort × ℕ)
unfolding erase_port
set_port p id ports = (p, id) ∷ erase_port p ports

abbrev pub is_positive : ℤ → Bool
is_positive (pos zero) = false
is_positive (pos (suc n)) = true
is_positive (negsuc n) = false

-- One more user for each listener of the name, and the id of the last of them.
abbrev pub use_each : Text → List NetworkListener → List NetworkListener × Option ℕ
use_each name [] = ([], none)
use_each name (l ∷ ls) =
    let (rest, found) = use_each name ls in
    if same_text l.name name
    then (
      record l { use_count = increment l.use_count } ∷ rest,
      elim found [ none ↦ some l.peer_id | some id ↦ some id ],
    )
    else (l ∷ rest, found)

-- `new_alsa_connection`; `new_id` is the router's id for a new listener, which begins with no user.
joined :
    SeqPort → Text → ℕ → List NetworkListener × Option ℕ → AlsaNetwork → AlsaNetwork × List Action
unfolding set_port
joined port name new_id (ls, some id) s =
    (record s { listeners = ls; aseqpeers = set_port port id s.aseqpeers }, [])
joined port name new_id (ls, none) s = (
  record s {
    listeners = ls ++ record { peer_id = new_id; name = name; use_count = pos 0 } ∷ [];
    aseqpeers = set_port port new_id s.aseqpeers;
  },
  connect_peers new_id s.peer_id ∷ [],
)

unfoldable pub new_alsa_connection : SeqPort → Text → ℕ → AlsaNetwork → AlsaNetwork × List Action
unfolding joined
new_alsa_connection port name new_id s = joined port name new_id (use_each name s.listeners) s

abbrev pub find_listener : ℕ → List NetworkListener → Option NetworkListener
find_listener id [] = none
find_listener id (l ∷ ls) = if l.peer_id == id then some l else find_listener id ls

abbrev pub put_listener : NetworkListener → List NetworkListener → List NetworkListener
put_listener x [] = []
put_listener x (l ∷ ls) = if l.peer_id == x.peer_id then x ∷ ls else l ∷ put_listener x ls

abbrev pub erase_listener : ℕ → List NetworkListener → List NetworkListener
erase_listener id [] = []
erase_listener id (l ∷ ls) = if l.peer_id == id then ls else l ∷ erase_listener id ls

-- The listener with one user less, which goes if no user is counted any more.
one_less : SeqPort → ℕ → Option NetworkListener → AlsaNetwork → AlsaNetwork × List Action
unfolding erase_port ◌-ℤ◌
one_less port id none s = (s, [])
one_less port id (some l) s =
    let l1 = record l { use_count = l.use_count -ℤ 1 } in
    let ports = erase_port port s.aseqpeers in
    if is_positive l1.use_count
    then (record s { listeners = put_listener l1 s.listeners; aseqpeers = ports }, [])
    else (
      record s { listeners = erase_listener id s.listeners; aseqpeers = ports },
      remove_peer id ∷ [],
    )

-- A port that is not known changes nothing.
port_leaves : SeqPort → Option ℕ → AlsaNetwork → AlsaNetwork × List Action
unfolding one_less
port_leaves port none s = (s, [])
port_leaves port (some id) s = one_less port id (find_listener id s.listeners) s

unfoldable pub remove_alsa_connection : SeqPort → AlsaNetwork → AlsaNetwork × List Action
unfolding port_leaves
remove_alsa_connection port s = port_leaves port (find_port port s.aseqpeers) s

-- MIDI from the port `source`, once for each packet that the event is decoded to.
abbrev send_each : ℕ → ℕ → List (List ℕ) → List Action
send_each from to [] = []
send_each from to (p ∷ ps) = send_midi_to from to p ∷ send_each from to ps

unfoldable pub alsaseq_event : SeqPort → List (List ℕ) → AlsaNetwork → List Action
unfolding find_port
alsaseq_event source packets s = elim (find_port source s.aseqpeers) [
  | none ↦ []
  | some id ↦ send_each s.peer_id id packets
]

-- MIDI from the listener `from` goes to every port that is connected to it.
abbrev pub to_ports : ℕ → List ℕ → List (SeqPort × ℕ) → List Action
to_ports from midi [] = []
to_ports from midi ((p, id) ∷ ports) =
    let rest = to_ports from midi ports in if id == from then send_to_port p midi ∷ rest else rest

unfoldable pub send_midi : ℕ → List ℕ → AlsaNetwork → List Action
send_midi from midi s = to_ports from midi s.aseqpeers

-- ===== src/Router.antt =====
-- src/midirouter.hpp and src/midirouter.cpp: peers by id, and to which others each one sends.
-- A peer object is its id and its two counters; its virtual methods (`send_midi`, `event`) are
-- recorded as calls, in their order. The unordered map is an association list, in any order.
pub mod Connections
pub mod Keys
pub mod Removal
mod Examples
use rtpmidid.Common.{
  ℕ, zero, suc, ◌+◌, ◌-◌, ◌%◌, ◌^◌, List, [], ◌∷◌, ◌++◌, length, take, drop, get_or, Bool, true,
  false, ◌==◌, ltb, if◌then◌else◌, Option, none, some,
}

-- `midipeer_t`, as far as the router touches it.
pub record MidiPeer : Type 0 where
  pub peer_id : ℕ
  pub packets_sent : ℕ
  pub packets_recv : ℕ

-- `peerconnection_t`
pub record Connection : Type 0 where
  pub id : ℕ
  pub peer : MidiPeer
  pub send_to : List ℕ

pub record Router : Type 0 where
  pub max_id : ℕ
  pub peers : List Connection

pub data PeerEvent : Type 0 where
  connected_router disconnected_router connected_peer disconnected_peer : PeerEvent

-- A call of a peer's method: `event(kind, from)` or `send_midi(from, data)`, on the peer `to`.
pub data Call : Type 0 where
  event_call : ℕ → PeerEvent → ℕ → Call
  midi_call : ℕ → ℕ → List ℕ → Call

abbrev pub empty : Router
empty = record { max_id = 1; peers = [] }

unfoldable pub find : ℕ → List Connection → Option Connection
find k [] = none
find k (c ∷ cs) = if c.id == k then some c else find k cs

-- A change made through the pointer that `get_peerdata_by_id` returns.
unfoldable pub change : ℕ → (Connection → Connection) → List Connection → List Connection
change k f [] = []
change k f (c ∷ cs) = if c.id == k then f c ∷ cs else c ∷ change k f cs

unfoldable pub erase : ℕ → List Connection → List Connection
erase k [] = []
erase k (c ∷ cs) = if c.id == k then cs else c ∷ erase k cs

unfoldable pub get_peerdata_by_id : Router → ℕ → Option Connection
get_peerdata_by_id r k = find k r.peers

-- An id of 0 is that of a peer that no router has.
unfoldable pub add_peer : MidiPeer → Router → ℕ × Router
add_peer p r =
    if p.peer_id == 0
    then (
      r.max_id,
      record {
        max_id = (r.max_id + 1) % 2 ^ 32;
        peers =
            record { id = r.max_id; peer = record p { peer_id = r.max_id }; send_to = [] }
            ∷ erase r.max_id r.peers;
      },
    )
    else (p.peer_id, r)

abbrev pub count_sent : Connection → Connection
count_sent c = record c { peer = record c.peer { packets_sent = c.peer.packets_sent + 1 } }

abbrev pub count_recv : Connection → Connection
count_recv c = record c { peer = record c.peer { packets_recv = c.peer.packets_recv + 1 } }

-- `send_midi(from, to, data)`: both peers must be there.
unfoldable pub send_midi_to : ℕ → ℕ → List ℕ → Router → Router × List Call
send_midi_to from to midi r = elim (find from r.peers) [
  | none ↦ (r, [])
  | some sender ↦ elim (find to r.peers) [
    | none ↦ (r, [])
    | some receiver ↦
        (record r { peers = change to count_recv r.peers }, midi_call to from midi ∷ [])
  ]
]

unfoldable pub send_midi_all : ℕ → List ℕ → List ℕ → Router → Router × List Call
send_midi_all from [] midi r = (r, [])
send_midi_all from (to ∷ others) midi r =
    let (r1, calls) = send_midi_to from to midi r in
    let (r2, more) = send_midi_all from others midi r1 in (r2, calls ++ more)

-- `send_midi(from, data)`
unfoldable pub send_midi : ℕ → List ℕ → Router → Router × List Call
send_midi from midi r = elim (find from r.peers) [
  | none ↦ (r, [])
  | some c ↦ send_midi_all from c.send_to midi (record r { peers = change from count_sent r.peers })
]

abbrev pub push_send_to : ℕ → Connection → Connection
push_send_to to c = record c { send_to = c.send_to ++ to ∷ [] }

unfoldable pub connect : ℕ → ℕ → Router → Router × List Call
connect from to r = elim (find from r.peers) [
  | none ↦ (r, [])
  | some from_peer ↦ elim (find to r.peers) [
    | none ↦ (r, [])
    | some to_peer ↦ (
      record r { peers = change from (push_send_to to) r.peers },
      event_call from connected_router to ∷ event_call to connected_router from ∷ [],
    )
  ]
]

-- `std::remove` of `to`, over the live part of a vector.
unfoldable pub remove_all : ℕ → List ℕ → List ℕ
remove_all to [] = []
remove_all to (x ∷ xs) = if x == to then remove_all to xs else x ∷ remove_all to xs

-- The vector's elements, those behind the live part included, and the size of the live part:
-- `erase(remove(begin, end, to), end)` moves what is kept to the front, and leaves the rest of the
-- storage as it is.
abbrev pub Storage : Type 0
Storage = List ℕ × ℕ

unfoldable pub erase_value : ℕ → Storage → Storage
erase_value to (storage, live) =
    let kept = remove_all to (take live storage) in
    (kept ++ drop (length kept) storage, length kept)

-- The range loop of `disconnect`: its end is fixed before the first round, so it goes on over the
-- old storage after an erase (the standard leaves that undefined; this is what the containers of
-- the common libraries do). `n` rounds are left, and the next element is at `i`.
unfoldable pub disconnect_loop : ℕ → ℕ → ℕ → ℕ → Storage → Storage × List Call
unfolding erase_value
disconnect_loop zero i from to s = (s, [])
disconnect_loop (suc n) i from to s =
    if get_or 0 s.0 i == to
    then (let (s', more) = disconnect_loop n (i + 1) from to (erase_value to s) in
        (
          s',
          event_call from disconnected_router to ∷ event_call to disconnected_router from ∷ more,
        ))
    else disconnect_loop n (i + 1) from to s

abbrev disconnected : ℕ → ℕ → List ℕ → Storage × List Call
disconnected from to send_to = disconnect_loop (length send_to) 0 from to (send_to, length send_to)

unfoldable pub disconnect : ℕ → ℕ → Router → Router × List Call
disconnect from to r = elim (find from r.peers) [
  | none ↦ (r, [])
  | some from_peer ↦ elim (find to r.peers) [
    | none ↦ (r, [])
    | some to_peer ↦
        let ((storage, live), calls) = disconnected from to from_peer.send_to in
        (
          record r { peers = change from (λ c. record c { send_to = take live storage }) r.peers },
          calls,
        )
  ]
]

-- The loops of `remove_peer`: over the copy of one peer's `send_to`, and over the peers.
unfoldable pub remove_links : ℕ → ℕ → List ℕ → Router → Router × List Call
remove_links peer_id key [] r = (r, [])
remove_links peer_id key (to ∷ others) r =
    let (r1, calls1) = if to == peer_id then disconnect key peer_id r else (r, []) in
    let (r2, calls2) = disconnect peer_id key r1 in
    let (r3, calls3) = remove_links peer_id key others r2 in (r3, calls1 ++ (calls2 ++ calls3))

unfoldable pub send_to_of : ℕ → Router → List ℕ
send_to_of key r = elim (find key r.peers) [ none ↦ [] | some c ↦ c.send_to ]

unfoldable pub remove_all_links : ℕ → List ℕ → Router → Router × List Call
unfolding send_to_of
remove_all_links peer_id [] r = (r, [])
remove_all_links peer_id (key ∷ keys) r =
    let (r1, calls1) = remove_links peer_id key (send_to_of key r) r in
    let (r2, calls2) = remove_all_links peer_id keys r1 in (r2, calls1 ++ calls2)

abbrev pub keys : List Connection → List ℕ
keys [] = []
keys (c ∷ cs) = c.id ∷ keys cs

unfoldable pub remove_peer : ℕ → Router → Router × List Call
remove_peer peer_id r =
    let (r', calls) = remove_all_links peer_id (keys r.peers) r in
    (record r' { peers = erase peer_id r'.peers }, calls)

-- `event(from, to, event)` and `event(from, event)`
unfoldable pub event_to : ℕ → ℕ → PeerEvent → Router → List Call
event_to from to event r = elim (find to r.peers) [
  | none ↦ []
  | some peer ↦ event_call to event from ∷ []
]

event_all : ℕ → List ℕ → PeerEvent → Router → List Call
unfolding event_to
event_all from [] event r = []
event_all from (to ∷ others) event r = event_to from to event r ++ event_all from others event r

unfoldable pub event : ℕ → PeerEvent → Router → List Call
unfolding event_all
event from kind r = elim (find from r.peers) [
  | none ↦ []
  | some c ↦ event_all from c.send_to kind r
]

-- `clear` also takes the router out of every peer.
unfoldable pub clear : Router → Router
clear r = record r { peers = [] }

abbrev pub is_some_connection : Option Connection → Bool
is_some_connection none = false
is_some_connection (some c) = true

abbrev pub is_known : Router → ℕ → Bool
is_known r k = is_some_connection (find k r.peers)

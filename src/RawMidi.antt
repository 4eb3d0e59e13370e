-- ===== src/RawMidi.antt =====
-- src/local_rawmidi_peer.hpp and src/local_rawmidi_peer.cpp: a device file that is open while a peer of
-- the router is connected. What the system answers is an argument: the descriptor of an opened
-- file, and whether it can be watched. A failed assertion is `none`.
mod Examples
use rtpmidid.Common.{
  ℕ, zero, suc, if◌then◌else◌, List, [], ◌∷◌, Bool, true, false, Option, none, some,
}
use rtpmidid.Common.Int.{ℤ, pos, negsuc, ◌-ℤ◌, increment}
use rtpmidid.Text.{Text}
use rtpmidid.Normalizer.{Normalizer, initial, normalize_stream}
use rtpmidid.Router.{
  PeerEvent, connected_router, disconnected_router, connected_peer, disconnected_peer,
}

pub record RawMidiPeer : Type 0 where
  pub device : Text
  pub fd : Option ℕ
  pub is_watched : Bool
  pub midi_normalizer : Normalizer
  pub connection_count : ℤ

pub data Action : Type 0 where
  writes : ℕ → List ℕ → Action
  stops_watching closes : ℕ → Action
  sends_midi : List ℕ → Action

abbrev pub new_peer : Text → RawMidiPeer
new_peer device = record {
  device = device;
  fd = none;
  is_watched = false;
  midi_normalizer = initial;
  connection_count = pos 0;
}

-- A file that cannot be opened leaves the peer closed: the second try for a missing device is never
-- made, since its test is on the negative result.
unfoldable pub open_device : Option ℕ → Bool → RawMidiPeer → Option RawMidiPeer
open_device answer can_watch p = elim p.fd [
  | some fd ↦ none
  | none ↦ elim answer [
    | none ↦ some p
    | some fd ↦ some (record p { fd = some fd; is_watched = can_watch })
  ]
]

unfoldable pub close_device : RawMidiPeer → RawMidiPeer × List Action
close_device p = elim p.fd [
  | none ↦ (p, [])
  | some fd ↦ (record p { fd = none; is_watched = false }, stops_watching fd ∷ closes fd ∷ [])
]

abbrev is_one : ℤ → Bool
is_one (pos zero) = false
is_one (pos (suc zero)) = true
is_one (pos (suc (suc n))) = false
is_one (negsuc n) = false

abbrev is_zero : ℤ → Bool
is_zero (pos zero) = true
is_zero (pos (suc n)) = false
is_zero (negsuc n) = false

unfoldable pub connected : Option ℕ → Bool → RawMidiPeer → Option RawMidiPeer
unfolding open_device
connected answer can_watch p0 =
    let p = record p0 { connection_count = increment p0.connection_count } in
    if is_one p.connection_count then open_device answer can_watch p else some p

unfoldable pub disconnected : RawMidiPeer → RawMidiPeer × List Action
unfolding close_device ◌-ℤ◌
disconnected p0 =
    let p = record p0 { connection_count = p0.connection_count -ℤ 1 } in
    if is_zero p.connection_count then close_device p else (p, [])

abbrev with_no_action : Option RawMidiPeer → Option (RawMidiPeer × List Action)
with_no_action none = none
with_no_action (some p) = some (p, [])

-- `event`, whose base class only logs.
unfoldable pub event :
    PeerEvent → Option ℕ → Bool → RawMidiPeer → Option (RawMidiPeer × List Action)
unfolding connected disconnected
event connected_peer answer can_watch p = with_no_action (connected answer can_watch p)
event disconnected_peer answer can_watch p = some (disconnected p)
event connected_router answer can_watch p = some (p, [])
event disconnected_router answer can_watch p = some (p, [])

unfoldable pub send_midi : List ℕ → RawMidiPeer → List Action
send_midi midi p = elim p.fd [ none ↦ [] | some fd ↦ writes fd midi ∷ [] ]

abbrev sends : List (List ℕ) → List Action
sends [] = []
sends (m ∷ ms) = sends_midi m ∷ sends ms

-- `read_midi` of the bytes that came; of none, where nothing came or the read failed.
unfoldable pub read_midi : List ℕ → RawMidiPeer → RawMidiPeer × List Action
unfolding normalize_stream
read_midi bs p = elim p.fd [
  | none ↦ (p, [])
  | some fd ↦
      let (normalizer, packets) = normalize_stream p.midi_normalizer bs in
      (record p { midi_normalizer = normalizer }, sends packets)
]

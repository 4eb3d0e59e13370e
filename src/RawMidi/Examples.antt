-- ===== src/RawMidi/Examples.antt =====
-- A device that is open while it is used.
use rtpmidid.Common.{◌≡◌, refl, List, [], ◌∷◌, true, Option, some, none}
use rtpmidid.Common.Int.{pos}
use rtpmidid.Text.{codes}
use rtpmidid.Router.{connected_peer, disconnected_peer}
use rtpmidid.RawMidi.{
  RawMidiPeer, Action, sends_midi, stops_watching, closes, new_peer, event, read_midi, send_midi,
}

abbrev acted : Option (RawMidiPeer × List Action) → RawMidiPeer
acted none = new_peer []
acted (some r) = r.0

abbrev used : RawMidiPeer
used = record (new_peer (codes "/dev/snd/midiC1D0")) {
  fd = some 5;
  is_watched = true;
  connection_count = pos 1;
}

opened : event connected_peer (some 5) true (new_peer (codes "/dev/snd/midiC1D0")) ≡ some (used, [])
unfolding event
opened = refl

closed :
    event disconnected_peer none true used
    ≡ some (new_peer (codes "/dev/snd/midiC1D0"), stops_watching 5 ∷ closes 5 ∷ [])
unfolding event
closed = refl

read_two :
    (read_midi (0x90 ∷ 60 ∷ 100 ∷ 0xC0 ∷ 3 ∷ []) used).1
    ≡ sends_midi (0x90 ∷ 60 ∷ 100 ∷ []) ∷ sends_midi (0xC0 ∷ 3 ∷ []) ∷ []
unfolding read_midi
read_two = refl

closed_device_is_silent :
    send_midi (0x90 ∷ 60 ∷ 100 ∷ []) (new_peer (codes "/dev/snd/midiC1D0")) ≡ []
unfolding send_midi
closed_device_is_silent = refl

-- ===== src/AlsaPort.antt =====
-- src/local_alsa_peer.cpp, and the same code of src/local_alsa_listener.cpp: MIDI between the router and
-- one port of the sequencer. What the sequencer library answers is an argument.
pub mod Passed
mod Examples
use rtpmidid.Common.{
  ℕ, zero, suc, ◌+◌, List, [], ◌∷◌, ◌++◌, Bool, true, false, if◌then◌else◌, Option, none, some,
}
use rtpmidid.Bytes.{writer}
use rtpmidid.Router.{Router, MidiPeer, Call, send_midi}
use rtpmidid.Sequencer.{SeqEvent}
use rtpmidid.Sequencer.Midi.{
  Coder, Encoded, mididata_to_evs_f, Decoded, returns, throws, undefined, starved, ev_to_mididata_f,
}

-- The calls of the sequencer library, where an event is sent from a port.
pub data Output : Type 0 where
  outputs : ℕ → SeqEvent → Output
  drains drops_input drops_output : Output

abbrev pub drops_unless : Bool → List Output
drops_unless true = []
drops_unless false = drops_input ∷ drops_output ∷ []

-- The callback of `send_midi`. Of each of the two calls it is known whether it succeeds.
unfoldable pub output_event : Bool × Bool → ℕ → SeqEvent → List Output
output_event (output, drain) port ev =
    outputs port ev ∷ drops_unless output ++ (drains ∷ drops_unless drain)

abbrev pub output_all : (ℕ → Bool × Bool) → ℕ → ℕ → List SeqEvent → List Output
output_all answers n port [] = []
output_all answers n port (ev ∷ evs) =
    output_event (answers n) port ev ++ output_all answers (n + 1) port evs

abbrev pub outputs_of : (ℕ → Bool × Bool) → ℕ → Option Encoded → Option (List Output)
outputs_of answers port none = none
outputs_of answers port (some r) = some (output_all answers 0 port r.events)

-- `send_midi`, with the answers by the number of the event.
unfoldable pub send_to_port {ℓ} :
    {S : Type ℓ} → Coder S → (ℕ → Bool × Bool) → ℕ → List ℕ → Option (List Output)
unfolding output_event
send_to_port coder answers port midi = outputs_of answers port (mididata_to_evs_f coder midi)

-- `local_alsa_peer_t` counts what it is sent, as the router did before.
abbrev pub count_packet : MidiPeer → MidiPeer
count_packet p = record p { packets_recv = p.packets_recv + 1 }

-- What the callback of `ev_to_mididata_f` was given.
abbrev pub packets_of : Decoded → List (List ℕ)
packets_of (returns ps) = ps
packets_of (throws e ps) = ps
packets_of (undefined ps) = ps
packets_of starved = []

unfoldable pub pass_all : ℕ → List (List ℕ) → Router → Router × List Call
pass_all peer_id [] r = (r, [])
pass_all peer_id (p ∷ ps) r =
    let (r1, calls) = send_midi peer_id p r in
    let (r2, more) = pass_all peer_id ps r1 in (r2, calls ++ more)

-- The listener of the port's `midi_event`.
unfoldable pub port_event {ℓ} :
    {S : Type ℓ} → Coder S → List ℕ → SeqEvent → ℕ → Router → Router × List Call
unfolding pass_all
port_event coder older ev peer_id r =
    pass_all peer_id (packets_of (ev_to_mididata_f coder older ev (writer 1024))) r

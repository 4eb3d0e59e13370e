-- ===== src/AlsaPort/Examples.antt =====
-- A port that is sent two bytes, of which the library makes one event each.
use rtpmidid.Common.{ℕ, ◌≡◌, refl, List, [], ◌∷◌, ◌==◌, Bool, true, Option, none, some}
use rtpmidid.Router.{Router, midi_call, send_midi, send_midi_all, send_midi_to, find, change}
use rtpmidid.Daemon.Joined.{made}
use rtpmidid.Sequencer.{SeqEvent, other_event}
use rtpmidid.Sequencer.Midi.{Coder, mididata_to_evs_f, ev_to_mididata_f}
use rtpmidid.Sequencer.Encoding.{Coded}
use rtpmidid.AlsaPort.{
  Output, outputs, drains, drops_input, drops_output, send_to_port, output_event, port_event,
}
use rtpmidid.AlsaPort.Passed.{events_in, send_to_port-Coded}

abbrev each_byte : ℕ → List ℕ → ℕ × ℕ × SeqEvent
each_byte s [] = (s, 0, other_event 0)
each_byte s (x ∷ xs) = (s, 1, other_event x)

abbrev bytes_of : SeqEvent → Option (List ℕ)
bytes_of (other_event x) = some (x ∷ [])
bytes_of _ = none

abbrev coder : Coder ℕ
coder = record { reset_encode = 0; encode = each_byte; decode = λ room ev. bytes_of ev }

-- The second event is not taken.
abbrev answers : ℕ → Bool × Bool
answers n = (n == 0, true)

send_to_port-Coded_example :
    (os : List Output) × (left : List ℕ) × (send_to_port coder answers 4 (0xFA ∷ 0xF8 ∷ [])
      ≡ some os)
    × Coded coder 0 (0xFA ∷ 0xF8 ∷ []) (events_in os) left
send_to_port-Coded_example = send_to_port-Coded coder answers 4 (0xFA ∷ 0xF8 ∷ [])

second_refused :
    send_to_port coder answers 4 (0xFA ∷ 0xF8 ∷ [])
    ≡ some (
        outputs 4 (other_event 0xFA)
        ∷ drains
        ∷ outputs 4 (other_event 0xF8)
        ∷ drops_input
        ∷ drops_output
        ∷ drains
        ∷ [])
unfolding send_to_port mididata_to_evs_f output_event
second_refused = refl

abbrev router : Router
router = record { max_id = 3; peers = made 2 (1 ∷ []) ∷ made 1 (2 ∷ []) ∷ [] }

-- An event of the port of peer 1 goes to peer 2.
passed : (port_event coder [] (other_event 0xFA) 1 router).1 ≡ midi_call 2 1 (0xFA ∷ []) ∷ []
unfolding port_event ev_to_mididata_f send_midi send_midi_all send_midi_to find change
passed = refl

-- ===== src/AlsaPort/Passed.antt =====
-- src/local_alsa_peer.cpp: what goes from the router to the port, and back.
use rtpmidid.Common.{ℕ, ◌+◌, ◌≡◌, refl, ap, ◌∙◌, List, [], ◌∷◌, ◌++◌, Bool, true, false, some}
use rtpmidid.Router.{}
use rtpmidid.Sequencer.{SeqEvent}
use rtpmidid.Sequencer.Midi.{Coder}
use rtpmidid.Sequencer.Encoding.{Coded, mididata_to_evs_f-Coded}
use rtpmidid.AlsaPort.{
  Output, outputs, drains, drops_input, drops_output, output_event, output_all, outputs_of,
  send_to_port,
}

-- The events that the sequencer is given.
abbrev pub events_in : List Output → List SeqEvent
events_in [] = []
events_in (outputs port ev ∷ os) = ev ∷ events_in os
events_in (drains ∷ os) = events_in os
events_in (drops_input ∷ os) = events_in os
events_in (drops_output ∷ os) = events_in os

events_in-output_event :
    (output drain : Bool) (port : ℕ) (ev : SeqEvent) (os : List Output)
    → events_in (output_event (output, drain) port ev ++ os) ≡ ev ∷ events_in os
unfolding output_event
events_in-output_event true true port ev os = refl
events_in-output_event true false port ev os = refl
events_in-output_event false true port ev os = refl
events_in-output_event false false port ev os = refl

events_in-output_all :
    (answers : ℕ → Bool × Bool) (n port : ℕ) (evs : List SeqEvent)
    → events_in (output_all answers n port evs) ≡ evs
events_in-output_all answers n port [] = refl
events_in-output_all answers n port (ev ∷ evs) =
    events_in-output_event (answers n).0 (answers n).1 port ev (output_all answers (n + 1) port evs)
    ∙ ap (◌∷◌ ev) (events_in-output_all answers (n + 1) port evs)

-- MIDI that a port is sent goes to the sequencer as the events that its library makes of it, each once
-- and in order, whatever fails of what the sequencer is told: the function ends, and where it stops in
-- front of bytes, the library used none of them.
pub send_to_port-Coded {ℓ} :
    {S : Type ℓ} (coder : Coder S) (answers : ℕ → Bool × Bool) (port : ℕ) (midi : List ℕ)
    → (os : List Output) × (left : List ℕ) × (send_to_port coder answers port midi ≡ some os)
      × Coded coder coder.reset_encode midi (events_in os) left
unfolding send_to_port
send_to_port-Coded coder answers port midi =
    let (r, e, coded) = mididata_to_evs_f-Coded coder midi in
    let os = output_all answers 0 port r.events in
    (
      os,
      r.left,
      ap (outputs_of answers port) e,
      rw (events_in-output_all answers 0 port r.events) coded,
    )

-- ===== src/Sequencer/Examples.antt =====
-- Sequencer events turned into MIDI, and subscriptions.
use rtpmidid.Common.{
  ℕ, zero, suc, ◌+◌, ◌-◌, ◌%◌, ◌^◌, ◌<◌, ◌≡◌, refl, List, [], ◌∷◌, ◌++◌, length, All, replicate,
  false, Option, some, none, arith,
}
use rtpmidid.Bytes.{writer}
use rtpmidid.Text.{codes}
use rtpmidid.Peer.{Peer, Clock, create, midi_event}
use rtpmidid.Peer.Session.{deliver}
use rtpmidid.Peer.Parts.{rtp_each}
use rtpmidid.Sequencer.{
  SeqEvent, midi, port_subscribed, sysex, noteon, SeqPort, Sequencer, Clients, read_ready,
  subscribe_event, drop_connection,
}
use rtpmidid.Sequencer.Midi.{Coder, returns, ev_to_mididata_f}
use rtpmidid.Sequencer.Rejoined.{ev_to_mididata_f-rejoined}

abbrev keyboard : SeqPort
keyboard = record { client = 20; port = 0 }

abbrev exported : SeqPort
exported = record { client = 130; port = 2 }

abbrev event_bytes : SeqEvent → Option (List ℕ)
event_bytes (midi type source dest bs) = some bs
event_bytes _ = none

-- Three bytes make an event, fewer none.
abbrev three_bytes : ℕ → List ℕ → ℕ × ℕ × SeqEvent
three_bytes s (a ∷ b ∷ c ∷ rest) = (s, 3, midi noteon keyboard exported (a ∷ b ∷ c ∷ []))
three_bytes s bs = (s, 0, midi noteon keyboard exported [])

abbrev coder : Coder ℕ
coder = record { reset_encode = 0; encode = three_bytes; decode = λ room ev. event_bytes ev }

abbrev long_body : List ℕ
long_body = replicate 300 5

abbrev idle : Peer
idle = record (create (codes "studio") 7 9 (record { tv_sec = 6; tv_nsec = 0 })) {
  remote_ssrc = 0x1234;
}

abbrev noon : Clock
noon = record { tv_sec = 43200; tv_nsec = 0 }

long_body_low : All (λ b. b < 0x80) long_body
long_body_low = low 300
  where
    low : (n : ℕ) → All (λ b. b < 0x80) (replicate n 5)
    low zero = tt
    low (suc n) = (omega arith, low n)

-- The event goes out in two packets.
ev_to_mididata_f-rejoined_example :
    (packets : List (List ℕ)) × (ev_to_mididata_f coder []
        (midi sysex keyboard exported (0xF0 ∷ (long_body ++ 0xF7 ∷ [])))
        (writer 1024)
      ≡ returns packets)
    × (deliver noon idle (rtp_each (λ n. (20 + n) % 2 ^ 16) (λ n. 500) 0x1234 0 packets)
        ≡ some (
          record idle {
            remote_seq_nr = (20 + (length packets - 1)) % 2 ^ 16;
            running_status = 0;
            sysex = [];
          },
          midi_event (0xF0 ∷ (long_body ++ 0xF7 ∷ [])) ∷ [],
        ))
unfolding create
ev_to_mididata_f-rejoined_example =
    ev_to_mididata_f-rejoined coder [] long_body (0xF0 ∷ (long_body ++ 0xF7 ∷ [])) keyboard exported
      (writer 1024) noon idle (λ n. (20 + n) % 2 ^ 16) (λ n. 500) 0x1234 (omega arith) long_body_low
      refl (λ n. omega arith) (omega arith) refl refl

-- The kind of a subscription's two ports, whichever of them is the program's.
abbrev clients : Clients
clients = record {
  client_name = λ c. codes "Keys";
  port_name = λ p. codes "Keys";
  client_type = λ c. 2;
}

abbrev sequencer : Sequencer
sequencer = record { client_id = 130; midi_event = 2 ∷ [] }

subscribed_to_program :
    read_ready clients sequencer (port_subscribed keyboard exported ∷ [])
    ≡ subscribe_event 2 keyboard (codes "Keys") ∷ []
unfolding read_ready
subscribed_to_program = refl

-- A connection that was just made is dropped without a call.
connection_not_dropped :
    drop_connection 130 (record { from = exported; to = keyboard; connected = false })
    ≡ ([], record { from = exported; to = keyboard; connected = false })
unfolding drop_connection
connection_not_dropped = refl

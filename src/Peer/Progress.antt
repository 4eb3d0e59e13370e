-- ===== src/Peer/Progress.antt =====
-- lib/rtppeer.cpp: every round of the loop in `parse_midi` reads at least one byte.
use rtpmidid.Common.{
  ℕ, ◌+◌, ◌*◌, ◌%◌, ◌^◌, Bool-cases, inl, inr, ◌≤◌, ◌<◌, ◌≡◌, List, [], ◌∷◌, length, length-drop,
  arith,
}
use rtpmidid.Common.Bits.{test_bit}
use rtpmidid.Errors.{Result, ok, throw, fault}
use rtpmidid.Bytes.{Reader}
use rtpmidid.Peer.{Outcome, done, thrown, undefined, out_of_fuel, World}
use rtpmidid.Peer.Midi.{
  next_midi_packet_length, continue_sysex, parse_sysex, handle_command, midi_command, take_delta,
  read_delta_time,
}

-- The step ends, and does not move the position if it returns.
abbrev pub Stays {ℓ} : {A : Type ℓ} → Reader → Outcome A → Type 0
Stays b (done a w) = w.buffer ≡ b
Stays b (thrown e w) = Unit
Stays b undefined = Unit
Stays b out_of_fuel = ⊥

next_midi_packet_length-Stays : (w : World) → Stays w.buffer (next_midi_packet_length w)
unfolding next_midi_packet_length
next_midi_packet_length-Stays w = ground arith

continue_sysex-Stays : (last : ℕ) (w : World) → Stays w.buffer (continue_sysex last w)
unfolding continue_sysex
continue_sysex-Stays last w = ground arith

parse_sysex-Stays : (command : List ℕ) (w : World) → Stays w.buffer (parse_sysex command w)
unfolding parse_sysex
parse_sysex-Stays [] w = tt
parse_sysex-Stays (first ∷ command) w = grind (arith, continue_sysex-Stays)

handle_command-Stays : (n : ℕ) (w : World) → Stays w.buffer (handle_command n w)
unfolding handle_command
handle_command-Stays n w = grind (arith, parse_sysex-Stays)

-- The step ends, and leaves fewer bytes to read if it returns.
abbrev pub Shortens {ℓ} : {A : Type ℓ} → ℕ → Outcome A → Type 0
Shortens n (done a w) = length w.buffer.rest < n
Shortens n (thrown e w) = Unit
Shortens n undefined = Unit
Shortens n out_of_fuel = ⊥

pub midi_command-Shortens : (w : World) → Shortens (length w.buffer.rest) (midi_command w)
unfolding midi_command
midi_command-Shortens w =
    grind (arith, next_midi_packet_length-Stays, handle_command-Stays, length-drop)

abbrev pub ReadsSome {ℓ} : {A : Type ℓ} → ℕ → Result (A × Reader) → Type 0
ReadsSome n (ok (a, r)) = length r.rest < n
ReadsSome n (throw e) = Unit
ReadsSome n fault = Unit

ReadsSome-mono {ℓ} :
    {A : Type ℓ} (m n : ℕ) (r : Result (A × Reader)) → m ≤ n → ReadsSome m r → ReadsSome n r
ReadsSome-mono m n (ok (a, r)) le h = omega arith
ReadsSome-mono m n (throw e) le h = tt
ReadsSome-mono m n fault le h = tt

take_delta-ReadsSome :
    (s rest : List ℕ) (delta n : ℕ) → ReadsSome (length rest) (take_delta s rest delta n)
unfolding take_delta
take_delta-ReadsSome s [] delta n = tt
take_delta-ReadsSome s (b ∷ rest) delta n =
    let delta' = delta * 2 ^ 7 % 2 ^ 32 + b % 128 in
    elim (Bool-cases (test_bit b 7)) [
      | inl e ↦
          rw e
            (ReadsSome-mono _ _ _ (omega arith) (take_delta-ReadsSome (b ∷ s) rest delta' (n + 1)))
      | inr e ↦ rw e (omega arith)
    ]

pub read_delta_time-ReadsSome : (r : Reader) → ReadsSome (length r.rest) (read_delta_time r)
unfolding read_delta_time
read_delta_time-ReadsSome r = take_delta-ReadsSome r.seen r.rest 0 0

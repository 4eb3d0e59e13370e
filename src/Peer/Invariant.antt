-- ===== src/Peer/Invariant.antt =====
-- lib/rtppeer.cpp: what holds of a peer at all times.
use rtpmidid.Common.{ℕ, zero, suc, ◌≤◌, ◌<◌, ◌≡◌, List, [], ◌∷◌, length, arith, ◌⊎◌}
use rtpmidid.Common.Words.{IsU16, IsU32, IsU64}
use rtpmidid.Peer.{
  Peer, Port, midi_port, control_port, Clock, Outcome, done, thrown, undefined, out_of_fuel, World,
  call_with,
}
use rtpmidid.Common.Int.{ℤ}
use rtpmidid.Peer.Sending.{send_feedback}
use rtpmidid.Peer.Journal.{
  journal_note_ons, journal_bitmap, journal_note_offs, parse_journal_chapter_N,
  parse_journal_chapter, journal_channels, parse_journal,
}
use rtpmidid.Peer.Midi.{
  next_running_status, next_midi_packet_length, continue_sysex, parse_sysex, handle_command,
  midi_command, midi_list, journal_after, command_section, parse_midi,
}
use rtpmidid.Peer.Progress.{midi_command-Shortens, read_delta_time-ReadsSome}
use rtpmidid.Peer.Receive.{data_ready}
use rtpmidid.Peer.Commands.{
  parse_command_by, parse_command_in, parse_command_ok, parse_command_no, answer_ck0, answer_ck1,
  finish_ck2, parse_command_ck, parse_command, run_command, parse_feedback,
}

-- A peer's own status is one of the four combinations of the two ports, its numbers fit their C++
-- types, and the running status is 0 or the status byte of a voice message.
pub record IsValid (p : Peer) : Type 0 where
  pub status_bits : p.status ≤ 3
  pub initiator : IsU32 p.initiator_id
  pub remote : IsU32 p.remote_ssrc
  pub ack : IsU16 p.seq_nr_ack
  pub seq : IsU16 p.seq_nr
  pub remote_seq : IsU16 p.remote_seq_nr
  pub latency_width : IsU64 p.latency
  pub voice : (p.running_status ≡ 0) ⊎ ((0x80 ≤ p.running_status) × (p.running_status < 0xF0))

-- The method ends, and this holds of the peer that it leaves, whether it returned or threw.
abbrev pub Leaves {ℓ} : {A : Type ℓ} → (Peer → Type 0) → Outcome A → Type 0
Leaves I (done a w) = I w.peer
Leaves I (thrown e w) = I w.peer
Leaves I undefined = Unit
Leaves I out_of_fuel = ⊥

by-IsValid : (port : Port) (w : World) → IsValid w.peer → Leaves IsValid (parse_command_by port w)
unfolding parse_command_by
by-IsValid midi_port w v = ground arith
by-IsValid control_port w v = ground arith

no-IsValid : (port : Port) (w : World) → IsValid w.peer → Leaves IsValid (parse_command_no port w)
unfolding parse_command_no
no-IsValid midi_port w v = ground arith
no-IsValid control_port w v = ground arith

ok-IsValid : (port : Port) (w : World) → IsValid w.peer → Leaves IsValid (parse_command_ok port w)
unfolding parse_command_ok
ok-IsValid midi_port w v = ground arith
ok-IsValid control_port w v = ground arith

in-IsValid : (port : Port) (w : World) → IsValid w.peer → Leaves IsValid (parse_command_in port w)
unfolding parse_command_in
in-IsValid midi_port w v = ground arith
in-IsValid control_port w v = ground arith

ck0-IsValid :
    (c : Clock) (ck1 : ℕ) (port : Port) (w : World)
    → IsValid w.peer
    → Leaves IsValid (answer_ck0 c ck1 port w)
unfolding answer_ck0
ck0-IsValid c ck1 port w v = ground arith

ck1-IsValid :
    (c : Clock) (ck1 : ℕ) (port : Port) (w : World)
    → IsValid w.peer
    → Leaves IsValid (answer_ck1 c ck1 port w)
unfolding answer_ck1
ck1-IsValid c ck1 port w v = ground arith

ck2-IsValid : (c : Clock) (w : World) → IsValid w.peer → Leaves IsValid (finish_ck2 c w)
unfolding finish_ck2
ck2-IsValid c w v = ground arith

ck-IsValid :
    (c : Clock) (port : Port) (w : World)
    → IsValid w.peer
    → Leaves IsValid (parse_command_ck c port w)
unfolding parse_command_ck
ck-IsValid c port w v = grind (arith, ck0-IsValid, ck1-IsValid, ck2-IsValid)

run_command-IsValid :
    (c : Clock) (port : Port) (command : ℕ) (w : World)
    → IsValid w.peer
    → Leaves IsValid (run_command c port command w)
unfolding run_command
run_command-IsValid c port command w v =
    grind (arith, ok-IsValid, in-IsValid, ck-IsValid, by-IsValid, no-IsValid)

parse_command-IsValid :
    (c : Clock) (port : Port) (w : World) → IsValid w.peer → Leaves IsValid (parse_command c port w)
unfolding parse_command
parse_command-IsValid c port w v = grind (arith, run_command-IsValid)

feedback-IsValid : (w : World) → IsValid w.peer → Leaves IsValid (parse_feedback w)
unfolding parse_feedback
feedback-IsValid w v = ground arith

note_ons-IsValid :
    (n channel : ℕ) (w : World) → IsValid w.peer → Leaves IsValid (journal_note_ons n channel w)
unfolding journal_note_ons
note_ons-IsValid zero channel w v = v
note_ons-IsValid (suc n) channel w v = grind (arith, note_ons-IsValid n)

bitmap-IsValid :
    (n bitmap channel minnote : ℕ) (w : World)
    → IsValid w.peer
    → Leaves IsValid (journal_bitmap n bitmap channel minnote w)
unfolding journal_bitmap
bitmap-IsValid zero bitmap channel minnote w v = v
bitmap-IsValid (suc n) bitmap channel minnote w v = grind (arith, bitmap-IsValid n)

note_offs-IsValid :
    (n i channel : ℕ) (w : World)
    → IsValid w.peer
    → Leaves IsValid (journal_note_offs n i channel w)
unfolding journal_note_offs
note_offs-IsValid zero i channel w v = v
note_offs-IsValid (suc n) i channel w v = grind (arith, bitmap-IsValid, note_offs-IsValid n)

chapter_N-IsValid :
    (channel : ℕ) (w : World) → IsValid w.peer → Leaves IsValid (parse_journal_chapter_N channel w)
unfolding parse_journal_chapter_N
chapter_N-IsValid channel w v = grind (arith, note_ons-IsValid, note_offs-IsValid)

chapter-IsValid : (w : World) → IsValid w.peer → Leaves IsValid (parse_journal_chapter w)
unfolding parse_journal_chapter
chapter-IsValid w v = grind (arith, chapter_N-IsValid)

channels-IsValid : (n : ℕ) (w : World) → IsValid w.peer → Leaves IsValid (journal_channels n w)
unfolding journal_channels
channels-IsValid zero w v = v
channels-IsValid (suc n) w v = grind (arith, chapter-IsValid, channels-IsValid n)

send_feedback-IsValid :
    (seqnum : ℕ) (w : World) → IsValid w.peer → Leaves IsValid (send_feedback seqnum w)
unfolding send_feedback
send_feedback-IsValid seqnum w v = ground arith

journal-IsValid : (w : World) → IsValid w.peer → Leaves IsValid (parse_journal w)
unfolding parse_journal
journal-IsValid w v = grind (arith, channels-IsValid, send_feedback-IsValid)

next_running_status-voice :
    (byte running : ℕ)
    → (running ≡ 0) ⊎ ((0x80 ≤ running) × (running < 0xF0))
    → (next_running_status byte running ≡ 0)
      ⊎ ((0x80 ≤ next_running_status byte running) × (next_running_status byte running < 0xF0))
unfolding next_running_status
next_running_status-voice byte running v = ground arith

length-IsValid : (w : World) → IsValid w.peer → Leaves IsValid (next_midi_packet_length w)
unfolding next_midi_packet_length
length-IsValid w v = grind (arith, next_running_status-voice)

continue_sysex-IsValid :
    (last : ℕ) (w : World) → IsValid w.peer → Leaves IsValid (continue_sysex last w)
unfolding continue_sysex
continue_sysex-IsValid last w v = ground arith

sysex-IsValid :
    (command : List ℕ) (w : World) → IsValid w.peer → Leaves IsValid (parse_sysex command w)
unfolding parse_sysex
sysex-IsValid [] w v = tt
sysex-IsValid (first ∷ command) w v = grind (arith, continue_sysex-IsValid)

handle_command-IsValid : (n : ℕ) (w : World) → IsValid w.peer → Leaves IsValid (handle_command n w)
unfolding handle_command
handle_command-IsValid n w v = grind (arith, sysex-IsValid)

midi_command-IsValid : (w : World) → IsValid w.peer → Leaves IsValid (midi_command w)
unfolding midi_command
midi_command-IsValid w v = grind (arith, length-IsValid, handle_command-IsValid)

midi_list-IsValid :
    (fuel : ℕ) (remaining : ℤ) (w : World)
    → length w.buffer.rest < fuel
    → IsValid w.peer
    → Leaves IsValid (midi_list fuel remaining w)
unfolding midi_list
midi_list-IsValid zero remaining w h v = absurd (omega arith)
midi_list-IsValid (suc fuel) remaining w h v = grind (
  arith,
  midi_command-IsValid,
  midi_command-Shortens,
  read_delta_time-ReadsSome,
  midi_list-IsValid fuel,
)

journal_after-IsValid : (n : ℕ) (w : World) → IsValid w.peer → Leaves IsValid (journal_after n w)
unfolding journal_after
journal_after-IsValid n w v = grind (arith, journal-IsValid)

section-IsValid : (w : World) → IsValid w.peer → Leaves IsValid (command_section w)
unfolding command_section
section-IsValid w v = grind (arith, journal_after-IsValid, midi_list-IsValid)

midi-IsValid : (w : World) → IsValid w.peer → Leaves IsValid (parse_midi w)
unfolding parse_midi
midi-IsValid w v = grind (arith, section-IsValid)

-- The handling of a datagram, at either port and whatever its bytes are, has fuel enough, and leaves
-- a valid peer valid, both where it returns and where it throws (where its behaviour is undefined
-- there is no peer to speak of).
pub data_ready-IsValid :
    (c : Clock) (port : Port) (p : Peer) (packet : List ℕ)
    → IsValid p
    → Leaves IsValid (call_with (data_ready c port) p packet)
unfolding data_ready
data_ready-IsValid c midi_port p packet v = grind (arith, parse_command-IsValid, midi-IsValid)
data_ready-IsValid c control_port p packet v =
    grind (arith, parse_command-IsValid, feedback-IsValid)

-- ===== src/Normalizer.antt =====
-- src/midi_normalizer.hpp and src/midi_normalizer.cpp: a stream of MIDI bytes cut into messages.
-- The callback's packets are the list that a call returns, in order.
pub mod Messages
pub mod Stall
mod Examples
use rtpmidid.Common.{
  ℕ, zero, suc, ◌+◌, ◌-◌, ◌*◌, ◌/◌, ◌%◌, List, [], ◌∷◌, ◌++◌, length, ◌==◌, if◌then◌else◌, ◌||◌,
}
use rtpmidid.Common.Bits.{high_nibble}

-- `waiting_for_size`: -1 is unknown, 0 is SysEx (until byte F7), and 2 or 3 is a packet's size.
pub data Waiting : Type 0 where
  unknown sysex : Waiting
  sized : ℕ → Waiting

pub record Normalizer : Type 0 where
  pub m_buffer : List ℕ
  pub waiting_for_size : Waiting

abbrev pub initial : Normalizer
initial = record { m_buffer = []; waiting_for_size = unknown }

unfoldable pub get_size_for_midi_command : ℕ → Waiting
get_size_for_midi_command byte =
    let h = high_nibble byte in
    if h == 0xF0
    then (if byte == 0xF0 then sysex else unknown)
    else if h == 0x80 || h == 0x90 || h == 0xA0 || h == 0xB0 || h == 0xE0
    then sized 3
    else if h == 0xC0 || h == 0xD0
    then sized 2
    else unknown

-- The branch of `parse_midi_byte` after the byte was pushed to the buffer.
on_byte : Waiting → List ℕ → ℕ → Normalizer × List (List ℕ)
on_byte unknown buffer byte =
    (record { m_buffer = buffer; waiting_for_size = get_size_for_midi_command byte }, [])
on_byte sysex buffer byte =
    if byte == 0xF7
    then (initial, buffer ∷ [])
    else (record { m_buffer = buffer; waiting_for_size = sysex }, [])
on_byte (sized n) buffer byte =
    if length buffer == n
    then (initial, buffer ∷ [])
    else (record { m_buffer = buffer; waiting_for_size = sized n }, [])

unfoldable pub parse_midi_byte : Normalizer → ℕ → Normalizer × List (List ℕ)
unfolding on_byte get_size_for_midi_command
parse_midi_byte s byte = on_byte s.waiting_for_size (s.m_buffer ++ byte ∷ []) byte

-- The loop over the packet's bytes.
unfoldable pub normalize_stream : Normalizer → List ℕ → Normalizer × List (List ℕ)
unfolding parse_midi_byte
normalize_stream s [] = (s, [])
normalize_stream s (byte ∷ packet) =
    let (s1, out1) = parse_midi_byte s byte in
    let (s2, out2) = normalize_stream s1 packet in (s2, out1 ++ out2)

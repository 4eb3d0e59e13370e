-- ===== src/Peer/Midi.antt =====
-- lib/rtppeer.cpp: the MIDI command section of an RTP packet, and SysEx messages in parts.
use rtpmidid.Common.{
  ℕ, zero, suc, ◌+◌, ◌-◌, ◌*◌, ◌/◌, ◌%◌, ◌^◌, List, [], ◌∷◌, ◌++◌, Bool, true, false, ◌==◌, leb,
  ltb, ◌&&◌, ◌||◌, not, if◌then◌else◌, length, take, drop,
}
use rtpmidid.Common
use rtpmidid.Common.Bits.{test_bit, high_nibble}
use rtpmidid.Common.Int.{ℤ, pos, negsuc, ◌-ℤ◌}
use rtpmidid.Bytes.{Reader, read_uint8, read_uint16, read_uint32, skip, check_enough}
use rtpmidid.Errors.{Result, ok, throw, fault, end_of_buffer, bad_midi_packet, bad_sysex}
use rtpmidid.Peer.{
  Outcome, done, undefined, out_of_fuel, M, ◌>>=◌, ◌>>◌, pure, raise, choose, guard, get_peer,
  modify, emit, lift, read, get_buffer, set_buffer, midi_event,
}
use rtpmidid.Peer.Journal.{parse_journal}

-- How a first byte changes the running status.
unfoldable pub next_running_status : ℕ → ℕ → ℕ
next_running_status byte running =
    if leb 0xF0 byte && leb byte 0xF7
    then 0
    else if leb 0x80 byte && ltb byte 0xF0
    then byte
    else running

-- The first switch, for a command that starts with its status byte; 0 for the system messages.
unfoldable pub voice_length : ℕ → ℕ
voice_length status =
    let h = high_nibble status in
    if h == 0x80 || h == 0x90 || h == 0xA0 || h == 0xB0 || h == 0xE0
    then 3
    else if h == 0xC0 || h == 0xD0
    then 2
    else 0

-- The bytes behind a SysEx start, up to the next one with its top bit set. The first of them is
-- read before the end is tested.
unfoldable pub sysex_length : ℕ → List ℕ → Result ℕ
sysex_length n [] = fault
sysex_length n (x ∷ []) = if test_bit x 7 then ok n else throw bad_midi_packet
sysex_length n (x ∷ y ∷ rest) = if test_bit x 7 then ok n else sysex_length (n + 1) (y ∷ rest)

-- A result of a step that counts, as the signed `length` of the source.
abbrev counted : Result ℕ → Result ℤ
counted (ok n) = ok (pos n)
counted (throw e) = throw e
counted fault = fault

-- The second switch, where the first has left 0, or -1 for a command without its status byte.
unfoldable pub system_length : ℕ → Bool → List ℕ → Result ℤ
unfolding sysex_length
system_length status abbreviated tail =
    if status == 0xF6
      || status == 0xF8
      || status == 0xF9
      || status == 0xFA
      || status == 0xFB
      || status == 0xFC
      || status == 0xFE
      || status == 0xFF
    then ok (pos 1)
    else if status == 0xF1 || status == 0xF3
    then ok (pos 2)
    else if status == 0xF2
    then ok (pos 3)
    else if status == 0xF0 || status == 0xF7 || status == 0xF4
    then counted (sysex_length 2 tail)
    else ok (if abbreviated then negsuc 0 else pos 0)

unfoldable pub packet_length : ℕ → Bool → List ℕ → Result ℤ
unfolding voice_length system_length
packet_length status abbreviated tail =
    let n = voice_length status in
    if ltb 0 n
    then ok (pos (if abbreviated then n - 1 else n))
    else system_length status abbreviated tail

-- `*buffer.position`, behind a check that a byte is there.
abbrev pub peek : M ℕ
peek w = elim w.buffer.rest [ [] ↦ Outcome.thrown end_of_buffer w | b ∷ rest ↦ done b w ]

unfoldable pub next_midi_packet_length : M ℤ
next_midi_packet_length = do
  byte ← peek
  p ← get_peer
  modify (λ p. record p { running_status = next_running_status byte p.running_status })
  r ← get_buffer
  lift (
      packet_length (if ltb byte 0x80 then p.running_status else byte) (ltb byte 0x80)
        (drop 1 r.rest))

unfoldable pub take_delta : List ℕ → List ℕ → ℕ → ℕ → Result ((ℕ × ℕ) × Reader)
take_delta s [] delta n = throw end_of_buffer
take_delta s (b ∷ rest) delta n =
    let delta' = delta * 2 ^ 7 % 2 ^ 32 + b % 128 in
    if test_bit b 7
    then take_delta (b ∷ s) rest delta' (n + 1)
    else ok ((n + 1, delta'), record { seen = b ∷ s; rest = rest })

-- The number of bytes read, and the delta time.
unfoldable pub read_delta_time : Reader → Result ((ℕ × ℕ) × Reader)
unfolding take_delta
read_delta_time r = take_delta r.seen r.rest 0 0

abbrev pub is_empty : List ℕ → Bool
is_empty [] = true
is_empty (x ∷ xs) = false

abbrev pub last_byte : List ℕ → ℕ
last_byte [] = 0
last_byte (x ∷ []) = x
last_byte (x ∷ y ∷ rest) = last_byte (y ∷ rest)

-- All but the last byte.
abbrev pub front : List ℕ → List ℕ
front [] = []
front (x ∷ []) = []
front (x ∷ y ∷ rest) = x ∷ front (y ∷ rest)

abbrev set_sysex : List ℕ → M (Unit {0})
set_sysex bs = modify (λ p. record p { sysex = bs })

-- A further part, once its bytes between the first and the last are in `sysex`.
unfoldable pub continue_sysex : ℕ → M (Unit {0})
continue_sysex last = do
  p ← get_peer
  choose (last == 0xF7)
      (do
        let full = p.sysex ++ 0xF7 ∷ []
        choose (length full == 3) (pure tt) (emit (midi_event (drop 1 full)))
        set_sysex [])
      (choose (last == 0xF4) (set_sysex []) (choose (last == 0xF0) (pure tt) (raise bad_sysex)))

-- A first part is kept with the byte in front of it, and without its last byte.
abbrev start_sysex : List ℕ → List ℕ → M (Unit {0})
start_sysex [] command w = undefined
start_sysex (before ∷ seen) command w = set_sysex (before ∷ front command) w

-- `command` is the bytes from the position on, as many as the command's length.
unfoldable pub parse_sysex : List ℕ → M (Unit {0})
parse_sysex [] = λ w. undefined
parse_sysex (first ∷ command) = do
  p ← get_peer
  choose (not (is_empty p.sysex))
      (do
        guard (first == 0xF7) bad_sysex
        modify (λ p. record p { sysex = p.sysex ++ front command })
        continue_sysex (last_byte (first ∷ command)))
      (choose (first == 0xF0)
        (do
          r ← get_buffer
          choose (last_byte (first ∷ command) == 0xF7) (emit (midi_event (first ∷ command)))
              (start_sysex r.seen (first ∷ command)))
        (pure tt))

-- One command of `n` bytes at the position. `int16_t(length)` is negative for 2^15 bytes and more,
-- which are more than a datagram buffer of the program holds: the bytes in front of the command
-- that `parse_sysex` would then take are left out of the model.
unfoldable pub handle_command : ℕ → M (Unit {0})
handle_command n = do
  r ← get_buffer
  byte ← peek
  p ← get_peer
  choose (not (is_empty p.sysex) || byte == 0xF0)
      (choose (ltb n (2 ^ 15)) (parse_sysex (take n r.rest)) (λ w. undefined))
      (choose (ltb byte 0x80 && ltb 0 p.running_status)
        (emit (midi_event (p.running_status ∷ take n r.rest))) (emit (midi_event (take n r.rest))))

-- A length of 0 throws. A negative one wraps in `check_enough(size_t)`, which it passes, and makes
-- an event of 2^32 - 1 bytes that begins in the buffer: its behaviour is undefined.
abbrev command_length : ℤ → M ℕ
command_length (pos zero) w = Outcome.thrown bad_midi_packet w
command_length (pos (suc n)) w = done (suc n) w
command_length (negsuc n) w = undefined

-- One round of the loop up to the delta time; it returns the command's length.
unfoldable pub midi_command : M ℕ
unfolding check_enough skip
midi_command = do
  signed ← next_midi_packet_length
  n ← command_length signed
  r ← get_buffer
  checked ← lift (check_enough n r)
  handle_command n
  r ← get_buffer
  r ← lift (skip n r)
  set_buffer r
  pure n

abbrev pub is_zero : ℤ → Bool
is_zero (pos zero) = true
is_zero (pos (suc n)) = false
is_zero (negsuc n) = false

-- `while (remaining)`, on fuel. `remaining` is signed, and below 0 the loop goes on.
unfoldable pub midi_list : ℕ → ℤ → M (Unit {0})
midi_list zero remaining = λ w. out_of_fuel
midi_list (suc fuel) remaining = choose (is_zero remaining) (pure tt) (do
  n ← midi_command
  let left = remaining -ℤ n
  choose (is_zero left) (pure tt)
      (do delta ← read read_delta_time; midi_list fuel (left -ℤ delta.0)))

-- The journal is read from a copy of the buffer that starts behind the command section.
unfoldable pub journal_after : ℕ → M (Unit {0})
unfolding skip
journal_after length = do
  r ← get_buffer
  j ← lift (skip length r)
  set_buffer j
  parse_journal
  set_buffer r

-- The command section: its flags and length, the journal, and the commands.
unfoldable pub command_section : M (Unit {0})
unfolding read_uint8 check_enough
command_section = do
  header ← read read_uint8
  length ←
      choose (test_bit header 7) (do low ← read read_uint8; pure (header % 16 * 256 + low))
        (pure (header % 16))
  r ← get_buffer
  checked ← lift (check_enough length r)
  choose (test_bit header 6) (journal_after length) (pure tt)
  remaining ←
      choose (test_bit header 5) (do delta ← read read_delta_time; pure (pos length -ℤ delta.0))
        (pure (pos length))
  modify (λ p. record p { running_status = 0 })
  r ← get_buffer
  midi_list (suc (Common.length r.rest)) remaining

unfoldable pub parse_midi : M (Unit {0})
unfolding read_uint8 read_uint16 read_uint32
parse_midi = do
  flags ← read read_uint8
  id ← read read_uint8
  choose (id % 128 == 0x61)
      (do
        seq ← read read_uint16
        modify (λ p. record p { remote_seq_nr = seq })
        timestamp ← read read_uint32
        ssrc ← read read_uint32
        p ← get_peer
        choose (ssrc == p.remote_ssrc) command_section (pure tt))
      (pure tt)

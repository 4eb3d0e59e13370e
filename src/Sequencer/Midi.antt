-- ===== src/Sequencer/Midi.antt =====
-- src/aseq.cpp: mididata_to_alsaevents_t, between MIDI bytes and sequencer events.
use rtpmidid.Common.{
  ℕ, zero, suc, ◌+◌, ◌-◌, List, [], ◌∷◌, ◌++◌, length, drop, Bool, true, false, ltb, leb, ◌==◌,
  if◌then◌else◌, Option, none, some,
}
use rtpmidid.Errors.{Error, Result, ok, throw, fault, ◌>>=◌}
use rtpmidid.Bytes.{Reader, forward, Writer, writer, write_uint8, copy_from_count}
use rtpmidid.Sequencer.{SeqEvent, midi, sysex}

-- The sequencer library's coder. `encode` has a state; it gives the bytes that it used, where 0 stands
-- for a failure too, and the event. `decode` is told how many bytes there is room for.
pub record Coder {ℓ} (S : Type ℓ) : Type ℓ where
  pub reset_encode : S
  pub encode : S → List ℕ → S × ℕ × SeqEvent
  pub decode : ℕ → SeqEvent → Option (List ℕ)

-- The events passed to the callback, and the bytes that are left where the library used none.
pub record Encoded : Type 0 where
  pub events : List SeqEvent
  pub left : List ℕ

abbrev pub then_event : SeqEvent → Option Encoded → Option Encoded
then_event ev none = none
then_event ev (some r) = some (record r { events = ev ∷ r.events })

-- The loop of `mididata_to_evs_f` over the bytes from the position on; `none` is a lack of fuel.
unfoldable pub encode_loop {ℓ} : {S : Type ℓ} → Coder S → ℕ → S → List ℕ → Option Encoded
encode_loop coder n s [] = some (record { events = []; left = [] })
encode_loop coder zero s (x ∷ xs) = none
encode_loop coder (suc n) s (x ∷ xs) =
    let (s', used, ev) = coder.encode s (x ∷ xs) in
    let rest = encode_loop coder n s' (drop used (x ∷ xs)) in
    if used == 0 then some (record { events = []; left = x ∷ xs }) else then_event ev rest

unfoldable pub mididata_to_evs_f {ℓ} : {S : Type ℓ} → Coder S → List ℕ → Option Encoded
unfolding encode_loop
mididata_to_evs_f coder bs = encode_loop coder (length bs) coder.reset_encode bs

-- What the callback is given, and how the function ends.
pub data Decoded : Type 0 where
  returns : List (List ℕ) → Decoded
  throws : Error → List (List ℕ) → Decoded
  undefined : List (List ℕ) → Decoded
  starved : Decoded

abbrev pub then_packet : List ℕ → Decoded → Decoded
then_packet p (returns ps) = returns (p ∷ ps)
then_packet p (throws e ps) = throws e (p ∷ ps)
then_packet p (undefined ps) = undefined (p ∷ ps)
then_packet p starved = starved

-- One packet of a SysEx of `total` bytes, with its first byte, and the buffer to go on with if it is
-- not the last. A negative `bytes_left` is a count that no check stops.
unfoldable pub packet_of : ℕ → ℕ → Reader → Result (List ℕ × Option Reader)
unfolding write_uint8 copy_from_count
packet_of first total d =
    let position = length d.seen in
    write_uint8 first (writer 258) >>= λ w1.
    (if ltb total (position + 1)
      then fault
      else if leb (total - position - 1) 256
      then (copy_from_count d (total - position - 1) w1 >>= λ w2.
          write_uint8 0xF7 w2 >>= λ w3. ok (w3.written, none))
      else (copy_from_count d 256 w1 >>= λ w2.
          write_uint8 0xF0 w2 >>= λ w3. ok (w3.written, some (forward 256 d))))

abbrev pub sysex_packet : Bool → ℕ → Reader → Result (List ℕ × Option Reader)
sysex_packet start total decode_buffer =
    packet_of (if start then 0xF0 else 0xF7) total
      (if start then forward 1 decode_buffer else decode_buffer)

abbrev pub go_on : Result (List ℕ × Option Reader) → (Reader → Decoded) → Decoded
go_on (throw e) next = throws e []
go_on fault next = undefined []
go_on (ok (packet, none)) next = returns (packet ∷ [])
go_on (ok (packet, some d)) next = then_packet packet (next d)

unfoldable pub sysex_loop : ℕ → Bool → ℕ → Reader → Decoded
unfolding packet_of
sysex_loop zero start total d = starved
sysex_loop (suc n) start total d = go_on (sysex_packet start total d) (sysex_loop n false total)

-- The buffer that the decoder has, with the bytes of the event in front of older ones. It has room
-- for 65536 bytes, which nothing checks.
unfoldable pub decode_sysex : List ℕ → Option (List ℕ) → Decoded
decode_sysex older none = returns []
decode_sysex older (some content) =
    if ltb 65536 (length content)
    then undefined []
    else sysex_loop (suc (length content)) true (length content)
        (record { seen = []; rest = content ++ drop (length content) older })

unfoldable decode_other : Writer → Option (List ℕ) → Decoded
decode_other data_writer none = returns []
decode_other data_writer (some bs) = returns ((data_writer.written ++ bs) ∷ [])

-- `older` is what the 65536 bytes of the decode buffer hold before the call.
unfoldable pub ev_to_mididata_f {ℓ} : {S : Type ℓ} → Coder S → List ℕ → SeqEvent → Writer → Decoded
unfolding decode_other
ev_to_mididata_f coder older (midi sysex source dest bs) w =
    decode_sysex older (coder.decode (length bs) (midi sysex source dest bs))
ev_to_mididata_f coder older ev w = decode_other w (coder.decode w.room ev)

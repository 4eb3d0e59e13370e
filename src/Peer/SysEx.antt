-- ===== src/Peer/SysEx.antt =====
-- lib/rtppeer.cpp: a part of a SysEx message, at parse_sysex and in the loop over a command section.
use rtpmidid.Common.{
  ℕ, suc, ◌+◌, ◌^◌, ◌≤◌, ◌<◌, ◌≡◌, ◌≢◌, refl, ap, List, [], ◌∷◌, ◌++◌, length, length-append, arith,
  ◌==◌, ltb, leb, le→leb, true, false, append_assoc, All, take_all, some,
}
use rtpmidid.Common.Bits.{test_bit}
use rtpmidid.Common.Int.{pos}
use rtpmidid.Errors.{ok}
use native.Mathlib.Nat.{le_refl}
use rtpmidid.Peer.{Peer, World, done, Signal, midi_event, returned}
use rtpmidid.Peer.Delivery.{sysex_running, spent}
use rtpmidid.Peer.Midi.{
  parse_sysex, continue_sysex, last_byte, front, is_empty, sysex_length, midi_list, midi_command,
  next_midi_packet_length, packet_length, handle_command, next_running_status,
}

pub last_byte_lem : (x y : ℕ) (body : List ℕ) → last_byte (x ∷ (body ++ y ∷ [])) ≡ y
last_byte_lem x y [] = refl
last_byte_lem x y (z ∷ body) = last_byte_lem z y body

front_lem : (y : ℕ) (body : List ℕ) → front (body ++ y ∷ []) ≡ body
front_lem y [] = refl
front_lem y (x ∷ []) = refl
front_lem y (x ∷ z ∷ body) = ap (◌∷◌ x) (front_lem y (z ∷ body))

abbrev open_sysex : World → List ℕ → World
open_sysex w bs = record w { peer = record w.peer { sysex = bs } }

pub first_part :
    (w : World) (before : ℕ) (seen body : List ℕ)
    → w.peer.sysex ≡ []
    → w.buffer.seen ≡ before ∷ seen
    → parse_sysex (0xF0 ∷ (body ++ 0xF0 ∷ [])) w ≡ done tt (open_sysex w (before ∷ 0xF0 ∷ body))
unfolding parse_sysex
first_part w before seen body e b =
    let closed : is_empty w.peer.sysex ≡ true = rw e refl in
    rw (closed, b, last_byte_lem, front_lem 0xF0 (0xF0 ∷ body))

pub middle_part :
    (w : World) (x : ℕ) (xs body : List ℕ)
    → w.peer.sysex ≡ x ∷ xs
    → parse_sysex (0xF7 ∷ (body ++ 0xF0 ∷ [])) w ≡ done tt (open_sysex w (w.peer.sysex ++ body))
unfolding parse_sysex continue_sysex
middle_part w x xs body e =
    let open_one : is_empty w.peer.sysex ≡ false = rw e refl in
    rw (open_one, last_byte_lem, front_lem)

pub last_part :
    (w : World) (x : ℕ) (xs body : List ℕ)
    → w.peer.sysex ≡ x ∷ xs
    → length (xs ++ body) ≢ 1
    → parse_sysex (0xF7 ∷ (body ++ 0xF7 ∷ [])) w
      ≡ done tt (record w {
        peer = record w.peer { sysex = [] };
        events = w.events ++ midi_event (xs ++ (body ++ 0xF7 ∷ [])) ∷ [];
      })
unfolding parse_sysex continue_sysex
last_part w x xs body e h =
    let open_one : is_empty w.peer.sysex ≡ false = rw e refl in
    let size : length (((x ∷ xs) ++ body) ++ 0xF7 ∷ []) ≡ suc (length (xs ++ body)) + 1 =
      length-append ((x ∷ xs) ++ body) (0xF7 ∷ []) in
    let full : (suc (length (xs ++ body)) + 1 == 3) ≡ false = ground arith in
    rw (open_one, last_byte_lem, front_lem, e, size, full) (rw append_assoc)

-- The data of a part: bytes below 0x80, which fit a packet with the two bytes around them.
abbrev pub IsPart : List ℕ → Type 0
IsPart body = All (λ b. b < 0x80) body × (length body ≤ 4093)

sysex_length_end :
    (n last : ℕ) (body : List ℕ)
    → test_bit last 7 ≡ true
    → All (λ b. b < 0x80) body
    → sysex_length n (body ++ last ∷ []) ≡ ok (n + length body)
unfolding sysex_length
sysex_length_end n last [] e h = rw e (ap ok (omega arith))
sysex_length_end n last (x ∷ []) e h = ground arith
sysex_length_end n last (x ∷ y ∷ body) e h =
    ground (arith, sysex_length_end (n + 1) last (y ∷ body) e h.1)

-- A command section with nothing but a first part, or a further part while a SysEx is open: it goes to
-- `parse_sysex` whole.
abbrev pub section : Peer → List ℕ → List ℕ → World
section p seen events = record {
  peer = p;
  buffer = record { seen = seen; rest = events };
  events = [];
}

pub midi_list_start :
    (f : ℕ) (p : Peer) (seen body : List ℕ) (last : ℕ) (p' : Peer) (out : List Signal)
    → test_bit last 7 ≡ true
    → IsPart body
    → p.sysex ≡ []
    → parse_sysex
        (0xF0 ∷ (body ++ last ∷ []))
        (section (record p { running_status = 0 }) seen (0xF0 ∷ (body ++ last ∷ [])))
      ≡ done tt (record (section p' seen (0xF0 ∷ (body ++ last ∷ []))) { events = out })
    → returned (
        midi_list
          (suc f)
          (pos (length (0xF0 ∷ (body ++ last ∷ []))))
          (section p seen (0xF0 ∷ (body ++ last ∷ []))))
      ≡ some (p', out)
unfolding midi_list midi_command next_midi_packet_length packet_length handle_command
midi_list_start f p seen body last p' out top part closed parsed =
    let closed' : is_empty p.sysex ≡ true = rw closed refl in
    let n = length (body ++ last ∷ []) in
    let count : 2 + length body ≡ suc n = omega (arith, length-append body (last ∷ [])) in
    let short : ltb (suc n) (2 ^ 15) ≡ true = ground (arith, part.1) in
    let enough : leb (suc n) (suc n) ≡ true = le→leb _ _ (le_refl _) in
    rw (
      sysex_length_end 2 last body top part.0,
      count,
      enough,
      sysex_running,
      closed',
      short,
      take_all,
      parsed,
      enough,
      spent,
    )

pub midi_list_further :
    (f : ℕ) (p : Peer) (seen body : List ℕ) (last : ℕ) (p' : Peer) (out : List Signal)
    → test_bit last 7 ≡ true
    → IsPart body
    → is_empty p.sysex ≡ false
    → parse_sysex
        (0xF7 ∷ (body ++ last ∷ []))
        (section (record p { running_status = 0 }) seen (0xF7 ∷ (body ++ last ∷ [])))
      ≡ done tt (record (section p' seen (0xF7 ∷ (body ++ last ∷ []))) { events = out })
    → returned (
        midi_list
          (suc f)
          (pos (length (0xF7 ∷ (body ++ last ∷ []))))
          (section p seen (0xF7 ∷ (body ++ last ∷ []))))
      ≡ some (p', out)
unfolding midi_list midi_command next_midi_packet_length packet_length handle_command
    next_running_status
midi_list_further f p seen body last p' out top part open_one parsed =
    let n = length (body ++ last ∷ []) in
    let count : 2 + length body ≡ suc n = omega (arith, length-append body (last ∷ [])) in
    let short : ltb (suc n) (2 ^ 15) ≡ true = ground (arith, part.1) in
    let enough : leb (suc n) (suc n) ≡ true = le→leb _ _ (le_refl _) in
    rw (
      sysex_length_end 2 last body top part.0,
      count,
      enough,
      open_one,
      short,
      take_all,
      parsed,
      enough,
      spent,
    )

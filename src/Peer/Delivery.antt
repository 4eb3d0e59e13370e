-- ===== src/Peer/Delivery.antt =====
-- lib/rtppeer.cpp: a MIDI message from `send_midi` of one peer to `data_ready` of another.
use rtpmidid.Common.{
  take_all, ℕ, suc, ◌+◌, ◌%◌, ◌^◌, ◌≤◌, ◌<◌, ◌≡◌, ◌⊎◌, refl, ap, ◌∙◌, List, [], ◌∷◌, ◌++◌, length,
  length-append, All, arith, some, ◌==◌, true, false, ltb, leb, le→leb,
}
use rtpmidid.Common.Int.{pos, ◌-ℤ◌}
use rtpmidid.Common.Words.{IsU16, IsU32}
use rtpmidid.Errors.{ok}
use rtpmidid.Bytes.{reader}
use rtpmidid.Message
use native.Mathlib.Nat.{le_refl}
use rtpmidid.Message.{Message, voice3, voice2, system_exclusive, IsMessage}
use rtpmidid.Peer.{
  Peer, midi_port, Clock, send_event, midi_event, call, call_with, returned, connected,
  get_timestamp,
}
use rtpmidid.Peer.Sending.{send_midi}
use rtpmidid.Peer.Midi.{
  midi_list, voice_length, next_running_status, sysex_length, last_byte, midi_command,
  next_midi_packet_length, packet_length, handle_command, parse_sysex, is_empty, is_zero,
}
use rtpmidid.Peer.RtpPacket.{rtp_bytes, send_midi_sends, data_ready_rtp}
use rtpmidid.Peer.Receive.{data_ready}

-- The running status that a message leaves.
abbrev pub status_left : Message → ℕ
status_left (voice3 status a b) = status
status_left (voice2 status a) = status
status_left (system_exclusive body) = 0

voice3_length :
    (status : ℕ)
    → 0x80 ≤ status
    → status < 0xF0
    → (status < 0xC0) ⊎ (0xE0 ≤ status)
    → voice_length status ≡ 3
unfolding voice_length
voice3_length status lo hi r = ground arith

voice2_length : (status : ℕ) → 0xC0 ≤ status → status < 0xE0 → voice_length status ≡ 2
unfolding voice_length
voice2_length status lo hi = ground arith

voice_running :
    (status running : ℕ)
    → 0x80 ≤ status
    → status < 0xF0
    → next_running_status status running ≡ status
unfolding next_running_status
voice_running status running lo hi = ground arith

pub sysex_running : (running : ℕ) → next_running_status 0xF0 running ≡ 0
unfolding next_running_status
sysex_running running = refl

pub spent : (n : ℕ) → is_zero (pos n -ℤ n) ≡ true
unfolding ◌-ℤ◌
spent n = ground arith

sysex_length_lem :
    (n : ℕ) (body : List ℕ)
    → All (λ b. b < 0x80) body
    → sysex_length n (body ++ 0xF7 ∷ []) ≡ ok (n + length body)
unfolding sysex_length
sysex_length_lem n [] h = ap ok (omega arith)
sysex_length_lem n (x ∷ []) h = ground arith
sysex_length_lem n (x ∷ y ∷ body) h = ground (arith, sysex_length_lem (n + 1) (y ∷ body) h.1)

last_byte_lem : (x y : ℕ) (body : List ℕ) → last_byte (x ∷ (body ++ y ∷ [])) ≡ y
last_byte_lem x y [] = refl
last_byte_lem x y (z ∷ body) = last_byte_lem z y body

-- One message that fills the command section comes out as it is, where no SysEx is open.
midi_list_message :
    (f : ℕ) (p : Peer) (s : List ℕ) (m : Message)
    → IsMessage m
    → p.sysex ≡ []
    → length (Message.bytes m) < 2 ^ 15
    → returned (
        midi_list
          (suc f)
          (pos (length (Message.bytes m)))
          (record { peer = p; buffer = record { seen = s; rest = Message.bytes m }; events = [] }))
      ≡ some (record p { running_status = status_left m }, midi_event (Message.bytes m) ∷ [])
unfolding midi_list midi_command next_midi_packet_length packet_length handle_command parse_sysex
midi_list_message f p s (voice3 status a b) (lo, hi, r) closed short =
    let closed' : is_empty p.sysex ≡ true = rw closed refl in
    let high : ltb status 0x80 ≡ false = ground arith in
    let voice : (status == 0xF0) ≡ false = ground arith in
    rw (
      high,
      voice3_length status lo hi r,
      voice_running status p.running_status lo hi,
      closed',
      voice,
      high,
      spent,
    )
midi_list_message f p s (voice2 status a) (lo, hi) closed short =
    let closed' : is_empty p.sysex ≡ true = rw closed refl in
    let high : ltb status 0x80 ≡ false = ground arith in
    let voice : (status == 0xF0) ≡ false = ground arith in
    let hi' : status < 0xF0 = omega arith in
    rw (
      high,
      voice2_length status lo hi,
      voice_running status p.running_status (omega arith) hi',
      closed',
      voice,
      high,
      spent,
    )
midi_list_message f p s (system_exclusive body) h closed short =
    let closed' : is_empty p.sysex ≡ true = rw closed refl in
    let n = length (body ++ 0xF7 ∷ []) in
    let count : 2 + length body ≡ suc n = omega (arith, length-append body (0xF7 ∷ [])) in
    let short' : ltb (suc n) (2 ^ 15) ≡ true = ground arith in
    let enough : leb (suc n) (suc n) ≡ true = le→leb _ _ (le_refl _) in
    rw (
      sysex_length_lem 2 body h,
      count,
      enough,
      sysex_running,
      closed',
      short',
      take_all,
      closed',
      last_byte_lem 0xF0 0xF7 body,
      enough,
      spent,
    )

-- A packet with one message, from the SSRC that the peer knows, yields that message.
pub data_ready_message :
    (c : Clock) (q : Peer) (seq timestamp ssrc : ℕ) (m : Message)
    → IsMessage m
    → length (Message.bytes m) < 4096
    → q.sysex ≡ []
    → IsU16 seq
    → IsU32 ssrc
    → q.remote_ssrc ≡ ssrc
    → returned
        (call_with (data_ready c midi_port) q (rtp_bytes seq timestamp ssrc (Message.bytes m)))
      ≡ some (
        record q { remote_seq_nr = seq; running_status = status_left m },
        midi_event (Message.bytes m) ∷ [],
      )
data_ready_message c q seq timestamp ssrc m h short closed hs hr known =
    let (before, seen, e) =
      data_ready_rtp c q seq timestamp ssrc (Message.bytes m) short hs hr known in
    ap returned e
    ∙ midi_list_message (length (Message.bytes m))
        (record q { remote_seq_nr = seq; running_status = 0 }) (before ∷ seen) m h closed
        (omega arith)

-- A connected peer that is given a message of at most 4094 bytes sends one packet on the MIDI port
-- and signals nothing else: the RTP header with its next sequence number, the low 32 bits of its
-- timestamp and its SSRC, the size, and the message. A peer that knows that SSRC, has no SysEx open and
-- gets this packet on its MIDI port sends its listeners one event with exactly the message's bytes,
-- and nothing else. Of the sender only the sequence number changes; the receiver notes that number and
-- the running status.
pub send_midi_delivers :
    (c c' : Clock) (p q : Peer) (m : Message)
    → IsMessage m
    → length (Message.bytes m) ≤ 4094
    → p.status ≡ connected
    → q.sysex ≡ []
    → q.remote_ssrc ≡ p.local_ssrc
    → IsU32 p.local_ssrc
    → let seq = (p.seq_nr + 1) % 2 ^ 16 in
      let packet = rtp_bytes seq (get_timestamp c p % 2 ^ 32) p.local_ssrc (Message.bytes m) in
      (returned (call (send_midi c (reader (Message.bytes m))) p)
        ≡ some (record p { seq_nr = seq }, send_event packet midi_port ∷ []))
      × (returned (call_with (data_ready c' midi_port) q packet)
          ≡ some (
            record q { remote_seq_nr = seq; running_status = status_left m },
            midi_event (Message.bytes m) ∷ [],
          ))
send_midi_delivers c c' p q m h short on closed known width = (
  send_midi_sends c p (Message.bytes m) on short,
  data_ready_message c' q ((p.seq_nr + 1) % 2 ^ 16) (get_timestamp c p % 2 ^ 32) p.local_ssrc m h
      (omega arith) closed (omega arith) width known,
)

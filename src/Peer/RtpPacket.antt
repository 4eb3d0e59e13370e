-- ===== src/Peer/RtpPacket.antt =====
-- lib/rtppeer.cpp: the RTP packet that `send_midi` makes, and how `parse_midi` reads its header.
use rtpmidid.Common.{
  take_all, ℕ, suc, ◌+◌, ◌-◌, ◌*◌, ◌/◌, ◌%◌, ◌^◌, ◌≤◌, ◌<◌, ◌≡◌, inl, inr, refl, ap, ◌∙◌, List, [],
  ◌∷◌, ◌++◌, reverse, length, drop, arith, some, ◌==◌, true, false, ==_refl, ltb, leb, le→leb,
  if◌then◌else◌, Bool-cases,
}
use rtpmidid.Common.Bits.{test_bit}
use rtpmidid.Common.Int.{pos}
use rtpmidid.Common.Words.{IsU16, IsU32, u16_bytes, u32_bytes, from_u32_lem, from_u16_lem}
use rtpmidid.Errors.{ok}
use rtpmidid.Bytes.{reader, copy_from, Writer}
use native.Mathlib.Nat.{zero-add, le_refl}
use rtpmidid.Peer.{
  Peer, midi_port, Clock, send_event, call, call_with, returned, connected, get_timestamp,
}
use rtpmidid.Peer.Sending.{send_midi, write_events_size}
use rtpmidid.Peer.Midi.{command_section, midi_list, parse_midi}
use rtpmidid.Peer.Receive.{data_ready, is_command}

-- The size of the command section: its four low bits, or twelve bits in two bytes.
abbrev pub size_header : ℕ → List ℕ
size_header n = if ltb n 16 then n % 256 ∷ [] else (n / 256 % 16 + 0x80) ∷ (n % 256) ∷ []

abbrev pub rtp_bytes : ℕ → ℕ → ℕ → List ℕ → List ℕ
rtp_bytes seq timestamp ssrc events =
    0x80
    ∷ 0x61
    ∷ (u16_bytes seq
        ++ (u32_bytes timestamp ++ (u32_bytes ssrc ++ (size_header (length events) ++ events))))

abbrev rtp_seen : ℕ → ℕ → ℕ → List ℕ
rtp_seen seq timestamp ssrc =
    reverse (0x80 ∷ 0x61 ∷ (u16_bytes seq ++ (u32_bytes timestamp ++ u32_bytes ssrc)))

copy_from_fits :
    (events : List ℕ) (w : Writer)
    → length events ≤ w.room
    → copy_from (reader events) w
      ≡ ok (record { written = w.written ++ events; room = w.room - length events })
unfolding copy_from
copy_from_fits events w h = rw (zero-add, le→leb _ _ (le_refl _), le→leb _ _ h, take_all)

pub send_midi_sends :
    (c : Clock) (p : Peer) (events : List ℕ)
    → p.status ≡ connected
    → length events ≤ 4094
    → returned (call (send_midi c (reader events)) p)
      ≡ some (
        record p { seq_nr = (p.seq_nr + 1) % 2 ^ 16 },
        send_event
              (rtp_bytes ((p.seq_nr + 1) % 2 ^ 16) (get_timestamp c p % 2 ^ 32) p.local_ssrc events)
              midi_port
            ∷ [],
      )
unfolding send_midi write_events_size
send_midi_sends c p events e h =
    let on : (p.status == connected) ≡ true = rw e refl in
    let fits : length events ≤ 4095 = omega arith in
    let n = length events in
    let hi : (n / 256 % 16 + 0x80) % 256 ≡ n / 256 % 16 + 0x80 = omega arith in
    let lo : n % 256 % 256 ≡ n % 256 = omega arith in
    elim (Bool-cases (ltb (length events) 16)) [
      | inl short ↦ rw (on, zero-add, short, copy_from_fits, fits)
      | inr long ↦ rw (on, zero-add, long, copy_from_fits, h, hi, lo)
    ]

-- The header of a command section is read back: its flags are clear, and its length is the size.
section_lem :
    (p : Peer) (s events : List ℕ)
    → length events < 4096
    → command_section (record {
      peer = p;
      buffer = record { seen = s; rest = size_header (length events) ++ events };
      events = [];
    })
      ≡ midi_list (suc (length events)) (pos (length events)) (record {
        peer = record p { running_status = 0 };
        buffer = record { seen = reverse (size_header (length events)) ++ s; rest = events };
        events = [];
      })
unfolding command_section
section_lem p s events h =
    let n = length events in
    let enough : leb n n ≡ true = ground arith in
    elim (Bool-cases (ltb (length events) 16)) [
      | inl short ↦
          let flag7 : test_bit (n % 256) 7 ≡ false = ground arith in
          let flag6 : test_bit (n % 256) 6 ≡ false = ground arith in
          let flag5 : test_bit (n % 256) 5 ≡ false = ground arith in
          let whole : n % 256 % 16 ≡ n = ground arith in
          rw (short, flag7, flag6, flag5, whole, enough)
      | inr long ↦
          let flag7 : test_bit (n / 256 % 16 + 0x80) 7 ≡ true = ground arith in
          let flag6 : test_bit (n / 256 % 16 + 0x80) 6 ≡ false = ground arith in
          let flag5 : test_bit (n / 256 % 16 + 0x80) 5 ≡ false = ground arith in
          let whole : (n / 256 % 16 + 0x80) % 16 * 256 + n % 256 ≡ n = ground arith in
          rw (long, flag7, flag6, flag5, whole, enough)
    ]

not_command : (xs : List ℕ) → is_command (reader (0x80 ∷ 0x61 ∷ xs)) ≡ false
unfolding is_command
not_command xs = ground arith

-- The bytes behind a size header end with one of its own.
seen_header :
    (n : ℕ) (s : List ℕ)
    → (before : ℕ) × (seen : List ℕ) × (reverse (size_header n) ++ s ≡ before ∷ seen)
seen_header n s = elim (Bool-cases (ltb n 16)) [
  | inl short ↦ (n % 256, s, rw short)
  | inr long ↦ (n % 256, (n / 256 % 16 + 0x80) ∷ s, rw long)
]

-- A packet from the SSRC that the peer knows goes to the loop over its command section, in front of
-- which the buffer has some byte.
pub data_ready_rtp :
    (c : Clock) (q : Peer) (seq timestamp ssrc : ℕ) (events : List ℕ)
    → length events < 4096
    → IsU16 seq
    → IsU32 ssrc
    → q.remote_ssrc ≡ ssrc
    → (before : ℕ) × (seen : List ℕ) × (call_with
          (data_ready c midi_port)
          q
          (rtp_bytes seq timestamp ssrc events)
        ≡ midi_list (suc (length events)) (pos (length events)) (record {
          peer = record q { remote_seq_nr = seq; running_status = 0 };
          buffer = record { seen = before ∷ seen; rest = events };
          events = [];
        }))
data_ready_rtp c q seq timestamp ssrc events short hs hr known =
    let start = not_command (drop 2 (rtp_bytes seq timestamp ssrc events)) in
    let same : (ssrc == q.remote_ssrc) ≡ true = rw known (==_refl ssrc) in
    let (before, seen, e) = seen_header (length events) (rtp_seen seq timestamp ssrc) in
    (
      before,
      seen,
      unfold data_ready parse_midi in
          rw (start, from_u16_lem seq hs, from_u32_lem ssrc hr, same)
            (section_lem (record q { remote_seq_nr = seq }) _ events short
              ∙ ap
                  (λ s. midi_list (suc (length events)) (pos (length events)) (record {
                    peer = record q { remote_seq_nr = seq; running_status = 0 };
                    buffer = record { seen = s; rest = events };
                    events = [];
                  }))
                  e),
    )

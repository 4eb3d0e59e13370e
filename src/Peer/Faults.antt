-- ===== src/Peer/Faults.antt =====
-- lib/rtppeer.cpp: packets that the peer does not handle as it means to.
use rtpmidid.Common.{
  ℕ, zero, suc, ◌+◌, ◌<◌, ◌≡◌, ◌≢◌, ◌∙◌, List, [], ◌∷◌, ◌++◌, length, arith, some, ◌==◌, true,
  false, ltb, inl, inr, append_assoc, append-nil, replicate, Bool-cases, if◌then◌else◌, ◌%◌,
}
use rtpmidid.Common.Words.{IsU16, IsU32, from_u32_lem}
use native.Mathlib.Nat.{zero-add}
use rtpmidid.Common.Bits.{test_bit}
use rtpmidid.Errors.{unknown_initiator}
use rtpmidid.Bytes.RoundTrip.{IsText, read_str0_text, write_str0_full}
use rtpmidid.Peer.{
  Peer, Port, midi_port, Clock, midi_event, World, done, undefined, call_with, connected, refused,
}
use rtpmidid.Peer.Commands.{run_command, parse_command_in, parse_command_ok}
use rtpmidid.Peer.Midi.{midi_list, midi_command, next_midi_packet_length, packet_length}
use rtpmidid.Peer.Journal.{journal_bitmap}
use rtpmidid.Peer.Receive.{data_ready}
use rtpmidid.Peer.Handshake.{data_ready_command, session_bytes, session_long}
use rtpmidid.Peer.RtpPacket.{data_ready_rtp, rtp_bytes}

-- A packet from the known SSRC whose first command begins with a data byte (below 0x80) has
-- undefined behaviour, whatever follows: there is no running status at the start of a packet, the
-- command's length is -1, and neither the test for 0 nor the check of the buffer's end stops it.
pub data_byte_first_undefined :
    (c : Clock) (q : Peer) (seq timestamp ssrc byte : ℕ) (rest : List ℕ)
    → byte < 0x80
    → length (byte ∷ rest) < 4096
    → IsU16 seq
    → IsU32 ssrc
    → q.remote_ssrc ≡ ssrc
    → call_with (data_ready c midi_port) q (rtp_bytes seq timestamp ssrc (byte ∷ rest)) ≡ undefined
unfolding midi_list midi_command next_midi_packet_length packet_length
data_byte_first_undefined c q seq timestamp ssrc byte rest low short hs hr known =
    let (before, seen, e) = data_ready_rtp c q seq timestamp ssrc (byte ∷ rest) short hs hr known in
    let low' : ltb byte 0x80 ≡ true = ground arith in e ∙ rw low'

-- A packet from the known SSRC that ends with the start byte of a SysEx as its only command has
-- undefined behaviour: the byte behind the packet's end is read.
pub sysex_start_last_undefined :
    (c : Clock) (q : Peer) (seq timestamp ssrc : ℕ)
    → IsU16 seq
    → IsU32 ssrc
    → q.remote_ssrc ≡ ssrc
    → call_with (data_ready c midi_port) q (rtp_bytes seq timestamp ssrc (0xF0 ∷ [])) ≡ undefined
unfolding midi_list midi_command next_midi_packet_length packet_length
sysex_start_last_undefined c q seq timestamp ssrc hs hr known =
    let (before, seen, e) =
      data_ready_rtp c q seq timestamp ssrc (0xF0 ∷ []) (omega arith) hs hr known in
    e

-- A peer whose own name has exactly 112 bytes has undefined behaviour on every well-formed
-- invitation: the zero byte of its answer is written one byte behind the buffer of 128 bytes.
pub invitation_name_overflows :
    (c : Clock) (p : Peer) (port : Port) (initiator ssrc : ℕ) (name : List ℕ)
    → IsText name
    → length p.local_name ≡ 112
    → call_with (data_ready c port) p (session_bytes 0x49 0x4e initiator ssrc name) ≡ undefined
unfolding run_command parse_command_in
invitation_name_overflows c p port initiator ssrc name hn h = rw (
  data_ready_command c port p 0x49 0x4e _ (session_long initiator ssrc name),
  read_str0_text,
  hn,
  write_str0_full,
  h,
)

-- An acceptance from an initiator other than the peer's own is refused with an exception on a peer
-- that is not connected, and changes no status; yet the SSRC and the name that it carries have
-- replaced the peer's remote SSRC and remote name.
pub foreign_acceptance_overwrites :
    (c : Clock) (p : Peer) (port : Port) (initiator ssrc : ℕ) (name : List ℕ)
    → (p.status == connected) ≡ false
    → initiator ≢ p.initiator_id
    → IsU32 initiator
    → IsU32 ssrc
    → IsText name
    → refused (call_with (data_ready c port) p (session_bytes 0x4f 0x4b initiator ssrc name))
      ≡ some (unknown_initiator, record p { remote_ssrc = ssrc; remote_name = name }, [])
unfolding run_command parse_command_ok
foreign_acceptance_overwrites c p port initiator ssrc name free other hi hs hn =
    let differ : (initiator == p.initiator_id) ≡ false = ground arith in
    rw (
      data_ready_command c port p 0x4f 0x4b _ (session_long initiator ssrc name),
      free,
      from_u32_lem initiator hi,
      from_u32_lem ssrc hs,
      read_str0_text,
      hn,
      differ,
    )

-- The number of set bits among the `n` lowest.
abbrev pub ones : ℕ → ℕ → ℕ
ones zero bitmap = 0
ones (suc n) bitmap = (if test_bit bitmap n then 1 else 0) + ones n bitmap

-- Every note-off that the journal's chapter N gives for one byte of its bitmap is for the same
-- note, the first of those that the byte stands for: there are as many of them as the byte has bits
-- set, whichever those are.
pub journal_bitmap_one_note :
    (n bitmap channel minnote : ℕ) (w : World)
    → journal_bitmap n bitmap channel minnote w
      ≡ done tt (record w {
        events =
            w.events
            ++ replicate (ones n bitmap) (midi_event ((0x80 + channel) ∷ (minnote % 256) ∷ 0 ∷ []));
      })
unfolding journal_bitmap
journal_bitmap_one_note zero bitmap channel minnote w = rw append-nil
journal_bitmap_one_note (suc n) bitmap channel minnote w =
    let note = midi_event ((0x80 + channel) ∷ (minnote % 256) ∷ 0 ∷ []) in
    let one : 1 + ones n bitmap ≡ suc (ones n bitmap) = omega arith in
    elim (Bool-cases (test_bit bitmap n)) [
      | inl set ↦
          rw
            (
              set,
              journal_bitmap_one_note n bitmap channel minnote
                  (record w { events = w.events ++ note ∷ [] }),
            )
            (rw (one, append_assoc))
      | inr clear ↦ rw (clear, journal_bitmap_one_note n bitmap channel minnote w, zero-add)
    ]

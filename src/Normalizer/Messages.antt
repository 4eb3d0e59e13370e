-- ===== src/Normalizer/Messages.antt =====
-- src/midi_normalizer.cpp: whole messages, however the stream is cut into packets.
use rtpmidid.Common.{
  ℕ, ◌≤◌, ◌<◌, ◌≡◌, ◌⊎◌, refl, ap, ◌∙◌, List, [], ◌∷◌, ◌++◌, All, append_assoc, arith,
}
use rtpmidid.Message.{
  Message, voice3, voice2, system_exclusive, bytes, IsMessage, all_bytes, all_packets,
}
use rtpmidid.Normalizer.{
  Normalizer, sysex, sized, initial, parse_midi_byte, normalize_stream, get_size_for_midi_command,
}

voice3-size :
    (status : ℕ)
    → 0x80 ≤ status
    → status < 0xF0
    → (status < 0xC0) ⊎ (0xE0 ≤ status)
    → get_size_for_midi_command status ≡ sized 3
unfolding get_size_for_midi_command
voice3-size status lo hi r = ground arith

voice2-size :
    (status : ℕ) → 0xC0 ≤ status → status < 0xE0 → get_size_for_midi_command status ≡ sized 2
unfolding get_size_for_midi_command
voice2-size status lo hi = ground arith

-- Two packets in a row give the state and the messages of the one packet that joins them, for
-- every state and every cut of the stream.
pub normalize_stream-append :
    (s : Normalizer) (xs ys : List ℕ)
    → normalize_stream s (xs ++ ys) ≡ (
      (normalize_stream (normalize_stream s xs).0 ys).0,
      (normalize_stream s xs).1 ++ (normalize_stream (normalize_stream s xs).0 ys).1,
    )
unfolding normalize_stream
normalize_stream-append s [] ys = refl
normalize_stream-append s (x ∷ xs) ys =
    rw (normalize_stream-append (parse_midi_byte s x).0 xs ys) (rw append_assoc)

-- Inside a SysEx every byte joins the buffer, and the end byte sends it.
normalize_stream-sysex :
    (body buffer : List ℕ)
    → All (λ b. b < 0x80) body
    → normalize_stream (record { m_buffer = buffer; waiting_for_size = sysex }) (body ++ 0xF7 ∷ [])
      ≡ (initial, (buffer ++ (body ++ 0xF7 ∷ [])) ∷ [])
unfolding normalize_stream
normalize_stream-sysex [] buffer h = refl
normalize_stream-sysex (b ∷ body) buffer h = ground (
  arith,
  h.0,
  normalize_stream-sysex body (buffer ++ b ∷ []) h.1,
  append_assoc buffer (b ∷ []) (body ++ 0xF7 ∷ []),
)

normalize_stream-bytes :
    (m : Message) → IsMessage m → normalize_stream initial (bytes m) ≡ (initial, bytes m ∷ [])
unfolding normalize_stream
normalize_stream-bytes (voice3 s a b) h = rw (voice3-size s h.0 h.1 h.2, parse_midi_byte)
normalize_stream-bytes (voice2 s a) h = rw (voice2-size s h.0 h.1, parse_midi_byte)
normalize_stream-bytes (system_exclusive body) h = normalize_stream-sysex body (0xF0 ∷ []) h

normalize_stream-messages :
    (ms : List Message)
    → All IsMessage ms
    → normalize_stream initial (all_bytes ms) ≡ (initial, all_packets ms)
normalize_stream-messages [] h = unfold normalize_stream in refl
normalize_stream-messages (m ∷ ms) h = rw (
  normalize_stream-append initial (bytes m) (all_bytes ms),
  normalize_stream-bytes m h.0,
  normalize_stream-messages ms h.1,
)

-- The packets of a stream, one call after the other.
abbrev pub normalize_all : Normalizer → List (List ℕ) → Normalizer × List (List ℕ)
normalize_all s [] = (s, [])
normalize_all s (p ∷ ps) =
    let (s1, out1) = normalize_stream s p in
    let (s2, out2) = normalize_all s1 ps in (s2, out1 ++ out2)

abbrev pub joined : List (List ℕ) → List ℕ
joined [] = []
joined (p ∷ ps) = p ++ joined ps

normalize_all-joined :
    (s : Normalizer) (ps : List (List ℕ)) → normalize_all s ps ≡ normalize_stream s (joined ps)
normalize_all-joined s [] = unfold normalize_stream in refl
normalize_all-joined s (p ∷ ps) =
    rw (normalize_stream-append s p (joined ps), normalize_all-joined (normalize_stream s p).0 ps)

-- A stream of whole voice messages and SysEx messages, and of no others, cut into packets in any way,
-- gives exactly those messages in their order, one packet each, and ends in the state that it began in.
pub normalize_all-messages :
    (ms : List Message) (ps : List (List ℕ))
    → All IsMessage ms
    → joined ps ≡ all_bytes ms
    → normalize_all initial ps ≡ (initial, all_packets ms)
normalize_all-messages ms ps h e =
    normalize_all-joined initial ps
    ∙ ap (normalize_stream initial) e
    ∙ normalize_stream-messages ms h

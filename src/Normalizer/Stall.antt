-- ===== src/Normalizer/Stall.antt =====
-- src/midi_normalizer.cpp: bytes that start no message stay in the buffer, and lengthen what
-- follows them.
use rtpmidid.Common.{
  ℕ, ◌+◌, ◌≤◌, ◌≡◌, refl, ◌∙◌, List, [], ◌∷◌, ◌++◌, All, length, length-append, append_assoc,
  append-nil, arith,
}
use rtpmidid.Normalizer.{
  unknown, sized, initial, parse_midi_byte, normalize_stream, get_size_for_midi_command,
}

-- A byte that starts no message: a data byte, or F1 to FF.
abbrev pub StartsNothing : ℕ → Type 0
StartsNothing b = get_size_for_midi_command b ≡ unknown

normalize_stream-junk :
    (junk xs buffer : List ℕ)
    → All StartsNothing junk
    → normalize_stream (record { m_buffer = buffer; waiting_for_size = unknown }) (junk ++ xs)
      ≡ normalize_stream (record { m_buffer = buffer ++ junk; waiting_for_size = unknown }) xs
unfolding normalize_stream
normalize_stream-junk [] xs buffer h = rw append-nil
normalize_stream-junk (b ∷ junk) xs buffer h =
    rw (h.0, parse_midi_byte)
      (normalize_stream-junk junk xs (buffer ++ b ∷ []) h.1 ∙ rw append_assoc)

-- Once the buffer has reached the size that is waited for, the test for that size never holds.
normalize_stream-full :
    (n : ℕ) (xs buffer : List ℕ)
    → n ≤ length buffer
    → (normalize_stream (record { m_buffer = buffer; waiting_for_size = sized n }) xs).1 ≡ []
unfolding normalize_stream
normalize_stream-full n [] buffer h = refl
normalize_stream-full n (x ∷ xs) buffer h =
    ground (arith, length-append buffer (x ∷ []), normalize_stream-full n xs (buffer ++ x ∷ []))

-- After bytes that start no message, at least `n - 1` of them, a voice message of size `n` is not
-- sent, nor is anything that follows it: whatever the stream goes on with, no packet comes out.
pub normalize_stream_stalls :
    (junk xs : List ℕ) (status n : ℕ)
    → All StartsNothing junk
    → get_size_for_midi_command status ≡ sized n
    → n ≤ length junk + 1
    → (normalize_stream initial (junk ++ status ∷ xs)).1 ≡ []
unfolding normalize_stream
normalize_stream_stalls junk xs status n h e le =
    rw (normalize_stream-junk junk (status ∷ xs) [] h, e, parse_midi_byte)
      (normalize_stream-full n xs (junk ++ status ∷ [])
        (omega (arith, length-append junk (status ∷ []))))

-- One byte that starts no message in front of a voice message of three bytes: what is sent is that
-- byte with the status and the first data byte, and the last data byte stays in the buffer.
pub normalize_stream_garbled :
    (b status x y : ℕ)
    → StartsNothing b
    → get_size_for_midi_command status ≡ sized 3
    → StartsNothing y
    → normalize_stream initial (b ∷ status ∷ x ∷ y ∷ [])
      ≡ (record { m_buffer = y ∷ []; waiting_for_size = unknown }, (b ∷ status ∷ x ∷ []) ∷ [])
unfolding normalize_stream
normalize_stream_garbled b status x y h e k = rw (h, e, k, parse_midi_byte)

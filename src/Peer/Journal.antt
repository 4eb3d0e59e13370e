-- ===== src/Peer/Journal.antt =====
-- lib/rtppeer.cpp: the recovery journal. Chapter N replays notes; other chapters are skipped.
use rtpmidid.Common.{ℕ, zero, suc, ◌+◌, ◌-◌, ◌*◌, ◌/◌, ◌%◌, [], ◌∷◌, ltb}
use rtpmidid.Common.Bits.{test_bit}
use rtpmidid.Bytes.{read_uint8, read_uint16, skip}
use rtpmidid.Peer.{
  M, ◌>>=◌, ◌>>◌, pure, choose, emit, lift, read, get_buffer, set_buffer, midi_event,
}
use rtpmidid.Peer.Sending.{send_feedback}

-- `for (i = 0; i < nnoteon; i++)`
unfoldable pub journal_note_ons : ℕ → ℕ → M (Unit {0})
unfolding read_uint8
journal_note_ons zero channel = pure tt
journal_note_ons (suc n) channel = do
  notenum ← read read_uint8
  notevel ← read read_uint8
  choose (test_bit notevel 7)
      (emit (midi_event ((0x90 + channel) ∷ (notenum % 128) ∷ (notevel % 128) ∷ []))) (pure tt)
  journal_note_ons n channel

-- `for (j = 0; j < 8; j++)`, with `n` rounds left: the mask is `0x80 >> j`, which is bit n - 1.
unfoldable pub journal_bitmap : ℕ → ℕ → ℕ → ℕ → M (Unit {0})
journal_bitmap zero bitmap channel minnote = pure tt
journal_bitmap (suc n) bitmap channel minnote = do
  choose (test_bit bitmap n) (emit (midi_event ((0x80 + channel) ∷ (minnote % 256) ∷ 0 ∷ [])))
      (pure tt)
  journal_bitmap n bitmap channel minnote

-- `for (i = low; i <= high; i++)`, with `n` rounds left.
unfoldable pub journal_note_offs : ℕ → ℕ → ℕ → M (Unit {0})
unfolding read_uint8
journal_note_offs zero i channel = pure tt
journal_note_offs (suc n) i channel = do
  bitmap ← read read_uint8
  journal_bitmap 8 bitmap channel (i * 8)
  journal_note_offs n (i + 1) channel

unfoldable pub parse_journal_chapter_N : ℕ → M (Unit {0})
unfolding read_uint8
parse_journal_chapter_N channel = do
  curr ← read read_uint8
  let nnoteon = curr % 128
  curr ← read read_uint8
  let low = curr / 16 % 16
  let high = curr % 16
  journal_note_ons nnoteon channel
  journal_note_offs (high + 1 - low) low channel

unfoldable pub parse_journal_chapter : M (Unit {0})
unfolding read_uint8 skip
parse_journal_chapter = do
  head ← read read_uint8
  low_length ← read read_uint8
  let length = head % 8 * 256 + low_length
  let channel = head / 16 % 8
  chapters ← read read_uint8
  r ← get_buffer
  choose (ltb 0 (chapters / 16 % 16)) (do r ← lift (skip length r); set_buffer r) (pure tt)
  choose (test_bit chapters 3) (parse_journal_chapter_N channel) (pure tt)

-- `for (i = 0; i < totchan; i++)`
unfoldable pub journal_channels : ℕ → M (Unit {0})
journal_channels zero = pure tt
journal_channels (suc n) = do parse_journal_chapter; journal_channels n

unfoldable pub parse_journal : M (Unit {0})
unfolding read_uint8 read_uint16
parse_journal = do
  header ← read read_uint8
  let totchan = header % 16
  seqnum ← read read_uint16
  choose (test_bit header 5) (journal_channels totchan) (pure tt)
  send_feedback seqnum

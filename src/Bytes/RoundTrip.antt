-- ===== src/Bytes/RoundTrip.antt =====
-- include/rtpmidid/iobytes.hpp: what a write leaves for the matching read.
use rtpmidid.Common.{
  ℕ, zero, suc, ◌+◌, ◌-◌, ◌<◌, ◌≡◌, refl, ◌∙◌, List, [], ◌∷◌, ◌++◌, reverse, length, All,
  append_assoc, append-nil, length-append, arith, ◌⊎◌, inl, inr, lt_eq_gt,
}
use rtpmidid.Common.Words.{
  u16_bytes, u32_bytes, u64_bytes, IsU16, IsU32, IsU64, from_u16_lem, from_u32_lem, from_u64_lem,
}
use rtpmidid.Errors.{Result, ok, throw, fault, end_of_buffer}
use rtpmidid.Bytes.{
  Reader, Writer, read_uint16, read_uint32, read_uint64, read_str0, take_str0, write_uint16,
  write_uint32, write_uint64, write_str0,
}
use mathlib.Core.List.{reverse-cons, reverse-append}

-- `w'` is `w` with some bytes behind it, and reading them gives `x` and stops at their end.
abbrev pub ReadsBack :
    {A : Type 0} → (Reader → Result (A × Reader)) → A → Writer → Writer → List ℕ → List ℕ → Type 0
ReadsBack read x w w' s more =
    (bs : List ℕ) × (w'.written ≡ w.written ++ bs)
    × (w.room ≡ w'.room + length bs)
    × (read (record { seen = s; rest = bs ++ more })
        ≡ ok (x, record { seen = reverse bs ++ s; rest = more }))

pub read_uint16-write_uint16 :
    (n : ℕ) (w w' : Writer) (s more : List ℕ)
    → IsU16 n
    → write_uint16 n w ≡ ok w'
    → ReadsBack read_uint16 n w w' s more
unfolding read_uint16 write_uint16
read_uint16-write_uint16 n w w' s more h e =
    (u16_bytes n, ground arith, ground arith, rw (from_u16_lem n h))

pub read_uint32-write_uint32 :
    (n : ℕ) (w w' : Writer) (s more : List ℕ)
    → IsU32 n
    → write_uint32 n w ≡ ok w'
    → ReadsBack read_uint32 n w w' s more
unfolding read_uint32 write_uint32
read_uint32-write_uint32 n w w' s more h e =
    (u32_bytes n, ground arith, ground arith, rw (from_u32_lem n h))

pub read_uint64-write_uint64 :
    (n : ℕ) (w w' : Writer) (s more : List ℕ)
    → IsU64 n
    → write_uint64 n w ≡ ok w'
    → ReadsBack read_uint64 n w w' s more
unfolding read_uint64 write_uint64
read_uint64-write_uint64 n w w' s more h e =
    (u64_bytes n, ground arith, ground arith, rw (from_u64_lem n h))

-- No zero byte, as in a C string.
abbrev pub IsText : List ℕ → Type 0
IsText = All (λ c. 0 < c)

take_str0-append :
    (s text xs more : List ℕ)
    → IsText xs
    → take_str0 s text (xs ++ 0 ∷ more)
      ≡ ok (reverse text ++ xs, record { seen = 0 ∷ (reverse xs ++ (text ++ s)); rest = more })
unfolding take_str0
take_str0-append s text [] more h = rw append-nil
take_str0-append s text (zero ∷ xs) more h = absurd (omega arith)
take_str0-append s text (suc c ∷ xs) more h =
    take_str0-append s (suc c ∷ text) xs more h.1 ∙ simp (reverse-cons, append_assoc)

pub read_str0_text :
    (xs s more : List ℕ)
    → IsText xs
    → read_str0 (record { seen = s; rest = xs ++ 0 ∷ more })
      ≡ ok (xs, record { seen = 0 ∷ (reverse xs ++ s); rest = more })
unfolding read_str0
read_str0_text xs s more h = take_str0-append s [] xs more h

-- A text with no zero byte that was written is read back, wherever the bytes stand: the write adds
-- as many bytes as it takes room, and the read stops at their end.
pub read_str0-write_str0 :
    (xs : List ℕ) (w w' : Writer) (s more : List ℕ)
    → IsText xs
    → write_str0 xs w ≡ ok w'
    → ReadsBack read_str0 xs w w' s more
unfolding write_str0
read_str0-write_str0 xs w w' s more h e = (
  xs ++ 0 ∷ [],
  ground arith,
  ground (arith, length-append xs (0 ∷ [])),
  rw (append_assoc, reverse-append) (read_str0_text xs s more h),
)

-- What `write_str0` does for every length of the text: it writes the text and its zero byte where
-- both fit, throws where the text alone does not fit, and writes outside the buffer (undefined
-- behaviour) exactly where the text fills the room that is left.
pub write_str0_cases :
    (xs : List ℕ) (w : Writer)
    → ((length xs < w.room)
        × (w' : Writer) × (write_str0 xs w ≡ ok w')
        × (w'.written ≡ w.written ++ (xs ++ 0 ∷ [])))
      ⊎ ((length xs ≡ w.room) × (write_str0 xs w ≡ fault))
      ⊎ ((w.room < length xs) × (write_str0 xs w ≡ throw end_of_buffer))
unfolding write_str0
write_str0_cases xs w = elim (lt_eq_gt (length xs) w.room) [
  | inl lt ↦ inl (
    lt,
    record { written = w.written ++ (xs ++ 0 ∷ []); room = w.room - (length xs + 1) },
    ground arith,
    refl,
  )
  | inr (inl e) ↦ inr (inl (e, ground arith))
  | inr (inr gt) ↦ inr (inr (gt, ground arith))
]

pub write_str0_fits :
    (xs : List ℕ) (w : Writer)
    → length xs < w.room
    → write_str0 xs w
      ≡ ok (record { written = w.written ++ (xs ++ 0 ∷ []); room = w.room - (length xs + 1) })
unfolding write_str0
write_str0_fits xs w h = ground arith

pub write_str0_full : (xs : List ℕ) (w : Writer) → length xs ≡ w.room → write_str0 xs w ≡ fault
unfolding write_str0
write_str0_full xs w h = ground arith

-- A number of 16, 32 or 64 bits that was written is read back by the matching read, wherever the
-- bytes stand: the write adds as many bytes as it takes room, and the read stops at their end.
pub read_uint-write_uint :
    (a b c : ℕ) (w wa wb wc : Writer) (s more : List ℕ)
    → IsU16 a
    → IsU32 b
    → IsU64 c
    → write_uint16 a w ≡ ok wa
    → write_uint32 b w ≡ ok wb
    → write_uint64 c w ≡ ok wc
    → ReadsBack read_uint16 a w wa s more
      × ReadsBack read_uint32 b w wb s more
      × ReadsBack read_uint64 c w wc s more
read_uint-write_uint a b c w wa wb wc s more ha hb hc ea eb ec = (
  read_uint16-write_uint16 a w wa s more ha ea,
  read_uint32-write_uint32 b w wb s more hb eb,
  read_uint64-write_uint64 c w wc s more hc ec,
)

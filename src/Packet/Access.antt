-- ===== src/Packet/Access.antt =====
-- include/rtpmidid/packet.hpp: what a write at an offset changes, and what it leaves.
use rtpmidid.Common.{
  lt_eq_gt, ℕ, zero, suc, ◌+◌, ◌≤◌, ◌<◌, ◌≡◌, refl, ap, ◌⊎◌, inl, inr, List, [], ◌∷◌, length,
  get_or, arith, leb, true,
}
use rtpmidid.Common.Words.{
  u16_bytes, u32_bytes, u64_bytes, IsU16, IsU32, IsU64, from_u16_lem, from_u32_lem, from_u64_lem,
}
use rtpmidid.Errors.{ok, ◌>>=◌}
use rtpmidid.Packet.{
  Packet, put_at, set_bytes, get_uint16, get_uint32, get_uint64, set_uint16, set_uint32, set_uint64,
  get_midi_events, events, no_events, byte_at,
}

length-put_at : (o : ℕ) (bs xs : List ℕ) → length (put_at o bs xs) ≡ length xs
unfolding put_at
length-put_at o bs [] = refl
length-put_at zero [] (x ∷ xs) = refl
length-put_at zero (b ∷ bs) (x ∷ xs) = ap suc (length-put_at zero bs xs)
length-put_at (suc o) bs (x ∷ xs) = ap suc (length-put_at o bs xs)

at_start :
    (i : ℕ) (bs xs : List ℕ)
    → i < length bs
    → length bs ≤ length xs
    → get_or 0 (put_at 0 bs xs) i ≡ get_or 0 bs i
unfolding put_at
at_start i bs [] h le = omega arith
at_start i [] (x ∷ xs) h le = omega arith
at_start zero (b ∷ bs) (x ∷ xs) h le = refl
at_start (suc i) (b ∷ bs) (x ∷ xs) h le = at_start i bs xs (omega arith) (omega arith)

-- Inside what was put.
at_offset :
    (o i j : ℕ) (bs xs : List ℕ)
    → i + o ≡ j
    → i < length bs
    → o + length bs ≤ length xs
    → get_or 0 (put_at o bs xs) j ≡ get_or 0 bs i
unfolding put_at
at_offset zero i j bs xs e h le =
    let same : j ≡ i = omega arith in rw same (at_start i bs xs h (omega arith))
at_offset (suc o) i zero bs xs e h le = omega arith
at_offset (suc o) i (suc j) bs [] e h le = omega arith
at_offset (suc o) i (suc j) bs (x ∷ xs) e h le = at_offset o i j bs xs (omega arith) h (omega arith)

-- Outside of it.
off-put_at :
    (o i : ℕ) (bs xs : List ℕ)
    → (i < o) ⊎ (o + length bs ≤ i)
    → get_or 0 (put_at o bs xs) i ≡ get_or 0 xs i
unfolding put_at
off-put_at o i bs [] h = refl
off-put_at zero i [] (x ∷ xs) h = refl
off-put_at zero zero (b ∷ bs) (x ∷ xs) h = omega arith
off-put_at zero (suc i) (b ∷ bs) (x ∷ xs) h = off-put_at zero i bs xs (inr (omega arith))
off-put_at (suc o) zero bs (x ∷ xs) h = refl
off-put_at (suc o) (suc i) bs (x ∷ xs) h =
    off-put_at o i bs xs (elim h [ inl l ↦ inl (omega arith) | inr g ↦ inr (omega arith) ])

-- A number of 16, 32 or 64 bits that is written at an offset with eight bytes behind it is read back
-- from there.
pub get_uint-set_uint :
    (o a b c : ℕ) (p : Packet)
    → o + 8 ≤ length p.memory
    → IsU16 a
    → IsU32 b
    → IsU64 c
    → (set_uint16 o a p >>= get_uint16 o ≡ ok a)
      × (set_uint32 o b p >>= get_uint32 o ≡ ok b)
      × (set_uint64 o c p >>= get_uint64 o ≡ ok c)
unfolding get_uint16 get_uint32 get_uint64 set_uint16 set_uint32 set_uint64 set_bytes
get_uint-set_uint o a b c p le ha hb hc =
    let two : leb (o + 2) (length p.memory) ≡ true = ground arith in
    let four : leb (o + 4) (length p.memory) ≡ true = ground arith in
    let eight : leb (o + 8) (length p.memory) ≡ true = ground arith in
    let xs = p.memory in
    (
      rw (
        two,
        length-put_at,
        two,
        at_offset o 0 o (u16_bytes a) xs (omega arith) (omega arith) (omega arith),
        at_offset o 1 (o + 1) (u16_bytes a) xs (omega arith) (omega arith) (omega arith),
        from_u16_lem a ha,
      ),
      rw (
        four,
        length-put_at,
        four,
        at_offset o 0 o (u32_bytes b) xs (omega arith) (omega arith) (omega arith),
        at_offset o 1 (o + 1) (u32_bytes b) xs (omega arith) (omega arith) (omega arith),
        at_offset o 2 (o + 2) (u32_bytes b) xs (omega arith) (omega arith) (omega arith),
        at_offset o 3 (o + 3) (u32_bytes b) xs (omega arith) (omega arith) (omega arith),
        from_u32_lem b hb,
      ),
      rw (
        eight,
        length-put_at,
        eight,
        at_offset o 0 o (u64_bytes c) xs (omega arith) (omega arith) (omega arith),
        at_offset o 1 (o + 1) (u64_bytes c) xs (omega arith) (omega arith) (omega arith),
        at_offset o 2 (o + 2) (u64_bytes c) xs (omega arith) (omega arith) (omega arith),
        at_offset o 3 (o + 3) (u64_bytes c) xs (omega arith) (omega arith) (omega arith),
        at_offset o 4 (o + 4) (u64_bytes c) xs (omega arith) (omega arith) (omega arith),
        at_offset o 5 (o + 5) (u64_bytes c) xs (omega arith) (omega arith) (omega arith),
        at_offset o 6 (o + 6) (u64_bytes c) xs (omega arith) (omega arith) (omega arith),
        at_offset o 7 (o + 7) (u64_bytes c) xs (omega arith) (omega arith) (omega arith),
        from_u64_lem c hc,
      ),
    )

-- A write of 32 bits inside a packet leaves every number of 32 bits that does not overlap it, also
-- where reading that one is a fault.
pub get_uint32-set_uint32_apart :
    (o i n : ℕ) (p : Packet)
    → o + 4 ≤ length p.memory
    → (i + 4 ≤ o) ⊎ (o + 4 ≤ i)
    → (set_uint32 o n p >>= get_uint32 i) ≡ get_uint32 i p
unfolding get_uint32 set_uint32 set_bytes
get_uint32-set_uint32_apart o i n p le apart =
    let four : leb (o + 4) (length p.memory) ≡ true = ground arith in
    let beside : (j : ℕ) → i ≤ j → j < i + 4 → (j < o) ⊎ (o + 4 ≤ j) =
      λ j lo hi. elim apart [ inl l ↦ inl (omega arith) | inr g ↦ inr (omega arith) ] in
    let bs = u32_bytes n in
    rw (
      four,
      length-put_at,
      off-put_at o i bs p.memory (beside i (omega arith) (omega arith)),
      off-put_at o (i + 1) bs p.memory (beside (i + 1) (omega arith) (omega arith)),
      off-put_at o (i + 2) bs p.memory (beside (i + 2) (omega arith) (omega arith)),
      off-put_at o (i + 3) bs p.memory (beside (i + 3) (omega arith) (omega arith)),
    )

-- The events of a packet, by its size and its thirteenth byte, which counts them: there are none, or
-- they lie inside the packet, or they end one byte behind it, exactly where the size is the count
-- and twelve.
pub get_midi_events_cases :
    (p : Packet)
    → ((get_midi_events p ≡ no_events) × ((p.size < 13) ⊎ (p.size < byte_at 12 p + 12)))
      ⊎ ((get_midi_events p ≡ events 13 (byte_at 12 p)) × (13 + byte_at 12 p ≤ p.size))
      ⊎ ((get_midi_events p ≡ events 13 (byte_at 12 p))
          × (p.size ≡ byte_at 12 p + 12)
          × (13 + byte_at 12 p ≡ p.size + 1))
unfolding get_midi_events
get_midi_events_cases p = elim (lt_eq_gt p.size 12) [
  | inl lt ↦ inl (ground arith, inl (omega arith))
  | inr (inl e) ↦ inl (ground arith, inl (omega arith))
  | inr (inr gt) ↦ elim (lt_eq_gt p.size (byte_at 12 p + 12)) [
    | inl lt ↦ inl (ground arith, inr lt)
    | inr (inl e) ↦ inr (inr (ground arith, e, omega arith))
    | inr (inr more) ↦ inr (inl (ground arith, omega arith))
  ]
]

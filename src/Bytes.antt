-- ===== src/Bytes.antt =====
-- include/rtpmidid/iobytes.hpp: a range of bytes with a position, read or written with checks.
-- A reader is the bytes before the position (nearest first) and those from it to the end.
-- A writer is the bytes before the position and the room left behind it.
pub mod RoundTrip
use rtpmidid.Common.{
  ℕ, zero, suc, ◌+◌, ◌-◌, ◌%◌, List, [], ◌∷◌, ◌++◌, length, take, drop, reverse, leb, if◌then◌else◌,
  Option, none, some, Bool, true, false, ◌==◌, ◌&&◌,
}
use rtpmidid.Common.Words.{u16_bytes, u32_bytes, u64_bytes, from_u16, from_u32, from_u64}
use rtpmidid.Errors.{Error, Result, ok, throw, fault, end_of_buffer, invalid_position, ◌>>=◌}

pub record Reader : Type 0 where
  pub seen : List ℕ
  pub rest : List ℕ

-- `io_bytes_reader(data, size)`
abbrev pub reader : List ℕ → Reader
reader bytes = record { seen = []; rest = bytes }

-- All bytes from `start` to `end`, and `size()`.
abbrev pub bytes : Reader → List ℕ
bytes r = reverse r.seen ++ r.rest

abbrev pub size : Reader → ℕ
size r = length r.seen + length r.rest

abbrev pub remaining : Reader → ℕ
remaining r = length r.rest

unfoldable pub check_enough : ℕ → Reader → Result (Unit {0})
check_enough n r = if leb n (length r.rest) then ok tt else throw end_of_buffer

abbrev pub forward : ℕ → Reader → Reader
forward n r = record { seen = reverse (take n r.rest) ++ r.seen; rest = drop n r.rest }

unfoldable pub skip : ℕ → Reader → Result Reader
skip n r = if leb n (length r.rest) then ok (forward n r) else throw invalid_position

unfoldable pub seek : ℕ → Reader → Result Reader
unfolding skip
seek p r = skip p (reader (bytes r))

same_bytes : List ℕ → List ℕ → Bool
same_bytes [] [] = true
same_bytes (x ∷ xs) (y ∷ ys) = x == y && same_bytes xs ys
same_bytes _ _ = false

unfoldable pub compare : Reader → Reader → Bool
unfolding same_bytes
compare a b = if size a == size b then same_bytes (bytes b) (bytes a) else false

-- Each read checks that enough bytes are left, and throws with nothing read if not.
take_uint8 : List ℕ → List ℕ → Result (ℕ × Reader)
take_uint8 s (a ∷ rest) = ok (a, record { seen = a ∷ s; rest = rest })
take_uint8 s _ = throw end_of_buffer

unfoldable pub read_uint8 : Reader → Result (ℕ × Reader)
unfolding take_uint8
read_uint8 r = take_uint8 r.seen r.rest

take_uint16 : List ℕ → List ℕ → Result (ℕ × Reader)
take_uint16 s (a ∷ b ∷ rest) = ok (from_u16 a b, record { seen = b ∷ a ∷ s; rest = rest })
take_uint16 s _ = throw end_of_buffer

unfoldable pub read_uint16 : Reader → Result (ℕ × Reader)
unfolding take_uint16
read_uint16 r = take_uint16 r.seen r.rest

take_uint32 : List ℕ → List ℕ → Result (ℕ × Reader)
take_uint32 s (a ∷ b ∷ c ∷ d ∷ rest) =
    ok (from_u32 a b c d, record { seen = d ∷ c ∷ b ∷ a ∷ s; rest = rest })
take_uint32 s _ = throw end_of_buffer

unfoldable pub read_uint32 : Reader → Result (ℕ × Reader)
unfolding take_uint32
read_uint32 r = take_uint32 r.seen r.rest

take_uint64 : List ℕ → List ℕ → Result (ℕ × Reader)
take_uint64 s (a ∷ b ∷ c ∷ d ∷ e ∷ f ∷ g ∷ h ∷ rest) =
    ok (from_u64 a b c d e f g h, record { seen = h ∷ g ∷ f ∷ e ∷ d ∷ c ∷ b ∷ a ∷ s; rest = rest })
take_uint64 s _ = throw end_of_buffer

unfoldable pub read_uint64 : Reader → Result (ℕ × Reader)
unfolding take_uint64
read_uint64 r = take_uint64 r.seen r.rest

-- `while (*position && position < end)`: the byte is read before the end is tested, so a text with
-- no zero byte is read one byte past the end.
take_str0 : List ℕ → List ℕ → List ℕ → Result (List ℕ × Reader)
take_str0 s text [] = fault
take_str0 s text (zero ∷ rest) = ok (reverse text, record { seen = zero ∷ text ++ s; rest = rest })
take_str0 s text (suc c ∷ rest) = take_str0 s (suc c ∷ text) rest

unfoldable pub read_str0 : Reader → Result (List ℕ × Reader)
unfolding take_str0
read_str0 r = take_str0 r.seen [] r.rest

pub record Writer : Type 0 where
  pub written : List ℕ
  pub room : ℕ

-- `io_bytes_writer_static<Size>`
abbrev pub writer : ℕ → Writer
writer n = record { written = []; room = n }

-- `io_bytes_reader(io_bytes_writer)`: reads what was written, from the start.
abbrev pub written_reader : Writer → Reader
written_reader w = reader w.written

abbrev put : ℕ → List ℕ → Writer → Result Writer
put n bs w =
    if leb n w.room
    then ok (record { written = w.written ++ bs; room = w.room - n })
    else throw end_of_buffer

unfoldable pub write_uint8 : ℕ → Writer → Result Writer
write_uint8 n w = put 1 ((n % 256) ∷ []) w

unfoldable pub write_uint16 : ℕ → Writer → Result Writer
write_uint16 n w = put 2 (u16_bytes n) w

unfoldable pub write_uint32 : ℕ → Writer → Result Writer
write_uint32 n w = put 4 (u32_bytes n) w

unfoldable pub write_uint64 : ℕ → Writer → Result Writer
write_uint64 n w = put 8 (u64_bytes n) w

-- Room is checked for the text only, and the zero byte is written after it.
unfoldable pub write_str0 : List ℕ → Writer → Result Writer
write_str0 s w =
    if leb (length s) w.room
    then (if leb (length s + 1) w.room
        then ok (record { written = w.written ++ (s ++ 0 ∷ []); room = w.room - (length s + 1) })
        else fault)
    else throw end_of_buffer

-- `copy_from(from, count)` and `copy_from(from)`, whose count is `from.size()`.
unfoldable pub copy_from_count : Reader → ℕ → Writer → Result Writer
unfolding check_enough
copy_from_count from n w = check_enough n from >>= λ _. put n (take n from.rest) w

unfoldable pub copy_from : Reader → Writer → Result Writer
unfolding copy_from_count
copy_from from w = copy_from_count from (size from) w

unfoldable pub copy_from_and_consume : Reader → ℕ → Writer → Result (Writer × Reader)
unfolding copy_from_count
copy_from_and_consume from n w = copy_from_count from n w >>= λ w'. ok (w', forward n from)

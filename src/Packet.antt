-- ===== src/Packet.antt =====
-- include/rtpmidid/packet.hpp and lib/rtpmidipacket.cpp: bytes in memory, read and written at offsets.
-- A packet is a pointer and a size: its bytes here are those from the pointer to the end of the
-- buffer that it points into, which may be more or fewer than the size. An access outside of them is
-- a `fault`. The functions with no result to fault, the tests of a packet's type, are for packets whose
-- bytes are all there. The packets of the session commands are in Packet.Command.
pub mod Command
pub mod Access
use rtpmidid.Common.{
  ℕ, zero, suc, ◌+◌, ◌-◌, ◌/◌, ◌%◌, List, [], ◌∷◌, ◌++◌, length, take, drop, get_or, leb, ltb, ◌==◌,
  ◌&&◌, not, if◌then◌else◌, Bool, true, false,
}
use rtpmidid.Common.Words.{u16_bytes, u32_bytes, u64_bytes, from_u16, from_u32, from_u64}
use rtpmidid.Common.Bits.{high_nibble}
use rtpmidid.Errors.{Result, ok, throw, fault, slice_out_of_bounds, packet_too_big, ◌>>=◌}

pub record Packet : Type 0 where
  pub memory : List ℕ
  pub size : ℕ

abbrev pub byte_at : ℕ → Packet → ℕ
byte_at i p = get_or 0 p.memory i

-- An access to `n` bytes from an offset on.
abbrev pub access {ℓ} : {A : Type ℓ} → ℕ → ℕ → Packet → A → Result A
access offset n p x = if leb (offset + n) (length p.memory) then ok x else fault

unfoldable pub get_uint8 : ℕ → Packet → Result ℕ
get_uint8 o p = access o 1 p (byte_at o p)

unfoldable pub get_uint16 : ℕ → Packet → Result ℕ
get_uint16 o p = access o 2 p (from_u16 (byte_at o p) (byte_at (o + 1) p))

unfoldable pub get_uint32 : ℕ → Packet → Result ℕ
get_uint32 o p =
    access o 4 p
      (from_u32 (byte_at o p) (byte_at (o + 1) p) (byte_at (o + 2) p) (byte_at (o + 3) p))

unfoldable pub get_uint64 : ℕ → Packet → Result ℕ
get_uint64 o p = access o 8 p (
    from_u64 (byte_at o p) (byte_at (o + 1) p) (byte_at (o + 2) p) (byte_at (o + 3) p)
      (byte_at (o + 4) p) (byte_at (o + 5) p) (byte_at (o + 6) p) (byte_at (o + 7) p))

-- The bytes `bs` in place of those at the offset.
unfoldable pub put_at : ℕ → List ℕ → List ℕ → List ℕ
put_at o bs [] = []
put_at zero [] (x ∷ xs) = x ∷ xs
put_at zero (b ∷ bs) (x ∷ xs) = b ∷ put_at zero bs xs
put_at (suc o) bs (x ∷ xs) = x ∷ put_at o bs xs

unfoldable pub set_bytes : ℕ → List ℕ → Packet → Result Packet
unfolding put_at
set_bytes o bs p = access o (length bs) p (record p { memory = put_at o bs p.memory })

unfoldable pub set_uint8 : ℕ → ℕ → Packet → Result Packet
unfolding set_bytes
set_uint8 o n p = set_bytes o ((n % 256) ∷ []) p

unfoldable pub set_uint16 : ℕ → ℕ → Packet → Result Packet
unfolding set_bytes
set_uint16 o n p = set_bytes o (u16_bytes n) p

unfoldable pub set_uint32 : ℕ → ℕ → Packet → Result Packet
unfolding set_bytes
set_uint32 o n p = set_bytes o (u32_bytes n) p

unfoldable pub set_uint64 : ℕ → ℕ → Packet → Result Packet
unfolding set_bytes
set_uint64 o n p = set_bytes o (u64_bytes n) p

unfoldable pub slice : ℕ → ℕ → Packet → Result Packet
slice offset n p =
    if leb (offset + n) p.size
    then ok (record { memory = drop offset p.memory; size = n })
    else throw slice_out_of_bounds

-- `packet_managed_t<SIZE>::copy_from`, into a buffer of its own.
unfoldable pub copy_from : Packet → List ℕ → Result Packet
unfolding put_at
copy_from p buffer =
    if leb p.size (length buffer)
    then access 0 p.size p
        (record { memory = put_at 0 (take p.size p.memory) buffer; size = p.size })
    else throw packet_too_big

-- `packet_managed_t<SIZE>::clear`
unfoldable pub clear : Packet → Packet
clear p = record p { size = 0 }

pub data PacketType : Type 0 where
  unknown midi command : PacketType

unfoldable pub is_command_packet : Packet → Bool
is_command_packet p = leb 13 p.size && byte_at 0 p == 0xFF && byte_at 1 p == 0xFF

unfoldable pub is_midi_packet : Packet → Bool
is_midi_packet p =
    leb 12 p.size && not (byte_at 0 p == 0xFF && byte_at 1 p == 0xFF) && byte_at 0 p / 64 % 4 == 2

unfoldable pub get_packet_type : Packet → PacketType
unfolding is_command_packet is_midi_packet
get_packet_type p =
    if is_command_packet p then command else if is_midi_packet p then midi else unknown

-- `midi_event_list_t`: the offset of its first byte in the packet, and its size; or none of either.
pub data MidiEvents : Type 0 where
  no_events : MidiEvents
  events : ℕ → ℕ → MidiEvents

unfoldable pub get_midi_events : Packet → MidiEvents
get_midi_events p =
    if ltb p.size 13
    then no_events
    else if ltb p.size (byte_at 12 p + 12)
    then no_events
    else events 13 (byte_at 12 p)

-- `midi_event_t::get_event_size`, of an event that has `size` bytes at most.
unfoldable pub get_event_size : ℕ → ℕ → ℕ
get_event_size first size =
    let h = high_nibble first in
    let n = if h == 0x80 then 3 else if h == 0x90 then 3 else 1 in if ltb size n then size else n

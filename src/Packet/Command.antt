-- ===== src/Packet/Command.antt =====
-- include/rtpmidid/rtpmidipacket.hpp: the packets of the session commands, field by field.
use rtpmidid.Common.{
  ℕ, zero, suc, ◌+◌, ◌-◌, List, [], ◌∷◌, ◌++◌, length, take, drop, replicate, leb, ltb, ◌==◌, ◌||◌,
  if◌then◌else◌,
}
use rtpmidid.Errors.{Result, ok, fault, ◌>>=◌}
use rtpmidid.Peer.{in_command, ok_command}
use rtpmidid.Packet.{
  Packet, get_uint8, get_uint16, get_uint32, get_uint64, set_bytes, set_uint8, set_uint16,
  set_uint32, set_uint64,
}

unfoldable pub get_command : Packet → Result ℕ
unfolding get_uint16
get_command p = get_uint16 2 p

unfoldable pub get_protocol_version : Packet → Result ℕ
unfolding get_uint32
get_protocol_version p = get_uint32 4 p

-- Behind the initiator's token in an invitation and its acceptance, and in front of it in the others.
unfoldable pub get_sender_ssrc : Packet → Result ℕ
unfolding get_uint32 get_command
get_sender_ssrc p = get_command p >>= λ t.
    if t == in_command || t == ok_command then get_uint32 12 p else get_uint32 8 p

unfoldable pub set_command : ℕ → Packet → Result Packet
unfolding set_uint16
set_command command p = set_uint16 2 command p

-- `memset(&data[8], 0, size - 8)`, whose count wraps below a size of 8.
unfoldable pub clear_fields : Packet → Result Packet
unfolding set_bytes
clear_fields p = if leb 8 p.size then set_bytes 8 (replicate (p.size - 8) 0) p else fault

unfoldable pub initialize : Packet → Result Packet
unfolding set_uint8 set_uint32 clear_fields
initialize p =
    set_uint8 0 0xFF p >>= λ p. set_uint8 1 0xFF p >>= λ p. set_uint32 4 2 p >>= λ p. clear_fields p

-- `initialize(cmd)` of an invitation or acceptance, and of a clock command.
unfoldable pub initialize_command : ℕ → Packet → Result Packet
unfolding initialize set_command
initialize_command command p = initialize p >>= λ p. set_command command p

unfoldable pub get_initiator_token : Packet → Result ℕ
unfolding get_uint32
get_initiator_token p = get_uint32 8 p

unfoldable pub set_initiator_token : ℕ → Packet → Result Packet
unfolding set_uint32
set_initiator_token token p = set_uint32 8 token p

-- `packet_command_in_ok_t::set_sender_ssrc`
unfoldable pub set_sender_ssrc : ℕ → Packet → Result Packet
unfolding set_uint32
set_sender_ssrc ssrc p = set_uint32 12 ssrc p

-- A C string: up to its zero byte, which must be there.
unfoldable pub c_string : List ℕ → Result (List ℕ)
c_string [] = fault
c_string (zero ∷ xs) = ok []
c_string (suc c ∷ xs) = c_string xs >>= λ text. ok (suc c ∷ text)

unfoldable pub get_name : Packet → Result (List ℕ)
unfolding get_command c_string
get_name p = get_command p >>= λ t.
    if t == in_command || t == ok_command then c_string (drop 16 p.memory) else ok []

-- `std::min(name.size(), size - 17)`, where the difference wraps below a size of 17.
unfoldable pub set_name : List ℕ → Packet → Result Packet
unfolding set_bytes
set_name name p =
    let n =
      if ltb p.size 17
      then length name
      else if ltb (p.size - 17) (length name)
      then p.size - 17
      else length name in
    set_bytes 16 (take n name ++ 0 ∷ []) p

unfoldable pub get_size_to_send : Packet → Result ℕ
unfolding get_command c_string
get_size_to_send p = get_command p >>= λ t.
    if t == in_command || t == ok_command
    then (c_string (drop 16 p.memory) >>= λ text. ok (16 + length text + 1))
    else ok 16

unfoldable pub as_send_packet : Packet → Result Packet
unfolding get_size_to_send
as_send_packet p = get_size_to_send p >>= λ n. ok (record p { size = n })

-- `packet_command_ck_t`: its SSRC stands where the others have the protocol.
unfoldable pub set_ck_ssrc : ℕ → Packet → Result Packet
unfolding set_uint32
set_ck_ssrc ssrc p = set_uint32 4 ssrc p

unfoldable pub get_count : Packet → Result ℕ
unfolding get_uint8
get_count p = get_uint8 8 p

unfoldable pub set_count : ℕ → Packet → Result Packet
unfolding set_uint8
set_count n p = set_uint8 8 n p

-- `get_ck0`, `get_ck1` and `get_ck2`, by their number, and their setters.
unfoldable pub get_ck : ℕ → Packet → Result ℕ
unfolding get_uint64
get_ck zero p = get_uint64 12 p
get_ck (suc zero) p = get_uint64 20 p
get_ck (suc (suc n)) p = get_uint64 28 p

unfoldable pub set_ck : ℕ → ℕ → Packet → Result Packet
unfolding set_uint64
set_ck zero time p = set_uint64 12 time p
set_ck (suc zero) time p = set_uint64 20 time p
set_ck (suc (suc n)) time p = set_uint64 28 time p

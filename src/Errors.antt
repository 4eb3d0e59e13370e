-- ===== src/Errors.antt =====
-- The exceptions that the library throws (include/rtpmidid/exceptions.hpp, iobytes.hpp and
-- rtppeer.hpp), and the results of code that may throw.
-- `fault` is no C++ value: it stands for a step whose behaviour is undefined, such as a read or
-- a write outside a buffer.

pub data Error : Type 0 where
  end_of_buffer invalid_position slice_out_of_bounds packet_too_big : Error
  invalid_command not_implemented bad_protocol unknown_initiator : Error
  bad_midi_packet bad_sysex : Error

pub data Result {ℓ} (A : Type ℓ) : Type ℓ where
  ok : A → Result A
  throw : Error → Result A
  fault : Result A

infixl 5 ◌>>=◌
abbrev pub ◌>>=◌ {ℓ κ} : {A : Type ℓ} {B : Type κ} → Result A → (A → Result B) → Result B
ok a >>= f = f a
throw e >>= f = throw e
fault >>= f = fault

-- ===== src/Peer.antt =====
-- include/rtpmidid/rtppeer.hpp and lib/rtppeer.cpp: one end of an RTP MIDI session.
-- The state of a peer, the signals that it emits, and the monad of its methods: a method runs on
-- the peer, the buffer that it reads and the signals so far, and keeps what it changed when it
-- throws. Signals are recorded in their order; what listeners do comes after the method.
-- The commands are in Peer.Commands, the MIDI payload in Peer.Midi, the journal in Peer.Journal,
-- what is sent unasked in Peer.Sending, and the entry point in Peer.Receive.
pub mod Sending
pub mod Commands
pub mod Journal
pub mod Midi
pub mod Receive
pub mod Handshake
pub mod Session
pub mod Progress
pub mod RtpPacket
pub mod Delivery
pub mod SysEx
pub mod Parts
pub mod Faults
pub mod Invariant
mod Examples
pub mod Goodbye
pub mod ClockSync
use rtpmidid.Common.{
  ℕ, zero, suc, ◌+◌, ◌-◌, ◌*◌, ◌/◌, ◌%◌, ◌^◌, List, [], ◌∷◌, ◌++◌, Bool, true, false, ◌==◌, Option,
  none, some,
}
use rtpmidid.Errors.{Error, Result, ok, throw, fault}
use rtpmidid.Bytes.{Reader, reader, Writer}

pub data Port : Type 0 where
  midi_port control_port : Port

-- `commands_e`
abbrev pub in_command : ℕ
in_command = 0x494e

abbrev pub ok_command : ℕ
ok_command = 0x4f4b

abbrev pub no_command : ℕ
no_command = 0x4e4f

abbrev pub by_command : ℕ
by_command = 0x4259

abbrev pub ck_command : ℕ
ck_command = 0x434b

abbrev pub rs_command : ℕ
rs_command = 0x5253

-- `status_e`: the first four are the states of a peer, as two bits; the codes from 128 on are only
-- sent in events.
abbrev pub not_connected : ℕ
not_connected = 0

abbrev pub control_connected : ℕ
control_connected = 1

abbrev pub midi_connected : ℕ
midi_connected = 2

abbrev pub connected : ℕ
connected = 3

abbrev pub disconnected_peer_disconnected : ℕ
disconnected_peer_disconnected = 130

abbrev pub disconnected_connection_rejected : ℕ
disconnected_connection_rejected = 131

abbrev pub disconnected_disconnect : ℕ
disconnected_disconnect = 132

-- The bit of a port in the status: MIDI_CONNECTED is 1 << 1, and CONTROL_CONNECTED 1 << 0.
abbrev pub port_bit : Port → ℕ
port_bit midi_port = 1
port_bit control_port = 0

-- Names are lists of bytes; numbers are within the widths of their C++ types.
pub record Peer : Type 0 where
  pub status : ℕ
  pub initiator_id : ℕ
  pub remote_ssrc : ℕ
  pub local_ssrc : ℕ
  pub local_name : List ℕ
  pub remote_name : List ℕ
  pub seq_nr_ack : ℕ
  pub seq_nr : ℕ
  pub remote_seq_nr : ℕ
  pub timestamp_start : ℕ
  pub latency : ℕ
  pub waiting_ck : Bool
  pub running_status : ℕ
  pub sysex : List ℕ

-- What a peer tells others. `add_stat` is the call of `stats.add_stat` with a latency.
pub data Signal : Type 0 where
  send_event : List ℕ → Port → Signal
  midi_event : List ℕ → Signal
  status_change_event : ℕ → Signal
  ck_event add_stat : ℕ → Signal

pub record World : Type 0 where
  pub peer : Peer
  pub buffer : Reader
  pub events : List Signal

pub data Outcome {ℓ} (A : Type ℓ) : Type ℓ where
  done : A → World → Outcome A
  thrown : Error → World → Outcome A
  undefined out_of_fuel : Outcome A

abbrev pub M {ℓ} : Type ℓ → Type ℓ
M A = World → Outcome A

infixl 5 ◌>>=◌ ◌>>◌
abbrev pub and_then {ℓ κ} : {A : Type ℓ} {B : Type κ} → Outcome A → (A → M B) → Outcome B
and_then (done a w) f = f a w
and_then (thrown e w) f = thrown e w
and_then undefined f = undefined
and_then out_of_fuel f = out_of_fuel

abbrev pub ◌>>=◌ {ℓ κ} : {A : Type ℓ} {B : Type κ} → M A → (A → M B) → M B
◌>>=◌ m f w = and_then (m w) f

abbrev pub ◌>>◌ {ℓ} : {B : Type ℓ} → M (Unit {0}) → M B → M B
◌>>◌ m k w = and_then (m w) (λ _. k)

abbrev pub pure {ℓ} : {A : Type ℓ} → A → M A
pure a w = done a w

abbrev pub raise {ℓ} : {A : Type ℓ} → Error → M A
raise e w = thrown e w

abbrev pub choose {ℓ} : {A : Type ℓ} → Bool → M A → M A → M A
choose true m k w = m w
choose false m k w = k w

abbrev pub guard : Bool → Error → M (Unit {0})
guard true e w = done tt w
guard false e w = thrown e w

abbrev pub get_peer : M Peer
get_peer w = done w.peer w

abbrev pub modify : (Peer → Peer) → M (Unit {0})
modify f w = done tt (record w { peer = f w.peer })

abbrev pub emit : Signal → M (Unit {0})
emit s w = done tt (record w { events = w.events ++ s ∷ [] })

abbrev pub get_buffer : M Reader
get_buffer w = done w.buffer w

abbrev pub set_buffer : Reader → M (Unit {0})
set_buffer r w = done tt (record w { buffer = r })

-- A read of the buffer, and a step that may fail with no state of its own.
abbrev pub after_read {ℓ} : {A : Type ℓ} → Result (A × Reader) → M A
after_read (ok (a, r)) w = done a (record w { buffer = r })
after_read (throw e) w = thrown e w
after_read fault w = undefined

abbrev pub read {ℓ} : {A : Type ℓ} → (Reader → Result (A × Reader)) → M A
read f w = after_read (f w.buffer) w

abbrev pub lift {ℓ} : {A : Type ℓ} → Result A → M A
lift (ok a) w = done a w
lift (throw e) w = thrown e w
lift fault w = undefined

-- `CLOCK_MONOTONIC`, in seconds and nanoseconds.
pub record Clock : Type 0 where
  pub tv_sec : ℕ
  pub tv_nsec : ℕ

-- In units of 100 us. The quotient of the doubles is below the next whole number where the exact
-- one is, so its truncation is the quotient of the numbers.
abbrev pub now : Clock → ℕ
now c = (c.tv_sec * 10000 + c.tv_nsec / 100000) % 2 ^ 64

unfoldable pub get_timestamp : Clock → Peer → ℕ
get_timestamp c p = (now c + 2 ^ 64 - p.timestamp_start) % 2 ^ 64

-- `rtppeer_t(name)`, with the two random numbers that it draws: the first call of `get_timestamp`
-- runs with `timestamp_start` at 0.
unfoldable pub create : List ℕ → ℕ → ℕ → Clock → Peer
create name random_ssrc random_seq c = record {
  status = not_connected;
  initiator_id = 0;
  remote_ssrc = 0;
  local_ssrc = random_ssrc % 2 ^ 16;
  local_name = name;
  remote_name = [];
  seq_nr_ack = random_seq % 2 ^ 16;
  seq_nr = random_seq % 2 ^ 16;
  remote_seq_nr = 0;
  timestamp_start = now c;
  latency = 0;
  waiting_ck = false;
  running_status = 0;
  sysex = [];
}

unfoldable pub reset : Peer → Peer
reset p = record p { status = not_connected; remote_name = []; remote_ssrc = 0; initiator_id = 0 }

-- A method called from outside, with nothing to read; and one called with a packet.
abbrev pub call : {A : Type 0} → M A → Peer → Outcome A
call m p = m (record { peer = p; buffer = reader []; events = [] })

abbrev pub call_with : {A : Type 0} → M A → Peer → List ℕ → Outcome A
call_with m p bytes = m (record { peer = p; buffer = reader bytes; events = [] })

-- What others see of a method that returned: the peer and the signals.
abbrev pub returned : Outcome (Unit {0}) → Option (Peer × List Signal)
returned (done a w) = some (w.peer, w.events)
returned (thrown e w) = none
returned undefined = none
returned out_of_fuel = none

-- What others see of a method that threw.
abbrev pub refused : Outcome (Unit {0}) → Option (Error × Peer × List Signal)
refused (thrown e w) = some (e, w.peer, w.events)
refused (done a w) = none
refused undefined = none
refused out_of_fuel = none

-- ===== src/Sequencer.antt =====
-- src/aseq.hpp and src/aseq.cpp: the ALSA sequencer's ports and events.
pub mod Midi
pub mod SysEx
pub mod Rejoined
pub mod Encoding
mod Examples
use rtpmidid.Common.{
  ℕ, ◌/◌, ◌%◌, ◌^◌, List, [], ◌∷◌, ◌++◌, Bool, true, false, not, ◌&&◌, ◌||◌, ◌==◌, if◌then◌else◌,
  is_member, Option, none, some,
}
use rtpmidid.Text.{Text, same_text}

-- `aseq_t::port_t`, and `snd_seq_addr_t`.
pub record SeqPort : Type 0 where
  pub client : ℕ
  pub port : ℕ

abbrev pub same_port : SeqPort → SeqPort → Bool
same_port a b = a.client == b.client && a.port == b.port

-- The types that `read_ready` passes on as MIDI.
pub data MidiType : Type 0 where
  clock start continue stop noteoff noteon keypress controller pgmchange chanpress pitchbend :
      MidiType
  sysex qframe sensing : MidiType

-- An event of one of the types that the program handles, or of another. A MIDI event has its source,
-- its destination and its data, which for a SysEx are the bytes that come behind the event.
pub data SeqEvent : Type 0 where
  port_subscribed port_unsubscribed : SeqPort → SeqPort → SeqEvent
  midi : MidiType → SeqPort → SeqPort → List ℕ → SeqEvent
  port_start port_exit : SeqPort → SeqEvent
  other_event : ℕ → SeqEvent

pub data ClientType : Type 0 where
  type_hardware type_software type_system : ClientType

-- Bit 16 of the type, or 2.
unfoldable pub get_type_by_seq_type : ℕ → ClientType
get_type_by_seq_type type =
    if type / 2 ^ 16 % 2 == 1
    then type_hardware
    else if type == 2
    then type_hardware
    else type_software

-- What the library says of a client and its ports: the client's name, its port's, and its type.
pub record Clients : Type 0 where
  pub client_name : ℕ → Text
  pub port_name : SeqPort → Text
  pub client_type : ℕ → ℕ

-- `aseq_t`: its own client, and the ports that have a signal in `midi_event`.
pub record Sequencer : Type 0 where
  pub client_id : ℕ
  pub midi_event : List ℕ

-- A call of one of its signals.
pub data Notice : Type 0 where
  subscribe_event : ℕ → SeqPort → Text → Notice
  unsubscribe_event : ℕ → SeqPort → Notice
  midi_notice : ℕ → SeqEvent → Notice
  added_port_announcement : Text → ClientType → SeqPort → Notice
  removed_port_announcement : SeqPort → Notice

unfoldable pub get_client_name : Clients → SeqPort → Text
unfolding same_text
get_client_name clients addr =
    if same_text (clients.client_name addr.client) (clients.port_name addr)
    then clients.client_name addr.client
    else clients.client_name addr.client ++ (b'-' ∷ clients.port_name addr)

unfoldable pub get_client_type : Clients → SeqPort → ClientType
unfolding get_type_by_seq_type
get_client_type clients addr = get_type_by_seq_type (clients.client_type addr.client)

-- Of the two ports of a subscription, the first that is not the program's, or the second; and the
-- first that is, or the second.
abbrev pub get_other_ev_client_port : ℕ → SeqPort → SeqPort → SeqPort
get_other_ev_client_port client_id sender dest = if sender.client == client_id then dest else sender

abbrev pub get_my_ev_client_port : ℕ → SeqPort → SeqPort → SeqPort
get_my_ev_client_port client_id sender dest = if sender.client == client_id then sender else dest

subscribed : Clients → ℕ → SeqPort → SeqPort → List Notice
unfolding get_client_name
subscribed clients client_id other me =
    if not (other.client == client_id) && not (me.client == client_id)
    then []
    else subscribe_event me.port other (get_client_name clients other)
      ∷ (if me.client == other.client
          then subscribe_event other.port me (get_client_name clients me) ∷ []
          else [])

unsubscribed : ℕ → SeqPort → SeqPort → List Notice
unsubscribed client_id other me =
    if not (other.client == client_id) && not (me.client == client_id)
    then []
    else unsubscribe_event me.port other
      ∷ (if me.client == other.client then unsubscribe_event other.port me ∷ [] else [])

-- One round of `read_ready`.
unfoldable pub read_event : Clients → Sequencer → SeqEvent → List Notice
unfolding subscribed unsubscribed get_client_name get_client_type
read_event clients s (port_subscribed sender dest) =
    subscribed clients s.client_id (get_other_ev_client_port s.client_id sender dest)
      (get_my_ev_client_port s.client_id sender dest)
read_event clients s (port_unsubscribed sender dest) =
    unsubscribed s.client_id (get_other_ev_client_port s.client_id sender dest)
      (get_my_ev_client_port s.client_id sender dest)
read_event clients s (midi type source dest data_bytes) =
    if is_member dest.port s.midi_event
    then midi_notice dest.port (midi type source dest data_bytes) ∷ []
    else []
read_event clients s (port_start addr) =
    added_port_announcement (get_client_name clients addr) (get_client_type clients addr) addr ∷ []
read_event clients s (port_exit addr) = removed_port_announcement addr ∷ []
read_event clients s (other_event type) = []

unfoldable pub read_ready : Clients → Sequencer → List SeqEvent → List Notice
unfolding read_event
read_ready clients s [] = []
read_ready clients s (ev ∷ evs) = read_event clients s ev ++ read_ready clients s evs

erase_port : ℕ → List ℕ → List ℕ
erase_port port [] = []
erase_port port (x ∷ xs) = if x == port then xs else x ∷ erase_port port xs

-- `midi_event.erase(port)`
unfoldable pub remove_port : ℕ → Sequencer → Sequencer
unfolding erase_port
remove_port port s = record s { midi_event = erase_port port s.midi_event }

-- Calls of the sequencer library on a subscription, and what it answers: -16 is `busy`.
pub data Subscription : Type 0 where
  connect_to connect_from disconnect_to disconnect_from : ℕ → SeqPort → Subscription

pub data Answer : Type 0 where
  fine busy refused : Answer

-- `aseq_t::connection_t`
pub record SeqConnection : Type 0 where
  pub from : SeqPort
  pub to : SeqPort
  pub connected : Bool

connected_by : Answer → SeqPort → SeqPort → Option SeqConnection
connected_by fine from to = some (record { from = from; to = to; connected = false })
connected_by busy from to = some (record { from = from; to = to; connected = false })
connected_by refused from to = none

-- `aseq_t::connect`, with the calls it makes; `none` is its exception.
unfoldable pub connect :
    (Subscription → Answer) → ℕ → SeqPort → SeqPort → List Subscription × Option SeqConnection
unfolding connected_by
connect answer client_id from to =
    if from.client == client_id
    then (connect_to from.port to ∷ [], connected_by (answer (connect_to from.port to)) from to)
    else if to.client == client_id
    then (connect_from to.port from ∷ [], connected_by (answer (connect_from to.port from)) from to)
    else ([], none)

-- `aseq_t::disconnect`, whose calls may fail; false is its exception.
unfoldable pub disconnect : ℕ → SeqPort → SeqPort → List Subscription × Bool
disconnect client_id from to = (
  (if from.client == client_id then disconnect_to from.port to ∷ [] else [])
      ++ (if to.client == client_id then disconnect_from to.port from ∷ [] else []),
  from.client == client_id || to.client == client_id,
)

-- `connection_t::disconnect`
unfoldable pub drop_connection : ℕ → SeqConnection → List Subscription × SeqConnection
unfolding disconnect
drop_connection client_id c = (
  (if c.connected then (disconnect client_id c.from c.to).0 else []),
  record c { connected = false },
)

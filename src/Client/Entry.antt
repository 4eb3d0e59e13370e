-- ===== src/Client/Entry.antt =====
-- lib/rtpclient.cpp: what the client does on entry into a state, and `handle_event`.
-- The network is a parameter: the addresses of a name (`network_address_list_t`, by getaddrinfo),
-- and whether the sockets open, by how many the client has opened before. What the client asks of the sockets, the peer and the poller is
-- recorded as actions, in their order; the signals that these give back later (timers, the peer's
-- status and clock events) come in as further calls of `handle_event`.
use rtpmidid.Common.{
  ℕ, zero, suc, ◌+◌, ◌%◌, List, [], ◌∷◌, ◌++◌, Bool, Option, none, some, ltb, if◌then◌else◌,
}
use rtpmidid.Peer.{Port, control_port, midi_port}
use rtpmidid.Client.{
  State, error, wait_to_start, prepare_next_dns, resolve_next_ip_port, connect_control,
  connect_midi, all_connected, disconnect_control, send_ck_short, wait_send_ck_short,
  wait_send_ck_long, disconnect_because_cktimeout, send_ck_long, try_connect_to_all_known_dns,
  Event, started, next_ready, connect_list_exhausted, resolved, connect_failed, send_ck,
  wait_send_ck, latency_measured, connect, transition,
}

-- Endpoints (`hostname`, `port`) and socket addresses are numbers here: nothing looks into them.
pub record Network : Type 0 where
  pub resolve : ℕ → List ℕ
  pub opens : ℕ → Bool

pub data Timer : Type 0 where
  connect_timer midi_timer ck_timer ck_short_timer ck_long_timer reconnect_timer : Timer

-- The sockets are bound to a port of this host. An invitation goes out through `sendto`, to the port
-- at the control address. `listen_control`, `listen_midi` and `listen_ck` connect a listener to the
-- peer's signals, `forget_ck` drops the one for its clock, and `warn_ck` has one there that only
-- writes to the log.
pub data Action : Type 0 where
  open_control open_midi : Action
  connect_to : Port → ℕ → Action
  send_goodbye : Port → Action
  close_control disconnect send_ck0 disable_timer : Action
  listen_control listen_midi listen_ck forget_ck warn_ck : Action
  set_timer : Timer → Action

-- `address_port_known` and `address_port_pending`, the last one first: new endpoints are pushed to
-- the back, and the next one is taken from the back. `sockaddresses` is `none` while
-- `resolve_next_dns_sockaddress_list` is not valid, and else the addresses from its iterator on.
-- `sockets` is no field of the source: it is how many sockets were opened.
pub record Client : Type 0 where
  pub state : State
  pub known : List ℕ
  pub pending : List ℕ
  pub endpoint : ℕ
  pub sockaddresses : Option (List ℕ)
  pub control_address : ℕ
  pub ck_count : ℕ
  pub sockets : ℕ

-- The client, what it did, and the event that it fired last, if any.
abbrev pub Entered : Type 0
Entered = Client × List Action × Option Event

take_pending : Client → List ℕ → Entered
take_pending c [] = (c, [], some connect_list_exhausted)
take_pending c (e ∷ rest) = (record c { endpoint = e; pending = rest }, [], some next_ready)

unfoldable pub state_prepare_next_dns : Client → Entered
unfolding take_pending
state_prepare_next_dns c = take_pending c c.pending

-- The list at its begin, or the iterator moved on.
abbrev pub next_addresses : Network → ℕ → Option (List ℕ) → List ℕ
next_addresses net e none = net.resolve e
next_addresses net e (some []) = []
next_addresses net e (some (a ∷ rest)) = rest

take_address : Client → List ℕ → Entered
take_address c [] = (record c { sockaddresses = none }, [], some connect_list_exhausted)
take_address c (a ∷ rest) =
    (record c { sockaddresses = some (a ∷ rest); control_address = a }, [], some resolved)

unfoldable pub state_resolve_next_ip_port : Network → Client → Entered
unfolding take_address
state_resolve_next_ip_port net c = take_address c (next_addresses net c.endpoint c.sockaddresses)

unfoldable pub state_connect_control : Network → Client → Entered
state_connect_control net c =
    let opened = record c { sockets = c.sockets + 1 } in
    if net.opens c.sockets
    then (
      opened,
      open_control
          ∷ listen_control
          ∷ set_timer connect_timer
          ∷ connect_to control_port c.control_address
          ∷ [],
      none,
    )
    else (opened, open_control ∷ [], some connect_failed)

unfoldable pub state_connect_midi : Network → Client → Entered
state_connect_midi net c =
    let opened = record c { sockets = c.sockets + 1 } in
    if net.opens c.sockets
    then (
      opened,
      disable_timer
          ∷ open_midi
          ∷ listen_midi
          ∷ set_timer midi_timer
          ∷ connect_to midi_port c.control_address
          ∷ [],
      none,
    )
    else (opened, disable_timer ∷ open_midi ∷ [], some connect_failed)

unfoldable pub state_disconnect_control : Client → Entered
state_disconnect_control c =
    (c, disable_timer ∷ send_goodbye control_port ∷ close_control ∷ [], some connect_failed)

unfoldable pub state_all_connected : Client → Entered
state_all_connected c = (record c { ck_count = 0 }, disable_timer ∷ [], some send_ck)

unfoldable pub state_send_ck_short : Client → Entered
state_send_ck_short c = (
  record c { ck_count = (c.ck_count + 1) % 256 },
  set_timer ck_timer ∷ listen_ck ∷ send_ck0 ∷ [],
  none,
)

unfoldable pub state_send_ck_long : Client → Entered
state_send_ck_long c = (
  record c { ck_count = (c.ck_count + 1) % 256 },
  send_ck0 ∷ set_timer ck_timer ∷ listen_ck ∷ [],
  none,
)

unfoldable pub state_try_connect_to_all_known_dns : Client → Entered
state_try_connect_to_all_known_dns c = (record c { pending = c.known }, [], some connect)

-- The second switch of `handle_event`.
unfoldable pub enter : Network → State → Client → Entered
enter net error c = (c, disconnect ∷ set_timer reconnect_timer ∷ [], none)
enter net wait_to_start c = (c, [], none)
enter net prepare_next_dns c = state_prepare_next_dns c
enter net resolve_next_ip_port c = state_resolve_next_ip_port net c
enter net connect_control c = state_connect_control net c
enter net connect_midi c = state_connect_midi net c
enter net all_connected c = state_all_connected c
enter net disconnect_control c = state_disconnect_control c
enter net send_ck_short c = state_send_ck_short c
enter net wait_send_ck_short c = (c, set_timer ck_short_timer ∷ [], none)
enter net wait_send_ck_long c = (c, forget_ck ∷ set_timer ck_long_timer ∷ [], none)
enter net disconnect_because_cktimeout c = (c, disconnect ∷ [], some connect_failed)
enter net send_ck_long c = state_send_ck_long c
enter net try_connect_to_all_known_dns c = state_try_connect_to_all_known_dns c

abbrev pub prepend : List Action → Option (Client × List Action) → Option (Client × List Action)
prepend actions none = none
prepend actions (some (c, more)) = some (c, actions ++ more)

-- An entry function fires an event as its last act.
abbrev pub go_on :
    (Event → Client → Option (Client × List Action)) → Entered → Option (Client × List Action)
go_on handle (c, actions, none) = some (c, actions)
go_on handle (c, actions, some next) = prepend actions (handle next c)

-- The nested calls are a loop on fuel; `none` is no fuel left.
unfoldable pub handle_event : ℕ → Network → Event → Client → Option (Client × List Action)
handle_event zero net event c = none
handle_event (suc fuel) net event c =
    let s = transition c.state event in
    go_on (handle_event fuel net) (enter net s (record c { state = s }))

-- `add_server_address` before it calls `connect`, for one endpoint or several.
unfoldable pub add_server_addresses : List ℕ → Client → Client
add_server_addresses [] c = c
add_server_addresses (e ∷ es) c =
    add_server_addresses es (record c { known = e ∷ c.known; pending = e ∷ c.pending })

-- `connect`, which does nothing in any state but the first.
unfoldable pub connect_client : ℕ → Network → Client → Option (Client × List Action)
connect_client fuel net c = elim c.state [
  | wait_to_start ↦ handle_event fuel net started c
  | _ ↦ some (c, [])
]

-- What the listener for the peer's clock fires, while a CK0 of the short period or of the long one
-- is out. It stops the timer first, and leaves a listener that only warns.
unfoldable pub ck_short_event : Client → Event
ck_short_event c = if ltb c.ck_count 6 then wait_send_ck else latency_measured

abbrev after_timer : Option (Client × List Action) → Option (Client × List Action)
after_timer none = none
after_timer (some (c, actions)) = some (c, disable_timer ∷ (actions ++ warn_ck ∷ []))

unfoldable pub on_ck_short : ℕ → Network → Client → Option (Client × List Action)
unfolding ck_short_event
on_ck_short fuel net c = after_timer (handle_event fuel net (ck_short_event c) c)

unfoldable pub on_ck_long : ℕ → Network → Client → Option (Client × List Action)
on_ck_long fuel net c = after_timer (handle_event fuel net wait_send_ck c)

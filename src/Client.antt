-- ===== src/Client.antt =====
-- include/rtpmidid/rtpclient_statemachine.hpp and lib/rtpclient_statemachine.cpp: the states and
-- events of an RTP client, and the transition that `handle_event` makes first.
-- The entry functions of lib/rtpclient.cpp, and the events that these fire in turn, are in
-- Client.Entry.
pub mod Entry
pub mod Search
pub mod Latency
mod Examples
use rtpmidid.Common.{ℕ, List, [], ◌∷◌}

pub data State : Type 0 where
  error wait_to_start prepare_next_dns resolve_next_ip_port connect_control connect_midi : State
  all_connected disconnect_control send_ck_short wait_send_ck_short wait_send_ck_long : State
  disconnect_because_cktimeout send_ck_long try_connect_to_all_known_dns : State

pub data Event : Type 0 where
  started next_ready resolve_list_exhausted connect_list_exhausted resolve_failed : Event
  resolved connect_failed is_connected send_ck wait_send_ck latency_measured : Event
  timeout connect : Event

-- The first switch of `handle_event`: any event that a state does not name leads to `error`.
unfoldable pub transition : State → Event → State
transition error connect = try_connect_to_all_known_dns
transition wait_to_start started = prepare_next_dns
transition prepare_next_dns next_ready = resolve_next_ip_port
transition prepare_next_dns resolve_list_exhausted = error
transition resolve_next_ip_port connect_list_exhausted = prepare_next_dns
transition resolve_next_ip_port resolve_failed = resolve_next_ip_port
transition resolve_next_ip_port resolved = connect_control
transition connect_control connect_failed = resolve_next_ip_port
transition connect_control is_connected = connect_midi
transition connect_midi is_connected = all_connected
transition connect_midi connect_failed = disconnect_control
transition all_connected send_ck = send_ck_short
transition disconnect_control connect_failed = resolve_next_ip_port
transition send_ck_short wait_send_ck = wait_send_ck_short
transition send_ck_short latency_measured = wait_send_ck_long
transition send_ck_short timeout = disconnect_because_cktimeout
transition wait_send_ck_short send_ck = send_ck_short
transition wait_send_ck_long send_ck = send_ck_long
transition disconnect_because_cktimeout connect_failed = connect_control
transition send_ck_long wait_send_ck = wait_send_ck_long
transition send_ck_long timeout = disconnect_because_cktimeout
transition try_connect_to_all_known_dns connect = prepare_next_dns
transition _ _ = error

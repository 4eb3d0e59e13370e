-- ===== src/Client/Search.antt =====
-- lib/rtpclient.cpp: the search for an address that can be connected to.
use rtpmidid.Common.{
  ℕ, suc, ◌+◌, ◌≡◌, refl, List, [], ◌∷◌, ◌++◌, Bool-cases, inl, inr, none, some, if◌then◌else◌,
}
use rtpmidid.Peer.{control_port}
use rtpmidid.Client.{
  State, Event, transition, error, prepare_next_dns, resolve_next_ip_port, connect_control,
  connect_list_exhausted, next_ready, resolved, connect_failed, connect,
  try_connect_to_all_known_dns,
}
use rtpmidid.Client.Entry.{
  Client, Network, Action, open_control, listen_control, set_timer, connect_timer, connect_to,
  reconnect_timer, disconnect, enter, handle_event, next_addresses, state_prepare_next_dns,
  state_resolve_next_ip_port, state_connect_control, state_try_connect_to_all_known_dns,
}

-- The search as it should be: the addresses in their order up to the first for which a socket opens,
-- the endpoints in theirs, and an error that waits for the reconnect timer if there is none. `n`
-- sockets were opened before.
abbrev pub try_addresses : Network → List ℕ → (ℕ → List Action × State) → ℕ → List Action × State
try_addresses net [] rest n = rest n
try_addresses net (a ∷ others) rest n =
    let tried = try_addresses net others rest (n + 1) in
    if net.opens n
    then (
      open_control ∷ listen_control ∷ set_timer connect_timer ∷ connect_to control_port a ∷ [],
      connect_control,
    )
    else (open_control ∷ tried.0, tried.1)

abbrev pub try_endpoints : Network → List ℕ → ℕ → List Action × State
try_endpoints net [] n = (disconnect ∷ set_timer reconnect_timer ∷ [], error)
try_endpoints net (e ∷ es) n = try_addresses net (net.resolve e) (try_endpoints net es) n

-- With enough fuel the event leads to these actions and this state.
abbrev pub Reaches : Network → Event → Client → List Action × State → Type 0
Reaches net event c (actions, s) =
    (fuel : ℕ) × (c' : Client) × (handle_event fuel net event c ≡ some (c', actions))
    × (c'.state ≡ s)

rests :
    (net : Network) (event : Event) (c c' : Client) (s : State) (actions : List Action)
    → transition c.state event ≡ s
    → enter net s (record c { state = s }) ≡ (c', actions, none)
    → Reaches net event c (actions, c'.state)
unfolding handle_event
rests net event c c' s actions t e = (1, c', rw (t, e), refl)

fires :
    (net : Network) (event next : Event) (c c' : Client) (s : State) (actions : List Action)
    (more : List Action × State)
    → transition c.state event ≡ s
    → enter net s (record c { state = s }) ≡ (c', actions, some next)
    → Reaches net next c' more
    → Reaches net event c (actions ++ more.0, more.1)
unfolding handle_event
fires net event next c c' s actions more t e (fuel, c'', h, k) = (suc fuel, c'', rw (t, e, h), k)

-- One endpoint's addresses, where the search of the later endpoints is known.
search_addresses :
    (net : Network) (es : List ℕ)
    → ((c : Client) (event : Event)
        → transition c.state event ≡ prepare_next_dns
        → c.pending ≡ es
        → c.sockaddresses ≡ none
        → Reaches net event c (try_endpoints net es c.sockets))
    → (others : List ℕ) (c : Client) (event : Event)
    → transition c.state event ≡ resolve_next_ip_port
    → c.pending ≡ es
    → next_addresses net c.endpoint c.sockaddresses ≡ others
    → Reaches net event c (try_addresses net others (try_endpoints net es) c.sockets)
unfolding enter state_resolve_next_ip_port state_connect_control transition
search_addresses net es later [] c event t p n =
    fires net event connect_list_exhausted c
      (record c { state = resolve_next_ip_port; sockaddresses = none }) resolve_next_ip_port []
      (try_endpoints net es c.sockets) t (rw n)
      (later (record c { state = resolve_next_ip_port; sockaddresses = none })
        connect_list_exhausted refl p refl)
search_addresses net es later (a ∷ others) c event t p n =
    let found = record c {
      state = resolve_next_ip_port;
      sockaddresses = some (a ∷ others);
      control_address = a;
    } in
    let tried = record found { state = connect_control; sockets = c.sockets + 1 } in
    elim (Bool-cases (net.opens c.sockets)) [
      | inl opens ↦ rw opens (
          fires net event resolved c found resolve_next_ip_port [] _ t (rw n)
            (rests net resolved found tried connect_control _ refl (rw opens)))
      | inr closed ↦ rw closed (
          fires net event resolved c found resolve_next_ip_port [] _ t (rw n) (
            fires net resolved connect_failed found tried connect_control (open_control ∷ [])
              (try_addresses net others (try_endpoints net es) (c.sockets + 1)) refl (rw closed)
              (search_addresses net es later others tried connect_failed refl p refl)))
    ]

search_endpoints :
    (net : Network) (es : List ℕ) (c : Client) (event : Event)
    → transition c.state event ≡ prepare_next_dns
    → c.pending ≡ es
    → c.sockaddresses ≡ none
    → Reaches net event c (try_endpoints net es c.sockets)
unfolding enter state_prepare_next_dns transition
search_endpoints net [] c event t p n =
    let exhausted = record c { state = prepare_next_dns } in
    fires net event connect_list_exhausted c exhausted prepare_next_dns []
      (try_endpoints net [] c.sockets) t (rw p)
      (rests net connect_list_exhausted exhausted (record c { state = error }) error _ refl refl)
search_endpoints net (e ∷ es) c event t p n =
    let taken = record c { state = prepare_next_dns; endpoint = e; pending = es } in
    fires net event next_ready c taken prepare_next_dns [] (try_endpoints net (e ∷ es) c.sockets) t
      (rw p)
      (search_addresses net es (search_endpoints net es) (net.resolve e) taken next_ready refl refl
        (rw n))

-- When the reconnect timer of a client in `error` fires, and no address list is left over, the
-- client tries the addresses of every endpoint that it knows, the endpoint added last first and the
-- addresses of each in their order, up to the first for which a control socket opens, where it waits for the answer to its invitation; if there is none it is in
-- `error` again, disconnected and with its reconnect timer set. The nested calls end.
pub reconnect_searches :
    (net : Network) (c : Client)
    → c.state ≡ error
    → c.sockaddresses ≡ none
    → Reaches net connect c (try_endpoints net c.known c.sockets)
unfolding enter transition state_try_connect_to_all_known_dns
reconnect_searches net c e n =
    let restarted = record c { state = try_connect_to_all_known_dns; pending = c.known } in
    fires net connect connect c restarted try_connect_to_all_known_dns []
      (try_endpoints net c.known c.sockets) (rw e) refl
      (search_endpoints net c.known restarted connect refl refl n)

-- When the reconnect timer of a client in `error` fires while the address list of an earlier search is
-- left over, the endpoint added last is not resolved: the addresses that are tried first are those
-- behind the current one in the old list, then those of the other endpoints.
pub reconnect_skips_endpoint :
    (net : Network) (c : Client) (e a : ℕ) (es others : List ℕ)
    → c.state ≡ error
    → c.known ≡ e ∷ es
    → c.sockaddresses ≡ some (a ∷ others)
    → Reaches net connect c (try_addresses net others (try_endpoints net es) c.sockets)
unfolding enter transition state_try_connect_to_all_known_dns state_prepare_next_dns
reconnect_skips_endpoint net c e a es others s k n =
    let restarted = record c { state = try_connect_to_all_known_dns; pending = c.known } in
    let taken = record c { state = prepare_next_dns; endpoint = e; pending = es } in
    let found = try_addresses net others (try_endpoints net es) c.sockets in
    fires net connect connect c restarted try_connect_to_all_known_dns [] found (rw s) refl (
      fires net connect next_ready restarted taken prepare_next_dns [] found refl (rw k) (
        search_addresses net es (search_endpoints net es) others taken next_ready refl refl (rw n)))

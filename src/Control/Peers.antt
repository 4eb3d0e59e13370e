-- ===== src/Control/Peers.antt =====
-- src/control_socket.cpp, src/midipeer.cpp and src/local_alsa_listener.cpp: commands to one peer.
use rtpmidid.Common.{
  ℕ, ◌+◌, ◌*◌, ◌-◌, List, [], ◌∷◌, ◌++◌, Bool, true, false, not, ◌&&◌, ◌||◌, ◌==◌, leb,
  if◌then◌else◌, Option, none, some,
}
use rtpmidid.Text.{Text, codes, same_text, is_empty}
use rtpmidid.Discovery.{Endpoint, AlsaListener, add_endpoint, remove_endpoint}
use rtpmidid.Control.{
  Access, gives, throws, Shape, is_array, is_object, is_null, is_number, is_text, is_other, Json,
  ControlWorld, Surroundings, Ran, then_do,
}
use rtpmidid.Control.Commands.{entry, text_at}

abbrev is_digit : ℕ → Bool
is_digit c = leb 0x30 c && leb c 0x39

abbrev one_line : Text → Bool
one_line [] = true
one_line (c ∷ cs) = not (c == 0x0A || c == 0x0D) && one_line cs

-- The match of `^(\d*)\.(.*)`, whose last dot is no end of a line.
unfoldable pub match_peer : Text → Text → Option (Text × Text)
match_peer digits [] = none
match_peer digits (c ∷ cs) =
    let longer = match_peer (digits ++ c ∷ []) cs in
    if is_digit c then longer else if c == 0x2E && one_line cs then some (digits, cs) else none

abbrev value_of : ℕ → Text → ℕ
value_of n [] = n
value_of n (c ∷ cs) = value_of (n * 10 + (c - 0x30)) cs

-- `std::stoi` of digits.
unfoldable pub stoi : Text → Access ℕ
stoi digits =
    if is_empty digits || leb 2147483648 (value_of 0 digits)
    then throws (codes "stoi")
    else gives (value_of 0 digits)

abbrev pub listener_of : ℕ → List AlsaListener → Option AlsaListener
listener_of id [] = none
listener_of id (l ∷ ls) = if l.peer_id == id then some l else listener_of id ls

abbrev pub put_listener : AlsaListener → List AlsaListener → List AlsaListener
put_listener l [] = []
put_listener l (x ∷ xs) = (if x.peer_id == l.peer_id then l else x) ∷ put_listener l xs

module _ {J : Type 0} (j : Json J) (s : Surroundings J) where
  -- `midipeer_t::command`
  unfoldable pub base_command : Text → ℕ → ControlWorld → Ran J
  base_command cmd id w =
      if same_text cmd (codes "help")
      then (gives s.peer_help, w)
      else if same_text cmd (codes "status")
      then (gives (s.peer_status id w), w)
      else (
        gives
            (j.braces (entry j s (codes "error") (j.text (codes "Command not implemented")) ∷ [])),
        w,
      )

  port_of_shape : Shape → J → Access Text
  port_of_shape is_number v = gives (j.number_text v)
  port_of_shape is_text v = j.as_text v
  port_of_shape is_null v = j.as_text v
  port_of_shape is_object v = j.as_text v
  port_of_shape (is_array n) v = j.as_text v
  port_of_shape is_other v = j.as_text v

  endpoint_of : J → ControlWorld → (Endpoint → Ran J) → Ran J
  unfolding port_of_shape
  endpoint_of params w f = then_do (text_at j s (codes "hostname") params) w (λ host.
      then_do (j.const_member (codes "port") params) w (λ v.
        then_do (port_of_shape (j.shape v) v) w
          (λ port. f (record { hostname = host; port = port }))))

  abbrev with_listener : AlsaListener → ControlWorld → ControlWorld
  with_listener l w = record w {
    daemon = record w.daemon { listeners = put_listener l w.daemon.listeners };
  }

  abbrev removed : AlsaListener × Bool → ControlWorld → Ran J
  removed (l, true) w = (gives (j.braces (j.text (codes "ok") ∷ [])), with_listener l w)
  removed (l, false) w =
      (gives (entry j s (codes "error") (j.text (codes "Endpoint not found"))), w)

  -- `local_alsa_listener_t::command`
  unfoldable pub listener_command : Text → J → AlsaListener → ControlWorld → Ran J
  unfolding endpoint_of base_command
  listener_command cmd params l w =
      if same_text cmd (codes "add_endpoint")
      then endpoint_of params w
          (λ e. (gives (j.braces (j.text (codes "ok") ∷ [])), with_listener (add_endpoint e l) w))
      else if same_text cmd (codes "remove_endpoint")
      then endpoint_of params w (λ e. removed (remove_endpoint e l) w)
      else if same_text cmd (codes "help")
      then (gives s.listener_help, w)
      else base_command cmd l.peer_id w

  abbrev pub command_of_peer : Text → ℕ → J → Option AlsaListener → ControlWorld → Ran J
  command_of_peer cmd id params none w = base_command cmd id w
  command_of_peer cmd id params (some l) w = listener_command cmd params l w

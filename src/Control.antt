-- ===== src/Control.antt =====
-- src/control_socket.hpp and src/control_socket.cpp: what the commands of the control socket work on.
-- The JSON library is an interface: its values, and the calls that the source makes of it.
pub mod Commands
pub mod Peers
pub mod Replies
pub mod Socket
mod Examples
use rtpmidid.Common.{ℕ, List, [], ◌∷◌, ◌++◌, Bool, Option, none, some}
use rtpmidid.Text.{Text}
use rtpmidid.Daemon.{Daemon, Kind}
use rtpmidid.Router
use rtpmidid.Mdns
use rtpmidid.Mdns.{Mdns}

-- What a call of the library gives, the text of what it throws, or nothing that is defined: a key or
-- an index that a constant value does not have.
pub data Access {ℓ} (A : Type ℓ) : Type ℓ where
  gives : A → Access A
  throws : Text → Access A
  undefined : Access A

infixl 5 ◌>>=◌
abbrev pub ◌>>=◌ {ℓ κ} : {A : Type ℓ} {B : Type κ} → Access A → (A → Access B) → Access B
gives a >>= f = f a
throws e >>= f = throws e
undefined >>= f = undefined

pub data Shape : Type 0 where
  is_array : ℕ → Shape
  is_object is_null is_number is_text is_other : Shape

-- `json_t`. `braces` is the constructor from a list in braces, `member_or_null` is `operator[]` of a
-- value that is not constant, which adds a missing key, and `const_member` that of a constant one;
-- `dump` throws where a text of the value is not valid UTF-8;
-- `number_text` is `std::to_string` of a number.
pub record Json (J : Type 0) : Type 0 where
  pub parse : Text → Access J
  pub dump : J → Access Text
  pub text : Text → J
  pub braces : List J → J
  pub put : Text → J → J → J
  pub shape : J → Shape
  pub contains : Text → J → Bool
  pub member_or_null : Text → J → Access J
  pub const_member : Text → J → Access J
  pub const_element : ℕ → J → Access J
  pub as_text : J → Access Text
  pub as_number : J → Access ℕ
  pub find : Text → J → Option J
  pub number_text : J → Text

-- What the commands change, with the calls and actions that they caused.
pub record ControlWorld : Type 0 where
  pub daemon : Daemon
  pub mdns : Mdns
  pub calls : List Router.Call
  pub actions : List Mdns.Action

-- What is read from elsewhere: the values that report on the daemon, on a peer and on mDNS, the port
-- of a new ALSA listener, the guessed name of a device, and Avahi's answers.
pub record Surroundings (J : Type 0) : Type 0 where
  pub status : ControlWorld → J
  pub peer_status : ℕ → ControlWorld → J
  pub list : J
  pub help : J
  pub peer_help : J
  pub listener_help : J
  pub rawmidi_help : J
  pub alsaport : ℕ
  pub guessed : Text → Text
  pub answers : Mdns.Answers

-- What a command returns, and what it leaves.
abbrev pub Ran : Type 0 → Type 0
Ran A = Access A × ControlWorld

abbrev pub then_do {ℓ} : {A : Type ℓ} {B : Type 0} → Access A → ControlWorld → (A → Ran B) → Ran B
then_do (gives a) w f = f a
then_do (throws e) w f = (throws e, w)
then_do undefined w f = (undefined, w)

abbrev pub with_router : Router.Router × List Router.Call → ControlWorld → ControlWorld
with_router (r, calls) w = record w {
  daemon = record w.daemon { router = r };
  calls = w.calls ++ calls;
}

abbrev pub with_daemon : Daemon × List Router.Call → ControlWorld → ControlWorld
with_daemon (d, calls) w = record w { daemon = d; calls = w.calls ++ calls }

abbrev pub with_mdns : Mdns × List Mdns.Action → ControlWorld → ControlWorld
with_mdns (m, actions) w = record w { mdns = m; actions = w.actions ++ actions }

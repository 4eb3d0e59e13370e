-- ===== src/Control/Socket.antt =====
-- src/control_socket.cpp: clients, and the reply to what they send. Replies and closed files are a list;
-- whether a reply can be written is an argument.
use rtpmidid.Common.{
  ℕ, List, [], ◌∷◌, ◌++◌, length, Bool, true, false, ◌==◌, leb, if◌then◌else◌, Option, none, some,
}
use rtpmidid.Text.{Text, codes, trim, to_string}
use rtpmidid.Router.{is_known}
use rtpmidid.Control.{
  Access, gives, throws, undefined, Json, ControlWorld, Surroundings, Ran, then_do,
}
use rtpmidid.Control.Commands.{entry, command_named}
use rtpmidid.Control.Peers.{match_peer, stoi, listener_of, command_of_peer}

-- The file descriptors of the clients, in front of what the commands change.
pub record ControlSocket : Type 0 where
  pub clients : List ℕ
  pub world : ControlWorld

pub data Reply : Type 0 where
  writes : ℕ → Text → Reply
  closes : ℕ → Reply

abbrev pub msg_too_long : Text
msg_too_long = codes "{\"event\": \"close\", \"detail\": \"Message too long\", \"code\": 1}\n"

-- A C string ends at its first 0.
abbrev pub until_zero : List ℕ → Text
until_zero [] = []
until_zero (c ∷ cs) = if c == 0 then [] else c ∷ until_zero cs

module _ {J : Type 0} (j : Json J) (s : Surroundings J) where
  -- The `catch` around the commands: what it returns is a dump too, whose exception nothing catches.
  abbrev pub error_reply : J → Text → Access Text
  error_reply reply e = j.dump (j.put (codes "error") (j.text e) reply)

  -- The end of the `try` is the dump of `retdata`, which the `catch` finds as the command has left it.
  abbrev pub dumped : J → Access Text → Access Text
  dumped r (gives t) = gives t
  dumped r (throws e) = error_reply r e
  dumped r undefined = undefined

  abbrev pub caught : J → Ran J → Ran Text
  caught reply (gives r, w) = (dumped r (j.dump r), w)
  caught reply (throws e, w) = (error_reply reply e, w)
  caught reply (undefined, w) = (undefined, w)

  abbrev with_result : J → J → J
  with_result reply r =
      if j.contains (codes "error") r
      then j.put (codes "error") r reply
      else j.put (codes "result") r reply

  -- The answer of a peer goes on as its error, or as its result.
  unfoldable pub peer_answer : J → Ran J → Ran J
  peer_answer reply (gives r, w) =
      if j.contains (codes "error") r
      then then_do (j.member_or_null (codes "error") r) w
          (λ e. (gives (j.put (codes "error") e reply), w))
      else (gives (j.put (codes "result") r reply), w)
  peer_answer reply (throws e, w) = (throws e, w)
  peer_answer reply (undefined, w) = (undefined, w)

  unfoldable pub peer_command : J → J → Text × Text → ControlWorld → Ran J
  unfolding peer_answer
  peer_command reply message (digits, cmd) w = then_do (stoi digits) w (λ id.
      if is_known w.daemon.router id
      then then_do (j.member_or_null (codes "params") message) w (λ params.
        peer_answer reply (command_of_peer j s cmd id params (listener_of id w.daemon.listeners) w))
      else (
        gives (
            j.put (codes "error") (j.text (codes "Unknown peer '" ++ (to_string id ++ codes "'")))
              reply),
        w,
      ))

  abbrev pub named_answer : J → Ran J → Ran J
  named_answer reply (gives r, w) = (gives (j.put (codes "result") r reply), w)
  named_answer reply (throws e, w) = (throws e, w)
  named_answer reply (undefined, w) = (undefined, w)

  -- A method that no command has is one of a peer, or unknown.
  unfoldable pub other_answer : J → J → Text → ControlWorld → Ran J
  unfolding peer_command
  other_answer reply message method w = elim (match_peer [] method) [
    | some found ↦ peer_command reply message found w
    | none ↦ (
      gives (
          j.put (codes "error") (j.text (codes "Unknown method '" ++ (method ++ codes "'"))) reply),
      w,
    )
  ]

  -- What is behind the `try` of `parse_command`.
  abbrev pub answer : J → J → Text → Option (J → ControlWorld → Ran J) → ControlWorld → Ran J
  answer reply message method (some f) w =
      then_do (j.member_or_null (codes "params") message) w
        (λ params. named_answer reply (f params w))
  answer reply message method none w = other_answer reply message method w

  -- The part in front of it, whose exceptions nothing here catches.
  abbrev pub answer_message : J → ControlWorld → Ran Text
  answer_message message w = then_do (j.member_or_null (codes "method") message) w (λ v.
      then_do (j.as_text v) w (λ method. then_do (j.member_or_null (codes "id") message) w (λ id.
        let reply = j.braces (entry j s (codes "id") id ∷ []) in
        caught reply (answer reply message method (command_named j s method) w))))

  abbrev pub answer_parsed : Access J → ControlWorld → Ran Text
  answer_parsed (gives message) w = answer_message message w
  answer_parsed (throws e) w = (j.dump (j.braces (entry j s (codes "error") (j.text e) ∷ [])), w)
  answer_parsed undefined w = (undefined, w)

  unfoldable pub parse_command : Text → ControlWorld → Ran Text
  parse_command command w = answer_parsed (j.parse command) w

  abbrev without_client : ℕ → List ℕ → List ℕ
  without_client fd [] = []
  without_client fd (c ∷ cs) = if c == fd then cs else c ∷ without_client fd cs

  -- `remove_client`: the descriptor is closed whether it is a client's or not.
  abbrev pub remove_client : ℕ → ControlSocket → ControlSocket × List Reply
  remove_client fd c = (record c { clients = without_client fd c.clients }, closes fd ∷ [])

  -- A text is written; where it cannot be, the client goes.
  abbrev pub reply_to : ℕ → Text → Bool → ControlSocket → ControlSocket × List Reply
  reply_to fd t true c = (c, writes fd t ∷ [])
  reply_to fd t false c = remove_client fd c

  unfoldable pub connection_ready : Option ℕ → ControlSocket → ControlSocket
  connection_ready none c = c
  connection_ready (some fd) c = record c { clients = c.clients ++ fd ∷ [] }

  -- How `data_ready` ends: it returns, throws what the poller catches, or has undefined behaviour.
  abbrev pub Ended : Type 0
  Ended = Access (Unit {0}) × ControlSocket × List Reply

  abbrev pub returned : ControlSocket × List Reply → Ended
  returned (c, replies) = (gives tt, c, replies)

  abbrev pub replied : ℕ → Bool → Ran Text → ControlSocket → Ended
  replied fd can_write (gives t, w) c =
      returned (reply_to fd (t ++ codes "\n") can_write (record c { world = w }))
  replied fd can_write (throws e, w) c = (throws e, record c { world = w }, [])
  replied fd can_write (undefined, w) c = (undefined, record c { world = w }, [])

  -- What `recv` gives: at most 1024 bytes, or an error, whose -1 is a large size.
  unfoldable pub data_ready : ℕ → Bool → Option (List ℕ) → ControlSocket → Ended
  unfolding parse_command
  data_ready fd can_write none c = returned (reply_to fd msg_too_long can_write c)
  data_ready fd can_write (some []) c = returned (remove_client fd c)
  data_ready fd can_write (some (b ∷ bs)) c =
      if leb 1023 (length (b ∷ bs))
      then returned (reply_to fd msg_too_long can_write c)
      else replied fd can_write (parse_command (trim (until_zero (b ∷ bs))) c.world) c

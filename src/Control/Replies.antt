-- ===== src/Control/Replies.antt =====
-- src/control_socket.cpp: which messages are answered, and with what.
use rtpmidid.Common.{
  ℕ, ◌≡◌, ◌≢◌, ◌<◌, refl, ap, ◌∙◌, List, [], ◌∷◌, ◌++◌, length, Bool, true, false, leb, arith, some,
}
use rtpmidid.Text.{Text, codes, same_text, trim}
use rtpmidid.Router
use rtpmidid.Router.{Call}
use rtpmidid.Control.{
  Access, gives, throws, undefined, Json, ControlWorld, Surroundings, Ran, with_router,
}
use rtpmidid.Control.Commands.{entry, ok, command_named, run_connect_peers, run_disconnect_peers}
use rtpmidid.Control.Socket.{
  ControlSocket, writes, until_zero, caught, named_answer, answer, answer_message, answer_parsed,
  parse_command, replied, data_ready,
}

-- The two commands on links.
pub data Link : Type 0 where
  joins parts : Link

abbrev pub link_method : Link → Text
link_method joins = codes "router.connect"
link_method parts = codes "router.disconnect"

abbrev pub link_router : Link → ℕ → ℕ → Router.Router → Router.Router × List Call
link_router joins = Router.connect
link_router parts = Router.disconnect

module _ {J : Type 0} (j : Json J) (s : Surroundings J) where
  -- What `data_ready` does with a message that is not too long.
  data_ready_short :
      (fd : ℕ) (can_write : Bool) (b : ℕ) (bs : List ℕ) (c : ControlSocket)
      → length (b ∷ bs) < 1023
      → data_ready j s fd can_write (some (b ∷ bs)) c
        ≡ replied j s fd can_write (parse_command j s (trim (until_zero (b ∷ bs))) c.world) c
  unfolding data_ready
  data_ready_short fd can_write b bs c h =
      let short : leb 1023 (length (b ∷ bs)) ≡ false = ground (arith, h) in rw short

  parse_command_given :
      (command : Text) (message : J) (w : ControlWorld)
      → j.parse command ≡ gives message
      → parse_command j s command w ≡ answer_message j s message w
  unfolding parse_command
  parse_command_given command message w e = ap (λ a. answer_parsed j s a w) e

  answer_message_named :
      (message v id : J) (method : Text) (w : ControlWorld)
      → j.member_or_null (codes "method") message ≡ gives v
      → j.as_text v ≡ gives method
      → j.member_or_null (codes "id") message ≡ gives id
      → let reply = j.braces (entry j s (codes "id") id ∷ []) in
        answer_message j s message w
        ≡ caught j s reply (answer j s reply message method (command_named j s method) w)
  answer_message_named message v id method w em ev ei = rw (em, ev, ei)

  answer_message_unnamed :
      (message v : J) (e : Text) (w : ControlWorld)
      → j.member_or_null (codes "method") message ≡ gives v
      → j.as_text v ≡ throws e
      → answer_message j s message w ≡ (throws e, w)
  answer_message_unnamed message v e w em ev = rw (em, ev)

  -- A message is parsed, and its method is a text or not.
  pub record Parsed (bytes : List ℕ) (message v : J) : Type 0 where
    pub short : length bytes < 1023
    pub parsed : j.parse (trim (until_zero bytes)) ≡ gives message
    pub method : j.member_or_null (codes "method") message ≡ gives v

  -- A message whose method is missing or is no text is not answered, not even with an error: the
  -- exception leaves `data_ready`, and nothing is written, closed or changed.
  pub data_ready_unanswered :
      (fd : ℕ) (can_write : Bool) (b : ℕ) (bs : List ℕ) (message v : J) (e : Text)
      (c : ControlSocket)
      → Parsed (b ∷ bs) message v
      → j.as_text v ≡ throws e
      → data_ready j s fd can_write (some (b ∷ bs)) c ≡ (throws e, c, [])
  data_ready_unanswered fd can_write b bs message v e c p t =
      data_ready_short fd can_write b bs c p.short
      ∙ ap (λ r. replied j s fd can_write r c)
          (parse_command_given (trim (until_zero (b ∷ bs))) message c.world p.parsed
            ∙ answer_message_unnamed message v e c.world p.method t)

  -- The reply that a command's outcome asks for, where that is defined: what it has put together, or
  -- the error that it throws beside the message's id.
  abbrev pub reply_of : J → Access J → J
  reply_of reply (gives r) = r
  reply_of reply (throws e) = j.put (codes "error") (j.text e) reply
  reply_of reply undefined = reply

  caught-reply_of :
      (reply : J) (r : Ran J) (t : Text)
      → r.0 ≢ undefined
      → j.dump (reply_of reply r.0) ≡ gives t
      → caught j s reply r ≡ (gives t, r.1)
  caught-reply_of reply (gives a, w) t u d = rw d
  caught-reply_of reply (throws e, w) t u d = rw d
  caught-reply_of reply (undefined, w) t u d = absurd (u refl)

  abbrev pub ok_reply : J → J
  ok_reply id = j.put (codes "result") (ok j s) (j.braces (entry j s (codes "id") id ∷ []))

  -- A message that calls for two peers, with the text that is answered.
  pub record Links (bytes : List ℕ) (message params id : J) (method : Text) (from to : ℕ)
      (text : Text) : Type 0 where
    pub v : J
    pub vfrom : J
    pub vto : J
    pub parsed : Parsed bytes message v
    pub named : j.as_text v ≡ gives method
    pub numbered : j.member_or_null (codes "id") message ≡ gives id
    pub given : j.member_or_null (codes "params") message ≡ gives params
    pub has_from : j.const_member (codes "from") params ≡ gives vfrom
    pub has_to : j.const_member (codes "to") params ≡ gives vto
    pub from_number : j.as_number vfrom ≡ gives from
    pub to_number : j.as_number vto ≡ gives to
    pub dumped : j.dump (ok_reply id) ≡ gives text

  abbrev linking_command : Link → J → ControlWorld → Ran J
  linking_command joins = run_connect_peers j s
  linking_command parts = run_disconnect_peers j s

  answer_named :
      (reply message params : J) (method : Text) (f : J → ControlWorld → Ran J) (w : ControlWorld)
      → command_named j s method ≡ some f
      → j.member_or_null (codes "params") message ≡ gives params
      → answer j s reply message method (command_named j s method) w
        ≡ named_answer j s reply (f params w)
  answer_named reply message params method f w n g =
      ap (λ o. answer j s reply message method o w) n ∙ rw g

  run_connect_peers-Links :
      {bytes : List ℕ} {message params id : J} {method : Text} {from to : ℕ} {text : Text}
      (w : ControlWorld)
      → Links bytes message params id method from to text
      → (run_connect_peers j s params w
          ≡ (gives (ok j s), with_router (Router.connect from to w.daemon.router) w))
        × (run_disconnect_peers j s params w
            ≡ (gives (ok j s), with_router (Router.disconnect from to w.daemon.router) w))
  unfolding run_connect_peers run_disconnect_peers
  run_connect_peers-Links w l = (
    rw (l.has_from, l.from_number, l.has_to, l.to_number),
    rw (l.has_from, l.from_number, l.has_to, l.to_number),
  )

  linked :
      {message params id : J} {method : Text} {from to : ℕ} {text : Text} (fd b : ℕ) (bs : List ℕ)
      (c : ControlSocket) (f : J → ControlWorld → Ran J) (w : ControlWorld)
      → Links (b ∷ bs) message params id method from to text
      → command_named j s method ≡ some f
      → f params c.world ≡ (gives (ok j s), w)
      → data_ready j s fd true (some (b ∷ bs)) c
        ≡ (gives tt, record c { world = w }, writes fd (text ++ codes "\n") ∷ [])
  linked {message = message} {params = params} {id = id} {method = method} {text = text} fd b bs c f
        w l n run =
      let reply = j.braces (entry j s (codes "id") id ∷ []) in
      data_ready_short fd true b bs c l.parsed.short
      ∙ ap (λ r. replied j s fd true r c)
          (parse_command_given (trim (until_zero (b ∷ bs))) message c.world l.parsed.parsed
            ∙ answer_message_named message l.v id method c.world l.parsed.method l.named l.numbered
            ∙ ap (caught j s reply) (
                answer_named reply message params method f c.world n l.given
                ∙ ap (named_answer j s reply) run)
            ∙ caught-reply_of reply (gives (ok_reply id), w) text (λ e. cc) l.dumped)

  run_link :
      {bytes : List ℕ} {message params id : J} (kind : Link) {from to : ℕ} {text : Text}
      (w : ControlWorld)
      → Links bytes message params id (link_method kind) from to text
      → linking_command kind params w
        ≡ (gives (ok j s), with_router (link_router kind from to w.daemon.router) w)
  run_link joins w l = (run_connect_peers-Links w l).0
  run_link parts w l = (run_connect_peers-Links w l).1

  named_link : (kind : Link) → command_named j s (link_method kind) ≡ some (linking_command kind)
  unfolding command_named same_text
  named_link joins = refl
  named_link parts = refl

  -- A command `router.connect` or `router.disconnect` with two ids is answered with "ok" and the
  -- message's own id, whether the router knows the peers or not, and does to the router exactly what
  -- its method of that name does; the clients stay. The reply must be one that can be dumped, and the
  -- client must take the text.
  pub data_ready-Links :
      {message params id : J} {from to : ℕ} {text : Text} (kind : Link) (fd b : ℕ) (bs : List ℕ)
      (c : ControlSocket)
      → Links (b ∷ bs) message params id (link_method kind) from to text
      → data_ready j s fd true (some (b ∷ bs)) c ≡ (
        gives tt,
        record c { world = with_router (link_router kind from to c.world.daemon.router) c.world },
        writes fd (text ++ codes "\n") ∷ [],
      )
  data_ready-Links kind fd b bs c l =
      linked fd b bs c (linking_command kind) _ l (named_link kind) (run_link kind c.world l)

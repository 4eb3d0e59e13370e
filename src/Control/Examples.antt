-- ===== src/Control/Examples.antt =====
-- Requests of one client, with JSON values that are few: a text, a number, nothing, or an object.
use rtpmidid.Common.{
  ℕ, ◌≡◌, refl, [], ◌∷◌, Bool, true, false, Option, none, some, arith, if◌then◌else◌,
}
use rtpmidid.Text.{Text, codes, same_text, trim}
use rtpmidid.Router
use rtpmidid.Router.{Router}
use rtpmidid.Mdns.{established}
use rtpmidid.Daemon.Joined.{made}
use rtpmidid.Control.{
  Access, gives, throws, undefined, Shape, is_object, is_null, is_number, is_text, Json,
  Surroundings, with_router,
}
use rtpmidid.Control.Commands.{command_named}
use rtpmidid.Control.Peers.{match_peer}
use rtpmidid.Control.Socket.{ControlSocket, writes, answer, other_answer, data_ready}
use rtpmidid.Control.Replies.{Parsed, Links, data_ready_unanswered, data_ready-Links, joins}

data Value : Type 0 where
  nothing : Value
  words : Text → Value
  number : ℕ → Value
  member : Text → Value → Value → Value

abbrev look : Text → Value → Option Value
look key nothing = none
look key (words t) = none
look key (number n) = none
look key (member k v rest) = if same_text k key then some v else look key rest

abbrev or_null : Option Value → Access Value
or_null none = gives nothing
or_null (some v) = gives v

abbrev or_undefined : Option Value → Access Value
or_undefined none = undefined
or_undefined (some v) = gives v

abbrev is_there : Option Value → Bool
is_there none = false
is_there (some v) = true

abbrev text_of : Value → Access Text
text_of (words t) = gives t
text_of nothing = throws (codes "type must be string, but is null")
text_of (number n) = throws (codes "type must be string, but is number")
text_of (member k v rest) = throws (codes "type must be string, but is object")

abbrev number_of : Value → Access ℕ
number_of (number n) = gives n
number_of nothing = throws (codes "type must be number, but is null")
number_of (words t) = throws (codes "type must be number, but is string")
number_of (member k v rest) = throws (codes "type must be number, but is object")

abbrev shape_of : Value → Shape
shape_of nothing = is_null
shape_of (words t) = is_text
shape_of (number n) = is_number
shape_of (member k v rest) = is_object

-- The text of a value is not looked at; one text stands for the value that is sent.
abbrev library : Value → Json Value
library message = record {
  parse = λ t. if same_text t (codes "{}") then gives message else throws (codes "parse error");
  dump = λ v. gives (codes "...");
  text = words;
  braces = λ vs. nothing;
  put = member;
  shape = shape_of;
  contains = λ key v. is_there (look key v);
  member_or_null = λ key v. or_null (look key v);
  const_member = λ key v. or_undefined (look key v);
  const_element = λ n v. undefined;
  as_text = text_of;
  as_number = number_of;
  find = look;
  number_text = λ v. codes "0";
}

abbrev around : Surroundings Value
around = record {
  status = λ w. nothing;
  peer_status = λ id w. nothing;
  list = nothing;
  help = nothing;
  peer_help = nothing;
  listener_help = nothing;
  rawmidi_help = nothing;
  alsaport = 1;
  guessed = λ device. device;
  answers = record { state = established; takes = λ added name port. true; commits = true };
}

abbrev two_peers : Router
two_peers = record { max_id = 3; peers = made 2 [] ∷ made 1 [] ∷ [] }

abbrev control : ControlSocket
control = record {
  clients = 7 ∷ [];
  world = record {
    daemon = record { router = two_peers; kinds = []; listeners = [] };
    mdns = record {
      client = true;
      group = true;
      service_browser = true;
      announcements = [];
      remote_announcements = [];
      announce_suffix = 0;
    };
    calls = [];
    actions = [];
  };
}

abbrev request : Text → Value
request method = member (codes "method") (words method) (
    member (codes "id") (number 5) (
      member (codes "params")
        (member (codes "from") (number 1) (member (codes "to") (number 2) nothing)) nothing))

-- The method is a number.
abbrev numbered : Value
numbered = member (codes "method") (number 1) nothing

numbered-Parsed : Parsed (library numbered) around (codes "{}") numbered (number 1)
unfolding trim same_text
numbered-Parsed = record { short = omega arith; parsed = refl; method = refl }

data_ready_unanswered_example :
    data_ready (library numbered) around 7 true (some (codes "{}")) control
    ≡ (throws (codes "type must be string, but is number"), control, [])
data_ready_unanswered_example =
    data_ready_unanswered (library numbered) around 7 true b'{' (b'}' ∷ []) numbered (number 1)
      (codes "type must be string, but is number") control numbered-Parsed refl

abbrev wrong : Value
wrong = request (codes "router.conect")

request-Parsed :
    (method : Text)
    → Parsed (library (request method)) around (codes "{}") (request method) (words method)
unfolding trim same_text
request-Parsed method = record { short = omega arith; parsed = refl; method = refl }

abbrev no_method : Text
no_method = codes "Unknown method 'router.conect'"

-- No command has the method, and no peer: the answer is an error.
answer-wrong :
    (answer
      (library wrong)
      around
      nothing
      wrong
      (codes "router.conect")
      (command_named (library wrong) around (codes "router.conect"))
      control.world).0
    ≡ gives (member (codes "error") (words no_method) nothing)
unfolding command_named same_text other_answer match_peer
answer-wrong = refl

-- Where the text of the error is not valid UTF-8, the `catch` throws itself, and nothing is written.
abbrev strict : Json Value
strict = record (library wrong) { dump = λ v. throws (codes "invalid UTF-8 byte") }

not_dumped :
    data_ready strict around 7 true (some (codes "{}")) control
    ≡ (throws (codes "invalid UTF-8 byte"), control, [])
unfolding data_ready command_named trim same_text other_answer match_peer
not_dumped = refl

abbrev linking : Value
linking = request (codes "router.connect")

linking-Links :
    Links
      (library linking)
      around
      (codes "{}")
      linking
      (member (codes "from") (number 1) (member (codes "to") (number 2) nothing))
      (number 5)
      (codes "router.connect")
      1
      2
      (codes "...")
unfolding same_text
linking-Links = record {
  v = words (codes "router.connect");
  vfrom = number 1;
  vto = number 2;
  parsed = request-Parsed (codes "router.connect");
  named = refl;
  numbered = refl;
  given = refl;
  has_from = refl;
  has_to = refl;
  from_number = refl;
  to_number = refl;
  dumped = refl;
}

data_ready-Links_example :
    data_ready (library linking) around 7 true (some (codes "{}")) control ≡ (
      gives tt,
      record control { world = with_router (Router.connect 1 2 two_peers) control.world },
      writes 7 (codes "...\n") ∷ [],
    )
data_ready-Links_example =
    data_ready-Links (library linking) around joins 7 b'{' (b'}' ∷ []) control linking-Links

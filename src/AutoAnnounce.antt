-- ===== src/AutoAnnounce.antt =====
-- src/hwautoannounce.cpp: which sequencer ports are connected to the exported port by themselves.
mod Examples
use rtpmidid.Common.{
  ℕ, List, [], ◌∷◌, ◌++◌, Bool, true, false, not, ◌&&◌, ◌||◌, if◌then◌else◌, Option, none, some,
}
use rtpmidid.Text.{Text}
use rtpmidid.Settings.{
  AlsaHwAutoExport, AlsaHwAutoExportType, none_type, all, hardware, software, system,
}
use rtpmidid.Sequencer.{
  ClientType, type_hardware, type_software, type_system, SeqPort, same_port, SeqConnection,
  Subscription, Answer, connect, drop_connection,
}

-- `matches` is whether a regular expression matches a whole text; one that is not set matches.
abbrev pub is_wanted : (Text → Text → Bool) → AlsaHwAutoExport → Text → Bool
is_wanted matches settings name = elim settings.name_positive [
  | none ↦ true
  | some regex ↦ matches regex name
]

abbrev pub is_unwanted : (Text → Text → Bool) → AlsaHwAutoExport → Text → Bool
is_unwanted matches settings name = elim settings.name_negative [
  | none ↦ false
  | some regex ↦ matches regex name
]

abbrev pub has_type : AlsaHwAutoExportType → ClientType → Bool
has_type none_type type = false
has_type all type = true
has_type hardware type_hardware = true
has_type hardware type_software = false
has_type hardware type_system = false
has_type software type_hardware = false
has_type software type_software = true
has_type software type_system = false
has_type system type_hardware = false
has_type system type_software = false
has_type system type_system = true

unfoldable pub is_announced : (Text → Text → Bool) → AlsaHwAutoExport → Text → ClientType → Bool
is_announced matches settings name type =
    has_type settings.type type
    && is_wanted matches settings name
    && not (is_unwanted matches settings name)

-- One exported port: the connections in both directions; an exception of the first is the end.
and_back :
    (Subscription → Answer)
    → ℕ
    → SeqPort
    → SeqPort
    → List Subscription × Option SeqConnection
    → List SeqConnection
    → List Subscription × Option (List SeqConnection)
unfolding connect
and_back answer client_id port exported (calls, none) connections = (calls, none)
and_back answer client_id port exported (calls, some con1) connections =
    let (more, con2) = connect answer client_id exported port in
    (calls ++ more, elim con2 [ none ↦ none | some c ↦ some (connections ++ con1 ∷ c ∷ []) ])

unfoldable pub announce :
    (Subscription → Answer)
    → ℕ
    → SeqPort
    → ℕ
    → List SeqConnection
    → List Subscription × Option (List SeqConnection)
unfolding connect and_back
announce answer client_id port exported_port connections =
    let exported : SeqPort = record { client = client_id; port = exported_port } in
    and_back answer client_id port exported (connect answer client_id port exported) connections

-- `removed_port_announcement`: the connections that have the port go.
abbrev pub without_port : SeqPort → List SeqConnection → List SeqConnection
without_port port [] = []
without_port port (c ∷ cs) =
    let rest = without_port port cs in
    if same_port c.from port || same_port c.to port then rest else c ∷ rest

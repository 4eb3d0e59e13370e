-- ===== src/Discovery/Known.antt =====
-- src/rtpmidiremotehandler.cpp: one peer for each name, one endpoint for each address.
use rtpmidid.Common.{
  ℕ, ◌≡◌, refl, ◌∙◌, List, [], ◌∷◌, ◌++◌, Bool, false, ◌||◌, All, All-append, Bool-cases, inl, inr,
  arith,
}
use rtpmidid.Text.{Text, codes, same_text}
use rtpmidid.Settings.{RtpmidiDiscover}
use rtpmidid.Discovery.Endpoints.{
  same_text_comm, EndpointsDiffer, add_endpoint-EndpointsDiffer, ListenersDiffer,
  make_local_alsa_listener-EndpointsDiffer,
}
use rtpmidid.Discovery.{
  Endpoint, AlsaListener, KnownRemotePeer, make_local_alsa_listener, has_name, add_to_known,
  check_if_add_peer, discover_peer, remove_known, remove_remote_peer, Report, discovers, removes,
  report, report_all,
}

abbrev pub NamesDiffer : List KnownRemotePeer → Type 0
NamesDiffer [] = Unit
NamesDiffer (p ∷ ps) = (has_name p.name ps ≡ false) × NamesDiffer ps

-- No two peers have the same name, and no two endpoints of one peer have the same host and port.
pub record IsValid (peers : List KnownRemotePeer) : Type 0 where
  pub names : NamesDiffer peers
  pub endpoints : All (λ p. EndpointsDiffer p.alsawaiter.endpoints) peers

pub has_name-append :
    (name : Text) (p : KnownRemotePeer) (ps : List KnownRemotePeer)
    → has_name name (ps ++ p ∷ []) ≡ (has_name name ps || same_text p.name name)
has_name-append name p [] = ground arith
has_name-append name p (q ∷ qs) = ground (arith, has_name-append name p qs)

NamesDiffer-append :
    (p : KnownRemotePeer) (ps : List KnownRemotePeer)
    → has_name p.name ps ≡ false
    → NamesDiffer ps
    → NamesDiffer (ps ++ p ∷ [])
NamesDiffer-append p [] h d = (refl, tt)
NamesDiffer-append p (q ∷ qs) h d = (
  ground (arith, has_name-append q.name p qs, same_text_comm q.name p.name, d.0),
  NamesDiffer-append p qs (ground arith) d.1,
)

pub has_name-add_to_known :
    (n name : Text) (e : Endpoint) (ps : List KnownRemotePeer)
    → has_name n (add_to_known name e ps) ≡ has_name n ps
has_name-add_to_known n name e [] = refl
has_name-add_to_known n name e (p ∷ ps) = elim (Bool-cases (same_text p.name name)) [
  | inl h ↦ rw h
  | inr h ↦ rw (h, has_name-add_to_known n name e ps)
]

add_to_known-NamesDiffer :
    (name : Text) (e : Endpoint) (ps : List KnownRemotePeer)
    → NamesDiffer ps
    → NamesDiffer (add_to_known name e ps)
add_to_known-NamesDiffer name e [] d = d
add_to_known-NamesDiffer name e (p ∷ ps) d = elim (Bool-cases (same_text p.name name)) [
  | inl h ↦ rw h d
  | inr h ↦
      rw h (has_name-add_to_known p.name name e ps ∙ d.0, add_to_known-NamesDiffer name e ps d.1)
]

abbrev Differ : List KnownRemotePeer → Type 0
Differ = All (λ p. EndpointsDiffer p.alsawaiter.endpoints)

add_to_known-Differ :
    (name : Text) (e : Endpoint) (ps : List KnownRemotePeer)
    → Differ ps
    → Differ (add_to_known name e ps)
add_to_known-Differ name e [] d = d
add_to_known-Differ name e (p ∷ ps) d = elim (Bool-cases (same_text p.name name)) [
  | inl h ↦ rw h (add_endpoint-EndpointsDiffer e p.alsawaiter d.0, d.1)
  | inr h ↦ rw h (d.0, add_to_known-Differ name e ps d.1)
]

pub has_name-remove_known :
    (n name : Text) (ps : List KnownRemotePeer)
    → has_name n ps ≡ false
    → has_name n (remove_known name ps).0 ≡ false
has_name-remove_known n name [] h = h
has_name-remove_known n name (p ∷ ps) h = ground (arith, has_name-remove_known n name ps)

pub remove_known-IsValid :
    (name : Text) (ps : List KnownRemotePeer) → IsValid ps → IsValid (remove_known name ps).0
remove_known-IsValid name [] v = v
remove_known-IsValid name (p ∷ ps) v =
    let tail : IsValid ps = record { names = v.names.1; endpoints = v.endpoints.1 } in
    let rest = remove_known-IsValid name ps tail in
    elim (Bool-cases (same_text p.name name)) [
      | inl h ↦ rw h tail
      | inr h ↦ rw h (record {
        names = (has_name-remove_known p.name name ps v.names.0, rest.names);
        endpoints = (v.endpoints.0, rest.endpoints);
      })
    ]

pub discover_peer-IsValid :
    (search : Text → Text → Bool) (settings : RtpmidiDiscover) (ls : List AlsaListener)
    (name : Text) (e : Endpoint) (peer_id alsaport : ℕ) (ps : List KnownRemotePeer)
    → ListenersDiffer ls
    → IsValid ps
    → IsValid (discover_peer search settings ls name e peer_id alsaport ps).0
unfolding discover_peer
discover_peer-IsValid search settings ls name e peer_id alsaport ps d v =
    let new : KnownRemotePeer = record {
      name = name;
      alsawaiter = make_local_alsa_listener ls name e (codes "0") peer_id alsaport;
    } in
    let differ =
      make_local_alsa_listener-EndpointsDiffer ls name e (codes "0") peer_id alsaport d in
    elim (Bool-cases (check_if_add_peer search settings name e)) [
      | inl c ↦ elim (Bool-cases (has_name name ps)) [
        | inl h ↦
            rw (c, h)
              (record {
                names = add_to_known-NamesDiffer name e ps v.names;
                endpoints = add_to_known-Differ name e ps v.endpoints;
              })
        | inr h ↦
            rw (c, h)
              (record {
                names = NamesDiffer-append new ps h v.names;
                endpoints = All-append _ ps (new ∷ []) v.endpoints (differ, tt);
              })
      ]
      | inr c ↦ rw c v
    ]

-- With each report, the router's listeners.
abbrev pub ReportsDiffer : List Report → Type 0
ReportsDiffer [] = Unit
ReportsDiffer (discovers ls name e peer_id alsaport ∷ rs) = ListenersDiffer ls × ReportsDiffer rs
ReportsDiffer (removes name e ∷ rs) = ReportsDiffer rs

-- Whatever mDNS reports, and whatever the settings accept, no two known peers have the same name, and
-- no two endpoints of one peer have the same host and port, if this was so before, and if no listener
-- that the router has at a report has two endpoints with the same host and port: a name that is found
-- again gets its address added to the peer that it has, and a new name takes the router's listener of
-- that name, if there is one.
pub report_all-IsValid :
    (search : Text → Text → Bool) (settings : RtpmidiDiscover) (reports : List Report)
    (peers : List KnownRemotePeer)
    → ReportsDiffer reports
    → IsValid peers
    → IsValid (report_all search settings reports peers)
unfolding report_all report remove_remote_peer
report_all-IsValid search settings [] peers d v = v
report_all-IsValid search settings (discovers ls name e peer_id alsaport ∷ rs) peers d v =
    report_all-IsValid search settings rs
      (discover_peer search settings ls name e peer_id alsaport peers).0 d.1
      (discover_peer-IsValid search settings ls name e peer_id alsaport peers d.0 v)
report_all-IsValid search settings (removes name e ∷ rs) peers d v =
    report_all-IsValid search settings rs (remove_known name peers).0 d
      (remove_known-IsValid name peers v)

-- ===== src/Discovery/Examples.antt =====
-- A remote peer with two addresses.
use rtpmidid.Common.{◌≡◌, refl, List, [], ◌∷◌, Bool, false, ◌==◌}
use rtpmidid.Text.{Text, codes, same_text}
use rtpmidid.Settings.{default_settings}
use rtpmidid.Discovery.{
  Endpoint, AlsaListener, midipeer_id_invalid, same_endpoint, KnownRemotePeer, Report, discovers,
  removes, report_all, discover_peer, add_endpoint_to,
}
use rtpmidid.Discovery.Known.{IsValid, report_all-IsValid}

abbrev wired : Endpoint
wired = record { hostname = codes "10.0.0.2"; port = codes "5004" }

abbrev wireless : Endpoint
wireless = record { hostname = codes "10.0.1.2"; port = codes "5004" }

-- Only the positive expression is found.
abbrev search : Text → Text → Bool
search [] name = false
search (c ∷ cs) name = c == b'.'

abbrev reports : List Report
reports =
    discovers [] (codes "Stage") wired 3 1
    ∷ discovers [] (codes "Stage") wireless 4 2
    ∷ discovers [] (codes "Stage") wired 4 2
    ∷ []

abbrev addresses : List KnownRemotePeer → List (List Endpoint)
addresses [] = []
addresses (p ∷ ps) = p.alsawaiter.endpoints ∷ addresses ps

two_addresses :
    addresses (report_all search default_settings.rtpmidi_discover reports [])
    ≡ (wired ∷ wireless ∷ []) ∷ []
unfolding report_all same_text same_endpoint
two_addresses = refl

-- A listener that waits for the configuration's "Stage" already: it is the one that is known.
abbrev configured : AlsaListener
configured = record {
  peer_id = 2;
  alsaport = 5;
  remote_name = codes "Stage";
  local_name = [];
  local_udp_port = codes "5006";
  endpoints = wired ∷ [];
  connection_count = 0;
  rtpmidiclientworker_peer_id = midipeer_id_invalid;
}

reused :
    discover_peer search default_settings.rtpmidi_discover
      (configured ∷ [])
      (codes "Stage")
      wireless
      3
      1
      []
    ≡ (
      record {
        name = codes "Stage";
        alsawaiter = record configured { endpoints = wired ∷ wireless ∷ [] };
      }
          ∷ [],
      add_endpoint_to 2 wireless ∷ [],
    )
unfolding discover_peer same_text same_endpoint
reused = refl

-- The loss of one address takes the peer with both away.
one_lost :
    report_all search default_settings.rtpmidi_discover
      (removes (codes "Stage") wireless ∷ [])
      (report_all search default_settings.rtpmidi_discover reports [])
    ≡ []
unfolding report_all same_text same_endpoint
one_lost = refl

report_all-IsValid_example :
    IsValid (report_all search default_settings.rtpmidi_discover reports [])
report_all-IsValid_example =
    report_all-IsValid search default_settings.rtpmidi_discover reports [] (tt, (tt, (tt, tt)))
      (record { names = tt; endpoints = tt })

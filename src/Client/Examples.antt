-- ===== src/Client/Examples.antt =====
-- lib/rtpclient.cpp on a concrete network: the theorems of Client.Search where their conditions hold.
use rtpmidid.Common.{ℕ, refl, List, [], ◌∷◌, none, some, ◌==◌, if◌then◌else◌}
use rtpmidid.Client.{error, connect}
use rtpmidid.Client.Entry.{Client, Network}
use rtpmidid.Client.Search.{
  reconnect_skips_endpoint, try_addresses, Reaches, try_endpoints, reconnect_searches,
}

-- Endpoint 1 does not resolve, endpoint 2 has three addresses, and only the second socket opens.
abbrev addresses : ℕ → List ℕ
addresses e = if e == 2 then 20 ∷ 21 ∷ 22 ∷ [] else []

abbrev network : Network
network = record { resolve = addresses; opens = λ n. n == 1 }

abbrev failed : Client
failed = record {
  state = error;
  known = 1 ∷ 2 ∷ [];
  pending = [];
  endpoint = 0;
  sockaddresses = none;
  control_address = 0;
  ck_count = 0;
  sockets = 0;
}

reconnect_searches_example : Reaches network connect failed (try_endpoints network (1 ∷ 2 ∷ []) 0)
reconnect_searches_example = reconnect_searches network failed refl refl

-- One endpoint with one address, which was in use before the error: nothing is tried at all.
abbrev dropped : Client
dropped = record failed { known = 2 ∷ []; sockaddresses = some (20 ∷ []) }

reconnect_skips_endpoint_example :
    Reaches network connect dropped (try_addresses network [] (try_endpoints network []) 0)
reconnect_skips_endpoint_example =
    reconnect_skips_endpoint network dropped 2 20 [] [] refl refl refl

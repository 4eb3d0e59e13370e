-- ===== src/Discovery/Endpoints.antt =====
-- src/local_alsa_listener.cpp and src/factory.cpp: the endpoints of a listener differ.
use rtpmidid.Common.{
  ℕ, ◌≡◌, refl, List, [], ◌∷◌, ◌++◌, false, ◌||◌, All, Bool-cases, inl, inr, arith, Option, none,
  some, if◌then◌else◌,
}
use rtpmidid.Text.{Text, same_text}
use rtpmidid.Discovery.{
  Endpoint, AlsaListener, same_endpoint, has_endpoint, add_endpoint, new_listener, add_to_named,
  last_named, make_local_alsa_listener,
}

pub same_text_comm : (xs ys : Text) → same_text xs ys ≡ same_text ys xs
unfolding same_text
same_text_comm [] [] = refl
same_text_comm [] (y ∷ ys) = refl
same_text_comm (x ∷ xs) [] = refl
same_text_comm (x ∷ xs) (y ∷ ys) = ground (arith, same_text_comm xs ys)

same_endpoint_comm : (a b : Endpoint) → same_endpoint a b ≡ same_endpoint b a
unfolding same_endpoint
same_endpoint_comm a b = rw (same_text_comm a.hostname b.hostname, same_text_comm a.port b.port)

abbrev pub EndpointsDiffer : List Endpoint → Type 0
EndpointsDiffer [] = Unit
EndpointsDiffer (e ∷ es) = (has_endpoint e es ≡ false) × EndpointsDiffer es

has_endpoint-append :
    (e x : Endpoint) (es : List Endpoint)
    → has_endpoint e (es ++ x ∷ []) ≡ (has_endpoint e es || same_endpoint x e)
has_endpoint-append e x [] = ground arith
has_endpoint-append e x (y ∷ ys) = ground (arith, has_endpoint-append e x ys)

EndpointsDiffer-append :
    (x : Endpoint) (es : List Endpoint)
    → has_endpoint x es ≡ false
    → EndpointsDiffer es
    → EndpointsDiffer (es ++ x ∷ [])
EndpointsDiffer-append x [] h d = (refl, tt)
EndpointsDiffer-append x (e ∷ es) h d = (
  ground (arith, has_endpoint-append e x es, same_endpoint_comm e x, d.0),
  EndpointsDiffer-append x es (ground arith) d.1,
)

pub add_endpoint-EndpointsDiffer :
    (e : Endpoint) (l : AlsaListener)
    → EndpointsDiffer l.endpoints
    → EndpointsDiffer (add_endpoint e l).endpoints
unfolding add_endpoint
add_endpoint-EndpointsDiffer e l d = elim (Bool-cases (has_endpoint e l.endpoints)) [
  | inl h ↦ rw h d
  | inr h ↦ rw h (EndpointsDiffer-append e l.endpoints h d)
]

-- Of no listener, two endpoints have the same host and port: each gets its endpoints by `add_endpoint`.
abbrev pub ListenersDiffer : List AlsaListener → Type 0
ListenersDiffer = All (λ l. EndpointsDiffer l.endpoints)

add_to_named-ListenersDiffer :
    (name : Text) (e : Endpoint) (ls : List AlsaListener)
    → ListenersDiffer ls
    → ListenersDiffer (add_to_named name e ls)
add_to_named-ListenersDiffer name e [] d = tt
add_to_named-ListenersDiffer name e (l ∷ ls) d = elim (Bool-cases (same_text l.remote_name name)) [
  | inl h ↦ rw h (add_endpoint-EndpointsDiffer e l d.0, add_to_named-ListenersDiffer name e ls d.1)
  | inr h ↦ rw h (d.0, add_to_named-ListenersDiffer name e ls d.1)
]

abbrev OptionDiffer : Option AlsaListener → Type 0
OptionDiffer none = Unit
OptionDiffer (some l) = EndpointsDiffer l.endpoints

last_named-OptionDiffer :
    (name : Text) (ls : List AlsaListener) → ListenersDiffer ls → OptionDiffer (last_named name ls)
last_named-OptionDiffer name [] d = tt
last_named-OptionDiffer name (l ∷ ls) d =
    from_rest (last_named name ls) (last_named-OptionDiffer name ls d.1)
  where
    from_rest :
        (o : Option AlsaListener)
        → OptionDiffer o
        → OptionDiffer (elim o [
          | some x ↦ some x
          | none ↦ if same_text l.remote_name name then some l else none
        ])
    from_rest (some x) h = h
    from_rest none h = elim (Bool-cases (same_text l.remote_name name)) [
      | inl e ↦ rw e d.0
      | inr e ↦ rw e tt
    ]

pub make_local_alsa_listener-EndpointsDiffer :
    (ls : List AlsaListener) (name : Text) (e : Endpoint) (port : Text) (peer_id alsaport : ℕ)
    → ListenersDiffer ls
    → EndpointsDiffer (make_local_alsa_listener ls name e port peer_id alsaport).endpoints
unfolding make_local_alsa_listener new_listener
make_local_alsa_listener-EndpointsDiffer ls name e port peer_id alsaport d =
    from_found (last_named name (add_to_named name e ls)) (
      last_named-OptionDiffer name (add_to_named name e ls)
        (add_to_named-ListenersDiffer name e ls d))
  where
    from_found :
        (o : Option AlsaListener)
        → OptionDiffer o
        → EndpointsDiffer (
            AlsaListener.endpoints
              (elim o [ some l ↦ l | none ↦ new_listener name e port peer_id alsaport ]))
    from_found (some l) h = h
    from_found none h = (refl, tt)

-- ===== src/Signals/Emission.antt =====
-- include/rtpmidid/signal.hpp: which callbacks a signal calls.
use rtpmidid.Common.{
  ℕ, ◌≤◌, ◌<◌, ◌≡◌, refl, sym, ap, ◌∙◌, List, [], ◌∷◌, ◌++◌, Bool, true, false, ◌==◌, ◌||◌, ==→eq,
  subst, arith, if◌then◌else◌, is_member, All, Sublist, nothing, skip, keep, Bool-cases, inl, inr,
}
use rtpmidid.Signals.Invariant.{IsValid, keys-append, keys-erase_slot, emit-IsValid}
use rtpmidid.Signals.{
  Signal, Act, connects, disconnects, keys, is_connected, erase_id, connect, disconnect, act,
  act_all, call_each, emit,
}

is_member-append :
    (id k : ℕ) (xs : List ℕ) → (k == id) ≡ false → is_member id (xs ++ k ∷ []) ≡ is_member id xs
is_member-append id k [] h = rw h
is_member-append id k (x ∷ xs) h = rw (is_member-append id k xs h)

is_member-erase_id :
    (id k : ℕ) (xs : List ℕ) → is_member id (erase_id k xs) ≡ true → is_member id xs ≡ true
is_member-erase_id id k [] h = h
is_member-erase_id id k (x ∷ xs) h = ground (arith, is_member-erase_id id k xs)

other_id : (k id : ℕ) → id < k → (k == id) ≡ false
other_id k id h = ground arith

or_right : (a b : Bool) → a ≡ false → (a || b) ≡ true → b ≡ true
or_right a b e h = ground arith

or_skipped :
    (there : Bool) (k id : ℕ) (called : List ℕ)
    → (k == id) ≡ false
    → is_member id called ≡ true
    → is_member id (if there then k ∷ called else called) ≡ true
or_skipped true k id called e h = rw (e, h)
or_skipped false k id called e h = h

member_below : (id n : ℕ) (ids : List ℕ) → All (λ i. i < n) ids → is_member id ids ≡ true → id < n
member_below id n [] below h = cc
member_below id n (k ∷ ids) below h = elim (Bool-cases (k == id)) [
  | inl e ↦ subst (λ i. i < n) (==→eq k id e) below.0
  | inr e ↦ member_below id n ids below.1 (or_right (k == id) (is_member id ids) e h)
]

module _ {ℓ} {F : Type ℓ} where
  -- No callback brings an older id back.
  act-old :
      (a : Act F) (s : Signal F) (id : ℕ)
      → id < s.max_id
      → is_connected id (act a s) ≡ true
      → is_connected id s ≡ true
  unfolding act connect disconnect
  act-old (connects f) s id l h =
      sym (is_member-append id s.max_id (keys s.slots) (other_id s.max_id id l))
      ∙ ap (is_member id) (sym (keys-append s.slots ((s.max_id, f) ∷ [])))
      ∙ h
  act-old (disconnects k) s id l h =
      is_member-erase_id id k (keys s.slots)
        (ap (is_member id) (sym (keys-erase_slot k s.slots)) ∙ h)

  max_id-act : (a : Act F) (s : Signal F) → s.max_id ≤ (act a s).max_id
  unfolding act connect disconnect
  max_id-act (connects f) s = omega arith
  max_id-act (disconnects k) s = omega arith

  act_all-old :
      (all : List (Act F)) (s : Signal F) (id : ℕ)
      → id < s.max_id
      → is_connected id (act_all all s) ≡ true
      → is_connected id s ≡ true
  unfolding act_all
  act_all-old [] s id l h = h
  act_all-old (a ∷ all) s id l h =
      act-old a s id l (act_all-old all (act a s) id (omega (arith, max_id-act a s)) h)

  max_id-act_all : (all : List (Act F)) (s : Signal F) → s.max_id ≤ (act_all all s).max_id
  unfolding act_all
  max_id-act_all [] s = omega arith
  max_id-act_all (a ∷ all) s = omega (arith, max_id-act a s, max_id-act_all all (act a s))

  module _ (acts : F → List (Act F)) where
    -- The signal behind one slot's round.
    abbrev round : ℕ → F → Signal F → Signal F
    round id f s = if is_connected id s then act_all (acts f) s else s

    max_id-round : (k : ℕ) (f : F) (s : Signal F) → s.max_id ≤ (round k f s).max_id
    max_id-round k f s = elim (Bool-cases (is_connected k s)) [
      | inl h ↦ rw h (max_id-act_all (acts f) s)
      | inr h ↦ rw h (omega arith)
    ]

    round-old :
        (k : ℕ) (f : F) (s : Signal F) (id : ℕ)
        → id < s.max_id
        → is_connected id (round k f s) ≡ true
        → is_connected id s ≡ true
    round-old k f s id l = elim (Bool-cases (is_connected k s)) [
      | inl h ↦ rw h (act_all-old (acts f) s id l)
      | inr h ↦ rw h (λ e. e)
    ]

    call_each-old :
        (slots : List (ℕ × F)) (s : Signal F) (id : ℕ)
        → id < s.max_id
        → is_connected id (call_each acts slots s).1 ≡ true
        → is_connected id s ≡ true
    unfolding call_each
    call_each-old [] s id l h = h
    call_each-old ((k, f) ∷ slots) s id l h =
        round-old k f s id l
          (call_each-old slots (round k f s) id (omega (arith, max_id-round k f s)) h)

    -- The ids called are some of the slots', in their order.
    call_each-Sublist :
        (slots : List (ℕ × F)) (s : Signal F) → Sublist (call_each acts slots s).0 (keys slots)
    unfolding call_each
    call_each-Sublist [] s = nothing
    call_each-Sublist ((k, f) ∷ slots) s = elim (Bool-cases (is_connected k s)) [
      | inl h ↦ rw h (keep k _ _ (call_each-Sublist slots (act_all (acts f) s)))
      | inr h ↦ rw h (skip k _ _ (call_each-Sublist slots s))
    ]

    call_each-called :
        (slots : List (ℕ × F)) (s : Signal F) (id : ℕ)
        → id < s.max_id
        → is_member id (keys slots) ≡ true
        → is_connected id (call_each acts slots s).1 ≡ true
        → is_member id (call_each acts slots s).0 ≡ true
    unfolding call_each
    call_each-called [] s id l m h = m
    call_each-called ((k, f) ∷ slots) s id l m h =
        let later = call_each-old slots (round k f s) id (omega (arith, max_id-round k f s)) h in
        elim (Bool-cases (k == id)) [
          | inl e ↦
              let there : is_connected k s ≡ true =
                subst (λ i. is_connected i s ≡ true) (sym (==→eq k id e))
                  (round-old k f s id l later) in
              rw (there, e)
          | inr e ↦
              let rest : is_member id (call_each acts slots (round k f s)).0 ≡ true =
                call_each-called slots (round k f s) id (omega (arith, max_id-round k f s))
                  (or_right (k == id) (is_member id (keys slots)) e m) h in
              or_skipped (is_connected k s) k id (call_each acts slots (round k f s)).0 e rest
        ]

  call_each-append :
      (acts : F → List (Act F)) (xs ys : List (ℕ × F)) (s : Signal F)
      → (call_each acts (xs ++ ys) s).0
        ≡ (call_each acts xs s).0 ++ (call_each acts ys (call_each acts xs s).1).0
  unfolding call_each
  call_each-append acts [] ys s = refl
  call_each-append acts ((k, f) ∷ xs) ys s = elim (Bool-cases (is_connected k s)) [
    | inl h ↦ rw h (ap (◌∷◌ k) (call_each-append acts xs ys (act_all (acts f) s)))
    | inr h ↦ rw h (call_each-append acts xs ys s)
  ]

  call_each-one :
      (acts : F → List (Act F)) (k : ℕ) (f : F) (after : List (ℕ × F)) (s : Signal F)
      → (call_each acts ((k, f) ∷ after) s).0 ≡ (
          if is_connected k s
          then k ∷ (call_each acts after (act_all (acts f) s)).0
          else (call_each acts after s).0)
  unfolding call_each
  call_each-one acts k f after s = elim (Bool-cases (is_connected k s)) [
    | inl h ↦ rw h
    | inr h ↦ rw h
  ]

  -- What a signal calls, whatever the callbacks connect and disconnect meanwhile, for a valid signal,
  -- whose ids lie below its next one and are those of its connections. It calls some of the callbacks
  -- that it had when the call began, each at most once and in the order of their connections, and each
  -- that it had then and still has at the end is among them. Once the callbacks `before` some callback
  -- have had their turns, that callback is called if it is still connected, and what it asks for is
  -- done before those `after` it have theirs; if it has been disconnected meanwhile it is passed over.
  -- The signal stays valid.
  pub emit-called :
      (acts : F → List (Act F)) (s : Signal F)
      → IsValid s
      → Sublist (emit acts s).0 (keys s.slots)
        × ((id : ℕ)
            → is_connected id s ≡ true
            → is_connected id (emit acts s).1 ≡ true
            → is_member id (emit acts s).0 ≡ true)
        × ((before after : List (ℕ × F)) (k : ℕ) (f : F)
            → s.slots ≡ before ++ (k, f) ∷ after
            → let (called, s') = call_each acts before s in
              (emit acts s).0
              ≡ called
                ++ (if is_connected k s'
                    then k ∷ (call_each acts after (act_all (acts f) s')).0
                    else (call_each acts after s').0))
        × IsValid (emit acts s).1
  unfolding emit
  emit-called acts s v = (
    call_each-Sublist acts s.slots s,
    λ id there still.
        call_each-called acts s.slots s id (member_below id s.max_id (keys s.slots) v.below there)
          there still,
    λ before after k f e.
        let s' = (call_each acts before s).1 in
        ap (λ slots. (call_each acts slots s).0) e
        ∙ call_each-append acts before ((k, f) ∷ after) s
        ∙ ap (◌++◌ (call_each acts before s).0) (call_each-one acts k f after s'),
    emit-IsValid acts s v,
  )

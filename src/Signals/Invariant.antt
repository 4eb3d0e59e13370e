-- ===== src/Signals/Invariant.antt =====
-- include/rtpmidid/signal.hpp: ids below the next one, and the connections' ids.
use rtpmidid.Common.{
  ℕ, ◌+◌, ◌≤◌, ◌<◌, ◌≡◌, refl, sym, ap, ◌∙◌, List, [], ◌∷◌, ◌++◌, ◌==◌, arith, All, All-append,
  Bool-cases, inl, inr, subst,
}
use rtpmidid.Signals.{
  Signal, Act, connects, disconnects, keys, is_connected, erase_slot, erase_id, connect, disconnect,
  act, act_all, call_each, emit,
}

abbrev Below : ℕ → List ℕ → Type 0
Below n = All (λ id. id < n)

Below-later : (n m : ℕ) (ids : List ℕ) → n ≤ m → Below n ids → Below m ids
Below-later n m [] l h = tt
Below-later n m (id ∷ ids) l h = (omega (arith, h.0), Below-later n m ids l h.1)

Below-erase_id : (n k : ℕ) (ids : List ℕ) → Below n ids → Below n (erase_id k ids)
Below-erase_id n k [] h = tt
Below-erase_id n k (id ∷ ids) h = elim (Bool-cases (id == k)) [
  | inl e ↦ rw e h.1
  | inr e ↦ rw e (h.0, Below-erase_id n k ids h.1)
]

module _ {ℓ} {F : Type ℓ} where
  -- Ids in use lie below the next one, and are those of the connections, in the same order.
  pub record IsValid (s : Signal F) : Type 0 where
    pub below : All (λ id. id < s.max_id) (keys s.slots)
    pub same : s.connections ≡ keys s.slots

  pub keys-append : (xs ys : List (ℕ × F)) → keys (xs ++ ys) ≡ keys xs ++ keys ys
  keys-append [] ys = refl
  keys-append (x ∷ xs) ys = ap (x.0 ∷◌) (keys-append xs ys)

  pub keys-erase_slot :
      (id : ℕ) (xs : List (ℕ × F)) → keys (erase_slot id xs) ≡ erase_id id (keys xs)
  keys-erase_slot id [] = refl
  keys-erase_slot id ((k, f) ∷ xs) = ground (arith, keys-erase_slot id xs)

  pub connect-IsValid : (f : F) (s : Signal F) → IsValid s → IsValid (connect f s).1
  unfolding connect
  connect-IsValid f s v =
      let longer = sym (keys-append s.slots ((s.max_id, f) ∷ [])) in
      record {
        below = subst (Below (s.max_id + 1)) longer (
            All-append _ (keys s.slots) (s.max_id ∷ [])
              (Below-later s.max_id (s.max_id + 1) (keys s.slots) (omega arith) v.below)
              (omega arith, tt));
        same = ap (◌++ s.max_id ∷ []) v.same ∙ longer;
      }

  pub disconnect-IsValid : (id : ℕ) (s : Signal F) → IsValid s → IsValid (disconnect id s)
  unfolding disconnect
  disconnect-IsValid id s v =
      let shorter = sym (keys-erase_slot id s.slots) in
      record {
        below = subst (Below s.max_id) shorter (Below-erase_id s.max_id id (keys s.slots) v.below);
        same = ap (erase_id id) v.same ∙ shorter;
      }

  act_all-IsValid : (all : List (Act F)) (s : Signal F) → IsValid s → IsValid (act_all all s)
  unfolding act_all act
  act_all-IsValid [] s v = v
  act_all-IsValid (connects f ∷ all) s v =
      act_all-IsValid all (connect f s).1 (connect-IsValid f s v)
  act_all-IsValid (disconnects id ∷ all) s v =
      act_all-IsValid all (disconnect id s) (disconnect-IsValid id s v)

  call_each-IsValid :
      (acts : F → List (Act F)) (slots : List (ℕ × F)) (s : Signal F)
      → IsValid s
      → IsValid (call_each acts slots s).1
  unfolding call_each
  call_each-IsValid acts [] s v = v
  call_each-IsValid acts ((k, f) ∷ slots) s v = elim (Bool-cases (is_connected k s)) [
    | inl h ↦
        rw h (call_each-IsValid acts slots (act_all (acts f) s) (act_all-IsValid (acts f) s v))
    | inr h ↦ rw h (call_each-IsValid acts slots s v)
  ]

  pub emit-IsValid : (acts : F → List (Act F)) (s : Signal F) → IsValid s → IsValid (emit acts s).1
  unfolding emit
  emit-IsValid acts s v = call_each-IsValid acts s.slots s v

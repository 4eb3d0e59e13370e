-- ===== src/Poller/Requests.antt =====
-- lib/poller.cpp: what callbacks ask for keeps the timers in order.
use rtpmidid.Common.{
  ℕ, suc, ◌+◌, ◌*◌, ◌≤◌, ◌≡◌, ◌⊎◌, refl, ap, List, [], ◌∷◌, ◌++◌, Bool, false, ◌==◌, ◌&&◌, leb, not,
  All, arith, Bool-cases, inl, inr,
}
use rtpmidid.Poller.{
  TimerEvent, Poller, Request, adds_timer, removes_timer, calls_later, count_if, IsSorted, Sort, ms,
  ms_to_now, add_timer_event, without, remove_timer, request, request_all, is_expired, call_later,
}

-- The milliseconds that are added keep a new timer from having come.
new_late : (now wait : ℕ) → leb (ms_to_now (now + wait * ms + ms) now) 0 ≡ false
new_late now wait = ground arith

later_late :
    (now a b : ℕ) → a ≤ b → leb (ms_to_now a now) 0 ≡ false → leb (ms_to_now b now) 0 ≡ false
later_late now a b h k = ground arith

module _ {ℓ} {F : Type ℓ} where
  pub count_if-append :
      (p : TimerEvent F → Bool) (xs ys : List (TimerEvent F))
      → count_if p (xs ++ ys) ≡ count_if p xs + count_if p ys
  count_if-append p [] ys = omega arith
  count_if-append p (x ∷ xs) ys = elim (Bool-cases (p x)) [
    | inl h ↦ rw h (omega (arith, count_if-append p xs ys))
    | inr h ↦ rw h (omega (arith, count_if-append p xs ys))
  ]

  pub count_if-without :
      (p : TimerEvent F → Bool) (id : ℕ) (es : List (TimerEvent F))
      → count_if p (without id es) ≤ count_if p es
  count_if-without p id [] = omega arith
  count_if-without p id (e ∷ es) = ground (arith, count_if-without p id es)

  All-without :
      (P : TimerEvent F → Type 0) (id : ℕ) (es : List (TimerEvent F))
      → All P es
      → All P (without id es)
  All-without P id [] h = h
  All-without P id (e ∷ es) h = elim (Bool-cases (e.id == id)) [
    | inl k ↦ rw k (All-without P id es h.1)
    | inr k ↦ rw k (h.0, All-without P id es h.1)
  ]

  IsSorted-without : (id : ℕ) (es : List (TimerEvent F)) → IsSorted es → IsSorted (without id es)
  IsSorted-without id [] h = h
  IsSorted-without id (e ∷ es) h = elim (Bool-cases (e.id == id)) [
    | inl k ↦ rw k (IsSorted-without id es h.1)
    | inr k ↦ rw k (All-without (λ x. e.when ≤ x.when) id es h.0, IsSorted-without id es h.1)
  ]

  pub List-cases :
      (es : List (TimerEvent F))
      → (es ≡ []) ⊎ ((e : TimerEvent F) × (rest : List (TimerEvent F)) × (es ≡ e ∷ rest))
  List-cases [] = inl refl
  List-cases (e ∷ es) = inr (e, es, refl)

  -- In order, with no timer of id 0, which is not one that can be removed.
  pub record IsValid (p : Poller F) : Type ℓ where
    pub sorted : IsSorted p.timer_events
    pub nonzero : count_if (λ e. e.id == 0) p.timer_events ≡ 0
    pub next : 1 ≤ p.max_timer_id

  abbrev pub new_timer : ℕ → ℕ → ℕ → F → TimerEvent F
  new_timer now wait id f = record { when = now + wait * ms + ms; id = id; callback = f }

  -- A test that no new timer passes.
  abbrev pub IsOld : ℕ → (TimerEvent F → Bool) → Type ℓ
  IsOld now q = (wait id : ℕ) (f : F) → 1 ≤ id → q (new_timer now wait id f) ≡ false

  module _ (s : Sort F) (now : ℕ) where
    request-next :
        (r : Request F) (p : Poller F) → 1 ≤ p.max_timer_id → 1 ≤ (request s now r p).max_timer_id
    unfolding request add_timer_event remove_timer call_later
    request-next (adds_timer wait f) p h = omega arith
    request-next (removes_timer id) p h = elim (Bool-cases (id == 0)) [
      | inl k ↦ rw k h
      | inr k ↦ rw k h
    ]
    request-next (calls_later f) p h = h

    count_if-request :
        (q : TimerEvent F → Bool)
        → IsOld now q
        → (r : Request F) (p : Poller F) → 1 ≤ p.max_timer_id
        → count_if q (request s now r p).timer_events ≤ count_if q p.timer_events
    unfolding request add_timer_event remove_timer call_later
    count_if-request q old (adds_timer wait f) p h =
        let new = old wait p.max_timer_id f h in
        let none_new : count_if q (new_timer now wait p.max_timer_id f ∷ []) ≡ 0 = rw new refl in
        omega (
          arith,
          s.count_if-sort q (p.timer_events ++ new_timer now wait p.max_timer_id f ∷ []),
          count_if-append q p.timer_events (new_timer now wait p.max_timer_id f ∷ []),
          none_new,
        )
    count_if-request q old (removes_timer id) p h = elim (Bool-cases (id == 0)) [
      | inl k ↦ rw k (omega arith)
      | inr k ↦ rw k (count_if-without q id p.timer_events)
    ]
    count_if-request q old (calls_later f) p h = omega arith

    request-IsSorted :
        (r : Request F) (p : Poller F)
        → IsSorted p.timer_events
        → IsSorted (request s now r p).timer_events
    unfolding request add_timer_event remove_timer call_later
    request-IsSorted (adds_timer wait f) p h =
        s.sort-IsSorted (p.timer_events ++ new_timer now wait p.max_timer_id f ∷ [])
    request-IsSorted (removes_timer id) p h = elim (Bool-cases (id == 0)) [
      | inl k ↦ rw k h
      | inr k ↦ rw k (IsSorted-without id p.timer_events h)
    ]
    request-IsSorted (calls_later f) p h = h

    nonzero-IsOld : IsOld now (λ e. e.id == 0)
    nonzero-IsOld wait id f h = ground arith

    pub is_expired-IsOld : (q : TimerEvent F → Bool) → IsOld now (λ e. is_expired now e && q e)
    is_expired-IsOld q wait id f h = rw (new_late now wait)

    pub request_all-IsValid :
        (rs : List (Request F)) (p : Poller F) → IsValid p → IsValid (request_all s now rs p)
    unfolding request_all
    request_all-IsValid [] p v = v
    request_all-IsValid (r ∷ rs) p v = request_all-IsValid rs (request s now r p) (record {
      sorted = request-IsSorted r p v.sorted;
      nonzero =
          omega (arith, v.nonzero, count_if-request (λ e. e.id == 0) nonzero-IsOld r p v.next);
      next = request-next r p v.next;
    })

    pub count_if-request_all :
        (q : TimerEvent F → Bool)
        → IsOld now q
        → (rs : List (Request F)) (p : Poller F) → IsValid p
        → count_if q (request_all s now rs p).timer_events ≤ count_if q p.timer_events
    unfolding request_all
    count_if-request_all q old [] p v = omega arith
    count_if-request_all q old (r ∷ rs) p v = omega (
      arith,
      count_if-request q old r p v.next,
      count_if-request_all q old rs (request s now r p) (request_all-IsValid (r ∷ []) p v),
    )

    -- The timers that have come, but for those of one id.
    abbrev pub others : ℕ → TimerEvent F → Bool
    others k e = is_expired now e && not (e.id == k)

    pub count_if-others :
        (k : ℕ) (es : List (TimerEvent F))
        → count_if (is_expired now) (without k es) ≡ count_if (others k) es
    count_if-others k [] = refl
    count_if-others k (e ∷ es) = elim (Bool-cases (e.id == k)) [
      | inl h ↦ elim (Bool-cases (is_expired now e)) [
        | inl x ↦ rw (h, x) (count_if-others k es)
        | inr x ↦ rw (h, x) (count_if-others k es)
      ]
      | inr h ↦ elim (Bool-cases (is_expired now e)) [
        | inl x ↦ rw (h, x) (ap suc (count_if-others k es))
        | inr x ↦ rw (h, x) (count_if-others k es)
      ]
    ]

    pub others_le :
        (k : ℕ) (es : List (TimerEvent F)) → count_if (others k) es ≤ count_if (is_expired now) es
    others_le k es = omega (arith, count_if-others k es, count_if-without (is_expired now) k es)

    pub sorted_late :
        (e : TimerEvent F) (es : List (TimerEvent F))
        → is_expired now e ≡ false
        → IsSorted (e ∷ es)
        → All (λ x. is_expired now x ≡ false) (e ∷ es)
    sorted_late e [] h k = (h, tt)
    sorted_late e (x ∷ es) h k = (h, sorted_late x es (later_late now e.when x.when k.0.0 h) k.1)

-- ===== src/Poller/Timers.antt =====
-- lib/poller.cpp: the timers that run once their time has come.
use rtpmidid.Common.{
  ℕ, zero, suc, ◌≤◌, ◌<◌, ◌≡◌, sym, ap, ◌∙◌, subst, List, [], ◌∷◌, Bool, true, false, ◌==◌, ◌&&◌,
  ==_refl, not, if◌then◌else◌, Option, some, All, arith, Bool-cases, inl, inr,
}
use rtpmidid.Poller.{
  TimerEvent, Poller, Request, removes_timer, count_if, IsSorted, Sort, remove_timer, request,
  request_all, is_expired, run_timers, run_first, run_expired_timer_events, and_ran,
}
use rtpmidid.Poller.Requests.{
  IsValid, List-cases, request_all-IsValid, count_if-request_all, others, count_if-others,
  others_le, sorted_late, IsOld, is_expired-IsOld,
}

All-map : (P Q : ℕ → Type 0) → ((k : ℕ) → P k → Q k) → (xs : List ℕ) → All P xs → All Q xs
All-map P Q f [] h = tt
All-map P Q f (x ∷ xs) h = (f x h.0, All-map P Q f xs h.1)

module _ {ℓ} {F : Type ℓ} (s : Sort F) (requests : F → List (Request F)) (now : ℕ) where
  -- A timer of that id whose time has come.
  abbrev pub has_come : ℕ → TimerEvent F → Bool
  has_come k e = is_expired now e && e.id == k

  abbrev Ran : Option (List ℕ × Poller F) → Poller F → Type ℓ
  Ran o p =
      (ran : List ℕ) × (p' : Poller F) × (o ≡ some (ran, p'))
      × All (λ e. is_expired now e ≡ false) p'.timer_events
      × IsValid p'
      × All (λ k. 0 < count_if (has_come k) p.timer_events) ran

  -- The poller behind the callback of one timer.
  abbrev behind : TimerEvent F → Poller F → Poller F
  behind e p = remove_timer e.id (request_all s now (requests e.callback) p)

  behind-IsValid : (e : TimerEvent F) (p : Poller F) → IsValid p → IsValid (behind e p)
  unfolding request_all request
  behind-IsValid e p v =
      request_all-IsValid s now (removes_timer e.id ∷ [])
        (request_all s now (requests e.callback) p)
        (request_all-IsValid s now (requests e.callback) p v)

  count_if-behind :
      (q : TimerEvent F → Bool)
      → IsOld now q
      → (e : TimerEvent F) (p : Poller F) → IsValid p
      → count_if q (behind e p).timer_events ≤ count_if q p.timer_events
  unfolding request_all request
  count_if-behind q old e p v = omega (
    arith,
    count_if-request_all s now q old (requests e.callback) p v,
    count_if-request_all s now q old (removes_timer e.id ∷ [])
        (request_all s now (requests e.callback) p)
        (request_all-IsValid s now (requests e.callback) p v),
  )

  -- The first timer's id is none of the others'.
  first-nonzero :
      (e : TimerEvent F) (es : List (TimerEvent F)) (p : Poller F)
      → IsValid p
      → p.timer_events ≡ e ∷ es
      → (e.id == 0) ≡ false
  first-nonzero e es p v h =
      let none_zero : count_if (λ x. x.id == 0) (e ∷ es) ≡ 0 =
        ap (count_if (λ x. x.id == 0)) (sym h) ∙ v.nonzero in
      ground arith

  first-others :
      (e : TimerEvent F) (es : List (TimerEvent F))
      → is_expired now e ≡ true
      → count_if (others s now e.id) (e ∷ es) < count_if (is_expired now) (e ∷ es)
  first-others e es x = rw (x, ==_refl e.id) (omega (arith, others_le s now e.id es))

  fewer :
      (e : TimerEvent F) (es : List (TimerEvent F)) (p : Poller F)
      → IsValid p
      → p.timer_events ≡ e ∷ es
      → is_expired now e ≡ true
      → count_if (is_expired now) (behind e p).timer_events
        < count_if (is_expired now) p.timer_events
  unfolding remove_timer
  fewer e es p v h x =
      let asked = request_all s now (requests e.callback) p in
      let gone : count_if (is_expired now) (behind e p).timer_events
          ≡ count_if (others s now e.id) asked.timer_events =
        rw (first-nonzero e es p v h) (count_if-others s now e.id asked.timer_events) in
      let before : count_if (others s now e.id) asked.timer_events
          ≤ count_if (others s now e.id) p.timer_events =
        count_if-request_all s now (others s now e.id)
          (is_expired-IsOld s now (λ y. not (y.id == e.id))) (requests e.callback) p v in
      let first : count_if (others s now e.id) p.timer_events
          < count_if (is_expired now) p.timer_events =
        subst (λ l. count_if (others s now e.id) l < count_if (is_expired now) l) (sym h)
          (first-others e es x) in
      omega (arith, gone, before, first)

  has_come-first :
      (e : TimerEvent F) (es : List (TimerEvent F))
      → is_expired now e ≡ true
      → 0 < count_if (has_come e.id) (e ∷ es)
  has_come-first e es x = rw (x, ==_refl e.id) (omega arith)

  abbrev going_on : ℕ → Poller F → TimerEvent F → Option (List ℕ × Poller F)
  going_on n p e = run_timers s requests now n (behind e p)

  run_timers-Ran :
      (n : ℕ) (p : Poller F)
      → IsValid p
      → count_if (is_expired now) p.timer_events < n
      → Ran (run_timers s requests now n p) p
  unfolding run_timers
  run_timers-Ran zero p v h = absurd (omega arith)
  run_timers-Ran (suc n) p v h = elim (List-cases p.timer_events) [
    | inl none_left ↦ (
      [],
      p,
      ap (λ l. run_first now l (going_on n p) p) none_left,
      subst (All (λ e. is_expired now e ≡ false)) (sym none_left) tt,
      v,
      tt,
    )
    | inr (e, es, some_left) ↦ elim (Bool-cases (is_expired now e)) [
      | inl come ↦
          let rest =
            run_timers-Ran n (behind e p) (behind-IsValid e p v)
              (omega (arith, fewer e es p v some_left come)) in
          (
            e.id ∷ rest.0,
            rest.1,
            ap (λ l. run_first now l (going_on n p) p) some_left
                ∙ ap (λ b. if b then and_ran e.id (going_on n p e) else some ([], p)) come
                ∙ ap (and_ran e.id) rest.2,
            rest.3,
            rest.4,
            (
              subst (λ l. 0 < count_if (has_come e.id) l) (sym some_left)
                  (has_come-first e es come),
              All-map (λ k. 0 < count_if (has_come k) (behind e p).timer_events)
                  (λ k. 0 < count_if (has_come k) p.timer_events)
                  (λ k m. omega (
                    arith,
                    count_if-behind (has_come k) (is_expired-IsOld s now (λ x. x.id == k)) e p v,
                  ))
                  rest.0 rest.5,
            ),
          )
      | inr late ↦ (
        [],
        p,
        ap (λ l. run_first now l (going_on n p) p) some_left
            ∙ ap (λ b. if b then and_ran e.id (going_on n p e) else some ([], p)) late,
        subst (All (λ x. is_expired now x ≡ false)) (sym some_left)
            (sorted_late s now e es late (subst IsSorted some_left v.sorted)),
        v,
        tt,
      )
    ]
  ]

  -- While the clock reads the same, the loop over the expired timers ends, whatever their callbacks
  -- add, remove and put off, for a valid poller: its timers are in order and have ids that are not 0.
  -- Then none is left whose time has come, the poller is valid, and each callback that ran is that of
  -- a timer that was there at the begin and whose time had come: a new timer waits, however short.
  pub run_expired_timer_events-Ran :
      (p : Poller F)
      → IsValid p
      → (ran : List ℕ) × (p' : Poller F) × (run_expired_timer_events s requests now p
          ≡ some (ran, p'))
        × All (λ e. is_expired now e ≡ false) p'.timer_events
        × IsValid p'
        × All (λ k. 0 < count_if (has_come k) p.timer_events) ran
  unfolding run_expired_timer_events
  run_expired_timer_events-Ran p v =
      run_timers-Ran (suc (count_if (is_expired now) p.timer_events)) p v (omega arith)

-- ===== src/Poller/Examples.antt =====
-- Timers that run, with a callback that sets a new one.
use rtpmidid.Common.{
  ℕ, ◌*◌, ◌≤◌, ◌<◌, ◌≡◌, refl, List, [], ◌∷◌, false, Bool, All, arith, Option, some, none, leb,
  if◌then◌else◌, ◌==◌, Bool-cases, inl, inr, leb→le,
}
use rtpmidid.Poller.{
  TimerEvent, Poller, Request, adds_timer, removes_timer, Sort, IsSorted, count_if, ms, is_expired,
  run_expired_timer_events, wait_ms, wait,
}
use rtpmidid.Poller.Requests.{IsValid}
use rtpmidid.Poller.Timers.{has_come, run_expired_timer_events-Ran}

module _ {ℓ} {F : Type ℓ} where
  abbrev insert : TimerEvent F → List (TimerEvent F) → List (TimerEvent F)
  insert e [] = e ∷ []
  insert e (x ∷ xs) = let rest = insert e xs in if leb e.when x.when then e ∷ x ∷ xs else x ∷ rest

  abbrev insertion_sort : List (TimerEvent F) → List (TimerEvent F)
  insertion_sort [] = []
  insertion_sort (e ∷ es) = insert e (insertion_sort es)

  All-insert :
      (n : ℕ) (e : TimerEvent F) (xs : List (TimerEvent F))
      → n ≤ e.when
      → All (λ x. n ≤ x.when) xs
      → All (λ x. n ≤ x.when) (insert e xs)
  All-insert n e [] h k = (h, tt)
  All-insert n e (x ∷ xs) h k = elim (Bool-cases (leb e.when x.when)) [
    | inl l ↦ rw l (h, k)
    | inr l ↦ rw l (k.0, All-insert n e xs h k.1)
  ]

  All-from :
      (n m : ℕ) (xs : List (TimerEvent F))
      → n ≤ m
      → All (λ x. m ≤ x.when) xs
      → All (λ x. n ≤ x.when) xs
  All-from n m [] h k = tt
  All-from n m (x ∷ xs) h k = (omega (arith, k.0), All-from n m xs h k.1)

  IsSorted-insert :
      (e : TimerEvent F) (xs : List (TimerEvent F)) → IsSorted xs → IsSorted (insert e xs)
  IsSorted-insert e [] h = (tt, h)
  IsSorted-insert e (x ∷ xs) h = elim (Bool-cases (leb e.when x.when)) [
    | inl l ↦
        rw l ((leb→le e.when x.when l, All-from e.when x.when xs (leb→le e.when x.when l) h.0), h)
    | inr l ↦ rw l (All-insert x.when e xs (ground arith) h.0, IsSorted-insert e xs h.1)
  ]

  insertion_sort-IsSorted : (es : List (TimerEvent F)) → IsSorted (insertion_sort es)
  insertion_sort-IsSorted [] = tt
  insertion_sort-IsSorted (e ∷ es) =
      IsSorted-insert e (insertion_sort es) (insertion_sort-IsSorted es)

  count_if-insert :
      (p : TimerEvent F → Bool) (e : TimerEvent F) (xs : List (TimerEvent F))
      → count_if p (insert e xs) ≡ count_if p (e ∷ xs)
  count_if-insert p e [] = refl
  count_if-insert p e (x ∷ xs) = ground (arith, count_if-insert p e xs)

  count_if-insertion_sort :
      (p : TimerEvent F → Bool) (es : List (TimerEvent F))
      → count_if p (insertion_sort es) ≡ count_if p es
  count_if-insertion_sort p [] = refl
  count_if-insertion_sort p (e ∷ es) =
      ground (arith, count_if-insert p e (insertion_sort es), count_if-insertion_sort p es)

abbrev by_insertion : Sort ℕ
by_insertion = record {
  sort = insertion_sort;
  sort-IsSorted = insertion_sort-IsSorted;
  count_if-sort = count_if-insertion_sort;
}

-- The callback 7 sets itself again, without delay, and ends timer 2.
abbrev requests : ℕ → List (Request ℕ)
requests f = if f == 7 then adds_timer 0 7 ∷ removes_timer 2 ∷ [] else []

abbrev three : Poller ℕ
three = record {
  timer_events =
      record { when = 5 * ms; id = 1; callback = 7 }
      ∷ record { when = 5 * ms; id = 2; callback = 8 }
      ∷ record { when = 6 * ms; id = 3; callback = 8 }
      ∷ [];
  later_events = [];
  max_timer_id = 4;
}

three-IsValid : IsValid three
three-IsValid = record {
  sorted = ((omega arith, (omega arith, tt)), ((omega arith, tt), (tt, tt)));
  nonzero = refl;
  next = omega arith;
}

ran_three :
    run_expired_timer_events by_insertion requests (5 * ms) three
    ≡ some (
      1 ∷ [],
      record {
        timer_events =
            record { when = 6 * ms; id = 3; callback = 8 }
            ∷ record { when = 6 * ms; id = 4; callback = 7 }
            ∷ [];
        later_events = [];
        max_timer_id = 5;
      },
    )
unfolding run_expired_timer_events
ran_three = refl

waits : wait_ms (3 * ms) none three ≡ 2
unfolding wait_ms
waits = refl

run_expired_timer_events-Ran_example :
    (ran : List ℕ) × (p' : Poller ℕ) × (run_expired_timer_events by_insertion requests
        (5 * ms)
        three
      ≡ some (ran, p'))
    × All (λ e. is_expired (5 * ms) e ≡ false) p'.timer_events
    × IsValid p'
    × All (λ k. 0 < count_if (has_come by_insertion requests (5 * ms) k) three.timer_events) ran
run_expired_timer_events-Ran_example =
    run_expired_timer_events-Ran by_insertion requests (5 * ms) three three-IsValid

-- A timer that a put-off call sets is not counted in the wait that follows.
abbrev puts_off : Poller ℕ
puts_off = record { timer_events = []; later_events = 7 ∷ []; max_timer_id = 4 }

abbrev waited : Option (ℕ × List ℕ × Poller ℕ) → Option (ℕ × List ℕ)
waited none = none
waited (some r) = some (r.0, r.1)

waits_for_nothing :
    waited (wait by_insertion requests 2 none (3 * ms) (5 * ms) [] puts_off)
    ≡ some (10000000, 4 ∷ [])
unfolding wait
waits_for_nothing = refl

-- ===== src/Poller.antt =====
-- lib/poller.cpp: the timers and the calls put off for later.
-- Times are in nanoseconds. A callback is what it asks of the poller; what else it does is left out.
pub mod Requests
pub mod Timers
mod Examples
use rtpmidid.Common.{
  ℕ, zero, suc, ◌+◌, ◌-◌, ◌*◌, ◌/◌, ◌≤◌, ◌≡◌, List, [], ◌∷◌, ◌++◌, Bool, true, false, ◌==◌, ltb,
  leb, if◌then◌else◌, Option, none, some, All,
}

-- `timer_event_t`
pub record TimerEvent {ℓ} (F : Type ℓ) : Type ℓ where
  pub when : ℕ
  pub id : ℕ
  pub callback : F

-- `poller_private_data_t`, without the file descriptors.
pub record Poller {ℓ} (F : Type ℓ) : Type ℓ where
  pub timer_events : List (TimerEvent F)
  pub later_events : List F
  pub max_timer_id : ℕ

-- What a callback asks for: a timer in some milliseconds, the end of a timer, a later call.
pub data Request {ℓ} (F : Type ℓ) : Type ℓ where
  adds_timer : ℕ → F → Request F
  removes_timer : ℕ → Request F
  calls_later : F → Request F

module _ {ℓ} {F : Type ℓ} where
  abbrev pub count_if : (TimerEvent F → Bool) → List (TimerEvent F) → ℕ
  count_if p [] = 0
  count_if p (e ∷ es) = if p e then suc (count_if p es) else count_if p es

  abbrev pub IsSorted : List (TimerEvent F) → Type ℓ
  IsSorted [] = Unit
  IsSorted (e ∷ es) = All (λ x. e.when ≤ x.when) es × IsSorted es

-- `std::sort` by the time: it puts the elements in order, and gives each as often as it has it. Which
-- of two timers for the same time comes first is not said.
pub record Sort {ℓ} (F : Type ℓ) : Type ℓ where
  pub sort : List (TimerEvent F) → List (TimerEvent F)
  pub sort-IsSorted : (es : List (TimerEvent F)) → IsSorted (sort es)
  pub count_if-sort :
      (p : TimerEvent F → Bool) (es : List (TimerEvent F)) → count_if p (sort es) ≡ count_if p es

abbrev pub ms : ℕ
ms = 1000000

-- The milliseconds up to a time, where 0 stands for a negative number too.
abbrev pub ms_to_now : ℕ → ℕ → ℕ
ms_to_now when now = (when - now) / ms

abbrev pub and_then {ℓ κ} : {A : Type ℓ} {B : Type κ} → Option A → (A → Option B) → Option B
and_then none f = none
and_then (some a) f = f a

module _ {ℓ} {F : Type ℓ} where
  abbrev pub fresh : Poller F
  fresh = record { timer_events = []; later_events = []; max_timer_id = 1 }

  unfoldable pub add_timer_event : Sort F → ℕ → ℕ → F → Poller F → ℕ × Poller F
  add_timer_event s now wait f p = (
    p.max_timer_id,
    record p {
      timer_events = s.sort (
          p.timer_events
          ++ record { when = now + wait * ms + ms; id = p.max_timer_id; callback = f } ∷ []);
      max_timer_id = p.max_timer_id + 1;
    },
  )

  abbrev pub without : ℕ → List (TimerEvent F) → List (TimerEvent F)
  without id [] = []
  without id (e ∷ es) = if e.id == id then without id es else e ∷ without id es

  -- Also what a timer's destructor, `disable` and assignment do. An id of 0 is no timer.
  unfoldable pub remove_timer : ℕ → Poller F → Poller F
  remove_timer id p = if id == 0 then p else record p { timer_events = without id p.timer_events }

  unfoldable pub clear_timers : Poller F → Poller F
  clear_timers p = record p { timer_events = [] }

  unfoldable pub call_later : F → Poller F → Poller F
  call_later f p = record p { later_events = p.later_events ++ f ∷ [] }

  unfoldable pub request : Sort F → ℕ → Request F → Poller F → Poller F
  unfolding add_timer_event remove_timer call_later
  request s now (adds_timer wait f) p = (add_timer_event s now wait f p).1
  request s now (removes_timer id) p = remove_timer id p
  request s now (calls_later f) p = call_later f p

  unfoldable pub request_all : Sort F → ℕ → List (Request F) → Poller F → Poller F
  unfolding request
  request_all s now [] p = p
  request_all s now (r ∷ rs) p = request_all s now rs (request s now r p)

  abbrev pub is_expired : ℕ → TimerEvent F → Bool
  is_expired now e = leb (ms_to_now e.when now) 0

  abbrev pub and_ran {ℓ'} :
      {A : Type ℓ'} → A → Option (List A × Poller F) → Option (List A × Poller F)
  and_ran x none = none
  and_ran x (some (ran, p)) = some (x ∷ ran, p)

  -- The test of the loop, with what comes behind the first timer's callback.
  abbrev pub run_first :
      ℕ
      → List (TimerEvent F)
      → (TimerEvent F → Option (List ℕ × Poller F))
      → Poller F
      → Option (List ℕ × Poller F)
  run_first now [] next p = some ([], p)
  run_first now (e ∷ es) next p = if is_expired now e then and_ran e.id (next e) else some ([], p)

  -- The loop of `run_expired_timer_events`, while the clock reads `now`: the ids of the timers whose
  -- callbacks ran. The timer goes once its callback returns. `none` is a lack of fuel.
  unfoldable pub run_timers :
      Sort F → (F → List (Request F)) → ℕ → ℕ → Poller F → Option (List ℕ × Poller F)
  unfolding request_all remove_timer
  run_timers s requests now zero p = none
  run_timers s requests now (suc n) p =
      run_first now p.timer_events
        (λ e.
          run_timers s requests now n
            (remove_timer e.id (request_all s now (requests e.callback) p)))
        p

  unfoldable pub run_expired_timer_events :
      Sort F → (F → List (Request F)) → ℕ → Poller F → Option (List ℕ × Poller F)
  unfolding run_timers
  run_expired_timer_events s requests now p =
      run_timers s requests now (suc (count_if (is_expired now) p.timer_events)) p

  -- One swap of `run_call_later_events`: the calls put off meanwhile wait for the next.
  unfoldable pub run_each : Sort F → (F → List (Request F)) → ℕ → List F → Poller F → Poller F
  unfolding request_all
  run_each s requests now [] p = p
  run_each s requests now (f ∷ fs) p = run_each s requests now fs (request_all s now (requests f) p)

  -- Up to `n` swaps; `none` where calls are left.
  unfoldable pub run_call_later_events :
      Sort F → (F → List (Request F)) → ℕ → ℕ → Poller F → Option (Poller F)
  unfolding run_each
  run_call_later_events s requests now zero p = elim p.later_events [ [] ↦ some p | f ∷ fs ↦ none ]
  run_call_later_events s requests now (suc n) p = elim p.later_events [
    | [] ↦ some p
    | f ∷ fs ↦
        run_call_later_events s requests now n
          (run_each s requests now (f ∷ fs) (record p { later_events = [] }))
  ]

  -- How long `wait` waits for input, with the limit it is given.
  unfoldable pub wait_ms : ℕ → Option ℕ → Poller F → ℕ
  wait_ms now limit p =
      let timers : ℕ = elim p.timer_events [ [] ↦ 10000000 | e ∷ es ↦ ms_to_now e.when now ] in
      elim limit [ none ↦ timers | some l ↦ if ltb l timers then l else timers ]

  -- One `wait`: how long it waits, the timers that ran, and the poller behind it. `now` is the clock's
  -- reading before the wait and `later` the one behind it; `ready` are the callbacks of the file
  -- descriptors with input, which are not looked at where the wait is 0.
  unfoldable pub wait :
      Sort F
      → (F → List (Request F))
      → ℕ
      → Option ℕ
      → ℕ
      → ℕ
      → List F
      → Poller F
      → Option (ℕ × List ℕ × Poller F)
  unfolding wait_ms run_call_later_events run_each run_expired_timer_events
  wait s requests n limit now later ready p =
      let time = wait_ms now limit p in
      and_then (run_call_later_events s requests now n p) (λ p1.
        let p2 = if time == 0 then p1 else run_each s requests later ready p1 in
        and_then (run_call_later_events s requests later n p2) (λ p3.
          and_then (run_expired_timer_events s requests later p3) (λ r.
            and_then (run_call_later_events s requests later n r.1) (λ p5. some (time, r.0, p5)))))

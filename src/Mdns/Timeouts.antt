-- ===== src/Mdns/Timeouts.antt =====
-- lib/mdns_rtpmidi.cpp: Avahi's timeouts as timers of the poller. A time is its seconds and
-- microseconds, and is waited for from now on.
use rtpmidid.Common.{
  ℕ, ◌+◌, ◌*◌, ◌/◌, ◌<◌, ◌≡◌, refl, List, [], ◌∷◌, Bool, false, not, ◌&&◌, ◌==◌, ==_refl, All,
  Option, none, some, arith,
}
use rtpmidid.Poller.{TimerEvent, Poller, Sort, count_if, without, add_timer_event, remove_timer}
use rtpmidid.Poller.Requests.{count_if-append}

-- `timeval`
pub record Timeval : Type 0 where
  pub tv_sec : ℕ
  pub tv_usec : ℕ

-- The id of an `AvahiTimeout`'s timer, 0 for none.
abbrev pub AvahiTimeout : Type 0
AvahiTimeout = ℕ

abbrev pub chrono_tv : Timeval → ℕ
chrono_tv tv = tv.tv_sec * 1000 + tv.tv_usec / 1000

module _ {ℓ} {F : Type ℓ} where
  unfoldable pub timeout_new : Sort F → ℕ → Option Timeval → F → Poller F → AvahiTimeout × Poller F
  unfolding add_timer_event
  timeout_new s now none f p = (0, p)
  timeout_new s now (some tv) f p = add_timer_event s now (chrono_tv tv) f p

  unfoldable pub timeout_free : AvahiTimeout → Poller F → Poller F
  unfolding remove_timer
  timeout_free to p = remove_timer to p

  unfoldable pub timeout_update :
      Sort F → ℕ → AvahiTimeout → Option Timeval → F → Poller F → AvahiTimeout × Poller F
  unfolding timeout_new remove_timer
  timeout_update s now to tv f p = timeout_new s now tv f (remove_timer to p)

  abbrev other_than : ℕ → (TimerEvent F → Bool) → TimerEvent F → Bool
  other_than id q e = q e && not (e.id == id)

  count_if-without_eq :
      (q : TimerEvent F → Bool) (id : ℕ) (es : List (TimerEvent F))
      → count_if q (without id es) ≡ count_if (other_than id q) es
  count_if-without_eq q id [] = refl
  count_if-without_eq q id (e ∷ es) = ground (arith, count_if-without_eq q id es)

  -- The ids given so far are below the next one, which is not 0.
  abbrev pub IsFresh : Poller F → Type 0
  IsFresh p = (0 < p.max_timer_id) × All (λ e. e.id < p.max_timer_id) p.timer_events

  count_if-other_than :
      (q : TimerEvent F → Bool) (id : ℕ) (es : List (TimerEvent F))
      → All (λ e. e.id < id) es
      → count_if (other_than id q) es ≡ count_if q es
  count_if-other_than q id [] h = refl
  count_if-other_than q id (e ∷ es) h = ground (arith, h.0, count_if-other_than q id es h.1)

  -- A timeout that Avahi makes and frees leaves the poller with the timers it had, each as often.
  pub count_if-timeout_free :
      (s : Sort F) (now : ℕ) (tv : Option Timeval) (f : F) (p : Poller F) (q : TimerEvent F → Bool)
      → IsFresh p
      → let (to, p') = timeout_new s now tv f p in
        count_if q (timeout_free to p').timer_events ≡ count_if q p.timer_events
  unfolding timeout_new timeout_free remove_timer add_timer_event
  count_if-timeout_free s now none f p q v = refl
  count_if-timeout_free s now (some tv) f p q v =
      let id = p.max_timer_id in
      let e : TimerEvent F = record {
        when = now + chrono_tv tv * 1000000 + 1000000;
        id = id;
        callback = f;
      } in
      let own : (id == 0) ≡ false = ground (arith, v.0) in
      rw
        (
          own,
          count_if-without_eq,
          s.count_if-sort,
          count_if-append,
          count_if-other_than q id p.timer_events v.1,
        )
        (ground (arith, ==_refl id))

-- ===== src/Client/Latency.antt =====
-- lib/rtpclient.cpp: the schedule of clock exchanges after both ports are connected.
use rtpmidid.Common.{
  ℕ, zero, suc, ◌+◌, ◌%◌, ◌≤◌, ◌≡◌, refl, ◌∙◌, List, [], ◌∷◌, ◌++◌, true, ltb, arith, Option, none,
  some,
}
use rtpmidid.Client.{transition, send_ck, send_ck_short, wait_send_ck_long}
use rtpmidid.Client.Entry.{
  Client, Network, Action, disable_timer, set_timer, ck_timer, ck_short_timer, ck_long_timer,
  listen_ck, forget_ck, warn_ck, send_ck0, enter, handle_event, on_ck_short, state_send_ck_short,
}
use native.Mathlib.Nat.{zero-add}

infixl 5 ◌>>=◌
abbrev ◌>>=◌ {ℓ κ} : {A : Type ℓ} {B : Type κ} → Option A → (A → Option B) → Option B
none >>= f = none
some a >>= f = f a

-- Each round: the CK0 that is out is answered, and then the timer of the short period fires.
abbrev pub short_rounds : ℕ → ℕ → Network → Client → Option (Client × List Action)
short_rounds zero fuel net c = some (c, [])
short_rounds (suc n) fuel net c = do
  (c, waits) ← on_ck_short fuel net c
  (c, sends) ← handle_event fuel net send_ck c
  (c, more) ← short_rounds n fuel net c
  some (c, waits ++ (sends ++ more))

abbrev pub round_actions : ℕ → List Action
round_actions zero = []
round_actions (suc n) =
    (disable_timer ∷ set_timer ck_short_timer ∷ warn_ck ∷ [])
    ++ ((set_timer ck_timer ∷ listen_ck ∷ send_ck0 ∷ []) ++ round_actions n)

short_rounds_lem :
    (n fuel : ℕ) (net : Network) (c : Client)
    → c.state ≡ send_ck_short
    → n + c.ck_count ≤ 6
    → short_rounds n (suc fuel) net c
      ≡ some (record c { ck_count = n + c.ck_count }, round_actions n)
unfolding on_ck_short handle_event enter transition state_send_ck_short
short_rounds_lem zero fuel net c e h = rw zero-add
short_rounds_lem (suc n) fuel net c e h =
    let early : ltb c.ck_count 6 ≡ true = ground arith in
    let step : (c.ck_count + 1) % 256 ≡ suc c.ck_count = omega arith in
    let sum : n + suc c.ck_count ≡ suc n + c.ck_count = omega arith in
    rw (
      early,
      e,
      step,
      short_rounds_lem n fuel net (record c { state = send_ck_short; ck_count = suc c.ck_count })
          refl (omega arith),
      sum,
    )

-- A client that has just sent its first CK0 after connecting, and gets an answer to each, sends five
-- more CK0s in the short period; the answer to the sixth leads to the long period. No event of this
-- exchange is unexpected.
pub short_period_ends :
    (fuel : ℕ) (net : Network) (c : Client)
    → c.state ≡ send_ck_short
    → c.ck_count ≡ 1
    → (short_rounds 5 (suc fuel) net c ≡ some (record c { ck_count = 6 }, round_actions 5))
      × (on_ck_short (suc fuel) net (record c { ck_count = 6 })
          ≡ some (
            record c { state = wait_send_ck_long; ck_count = 6 },
            disable_timer ∷ forget_ck ∷ set_timer ck_long_timer ∷ warn_ck ∷ [],
          ))
unfolding on_ck_short handle_event enter transition
short_period_ends fuel net c e k = (short_rounds_lem 5 fuel net c e (omega arith) ∙ rw k, rw e)

-- ===== src/Stats/Examples.antt =====
-- A ring of two slots, three measurements of which the first is lost, and averages.
use rtpmidid.Common.{
  ℕ, ◌≡◌, ◌*◌, ◌+◌, ◌-◌, ◌/◌, refl, List, [], ◌∷◌, ◌++◌, length, drop, replicate, ltb, ◌&&◌, arith,
}
use rtpmidid.Stats.{new_stats, no_stat, add_stat, loop_stats, Doubles, average_and_stddev}
use rtpmidid.Stats.Recent.{count_if, is_within, loop_stats-last}
use rtpmidid.Stats.Ring.{add_all, measured, measured_all}

abbrev second : ℕ
second = 1000000000

abbrev three : List (ℕ × ℕ)
three = (10, 200 * second) ∷ (20, 210 * second) ∷ (40, 220 * second) ∷ []

loop_stats-last_example :
    count_if (λ x. ltb 15 x.latency) (loop_stats (250 * second) (add_all three (new_stats 2 120)))
    ≡ count_if
        (λ x. is_within (120 * 1000000000) (250 * second) x && ltb 15 x.latency)
        (drop (length three) (replicate 2 no_stat ++ measured_all three))
loop_stats-last_example =
    loop_stats-last (λ x. ltb 15 x.latency) 2 120 (250 * second) three (omega arith)

-- The slot that was filled last stands in front.
passed :
    loop_stats (250 * second) (add_all three (new_stats 2 120))
    ≡ measured 40 (220 * second) ∷ measured 20 (210 * second) ∷ []
unfolding add_all loop_stats add_stat
passed = refl

-- Whole numbers in place of doubles.
abbrev whole : Doubles ℕ
whole = record {
  of_int = λ n. n;
  plus = λ a b. a + b;
  minus = λ a b. a - b;
  times = λ a b. a * b;
  over = λ a b. a / b;
  sqrt = λ a. a;
  to_int = λ a. a;
}

averages :
    average_and_stddev whole (250 * second) (250 * second) (add_all three (new_stats 2 120))
    ≡ (30, 50)
unfolding average_and_stddev add_all
averages = refl

no_averages : average_and_stddev whole (250 * second) (250 * second) (new_stats 2 120) ≡ (0, 0)
unfolding average_and_stddev
no_averages = refl

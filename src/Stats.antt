-- ===== src/Stats.antt =====
-- include/rtpmidid/stats.hpp and lib/stats.cpp: a ring of latency measurements. Times are in
-- nanoseconds, and the arithmetic of doubles is an argument.
pub mod Recent
pub mod Ring
mod Examples
use rtpmidid.Common.{
  ℕ, zero, suc, ◌+◌, ◌-◌, ◌*◌, ◌%◌, List, [], ◌∷◌, ◌++◌, length, replicate, Bool, true, false, ◌==◌,
  ltb, if◌then◌else◌,
}

-- `stat_t`
pub record Stat : Type 0 where
  pub latency : ℕ
  pub timestamp : ℕ

-- `stats_t`
pub record Stats : Type 0 where
  pub stats : List Stat
  pub index : ℕ
  pub item_time : ℕ

abbrev pub no_stat : Stat
no_stat = record { latency = 0; timestamp = 0 }

-- The constructor, of a size and a time in seconds.
abbrev pub new_stats : ℕ → ℕ → Stats
new_stats size item_time = record {
  stats = replicate size no_stat;
  index = 0;
  item_time = item_time * 1000000000;
}

unfoldable pub set_stat : ℕ → Stat → List Stat → List Stat
set_stat i x [] = []
set_stat zero x (y ∷ ys) = x ∷ ys
set_stat (suc i) x (y ∷ ys) = y ∷ set_stat i x ys

-- `add_stat`, when the clock reads `now`.
unfoldable pub add_stat : ℕ → ℕ → Stats → Stats
unfolding set_stat
add_stat latency now s = record s {
  stats = set_stat s.index (record { latency = latency; timestamp = now }) s.stats;
  index = (s.index + 1) % length s.stats;
}

-- A time in the future is not too old.
abbrev pub is_recent : ℕ → ℕ → Stat → Bool
is_recent item_time now x = if ltb item_time (now - x.timestamp) then false else true

-- The measurements that `loop_stats` passes on, in its order.
unfoldable pub loop_over : ℕ → ℕ → List Stat → List Stat
loop_over item_time now [] = []
loop_over item_time now (x ∷ xs) =
    let rest = loop_over item_time now xs in if is_recent item_time now x then x ∷ rest else rest

unfoldable pub loop_stats : ℕ → Stats → List Stat
unfolding loop_over
loop_stats now s = loop_over s.item_time now s.stats

-- The operations on doubles that the averages need; `count` is how an `int` becomes one.
pub record Doubles (D : Type 0) : Type 0 where
  pub of_int : ℕ → D
  pub plus : D → D → D
  pub minus : D → D → D
  pub times : D → D → D
  pub over : D → D → D
  pub sqrt : D → D
  pub to_int : D → ℕ

module _ {D : Type 0} (d : Doubles D) where
  unfoldable sum_latencies : D → List Stat → D
  sum_latencies sum [] = sum
  sum_latencies sum (x ∷ xs) = sum_latencies (d.plus sum (d.of_int x.latency)) xs

  unfoldable sum_squares : D → D → List Stat → D
  sum_squares average sum [] = sum
  sum_squares average sum (x ∷ xs) =
      let delta = d.minus (d.of_int x.latency) average in
      sum_squares average (d.plus sum (d.times delta delta)) xs

  -- `now` is the clock's reading of the first loop, and `later` that of the second.
  unfoldable pub average_and_stddev : ℕ → ℕ → Stats → ℕ × ℕ
  unfolding loop_stats sum_latencies sum_squares
  average_and_stddev now later s =
      let count = length (loop_stats now s) in
      let average = d.over (sum_latencies (d.of_int 0) (loop_stats now s)) (d.of_int count) in
      let squares = sum_squares average (d.of_int 0) (loop_stats later s) in
      if count == 0
      then (0, 0)
      else (d.to_int average, d.to_int (d.sqrt (d.over squares (d.of_int count))))

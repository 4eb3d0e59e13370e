-- ===== src/Stats/Recent.antt =====
-- lib/stats.cpp: which measurements the averages are made of.
use rtpmidid.Common.{
  ℕ, zero, suc, ◌+◌, ◌*◌, ◌<◌, ◌≡◌, refl, sym, ap, ◌∙◌, List, [], ◌∷◌, ◌++◌, length, take, drop,
  replicate, append-nil, Bool, true, false, leb, ◌&&◌, Bool-cases, inl, inr, arith, if◌then◌else◌,
}
use rtpmidid.Stats.{Stat, new_stats, no_stat, is_recent, loop_over, loop_stats}
use rtpmidid.Stats.Ring.{
  oldest_first, IsValid, add_all, measured_all, item_time-add_all, add_all-oldest_first,
}

-- How many of some measurements a test is true of.
abbrev pub count_if : (Stat → Bool) → List Stat → ℕ
count_if p [] = 0
count_if p (x ∷ xs) = if p x then suc (count_if p xs) else count_if p xs

count_if-append :
    (p : Stat → Bool) (xs ys : List Stat) → count_if p (xs ++ ys) ≡ count_if p xs + count_if p ys
count_if-append p [] ys = omega arith
count_if-append p (x ∷ xs) ys = ground (arith, count_if-append p xs ys)

loop_over-append :
    (t now : ℕ) (xs ys : List Stat)
    → loop_over t now (xs ++ ys) ≡ loop_over t now xs ++ loop_over t now ys
unfolding loop_over
loop_over-append t now [] ys = refl
loop_over-append t now (x ∷ xs) ys = elim (Bool-cases (is_recent t now x)) [
  | inl y ↦ rw (y, loop_over-append t now xs ys)
  | inr y ↦ rw (y, loop_over-append t now xs ys)
]

take-drop : (n : ℕ) (xs : List Stat) → take n xs ++ drop n xs ≡ xs
take-drop zero xs = refl
take-drop (suc n) [] = refl
take-drop (suc n) (x ∷ xs) = ap (◌∷◌ x) (take-drop n xs)

count_if-rotated :
    (p : Stat → Bool) (t now n : ℕ) (xs : List Stat)
    → count_if p (loop_over t now xs) ≡ count_if p (loop_over t now (drop n xs ++ take n xs))
count_if-rotated p t now n xs =
    let front = take n xs in
    let back = drop n xs in
    ap (λ ys. count_if p (loop_over t now ys)) (sym (take-drop n xs))
    ∙ ap (count_if p) (loop_over-append t now front back)
    ∙ count_if-append p (loop_over t now front) (loop_over t now back)
    ∙ sum_comm _ _
    ∙ sym (count_if-append p (loop_over t now back) (loop_over t now front))
    ∙ ap (count_if p) (sym (loop_over-append t now back front))
  where
    sum_comm : (a b : ℕ) → a + b ≡ b + a
    sum_comm a b = omega arith

-- Not older than `t`: made at most `t` before now, or after it.
abbrev pub is_within : ℕ → ℕ → Stat → Bool
is_within t now x = leb now (x.timestamp + t)

loop_over-is_within :
    (p : Stat → Bool) (t now : ℕ) (xs : List Stat)
    → count_if p (loop_over t now xs) ≡ count_if (λ x. is_within t now x && p x) xs
unfolding loop_over
loop_over-is_within p t now [] = refl
loop_over-is_within p t now (x ∷ xs) = elim (Bool-cases (is_recent t now x)) [
  | inl y ↦
      let young : is_within t now x ≡ true = ground arith in
      rw (y, young, loop_over-is_within p t now xs)
  | inr n ↦
      let old : is_within t now x ≡ false = ground arith in
      rw (n, old, loop_over-is_within p t now xs)
]

-- What the averages are made of, whatever is asked of it (`p`) and in whatever order it comes: of a
-- ring of `size` slots, exactly those of the last `size` measurements whose time stamp lies at most
-- `item_time` seconds before now, each as often as it was made; slots not filled yet count as
-- measurements of 0 at the time 0. The ring has at least one slot.
pub loop_stats-last :
    (p : Stat → Bool) (size item_time now : ℕ) (ms : List (ℕ × ℕ))
    → 0 < size
    → count_if p (loop_stats now (add_all ms (new_stats size item_time)))
      ≡ count_if
          (λ x. is_within (item_time * 1000000000) now x && p x)
          (drop (length ms) (replicate size no_stat ++ measured_all ms))
unfolding loop_stats
loop_stats-last p size item_time now ms h =
    let s = new_stats size item_time in
    let full = add_all ms s in
    let v : IsValid s = record { in_range = rw (length-replicate size) h } in
    let time = item_time-add_all ms s in
    count_if-rotated p full.item_time now full.index full.stats
    ∙ ap (λ ys. count_if p (loop_over full.item_time now ys)) (add_all-oldest_first ms s v)
    ∙ ap (λ t. count_if p (loop_over t now (drop (length ms) (oldest_first s ++ measured_all ms))))
        time
    ∙ ap (λ xs. count_if p (loop_over s.item_time now (drop (length ms) (xs ++ measured_all ms))))
        (append-nil (replicate size no_stat))
    ∙ loop_over-is_within p s.item_time now
        (drop (length ms) (replicate size no_stat ++ measured_all ms))
  where
    length-replicate : (n : ℕ) → length (replicate n no_stat) ≡ n
    length-replicate zero = refl
    length-replicate (suc n) = ap suc (length-replicate n)

-- ===== src/Stats/Ring.antt =====
-- lib/stats.cpp: what a measurement does to the ring.
use rtpmidid.Common.{
  ℕ, zero, suc, ◌+◌, ◌%◌, ◌<◌, ◌≤◌, ◌≡◌, refl, sym, ap, subst, ◌∙◌, List, [], ◌∷◌, ◌++◌, length,
  take, drop, append_assoc, append-nil, length-append, length-drop, arith, take-length_append,
  drop-length_append, split_off,
}
use native.Mathlib.Nat.{mod-eq_of_lt, mod_self}
use rtpmidid.Stats.{Stat, Stats, set_stat, add_stat}

-- The slots from the oldest one on.
abbrev pub oldest_first : Stats → List Stat
oldest_first s = drop s.index s.stats ++ take s.index s.stats

set_stat-append :
    (front rest : List Stat) (x y : Stat)
    → set_stat (length front) x (front ++ y ∷ rest) ≡ front ++ x ∷ rest
unfolding set_stat
set_stat-append [] rest x y = refl
set_stat-append (f ∷ front) rest x y = ap (◌∷◌ f) (set_stat-append front rest x y)

-- The ring whose slot that comes next lies behind `front` and holds `y`.
abbrev ring : List Stat → Stat → List Stat → ℕ → Stats
ring front y rest t = record { stats = front ++ y ∷ rest; index = length front; item_time = t }

oldest-ring :
    (front rest : List Stat) (y : Stat) (t : ℕ)
    → oldest_first (ring front y rest t) ≡ y ∷ rest ++ front
oldest-ring front rest y t =
    rw (drop-length_append front (y ∷ rest), take-length_append front (y ∷ rest)) refl

-- The slots once the next one holds `x`.
filled :
    (front rest : List Stat) (x y : Stat)
    → let stats = front ++ x ∷ rest in
      let index = (length front + 1) % length (front ++ y ∷ rest) in
      (drop index stats ++ take index stats ≡ rest ++ (front ++ x ∷ [])) × (index < length stats)
filled front [] x y =
    let size : length (front ++ y ∷ []) ≡ length front + 1 = length-append front (y ∷ []) in
    let same : length (front ++ x ∷ []) ≡ length front + 1 = length-append front (x ∷ []) in
    let index : (length front + 1) % length (front ++ y ∷ []) ≡ 0 =
      rw size (mod_self (length front + 1)) in
    rw index (append-nil (front ++ x ∷ []), rw same (omega arith))
filled front (z ∷ zs) x y =
    let size : length (front ++ y ∷ z ∷ zs) ≡ length front + suc (suc (length zs)) =
      length-append front (y ∷ z ∷ zs) in
    let same : length (front ++ x ∷ z ∷ zs) ≡ length front + suc (suc (length zs)) =
      length-append front (x ∷ z ∷ zs) in
    let index : (length front + 1) % length (front ++ y ∷ z ∷ zs) ≡ length front + 1 =
      rw size (mod-eq_of_lt (omega arith)) in
    let front_size : length (front ++ x ∷ []) ≡ length front + 1 = length-append front (x ∷ []) in
    let cut : front ++ x ∷ z ∷ zs ≡ (front ++ x ∷ []) ++ z ∷ zs =
      sym (append_assoc front (x ∷ []) (z ∷ zs)) in
    rw index (
      rw
          (
            cut,
            ← front_size,
            drop-length_append (front ++ x ∷ []) (z ∷ zs),
            take-length_append (front ++ x ∷ []) (z ∷ zs),
          )
          refl,
      rw same (omega arith),
    )

-- The index is that of a slot.
pub record IsValid (s : Stats) : Type 0 where
  pub in_range : s.index < length s.stats

abbrev pub measured : ℕ → ℕ → Stat
measured latency now = record { latency = latency; timestamp = now }

-- One measurement takes the place of the oldest slot, as the newest.
abbrev Adds : ℕ → ℕ → Stats → Type 0
Adds latency now s =
    IsValid (add_stat latency now s)
    × (oldest_first (add_stat latency now s) ≡ drop 1 (oldest_first s) ++ measured latency now ∷ [])
    × (length (add_stat latency now s).stats ≡ length s.stats)

add_stat-ring :
    (front rest : List Stat) (y : Stat) (latency now t : ℕ) → Adds latency now (ring front y rest t)
unfolding add_stat
add_stat-ring front rest y latency now t =
    let x = measured latency now in
    let f = filled front rest x y in
    let slots = set_stat-append front rest x y in
    (
      record { in_range = rw slots f.1 },
      rw (slots, oldest-ring front rest y t, append_assoc rest front (x ∷ [])) f.0,
      rw (slots, length-append front (x ∷ rest), length-append front (y ∷ rest)) refl,
    )

add_stat-at :
    (front rest : List Stat) (latency now t : ℕ)
    → 0 < length rest
    → Adds latency now (record { stats = front ++ rest; index = length front; item_time = t })
add_stat-at front [] latency now t h = absurd (omega arith)
add_stat-at front (y ∷ rest) latency now t h = add_stat-ring front rest y latency now t

add_stat-Adds : (latency now : ℕ) (s : Stats) → IsValid s → Adds latency now s
add_stat-Adds latency now s v =
    let (front, rest, e, size, more) = split_off s.index s.stats v.in_range in
    subst (λ st. Adds latency now (record { stats = st; index = s.index; item_time = s.item_time }))
      e
      (subst
        (λ i.
          Adds latency now (record { stats = front ++ rest; index = i; item_time = s.item_time }))
        size (add_stat-at front rest latency now s.item_time more))

-- Some measurements, each with the time when it is added.
unfoldable pub add_all : List (ℕ × ℕ) → Stats → Stats
unfolding add_stat
add_all [] s = s
add_all (m ∷ ms) s = add_all ms (add_stat m.0 m.1 s)

abbrev pub measured_all : List (ℕ × ℕ) → List Stat
measured_all [] = []
measured_all (m ∷ ms) = measured m.0 m.1 ∷ measured_all ms

pub item_time-add_all : (ms : List (ℕ × ℕ)) (s : Stats) → (add_all ms s).item_time ≡ s.item_time
unfolding add_all add_stat
item_time-add_all [] s = refl
item_time-add_all (m ∷ ms) s = item_time-add_all ms (add_stat m.0 m.1 s)

drop_append : (n : ℕ) (xs ys : List Stat) → n ≤ length xs → drop n (xs ++ ys) ≡ drop n xs ++ ys
drop_append zero xs ys h = refl
drop_append (suc n) [] ys h = absurd (omega arith)
drop_append (suc n) (x ∷ xs) ys h = drop_append n xs ys (omega arith)

length-take : (n : ℕ) (xs : List Stat) → n ≤ length xs → length (take n xs) ≡ n
length-take zero xs h = refl
length-take (suc n) [] h = absurd (omega arith)
length-take (suc n) (x ∷ xs) h = ap suc (length-take n xs (omega arith))

length-oldest_first : (s : Stats) → IsValid s → length (oldest_first s) ≡ length s.stats
length-oldest_first s v = omega (
  arith,
  length-append (drop s.index s.stats) (take s.index s.stats),
  length-drop s.index s.stats (omega (arith, v.in_range)),
  length-take s.index s.stats (omega (arith, v.in_range)),
)

drop_one : (n : ℕ) (xs : List Stat) → drop n (drop 1 xs) ≡ drop (suc n) xs
drop_one zero xs = refl
drop_one (suc n) [] = refl
drop_one (suc n) (x ∷ xs) = refl

-- The ring's slots, from the oldest one on, are the last ones of those it had and of what was measured
-- since, in this order.
pub add_all-oldest_first :
    (ms : List (ℕ × ℕ)) (s : Stats)
    → IsValid s
    → oldest_first (add_all ms s) ≡ drop (length ms) (oldest_first s ++ measured_all ms)
unfolding add_all
add_all-oldest_first [] s v = sym (append-nil (oldest_first s))
add_all-oldest_first (m ∷ ms) s v =
    let x = measured m.0 m.1 in
    let s1 = add_stat m.0 m.1 s in
    let (valid, moved, size) = add_stat-Adds m.0 m.1 s v in
    let one : 1 ≤ length (oldest_first s) = omega (arith, v.in_range, length-oldest_first s v) in
    let step : oldest_first s1 ++ measured_all ms ≡ drop 1 (oldest_first s ++ x ∷ measured_all ms) =
      ap (λ o. o ++ measured_all ms) moved
      ∙ append_assoc (drop 1 (oldest_first s)) (x ∷ []) (measured_all ms)
      ∙ sym (drop_append 1 (oldest_first s) (x ∷ measured_all ms) one) in
    add_all-oldest_first ms s1 valid
    ∙ ap (drop (length ms)) step
    ∙ drop_one (length ms) (oldest_first s ++ x ∷ measured_all ms)

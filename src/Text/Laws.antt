-- ===== src/Text/Laws.antt =====
-- Comparing, trimming and searching texts.
use rtpmidid.Common.{
  ℕ, ◌≡◌, refl, [], ◌∷◌, ◌++◌, true, false, ◌==◌, ==_refl, arith, All, none, some,
}
use rtpmidid.Text.{Text, same_text, split_at}

pub same_text_refl : (xs : Text) → same_text xs xs ≡ true
unfolding same_text
same_text_refl [] = refl
same_text_refl (x ∷ xs) = rw (==_refl x, same_text_refl xs)

pub same_text→eq : (xs ys : Text) → same_text xs ys ≡ true → xs ≡ ys
unfolding same_text
same_text→eq [] [] h = refl
same_text→eq [] (y ∷ ys) h = cc
same_text→eq (x ∷ xs) [] h = cc
same_text→eq (x ∷ xs) (y ∷ ys) h = ground (arith, same_text→eq xs ys)

-- No byte of the text is `c`.
abbrev pub Lacks : ℕ → Text → Type 0
Lacks c = All (λ x. (x == c) ≡ false)

pub split_at-Lacks : (c : ℕ) (xs : Text) → Lacks c xs → split_at c xs ≡ none
unfolding split_at
split_at-Lacks c [] h = refl
split_at-Lacks c (x ∷ xs) h = rw (h.0, split_at-Lacks c xs h.1)

pub split_at-append :
    (c : ℕ) (xs ys : Text) → Lacks c xs → split_at c (xs ++ c ∷ ys) ≡ some (xs, ys)
unfolding split_at
split_at-append c [] ys h = rw (==_refl c)
split_at-append c (x ∷ xs) ys h = rw (h.0, split_at-append c xs ys h.1)

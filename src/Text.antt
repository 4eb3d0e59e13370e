-- ===== src/Text.antt =====
-- src/stringpp.hpp and src/stringpp.cpp: texts as lists of bytes.
pub mod Laws
use Prim.Native.Char.{code}
use Prim.Native.String.{String}
use rtpmidid.Common.{
  ℕ, zero, suc, ◌+◌, ◌-◌, List, [], ◌∷◌, ◌++◌, length, drop, Bool, true, false, not, ◌&&◌, ◌||◌,
  ◌==◌, ltb, leb, ◌/◌, ◌%◌, if◌then◌else◌, Option, none, some,
}

abbrev pub Text : Type 0
Text = List ℕ

-- The bytes of a literal.
abbrev pub codes : String → Text
codes String.[] = []
codes (String.◌∷◌ c s) = code c ∷ codes s

unfoldable pub same_text : Text → Text → Bool
same_text [] [] = true
same_text (x ∷ xs) (y ∷ ys) = x == y && same_text xs ys
same_text _ _ = false

abbrev pub is_empty : Text → Bool
is_empty [] = true
is_empty (x ∷ xs) = false

-- `std::isspace` in the C locale.
abbrev pub is_space : ℕ → Bool
is_space c = c == 0x20 || leb 9 c && leb c 13

unfoldable pub ltrim : Text → Text
ltrim [] = []
ltrim (x ∷ xs) = if is_space x then ltrim xs else x ∷ xs

unfoldable pub rtrim : Text → Text
rtrim [] = []
rtrim (x ∷ xs) = let rest = rtrim xs in if is_space x && is_empty rest then [] else x ∷ rest

unfoldable pub trim : Text → Text
unfolding ltrim rtrim
trim xs = rtrim (ltrim xs)

unfoldable pub startswith : Text → Text → Bool
startswith xs [] = true
startswith [] (p ∷ ps) = false
startswith (x ∷ xs) (p ∷ ps) = x == p && startswith xs ps

-- `find(c)`, with what stands in front of the byte and behind it.
abbrev pub keep_front : ℕ → Option (Text × Text) → Option (Text × Text)
keep_front x none = none
keep_front x (some (front, behind)) = some (x ∷ front, behind)

unfoldable pub split_at : ℕ → Text → Option (Text × Text)
split_at c [] = none
split_at c (x ∷ xs) = if x == c then some ([], xs) else keep_front x (split_at c xs)

unfoldable pub contains : Text → Text → Bool
unfolding startswith
contains pattern [] = is_empty pattern
contains pattern (x ∷ xs) = startswith (x ∷ xs) pattern || contains pattern xs

-- Each `pattern` from left to right gives way to `by`; at most one round for each byte.
replace_rounds : ℕ → Text → Text → Text → Text
unfolding startswith
replace_rounds zero pattern by xs = xs
replace_rounds (suc n) pattern by [] = []
replace_rounds (suc n) pattern by (x ∷ xs) =
    let other = x ∷ replace_rounds n pattern by xs in
    let here = by ++ replace_rounds n pattern by (drop (length pattern) (x ∷ xs)) in
    if startswith (x ∷ xs) pattern then here else other

unfoldable pub replace_all : Text → Text → Text → Text
unfolding replace_rounds
replace_all pattern by xs = replace_rounds (length xs + 1) pattern by xs

-- `split(str, delim)`: the words between delimiters, none of them empty. `word` is the one so far.
push_word : Text → List Text → List Text
push_word [] words = words
push_word (x ∷ xs) words = (x ∷ xs) ∷ words

words_of : ℕ → Text → Text → List Text
unfolding push_word
words_of delim word [] = push_word word []
words_of delim word (x ∷ xs) =
    let cut = push_word word (words_of delim [] xs) in
    let longer = words_of delim (word ++ x ∷ []) xs in if x == delim then cut else longer

unfoldable pub split : Text → ℕ → List Text
unfolding words_of
split xs delim = words_of delim [] xs

abbrev pub lower : ℕ → ℕ
lower c = if leb 0x41 c && leb c 0x5A then c + 0x20 else c

abbrev pub lowercase : Text → Text
lowercase [] = []
lowercase (x ∷ xs) = lower x ∷ lowercase xs

-- `std::to_string` of a number of at most ten digits.
digits : ℕ → ℕ → Text
digits zero n = []
digits (suc k) n =
    let front = digits k (n / 10) in (if ltb n 10 then [] else front) ++ (0x30 + n % 10) ∷ []

unfoldable pub to_string : ℕ → Text
unfolding digits
to_string n = digits 10 n

-- ===== src/Settings/Keys.antt =====
-- src/ini.cpp: what one line with a key and a value does.
use rtpmidid.Common.{
  ℕ, ◌+◌, ◌≡◌, ◌<◌, refl, [], ◌∷◌, ◌++◌, Bool, true, false, ◌&&◌, ◌==◌, leb, arith, All-append,
}
use rtpmidid.Text.{Text, is_space, ltrim, rtrim, trim, contains}
use rtpmidid.Text.Laws.{Lacks, split_at-Lacks, split_at-append}
use rtpmidid.Settings.{Host}
use rtpmidid.Settings.Sections.{IniReader, set_key}
use rtpmidid.Settings.Ini.{
  placeholder, with_hostname, parse_key, before_comment, parse_content, parse_line,
}

-- A value that a line can carry: no space round it, no `#`, and no placeholder.
abbrev pub IsPlain : Text → Type 0
IsPlain v = (ltrim v ≡ v) × (rtrim v ≡ v) × Lacks b'#' v × (contains placeholder v ≡ false)

abbrev pub is_key_byte : ℕ → Bool
is_key_byte c = leb b'_' c && leb c b'z'

abbrev pub is_key : Text → Bool
is_key [] = true
is_key (x ∷ xs) = is_key_byte x && is_key xs

key_byte-not_space : (c : ℕ) → is_key_byte c ≡ true → is_space c ≡ false
key_byte-not_space c h = ground arith

is_key-first : (x : ℕ) (xs : Text) → is_key (x ∷ xs) ≡ true → is_key_byte x ≡ true
is_key-first x xs h = ground arith

is_key-rest : (x : ℕ) (xs : Text) → is_key (x ∷ xs) ≡ true → is_key xs ≡ true
is_key-rest x xs h = ground arith

key_byte-other : (c x : ℕ) → is_key_byte c ≡ true → x < b'_' → (c == x) ≡ false
key_byte-other c x h l = ground arith

-- A key has no byte that ends it or starts something else.
is_key-Lacks : (c : ℕ) (xs : Text) → c < b'_' → is_key xs ≡ true → Lacks c xs
is_key-Lacks c [] l h = tt
is_key-Lacks c (x ∷ xs) l h =
    (key_byte-other x c (is_key-first x xs h) l, is_key-Lacks c xs l (is_key-rest x xs h))

rtrim-is_key : (k v : Text) → is_key k ≡ true → rtrim (k ++ b'=' ∷ v) ≡ k ++ b'=' ∷ rtrim v
unfolding rtrim
rtrim-is_key [] v h = refl
rtrim-is_key (x ∷ xs) v h =
    rw (key_byte-not_space x (is_key-first x xs h), rtrim-is_key xs v (is_key-rest x xs h))

rtrim_key : (k : Text) → is_key k ≡ true → rtrim k ≡ k
unfolding rtrim
rtrim_key [] h = refl
rtrim_key (x ∷ xs) h =
    rw (key_byte-not_space x (is_key-first x xs h), rtrim_key xs (is_key-rest x xs h))

trim_key : (k : Text) → is_key k ≡ true → trim k ≡ k
unfolding trim ltrim
trim_key [] h = rtrim_key [] h
trim_key (x ∷ xs) h = rw (key_byte-not_space x (is_key-first x xs h), rtrim_key (x ∷ xs) h)

trim-is_key :
    (x : ℕ) (k v : Text)
    → is_key (x ∷ k) ≡ true
    → rtrim v ≡ v
    → trim (x ∷ k ++ b'=' ∷ v) ≡ x ∷ k ++ b'=' ∷ v
unfolding trim ltrim
trim-is_key x k v h t = rw (key_byte-not_space x (is_key-first x k h), rtrim-is_key (x ∷ k) v h, t)

trim_plain : (v : Text) → ltrim v ≡ v → rtrim v ≡ v → trim v ≡ v
unfolding trim
trim_plain v l t = rw (l, t)

with_hostname_plain :
    (host : Host) (v : Text) → contains placeholder v ≡ false → with_hostname host v ≡ v
unfolding with_hostname
with_hostname_plain host v h = rw h

line-Lacks :
    (x : ℕ) (k v : Text) → is_key (x ∷ k) ≡ true → Lacks b'#' v → Lacks b'#' (x ∷ k ++ b'=' ∷ v)
line-Lacks x k v h hash =
    All-append _ (x ∷ k) (b'=' ∷ v) (is_key-Lacks b'#' (x ∷ k) (omega arith) h) (refl, hash)

-- What a line leaves, for a key of letters and a plain value.
pub parse_line-key :
    (host : Host) (x : ℕ) (k v : Text) (r : IniReader)
    → is_key (x ∷ k) ≡ true
    → IsPlain v
    → parse_line host (x ∷ k ++ b'=' ∷ v) r
      ≡ set_key host (x ∷ k) v (record r { lineno = r.lineno + 1 })
unfolding parse_line parse_content parse_key before_comment
parse_line-key host x k v r h p = rw (
  split_at-Lacks b'#' (x ∷ k ++ b'=' ∷ v) (line-Lacks x k v h p.2),
  trim-is_key x k v h p.1,
  key_byte-other x b'[' (is_key-first x k h) (omega arith),
  split_at-append b'=' (x ∷ k) v (is_key-Lacks b'=' (x ∷ k) (omega arith) h),
  trim_key (x ∷ k) h,
  trim_plain v p.0 p.1,
  with_hostname_plain host v p.3,
)

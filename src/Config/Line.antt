-- ===== src/Config/Line.antt =====
-- Lines of the configuration file, and the pointer walks that take one apart. A pointer into a
-- buffer is the rest of the buffer from there on; what lies behind the end of a list is zero.
pub mod Fgets
use smart_ac.Base.{
  ℕ, zero, suc, ◌≡◌, refl, Bool, true, false, ◌&&◌, ◌||◌, not, Option, none, some, List, [], ◌∷◌,
  ◌++◌, Bytes, ◌==◌, if◌then◌else◌, drop, arith,
}
use smart_ac.Cstring.{is_blank, starts_with, codes}

-- `MAX_BUF`
abbrev pub max_buf : ℕ
max_buf = 40960

-- `fgets (line, n + 1, file)`: the line and what is left of the file.
unfoldable pub fgets : ℕ → Bytes → Bytes × Bytes
fgets zero s = ([], s)
fgets (suc n) [] = ([], [])
fgets (suc n) (c ∷ s) =
    let (line, rest) = fgets n s in if c == b'\n' then (c ∷ [], s) else (c ∷ line, rest)

-- `strchr (b, c) != NULL`
unfoldable pub has_char : ℕ → Bytes → Bool
has_char c [] = false
has_char c (x ∷ b) = x == c || not (x == 0) && has_char c b

-- `p = strchr (b, c)` and `*p = '\0'`: what stands before `p` and behind it.
unfoldable pub cut : ℕ → Bytes → Option (Bytes × Bytes)
cut c [] = none
cut c (x ∷ b) =
    let more : Option (Bytes × Bytes) = elim (cut c b) [
      | none ↦ none
      | some (u, v) ↦ some (x ∷ u, v)
    ] in
    if x == c then some ([], b) else if x == 0 then none else more

-- `p = strstr (b, "\r\n")` and `*p = '\0'`: what stands before `p`.
unfoldable pub cut_crlf : Bytes → Option Bytes
unfolding starts_with
cut_crlf [] = none
cut_crlf (x ∷ b) =
    let more : Option Bytes = elim (cut_crlf b) [ none ↦ none | some u ↦ some (x ∷ u) ] in
    if starts_with (codes "\r\n") (x ∷ b) then some [] else more

-- `for (p1 = line; isblank (*p1); p1++) ;`
unfoldable pub skip_blanks : Bytes → Bytes
skip_blanks [] = []
skip_blanks (c ∷ b) = if is_blank c then skip_blanks b else c ∷ b

-- `while (*p1 && len) { if (*p1 == ' ') p1++; else break; … }`
unfoldable pub skip_spaces : Bytes → Bytes
skip_spaces [] = []
skip_spaces (c ∷ b) = if c == b' ' then skip_spaces b else c ∷ b

-- Up to the first blank or NUL, and from there on.
unfoldable pub split_word : Bytes → Bytes × Bytes
split_word [] = ([], [])
split_word (c ∷ b) =
    let (word, rest) = split_word b in
    if c == 0 || is_blank c then ([], c ∷ b) else (c ∷ word, rest)

abbrev pub all_blank : Bytes → Bool
all_blank [] = true
all_blank (c ∷ b) = is_blank c && all_blank b

-- Each blank at the end becomes a NUL.
unfoldable pub erase_trailing_blanks : Bytes → Bytes
erase_trailing_blanks [] = []
erase_trailing_blanks (c ∷ b) = (if all_blank (c ∷ b) then 0 else c) ∷ erase_trailing_blanks b

-- ===== src/Cstring.antt =====
-- What the program uses of the C library on strings. A string is the list of its bytes before the
-- terminating NUL; a buffer is a list that holds NULs.
pub mod Number
use Prim.Native.Char.{code}
use Prim.Native.String.{String}
use smart_ac.Base.{
  ℕ, ◌+◌, ◌≡◌, refl, Bool, true, false, ◌&&◌, ◌||◌, not, Option, none, some, List, [], ◌∷◌, ◌++◌,
  Bytes, ◌==◌, leb, arith, if◌then◌else◌, length, take, Option-cases,
}
use smart_ac.Outcome.{Outcome, within}

-- The bytes of a literal; every one below is ASCII.
abbrev pub codes : String → Bytes
codes String.[] = []
codes (String.◌∷◌ c s) = code c ∷ codes s

-- The string that a buffer begins with.
unfoldable pub until_nul : Bytes → Bytes
until_nul [] = []
until_nul (c ∷ b) = if c == 0 then [] else c ∷ until_nul b

unfoldable pub has_nul : Bytes → Bool
has_nul [] = false
has_nul (c ∷ b) = c == 0 || has_nul b

-- Reading the string in a buffer is undefined where nothing terminates it.
abbrev pub c_string : Bytes → Outcome Bytes
c_string b = within (has_nul b) (until_nul b)

-- `strcmp (a, b) == 0`
unfoldable pub equal : Bytes → Bytes → Bool
equal [] [] = true
equal (x ∷ a) (y ∷ b) = x == y && equal a b
equal _ _ = false

-- `tolower` in the C locale
unfoldable pub lower : ℕ → ℕ
lower c = if leb b'A' c && leb c b'Z' then c + 32 else c

-- `strcasecmp (a, b) == 0`
unfoldable pub equal_ignoring_case : Bytes → Bytes → Bool
unfolding lower
equal_ignoring_case [] [] = true
equal_ignoring_case (x ∷ a) (y ∷ b) = lower x == lower y && equal_ignoring_case a b
equal_ignoring_case _ _ = false

abbrev pub is_blank : ℕ → Bool
is_blank c = c == b' ' || c == b'\t'

unfoldable pub starts_with : Bytes → Bytes → Bool
starts_with [] b = true
starts_with (x ∷ a) [] = false
starts_with (x ∷ a) (y ∷ b) = x == y && starts_with a b

-- `strstr (b, a)`: what stands from the first occurrence of `a` on.
unfoldable pub find_from : Bytes → Bytes → Option Bytes
unfolding starts_with
find_from a [] = if starts_with a [] then some [] else none
find_from a (c ∷ b) = if starts_with a (c ∷ b) then some (c ∷ b) else find_from a b

-- The two comparisons are exact.
pub eq_of_equal : (a b : Bytes) → (equal a b ≡ true) → a ≡ b
unfolding equal
eq_of_equal [] [] h = refl
eq_of_equal [] (y ∷ b) h = cc
eq_of_equal (x ∷ a) [] h = cc
eq_of_equal (x ∷ a) (y ∷ b) h = ground (arith, eq_of_equal a b)

pub equal_refl : (a : Bytes) → equal a a ≡ true
unfolding equal
equal_refl [] = refl
equal_refl (x ∷ a) = ground (arith, equal_refl a)

pub until_nul-append : (a b : Bytes) → has_nul a ≡ false → until_nul (a ++ 0 ∷ b) ≡ a
unfolding until_nul has_nul
until_nul-append [] b h = refl
until_nul-append (c ∷ a) b h = ground (arith, until_nul-append a b)

pub has_nul-append : (a b : Bytes) → has_nul (a ++ b) ≡ (has_nul a || has_nul b)
unfolding has_nul
has_nul-append [] b = refl
has_nul-append (c ∷ a) b = ground (arith, has_nul-append a b)

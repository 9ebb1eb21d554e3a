-- ===== src/Config/Line/Fgets.antt =====
-- `fgets` cuts its line off the front of the file.
use smart_ac.Base.{
  Bool, true, not, ◌&&◌, ◌==◌, ℕ, zero, suc, ◌<◌, ◌≡◌, refl, ap, false, [], ◌∷◌, ◌++◌, Bytes,
  length, length-append, arith,
}
use smart_ac.Config.Line.{fgets}
use smart_ac.Cstring.{has_nul, until_nul, has_nul-append}

pub fgets-append : (n : ℕ) (s : Bytes) → (fgets n s).0 ++ (fgets n s).1 ≡ s
unfolding fgets
fgets-append zero s = refl
fgets-append (suc n) [] = refl
fgets-append (suc n) (c ∷ s) = ground (arith, fgets-append n s)

fgets-ne-nil : (n c : ℕ) (s : Bytes) → 0 < length (fgets (suc n) (c ∷ s)).0
unfolding fgets
fgets-ne-nil n c s = ground arith

-- A line that is read is not empty, so the file gets shorter.
pub length-fgets : (n c : ℕ) (s : Bytes) → length (fgets (suc n) (c ∷ s)).1 < length (c ∷ s)
length-fgets n c s = omega (
  arith,
  fgets-ne-nil n c s,
  ap length (fgets-append (suc n) (c ∷ s)),
  length-append (fgets (suc n) (c ∷ s)).0 (fgets (suc n) (c ∷ s)).1,
)

pub has_nul-fgets :
    (n : ℕ) (s : Bytes)
    → has_nul s ≡ false
    → (has_nul (fgets n s).0 ≡ false) × (has_nul (fgets n s).1 ≡ false)
has_nul-fgets n s h =
    ground (arith, ap has_nul (fgets-append n s), has_nul-append (fgets n s).0 (fgets n s).1)

pub until_nul_all : (b : Bytes) → has_nul b ≡ false → until_nul b ≡ b
unfolding until_nul has_nul
until_nul_all [] h = refl
until_nul_all (c ∷ b) h = ground (arith, until_nul_all b)

pub until_nul-fgets :
    (n c : ℕ) (s : Bytes)
    → has_nul (c ∷ s) ≡ false
    → 0 < length (until_nul (fgets (suc n) (c ∷ s)).0)
until_nul-fgets n c s h = omega (
  arith,
  fgets-ne-nil n c s,
  ap length (until_nul_all (fgets (suc n) (c ∷ s)).0 (has_nul-fgets (suc n) (c ∷ s) h).0),
)

-- A line without its newline fits, so `fgets` reads it whole.
unfoldable pub no_newline : Bytes → Bool
no_newline [] = true
no_newline (c ∷ a) = not (c == b'\n') && no_newline a

pub fgets-line :
    (n : ℕ) (a s : Bytes)
    → no_newline a ≡ true
    → length a < n
    → fgets n (a ++ b'\n' ∷ s) ≡ (a ++ b'\n' ∷ [], s)
unfolding fgets no_newline
fgets-line zero a s h f = absurd (omega arith)
fgets-line (suc n) [] s h f = refl
fgets-line (suc n) (c ∷ a) s h f = ground (arith, fgets-line n a s)

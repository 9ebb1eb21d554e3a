-- ===== src/Interfaces/Route/Scanned.antt =====
-- The search through any file at all.
use smart_ac.Base.{
  ℕ, zero, suc, ◌+◌, ◌≤◌, ◌<◌, ◌≡◌, refl, Bool, true, false, Option, none, some, [], ◌∷◌, Bytes,
  if◌then◌else◌, length, Bool-cases, inl, inr, arith,
}
use smart_ac.Cstring.{equal, codes}
use smart_ac.Cstring.Number.{is_space, skip_spaces}
use smart_ac.Interfaces.Route.{
  span_word, word_or_end, scan_word, skip_word, skip_words, second_word, first_word, scan_line,
  default_device, found_or, at_end, table_loop, find_default,
}
use smart_ac.Outcome.{Outcome, ok, Returns}

length-span_word :
    (width : ℕ) (s : Bytes)
    → let (word, rest) = span_word width s in
      (length word ≤ width) × (length word + length rest ≡ length s)
unfolding span_word
length-span_word zero s = (omega arith, omega arith)
length-span_word (suc width) [] = (omega arith, omega arith)
length-span_word (suc width) (c ∷ s) = ground (arith, length-span_word width s)

length-skip_spaces : (s : Bytes) → length (skip_spaces s) ≤ length s
unfolding skip_spaces
length-skip_spaces [] = omega arith
length-skip_spaces (c ∷ s) = ground (arith, length-skip_spaces s)

length-skip_word : (s : Bytes) → length (skip_word s) ≤ length s
unfolding skip_word
length-skip_word [] = omega arith
length-skip_word (c ∷ s) = ground (arith, length-skip_word s)

length-skip_words : (n : ℕ) (s : Bytes) → length (skip_words n s) ≤ length s
unfolding skip_words
length-skip_words zero s = omega arith
length-skip_words (suc n) s = omega (
  arith,
  length-skip_words n (skip_word (skip_spaces s)),
  length-skip_word (skip_spaces s),
  length-skip_spaces s,
)

-- A text that does not begin with white space.
abbrev pub IsHeaded : Bytes → Type 0
IsHeaded [] = Unit
IsHeaded (c ∷ s) = is_space c ≡ false

skip_spaces-IsHeaded : (s : Bytes) → IsHeaded (skip_spaces s)
unfolding skip_spaces
skip_spaces-IsHeaded [] = tt
skip_spaces-IsHeaded (c ∷ s) = elim (Bool-cases (is_space c)) [
  | inl e ↦ rw e (skip_spaces-IsHeaded s)
  | inr e ↦ rw e e
]

span_word-rest :
    (width c : ℕ) (s : Bytes)
    → is_space c ≡ false
    → length (span_word (suc width) (c ∷ s)).1 < length (c ∷ s)
unfolding span_word
span_word-rest width c s h = rw h (omega (arith, (length-span_word width s).1))

-- What is read out of `n` bytes leaves fewer.
abbrev HasWord : ℕ → Option (Bytes × Bytes) → Type 0
HasWord n none = Unit
HasWord n (some (word, rest)) = (length word ≤ 15) × (length rest < n)

word_or_end-HasWord : (s : Bytes) → IsHeaded s → HasWord (length s) (word_or_end 15 s)
word_or_end-HasWord [] h = tt
word_or_end-HasWord (c ∷ s) h = ((length-span_word 15 (c ∷ s)).0, span_word-rest 14 c s h)

HasWord-mono : (m n : ℕ) (o : Option (Bytes × Bytes)) → m ≤ n → HasWord m o → HasWord n o
HasWord-mono m n none le h = tt
HasWord-mono m n (some (word, rest)) le (short, less) = (short, omega arith)

scan_word-HasWord : (s : Bytes) → HasWord (length s) (scan_word 15 s)
unfolding scan_word
scan_word-HasWord s =
    HasWord-mono (length (skip_spaces s)) (length s) (word_or_end 15 (skip_spaces s))
      (length-skip_spaces s) (word_or_end-HasWord (skip_spaces s) (skip_spaces-IsHeaded s))

abbrev HasLine : ℕ → Option (Bytes × Bytes) × Bytes → Type 0
HasLine n (none, rest) = rest ≡ []
HasLine n (some (device, gw), rest) = (length device ≤ 15) × (length rest < n)

second_word-HasLine :
    (n : ℕ) (device : Bytes) (o : Option (Bytes × Bytes))
    → length device ≤ 15
    → HasWord n o
    → HasLine n (second_word device o)
second_word-HasLine n device none short h = refl
second_word-HasLine n device (some (gw, rest)) short (_, less) =
    (short, omega (arith, length-skip_spaces (skip_words 9 rest), length-skip_words 9 rest))

first_word-HasLine : (n : ℕ) (o : Option (Bytes × Bytes)) → HasWord n o → HasLine n (first_word o)
first_word-HasLine n none h = refl
first_word-HasLine n (some (device, rest)) (short, less) =
    second_word-HasLine n device (scan_word 15 rest) short
      (HasWord-mono (length rest) n (scan_word 15 rest) (omega arith) (scan_word-HasWord rest))

-- A device's name fits into its array of 16 bytes.
abbrev pub Fits : Option Bytes → Type 0
Fits none = Unit
Fits (some device) = length device ≤ 15

device-Fits :
    (b : Bool) (device : Bytes) (rest : Outcome (Option Bytes))
    → length device ≤ 15
    → Returns Fits rest
    → Returns Fits (found_or (if b then some device else none) rest)
device-Fits true device rest short h = short
device-Fits false device rest short h = h

line-Fits :
    (n : ℕ) (line : Option (Bytes × Bytes) × Bytes) (rest : Outcome (Option Bytes))
    → HasLine n line
    → (length line.1 < n → Returns Fits rest)
    → Returns Fits (found_or (default_device line.0) (at_end line.1 rest))
line-Fits n (none, left) rest h next = rw h tt
line-Fits n (some (device, gw), []) rest (short, less) next =
    device-Fits (equal gw (codes "00000000")) device (ok none) short tt
line-Fits n (some (device, gw), c ∷ s) rest (short, less) next =
    device-Fits (equal gw (codes "00000000")) device rest short (next less)

table_loop-Fits : (fuel : ℕ) (s : Bytes) → length s < fuel → Returns Fits (table_loop fuel s)
unfolding table_loop
table_loop-Fits zero s lt = absurd (omega arith)
table_loop-Fits (suc fuel) s lt =
    line-Fits (length s) (scan_line s) (table_loop fuel (scan_line s).1)
      (first_word-HasLine (length s) (scan_word 15 s) (scan_word-HasWord s))
      (λ less. table_loop-Fits fuel (scan_line s).1 (omega arith))

-- Whatever the file holds, the search through it always ends, and a device that it finds has a name of at
-- most 15 bytes, which fits into the array that it is read into.
pub find_default-Fits : (s : Bytes) → Returns Fits (find_default s)
unfolding find_default
find_default-Fits s = table_loop-Fits (length s + 1) s (omega arith)

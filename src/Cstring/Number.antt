-- ===== src/Cstring/Number.antt =====
-- Decimal numbers: what `%d` prints and what `atoi` and `sscanf` with `%d` read.
pub mod Printed
use smart_ac.Base.{
  ℕ, zero, suc, ◌+◌, ◌-◌, ◌*◌, ◌/◌, ◌%◌, ◌^◌, ◌<◌, ◌≡◌, Bool, true, false, ◌&&◌, ◌||◌, Option, none,
  some, [], ◌∷◌, Bytes, length, ◌==◌, ◌≤◌, ltb, leb, arith, if◌then◌else◌, min,
}

-- `negsuc n` is -(n + 1).
pub data ℤ : Type 0 where
  pos : ℕ → ℤ
  negsuc : ℕ → ℤ

unfoldable pub is_digit : ℕ → Bool
is_digit c = leb b'0' c && leb c b'9'

-- `isspace` in the C locale
unfoldable pub is_space : ℕ → Bool
is_space c = c == b' ' || leb 9 c && leb c 13

-- The decimal digits of `n` in front of `rest`, on fuel above `n`.
unfoldable pub print_onto : ℕ → ℕ → Bytes → Bytes
print_onto zero n rest = rest
print_onto (suc fuel) n rest =
    let more = print_onto fuel (n / 10) ((b'0' + n % 10) ∷ rest) in
    if ltb n 10 then (b'0' + n) ∷ rest else more

unfoldable pub print : ℕ → Bytes
unfolding print_onto
print n = print_onto (n + 1) n []

-- `%d`
unfoldable pub print_int : ℤ → Bytes
unfolding print
print_int (pos n) = print n
print_int (negsuc n) = b'-' ∷ print (n + 1)

-- The value of the digits that a text begins with, behind digits of value `acc`.
unfoldable pub read_digits : ℕ → Bytes → ℕ
unfolding is_digit
read_digits acc [] = acc
read_digits acc (c ∷ cs) = if is_digit c then read_digits (acc * 10 + (c - b'0')) cs else acc

-- `strtol` stops at the ends of `long`, and the conversion to `int` keeps the low 32 bits.
unfoldable pub to_int : Bool → ℕ → ℤ
to_int negative v =
    let kept = min v (if negative then 2 ^ 63 else 2 ^ 63 - 1) % 2 ^ 32 in
    let r = if negative then (2 ^ 32 - kept) % 2 ^ 32 else kept in
    if ltb r (2 ^ 31) then pos r else negsuc (2 ^ 32 - r - 1)

unfoldable pub skip_spaces : Bytes → Bytes
unfolding is_space
skip_spaces [] = []
skip_spaces (c ∷ cs) = if is_space c then skip_spaces cs else c ∷ cs

unfoldable pub starts_with_digit : Bytes → Bool
unfolding is_digit
starts_with_digit [] = false
starts_with_digit (c ∷ cs) = is_digit c

unfoldable pub read_signed : Bool → Bytes → Option ℤ
unfolding starts_with_digit read_digits to_int
read_signed negative s =
    if starts_with_digit s then some (to_int negative (read_digits 0 s)) else none

unfoldable pub read_number : Bytes → Option ℤ
unfolding read_signed
read_number [] = none
read_number (c ∷ cs) =
    if c == b'-'
    then read_signed true cs
    else if c == b'+'
    then read_signed false cs
    else read_signed false (c ∷ cs)

-- `sscanf (s, "%d", &x)`; `none` leaves `x` as it was.
unfoldable pub sscanf_int : Bytes → Option ℤ
unfolding skip_spaces read_number
sscanf_int s = read_number (skip_spaces s)

-- `atoi (s)`
unfoldable pub atoi : Bytes → ℤ
unfolding sscanf_int
atoi s = elim (sscanf_int s) [ none ↦ pos 0 | some i ↦ i ]

-- The sign and the digits behind the spaces, as `atoll` reads them.
unfoldable pub clamp_long : Bool → ℕ → ℤ
clamp_long true zero = pos 0
clamp_long true (suc n) = negsuc (min n (2 ^ 63 - 1))
clamp_long false n = pos (min n (2 ^ 63 - 1))

unfoldable pub atoll_sign : Bytes → ℤ
unfolding clamp_long read_digits
atoll_sign [] = pos 0
atoll_sign (c ∷ cs) =
    if c == b'-'
    then clamp_long true (read_digits 0 cs)
    else if c == b'+'
    then clamp_long false (read_digits 0 cs)
    else clamp_long false (read_digits 0 (c ∷ cs))

-- `atoll (s)`; `strtoll` stops at the ends of `long long`.
unfoldable pub atoll : Bytes → ℤ
unfolding skip_spaces atoll_sign
atoll s = atoll_sign (skip_spaces s)

print_onto-read :
    (fuel n : ℕ) (rest : Bytes)
    → n < fuel
    → read_digits 0 (print_onto fuel n rest) ≡ read_digits n rest
unfolding print_onto read_digits
print_onto-read zero n rest h = absurd (omega arith)
print_onto-read (suc fuel) n rest h =
    ground (arith, print_onto-read fuel (n / 10) ((b'0' + n % 10) ∷ rest))

pub print-read :
    (n : ℕ) (rest : Bytes) → read_digits 0 (print_onto (n + 1) n rest) ≡ read_digits n rest
print-read n rest = print_onto-read (n + 1) n rest (omega arith)

-- At most `k` + 1 digits.
abbrev pub ShortNumber : ℕ → ℕ → Type 0
ShortNumber zero n = n < 10
ShortNumber (suc k) n = ShortNumber k (n / 10)

length-print_onto :
    (k fuel n : ℕ) (rest : Bytes)
    → n < fuel
    → ShortNumber k n
    → length (print_onto fuel n rest) ≤ suc k + length rest
unfolding print_onto
length-print_onto k zero n rest h s = absurd (omega arith)
length-print_onto zero (suc fuel) n rest h s = ground arith
length-print_onto (suc k) (suc fuel) n rest h s =
    ground (arith, length-print_onto k fuel (n / 10) ((b'0' + n % 10) ∷ rest))

pub length-print-four : (n : ℕ) → n < 10000 → length (print n) ≤ 4
unfolding print
length-print-four n h =
    let s : ShortNumber 3 n = omega arith in length-print_onto 3 (n + 1) n [] (omega arith) s

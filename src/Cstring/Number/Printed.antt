-- ===== src/Cstring/Number/Printed.antt =====
-- `atoi` and `atoll` read back what `%d` prints.
use smart_ac.Base.{
  ℕ, zero, suc, ◌+◌, ◌-◌, ◌/◌, ◌%◌, ◌^◌, ◌<◌, ◌≡◌, refl, ap, ◌∙◌, true, false, [], ◌∷◌, ◌++◌, Bytes,
  ltb, arith, min,
}
use smart_ac.Cstring.Number.{
  pos, is_digit, is_space, print_onto, print, read_digits, to_int, skip_spaces, starts_with_digit,
  read_signed, read_number, sscanf_int, atoi, clamp_long, atoll_sign, atoll, print-read,
}

print_onto-append :
    (fuel n : ℕ) (s rest : Bytes) → print_onto fuel n s ++ rest ≡ print_onto fuel n (s ++ rest)
unfolding print_onto
print_onto-append zero n s rest = refl
print_onto-append (suc k) n s rest =
    ground (arith, print_onto-append k (n / 10) ((b'0' + n % 10) ∷ s) rest)

print_onto-digit :
    (fuel n : ℕ) (s : Bytes) → n < fuel → starts_with_digit (print_onto fuel n s) ≡ true
unfolding print_onto starts_with_digit is_digit
print_onto-digit zero n s h = absurd (omega arith)
print_onto-digit (suc k) n s h = ground (arith, print_onto-digit k (n / 10) ((b'0' + n % 10) ∷ s))

-- A text that begins with a digit has no sign and no spaces in front.
atoll-digit :
    (s : Bytes) → starts_with_digit s ≡ true → atoll s ≡ clamp_long false (read_digits 0 s)
unfolding atoll atoll_sign skip_spaces is_space starts_with_digit is_digit
atoll-digit [] h = absurd (ground (arith, h))
atoll-digit (c ∷ s) h = ground arith

atoi-digit : (s : Bytes) → starts_with_digit s ≡ true → atoi s ≡ to_int false (read_digits 0 s)
unfolding atoi sscanf_int read_number read_signed skip_spaces is_space starts_with_digit is_digit
atoi-digit [] h = absurd (ground (arith, h))
atoi-digit (c ∷ s) h = ground arith

read_digits-ended : (n : ℕ) (rest : Bytes) → starts_with_digit rest ≡ false → read_digits n rest ≡ n
unfolding read_digits starts_with_digit
read_digits-ended n [] h = refl
read_digits-ended n (c ∷ rest) h = rw h refl

clamp_long-small : (n : ℕ) → n < 2 ^ 63 → clamp_long false n ≡ pos n
unfolding clamp_long
clamp_long-small n h = ap pos (omega arith)

to_int-small : (n : ℕ) → n < 2 ^ 31 → to_int false n ≡ pos n
unfolding to_int
to_int-small n h =
    let kept : min n (2 ^ 63 - 1) % 2 ^ 32 ≡ n = omega arith in
    let small : ltb n (2 ^ 31) ≡ true = ground arith in rw (kept, small) refl

module _ (n : ℕ) (rest : Bytes) (ended : starts_with_digit rest ≡ false) where
  print-onto : print n ++ rest ≡ print_onto (n + 1) n rest
  unfolding print
  print-onto = print_onto-append (n + 1) n [] rest

  digits : read_digits 0 (print_onto (n + 1) n rest) ≡ n
  digits = print-read n rest ∙ read_digits-ended n rest ended

  pub atoll-print : n < 2 ^ 63 → atoll (print n ++ rest) ≡ pos n
  atoll-print h =
      rw (print-onto, atoll-digit _ (print_onto-digit (n + 1) n rest (omega arith)), digits)
        (clamp_long-small n h)

  pub atoi-print : n < 2 ^ 31 → atoi (print n ++ rest) ≡ pos n
  atoi-print h =
      rw (print-onto, atoi-digit _ (print_onto-digit (n + 1) n rest (omega arith)), digits)
        (to_int-small n h)

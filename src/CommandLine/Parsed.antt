-- ===== src/CommandLine/Parsed.antt =====
-- What `parse_commandline` comes to, and where it writes.
use smart_ac.Base.{
  ℕ, zero, suc, ◌+◌, ◌-◌, ◌<◌, ◌≤◌, ◌≡◌, refl, ap, sym, ◌∙◌, Bool, true, false, Option, none, some,
  List, [], ◌∷◌, ◌++◌, Bytes, ltb, if◌then◌else◌, length, take, drop, replicate, length-append,
  length-take, length-drop, length-replicate, take-append, append_assoc, Bool-cases, inl, inr,
  arith,
}
use smart_ac.CommandLine.{put_arg, parse_commandline}
use smart_ac.CommandLine.Settled.{all_accepted, settled, option_loop-settled}
use smart_ac.CommandLine.Getopt.{Opt, getopt}
use smart_ac.Config.{State}
use smart_ac.Cstring.Number.{ℤ, pos, negsuc}
use smart_ac.Outcome.{Outcome, ok, exits, fault, ◌>>=◌, within}

abbrev pub Argv : Type 0
Argv = List (Option Bytes)

-- The writes of `NULL` at the end, and what follows them.
put_nulls : ℕ → ℤ → Argv → (Argv → Outcome (State × Argv)) → Outcome (State × Argv)
put_nulls zero i argv k = k argv
put_nulls (suc n) i argv k = put_arg i none argv >>= (λ x. put_nulls n x.0 x.1 k)

drop-at : (y : Option Bytes) (xs ys : Argv) → drop (length xs + 1) (xs ++ y ∷ ys) ≡ ys
drop-at y [] ys = refl
drop-at y (x ∷ xs) ys =
    let shift : suc (length xs) + 1 ≡ suc (length xs + 1) = omega arith in
    rw shift (drop-at y xs ys)

put_arg-at :
    (p y : Option Bytes) (xs ys : Argv)
    → put_arg (pos (length xs)) p (xs ++ y ∷ ys) ≡ ok (pos (length xs + 1), xs ++ p ∷ ys)
unfolding put_arg
put_arg-at p y xs ys =
    let inside : ltb (length xs) (length (xs ++ y ∷ ys)) ≡ true =
      ground (arith, length-append xs (y ∷ ys)) in
    rw (inside, take-append xs (y ∷ ys), drop-at y xs ys) refl

put_nulls-ok :
    (n : ℕ) (xs ys : Argv) (k : Argv → Outcome (State × Argv))
    → put_nulls n (pos (length xs)) (xs ++ (replicate n none ++ ys)) k
      ≡ k (xs ++ (replicate n none ++ ys))
unfolding put_nulls
put_nulls-ok zero xs ys k = refl
put_nulls-ok (suc n) xs ys k =
    let rest = replicate n none ++ ys in
    let grown : length (xs ++ none ∷ []) ≡ length xs + 1 = length-append xs (none ∷ []) in
    let same = append_assoc xs (none ∷ []) rest in
    rw (put_arg-at none none xs rest, ← grown, ← same) (put_nulls-ok n (xs ++ none ∷ []) ys k)

length-put :
    (i : ℕ) (p : Option Bytes) (argv : Argv)
    → i < length argv
    → length (take i argv ++ p ∷ drop (i + 1) argv) ≡ length argv
length-put i p argv h =
    length-append (take i argv) (p ∷ drop (i + 1) argv)
    ∙ ground (arith, length-take i argv, length-drop (i + 1) argv)

put_nulls-fault :
    (n i : ℕ) (argv : Argv) (k : Argv → Outcome (State × Argv))
    → i ≤ length argv
    → length argv < i + n
    → put_nulls n (pos i) argv k ≡ fault
unfolding put_nulls put_arg
put_nulls-fault zero i argv k le lt = absurd (omega arith)
put_nulls-fault (suc n) i argv k le lt = elim (Bool-cases (ltb i (length argv))) [
  | inl e ↦
      let l = length-put i none argv (ground arith) in
      rw e (
        put_nulls-fault n (i + 1) (take i argv ++ none ∷ drop (i + 1) argv) k (ground (arith, l))
          (omega (arith, l)))
  | inr e ↦ rw e refl
]

-- What stands in `restartargv` behind its writes.
abbrev pub placed : ℕ → Bytes → ℕ → Argv
placed i argv0 argc = replicate i none ++ some argv0 ∷ replicate (argc + 2 - i) none

-- The whole of it: the first write, the options, the last three writes.
abbrev pub parsed : ℤ → ℕ → Bytes → List Opt → State → Outcome (State × Argv)
parsed (negsuc n) argc argv0 os s = fault
parsed (pos i) argc argv0 os s =
    if ltb i (argc + 3)
    then (if all_accepted os
        then within (ltb i argc) (settled os s, placed i argv0 argc)
        else exits 1)
    else fault

replicate-split :
    (i n : ℕ)
    → i < n
    → replicate {A = Option Bytes} n none ≡ replicate i none ++ none ∷ replicate (n - i - 1) none
replicate-split zero zero h = absurd (omega arith)
replicate-split zero (suc n) h = ap (λ k. none ∷ replicate k none) (omega arith)
replicate-split (suc i) zero h = absurd (omega arith)
replicate-split (suc i) (suc n) h =
    let less : suc n - suc i - 1 ≡ n - i - 1 = omega arith in
    rw less (ap (λ xs. none ∷ xs) (replicate-split i n (omega arith)))

within-if : (c : Bool) (x : State × Argv) → (if c then ok x else fault) ≡ within c x
within-if true x = refl
within-if false x = refl

module _ (i : ℕ) (argv0 : Bytes) (argc : ℕ) where
  first_put-outside :
      ltb i (argc + 3) ≡ false → put_arg (pos i) (some argv0) (replicate (argc + 3) none) ≡ fault
  unfolding put_arg
  first_put-outside e =
      ap
        (λ n. within (ltb i n) (
          pos (i + 1),
          take {A = Option Bytes} i (replicate (argc + 3) none)
              ++ some argv0 ∷ drop (i + 1) (replicate (argc + 3) none),
        ))
        (length-replicate {A = Option Bytes} (argc + 3) none)
      ∙ rw e refl

  first_put :
      i < argc + 3
      → put_arg (pos i) (some argv0) (replicate (argc + 3) none)
        ≡ ok (pos (i + 1), placed i argv0 argc)
  first_put h =
      let len = length-replicate {A = Option Bytes} i none in
      let left : argc + 3 - i - 1 ≡ argc + 2 - i = omega arith in
      rw (replicate-split i (argc + 3) h, left)
        (ap
            (λ j.
              put_arg (pos j) (some argv0)
                (replicate i none ++ none ∷ replicate (argc + 2 - i) none))
            (sym len)
          ∙ put_arg-at (some argv0) none (replicate i none) (replicate (argc + 2 - i) none)
          ∙ ap (λ j. ok (pos (j + 1), placed i argv0 argc)) len)

  length-placed : i < argc + 3 → length (placed i argv0 argc) ≡ argc + 3
  length-placed h =
      length-append (replicate i none) (some argv0 ∷ replicate (argc + 2 - i) none)
      ∙ omega (
        arith,
        length-replicate {A = Option Bytes} i none,
        length-replicate {A = Option Bytes} (argc + 2 - i) none,
      )

  -- What stands in front of the last three writes, and behind them.
  before : Argv
  before = replicate i none ++ some argv0 ∷ []

  behind : Argv
  behind = replicate (argc - 1 - i) none

  length-before : length before ≡ i + 1
  unfolding before
  length-before =
      length-append (replicate i none) (some argv0 ∷ [])
      ∙ omega (arith, length-replicate {A = Option Bytes} i none)

  placed-before : i < argc → placed i argv0 argc ≡ before ++ (replicate 3 none ++ behind)
  unfolding before behind
  placed-before h =
      let three : argc + 2 - i ≡ suc (suc (suc (argc - 1 - i))) = omega arith in
      ap (λ n. replicate i none ++ some argv0 ∷ replicate n none) three
      ∙ sym (
          append_assoc (replicate i none) (some argv0 ∷ [])
            (replicate 3 none ++ replicate (argc - 1 - i) none))

  last_puts :
      (k : Argv → Outcome (State × Argv))
      → i < argc + 3
      → put_nulls 3 (pos (i + 1)) (placed i argv0 argc) k
        ≡ (if ltb i argc then k (placed i argv0 argc) else fault)
  last_puts k h = elim (Bool-cases (ltb i argc)) [
    | inl e ↦ rw e (
        ap (λ j. put_nulls 3 (pos j) (placed i argv0 argc) k) (sym length-before)
        ∙ ap (λ a. put_nulls 3 (pos (length before)) a k) (placed-before (ground arith))
        ∙ put_nulls-ok 3 before behind k
        ∙ ap k (sym (placed-before (ground arith))))
    | inr e ↦
        let len = length-placed h in
        rw e (
          put_nulls-fault 3 (i + 1) (placed i argv0 argc) k (omega (arith, len))
            (ground (arith, len)))
  ]

  options_and_puts :
      (b : Bool) (s : State)
      → i < argc + 3
      → ((if b then ok s else exits 1)
          >>= (λ s. put_nulls 3 (pos (i + 1)) (placed i argv0 argc) (λ a. ok (s, a))))
        ≡ (if b then within (ltb i argc) (s, placed i argv0 argc) else exits 1)
  options_and_puts true s h =
      last_puts (λ a. ok (s, a)) h ∙ within-if (ltb i argc) (s, placed i argv0 argc)
  options_and_puts false s h = refl

-- The result is what the whole comes to: the process ends or crashes, or every setting is decided by the
-- last option of its letter, and the array holds the program's name at the index that `i` happened to
-- have. It crashes for every `i` that is negative or at least the number of arguments, unless an option
-- ends the process before.
pub parse_commandline-parsed :
    (i : ℤ) (permute : Bool) (argv0 : Bytes) (args : List Bytes) (s : State)
    → parse_commandline i permute argv0 args s
      ≡ parsed i (length (argv0 ∷ args)) argv0 (getopt permute args) s
unfolding parse_commandline put_nulls
parse_commandline-parsed (negsuc n) permute argv0 args s = unfold put_arg in refl
parse_commandline-parsed (pos i) permute argv0 args s =
    elim (Bool-cases (ltb i (length (argv0 ∷ args) + 3))) [
      | inl e ↦
          rw
            (
              e,
              first_put i argv0 (length (argv0 ∷ args)) (ground arith),
              option_loop-settled (getopt permute args) s,
            )
            (options_and_puts i argv0 (length (argv0 ∷ args)) (all_accepted (getopt permute args))
              (settled (getopt permute args) s) (ground arith))
      | inr e ↦ rw (e, first_put-outside i argv0 (length (argv0 ∷ args)) e) refl
    ]

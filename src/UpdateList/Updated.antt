-- ===== src/UpdateList/Updated.antt =====
-- What the children of the update program do, for every list of arguments.
use smart_ac.Base.{
  ℕ, zero, suc, ◌+◌, ◌<◌, ◌≤◌, ◌≡◌, refl, ap, ◌∙◌, Bool, true, false, Bool-cases, inl, inr, ◌⊎◌,
  List, [], ◌∷◌, Bytes, ltb, length, take, arith,
}
use smart_ac.Cstring.{codes}
use smart_ac.Outcome.{Outcome, ok, exits, fault}
use smart_ac.UpdateList.{check_paramter, do_wdctl_reset, update_loop, update_list}

-- The command line that resets one address.
abbrev pub reset_of : Bytes → List Bytes
reset_of mac = codes "     " ∷ codes "reset" ∷ mac ∷ []

-- How the child for an address may end: as wdctl, as failed, or past the end of its array of 32 bytes.
pub data IsReset (runs : List Bytes → Bool) (mac : Bytes) : Outcome (List Bytes) → Type 0 where
  resets : length mac < 32 → runs (reset_of mac) ≡ true → IsReset runs mac (ok (reset_of mac))
  fails : length mac < 32 → runs (reset_of mac) ≡ false → IsReset runs mac (exits 255)
  overflows : 32 ≤ length mac → IsReset runs mac fault

-- One child for each address, in their order.
pub data AreReset (runs : List Bytes → Bool)
    : List Bytes → List (Outcome (List Bytes)) → Type 0 where
  none_left : AreReset runs [] []
  one_more :
      {mac : Bytes} {macs : List Bytes} {child : Outcome (List Bytes)}
      {children : List (Outcome (List Bytes))}
      → IsReset runs mac child
      → AreReset runs macs children
      → AreReset runs (mac ∷ macs) (child ∷ children)

-- Which end the parent comes to after `n` children for `all` addresses, the first with number `i`.
abbrev pub EndsAfter : (ℕ → Bool) → ℕ → ℕ → ℕ → ℕ → Type 0
EndsAfter forks i n all status =
    ((n ≡ all) × (status ≡ 0)) ⊎ ((n < all) × (forks (i + n) ≡ false) × (status ≡ 255))

-- `number` children were made, one for each of the first addresses, and then the parent ended.
pub record Updated (forks : ℕ → Bool) (runs : List Bytes → Bool) (i : ℕ) (macs : List Bytes)
    (result : List (Outcome (List Bytes)) × ℕ) : Type 0 where
  pub number : ℕ
  pub forked : (k : ℕ) → k < number → forks (i + k) ≡ true
  pub children : AreReset runs (take number macs) result.0
  pub ends : EndsAfter forks i number (length macs) result.1

do_wdctl_reset-IsReset :
    (runs : List Bytes → Bool) (mac : Bytes) → IsReset runs mac (do_wdctl_reset runs mac)
unfolding do_wdctl_reset
do_wdctl_reset-IsReset runs mac = elim (Bool-cases (ltb (length mac) 32)) [
  | inl e ↦ elim (Bool-cases (runs (reset_of mac))) [
    | inl f ↦ rw (e, f) (resets (ground arith) f)
    | inr f ↦ rw (e, f) (fails (ground arith) f)
  ]
  | inr e ↦ rw e (overflows (ground arith))
]

shift : (i k : ℕ) → i + suc k ≡ suc i + k
shift i k = omega arith

forked_below :
    (forks : ℕ → Bool) (i n : ℕ)
    → forks i ≡ true
    → ((k : ℕ) → k < n → forks (suc i + k) ≡ true)
    → (k : ℕ) → k < suc n
    → forks (i + k) ≡ true
forked_below forks i n e below zero lt = let same : i + 0 ≡ i = omega arith in rw same e
forked_below forks i n e below (suc k) lt = rw (shift i k) (below k (ground arith))

-- One more argument in front, whose child was made.
after_fork :
    (forks : ℕ → Bool) (runs : List Bytes → Bool) (i : ℕ) (mac : Bytes) (macs : List Bytes)
    (result : List (Outcome (List Bytes)) × ℕ)
    → forks i ≡ true
    → Updated forks runs (suc i) macs result
    → Updated forks runs i (mac ∷ macs) (do_wdctl_reset runs mac ∷ result.0, result.1)
after_fork forks runs i mac macs result e is = record {
  number = suc is.number;
  forked = forked_below forks i is.number e is.forked;
  children = one_more (do_wdctl_reset-IsReset runs mac) is.children;
  ends = elim (is.ends) [
    | inl (n, s) ↦ inl (ap suc n, s)
    | inr (lt, f, s) ↦ inr (omega (arith, lt), ap forks (shift i is.number) ∙ f, s)
  ];
}

update_loop-Updated :
    (forks : ℕ → Bool) (runs : List Bytes → Bool) (i : ℕ) (macs : List Bytes)
    → Updated forks runs i macs (update_loop forks runs i macs)
unfolding update_loop
update_loop-Updated forks runs i [] = record {
  number = 0;
  forked = λ k lt. absurd (omega (arith, lt));
  children = none_left;
  ends = inl (refl, refl);
}
update_loop-Updated forks runs i (mac ∷ macs) =
    let rest = update_loop-Updated forks runs (suc i) macs in
    let none_yet : i + 0 ≡ i = omega arith in
    elim (Bool-cases (forks i)) [
      | inl e ↦ rw e (after_fork forks runs i mac macs _ e rest)
      | inr e ↦ rw e (record {
        number = 0;
        forked = λ k lt. absurd (omega (arith, lt));
        children = none_left;
        ends = inr (ground arith, ap forks none_yet ∙ e, refl);
      })
    ]

argc : (mac : Bytes) (macs : List Bytes) → ltb (suc (length (mac ∷ macs))) 2 ≡ false
argc mac macs = ground arith

-- For every list of arguments that is not empty, whichever calls of `fork` succeed: the children are
-- one for each of the first addresses, in their order, until all have one and the program exits with
-- 0, or until the first `fork` that fails and it ends with 255. Each child becomes a wdctl that resets
-- just its address, exits with 255 where `execv` fails, and writes past its array where the address has
-- 32 bytes or more; it never goes on in the loop. Without an argument there is no child and the status
-- is 255.
pub update_list-Updated :
    (forks : ℕ → Bool) (runs : List Bytes → Bool)
    → ((mac : Bytes) (macs : List Bytes)
        → Updated forks runs 1 (mac ∷ macs) (update_list forks runs (mac ∷ macs)))
      × (update_list forks runs [] ≡ ([], 255))
unfolding update_list check_paramter
update_list-Updated forks runs =
    (λ mac macs. rw (argc mac macs) (update_loop-Updated forks runs 1 (mac ∷ macs)), refl)

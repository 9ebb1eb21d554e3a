-- ===== src/Outcome.antt =====
-- How a piece of the C code ends: it returns, it ends the process by `exit`, or it does something
-- that C leaves undefined, such as an access outside an object or through a null pointer.
use smart_ac.Base.{ℕ, ◌≡◌, ◌≢◌, refl, Bool, true, false, if◌then◌else◌, Option, none, some}

pub data Outcome {ℓ} (A : Type ℓ) : Type ℓ where
  ok : A → Outcome A
  -- with the status that the parent sees: `exit (-1)` is 255
  exits : ℕ → Outcome A
  fault : Outcome A

infixl 5 ◌>>=◌
abbrev pub ◌>>=◌ {ℓ κ} : {A : Type ℓ} {B : Type κ} → Outcome A → (A → Outcome B) → Outcome B
ok a >>= f = f a
exits s >>= f = exits s
fault >>= f = fault

-- What a pointer points at; a fault at `NULL` and at a freed object.
abbrev pub deref {ℓ} : {A : Type ℓ} → Option A → Outcome A
deref none = fault
deref (some a) = ok a

-- The access stays inside its object, or it is undefined.
abbrev pub within {ℓ} : {A : Type ℓ} → Bool → A → Outcome A
within true a = ok a
within false a = fault

-- Total correctness: the code returns, and what it returns satisfies `P`.
abbrev pub Returns {ℓ} : {A : Type ℓ} → (A → Type 0) → Outcome A → Type 0
Returns P (ok a) = P a
Returns P (exits s) = ⊥
Returns P fault = ⊥

pub Returns-if {ℓ} :
    {A : Type ℓ} (P : A → Type 0) (b : Bool) (x y : Outcome A)
    → (b ≡ true → Returns P x)
    → (b ≡ false → Returns P y)
    → Returns P (if b then x else y)
Returns-if P true x y p q = p refl
Returns-if P false x y p q = q refl

pub Returns->>= {ℓ κ} :
    {A : Type ℓ} {B : Type κ} (P : A → Type 0) (Q : B → Type 0) (m : Outcome A) (f : A → Outcome B)
    → Returns P m
    → ((a : A) → P a → Returns Q (f a))
    → Returns Q (m >>= f)
Returns->>= P Q (ok a) f p next = next a p
Returns->>= P Q (exits s) f p next = absurd p
Returns->>= P Q fault f p next = absurd p

pub Returns-mono {ℓ} :
    {A : Type ℓ} (P Q : A → Type 0) (m : Outcome A)
    → Returns P m
    → ((a : A) → P a → Q a)
    → Returns Q m
Returns-mono P Q (ok a) p weaken = weaken a p
Returns-mono P Q (exits s) p weaken = p
Returns-mono P Q fault p weaken = p

-- No undefined behaviour: the code returns what satisfies `P`, or ends the process as failed.
pub data Ends {ℓ} {A : Type ℓ} (P : A → Type 0) : Outcome A → Type ℓ where
  returns : {a : A} → P a → Ends P (ok a)
  fails : {s : ℕ} → s ≢ 0 → Ends P (exits s)

module _ {ℓ} {A : Type ℓ} {P : A → Type 0} where
  pub Ends->>= {κ} :
      {B : Type κ} {Q : B → Type 0} {m : Outcome A} {f : A → Outcome B}
      → Ends P m
      → ((a : A) → P a → Ends Q (f a))
      → Ends Q (m >>= f)
  Ends->>= (returns p) next = next _ p
  Ends->>= (fails n) next = fails n

  pub Ends-mono : {Q : A → Type 0} {m : Outcome A} → Ends P m → ((a : A) → P a → Q a) → Ends Q m
  Ends-mono (returns p) weaken = returns (weaken _ p)
  Ends-mono (fails n) weaken = fails n

  pub Ends-of_Returns : (m : Outcome A) → Returns P m → Ends P m
  Ends-of_Returns (ok a) p = returns p
  Ends-of_Returns (exits s) p = absurd p
  Ends-of_Returns fault p = absurd p

  pub Ends-if :
      (b : Bool) (x y : Outcome A)
      → (b ≡ true → Ends P x)
      → (b ≡ false → Ends P y)
      → Ends P (if b then x else y)
  Ends-if true x y p q = p refl
  Ends-if false x y p q = q refl

-- Partial correctness: if the code returns, what it returns satisfies `P`.
abbrev pub Whenever {ℓ} : {A : Type ℓ} → (A → Type 0) → Outcome A → Type 0
Whenever P (ok a) = P a
Whenever P (exits s) = Unit
Whenever P fault = Unit

pub Whenever-if {ℓ} :
    {A : Type ℓ} (P : A → Type 0) (b : Bool) (x y : Outcome A)
    → (b ≡ true → Whenever P x)
    → (b ≡ false → Whenever P y)
    → Whenever P (if b then x else y)
Whenever-if P true x y p q = p refl
Whenever-if P false x y p q = q refl

pub Whenever->>= {ℓ κ} :
    {A : Type ℓ} {B : Type κ} (P : A → Type 0) (Q : B → Type 0) (m : Outcome A) (f : A → Outcome B)
    → Whenever P m
    → ((a : A) → P a → Whenever Q (f a))
    → Whenever Q (m >>= f)
Whenever->>= P Q (ok a) f p next = next a p
Whenever->>= P Q (exits s) f p next = tt
Whenever->>= P Q fault f p next = tt

-- Whatever the code returns, what follows it is right.
pub Whenever-then {ℓ κ} :
    {A : Type ℓ} {B : Type κ} (Q : B → Type 0) (m : Outcome A) (f : A → Outcome B)
    → ((a : A) → Whenever Q (f a))
    → Whenever Q (m >>= f)
Whenever-then Q (ok a) f next = next a
Whenever-then Q (exits s) f next = tt
Whenever-then Q fault f next = tt

pub Whenever-of_Returns {ℓ} :
    {A : Type ℓ} (P : A → Type 0) (m : Outcome A) → Returns P m → Whenever P m
Whenever-of_Returns P (ok a) p = p
Whenever-of_Returns P (exits s) p = tt
Whenever-of_Returns P fault p = tt

pub Whenever-both {ℓ} :
    {A : Type ℓ} (P Q R : A → Type 0) (m : Outcome A)
    → Whenever P m
    → Whenever Q m
    → ((a : A) → P a → Q a → R a)
    → Whenever R m
Whenever-both P Q R (ok a) p q both = both a p q
Whenever-both P Q R (exits s) p q both = tt
Whenever-both P Q R fault p q both = tt

pub Whenever-mono {ℓ} :
    {A : Type ℓ} (P Q : A → Type 0) (m : Outcome A)
    → Whenever P m
    → ((a : A) → P a → Q a)
    → Whenever Q m
Whenever-mono P Q (ok a) p weaken = weaken a p
Whenever-mono P Q (exits s) p weaken = tt
Whenever-mono P Q fault p weaken = tt

-- Total correctness but for one cause: the code returns what satisfies `P`, ends the process as failed,
-- or does something undefined, and then `S` holds.
abbrev pub EndsUnless {ℓ} : {A : Type ℓ} → Type 0 → (A → Type 0) → Outcome A → Type 0
EndsUnless S P (ok a) = P a
EndsUnless S P (exits s) = s ≢ 0
EndsUnless S P fault = S

pub EndsUnless-if {ℓ} :
    {A : Type ℓ} (S : Type 0) (P : A → Type 0) (b : Bool) (x y : Outcome A)
    → (b ≡ true → EndsUnless S P x)
    → (b ≡ false → EndsUnless S P y)
    → EndsUnless S P (if b then x else y)
EndsUnless-if S P true x y p q = p refl
EndsUnless-if S P false x y p q = q refl

pub EndsUnless->>= {ℓ κ} :
    {A : Type ℓ} {B : Type κ} (S : Type 0) (P : A → Type 0) (Q : B → Type 0) (m : Outcome A)
    (f : A → Outcome B)
    → EndsUnless S P m
    → ((a : A) → m ≡ ok a → P a → EndsUnless S Q (f a))
    → EndsUnless S Q (m >>= f)
EndsUnless->>= S P Q (ok a) f p next = next a refl p
EndsUnless->>= S P Q (exits s) f p next = p
EndsUnless->>= S P Q fault f p next = p

pub EndsUnless-mono {ℓ} :
    {A : Type ℓ} (S : Type 0) (P Q : A → Type 0) (m : Outcome A)
    → EndsUnless S P m
    → ((a : A) → P a → Q a)
    → EndsUnless S Q m
EndsUnless-mono S P Q (ok a) p weaken = weaken a p
EndsUnless-mono S P Q (exits s) p weaken = p
EndsUnless-mono S P Q fault p weaken = p

pub EndsUnless-of_Returns {ℓ} :
    {A : Type ℓ} (S : Type 0) (P : A → Type 0) (m : Outcome A) → Returns P m → EndsUnless S P m
EndsUnless-of_Returns S P (ok a) p = p
EndsUnless-of_Returns S P (exits s) p = absurd p
EndsUnless-of_Returns S P fault p = absurd p

pub Whenever-of_EndsUnless {ℓ} :
    {A : Type ℓ} (S : Type 0) (P : A → Type 0) (m : Outcome A) → EndsUnless S P m → Whenever P m
Whenever-of_EndsUnless S P (ok a) p = p
Whenever-of_EndsUnless S P (exits s) p = tt
Whenever-of_EndsUnless S P fault p = tt

-- The same with another cause.
pub EndsUnless-imp {ℓ} :
    {A : Type ℓ} (S T : Type 0) (P Q : A → Type 0) (m : Outcome A)
    → EndsUnless S P m
    → (S → T)
    → ((a : A) → P a → Q a)
    → EndsUnless T Q m
EndsUnless-imp S T P Q (ok a) p cause weaken = weaken a p
EndsUnless-imp S T P Q (exits s) p cause weaken = p
EndsUnless-imp S T P Q fault p cause weaken = cause p

pub EndsUnless-of_Ends {ℓ} :
    {A : Type ℓ} {P : A → Type 0} (S : Type 0) (m : Outcome A) → Ends P m → EndsUnless S P m
EndsUnless-of_Ends S (ok a) (returns p) = p
EndsUnless-of_Ends S (exits s) (fails n) = n
EndsUnless-of_Ends S fault ends = elim ends [ ]

-- Without the cause there is no fault.
pub Ends-of_EndsUnless {ℓ} :
    {A : Type ℓ} {P : A → Type 0} {S : Type 0} (m : Outcome A)
    → (S → ⊥)
    → EndsUnless S P m
    → Ends P m
Ends-of_EndsUnless (ok a) never p = returns p
Ends-of_EndsUnless (exits s) never p = fails p
Ends-of_EndsUnless fault never p = absurd (never p)

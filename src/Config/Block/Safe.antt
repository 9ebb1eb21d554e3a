-- ===== src/Config/Block/Safe.antt =====
-- How `block_loop` and the functions under it end.
use smart_ac.Base.{
  ℕ, zero, suc, ◌-◌, ◌<◌, ◌≤◌, ◌≡◌, refl, Bool, Bool-cases, inl, inr, ◌||◌, true, false, [], ◌∷◌,
  Bytes, length, arith,
}
use smart_ac.Config.Read.Bare.{bare_in, Bare}
use smart_ac.Config.Block.{
  Fields, looks_before, set_field, block_line, parse_text, parse_field, block_loop,
}
use smart_ac.Config.Keywords.{OpCode}
use smart_ac.Config.Line.{max_buf, fgets, has_char}
use smart_ac.Config.Line.Fgets.{length-fgets, has_nul-fgets}
use smart_ac.Cstring.{has_nul}
use smart_ac.Outcome.{
  ok, ◌>>=◌, Ends, returns, fails, EndsUnless, EndsUnless-if, EndsUnless->>=, EndsUnless-of_Ends,
  EndsUnless-imp, fault,
}

set_field-Ends : (o : OpCode) (p2 : Bytes) (f : Fields) → Ends (λ _. Unit {0}) (set_field o p2 f)
unfolding set_field
set_field-Ends OpCode.ac_serv_hostname p2 f = returns tt
set_field-Ends OpCode.ac_serv_ping_path p2 f = returns tt
set_field-Ends OpCode.ac_serv_result_path p2 f = returns tt
set_field-Ends OpCode.ac_serv_http_port p2 f = returns tt
set_field-Ends _ p2 f = fails (omega arith)

parse_text-Ends : (text p1 : Bytes) (f : Fields) → Ends (λ _. Unit {0}) (parse_text text p1 f)
unfolding parse_text parse_field
parse_text-Ends [] p1 f = returns tt
parse_text-Ends (_ ∷ _) p1 f = set_field-Ends _ _ f

or_true : (b : Bool) → (b || true) ≡ true
or_true true = refl
or_true false = refl

none-Bare : Bare false [] → ⊥
unfolding bare_in
none-Bare bare = absurd (ground (arith, bare 1 (omega arith)))

block_line-Ends :
    (line : Bytes) (f : Fields)
    → looks_before line ≡ false
    → Ends (λ _. Unit {0}) (block_line line f)
unfolding block_line
block_line-Ends line f e = rw e (parse_text-Ends _ _ f)

block_line-fault :
    (line : Bytes) (f : Fields) → looks_before line ≡ true → block_line line f ≡ fault
unfolding block_line
block_line-fault line f e = rw e refl

-- What is left of a file behind a part of it that was read.
abbrev pub Rest : Bytes → Bytes → Type 0
Rest file rest = (length rest ≤ length file) × (has_nul rest ≡ false)

-- As much, and lines that end at their front and come later in a block are seen from here, too.
abbrev pub RestOf : Bool → Bytes → Bytes → Type 0
RestOf inside file rest = Rest file rest × (Bare false rest → Bare inside file)

Bare-closed :
    (c : ℕ) (s : Bytes)
    → has_char b'}' (fgets (max_buf - 2) (c ∷ s)).0 ≡ true
    → Bare false (fgets (max_buf - 2) (c ∷ s)).1
    → Bare true (c ∷ s)
unfolding bare_in
Bare-closed c s e later zero h = absurd (omega arith)
Bare-closed c s e later (suc k) h =
    let shorter = length-fgets (max_buf - 3) c s in rw e (later k (omega arith))

Bare-here :
    (c : ℕ) (s : Bytes)
    → has_char b'}' (fgets (max_buf - 2) (c ∷ s)).0 ≡ false
    → looks_before (fgets (max_buf - 2) (c ∷ s)).0 ≡ true
    → Bare true (c ∷ s)
unfolding bare_in
Bare-here c s e here zero h = absurd (omega arith)
Bare-here c s e here (suc k) h = rw (e, here) refl

Bare-later :
    (c : ℕ) (s : Bytes)
    → has_char b'}' (fgets (max_buf - 2) (c ∷ s)).0 ≡ false
    → Bare true (fgets (max_buf - 2) (c ∷ s)).1
    → Bare true (c ∷ s)
unfolding bare_in
Bare-later c s e later zero h = absurd (omega arith)
Bare-later c s e later (suc k) h =
    let shorter = length-fgets (max_buf - 3) c s in
    rw (e, later k (omega arith)) (or_true (looks_before (fgets (max_buf - 2) (c ∷ s)).0))

pub block_loop-Ends :
    (fuel : ℕ) (file : Bytes) (f : Fields)
    → length file < fuel
    → has_nul file ≡ false
    → EndsUnless (Bare true file) (λ (_, rest). RestOf true file rest) (block_loop fuel file f)
unfolding block_loop bare_in
block_loop-Ends zero file f h nul = absurd (omega arith)
block_loop-Ends (suc fuel) [] f h nul = ((omega arith, nul), λ bare. absurd (none-Bare bare))
block_loop-Ends (suc fuel) (c ∷ s) f h nul =
    let line = (fgets (max_buf - 2) (c ∷ s)).0 in
    let rest = (fgets (max_buf - 2) (c ∷ s)).1 in
    let shorter = length-fgets (max_buf - 3) c s in
    let rest_nul = (has_nul-fgets (max_buf - 2) (c ∷ s) nul).1 in
    EndsUnless-if (Bare true (c ∷ s)) (λ (_, r). RestOf true (c ∷ s) r) (has_char b'}' line)
      (ok (f, rest)) (block_line line f >>= λ g. block_loop fuel rest g)
      (λ e. ((omega arith, rest_nul), Bare-closed c s e))
      (λ e. elim (Bool-cases (looks_before line)) [
        | inl here ↦ rw (block_line-fault line f here) (Bare-here c s e here)
        | inr out ↦
            EndsUnless->>= (Bare true (c ∷ s)) (λ _. Unit {0}) (λ (_, r). RestOf true (c ∷ s) r)
              (block_line line f) _
              (EndsUnless-of_Ends (Bare true (c ∷ s)) (block_line line f)
                (block_line-Ends line f out))
              (λ g _ _.
                EndsUnless-imp (Bare true rest) (Bare true (c ∷ s)) (λ (_, r). RestOf true rest r)
                  (λ (_, r). RestOf true (c ∷ s) r) (block_loop fuel rest g)
                  (block_loop-Ends fuel rest g (omega arith) rest_nul) (Bare-later c s e)
                  (λ r p. ((omega (arith, p.0.0), p.0.1), λ bare. Bare-later c s e (p.1 bare))))
      ])

-- ===== src/Clients/Fields/Split.antt =====
-- `strsep` and `fgets` on a line of five fields.
use smart_ac.Base.{
  ℕ, zero, suc, ◌+◌, ◌<◌, ◌≡◌, refl, ap, sym, ◌∙◌, Bool, true, false, ◌&&◌, not, none, some, List,
  [], ◌∷◌, ◌++◌, Bytes, ◌==◌, length, drop, drop-append, arith, append_assoc,
}
use smart_ac.Clients.Fields.{
  Slot, nothing, at, is_delimiter, member, strsep, cut_line, split_loop, split_line, set_slot,
  slot_text,
}
use smart_ac.Cstring.{until_nul, until_nul-append, has_nul}
use smart_ac.Config.Line.{fgets}
use smart_ac.Config.Line.Fgets.{no_newline, fgets-line}
use smart_ac.Outcome.{ok, ◌>>=◌}

drop_nil : (n : ℕ) → drop {A = ℕ} n [] ≡ []
drop_nil zero = refl
drop_nil (suc n) = refl

drop_add : (m n : ℕ) (s : Bytes) → drop (m + n) s ≡ drop n (drop m s)
drop_add zero n s = ap (λ k. drop k s) (omega arith)
drop_add (suc m) n [] = drop_nil (suc m + n) ∙ sym (drop_nil n)
drop_add (suc m) n (c ∷ s) =
    ap (λ k. drop k (c ∷ s)) {y = suc (m + n)} (omega arith) ∙ drop_add m n s

drop-cons : (a s : Bytes) (c : ℕ) → drop (length a + 1) (a ++ c ∷ s) ≡ s
drop-cons a s c = drop_add (length a) 1 (a ++ c ∷ s) ∙ ap (drop 1) (drop-append a (c ∷ s))

-- The offset behind a field leads to what stands behind it.
pub drop-next :
    (o : ℕ) (line a s : Bytes) (c : ℕ) → drop o line ≡ a ++ c ∷ s → drop (o + length a + 1) line ≡ s
drop-next o line a s c e =
    ap (λ k. drop k line) {y = o + (length a + 1)} (omega arith)
    ∙ drop_add o (length a + 1) line
    ∙ ap (drop (length a + 1)) e
    ∙ drop-cons a s c

module _ (behind : Bytes) where
  -- A field holds no delimiter, no newline and no NUL.
  abbrev pub clean : Bytes → Bool
  clean [] = true
  clean (c ∷ a) = not (c == 0) && not (c == b'\n') && not (is_delimiter behind c) && clean a

  pub strsep-token : (a s : Bytes) → clean a ≡ true → strsep behind (a ++ b' ' ∷ s) ≡ (a, some s)
  unfolding strsep is_delimiter member
  strsep-token [] s h = refl
  strsep-token (c ∷ a) s h = ground (arith, strsep-token a s)

  pub strsep-last :
      (a : Bytes)
      → is_delimiter behind b'\n' ≡ false
      → clean a ≡ true
      → strsep behind (a ++ b'\n' ∷ []) ≡ (a ++ b'\n' ∷ [], none)
  unfolding strsep
  strsep-last [] n h = ground arith
  strsep-last (c ∷ a) n h = ground (arith, strsep-last a)

  pub cut_line-token :
      (a s : Bytes) → clean a ≡ true → cut_line behind (a ++ b' ' ∷ s) ≡ a ++ 0 ∷ cut_line behind s
  unfolding cut_line is_delimiter member
  cut_line-token [] s h = refl
  cut_line-token (c ∷ a) s h = ground (arith, cut_line-token a s)

  pub clean-no_newline : (a : Bytes) → clean a ≡ true → no_newline a ≡ true
  unfolding no_newline
  clean-no_newline [] h = refl
  clean-no_newline (c ∷ a) h = ground (arith, clean-no_newline a)

  pub clean-has_nul : (a : Bytes) → clean a ≡ true → has_nul a ≡ false
  unfolding has_nul
  clean-has_nul [] h = refl
  clean-has_nul (c ∷ a) h = ground (arith, clean-has_nul a)

-- The five fields of a line, and what follows the newline.
pub record Fields : Type 0 where
  pub f0 : Bytes
  pub f1 : Bytes
  pub f2 : Bytes
  pub f3 : Bytes
  pub f4 : Bytes

module _ (behind : Bytes) (newline : is_delimiter behind b'\n' ≡ false) where
  abbrev pub r4 : Fields → Bytes
  r4 f = f.f4 ++ b'\n' ∷ []

  abbrev pub r3 : Fields → Bytes
  r3 f = f.f3 ++ b' ' ∷ r4 f

  abbrev pub r2 : Fields → Bytes
  r2 f = f.f2 ++ b' ' ∷ r3 f

  abbrev pub r1 : Fields → Bytes
  r1 f = f.f1 ++ b' ' ∷ r2 f

  -- The line.
  abbrev pub print : Fields → Bytes
  print f = f.f0 ++ b' ' ∷ r1 f

  -- The offsets at which the fields begin.
  abbrev pub o1 : Fields → ℕ
  o1 f = 0 + length f.f0 + 1

  abbrev pub o2 : Fields → ℕ
  o2 f = o1 f + length f.f1 + 1

  abbrev pub o3 : Fields → ℕ
  o3 f = o2 f + length f.f2 + 1

  abbrev pub o4 : Fields → ℕ
  o4 f = o3 f + length f.f3 + 1

  abbrev pub Clean : Fields → Type 0
  Clean f =
      (clean behind f.f0 ≡ true)
      × (clean behind f.f1 ≡ true)
      × (clean behind f.f2 ≡ true)
      × (clean behind f.f3 ≡ true)
      × (clean behind f.f4 ≡ true)

  abbrev pub slots : Fields → List Slot → List Slot
  slots f seg = at 0 ∷ at (o1 f) ∷ at (o2 f) ∷ at (o3 f) ∷ at (o4 f) ∷ nothing ∷ seg

  round :
      (k i o : ℕ) (a s : Bytes) (seg : List Slot)
      → clean behind a ≡ true
      → split_loop behind (suc k) i o (some (a ++ b' ' ∷ s)) seg
        ≡ (set_slot i (at o) seg >>= split_loop behind k (suc i) (o + length a + 1) (some s))
  unfolding split_loop
  round k i o a s seg h = rw (strsep-token behind a s h) refl

  last_round :
      (k i o : ℕ) (a : Bytes) (seg : List Slot)
      → clean behind a ≡ true
      → split_loop behind (suc (suc k)) i o (some (a ++ b'\n' ∷ [])) seg
        ≡ (set_slot i (at o) seg >>= set_slot (suc i) nothing)
  unfolding split_loop
  last_round k i o a seg h = rw (strsep-last behind a newline h) refl

  pub split_line-print :
      (f : Fields)
      → Clean f
      → (x0 x1 x2 x3 x4 x5 : Slot) (seg : List Slot)
      → split_line behind (print f) (x0 ∷ x1 ∷ x2 ∷ x3 ∷ x4 ∷ x5 ∷ seg) ≡ ok (slots f seg)
  unfolding split_line split_loop set_slot
  split_line-print f (h0, h1, h2, h3, h4) x0 x1 x2 x3 x4 x5 seg =
      round 16 0 0 f.f0 (r1 f) (x0 ∷ x1 ∷ x2 ∷ x3 ∷ x4 ∷ x5 ∷ seg) h0
      ∙ round 15 1 (o1 f) f.f1 (r2 f) (at 0 ∷ x1 ∷ x2 ∷ x3 ∷ x4 ∷ x5 ∷ seg) h1
      ∙ round 14 2 (o2 f) f.f2 (r3 f) (at 0 ∷ at (o1 f) ∷ x2 ∷ x3 ∷ x4 ∷ x5 ∷ seg) h2
      ∙ round 13 3 (o3 f) f.f3 (r4 f) (at 0 ∷ at (o1 f) ∷ at (o2 f) ∷ x3 ∷ x4 ∷ x5 ∷ seg) h3
      ∙ last_round 11 4 (o4 f) f.f4 (at 0 ∷ at (o1 f) ∷ at (o2 f) ∷ at (o3 f) ∷ x4 ∷ x5 ∷ seg) h4

  pub text_at :
      (o : ℕ) (line a s : Bytes)
      → clean behind a ≡ true
      → drop o line ≡ a ++ 0 ∷ s
      → slot_text line (at o) ≡ ok (some a)
  unfolding slot_text
  text_at o line a s h e =
      ap (λ t. ok (some (until_nul t))) e
      ∙ ap (λ t. ok (some t)) (until_nul-append a s (clean-has_nul behind a h))

  -- The first four elements lead to the first four fields.
  pub slot_text-print :
      (f : Fields)
      → Clean f
      → let line = cut_line behind (print f) in
        (slot_text line (at 0) ≡ ok (some f.f0))
        × (slot_text line (at (o1 f)) ≡ ok (some f.f1))
        × (slot_text line (at (o2 f)) ≡ ok (some f.f2))
        × (slot_text line (at (o3 f)) ≡ ok (some f.f3))
  slot_text-print f (h0, h1, h2, h3, h4) =
      let line = cut_line behind (print f) in
      let e0 : line ≡ f.f0 ++ 0 ∷ cut_line behind (r1 f) = cut_line-token behind f.f0 (r1 f) h0 in
      let e1 : drop (o1 f) line ≡ f.f1 ++ 0 ∷ cut_line behind (r2 f) =
        drop-next 0 line f.f0 _ 0 e0 ∙ cut_line-token behind f.f1 (r2 f) h1 in
      let e2 : drop (o2 f) line ≡ f.f2 ++ 0 ∷ cut_line behind (r3 f) =
        drop-next (o1 f) line f.f1 _ 0 e1 ∙ cut_line-token behind f.f2 (r3 f) h2 in
      let e3 : drop (o3 f) line ≡ f.f3 ++ 0 ∷ cut_line behind (r4 f) =
        drop-next (o2 f) line f.f2 _ 0 e2 ∙ cut_line-token behind f.f3 (r4 f) h3 in
      (
        text_at 0 line f.f0 _ h0 e0,
        text_at (o1 f) line f.f1 _ h1 e1,
        text_at (o2 f) line f.f2 _ h2 e2,
        text_at (o3 f) line f.f3 _ h3 e3,
      )

  -- `fgets` reads the line and leaves what follows it.
  abbrev pub body : Fields → Bytes
  body f = f.f0 ++ b' ' ∷ (f.f1 ++ b' ' ∷ (f.f2 ++ b' ' ∷ (f.f3 ++ b' ' ∷ f.f4)))

  print-append : (f : Fields) (s : Bytes) → print f ++ s ≡ body f ++ b'\n' ∷ s
  print-append f s = simp append_assoc refl

  print-body : (f : Fields) → print f ≡ body f ++ b'\n' ∷ []
  print-body f = simp append_assoc refl

  no_newline-token :
      (a s : Bytes) → clean behind a ≡ true → no_newline (a ++ b' ' ∷ s) ≡ no_newline s
  unfolding no_newline
  no_newline-token [] s h = refl
  no_newline-token (c ∷ a) s h = ground (arith, no_newline-token a s)

  body-no_newline : (f : Fields) → Clean f → no_newline (body f) ≡ true
  body-no_newline f (h0, h1, h2, h3, h4) =
      no_newline-token f.f0 _ h0
      ∙ no_newline-token f.f1 _ h1
      ∙ no_newline-token f.f2 _ h2
      ∙ no_newline-token f.f3 _ h3
      ∙ clean-no_newline behind f.f4 h4

  pub fgets-print :
      (n : ℕ) (f : Fields) (s : Bytes)
      → Clean f
      → length (body f) < n
      → fgets n (print f ++ s) ≡ (print f, s)
  fgets-print n f s h lt =
      ap (fgets n) (print-append f s)
      ∙ fgets-line n (body f) s (body-no_newline f h) lt
      ∙ ap (λ l. (l, s)) (sym (print-body f))

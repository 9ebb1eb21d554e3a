-- ===== src/Interfaces/Route/Columns.antt =====
-- Columns of text with white space behind them, as `fscanf` reads them.
use smart_ac.Base.{
  ℕ, zero, suc, ◌≤◌, ◌<◌, ◌≡◌, refl, ap, ◌∙◌, true, false, some, List, [], ◌∷◌, ◌++◌, Bytes, length,
  length-append, arith,
}
use smart_ac.Cstring.Number.{is_space, skip_spaces}
use smart_ac.Interfaces.Route.{span_word, scan_word, skip_word, skip_words}

abbrev pub Visible : Bytes → Type 0
Visible [] = Unit
Visible (c ∷ s) = (is_space c ≡ false) × Visible s

abbrev pub Blank : Bytes → Type 0
Blank [] = Unit
Blank (c ∷ s) = (is_space c ≡ true) × Blank s

-- A column and the white space behind it, each of at least one byte.
pub record Column : Type 0 where
  pub head : ℕ
  pub tail : Bytes
  pub gap : ℕ
  pub gaps : Bytes

pub record IsColumn (c : Column) : Type 0 where
  pub visible : Visible (c.head ∷ c.tail)
  pub blank : Blank (c.gap ∷ c.gaps)

abbrev pub word : Column → Bytes
word c = c.head ∷ c.tail

-- The column in front of what follows.
abbrev pub print_column : Column → Bytes → Bytes
print_column c rest = word c ++ (c.gap ∷ (c.gaps ++ rest))

abbrev pub print_columns : List Column → Bytes → Bytes
print_columns [] rest = rest
print_columns (c ∷ cs) rest = print_column c (print_columns cs rest)

abbrev pub AreColumns : List Column → Type 0
AreColumns [] = Unit
AreColumns (c ∷ cs) = IsColumn c × AreColumns cs

pub span_word-Visible :
    (width : ℕ) (w : Bytes) (g : ℕ) (rest : Bytes)
    → length w ≤ width
    → Visible w
    → is_space g ≡ true
    → span_word width (w ++ g ∷ rest) ≡ (w, g ∷ rest)
unfolding span_word
span_word-Visible zero [] g rest le v b = refl
span_word-Visible zero (c ∷ w) g rest le v b = absurd (omega arith)
span_word-Visible (suc width) [] g rest le v b = rw b refl
span_word-Visible (suc width) (c ∷ w) g rest le (v, vs) b =
    rw (v, span_word-Visible width w g rest (omega arith) vs b) refl

pub skip_word-Visible :
    (w : Bytes) (g : ℕ) (rest : Bytes)
    → Visible w
    → is_space g ≡ true
    → skip_word (w ++ g ∷ rest) ≡ g ∷ rest
unfolding skip_word
skip_word-Visible [] g rest v b = rw b refl
skip_word-Visible (c ∷ w) g rest (v, vs) b = rw (v, skip_word-Visible w g rest vs b) refl

pub skip_spaces-blank : (b rest : Bytes) → Blank b → skip_spaces (b ++ rest) ≡ skip_spaces rest
unfolding skip_spaces
skip_spaces-blank [] rest h = refl
skip_spaces-blank (c ∷ b) rest (h, hs) = rw (h, skip_spaces-blank b rest hs) refl

module _ (c : Column) (is : IsColumn c) (rest : Bytes) where
  pub skip_spaces-column : skip_spaces (print_column c rest) ≡ print_column c rest
  unfolding skip_spaces
  skip_spaces-column = rw is.visible.0 refl

  pub behind_column : skip_spaces (c.gap ∷ (c.gaps ++ rest)) ≡ skip_spaces rest
  behind_column = skip_spaces-blank (c.gap ∷ c.gaps) rest is.blank

  pub scan_word-column :
      (s : Bytes)
      → skip_spaces s ≡ print_column c rest
      → length (word c) ≤ 15
      → scan_word 15 s ≡ some (word c, c.gap ∷ (c.gaps ++ rest))
  unfolding scan_word
  scan_word-column s e le =
      rw e (ap some (span_word-Visible 15 (word c) c.gap (c.gaps ++ rest) le is.visible is.blank.0))

pub skip_words-columns :
    (cs : List Column) (s rest : Bytes)
    → AreColumns cs
    → skip_spaces s ≡ skip_spaces (print_columns cs rest)
    → skip_spaces (skip_words (length cs) s) ≡ skip_spaces rest
unfolding skip_words
skip_words-columns [] s rest are e = e
skip_words-columns (c ∷ cs) s rest (is, are) e =
    let more = print_columns cs rest in
    let next = λ (t : Bytes). skip_spaces (skip_words (length cs) t) in
    ap (λ t. next (skip_word t)) (e ∙ skip_spaces-column c is more)
    ∙ ap next (skip_word-Visible (word c) c.gap (c.gaps ++ more) is.visible is.blank.0)
    ∙ skip_words-columns cs (c.gap ∷ (c.gaps ++ more)) rest are (behind_column c is more)

pub length-print_column : (c : Column) (rest : Bytes) → length rest < length (print_column c rest)
length-print_column c rest =
    omega (arith, length-append (word c) (c.gap ∷ (c.gaps ++ rest)), length-append c.gaps rest)

pub length-print_columns :
    (cs : List Column) (rest : Bytes) → length rest ≤ length (print_columns cs rest)
length-print_columns [] rest = omega arith
length-print_columns (c ∷ cs) rest =
    omega (arith, length-print_columns cs rest, length-print_column c (print_columns cs rest))

-- ===== src/Config/Block/Setting.antt =====
-- `block_line` on a line that sets an option.
use smart_ac.Base.{
  ℕ, ◌<◌, ◌≡◌, refl, ap, ◌∙◌, sym, Bool, true, false, ◌&&◌, not, Option, none, some, [], ◌∷◌, ◌++◌,
  append_assoc, append-nil, Bytes, ◌==◌, length, length-append, arith,
}
use smart_ac.Config.Block.{
  Fields, end_line, at_front, looks_before, set_field, parse_field, parse_text, block_line,
}
use smart_ac.Config.Keywords.{config_parse_token}
use smart_ac.Config.Line.{has_char, cut, skip_blanks, split_word, erase_trailing_blanks, all_blank}
use smart_ac.Cstring.{is_blank, until_nul, until_nul-append, has_nul, has_nul-append}

-- A byte that means nothing to the reader of lines.
abbrev pub is_plain : ℕ → Bool
is_plain c =
    not (c == 0)
    && not (c == b'#')
    && not (c == b'\r')
    && not (c == b'\n')
    && not (c == b'}')
    && not (is_blank c)

abbrev pub plain : Bytes → Bool
plain [] = true
plain (c ∷ a) = is_plain c && plain a

abbrev absent : ℕ → Bytes → Bool
absent c [] = true
absent c (x ∷ a) = not (x == c) && not (x == 0) && absent c a

abbrev before : Bytes → Option (Bytes × Bytes) → Option (Bytes × Bytes)
before a none = none
before a (some (u, v)) = some (a ++ u, v)

before-cons :
    (x : ℕ) (a : Bytes) (o : Option (Bytes × Bytes))
    → elim (before a o) [ none ↦ none | some (u, v) ↦ some (x ∷ u, v) ] ≡ before (x ∷ a) o
before-cons x a none = refl
before-cons x a (some (u, v)) = refl

before_nil : (o : Option (Bytes × Bytes)) → before [] o ≡ o
before_nil none = refl
before_nil (some (u, v)) = refl

cut-absent : (c : ℕ) (a t : Bytes) → absent c a ≡ true → cut c (a ++ t) ≡ before a (cut c t)
unfolding cut
cut-absent c [] t h = sym (before_nil (cut c t))
cut-absent c (x ∷ a) t h =
    let other : (x == c) ≡ false = ground arith in
    let nonzero : (x == 0) ≡ false = ground arith in
    rw (other, nonzero, cut-absent c a t (ground arith)) (before-cons x a (cut c t))

split_word-plain : (a t : Bytes) → plain a ≡ true → split_word (a ++ b' ' ∷ t) ≡ (a, b' ' ∷ t)
unfolding split_word
split_word-plain [] t h = refl
split_word-plain (c ∷ a) t h = ground (arith, split_word-plain a t)

has_nul-plain : (a : Bytes) → plain a ≡ true → has_nul a ≡ false
unfolding has_nul
has_nul-plain [] h = refl
has_nul-plain (c ∷ a) h = ground (arith, has_nul-plain a)

all_blank-plain : (a b : Bytes) (c : ℕ) → is_plain c ≡ true → all_blank (a ++ c ∷ b) ≡ false
all_blank-plain [] b c h = ground arith
all_blank-plain (x ∷ a) b c h = ground (arith, all_blank-plain a b c)

-- Blanks are only erased at the end.
erase-plain : (a : Bytes) → plain a ≡ true → erase_trailing_blanks a ≡ a
unfolding erase_trailing_blanks
erase-plain [] h = refl
erase-plain (c ∷ a) h = ground (arith, erase-plain a)

erase-append :
    (a b : Bytes) (c : ℕ)
    → is_plain c ≡ true
    → erase_trailing_blanks (a ++ c ∷ b) ≡ a ++ erase_trailing_blanks (c ∷ b)
unfolding erase_trailing_blanks
erase-append [] b c h = refl
erase-append (x ∷ a) b c h = ground (arith, erase-append a b c h, all_blank-plain (x ∷ a) b c h)

pub has_char-plain : (a t : Bytes) → plain a ≡ true → has_char b'}' (a ++ t) ≡ has_char b'}' t
unfolding has_char
has_char-plain [] t h = refl
has_char-plain (c ∷ a) t h = ground (arith, has_char-plain a t)

module _ (c : ℕ) (differs : (x : ℕ) → is_plain x ≡ true → (x == c) ≡ false)
    (no_blank : (b' ' == c) ≡ false) where
  absent-plain : (a : Bytes) → plain a ≡ true → absent c a ≡ true
  absent-plain [] h = refl
  absent-plain (x ∷ a) h = ground (arith, differs x, absent-plain a)

  absent-line : (w v : Bytes) → plain w ≡ true → plain v ≡ true → absent c (w ++ b' ' ∷ v) ≡ true
  absent-line [] v h h' = ground (arith, absent-plain v h')
  absent-line (x ∷ w) v h h' = ground (arith, differs x, absent-line w v)

skip_blanks-plain : (x : ℕ) (a : Bytes) → is_plain x ≡ true → skip_blanks (x ∷ a) ≡ x ∷ a
unfolding skip_blanks
skip_blanks-plain x a h = ground arith

skip_blanks-line :
    (w t n : Bytes) → plain w ≡ true → 0 < length w → skip_blanks ((w ++ t) ++ n) ≡ (w ++ t) ++ n
skip_blanks-line [] t n h named = absurd (omega arith)
skip_blanks-line (y ∷ w) t n h named = skip_blanks-plain y ((w ++ t) ++ n) (ground arith)

has_nul-blank : (a : Bytes) → has_nul a ≡ false → has_nul (b' ' ∷ a) ≡ false
unfolding has_nul
has_nul-blank a h = h

erase-line :
    (w : Bytes) (x : ℕ) (v : Bytes)
    → plain w ≡ true
    → plain (x ∷ v) ≡ true
    → erase_trailing_blanks (w ++ b' ' ∷ x ∷ v) ≡ w ++ b' ' ∷ x ∷ v
unfolding erase_trailing_blanks
erase-line [] x v h h' = ground (arith, erase-plain (x ∷ v) h')
erase-line (y ∷ w) x v h h' = ground (arith, erase-line w x v)

end_line-newline :
    (p1 u : Bytes)
    → cut b'#' p1 ≡ none
    → cut b'\r' p1 ≡ none
    → cut b'\n' p1 ≡ some (u, [])
    → end_line p1 ≡ erase_trailing_blanks u ++ 0 ∷ []
unfolding end_line
end_line-newline p1 u hash return newline = rw (hash, return, newline) refl

at_front-long :
    (u v : Bytes) (otherwise : Bool) → 0 < length u → at_front (some (u, v)) otherwise ≡ false
at_front-long [] v otherwise h = absurd (omega arith)
at_front-long (c ∷ u) v otherwise h = refl

module _ (w : Bytes) (hw : plain w ≡ true) (named : 0 < length w) (x : ℕ) (v : Bytes)
    (hv : plain (x ∷ v) ≡ true) where
  -- The option's name, a blank and its value.
  abbrev text : Bytes
  text = w ++ b' ' ∷ x ∷ v

  first_plain : is_plain x ≡ true
  first_plain = ground arith

  cut_hash : cut b'#' (text ++ b'\n' ∷ []) ≡ none
  cut_hash =
      cut-absent b'#' text (b'\n' ∷ [])
        (absent-line b'#' (λ x h. ground arith) refl w (x ∷ v) hw hv)
      ∙ unfold cut in refl

  cut_return : cut b'\r' (text ++ b'\n' ∷ []) ≡ none
  cut_return =
      cut-absent b'\r' text (b'\n' ∷ [])
        (absent-line b'\r' (λ x h. ground arith) refl w (x ∷ v) hw hv)
      ∙ unfold cut in refl

  cut_newline : cut b'\n' (text ++ b'\n' ∷ []) ≡ some (text, [])
  cut_newline =
      cut-absent b'\n' text (b'\n' ∷ [])
        (absent-line b'\n' (λ x h. ground arith) refl w (x ∷ v) hw hv)
      ∙ ap (before text) {y = some ([], [])} (unfold cut in refl)
      ∙ ap (λ u. some (u, [])) (append-nil text)

  erase-text : erase_trailing_blanks text ≡ text
  erase-text = erase-line w x v hw hv

  end_line-text : end_line (text ++ b'\n' ∷ []) ≡ text ++ 0 ∷ []
  end_line-text =
      end_line-newline (text ++ b'\n' ∷ []) text cut_hash cut_return cut_newline
      ∙ ap (λ t. t ++ 0 ∷ []) erase-text

  text-has_nul : has_nul text ≡ false
  text-has_nul =
      has_nul-append w (b' ' ∷ x ∷ v)
      ∙ ground (arith, has_nul-plain w hw, has_nul-blank (x ∷ v) (has_nul-plain (x ∷ v) hv))

  until_nul-text : until_nul (text ++ 0 ∷ []) ≡ text
  until_nul-text = until_nul-append text [] text-has_nul

  parse_field-text :
      (f : Fields) → parse_field (text ++ 0 ∷ []) f ≡ set_field (config_parse_token w) (x ∷ v) f
  unfolding parse_field
  parse_field-text f =
      rw
        (
          append_assoc w (b' ' ∷ x ∷ v) (0 ∷ []),
          split_word-plain w ((x ∷ v) ++ 0 ∷ []) hw,
          skip_blanks-plain x (v ++ 0 ∷ []) first_plain,
          until_nul-append (x ∷ v) [] (has_nul-plain (x ∷ v) hv),
        )
        refl

  parse_text-text :
      (f : Fields) (u : Bytes)
      → 0 < length u
      → parse_text u (text ++ 0 ∷ []) f ≡ set_field (config_parse_token w) (x ∷ v) f
  unfolding parse_text
  parse_text-text f [] h = absurd (omega arith)
  parse_text-text f (_ ∷ _) h = parse_field-text f

  skip-text : skip_blanks (text ++ b'\n' ∷ []) ≡ text ++ b'\n' ∷ []
  skip-text = skip_blanks-line w (b' ' ∷ x ∷ v) (b'\n' ∷ []) hw named

  looks_before-text : looks_before (text ++ b'\n' ∷ []) ≡ false
  unfolding looks_before
  looks_before-text =
      rw (cut_hash, cut_return, cut_newline)
        (at_front-long text [] false (omega (arith, length-append w (b' ' ∷ x ∷ v))))

  block_line-text :
      (f : Fields) → block_line (text ++ b'\n' ∷ []) f ≡ set_field (config_parse_token w) (x ∷ v) f
  unfolding block_line
  block_line-text f =
      rw (looks_before-text, skip-text, end_line-text, until_nul-text)
        (parse_text-text f text (omega (arith, length-append w (b' ' ∷ x ∷ v))))

-- A line that sets an option, without its newline.
abbrev pub option_line : Bytes → Bytes → Bytes
option_line w v = w ++ b' ' ∷ v

pub block_line-option :
    (w v : Bytes) (f : Fields)
    → plain w ≡ true
    → 0 < length w
    → plain v ≡ true
    → 0 < length v
    → block_line (option_line w v ++ b'\n' ∷ []) f ≡ set_field (config_parse_token w) v f
block_line-option w [] f h named h' valued = absurd (omega arith)
block_line-option w (x ∷ v) f h named h' valued = block_line-text w h named x v h' f

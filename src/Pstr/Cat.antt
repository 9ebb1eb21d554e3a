-- ===== src/Pstr/Cat.antt =====
-- `pstr_cat` against the text in the buffer.
use smart_ac.Base.{
  ℕ, zero, suc, ◌+◌, ◌-◌, ◌<◌, ◌≤◌, ◌≡◌, refl, sym, ap, ◌∙◌, false, some, [], ◌∷◌, ◌++◌,
  append_assoc, Bytes, ltb, length, take, drop, replicate, length-append, length-drop, take-append,
  drop-append, take_all, length-replicate, arith, ltb→lt,
}
use mathlib.Core.Path.{ap₂}
use smart_ac.Config.Line.{max_buf}
use smart_ac.Cstring.{has_nul, has_nul-append, until_nul-append}
use smart_ac.Safe.{safe_vasprintf}
use smart_ac.Outcome.{ok, Returns, Returns-if, Returns->>=}
use smart_ac.Pstr.{
  Pstr, pstr_new, fresh_bytes, pstr_grow, grow_loop, overwrite, strncat, pstr_cat,
  pstr_append_sprintf, pstr_to_string,
}

-- The string `content` stands in the buffer, with a NUL behind it and `tail` behind that.
pub record IsPstr (p : Pstr) (content : Bytes) : Type 0 where
  pub tail : Bytes
  pub buf_is : p.buf ≡ content ++ 0 ∷ tail
  pub len_is : p.len ≡ length content
  pub size_is : p.size ≡ length p.buf

pub pstr_new-IsPstr : IsPstr pstr_new []
unfolding pstr_new
pstr_new-IsPstr = record {
  tail = replicate 40959 0;
  buf_is = refl;
  len_is = refl;
  size_is = sym (length-replicate {A = ℕ} max_buf 0);
}

length-fresh_bytes : (g : ℕ → ℕ) (i n : ℕ) → length (fresh_bytes g i n) ≡ n
length-fresh_bytes g i zero = refl
length-fresh_bytes g i (suc n) = ap suc (length-fresh_bytes g (suc i) n)

pstr_grow-IsPstr :
    (g : ℕ → ℕ) (p : Pstr) (content : Bytes) → IsPstr p content → IsPstr (pstr_grow g p) content
unfolding pstr_grow
pstr_grow-IsPstr g p content is = record {
  tail = is.tail ++ fresh_bytes g p.size max_buf;
  buf_is =
      ap (λ b. b ++ fresh_bytes g p.size max_buf) is.buf_is ∙ append_assoc content (0 ∷ is.tail) _;
  len_is = is.len_is;
  size_is = omega (
    arith,
    length-append p.buf (fresh_bytes g p.size max_buf),
    length-fresh_bytes g p.size max_buf,
    is.size_is,
  );
}

abbrev Fits : ℕ → Bytes → Pstr → Type 0
Fits inlen content p = IsPstr p content × (p.len + inlen + 1 ≤ p.size)

grow_loop-Fits :
    (fuel : ℕ) (g : ℕ → ℕ) (inlen : ℕ) (p : Pstr) (content : Bytes)
    → IsPstr p content
    → p.len + inlen + 1 - p.size < fuel
    → Returns (Fits inlen content) (grow_loop fuel g inlen p)
unfolding grow_loop pstr_grow
grow_loop-Fits zero g inlen p content is h = absurd (omega arith)
grow_loop-Fits (suc fuel) g inlen p content is h =
    Returns-if (Fits inlen content) (ltb p.size (p.len + inlen + 1))
      (grow_loop fuel g inlen (pstr_grow g p)) (ok p)
      (λ e.
        grow_loop-Fits fuel g inlen (pstr_grow g p) content (pstr_grow-IsPstr g p content is)
          (omega (arith, ltb→lt p.size (p.len + inlen + 1) e)))
      (λ e. (is, ground arith))

overwrite-append : (s d : Bytes) → length s ≤ length d → overwrite s d ≡ ok (s ++ drop (length s) d)
unfolding overwrite
overwrite-append [] d h = refl
overwrite-append (x ∷ s) [] h = absurd (omega arith)
overwrite-append (x ∷ s) (c ∷ d) h = rw (overwrite-append s d (omega arith))

strncat-nul :
    (d s : Bytes) (n : ℕ)
    → length s ≤ n
    → length s ≤ length d
    → strncat (0 ∷ d) s n ≡ ok (s ++ 0 ∷ drop (length s) d)
unfolding strncat
strncat-nul d s n fits room =
    let whole : length (s ++ 0 ∷ []) ≡ suc (length s) = omega (arith, length-append s (0 ∷ [])) in
    rw (take_all n s fits) (
      overwrite-append (s ++ 0 ∷ []) (0 ∷ d) (omega arith)
      ∙ ap ok (rw whole (append_assoc s (0 ∷ []) (drop (length s) d))))

module _ (g : ℕ → ℕ) (string : Bytes) where
  -- On a well-formed buffer, `pstr_cat` always returns without a write outside of it: the string in the
  -- buffer grows by `string`, and the buffer stays terminated within its size.
  pub pstr_cat-IsPstr :
      (p : Pstr) (content : Bytes)
      → IsPstr p content
      → Returns (λ p'. IsPstr p' (content ++ string)) (pstr_cat g p string)
  unfolding pstr_cat
  pstr_cat-IsPstr p content is =
      Returns->>= (Fits (length string) content) _
        (grow_loop (p.len + length string + 2) g (length string) p) _
        (grow_loop-Fits (p.len + length string + 2) g (length string) p content is (omega arith))
        λ q (is', room).
          let taken : take q.len q.buf ≡ content =
            ap₂ take is'.len_is is'.buf_is ∙ take-append content (0 ∷ is'.tail) in
          let dropped : drop q.len q.buf ≡ 0 ∷ is'.tail =
            ap₂ drop is'.len_is is'.buf_is ∙ drop-append content (0 ∷ is'.tail) in
          let sizes : q.size ≡ length content + suc (length is'.tail) =
            is'.size_is ∙ ap length is'.buf_is ∙ length-append content (0 ∷ is'.tail) in
          let lens = is'.len_is in
          rw
            (
              taken,
              dropped,
              strncat-nul is'.tail string (q.size - q.len - 1) (omega arith) (omega arith),
            )
            (record {
              tail = drop (length string) is'.tail;
              buf_is = sym (append_assoc content string _);
              len_is = omega (arith, length-append content string);
              size_is = omega (
                arith,
                length-append content (string ++ 0 ∷ drop (length string) is'.tail),
                length-append string (0 ∷ drop (length string) is'.tail),
                length-drop (length string) is'.tail,
              );
            })

-- Appending a printed text always returns the length of it and appends it, where `vasprintf` finds the
-- memory; else the program ends.
pub pstr_append_sprintf-IsPstr :
    (g : ℕ → ℕ) (p : Pstr) (content text : Bytes)
    → IsPstr p content
    → Returns
        (λ (result : ℕ × Pstr). (result.0 ≡ length text) × IsPstr result.1 (content ++ text))
        (pstr_append_sprintf g p (some text))
unfolding pstr_append_sprintf safe_vasprintf
pstr_append_sprintf-IsPstr g p content text is =
    Returns->>= (λ q. IsPstr q (content ++ text)) _ (pstr_cat g p text) _
      (pstr_cat-IsPstr g text p content is) (λ q is'. (refl, is'))

-- The string is read back from the buffer.
pub pstr_to_string-content :
    (p : Pstr) (content : Bytes)
    → IsPstr p content
    → has_nul content ≡ false
    → pstr_to_string p ≡ ok content
unfolding pstr_to_string has_nul
pstr_to_string-content p content is clean =
    rw (
      is.buf_is,
      has_nul-append content (0 ∷ is.tail),
      clean,
      until_nul-append content is.tail clean,
    )

-- ===== src/Pstr.antt =====
-- The growing string of smartac_util.c.
-- The buffer is kept with all its bytes, also those behind the string, which `realloc` leaves as
-- they come.
pub mod Cat
use smart_ac.Base.{
  ℕ, zero, suc, ◌+◌, ◌-◌, Option, List, [], ◌∷◌, ◌++◌, Bytes, ◌==◌, ltb, if◌then◌else◌, length,
  take, drop, replicate,
}
use smart_ac.Config.Line.{max_buf}
use smart_ac.Cstring.{c_string}
use smart_ac.Safe.{safe_vasprintf}
use smart_ac.Outcome.{Outcome, ok, fault, ◌>>=◌}

-- `pstr_t`
pub record Pstr : Type 0 where
  pub buf : Bytes
  pub len : ℕ
  pub size : ℕ

unfoldable pub pstr_new : Pstr
pstr_new = record { buf = replicate max_buf 0; len = 0; size = max_buf }

-- `n` bytes of fresh memory from the offset `i` on.
abbrev pub fresh_bytes : (ℕ → ℕ) → ℕ → ℕ → Bytes
fresh_bytes garbage i zero = []
fresh_bytes garbage i (suc n) = garbage i ∷ fresh_bytes garbage (suc i) n

unfoldable pub pstr_grow : (ℕ → ℕ) → Pstr → Pstr
pstr_grow garbage p = record p {
  buf = p.buf ++ fresh_bytes garbage p.size max_buf;
  size = p.size + max_buf;
}

-- `while ((pstr->len + inlen + 1) > pstr->size) _pstr_grow (pstr);`
unfoldable pub grow_loop : ℕ → (ℕ → ℕ) → ℕ → Pstr → Outcome Pstr
grow_loop zero garbage inlen p = fault
grow_loop (suc fuel) garbage inlen p =
    let more = grow_loop fuel garbage inlen (pstr_grow garbage p) in
    if ltb p.size (p.len + inlen + 1) then more else ok p

-- The bytes `s` go over the first ones of `d`, which must have the room.
unfoldable pub overwrite : Bytes → Bytes → Outcome Bytes
overwrite [] d = ok d
overwrite (x ∷ s) [] = fault
overwrite (x ∷ s) (c ∷ d) = do d' ← overwrite s d; ok (x ∷ d')

-- `strncat (d, s, n)`: behind the first NUL of `d`, at most `n` bytes of `s` and a NUL.
unfoldable pub strncat : Bytes → Bytes → ℕ → Outcome Bytes
strncat [] s n = fault
strncat (c ∷ d) s n =
    let further = (do d' ← strncat d s n; ok (c ∷ d')) in
    if c == 0 then overwrite (take n s ++ 0 ∷ []) (c ∷ d) else further

unfoldable pub pstr_cat : (ℕ → ℕ) → Pstr → Bytes → Outcome Pstr
pstr_cat garbage p string = do
  let inlen = length string
  p ← grow_loop (p.len + inlen + 2) garbage inlen p
  end ← strncat (drop p.len p.buf) string (p.size - p.len - 1)
  ok (record p { buf = take p.len p.buf ++ end; len = p.len + inlen })

-- `printed` is the string that `vasprintf` allocates, or none where it returns -1.
unfoldable pub pstr_append_sprintf : (ℕ → ℕ) → Pstr → Option Bytes → Outcome (ℕ × Pstr)
pstr_append_sprintf garbage p printed = do
  (retval, str) ← safe_vasprintf printed
  p ← pstr_cat garbage p str
  ok (retval, p)

-- The caller reads the buffer as a string.
unfoldable pub pstr_to_string : Pstr → Outcome Bytes
pstr_to_string p = c_string p.buf

-- ===== src/Clients/Fields.antt =====
-- The splitting of a line at its blanks in smartac_json_util.c, by `strsep` into an array `seg` of
-- 16 pointers. A pointer into the line is its offset; an element keeps what an earlier line left.
pub mod Split
pub mod Last
use smart_ac.Base.{
  ℕ, zero, suc, ◌+◌, Bool, true, false, ◌||◌, Option, none, some, List, [], ◌∷◌, Bytes, ◌==◌, ltb,
  if◌then◌else◌, length, drop,
}
use smart_ac.Cstring.{until_nul}
use smart_ac.Outcome.{Outcome, ok, fault, ◌>>=◌, within}

-- An element of `seg`.
pub data Slot : Type 0 where
  unset nothing : Slot
  at : ℕ → Slot

unfoldable pub set_slot : ℕ → Slot → List Slot → Outcome (List Slot)
set_slot i v [] = fault
set_slot zero v (x ∷ seg) = ok (v ∷ seg)
set_slot (suc i) v (x ∷ seg) = do seg ← set_slot i v seg; ok (x ∷ seg)

unfoldable pub get_slot : ℕ → List Slot → Outcome Slot
get_slot i [] = fault
get_slot zero (x ∷ seg) = ok x
get_slot (suc i) (x ∷ seg) = get_slot i seg

unfoldable pub member : ℕ → Bytes → Bool
member c [] = false
member c (d ∷ ds) = c == d || member c ds

-- `char delimiter = ' '` is no string: `strsep` takes as delimiters, too, the bytes that stand behind
-- it in memory up to the first NUL. `behind` is those bytes.
module _ (behind : Bytes) where
  unfoldable pub is_delimiter : ℕ → Bool
  unfolding member
  is_delimiter c = member c (b' ' ∷ behind)

  -- The token that a string begins with, and the string behind its delimiter, if it has one.
  unfoldable pub strsep : Bytes → Bytes × Option Bytes
  strsep [] = ([], none)
  strsep (c ∷ s) =
      let (token, rest) = strsep s in
      if c == 0 then ([], none) else if is_delimiter c then ([], some s) else (c ∷ token, rest)

  -- What the calls of `strsep` make of the line: each delimiter is now a NUL.
  unfoldable pub cut_line : Bytes → Bytes
  cut_line [] = []
  cut_line (c ∷ s) =
      let rest = cut_line s in
      if c == 0 then c ∷ s else if is_delimiter c then 0 ∷ rest else c ∷ rest

  -- `while ((seg[i] = strsep (&ptr, &delimiter)) != NULL) i++;` with `ptr` at `offset` in the line. 17
  -- rounds are enough: the last of them writes behind the end of `seg`.
  unfoldable pub split_loop : ℕ → ℕ → ℕ → Option Bytes → List Slot → Outcome (List Slot)
  split_loop zero i offset ptr seg = fault
  split_loop (suc fuel) i offset none seg = set_slot i nothing seg
  split_loop (suc fuel) i offset (some s) seg = do
    seg ← set_slot i (at offset) seg
    let (token, rest) = strsep s
    split_loop fuel (suc i) (offset + length token + 1) rest seg

  unfoldable pub split_line : Bytes → List Slot → Outcome (List Slot)
  split_line line seg = split_loop 17 0 0 (some line) seg

-- The string that an element points at; the rest of the line's buffer is zero.
unfoldable pub slot_text : Bytes → Slot → Outcome (Option Bytes)
slot_text line unset = fault
slot_text line nothing = ok none
slot_text line (at offset) = ok (some (until_nul (drop offset line)))

unfoldable pub seg_text : Bytes → List Slot → ℕ → Outcome (Option Bytes)
seg_text line seg i = do slot ← get_slot i seg; slot_text line slot

-- `if (seg[i]) sprintf (field, "%s", seg[i]); else memset (field, 0, size);`
unfoldable pub store_field : ℕ → Option Bytes → Outcome Bytes
store_field size none = ok []
store_field size (some s) = within (ltb (length s) size) s

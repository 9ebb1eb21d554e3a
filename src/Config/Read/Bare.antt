-- ===== src/Config/Read/Bare.antt =====
-- The files in which a server block has a line that ends at its front.
use smart_ac.Base.{
  ℕ, zero, suc, ◌-◌, ◌<◌, ◌≡◌, Bool, true, false, ◌||◌, Option, none, some, [], ◌∷◌, Bytes,
  if◌then◌else◌, length,
}
use smart_ac.Config.Block.{looks_before}
use smart_ac.Config.Keywords.{OpCode, config_parse_token}
use smart_ac.Config.Line.{max_buf, fgets, has_char, skip_spaces}
use smart_ac.Config.Read.{split_option, first_argument, chomp}
use smart_ac.Cstring.{codes, starts_with, until_nul}
use smart_ac.Outcome.{Outcome, ok, exits, fault}

-- Whether an option begins a server block.
abbrev pub opens_block : OpCode → Bool
opens_block OpCode.ac_server = true
opens_block _ = false

-- Whether an option with an argument does, and whether a line does.
abbrev pub opens_option : Bytes → Bytes → Bool
opens_option option [] = false
opens_option option (c ∷ p1) =
    if starts_with (codes "#") option then false else opens_block (config_parse_token option)

abbrev pub opens_text : Option (Bytes × Bytes) → Bool
opens_text none = false
opens_text (some (option, p1)) = opens_option option (first_argument (skip_spaces p1))

abbrev pub opens_line : Outcome Bytes → Bool
opens_line (ok text) = opens_text (split_option text)
opens_line (exits s) = false
opens_line fault = false

-- Whether, in a block or not, a line of a block that comes next ends at its front, on fuel.
unfoldable pub bare_in : ℕ → Bool → Bytes → Bool
bare_in zero inside s = false
bare_in (suc fuel) inside [] = false
bare_in (suc fuel) true (c ∷ s) =
    let (line, rest) = fgets (max_buf - 2) (c ∷ s) in
    let here = looks_before line || bare_in fuel true rest in
    let closed = bare_in fuel false rest in if has_char b'}' line then closed else here
bare_in (suc fuel) false (c ∷ s) =
    let (line, rest) = fgets (max_buf - 1) (c ∷ s) in
    bare_in fuel (opens_line (chomp (until_nul line))) rest

-- It is so with all fuel that is enough.
abbrev pub Bare : Bool → Bytes → Type 0
Bare inside s = (fuel : ℕ) → length s < fuel → bare_in fuel inside s ≡ true

-- ===== src/Interfaces/Route.antt =====
-- `get_ext_iface` of smartac_util.c: the search for the default route in /proc/net/route.
pub mod Scanned
pub mod Columns
pub mod Table
pub mod Detected
use smart_ac.Base.{
  ℕ, zero, suc, ◌+◌, Bool, true, false, ◌&&◌, not, Option, none, some, List, [], ◌∷◌, Bytes, ◌==◌,
  ltb, if◌then◌else◌, length,
}
use smart_ac.Cstring.{codes, equal}
use smart_ac.Cstring.Number.{is_space, skip_spaces}
use smart_ac.Outcome.{Outcome, ok, exits, fault}

-- The bytes up to a white space, at most `width`, and what follows them.
unfoldable pub span_word : ℕ → Bytes → Bytes × Bytes
unfolding is_space
span_word zero s = ([], s)
span_word (suc width) [] = ([], [])
span_word (suc width) (c ∷ s) =
    let (word, rest) = span_word width s in if is_space c then ([], c ∷ s) else (c ∷ word, rest)

-- `%15s` with its number; none at the end of the input.
abbrev pub word_or_end : ℕ → Bytes → Option (Bytes × Bytes)
word_or_end width [] = none
word_or_end width (c ∷ s) = some (span_word width (c ∷ s))

unfoldable pub scan_word : ℕ → Bytes → Option (Bytes × Bytes)
unfolding span_word
scan_word width s = word_or_end width (skip_spaces s)

-- `%*s`, for as many as are left
unfoldable pub skip_word : Bytes → Bytes
unfolding is_space
skip_word [] = []
skip_word (c ∷ s) = if is_space c then c ∷ s else skip_word s

unfoldable pub skip_words : ℕ → Bytes → Bytes
unfolding skip_word
skip_words zero s = s
skip_words (suc n) s = skip_words n (skip_word (skip_spaces s))

-- `fscanf` of one line: the two words, where both are read, and the rest of the input. `feof` holds
-- behind it just where nothing is left.
abbrev pub second_word : Bytes → Option (Bytes × Bytes) → Option (Bytes × Bytes) × Bytes
second_word device none = (none, [])
second_word device (some (gw, s)) = (some (device, gw), skip_spaces (skip_words 9 s))

abbrev pub first_word : Option (Bytes × Bytes) → Option (Bytes × Bytes) × Bytes
first_word none = (none, [])
first_word (some (device, s)) = second_word device (scan_word 15 s)

unfoldable pub scan_line : Bytes → Option (Bytes × Bytes) × Bytes
scan_line s = first_word (scan_word 15 s)

-- `strcmp (gw, "00000000") == 0`
abbrev pub default_device : Option (Bytes × Bytes) → Option Bytes
default_device none = none
default_device (some (device, gw)) = if equal gw (codes "00000000") then some device else none

abbrev pub found_or : Option Bytes → Outcome (Option Bytes) → Outcome (Option Bytes)
found_or (some device) rest = ok (some device)
found_or none rest = rest

abbrev pub at_end : Bytes → Outcome (Option Bytes) → Outcome (Option Bytes)
at_end [] rest = ok none
at_end (c ∷ s) rest = rest

-- `while (!feof (input)) { … }`
unfoldable pub table_loop : ℕ → Bytes → Outcome (Option Bytes)
unfolding scan_line
table_loop zero s = fault
table_loop (suc fuel) s =
    let (words, left) = scan_line s in
    let rest = table_loop fuel left in found_or (default_device words) (at_end left rest)

unfoldable pub find_default : Bytes → Outcome (Option Bytes)
find_default s = table_loop (length s + 1) s

-- `NUM_EXT_INTERFACE_DETECT_RETRY`
abbrev pub num_ext_interface_detect_retry : ℕ
num_ext_interface_detect_retry = 0

-- One try, by what the table holds where it can be opened; `rest` is what the further tries give.
abbrev pub after_search :
    ℕ
    → ℕ
    → Option (Outcome (Option Bytes))
    → Outcome (Option Bytes)
    → Option (Outcome (Option Bytes))
after_search retry i rest (ok none) =
    if not (retry == 0) && ltb retry i then some (exits 1) else rest
after_search retry i rest found = some found

abbrev pub after_open :
    ℕ → ℕ → Option (Outcome (Option Bytes)) → Option Bytes → Option (Outcome (Option Bytes))
after_open retry i rest none = some (ok none)
after_open retry i rest (some table) = after_search retry i rest (find_default table)

-- `while (keep_detecting) { … }`, from the try of number `i`; none where it still tries when the fuel is
-- used up.
unfoldable pub detect_loop : ℕ → ℕ → ℕ → (ℕ → Option Bytes) → Option (Outcome (Option Bytes))
detect_loop zero retry i tables = none
detect_loop (suc fuel) retry i tables =
    let rest = detect_loop fuel retry (i + 1) tables in after_open retry i rest (tables i)

-- `tables` is what the file holds at each try. Its result is a null pointer where it cannot be opened.
unfoldable pub get_ext_iface : ℕ → (ℕ → Option Bytes) → Option (Outcome (Option Bytes))
get_ext_iface fuel tables = detect_loop fuel num_ext_interface_detect_retry 1 tables

-- ===== src/CommandLine/Getopt.antt =====
-- `getopt` of the C library with the option string of smartac_commandline.c, as the list of what its
-- calls return until it returns -1.
use smart_ac.Base.{
  ℕ, Bool, true, false, Option, none, some, List, [], ◌∷◌, ◌++◌, Bytes, ◌==◌, ◌||◌, if◌then◌else◌,
}

-- What one call returns, and `optarg` behind it. An unknown letter, and one whose argument is missing,
-- comes back as a question mark.
pub record Opt : Type 0 where
  pub letter : ℕ
  pub optarg : Option Bytes

abbrev pub opt : ℕ → Option Bytes → Opt
opt c a = record { letter = c; optarg = a }

-- The letters of "c:hfd:sva:".
abbrev pub takes_argument : ℕ → Bool
takes_argument c = c == b'c' || c == b'd' || c == b'a'

abbrev pub is_flag : ℕ → Bool
is_flag c = c == b'h' || c == b'f' || c == b's' || c == b'v'

-- What an element of `argv` is: the end of the options, an operand, or a group of letters.
pub data Element : Type 0 where
  ending operand : Element
  letters : Bytes → Element

abbrev pub behind_dash : Bytes → Element
behind_dash [] = operand
behind_dash (c ∷ []) = if c == b'-' then ending else letters (c ∷ [])
behind_dash (c ∷ d ∷ cs) = letters (c ∷ d ∷ cs)

unfoldable pub element : Bytes → Element
element [] = operand
element (c ∷ cs) = if c == b'-' then behind_dash cs else operand

abbrev pub known : ℕ → ℕ
known c = if is_flag c then c else b'?'

-- A letter that takes an argument: the rest of its group is that, where there is a rest.
abbrev pub with_rest : ℕ → Bytes → List Opt × Option ℕ
with_rest c [] = ([], some c)
with_rest c (d ∷ cs) = (opt c (some (d ∷ cs)) ∷ [], none)

abbrev pub after : Opt → List Opt × Option ℕ → List Opt × Option ℕ
after o (os, pending) = (o ∷ os, pending)

-- The options of a group, and the letter at its end that waits for its argument, where there is one.
unfoldable pub cluster : Bytes → List Opt × Option ℕ
cluster [] = ([], none)
cluster (c ∷ cs) =
    let rest = cluster cs in
    if takes_argument c then with_rest c cs else after (opt (known c) none) rest

unfoldable pub scan : Bool → Option ℕ → List Bytes → List Opt
unfolding element cluster
scan permute none [] = []
scan permute (some c) [] = opt b'?' none ∷ []
scan permute (some c) (arg ∷ args) = opt c (some arg) ∷ scan permute none args
scan permute none (a ∷ args) = elim (element a) [
  | ending ↦ []
  | operand ↦ elim permute [ true ↦ scan permute none args | false ↦ [] ]
  | letters cs ↦ let (os, pending) = cluster cs in os ++ scan permute pending args
]

unfoldable pub getopt : Bool → List Bytes → List Opt
unfolding scan
getopt permute args = scan permute none args

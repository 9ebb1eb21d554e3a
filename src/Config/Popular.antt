-- ===== src/Config/Popular.antt =====
-- The list of popular servers in the configuration file.
pub mod RoundTrip
use smart_ac.Base.{
  ℕ, ◌≡◌, refl, sym, ap, ◌∙◌, Bool, true, false, ◌&&◌, ◌||◌, not, List, [], ◌∷◌, ◌++◌, append_assoc,
  Bytes, ◌==◌, if◌then◌else◌, Bool-cases, arith,
}
use mathlib.Core.List.{reverse, reverse-cons}
use smart_ac.Config.{State, add_popular_server}
use smart_ac.Config.Line.{skip_blanks, split_word}
use smart_ac.Cstring.{is_blank}

-- `strsep (&ptrcopy, ",")` until it returns `NULL`: the first piece and the others.
unfoldable pub split_commas : Bytes → Bytes × List Bytes
split_commas [] = ([], [])
split_commas (c ∷ b) =
    let (piece, others) = split_commas b in
    if c == b',' then ([], piece ∷ others) else (c ∷ piece, others)

-- The name in one piece; empty where the piece is blank.
unfoldable pub trim_hostname : Bytes → Bytes
unfolding skip_blanks split_word
trim_hostname piece = (split_word (skip_blanks piece)).0

-- An empty name is passed over.
unfoldable pub add_hostname : Bytes → State → State
unfolding add_popular_server
add_hostname [] s = s
add_hostname (c ∷ hostname) s = add_popular_server (c ∷ hostname) s

-- The loop of `parse_popular_servers`.
unfoldable pub add_popular_servers : List Bytes → State → State
add_popular_servers [] s = s
add_popular_servers (piece ∷ ps) s = add_popular_servers ps (add_hostname (trim_hostname piece) s)

unfoldable pub parse_popular_servers : Bytes → State → State
unfolding split_commas add_popular_servers
parse_popular_servers ptr s =
    let (piece, others) = split_commas ptr in add_popular_servers (piece ∷ others) s

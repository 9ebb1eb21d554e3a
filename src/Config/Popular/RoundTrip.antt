-- ===== src/Config/Popular/RoundTrip.antt =====
-- `parse_popular_servers` on a list of host names written with commas and spaces.
use smart_ac.Base.{
  ℕ, zero, suc, ◌≡◌, refl, sym, ap, ◌∙◌, Bool, true, ◌&&◌, ◌||◌, not, List, [], ◌∷◌, ◌++◌,
  append_assoc, map, Bytes, ◌==◌, arith, replicate,
}
use mathlib.Core.List.{reverse, reverse-cons}
use smart_ac.Config.{State}
use smart_ac.Config.Line.{skip_blanks, split_word}
use smart_ac.Config.Popular.{
  split_commas, trim_hostname, add_hostname, add_popular_servers, parse_popular_servers,
}
use smart_ac.Cstring.{is_blank}

-- A byte of a host name: no NUL, no blank and no comma.
abbrev pub is_host_byte : ℕ → Bool
is_host_byte c = not (c == 0 || is_blank c || c == b',')

abbrev pub all_host_bytes : Bytes → Bool
all_host_bytes [] = true
all_host_bytes (c ∷ b) = is_host_byte c && all_host_bytes b

-- A host name, and how many spaces stand before it.
pub record Entry : Type 0 where
  pub spaces : ℕ
  pub initial : ℕ
  pub others : Bytes
  pub host_bytes : all_host_bytes (initial ∷ others) ≡ true

abbrev pub name : Entry → Bytes
name e = e.initial ∷ e.others

abbrev pub padded : Entry → Bytes
padded e = replicate e.spaces b' ' ++ name e

abbrev pub join : Entry → List Entry → Bytes
join e [] = padded e
join e (f ∷ es) = padded e ++ (b',' ∷ join f es)

abbrev no_comma : Bytes → Bool
no_comma [] = true
no_comma (c ∷ b) = not (c == b',') && no_comma b

split_commas-single : (p : Bytes) → no_comma p ≡ true → split_commas p ≡ (p, [])
unfolding split_commas
split_commas-single [] h = refl
split_commas-single (c ∷ p) h = ground (arith, split_commas-single p)

split_commas-append :
    (p rest : Bytes)
    → no_comma p ≡ true
    → split_commas (p ++ (b',' ∷ rest)) ≡ (p, (split_commas rest).0 ∷ (split_commas rest).1)
unfolding split_commas
split_commas-append [] rest h = refl
split_commas-append (c ∷ p) rest h = ground (arith, split_commas-append p rest)

no_comma-padded :
    (n : ℕ) (b : Bytes) → all_host_bytes b ≡ true → no_comma (replicate n b' ' ++ b) ≡ true
no_comma-padded zero [] h = refl
no_comma-padded zero (c ∷ b) h = ground (arith, no_comma-padded zero b)
no_comma-padded (suc n) b h = no_comma-padded n b h

skip_blanks-padded :
    (n c : ℕ) (b : Bytes) → is_host_byte c ≡ true → skip_blanks (replicate n b' ' ++ c ∷ b) ≡ c ∷ b
unfolding skip_blanks
skip_blanks-padded zero c b h = ground arith
skip_blanks-padded (suc n) c b h = skip_blanks-padded n c b h

split_word-host : (b : Bytes) → all_host_bytes b ≡ true → split_word b ≡ (b, [])
unfolding split_word
split_word-host [] h = refl
split_word-host (c ∷ b) h = ground (arith, split_word-host b)

trim_hostname-padded : (e : Entry) → trim_hostname (padded e) ≡ name e
unfolding trim_hostname
trim_hostname-padded e =
    ap (λ b. (split_word b).0)
      (skip_blanks-padded e.spaces e.initial e.others (ground (arith, e.host_bytes)))
    ∙ ap (λ r. r.0) (split_word-host (name e) e.host_bytes)

abbrev pieces : Entry → List Entry → List Bytes
pieces e es = padded e ∷ map padded es

split_commas-join :
    (e : Entry) (es : List Entry) → split_commas (join e es) ≡ (padded e, map padded es)
split_commas-join e [] =
    split_commas-single (padded e) (no_comma-padded e.spaces (name e) e.host_bytes)
split_commas-join e (f ∷ es) =
    split_commas-append (padded e) (join f es) (no_comma-padded e.spaces (name e) e.host_bytes)
    ∙ rw (split_commas-join f es)

-- Each name goes in front of those before it.
abbrev pub with_popular : List Bytes → State → State
with_popular names s = record s {
  config = record s.config { popular_servers = names ++ s.config.popular_servers };
}

add_popular_servers-names :
    (es : List Entry) (s : State)
    → add_popular_servers (map padded es) s ≡ with_popular (reverse (map name es)) s
unfolding add_popular_servers add_hostname
add_popular_servers-names [] s = refl
add_popular_servers-names (e ∷ es) s =
    ap (λ n. add_popular_servers (map padded es) (add_hostname n s)) (trim_hostname-padded e)
    ∙ rw (add_popular_servers-names es) (
        ap (λ l. record s { config = record s.config { popular_servers = l } })
          (sym (
            ap (λ l. l ++ s.config.popular_servers) (reverse-cons (name e) (map name es))
            ∙ append_assoc (reverse (map name es)) (name e ∷ []) s.config.popular_servers)))

-- Host names that are joined by commas, with any number of spaces before each, all come into the
-- list of popular servers, the last one first, before those that were there; nothing else changes.
pub parse_popular_servers-join :
    (e : Entry) (es : List Entry) (s : State)
    → parse_popular_servers (join e es) s ≡ with_popular (reverse (map name (e ∷ es))) s
unfolding parse_popular_servers
parse_popular_servers-join e es s =
    rw (split_commas-join e es) (add_popular_servers-names (e ∷ es) s)

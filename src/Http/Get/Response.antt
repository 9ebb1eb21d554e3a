-- ===== src/Http/Get/Response.antt =====
-- What `http_get` returns, said without its buffer.
use smart_ac.Base.{
  ℕ, ◌≡◌, refl, ◌∙◌, true, false, not, ◌&&◌, Option, none, some, List, [], ◌∷◌, ◌++◌, append_assoc,
  append-nil, Bytes, ◌==◌, if◌then◌else◌, length, arith,
}
use smart_ac.Cstring.{until_nul, has_nul, has_nul-append}
use smart_ac.Http.Get.{
  Event, reads, read_error, timeout, select_error, Exchange, read_loop, failed, finish, http_get,
}
use smart_ac.Outcome.{Outcome, ok, exits, fault, ◌>>=◌, Returns, Returns->>=, Returns-mono}
use smart_ac.Pstr.{Pstr, pstr_new, pstr_cat}
use smart_ac.Pstr.Cat.{IsPstr, pstr_new-IsPstr, pstr_cat-IsPstr, pstr_to_string-content}

abbrev prepend : Bytes → Option Bytes → Option Bytes
prepend b none = none
prepend b (some r) = some (b ++ r)

-- The text that comes before the end of the input: of each piece what stands before its first NUL.
-- There is none where an error or a timeout comes first.
unfoldable pub received : List Event → Option Bytes
received [] = none
received (reads [] ∷ events) = some []
received (reads (c ∷ b) ∷ events) = prepend (until_nul (c ∷ b)) (received events)
received (read_error ∷ events) = none
received (timeout ∷ events) = none
received (select_error ∷ events) = none

until_nul-clean : (b : Bytes) → has_nul (until_nul b) ≡ false
unfolding until_nul has_nul
until_nul-clean [] = refl
until_nul-clean (c ∷ b) = ground (arith, until_nul-clean b)

-- The buffer holds `content` before the events that give `more`.
abbrev Collected : Bytes → Option Bytes → Option Pstr → Type 0
Collected content none r = r ≡ none
Collected content (some more) none = ⊥
Collected content (some more) (some p) =
    IsPstr p (content ++ more) × (has_nul (content ++ more) ≡ false)

Collected-prepend :
    (content u : Bytes) (more : Option Bytes) (r : Option Pstr)
    → Collected (content ++ u) more r
    → Collected content (prepend u more) r
Collected-prepend content u none r h = h
Collected-prepend content u (some more) none h = h
Collected-prepend content u (some more) (some p) h = rw (← append_assoc) h

read_loop-Collected :
    (g : ℕ → ℕ) (events : List Event) (p : Pstr) (content : Bytes)
    → IsPstr p content
    → has_nul content ≡ false
    → Returns (Collected content (received events)) (read_loop g events p)
unfolding read_loop received
read_loop-Collected g [] p content is clean = refl
read_loop-Collected g (reads [] ∷ events) p content is clean = rw append-nil (is, clean)
read_loop-Collected g (reads (c ∷ b) ∷ events) p content is clean =
    let u = until_nul (c ∷ b) in
    Returns->>= (λ q. IsPstr q (content ++ u)) _ (pstr_cat g p u) _
      (pstr_cat-IsPstr g u p content is)
      λ q is'.
        Returns-mono _ _ (read_loop g events q)
          (read_loop-Collected g events q (content ++ u) is'
            (has_nul-append content u ∙ ground (arith, until_nul-clean (c ∷ b))))
          (Collected-prepend content u (received events))
read_loop-Collected g (read_error ∷ events) p content is clean = refl
read_loop-Collected g (timeout ∷ events) p content is clean = refl
read_loop-Collected g (select_error ∷ events) p content is clean = refl

finish-received :
    (more : Option Bytes) (r : Option Pstr)
    → Collected [] more r
    → finish r ≡ ok (record { response = more; closed = true })
unfolding finish
finish-received none r h = rw h
finish-received (some more) none h = absurd h
finish-received (some more) (some p) (is, clean) = rw (pstr_to_string-content p more is clean)

read_finish :
    (more : Option Bytes) (m : Outcome (Option Pstr))
    → Returns (Collected [] more) m
    → (m >>= finish) ≡ ok (record { response = more; closed = true })
read_finish more (ok r) h = finish-received more r h
read_finish more (exits s) h = absurd h
read_finish more fault h = absurd h

-- `http_get` as it is meant: with a socket, and where `send` took the whole request, which is not
-- empty, it returns what was received; otherwise nothing. It closes the socket if there is one.
abbrev pub expected : Option ℕ → Bytes → Option ℕ → List Event → Exchange
expected none req sent events = failed false
expected (some sockfd) req none events = failed true
expected (some sockfd) req (some numbytes) events = record {
  response = if not (numbytes == 0) && numbytes == length req then received events else none;
  closed = true;
}

-- For every socket, request, result of `send` and sequence of events, and whatever stands in the memory
-- that its buffer grows into, the buffered code returns what it is meant to: with a socket and a request
-- that was sent whole, what was received, else `NULL`; and the socket is closed if there is one.
pub http_get-expected :
    (g : ℕ → ℕ) (sockfd : Option ℕ) (req : Bytes) (sent : Option ℕ) (events : List Event)
    → http_get g sockfd req sent events ≡ ok (expected sockfd req sent events)
unfolding http_get
http_get-expected g none req sent events = refl
http_get-expected g (some sockfd) req none events = refl
http_get-expected g (some sockfd) req (some n) events = ground (
  arith,
  read_finish (received events) (read_loop g events pstr_new)
      (read_loop-Collected g events pstr_new [] pstr_new-IsPstr (unfold has_nul in refl)),
)

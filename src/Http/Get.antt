-- ===== src/Http/Get.antt =====
-- `http_get`: sends a request and collects the response. What the socket does is an argument: the
-- result of `send`, and what each round of `select` and `read` brings.
pub mod Response
use smart_ac.Base.{
  ℕ, zero, suc, ◌+◌, Bool, true, false, not, Option, none, some, List, [], ◌∷◌, ◌++◌, Bytes, ◌==◌,
  if◌then◌else◌, length,
}
use smart_ac.Cstring.{until_nul}
use smart_ac.Outcome.{Outcome, ok, ◌>>=◌}
use smart_ac.Pstr.{Pstr, pstr_new, pstr_cat, pstr_to_string}

pub data Event : Type 0 where
  -- `select` says that there is input, and `read` returns these bytes; none at the end
  reads : Bytes → Event
  read_error : Event
  timeout : Event
  select_error : Event

-- What a call leaves: the response, or `NULL`, and whether the socket was closed.
pub record Exchange : Type 0 where
  pub response : Option Bytes
  pub closed : Bool

-- The `do` loop. Where the other side sends nothing any more, `select` runs into its timeout.
unfoldable pub read_loop : (ℕ → ℕ) → List Event → Pstr → Outcome (Option Pstr)
read_loop garbage [] response = ok none
read_loop garbage (reads [] ∷ events) response = ok (some response)
read_loop garbage (reads (c ∷ readbuf) ∷ events) response = do
  response ← pstr_cat garbage response (until_nul (c ∷ readbuf))
  read_loop garbage events response
read_loop garbage (read_error ∷ events) response = ok none
read_loop garbage (timeout ∷ events) response = ok none
read_loop garbage (select_error ∷ events) response = ok none

abbrev pub failed : Bool → Exchange
failed closed = record { response = none; closed = closed }

finish : Option Pstr → Outcome Exchange
finish none = ok (failed true)
finish (some p) = do
  retval ← pstr_to_string p
  ok (record { response = some retval; closed = true })

-- `sockfd` is `none` for -1; `sent` is what `send` returns, `none` for -1.
unfoldable pub http_get : (ℕ → ℕ) → Option ℕ → Bytes → Option ℕ → List Event → Outcome Exchange
unfolding finish
http_get garbage none req sent events = ok (failed false)
http_get garbage (some sockfd) req none events = ok (failed true)
http_get garbage (some sockfd) req (some numbytes) events =
    if numbytes == 0
    then ok (failed true)
    else if not (numbytes == length req)
    then ok (failed true)
    else (do r ← read_loop garbage events pstr_new; finish r)

-- ===== src/Remote/Posted.antt =====
-- What of a queued output reaches the request that posts it.
use smart_ac.Base.{
  ℕ, zero, suc, ◌+◌, ◌-◌, ◌≤◌, ◌≡◌, refl, ap, ◌∙◌, Bool, true, false, [], ◌∷◌, ◌++◌, Bytes, leb,
  length, take_all, drop, replicate, append_assoc, arith,
}
use smart_ac.Cstring.{has_nul, has_nul-append, until_nul-append}
use smart_ac.Outcome.{within}
use smart_ac.Queue.{max_cmd_out_buf, buffer_size}
use smart_ac.Queue.Results.{copied, copied-IsResult}
use smart_ac.Remote.{posted_data}
use smart_ac.Remote.Queued.{stored, stored-IsResult}

drop-replicate : (n : ℕ) → drop {A = ℕ} n (replicate (suc n) 0) ≡ 0 ∷ []
drop-replicate zero = refl
drop-replicate (suc n) = drop-replicate n

-- The bytes that `getout_queue` adds in the copy of a result.
abbrev padding : Bytes → Bytes
padding out = let size = buffer_size (length out) in drop size (replicate (buffer_size size) 0)

-- The copy that `getout_queue` hands out begins with the output and a zero byte.
copied-stored :
    (out : Bytes)
    → length out ≤ max_cmd_out_buf
    → (copied (stored out)).result ≡ out ++ 0 ∷ padding out
copied-stored out h =
    let size : buffer_size (length out) ≡ suc (length out) = ground arith in
    let is = stored-IsResult out (omega arith) in
    ap (λ t. t ++ padding out)
      (take_all (stored out).size (stored out).result (omega (arith, is.sized)))
    ∙ ap (λ k. (out ++ drop (length out) (replicate k 0)) ++ padding out) size
    ∙ ap (λ t. (out ++ t) ++ padding out) (drop-replicate (length out))
    ∙ append_assoc out (0 ∷ []) (padding out)

posted_data-case :
    (out : Bytes) (b : Bool)
    → has_nul out ≡ false
    → length out ≤ max_cmd_out_buf + 1
    → leb (length out) 20478 ≡ b
    → posted_data (copied (stored out)) ≡ within b out
unfolding posted_data
posted_data-case out true text h e =
    let is = copied-IsResult (stored out) (stored-IsResult out (omega arith)) in
    let size : leb (copied (stored out)).size max_cmd_out_buf ≡ true = ground arith in
    let whole : leb (copied (stored out)).size (length (copied (stored out)).result) ≡ true =
      ground (arith, is.sized) in
    let terminated : has_nul (out ++ 0 ∷ padding out) ≡ true =
      has_nul-append out (0 ∷ padding out) ∙ unfold has_nul in ground arith in
    rw
      (
        size,
        whole,
        take_all (copied (stored out)).size (copied (stored out)).result (omega (arith, is.sized)),
        copied-stored out (ground arith),
        terminated,
        until_nul-append out (padding out) text,
      )
      refl
posted_data-case out false text h e =
    let size : leb (copied (stored out)).size max_cmd_out_buf ≡ false = ground arith in rw size refl

-- What is posted of an output without NUL bytes is the output itself, for up to 20478 bytes; for a longer
-- one that still fits into its result, the copy into the array of 20480 bytes overflows it.
pub posted_data-stored :
    (out : Bytes)
    → has_nul out ≡ false
    → length out ≤ max_cmd_out_buf + 1
    → posted_data (copied (stored out)) ≡ within (leb (length out) (max_cmd_out_buf - 2)) out
posted_data-stored out text h = posted_data-case out _ text h refl

-- ===== src/Safe.antt =====
-- smartac_safe.c: the wrappers of allocation and `fork`, with the list of descriptors that a child
-- closes. What `malloc`, `vasprintf` and `fork` give is an argument.
pub mod Forked
use smart_ac.Base.{
  ℕ, zero, suc, ◌+◌, ◌-◌, Bool, false, Option, none, some, List, [], ◌∷◌, ◌++◌, Bytes, ◌==◌,
  if◌then◌else◌, length, take,
}
use smart_ac.Config.{is_minus_one}
use smart_ac.Cstring.Number.{ℤ, pos, negsuc}
use smart_ac.Outcome.{Outcome, ok, exits, fault, ◌>>=◌}
use smart_ac.Store.{Ptr, null, Store, Node, node, write, load}

-- The heap of `fd_list_t` and the global `fd_list`; the address of the next allocation, and how many
-- more succeed; the descriptors that `close` was called with, in order.
pub record Descriptors : Type 0 where
  pub entries : Store (Node ℕ)
  pub fd_list : Ptr
  pub brk : Ptr
  pub room : ℕ
  pub closed : List ℕ

-- `while (NULL != (entry = fd_list)) { … }`
unfoldable pub cleanup_loop : ℕ → Descriptors → Outcome Descriptors
cleanup_loop zero d = fault
cleanup_loop (suc fuel) d =
    let rest = (do
      entry ← load d.entries d.fd_list
      cleanup_loop fuel (record d {
        closed = d.closed ++ entry.value ∷ [];
        fd_list = entry.next;
        entries = write d.entries d.fd_list none;
      })) in
    if d.fd_list == null then ok d else rest

unfoldable pub cleanup_fds : Descriptors → Outcome Descriptors
unfolding cleanup_loop
cleanup_fds d = cleanup_loop (d.brk + 1) d

unfoldable pub register_fd_cleanup_on_fork : ℕ → Descriptors → Outcome Descriptors
register_fd_cleanup_on_fork fd d =
    if d.room == 0
    then exits 1
    else ok (record d {
      entries = write d.entries d.brk (some (node fd d.fd_list));
      fd_list = d.brk;
      brk = d.brk + 1;
      room = d.room - 1;
    })

-- `result == 0`
abbrev pub is_child : ℤ → Bool
is_child (pos n) = n == 0
is_child (negsuc n) = false

-- `result` is what `fork` returns.
unfoldable pub safe_fork : ℤ → Descriptors → Outcome (ℤ × Descriptors)
safe_fork result d =
    if is_minus_one result
    then exits 1
    else if is_child result
    then (do d ← cleanup_fds d; ok (result, d))
    else ok (result, d)

-- Whether the allocation succeeds is `found`; `added` is what the memory behind the old contents holds.
unfoldable pub safe_realloc : Bool → Bytes → Bytes → ℕ → Outcome Bytes
safe_realloc found added ptr newsize =
    if found then ok (take newsize ptr ++ take (newsize - length ptr) added) else exits 1

unfoldable pub safe_strdup : Bool → Option Bytes → Outcome Bytes
safe_strdup found none = exits 1
safe_strdup found (some s) = if found then ok s else exits 1

-- `printed` is the string that `vasprintf` allocates, or none where it returns -1; the result has its
-- length.
unfoldable pub safe_vasprintf : Option Bytes → Outcome (ℕ × Bytes)
safe_vasprintf none = exits 1
safe_vasprintf (some text) = ok (length text, text)

unfoldable pub safe_asprintf : Option Bytes → Outcome (ℕ × Bytes)
safe_asprintf printed = do (retval, text) ← safe_vasprintf printed; ok (retval, text)

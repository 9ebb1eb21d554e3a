-- ===== src/UpdateList.antt =====
-- smartac_wdctl_update_list.c: a program of its own that resets the clients whose MAC addresses are its
-- arguments, each in a child that runs wdctl and that nobody waits for.
pub mod Updated
use smart_ac.Base.{ℕ, suc, Bool, List, [], ◌∷◌, Bytes, ltb, if◌then◌else◌, not, length}
use smart_ac.Cstring.{codes}
use smart_ac.Outcome.{Outcome, ok, exits, ◌>>=◌, within}

unfoldable pub check_paramter : ℕ → Bool
check_paramter argc = not (ltb argc 2)

-- `runs` says for which arguments `execv` replaces the child by wdctl. The result of a child is the
-- arguments of the wdctl that it became.
unfoldable pub do_wdctl_reset : (List Bytes → Bool) → Bytes → Outcome (List Bytes)
do_wdctl_reset runs mac = do
  mac ← within (ltb (length mac) 32) mac
  let argv = codes "     " ∷ codes "reset" ∷ mac ∷ []
  if runs argv then ok argv else exits 255

-- The loop of `main` from the argument number `i` on; `forks` says which calls of `fork` succeed. The
-- children in their order, and the status of the parent.
unfoldable pub update_loop :
    (ℕ → Bool) → (List Bytes → Bool) → ℕ → List Bytes → List (Outcome (List Bytes)) × ℕ
update_loop forks runs i [] = ([], 0)
update_loop forks runs i (mac ∷ macs) =
    let (children, status) = update_loop forks runs (suc i) macs in
    if forks i then (do_wdctl_reset runs mac ∷ children, status) else ([], 255)

-- `main`; `args` is `argv` without the program's name.
unfoldable pub update_list :
    (ℕ → Bool) → (List Bytes → Bool) → List Bytes → List (Outcome (List Bytes)) × ℕ
update_list forks runs args =
    if check_paramter (suc (length args)) then update_loop forks runs 1 args else ([], 255)

-- ===== src/Safe/Forked.antt =====
-- What becomes of the registered descriptors in a child and in its parent.
use smart_ac.Base.{
  ℕ, zero, suc, ◌+◌, ◌<◌, ◌≤◌, ◌≡◌, refl, ap, sym, ◌∙◌, true, false, none, List, [], ◌∷◌, ◌++◌,
  ◌==◌, length, append_assoc, append-nil, Bool-cases, inl, inr, arith,
}
use smart_ac.Config.{is_minus_one}
use smart_ac.Cstring.Number.{ℤ}
use smart_ac.Outcome.{Outcome, ok, ◌>>=◌, Returns, Returns->>=, Returns-mono, Returns-if}
use smart_ac.Safe.{
  Descriptors, cleanup_loop, cleanup_fds, register_fd_cleanup_on_fork, is_child, safe_fork,
}
use smart_ac.Store.{Ptr, null, write, Cells, has, first, Linked}
use smart_ac.Store.Linked.{
  Below, Below-mono, not-has_of_le, has-lt, load-Linked, Linked-frame, write_self, write_ne,
}

-- The list of entries.
pub record IsRegistered (d : Descriptors) (cs : Cells ℕ) : Type 0 where
  pub head : d.fd_list ≡ first null cs
  pub chain : Linked d.entries null cs
  pub below : Below d.brk cs
  pub counted : length cs < d.brk

abbrev pub fds_of : Cells ℕ → List ℕ
fds_of [] = []
fds_of ((p, fd) ∷ cs) = fd ∷ fds_of cs

-- All entries' descriptors are closed, in the order of the list, and the list is empty.
pub record IsClosed (d : Descriptors) (cs : Cells ℕ) (d' : Descriptors) : Type 0 where
  pub closed : d'.closed ≡ d.closed ++ fds_of cs
  pub emptied : d'.fd_list ≡ null
  pub freed : (p : Ptr) → has p cs ≡ true → d'.entries p ≡ none
  pub same_brk : d'.brk ≡ d.brk
  pub kept : (p : Ptr) → has p cs ≡ false → d'.entries p ≡ d.entries p

-- The descriptors behind one round of the loop.
abbrev round : Descriptors → Ptr → ℕ → Cells ℕ → Descriptors
round d p fd cs = record d {
  closed = d.closed ++ fd ∷ [];
  fd_list = first null cs;
  entries = write d.entries p none;
}

round-IsClosed :
    (d d' : Descriptors) (p : Ptr) (fd : ℕ) (cs : Cells ℕ)
    → has p cs ≡ false
    → IsClosed (round d p fd cs) cs d'
    → IsClosed d ((p, fd) ∷ cs) d'
round-IsClosed d d' p fd cs out is = record {
  closed = is.closed ∙ append_assoc d.closed (fd ∷ []) (fds_of cs);
  emptied = is.emptied;
  same_brk = is.same_brk;
  freed = λ a i. elim (Bool-cases (a == p)) [
    | inl e ↦
        let same : a ≡ p = ground arith in rw same (is.kept p out ∙ write_self d.entries p none)
    | inr e ↦ is.freed a (ground arith)
  ];
  kept = λ a i. is.kept a (ground arith) ∙ write_ne d.entries p a none (λ e. ground arith);
}

cleanup_loop-IsClosed :
    (fuel : ℕ) (d : Descriptors) (cs : Cells ℕ)
    → length cs < fuel
    → d.fd_list ≡ first null cs
    → Linked d.entries null cs
    → Returns (IsClosed d cs) (cleanup_loop fuel d)
unfolding cleanup_loop
cleanup_loop-IsClosed zero d cs lt e l = absurd (omega arith)
cleanup_loop-IsClosed (suc fuel) d [] lt e l = rw e (record {
  closed = sym (append-nil d.closed);
  emptied = refl;
  same_brk = refl;
  freed = λ p i. absurd (cc);
  kept = λ p i. refl;
})
cleanup_loop-IsClosed (suc fuel) d ((p, fd) ∷ cs) lt e (ne, at, out, l) =
    let here : (p == null) ≡ false = ground (arith, ne) in
    rw (e, here, load-Linked d.entries null p fd cs (ne, at, out, l))
      (Returns-mono (IsClosed (round d p fd cs) cs)
        (IsClosed (record d { fd_list = p }) ((p, fd) ∷ cs)) (cleanup_loop fuel (round d p fd cs))
        (cleanup_loop-IsClosed fuel (round d p fd cs) cs (omega arith) refl (
          Linked-frame d.entries _ null cs
            (λ a i. write_ne d.entries p a none (λ same. cc (same, i, out))) l))
        (λ d' is. round-IsClosed (record d { fd_list = p }) d' p fd cs out is))

pub cleanup_fds-IsClosed :
    (d : Descriptors) (cs : Cells ℕ) → IsRegistered d cs → Returns (IsClosed d cs) (cleanup_fds d)
unfolding cleanup_fds
cleanup_fds-IsClosed d cs is =
    cleanup_loop-IsClosed (d.brk + 1) d cs (omega (arith, is.counted)) is.head is.chain

-- Registering a descriptor puts it in front of the others.
abbrev pub Registered : Descriptors → ℕ → Cells ℕ → Descriptors → Type 0
Registered d fd cs d' =
    IsRegistered d' ((d.brk, fd) ∷ cs) × (d'.room + 1 ≡ d.room) × (d'.closed ≡ d.closed)

pub register_fd-Registered :
    (fd : ℕ) (d : Descriptors) (cs : Cells ℕ)
    → IsRegistered d cs
    → 0 < d.room
    → Returns (Registered d fd cs) (register_fd_cleanup_on_fork fd d)
unfolding register_fd_cleanup_on_fork
register_fd-Registered fd d cs is room =
    let some_room : (d.room == 0) ≡ false = ground arith in
    rw (some_room, is.head)
      (
        record {
          head = refl;
          chain = (
            (λ e. absurd (omega (arith, is.counted))),
            write_self d.entries d.brk _,
            not-has_of_le d.brk d.brk cs (omega arith) is.below,
            Linked-frame d.entries _ null cs
                (λ a i.
                  write_ne d.entries d.brk a _
                    (λ same. absurd (omega (arith, has-lt d.brk a cs i is.below))))
                is.chain,
          );
          below = (omega arith, Below-mono d.brk (d.brk + 1) cs (omega arith) is.below);
          counted = omega (arith, is.counted);
        },
        omega arith,
        refl,
      )

-- The calls for a list of descriptors, one after the other.
unfoldable pub register_all : List ℕ → Descriptors → Outcome Descriptors
register_all [] d = ok d
register_all (fd ∷ fds) d = do d ← register_fd_cleanup_on_fork fd d; register_all fds d

-- The latest first.
abbrev pub latest_first : List ℕ → List ℕ → List ℕ
latest_first [] older = older
latest_first (fd ∷ fds) older = latest_first fds (fd ∷ older)

abbrev AllRegistered : List ℕ → Descriptors → Cells ℕ → Descriptors → Type 0
AllRegistered fds d cs d' =
    ((new : Cells ℕ) × IsRegistered d' new × (fds_of new ≡ latest_first fds (fds_of cs)))
    × (d'.closed ≡ d.closed)

register_all-AllRegistered :
    (fds : List ℕ) (d : Descriptors) (cs : Cells ℕ)
    → IsRegistered d cs
    → length fds ≤ d.room
    → Returns (AllRegistered fds d cs) (register_all fds d)
unfolding register_all
register_all-AllRegistered [] d cs is room = ((cs, is, refl), refl)
register_all-AllRegistered (fd ∷ fds) d cs is room =
    Returns->>= (Registered d fd cs) (AllRegistered (fd ∷ fds) d cs)
      (register_fd_cleanup_on_fork fd d) _ (register_fd-Registered fd d cs is (omega arith))
      (λ d' (is', left, same).
        Returns-mono (AllRegistered fds d' ((d.brk, fd) ∷ cs)) (AllRegistered (fd ∷ fds) d cs)
          (register_all fds d')
          (register_all-AllRegistered fds d' ((d.brk, fd) ∷ cs) is' (omega arith))
          (λ d'' (all, closed). (all, closed ∙ same)))

-- The child has closed the descriptors and has none registered; the parent has closed none.
abbrev pub Forked : ℤ → List ℕ → Descriptors → (ℤ × Descriptors) → Type 0
Forked result fds d (pid, d') =
    (pid ≡ result)
    × (is_child result ≡ true → (d'.closed ≡ d.closed ++ latest_first fds []) × (d'.fd_list ≡ null))
    × (is_child result ≡ false → d'.closed ≡ d.closed)

-- Where no descriptor is registered, and there is memory for all of `fds`, registering these and then a
-- `fork` that succeeds always returns: the child has closed exactly these descriptors, the latest first,
-- and its list is empty; the parent has closed none.
pub safe_fork-Forked :
    (result : ℤ) (fds : List ℕ) (d : Descriptors)
    → is_minus_one result ≡ false
    → IsRegistered d []
    → length fds ≤ d.room
    → Returns (Forked result fds d) (register_all fds d >>= safe_fork result)
unfolding safe_fork
safe_fork-Forked result fds d success is room =
    Returns->>= (AllRegistered fds d []) (Forked result fds d) (register_all fds d) _
      (register_all-AllRegistered fds d [] is room)
      (λ d' ((new, is', values), same). rw success (
        Returns-if (Forked result fds d) (is_child result) _ _
          (λ child.
            Returns->>= (IsClosed d' new) (Forked result fds d) (cleanup_fds d') _
              (cleanup_fds-IsClosed d' new is')
              (λ d'' closed. (
                refl,
                (λ _. (
                  closed.closed ∙ ap (λ a. a ++ fds_of new) same ∙ ap (λ b. d.closed ++ b) values,
                  closed.emptied,
                )),
                (λ parent. absurd (cc)),
              )))
          (λ parent. (refl, (λ child. absurd (cc)), (λ _. same)))))

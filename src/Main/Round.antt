-- ===== src/Main/Round.antt =====
-- One round of the main loop while threads hold results.
use mathlib.Core.Path.{subst}
use smart_ac.Base.{◌≤◌, Bool, List, ◌∷◌, ◌==◌, if◌then◌else◌}
use smart_ac.Main.{main_round}
use smart_ac.Outcome.{
  Outcome, ok, ◌>>=◌, Returns, Returns->>=, Returns-if, Whenever, Whenever->>=, Whenever-of_Returns,
}
use smart_ac.Queue.{ResultQueue, Memory, cmdresult_free, getout_queue}
use smart_ac.Queue.Held.{IsSound, here}
use smart_ac.Queue.Results.{cmdresult_free-ok}
use smart_ac.Queue.Taken.{TakenOut, getout_queue-TakenOut, getout_queue-Whenever, freed-IsSound}
use smart_ac.Store.{Ptr, null}

-- What follows the call of `getout_queue`.
abbrev hand_over : Bool → Ptr × ResultQueue × Memory → Outcome (Ptr × ResultQueue × Memory)
hand_over created (r, q, m) =
    if r == null
    then ok (null, q, m)
    else if created
    then ok (r, q, m)
    else (do m ← cmdresult_free r m; ok (null, q, m))

hand_over-TakenOut :
    (created : Bool) (t : Ptr × ResultQueue × Memory) (rs : List Ptr)
    → TakenOut rs t
    → Returns (TakenOut rs) (hand_over created t)
hand_over-TakenOut created (r, q, m) rs is =
    Returns-if (TakenOut rs) (r == null) _ _
      (λ e. subst (λ b. IsSound m q (if b then rs else r ∷ rs)) e is)
      (λ e.
        let mine = subst (λ b. IsSound m q (if b then rs else r ∷ rs)) e is in
        let (x, loose) = mine.held.0 in
        Returns-if (TakenOut rs) created _ _ (λ _. is)
          (λ _. rw (cmdresult_free-ok m r x loose.ne_null loose.at) (freed-IsSound m q here mine)))

-- With memory for the copy of a result, a round of the main loop returns.
pub main_round-TakenOut :
    (created : Bool) (m : Memory) (q : ResultQueue) (rs : List Ptr)
    → IsSound m q rs
    → 2 ≤ m.room
    → Returns (TakenOut rs) (main_round created q m)
unfolding main_round
main_round-TakenOut created m q rs is room =
    Returns->>= (TakenOut rs) (TakenOut rs) (getout_queue q m) (hand_over created)
      (getout_queue-TakenOut m q rs is room) (λ t taken. hand_over-TakenOut created t rs taken)

-- With any memory it ends the process or leaves the same.
pub main_round-Whenever :
    (created : Bool) (m : Memory) (q : ResultQueue) (rs : List Ptr)
    → IsSound m q rs
    → Whenever (TakenOut rs) (main_round created q m)
unfolding main_round
main_round-Whenever created m q rs is =
    Whenever->>= (TakenOut rs) (TakenOut rs) (getout_queue q m) (hand_over created)
      (getout_queue-Whenever m q rs is)
      (λ t taken.
        Whenever-of_Returns (TakenOut rs) (hand_over created t)
          (hand_over-TakenOut created t rs taken))

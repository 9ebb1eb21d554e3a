-- ===== src/Queue/Insert.antt =====
-- `initial_queue` and `insert_queue` against the list of results that the queue stands for.
use smart_ac.Base.{◌+◌, ◌≡◌, refl, sym, ap, ◌∙◌, ◌≢◌, ◌<◌, some, List, [], ◌∷◌, ◌++◌, arith}
use smart_ac.Outcome.{Returns}
use smart_ac.Store.{Ptr, null, node, write, Cells}
use smart_ac.Store.Linked.{
  Below-mono, Below-snoc, not-has_of_le, has-lt, has-last_of, last_of-Linked, last_of-snoc,
  Linked-snoc, write_self, write_ne, load-some,
}
use smart_ac.Queue.{ResultData, Memory, ResultQueue, initial_queue, insert_queue}
use smart_ac.Queue.Results.{safe_malloc-ok}
use smart_ac.Queue.Shape.{IsLoose, IsQueue, Holds-snoc, Holds-frame}

pub initial_queue-ok :
    (m : Memory)
    → 0 < m.room
    → m.brk ≢ null
    → Returns (λ (q, m'). IsQueue m' q [] []) (initial_queue m)
unfolding initial_queue
initial_queue-ok m room ne = rw (safe_malloc-ok m room) (record {
  chain = (ne, write_self m.nodes m.brk _, refl, tt);
  rear_is = refl;
  holds = tt;
  below = (omega arith, tt);
})

module _ (m : Memory) (q : ResultQueue) (cs : Cells Ptr) (xs : List ResultData)
    (is : IsQueue m q cs xs) where
  nonnull : m.brk ≢ null
  nonnull = λ e. absurd (omega (arith, is.below.0))

  rear_below : q.rear < m.brk
  rear_below =
      rw is.rear_is (has-lt m.brk _ ((q.front, null) ∷ cs) (has-last_of q.front null cs) is.below)

  -- Inserting a result that is not in the queue, with memory for one node, puts it behind the others
  -- and takes up that memory.
  pub insert_queue-IsQueue :
      (elem : Ptr) (x : ResultData)
      → 0 < m.room
      → IsLoose m cs elem x
      → Returns
          (λ (q', m').
            (m'.room + 1 ≡ m.room) × IsQueue m' q' (cs ++ (m.brk, elem) ∷ []) (xs ++ x ∷ []))
          (insert_queue q elem m)
  unfolding insert_queue
  insert_queue-IsQueue elem x room loose =
      let (ne, at) = last_of-Linked m.nodes null q.front null cs is.chain in
      let found =
        write_ne m.nodes m.brk q.rear (some (node elem null))
          (λ e. absurd (omega (arith, rear_below)))
        ∙ ap m.nodes is.rear_is
        ∙ at in
      rw
        (
          safe_malloc-ok m room,
          load-some (write m.nodes m.brk (some (node elem null))) q.rear _ (rw is.rear_is ne) found,
        )
        (
          omega arith,
          record {
            chain =
                Linked-snoc m.nodes _ null null m.brk elem q.front null cs is.chain
                  (rw is.rear_is (write_self _ _ _))
                  (λ x i d.
                    write_ne _ q.rear x _ (λ e. d (e ∙ is.rear_is))
                    ∙ write_ne m.nodes m.brk x _ (λ e.
                      absurd (omega (arith, has-lt m.brk x ((q.front, null) ∷ cs) i is.below))))
                  nonnull
                  (write_ne _ q.rear m.brk _ (λ e. absurd (omega (arith, rear_below)))
                    ∙ write_self _ _ _)
                  (not-has_of_le m.brk m.brk ((q.front, null) ∷ cs) (omega arith) is.below);
            rear_is = ap (λ c. c.0) (sym (last_of-snoc q.front null cs m.brk elem));
            holds =
                Holds-snoc m.results (m.brk + 1) m.brk elem x cs xs
                  (Holds-frame m.results m.results m.brk (m.brk + 1) cs xs (omega arith)
                    (λ d l i. refl) is.holds)
                  loose.ne_null (omega (arith, loose.below)) loose.at loose.unqueued
                  loose.is_result;
            below =
                Below-snoc (m.brk + 1) m.brk elem ((q.front, null) ∷ cs) (omega arith)
                  (Below-mono m.brk (m.brk + 1) ((q.front, null) ∷ cs) (omega arith) is.below);
          },
        )

-- ===== src/Queue/Taken.antt =====
-- What `getout_queue` and the freeing of a result leave of the results that threads hold.
use mathlib.Core.Path.{subst}
use smart_ac.Base.{
  ◌+◌, ◌<◌, ◌≤◌, ◌≡◌, ◌≢◌, ◌∙◌, false, none, List, [], ◌∷◌, ◌==◌, leb, if◌then◌else◌, Bool-cases,
  inl, inr, arith,
}
use smart_ac.Outcome.{Returns, Whenever, Whenever-of_Returns}
use smart_ac.Queue.{ResultData, Memory, ResultQueue, getout_queue}
use smart_ac.Queue.Getout.{
  getout_queue-nil, getout_queue-cons, getout_queue-IsQueue, getout_queue-full, taken,
}
use smart_ac.Queue.Held.{Held, Held-frame, not-holds_of_le, IsSound, Picked, Held-Picked}
use smart_ac.Queue.Results.{copied}
use smart_ac.Queue.Shape.{IsQueue, IsLoose, Holds-frame}
use smart_ac.Store.{Ptr, null, write, Cells, first}
use smart_ac.Store.Linked.{write_ne}

-- A thread's result is none of the queue's, and lies where nothing new is allocated.
taken-IsLoose :
    (m : Memory) (q : ResultQueue) (p d next : Ptr) (cs : Cells Ptr) (x y : ResultData) (r : Ptr)
    → IsLoose m ((p, d) ∷ cs) r y
    → IsLoose (taken m q p d next x) cs r y
taken-IsLoose m q p d next cs x y r loose = record {
  ne_null = loose.ne_null;
  below = omega (arith, loose.below);
  at =
      write_ne _ d r _ (λ e. ground (arith, loose.unqueued))
      ∙ write_ne _ m.brk r _ (λ e. absurd (omega (arith, loose.below)))
      ∙ write_ne _ m.brk r _ (λ e. absurd (omega (arith, loose.below)))
      ∙ loose.at;
  unqueued = ground (arith, loose.unqueued);
  is_result = loose.is_result;
}

-- The result that was taken out is held as well, where there was one.
abbrev pub with_taken : Ptr → List Ptr → List Ptr
with_taken r rs = if r == null then rs else r ∷ rs

abbrev pub TakenOut : List Ptr → Ptr × ResultQueue × Memory → Type 0
TakenOut rs (r, q, m) = IsSound m q (with_taken r rs)

abbrev Out :
    Cells Ptr → List ResultData → ResultData → Ptr → Memory → Ptr × ResultQueue × Memory → Type 0
Out cs xs x d m (r, q', m') =
    IsLoose m' cs r (copied x)
    × (m'.results d ≡ none)
    × (m'.room + 2 ≡ m.room)
    × IsQueue m' q' cs xs

some-TakenOut :
    (m : Memory) (q : ResultQueue) (p d : Ptr) (cs : Cells Ptr) (x : ResultData)
    (xs : List ResultData) (rs : List Ptr)
    → IsQueue m q ((p, d) ∷ cs) (x ∷ xs)
    → Held m ((p, d) ∷ cs) rs
    → 2 ≤ m.room
    → Returns (TakenOut rs) (getout_queue q m)
some-TakenOut m q p d cs x xs rs queue held room =
    let e = getout_queue-cons m q p d cs x xs queue room in
    let (loose, _, _, queue') =
      subst (λ o. Returns (Out cs xs x d m) o) e
        (getout_queue-IsQueue m q p d cs x xs queue room) in
    let fresh : (m.brk == null) ≡ false = ground (arith, queue.below.0) in
    rw (e, fresh)
      (record {
        cells = cs;
        results = xs;
        queue = queue';
        held = (
          (copied x, loose),
          not-holds_of_le m ((p, d) ∷ cs) rs m.brk (omega arith) held,
          Held-frame m (taken m q p d (first null cs) x) ((p, d) ∷ cs) cs rs
              (λ r y i mine. taken-IsLoose m q p d (first null cs) cs x y r mine) held,
        );
      })

pub getout_queue-TakenOut :
    (m : Memory) (q : ResultQueue) (rs : List Ptr)
    → IsSound m q rs
    → 2 ≤ m.room
    → Returns (TakenOut rs) (getout_queue q m)
getout_queue-TakenOut m q rs is room = cases is.cells is.results is.queue is.held
  where
    cases :
        (cs : Cells Ptr) (xs : List ResultData)
        → IsQueue m q cs xs
        → Held m cs rs
        → Returns (TakenOut rs) (getout_queue q m)
    cases [] xs queue held =
        rw (getout_queue-nil m q xs queue)
          (record { cells = []; results = xs; queue = queue; held = held })
    cases (c ∷ cs) [] queue held = elim queue.holds [ ]
    cases ((p, d) ∷ cs) (x ∷ xs) queue held = some-TakenOut m q p d cs x xs rs queue held room

-- With any memory: where there is none, the process ends.
pub getout_queue-Whenever :
    (m : Memory) (q : ResultQueue) (rs : List Ptr)
    → IsSound m q rs
    → Whenever (TakenOut rs) (getout_queue q m)
getout_queue-Whenever m q rs is = elim (Bool-cases (leb 2 m.room)) [
  | inl e ↦
      Whenever-of_Returns (TakenOut rs) (getout_queue q m)
        (getout_queue-TakenOut m q rs is (ground arith))
  | inr e ↦ few (ground arith) is.cells is.results is.queue is.held
]
  where
    few :
        m.room < 2
        → (cs : Cells Ptr) (xs : List ResultData) → IsQueue m q cs xs
        → Held m cs rs
        → Whenever (TakenOut rs) (getout_queue q m)
    few h [] xs queue held =
        rw (getout_queue-nil m q xs queue)
          (record { cells = []; results = xs; queue = queue; held = held })
    few h (c ∷ cs) [] queue held = elim queue.holds [ ]
    few h ((p, d) ∷ cs) (x ∷ xs) queue held = rw (getout_queue-full m q p d cs x xs queue h) tt

-- Freeing one of the results that are held leaves the queue and the others.
pub freed-IsSound :
    {r : Ptr} {rs ts : List Ptr} (m : Memory) (q : ResultQueue)
    → Picked r rs ts
    → IsSound m q rs
    → IsSound (record m { results = write m.results r none }) q ts
freed-IsSound {r} {ts} m q p is =
    let (mine, apart, rest) = Held-Picked m is.cells p is.held in
    let spared = λ (a : Ptr) (ne : a ≢ r). write_ne m.results r a none ne in
    record {
      cells = is.cells;
      results = is.results;
      queue = record {
        chain = is.queue.chain;
        rear_is = is.queue.rear_is;
        holds =
            Holds-frame m.results _ m.brk m.brk is.cells is.results (omega arith)
              (λ a lt i. spared a (λ e. cc (e, i, mine.1.unqueued))) is.queue.holds;
        below = is.queue.below;
      };
      held =
          Held-frame m _ is.cells is.cells ts
            (λ a x i loose. record {
              ne_null = loose.ne_null;
              below = loose.below;
              at = spared a (λ e. cc (e, i, apart)) ∙ loose.at;
              unqueued = loose.unqueued;
              is_result = loose.is_result;
            })
            rest;
    }

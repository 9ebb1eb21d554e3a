-- ===== src/Queue/Held.antt =====
-- Results that were taken out of the queue and are not freed yet, each held by a thread.
use smart_ac.Base.{◌≤◌, ◌≡◌, refl, Bool, true, false, ◌||◌, List, [], ◌∷◌, ◌==◌, arith}
use smart_ac.Queue.{ResultData, Memory, ResultQueue}
use smart_ac.Queue.Shape.{IsQueue, IsLoose}
use smart_ac.Store.{Ptr, Cells}

abbrev pub holds : Ptr → List Ptr → Bool
holds a [] = false
holds a (r ∷ rs) = a == r || holds a rs

-- Each thread holds a result of its own.
abbrev pub Held : Memory → Cells Ptr → List Ptr → Type 0
Held m cs [] = Unit
Held m cs (r ∷ rs) = ((x : ResultData) × IsLoose m cs r x) × (holds r rs ≡ false) × Held m cs rs

-- The results that are held survive what spares each of them.
pub Held-frame :
    (m m' : Memory) (cs cs' : Cells Ptr) (rs : List Ptr)
    → ((r : Ptr) (x : ResultData) → holds r rs ≡ true → IsLoose m cs r x → IsLoose m' cs' r x)
    → Held m cs rs
    → Held m' cs' rs
Held-frame m m' cs cs' [] keep h = tt
Held-frame m m' cs cs' (r ∷ rs) keep ((x, loose), new, h) = (
  (x, keep r x (ground arith) loose),
  new,
  Held-frame m m' cs cs' rs (λ a y i. keep a y (ground arith)) h,
)

pub not-holds_of_le :
    (m : Memory) (cs : Cells Ptr) (rs : List Ptr) (a : Ptr)
    → m.brk ≤ a
    → Held m cs rs
    → holds a rs ≡ false
not-holds_of_le m cs [] a le h = refl
not-holds_of_le m cs (r ∷ rs) a le ((x, loose), new, h) =
    ground (arith, loose.below, not-holds_of_le m cs rs a le h)

-- The queue is well formed, and the threads hold results outside it.
pub record IsSound (m : Memory) (q : ResultQueue) (rs : List Ptr) : Type 0 where
  pub cells : Cells Ptr
  pub results : List ResultData
  pub queue : IsQueue m q cells results
  pub held : Held m cells rs

-- One of the results is let go of.
pub data Picked (r : Ptr) : List Ptr → List Ptr → Type 0 where
  here : {rs : List Ptr} → Picked r (r ∷ rs) rs
  there : {s : Ptr} {rs ts : List Ptr} → Picked r rs ts → Picked r (s ∷ rs) (s ∷ ts)

pub holds-Picked :
    {r : Ptr} {rs ts : List Ptr} → Picked r rs ts → (a : Ptr) → holds a rs ≡ (a == r || holds a ts)
holds-Picked here a = refl
holds-Picked (there p) a = ground (arith, holds-Picked p a)

pub Held-Picked :
    {r : Ptr} {rs ts : List Ptr} (m : Memory) (cs : Cells Ptr)
    → Picked r rs ts
    → Held m cs rs
    → ((x : ResultData) × IsLoose m cs r x) × (holds r ts ≡ false) × Held m cs ts
Held-Picked m cs here h = h
Held-Picked {r} m cs (there {s} {rs} {ts} p) (loose, new, h) =
    let (mine, apart, rest) = Held-Picked m cs p h in
    let split = holds-Picked p s in
    (mine, ground (arith, split, new, apart), (loose, ground (arith, split, new), rest))

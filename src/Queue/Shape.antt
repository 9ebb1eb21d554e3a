-- ===== src/Queue/Shape.antt =====
-- What a well-formed queue is, and what memory outside it cannot disturb.
use smart_ac.Base.{
  ℕ, ◌+◌, ◌≡◌, refl, ◌∙◌, ◌≢◌, ◌≤◌, ◌<◌, Bool, true, false, ◌||◌, some, List, [], ◌∷◌, ◌++◌, ◌==◌,
  arith, length,
}
use smart_ac.Store.{Ptr, null, Store, Cells, Linked}
use smart_ac.Store.Linked.{last_of, Below}
use smart_ac.Queue.{max_cmd_out_buf, ResultData, Memory, ResultQueue}

-- The buffer has the size that the struct says, and a copy of it is no larger.
pub record IsResult (x : ResultData) : Type 0 where
  pub sized : length x.result ≡ x.size
  pub bounded : x.size ≤ max_cmd_out_buf + 2

abbrev pub has_data : Ptr → Cells Ptr → Bool
has_data d [] = false
has_data d ((p, e) ∷ cs) = (d == e) || has_data d cs

-- The nodes' `data` pointers lead to the results `xs`, each at its own address.
abbrev pub Holds : Store ResultData → ℕ → Cells Ptr → List ResultData → Type 0
Holds r brk [] [] = Unit
Holds r brk [] (x ∷ xs) = ⊥
Holds r brk (c ∷ cs) [] = ⊥
Holds r brk ((p, d) ∷ cs) (x ∷ xs) =
    (d ≢ null)
    × (d < brk)
    × (r d ≡ some x)
    × (has_data d cs ≡ false)
    × IsResult x
    × Holds r brk cs xs

-- The nodes `cs` behind the sentinel hold the results `xs`, the oldest first.
pub record IsQueue (m : Memory) (q : ResultQueue) (cs : Cells Ptr) (xs : List ResultData)
    : Type 0 where
  pub chain : Linked m.nodes null ((q.front, null) ∷ cs)
  pub rear_is : q.rear ≡ (last_of q.front null cs).0
  pub holds : Holds m.results m.brk cs xs
  pub below : Below m.brk ((q.front, null) ∷ cs)

-- A result that the program holds and that is not in the queue.
pub record IsLoose (m : Memory) (cs : Cells Ptr) (d : Ptr) (x : ResultData) : Type 0 where
  pub ne_null : d ≢ null
  pub below : d < m.brk
  pub at : m.results d ≡ some x
  pub unqueued : has_data d cs ≡ false
  pub is_result : IsResult x

pub not-has_data_of_le :
    (r : Store ResultData) (brk d : ℕ) (cs : Cells Ptr) (xs : List ResultData)
    → brk ≤ d
    → Holds r brk cs xs
    → has_data d cs ≡ false
not-has_data_of_le r brk d [] xs le h = refl
not-has_data_of_le r brk d (c ∷ cs) [] le h = elim h [ ]
not-has_data_of_le r brk d ((p, e) ∷ cs) (x ∷ xs) le (ne, lt, at, out, is, h) =
    ground (arith, not-has_data_of_le r brk d cs xs le h)

pub has_data-snoc :
    (e p d : Ptr) (cs : Cells Ptr) → has_data e (cs ++ (p, d) ∷ []) ≡ (has_data e cs || e == d)
has_data-snoc e p d [] = ground arith
has_data-snoc e p d ((q, f) ∷ cs) = ground (arith, has_data-snoc e p d cs)

pub Holds-snoc :
    (r : Store ResultData) (brk : ℕ) (p d : Ptr) (x : ResultData) (cs : Cells Ptr)
    (xs : List ResultData)
    → Holds r brk cs xs
    → d ≢ null
    → d < brk
    → r d ≡ some x
    → has_data d cs ≡ false
    → IsResult x
    → Holds r brk (cs ++ (p, d) ∷ []) (xs ++ x ∷ [])
Holds-snoc r brk p d x [] [] h ne lt at out is = (ne, lt, at, refl, is, tt)
Holds-snoc r brk p d x [] (y ∷ ys) h ne lt at out is = elim h [ ]
Holds-snoc r brk p d x (c ∷ cs) [] h ne lt at out is = elim h [ ]
Holds-snoc r brk p d x ((q, e) ∷ cs) (y ∷ ys) (ne', lt', at', out', is', h) ne lt at out is = (
  ne',
  lt',
  at',
  rw has_data-snoc (ground arith),
  is',
  Holds-snoc r brk p d x cs ys h ne lt at (ground arith) is,
)

-- Results survive any change that spares their addresses.
pub Holds-frame :
    (r r' : Store ResultData) (brk brk' : ℕ) (cs : Cells Ptr) (xs : List ResultData)
    → brk ≤ brk'
    → ((d : Ptr) → d < brk → has_data d cs ≡ true → r' d ≡ r d)
    → Holds r brk cs xs
    → Holds r' brk' cs xs
Holds-frame r r' brk brk' [] [] le same h = tt
Holds-frame r r' brk brk' [] (x ∷ xs) le same h = elim h [ ]
Holds-frame r r' brk brk' (c ∷ cs) [] le same h = elim h [ ]
Holds-frame r r' brk brk' ((p, d) ∷ cs) (x ∷ xs) le same (ne, lt, at, out, ok, h) = (
  ne,
  omega arith,
  same d lt (ground arith) ∙ at,
  out,
  ok,
  Holds-frame r r' brk brk' cs xs le (λ e l i. same e l (ground arith)) h,
)

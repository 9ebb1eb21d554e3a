-- ===== src/Queue/Results.antt =====
-- The allocation of results and the copy of one into another, with their sizes.
use smart_ac.Base.{
  ℕ, ◌+◌, ◌-◌, ◌≡◌, ◌∙◌, ◌≢◌, ◌≤◌, ◌<◌, refl, ◌==◌, Bool-cases, inl, inr, true, some, none, ◌++◌,
  arith, take, drop, replicate, length-append, length-take, length-drop, length-replicate,
}
use smart_ac.Outcome.{ok, exits}
use smart_ac.Store.{Ptr, write}
use smart_ac.Store.Linked.{load-some}
use smart_ac.Queue.{
  ResultData, Memory, safe_malloc, buffer_size, zeroed, cmdresult_malloc, cmdresult_free,
  copy_result,
}
use smart_ac.Queue.Shape.{IsResult}

pub safe_malloc-ok :
    (m : Memory)
    → 0 < m.room
    → safe_malloc m ≡ ok (m.brk, record m { brk = m.brk + 1; room = m.room - 1 })
unfolding safe_malloc
safe_malloc-ok m room = ground arith

pub cmdresult_malloc-ok :
    (n : ℕ) (m : Memory)
    → 2 ≤ m.room
    → cmdresult_malloc n m
      ≡ ok (
        m.brk,
        record m {
          results = write m.results m.brk (some (zeroed (buffer_size n)));
          brk = m.brk + 1 + 1;
          room = m.room - 1 - 1;
        },
      )
unfolding cmdresult_malloc
cmdresult_malloc-ok n m room =
    rw (safe_malloc-ok m (omega arith))
      (rw (safe_malloc-ok (record m { brk = m.brk + 1; room = m.room - 1 }) (omega arith)))

pub safe_malloc-full : (m : Memory) → m.room ≡ 0 → safe_malloc m ≡ exits 1
unfolding safe_malloc
safe_malloc-full m e = rw e refl

pub cmdresult_malloc-full : (n : ℕ) (m : Memory) → m.room < 2 → cmdresult_malloc n m ≡ exits 1
unfolding cmdresult_malloc safe_malloc
cmdresult_malloc-full n m few = elim (Bool-cases (m.room == 0)) [
  | inl e ↦ rw e refl
  | inr e ↦ let one : (m.room - 1 == 0) ≡ true = ground arith in rw (e, one) refl
]

pub zeroed-IsResult : (n : ℕ) → IsResult (zeroed (buffer_size n))
zeroed-IsResult n = record { sized = length-replicate _ 0; bounded = ground arith }

-- What `getout_queue` hands out for the result `d`: the same bytes and `c_size`, in a larger buffer.
abbrev pub copied : ResultData → ResultData
copied d = record {
  result = take d.size d.result ++ drop d.size (zeroed (buffer_size d.size)).result;
  size = buffer_size d.size;
  c_size = d.c_size;
}

-- The copy of a result whose buffer has the size that it says, and no more than the limit, never writes
-- past the buffer that was allocated for it, even where its size was cut.
pub copy_result-ok :
    (d : ResultData) → IsResult d → copy_result (zeroed (buffer_size d.size)) d ≡ ok (copied d)
unfolding copy_result
copy_result-ok d is = ground (arith, is.sized, is.bounded)

pub copied-IsResult : (d : ResultData) → IsResult d → IsResult (copied d)
copied-IsResult d is = record {
  sized =
      length-append (take d.size d.result) _
      ∙ ground (
        arith,
        length-take d.size d.result,
        length-drop {A = ℕ} d.size (replicate (buffer_size d.size) 0),
        length-replicate {A = ℕ} (buffer_size d.size) 0,
        is.sized,
        is.bounded,
      );
  bounded = ground arith;
}

pub cmdresult_free-ok :
    (m : Memory) (p : Ptr) (d : ResultData)
    → p ≢ 0
    → m.results p ≡ some d
    → cmdresult_free p m ≡ ok (record m { results = write m.results p none })
unfolding cmdresult_free
cmdresult_free-ok m p d ne at = rw (load-some m.results p d ne at)

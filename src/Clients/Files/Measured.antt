-- ===== src/Clients/Files/Measured.antt =====
-- What `init_traffic_list` leaves in the heap where it returns 0, whatever is in the file.
use smart_ac.Base.{
  ℕ, zero, suc, ◌+◌, ◌-◌, ◌≤◌, ◌<◌, ◌≡◌, ◌≢◌, refl, sym, ap, ◌∙◌, ◌&&◌, Option, false, none, some,
  List, [], ◌∷◌, ◌++◌, Bytes, ◌==◌, length, arith, replicate,
}
use smart_ac.Clients.{Traffic, Lists, destory_traffic_list}
use smart_ac.Clients.Fields.{Slot, unset, split_line, cut_line}
use smart_ac.Clients.Files.{
  fill_traffic, next_traffic, put_traffic, traffic_loop, init_traffic_list,
}
use smart_ac.Config.Line.{fgets}
use smart_ac.Cstring.Number.{ℤ, pos, negsuc}
use smart_ac.Outcome.{ok, ◌>>=◌, Whenever, Whenever-if, Whenever->>=, Whenever-then, Whenever-mono}
use smart_ac.Store.{Ptr, null, Store, Node, node, write, load, Cells}
use smart_ac.Store.Linked.{last_of, last_of-snoc}
use smart_ac.Store.Allocated.{allocated, load-last}
use smart_ac.Store.Fresh.{Fresh, Fresh-first, Fresh-again, Fresh-snoc}

module _ (old : ℕ) (h0 : Store (Node Traffic)) where
  -- A list that begins at `a` was built, of nodes that were allocated from `old` on; the other heap is
  -- as it was.
  pub record Measured (a : Ptr) (m m' : Lists) : Type 0 where
    pub value : Traffic
    pub cells : Cells Traffic
    pub fresh : Fresh old h0 m'.traffics m'.brk ((a, value) ∷ cells)
    pub others : m'.clients ≡ m.clients
    pub further : m.brk ≤ m'.brk

  -- So it is where 0 is returned.
  abbrev pub Gauged : Ptr → Lists → ℤ × Lists → Type 0
  Gauged a m (ret, m') = ret ≡ pos 0 → Measured a m m'

  Gauged-mono :
      (a : Ptr) (m m' : Lists)
      → m'.clients ≡ m.clients
      → m.brk ≤ m'.brk
      → (done : ℤ × Lists) → Gauged a m' done
      → Gauged a m done
  Gauged-mono a m m' same le (ret, m'') filled e =
      let built = filled e in
      record {
        value = built.value;
        cells = built.cells;
        fresh = built.fresh;
        others = built.others ∙ same;
        further = omega (arith, le, built.further);
      }

  module _ (behind : Bytes) (traffic : Traffic) where
    -- A measurement was put into the node.
    abbrev Put : Ptr → Lists → Lists → Type 0
    Put head m m' =
        (c : Traffic) × (m' ≡ record m { traffics = write m.traffics head (some (node c null)) })

    put_traffic-Put :
        (line : Bytes) (seg : List Slot) (head : Ptr) (m : Lists)
        → Whenever (Put head m) (put_traffic behind traffic line seg head m)
    unfolding put_traffic
    put_traffic-Put line seg head m = Whenever-then (Put head m) (load m.traffics head) _ (λ n.
        Whenever-then (Put head m) (fill_traffic (cut_line behind line) seg n.value) _
          (λ c. (c, refl)))

    next_traffic-last :
        (m : Lists) (a : Ptr) (v : Traffic) (cs : Cells Traffic)
        → Fresh old h0 m.traffics m.brk ((a, v) ∷ cs)
        → next_traffic behind traffic null (last_of a v cs).0 m
          ≡ ok (
            m.brk,
            m.brk,
            record m {
              traffics = allocated m.traffics m.brk traffic (last_of a v cs);
              brk = m.brk + 1;
              room = m.room - 1;
            },
          )
    unfolding next_traffic
    next_traffic-last m a v cs is = rw (load-last m.traffics m.brk a v cs is.linked is.below) refl

    -- No memory for one more node: -1 is returned.
    no_memory :
        (list a : Ptr) (m : Lists)
        → Whenever (Gauged a m) (do m' ← destory_traffic_list list m; ok (negsuc 0, m'))
    no_memory list a m =
        Whenever-then (Gauged a m) (destory_traffic_list list m) _
          (λ m' e. absurd (ground (arith, e)))

    traffic_loop-Gauged :
        (fuel : ℕ) (list pre : Ptr) (seg : List Slot) (s : Bytes) (m : Lists) (a : Ptr)
        (v : Traffic) (cs : Cells Traffic)
        → pre ≡ (last_of a v cs).0
        → Fresh old h0 m.traffics m.brk ((a, v) ∷ cs)
        → Whenever (Gauged a m) (traffic_loop behind traffic fuel list null pre seg s m)
    unfolding traffic_loop
    traffic_loop-Gauged zero list pre seg s m a v cs e is = tt
    traffic_loop-Gauged (suc k) list pre seg [] m a v cs e is =
        λ _. record { value = v; cells = cs; fresh = is; others = refl; further = omega arith }
    traffic_loop-Gauged (suc k) list pre seg (c ∷ s) m a v cs e is =
        let (line, rest) = fgets 1023 (c ∷ s) in
        Whenever-then (Gauged a m) (split_line behind line seg) _ (λ seg'.
          Whenever-if (Gauged a m) (null == null && m.room == 0) _ _ (λ _. no_memory list a m)
            (λ _.
              rw (e, next_traffic-last m a v cs is)
                (Whenever->>=
                  (Put m.brk (record m {
                    traffics = allocated m.traffics m.brk traffic (last_of a v cs);
                    brk = m.brk + 1;
                    room = m.room - 1;
                  }))
                  (Gauged a m) _ _ (put_traffic-Put line seg' m.brk _)
                  (λ m' (c, same). rw same (
                    Whenever-mono (Gauged a _) (Gauged a m) _
                      (traffic_loop-Gauged k list m.brk seg' rest _ a v (cs ++ (m.brk, c) ∷ [])
                        (sym (ap (λ x. x.0) (last_of-snoc a v cs m.brk c)))
                        (Fresh-snoc old h0 m.traffics m.brk a v cs is traffic c))
                      (λ done filled. Gauged-mono a m _ refl (omega arith) done filled))))))

    -- The first line goes into the node that there is.
    traffic_loop-first :
        (fuel : ℕ) (seg : List Slot) (s : Bytes) (m : Lists) (a : Ptr) (v : Traffic)
        → Fresh old h0 m.traffics m.brk ((a, v) ∷ [])
        → Whenever (Gauged a m) (traffic_loop behind traffic fuel a a a seg s m)
    unfolding traffic_loop next_traffic
    traffic_loop-first zero seg s m a v is = tt
    traffic_loop-first (suc k) seg [] m a v is =
        λ _. record { value = v; cells = []; fresh = is; others = refl; further = omega arith }
    traffic_loop-first (suc k) seg (c ∷ s) m a v is =
        let (line, rest) = fgets 1023 (c ∷ s) in
        let given : (a == null) ≡ false = ground (arith, is.linked.0) in
        Whenever-then (Gauged a m) (split_line behind line seg) _ (λ seg'. rw given (
          Whenever->>= (Put a m) (Gauged a m) _ _ (put_traffic-Put line seg' a m) (λ m' (c, same).
            rw same (
              Whenever-mono (Gauged a _) (Gauged a m) _
                (traffic_loop-Gauged k a a seg' rest _ a c [] refl
                  (Fresh-again old h0 m.traffics m.brk a v c is))
                (λ done filled. Gauged-mono a m _ refl (omega arith) done filled)))))

    -- From a node that was allocated from `old` on, where the rest of the heap is as it was.
    pub init_traffic_list-Gauged :
        (list : Ptr) (file : Option Bytes) (m : Lists)
        → list ≢ null
        → old ≤ list
        → list < m.brk
        → ((a : Ptr) → a ≢ list → m.traffics a ≡ h0 a)
        → Whenever (Gauged list m) (init_traffic_list behind traffic list file m)
    unfolding init_traffic_list
    init_traffic_list-Gauged list none m ne le lt same = λ e. absurd (ground (arith, e))
    init_traffic_list-Gauged list (some s) m ne le lt same =
        let given : (list == null) ≡ false = ground (arith, ne) in
        rw given (
          Whenever-then (Gauged list m) (load m.traffics list) _ (λ n.
            Whenever-mono (Gauged list _) (Gauged list m) _
              (traffic_loop-first (length s + 1) (replicate 16 unset) s _ list n.value
                (Fresh-first old h0 m.traffics m.brk list n.value ne le lt same))
              (λ done filled. Gauged-mono list m _ refl (omega arith) done filled)))

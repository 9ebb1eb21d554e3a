-- ===== src/Clients/Files/Traffics/Append.antt =====
-- `next_traffic` and `put_traffic` at the end of a list of measurements.
use smart_ac.Base.{◌+◌, ◌-◌, ◌≡◌, refl, some, List, [], ◌∷◌, ◌++◌, Bytes}
use smart_ac.Clients.{Traffic, Lists}
use smart_ac.Clients.Fields.{Slot, cut_line}
use smart_ac.Clients.Files.{fill_traffic, next_traffic, put_traffic}
use smart_ac.Outcome.{ok}
use smart_ac.Store.{Ptr, null, node, write, Cells, Linked}
use smart_ac.Store.Allocated.{allocated, load-last, load-new, Linked-allocated, Below-allocated}
use smart_ac.Store.Linked.{Below, last_of}

module _ (behind : Bytes) (traffic : Traffic) where
  -- One more node, filled with `c`, behind a list.
  module _ (m : Lists) (a : Ptr) (v : Traffic) (cs : Cells Traffic) (c : Traffic)
      (l : Linked m.traffics null ((a, v) ∷ cs)) (b : Below m.brk ((a, v) ∷ cs)) where
    abbrev last : Ptr × Traffic
    last = last_of a v cs

    unfoldable pub with_next : Lists
    with_next = record m {
      traffics = allocated m.traffics m.brk traffic last;
      brk = m.brk + 1;
      room = m.room - 1;
    }

    unfoldable pub with_measured : Lists
    unfolding with_next
    with_measured = record with_next {
      traffics = write with_next.traffics m.brk (some (node c null));
    }

    pub next_traffic-eq : next_traffic behind traffic null last.0 m ≡ ok (m.brk, m.brk, with_next)
    unfolding next_traffic with_next
    next_traffic-eq = rw (load-last m.traffics m.brk a v cs l b) refl

    pub put_traffic-eq :
        (line : Bytes) (seg : List Slot)
        → fill_traffic (cut_line behind line) seg traffic ≡ ok c
        → put_traffic behind traffic line seg m.brk with_next ≡ ok with_measured
    unfolding put_traffic with_measured with_next
    put_traffic-eq line seg e = rw (load-new m.traffics m.brk a v cs l b traffic, e) refl

    pub with_measured-Linked : Linked with_measured.traffics null ((a, v) ∷ (cs ++ (m.brk, c) ∷ []))
    unfolding with_measured with_next
    with_measured-Linked = Linked-allocated m.traffics m.brk a v cs l b traffic c

    pub with_measured-room : with_measured.room ≡ m.room - 1
    unfolding with_measured with_next
    with_measured-room = refl

    pub with_measured-Below : Below with_measured.brk ((a, v) ∷ (cs ++ (m.brk, c) ∷ []))
    unfolding with_measured with_next
    with_measured-Below = Below-allocated m.brk a v cs b c

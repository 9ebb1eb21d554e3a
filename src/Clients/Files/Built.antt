-- ===== src/Clients/Files/Built.antt =====
-- What `init_client_list` leaves in the heap where it returns 0, whatever is in the file.
use smart_ac.Base.{
  ℕ, zero, suc, ◌+◌, ◌-◌, ◌≤◌, ◌<◌, ◌≡◌, ◌≢◌, refl, sym, ap, ◌∙◌, ◌&&◌, Option, false, none, some,
  List, [], ◌∷◌, ◌++◌, Bytes, ◌==◌, length, arith, replicate,
}
use smart_ac.Clients.{Client, Lists, destory_client_list}
use smart_ac.Clients.Fields.{Slot, unset, split_line, cut_line}
use smart_ac.Clients.Files.{fill_client, next_client, put_client, client_loop, init_client_list}
use smart_ac.Config.Line.{fgets}
use smart_ac.Cstring.Number.{ℤ, pos, negsuc}
use smart_ac.Outcome.{ok, ◌>>=◌, Whenever, Whenever-if, Whenever->>=, Whenever-then, Whenever-mono}
use smart_ac.Store.{Ptr, null, Store, Node, node, write, load, Cells}
use smart_ac.Store.Linked.{last_of, last_of-snoc}
use smart_ac.Store.Allocated.{allocated, load-last}
use smart_ac.Store.Fresh.{Fresh, Fresh-first, Fresh-again, Fresh-snoc}

module _ (old : ℕ) (h0 : Store (Node Client)) where
  -- A list that begins at `a` was built, of nodes that were allocated from `old` on; the other heap is
  -- as it was.
  pub record Built (a : Ptr) (m m' : Lists) : Type 0 where
    pub value : Client
    pub cells : Cells Client
    pub fresh : Fresh old h0 m'.clients m'.brk ((a, value) ∷ cells)
    pub others : m'.traffics ≡ m.traffics
    pub further : m.brk ≤ m'.brk

  -- So it is where 0 is returned.
  abbrev pub Filled : Ptr → Lists → ℤ × Lists → Type 0
  Filled a m (ret, m') = ret ≡ pos 0 → Built a m m'

  Filled-mono :
      (a : Ptr) (m m' : Lists)
      → m'.traffics ≡ m.traffics
      → m.brk ≤ m'.brk
      → (done : ℤ × Lists) → Filled a m' done
      → Filled a m done
  Filled-mono a m m' same le (ret, m'') filled e =
      let built = filled e in
      record {
        value = built.value;
        cells = built.cells;
        fresh = built.fresh;
        others = built.others ∙ same;
        further = omega (arith, le, built.further);
      }

  module _ (behind : Bytes) (client : Client) where
    -- A client was put into the node.
    abbrev Put : Ptr → Lists → Lists → Type 0
    Put head m m' =
        (c : Client) × (m' ≡ record m { clients = write m.clients head (some (node c null)) })

    put_client-Put :
        (line : Bytes) (seg : List Slot) (head : Ptr) (m : Lists)
        → Whenever (Put head m) (put_client behind client line seg head m)
    unfolding put_client
    put_client-Put line seg head m =
        Whenever-then (Put head m) (fill_client (cut_line behind line) seg) _
          (λ c. Whenever-then (Put head m) (load m.clients head) _ (λ n. (c, refl)))

    next_client-last :
        (m : Lists) (a : Ptr) (v : Client) (cs : Cells Client)
        → Fresh old h0 m.clients m.brk ((a, v) ∷ cs)
        → next_client behind client null (last_of a v cs).0 m
          ≡ ok (
            m.brk,
            m.brk,
            record m {
              clients = allocated m.clients m.brk client (last_of a v cs);
              brk = m.brk + 1;
              room = m.room - 1;
            },
          )
    unfolding next_client
    next_client-last m a v cs is = rw (load-last m.clients m.brk a v cs is.linked is.below) refl

    -- No memory for one more node: -1 is returned.
    no_memory :
        (list a : Ptr) (m : Lists)
        → Whenever (Filled a m) (do m' ← destory_client_list list m; ok (negsuc 0, m'))
    no_memory list a m =
        Whenever-then (Filled a m) (destory_client_list list m) _
          (λ m' e. absurd (ground (arith, e)))

    client_loop-Filled :
        (fuel : ℕ) (list pre : Ptr) (seg : List Slot) (s : Bytes) (m : Lists) (a : Ptr) (v : Client)
        (cs : Cells Client)
        → pre ≡ (last_of a v cs).0
        → Fresh old h0 m.clients m.brk ((a, v) ∷ cs)
        → Whenever (Filled a m) (client_loop behind client fuel list null pre seg s m)
    unfolding client_loop
    client_loop-Filled zero list pre seg s m a v cs e is = tt
    client_loop-Filled (suc k) list pre seg [] m a v cs e is =
        λ _. record { value = v; cells = cs; fresh = is; others = refl; further = omega arith }
    client_loop-Filled (suc k) list pre seg (c ∷ s) m a v cs e is =
        let (line, rest) = fgets 511 (c ∷ s) in
        Whenever-then (Filled a m) (split_line behind line seg) _ (λ seg'.
          Whenever-if (Filled a m) (null == null && m.room == 0) _ _ (λ _. no_memory list a m)
            (λ _.
              rw (e, next_client-last m a v cs is)
                (Whenever->>=
                  (Put m.brk (record m {
                    clients = allocated m.clients m.brk client (last_of a v cs);
                    brk = m.brk + 1;
                    room = m.room - 1;
                  }))
                  (Filled a m) _ _ (put_client-Put line seg' m.brk _)
                  (λ m' (c, same). rw same (
                    Whenever-mono (Filled a _) (Filled a m) _
                      (client_loop-Filled k list m.brk seg' rest _ a v (cs ++ (m.brk, c) ∷ [])
                        (sym (ap (λ x. x.0) (last_of-snoc a v cs m.brk c)))
                        (Fresh-snoc old h0 m.clients m.brk a v cs is client c))
                      (λ done filled. Filled-mono a m _ refl (omega arith) done filled))))))

    -- The first line goes into the node that there is.
    client_loop-first :
        (fuel : ℕ) (seg : List Slot) (s : Bytes) (m : Lists) (a : Ptr) (v : Client)
        → Fresh old h0 m.clients m.brk ((a, v) ∷ [])
        → Whenever (Filled a m) (client_loop behind client fuel a a a seg s m)
    unfolding client_loop next_client
    client_loop-first zero seg s m a v is = tt
    client_loop-first (suc k) seg [] m a v is =
        λ _. record { value = v; cells = []; fresh = is; others = refl; further = omega arith }
    client_loop-first (suc k) seg (c ∷ s) m a v is =
        let (line, rest) = fgets 511 (c ∷ s) in
        let given : (a == null) ≡ false = ground (arith, is.linked.0) in
        Whenever-then (Filled a m) (split_line behind line seg) _ (λ seg'. rw given (
          Whenever->>= (Put a m) (Filled a m) _ _ (put_client-Put line seg' a m) (λ m' (c, same).
            rw same (
              Whenever-mono (Filled a _) (Filled a m) _
                (client_loop-Filled k a a seg' rest _ a c [] refl
                  (Fresh-again old h0 m.clients m.brk a v c is))
                (λ done filled. Filled-mono a m _ refl (omega arith) done filled)))))

    -- From a node that was allocated from `old` on, where the rest of the heap is as it was.
    pub init_client_list-Filled :
        (list : Ptr) (file : Option Bytes) (m : Lists)
        → list ≢ null
        → old ≤ list
        → list < m.brk
        → ((a : Ptr) → a ≢ list → m.clients a ≡ h0 a)
        → Whenever (Filled list m) (init_client_list behind client list file m)
    unfolding init_client_list
    init_client_list-Filled list none m ne le lt same = λ e. absurd (ground (arith, e))
    init_client_list-Filled list (some s) m ne le lt same =
        let given : (list == null) ≡ false = ground (arith, ne) in
        rw given (
          Whenever-then (Filled list m) (load m.clients list) _ (λ n.
            Whenever-mono (Filled list _) (Filled list m) _
              (client_loop-first (length s + 1) (replicate 16 unset) s _ list n.value
                (Fresh-first old h0 m.clients m.brk list n.value ne le lt same))
              (λ done filled. Filled-mono list m _ refl (omega arith) done filled)))

-- ===== src/Store/Allocated.antt =====
-- One more node at the end of a linked list: it is allocated, linked to, and filled.
use smart_ac.Base.{ℕ, ◌+◌, ◌≡◌, ◌≢◌, sym, ◌∙◌, true, some, [], ◌∷◌, ◌++◌, arith}
use smart_ac.Outcome.{ok}
use smart_ac.Store.{Ptr, null, Store, Node, node, write, load, Cells, has, Linked}
use smart_ac.Store.Linked.{
  Below, Below-mono, Below-snoc, has-lt, not-has_of_le, last_of, has-last_of, last_of-Linked,
  Linked-snoc, write_self, write_ne, load-some,
}

module _ {V : Type 0} where
  -- The stores up to the link to the new node.
  abbrev pub allocated : Store (Node V) → ℕ → V → Ptr × V → Store (Node V)
  allocated h brk fresh last =
      write (write h brk (some (node fresh null))) last.0 (some (node last.1 brk))

  pub Below-allocated :
      (brk a : ℕ) (v : V) (cs : Cells V)
      → Below brk ((a, v) ∷ cs)
      → (c : V) → Below (brk + 1) ((a, v) ∷ (cs ++ (brk, c) ∷ []))
  Below-allocated brk a v cs b c =
      Below-snoc (brk + 1) brk c ((a, v) ∷ cs) (omega arith)
        (Below-mono brk (brk + 1) ((a, v) ∷ cs) (omega arith) b)

  pub allocated-elsewhere :
      (h : Store (Node V)) (brk a : ℕ) (v : V) (cs : Cells V) (fresh : V) (x : Ptr)
      → x ≢ brk
      → x ≢ (last_of a v cs).0
      → allocated h brk fresh (last_of a v cs) x ≡ h x
  allocated-elsewhere h brk a v cs fresh x ne ne' =
      write_ne _ (last_of a v cs).0 x _ ne' ∙ write_ne _ brk x _ ne

  module _ (h : Store (Node V)) (brk a : ℕ) (v : V) (cs : Cells V) (l : Linked h null ((a, v) ∷ cs))
      (b : Below brk ((a, v) ∷ cs)) where
    brk_ne_null : brk ≢ null
    brk_ne_null = λ e. absurd (omega (arith, b.0))

    brk_ne_last : brk ≢ (last_of a v cs).0
    brk_ne_last = λ e.
        absurd (omega (arith, has-lt brk (last_of a v cs).0 ((a, v) ∷ cs) (has-last_of a v cs) b))

    brk_ne : (x : Ptr) → has x ((a, v) ∷ cs) ≡ true → x ≢ brk
    brk_ne x i = λ e. absurd (omega (arith, has-lt brk x ((a, v) ∷ cs) i b))

    pub load-last : load h (last_of a v cs).0 ≡ ok (node (last_of a v cs).1 null)
    load-last =
        let (ne, here) = last_of-Linked h null a v cs l in load-some h (last_of a v cs).0 _ ne here

    pub load-new :
        (fresh : V) → load (allocated h brk fresh (last_of a v cs)) brk ≡ ok (node fresh null)
    load-new fresh =
        load-some _ brk (node fresh null) brk_ne_null
          (write_ne _ (last_of a v cs).0 brk _ brk_ne_last ∙ write_self _ _ _)

    pub Linked-allocated :
        (fresh c : V)
        → Linked
            (write (allocated h brk fresh (last_of a v cs)) brk (some (node c null)))
            null
            ((a, v) ∷ (cs ++ (brk, c) ∷ []))
    Linked-allocated fresh c =
        Linked-snoc h _ null null brk c a v cs l
          (write_ne _ brk (last_of a v cs).0 _ (λ e. brk_ne_last (sym e)) ∙ write_self _ _ _)
          (λ x i d.
            write_ne _ brk x _ (brk_ne x i)
            ∙ allocated-elsewhere h brk a v cs fresh x (brk_ne x i) d)
          brk_ne_null (write_self _ _ _) (not-has_of_le brk brk ((a, v) ∷ cs) (omega arith) b)

-- ===== src/Store/Fresh.antt =====
-- A linked list whose nodes were all allocated from some address on, in a heap that is otherwise as it
-- was: how it begins, how it grows, and what is left when it is freed.
use smart_ac.Base.{
  ℕ, ◌+◌, ◌≡◌, ◌≢◌, ◌<◌, ◌≤◌, refl, sym, ◌∙◌, ◌⊎◌, ◌||◌, true, false, Bool-cases, inl, inr, none,
  some, [], ◌∷◌, ◌++◌, ◌==◌, length, length-append, arith, if◌then◌else◌,
}
use smart_ac.Store.{Ptr, null, Store, Node, node, write, Cells, has, Linked}
use smart_ac.Store.Allocated.{allocated, Linked-allocated, Below-allocated, allocated-elsewhere}
use smart_ac.Store.Linked.{Below, Below-mono, last_of, has-last_of, write_self, write_ne}

module _ {V : Type 0} where
  has-snoc : (x p : Ptr) (v : V) (cs : Cells V) → has x (cs ++ (p, v) ∷ []) ≡ (has x cs || x == p)
  has-snoc x p v [] = ground arith
  has-snoc x p v ((q, w) ∷ cs) = rw (has-snoc x p v cs) (ground arith)

  in_snoc :
      (x p : Ptr) (v : V) (cs : Cells V)
      → has x (cs ++ (p, v) ∷ []) ≡ true
      → (has x cs ≡ true) ⊎ (x ≡ p)
  in_snoc x p v cs i =
      let either : (has x cs || x == p) ≡ true = sym (has-snoc x p v cs) ∙ i in
      elim (Bool-cases (has x cs)) [ inl e ↦ inl e | inr e ↦ inr (ground (arith, either, e)) ]

  out_of_snoc :
      (x p : Ptr) (v : V) (cs : Cells V)
      → has x (cs ++ (p, v) ∷ []) ≡ false
      → (has x cs ≡ false) × (x ≢ p)
  out_of_snoc x p v cs out =
      let neither : (has x cs || x == p) ≡ false = sym (has-snoc x p v cs) ∙ out in
      ground (arith, neither)

module _ {V : Type 0} (old : ℕ) (h0 : Store (Node V)) where
  pub record Fresh (h : Store (Node V)) (brk : ℕ) (cs : Cells V) : Type 0 where
    pub linked : Linked h null cs
    pub counted : old + length cs ≤ brk
    pub above : (a : Ptr) → has a cs ≡ true → old ≤ a
    pub below : Below brk cs
    pub same : (a : Ptr) → has a cs ≡ false → h a ≡ h0 a

  -- The first node is written.
  pub Fresh-first :
      (h : Store (Node V)) (brk p : ℕ) (v : V)
      → p ≢ null
      → old ≤ p
      → p < brk
      → ((a : Ptr) → a ≢ p → h a ≡ h0 a)
      → Fresh (write h p (some (node v null))) brk ((p, v) ∷ [])
  Fresh-first h brk p v ne le lt same = record {
    linked = (ne, write_self _ _ _, refl, tt);
    counted = omega (arith, le, lt);
    above = λ a i. ground (arith, le);
    below = (lt, tt);
    same =
        λ a out. let other : a ≢ p = ground (arith, out) in write_ne h p a _ other ∙ same a other;
  }

  -- The only node is written anew.
  pub Fresh-again :
      (h : Store (Node V)) (brk p : ℕ) (v w : V)
      → Fresh h brk ((p, v) ∷ [])
      → Fresh (write h p (some (node w null))) brk ((p, w) ∷ [])
  Fresh-again h brk p v w is =
      Fresh-first h brk p w is.linked.0 (is.above p (ground arith)) is.below.0
        (λ a ne. is.same a (ground arith))

  module _ (h : Store (Node V)) (brk a : ℕ) (v : V) (cs : Cells V)
      (is : Fresh h brk ((a, v) ∷ cs)) where
    pub Fresh-snoc :
        (fresh c : V)
        → Fresh
            (write (allocated h brk fresh (last_of a v cs)) brk (some (node c null)))
            (brk + 1)
            ((a, v) ∷ (cs ++ (brk, c) ∷ []))
    Fresh-snoc fresh c = record {
      linked = Linked-allocated h brk a v cs is.linked is.below fresh c;
      counted = omega (arith, is.counted, length-append cs ((brk, c) ∷ []));
      above = λ x i. elim (in_snoc x brk c ((a, v) ∷ cs) i) [
        | inl e ↦ is.above x e
        | inr e ↦ omega (arith, is.counted, e)
      ];
      below = Below-allocated brk a v cs is.below c;
      same = λ x out.
          let (out', ne) = out_of_snoc x brk c ((a, v) ∷ cs) out in
          write_ne _ brk x _ ne
          ∙ allocated-elsewhere h brk a v cs fresh x ne (λ e. cc (has-last_of a v cs, out', e))
          ∙ is.same x out';
    }

  pub Fresh-mono :
      (h : Store (Node V)) (brk brk' : ℕ) (cs : Cells V)
      → brk ≤ brk'
      → Fresh h brk cs
      → Fresh h brk' cs
  Fresh-mono h brk brk' cs le is = record {
    linked = is.linked;
    counted = omega (arith, is.counted);
    above = is.above;
    below = Below-mono brk brk' cs le is.below;
    same = is.same;
  }

  -- When the list is freed, the heap is as it was, where nothing stood from `old` on.
  pub Fresh-freed :
      (h g : Store (Node V)) (brk : ℕ) (cs : Cells V)
      → Fresh h brk cs
      → ((a : Ptr) → old ≤ a → h0 a ≡ none)
      → ((a : Ptr) → g a ≡ (if has a cs then none else h a))
      → (a : Ptr) → g a ≡ h0 a
  Fresh-freed h g brk cs is free freed a = elim (Bool-cases (has a cs)) [
    | inl e ↦ freed a ∙ rw e (sym (free a (is.above a e)))
    | inr e ↦ freed a ∙ rw e (is.same a e)
  ]

-- ===== src/Store/Linked.antt =====
-- Laws of linked lists in a heap: what keeps one intact, how one grows at its end, and what the
-- walks along it find.
use smart_ac.Base.{
  ℕ, zero, suc, ◌+◌, ◌<◌, ◌≡◌, refl, ap, ◌∙◌, ◌≢◌, ◌≤◌, true, false, ◌||◌, Option, some, [], ◌∷◌,
  ◌++◌, arith, ◌==◌, length,
}
use smart_ac.Outcome.{ok}
use smart_ac.Store.{
  Ptr, null, Store, Node, node, write, load, last_node, count_nodes, Cells, has, first, Linked,
}

module _ {A : Type 0} where
  pub write_self : (h : Store A) (p : Ptr) (c : Option A) → write h p c p ≡ c
  unfolding write
  write_self h p c = ground arith

  pub write_ne : (h : Store A) (p a : Ptr) (c : Option A) → a ≢ p → write h p c a ≡ h a
  unfolding write
  write_ne h p a c ne = ground arith

  pub load-some : (h : Store A) (p : Ptr) (a : A) → p ≢ null → h p ≡ some a → load h p ≡ ok a
  unfolding load
  load-some h p a ne at = ground arith

module _ {V : Type 0} where
  pub has-append : (a : Ptr) (xs ys : Cells V) → has a (xs ++ ys) ≡ (has a xs || has a ys)
  has-append a [] ys = refl
  has-append a (x ∷ xs) ys = ground (arith, has-append a xs ys)

  -- The address and the fields of the last node of a list that begins with `(p, v)`.
  abbrev pub last_of : Ptr → V → Cells V → Ptr × V
  last_of p v [] = (p, v)
  last_of p v ((q, w) ∷ cs) = last_of q w cs

  pub has-last_of : (p : Ptr) (v : V) (cs : Cells V) → has (last_of p v cs).0 ((p, v) ∷ cs) ≡ true
  has-last_of p v [] = ground arith
  has-last_of p v ((q, w) ∷ cs) = ground (arith, has-last_of q w cs)

  pub ne_of_has : (a b : Ptr) (cs : Cells V) → has a cs ≡ false → has b cs ≡ true → (a == b) ≡ false
  ne_of_has a b [] out i = cc
  ne_of_has a b ((p, v) ∷ cs) out i = ground (arith, ne_of_has a b cs)

  pub not-has-cons :
      (a p : Ptr) (v : V) (cs : Cells V)
      → has a ((p, v) ∷ cs) ≡ false
      → (a ≢ p) × (has a cs ≡ false)
  not-has-cons a p v cs out = ground arith

  -- Every address lies below `brk`, where the next allocation is made.
  abbrev pub Below : ℕ → Cells V → Type 0
  Below brk [] = Unit
  Below brk ((p, v) ∷ cs) = (p < brk) × Below brk cs

  pub not-has_of_le : (brk p : ℕ) (cs : Cells V) → brk ≤ p → Below brk cs → has p cs ≡ false
  not-has_of_le brk p [] h b = refl
  not-has_of_le brk p ((q, d) ∷ cs) h (lt, b) = ground (arith, not-has_of_le brk p cs h b)

  pub has-lt : (brk p : ℕ) (cs : Cells V) → has p cs ≡ true → Below brk cs → p < brk
  has-lt brk p [] h b = cc
  has-lt brk p ((q, d) ∷ cs) h (lt, b) = ground (arith, has-lt brk p cs)

  pub Below-mono : (brk brk' : ℕ) (cs : Cells V) → brk ≤ brk' → Below brk cs → Below brk' cs
  Below-mono brk brk' [] h b = tt
  Below-mono brk brk' ((p, d) ∷ cs) h (lt, b) = (omega arith, Below-mono brk brk' cs h b)

  pub Below-snoc :
      (brk p : ℕ) (v : V) (cs : Cells V) → p < brk → Below brk cs → Below brk (cs ++ (p, v) ∷ [])
  Below-snoc brk p v [] h b = (h, tt)
  Below-snoc brk p v ((q, w) ∷ cs) h (lt, b) = (lt, Below-snoc brk p v cs h b)

  pub last_of-snoc :
      (a : Ptr) (v : V) (cs : Cells V) (p : Ptr) (w : V) → last_of a v (cs ++ (p, w) ∷ []) ≡ (p, w)
  last_of-snoc a v [] p w = refl
  last_of-snoc a v ((b, u) ∷ cs) p w = last_of-snoc b u cs p w

  module _ (h : Store (Node V)) where
    pub last_of-Linked :
        (stop p : Ptr) (v : V) (cs : Cells V)
        → Linked h stop ((p, v) ∷ cs)
        → let (q, w) = last_of p v cs in (q ≢ null) × (h q ≡ some (node w stop))
    last_of-Linked stop p v [] (ne, at, out, l) = (ne, at)
    last_of-Linked stop p v ((q, w) ∷ cs) (ne, at, out, l) = last_of-Linked stop q w cs l

    pub load-Linked :
        (stop p : Ptr) (v : V) (cs : Cells V)
        → Linked h stop ((p, v) ∷ cs)
        → load h p ≡ ok (node v (first stop cs))
    unfolding load
    load-Linked stop p v cs l = ground arith

    pub last_node-Linked :
        (fuel p : ℕ) (v : V) (cs : Cells V)
        → length cs < fuel
        → Linked h null ((p, v) ∷ cs)
        → last_node fuel h p ≡ ok (last_of p v cs).0
    unfolding last_node
    last_node-Linked zero p v cs f l = absurd (omega arith)
    last_node-Linked (suc k) p v [] f l = rw (load-Linked null p v [] l)
    last_node-Linked (suc k) p v ((q, w) ∷ cs) f l =
        rw (load-Linked null p v ((q, w) ∷ cs) l) (ground (arith, last_node-Linked k q w cs))

    pub count_nodes-Linked :
        (fuel acc : ℕ) (cs : Cells V)
        → length cs < fuel
        → Linked h null cs
        → count_nodes fuel h (first null cs) acc ≡ ok (acc + length cs)
    unfolding count_nodes
    count_nodes-Linked zero acc cs f l = absurd (omega arith)
    count_nodes-Linked (suc k) acc [] f l = ap ok (omega arith)
    count_nodes-Linked (suc k) acc ((p, v) ∷ cs) f l =
        rw (load-Linked null p v cs l)
          (ground (arith, count_nodes-Linked k (suc acc) cs (omega arith) l.3))

    module _ (g : Store (Node V)) where
      -- A list survives any change that spares its own nodes.
      pub Linked-frame :
          (stop : Ptr) (cs : Cells V)
          → ((a : Ptr) → has a cs ≡ true → g a ≡ h a)
          → Linked h stop cs
          → Linked g stop cs
      Linked-frame stop [] same l = tt
      Linked-frame stop ((p, v) ∷ cs) same (ne, at, out, l) = (
        ne,
        same p (ground arith) ∙ at,
        out,
        Linked-frame stop cs (λ a i. same a (ground arith)) l,
      )

      -- The first node is written anew, with the same `next`.
      pub Linked-put :
          (stop p : Ptr) (v w : V) (cs : Cells V)
          → g p ≡ some (node w (first stop cs))
          → ((a : Ptr) → a ≢ p → g a ≡ h a)
          → Linked h stop ((p, v) ∷ cs)
          → Linked g stop ((p, w) ∷ cs)
      Linked-put stop p v w cs at same (ne, _, out, l) =
          (ne, at, out, Linked-frame stop cs (λ a i. same a (λ e. cc (i, out))) l)

      -- A new node `p` behind the last one: only the last node's `next` changes.
      pub Linked-snoc :
          (stop end p : Ptr) (w : V) (a : Ptr) (v : V) (cs : Cells V)
          → Linked h stop ((a, v) ∷ cs)
          → g (last_of a v cs).0 ≡ some (node (last_of a v cs).1 p)
          → ((x : Ptr) → has x ((a, v) ∷ cs) ≡ true → x ≢ (last_of a v cs).0 → g x ≡ h x)
          → p ≢ null
          → g p ≡ some (node w end)
          → has p ((a, v) ∷ cs) ≡ false
          → Linked g end ((a, v) ∷ (cs ++ (p, w) ∷ []))
      Linked-snoc stop end p w a v [] (ne, at, out, l) relinked same pn pat new =
          (ne, relinked, ground arith, (pn, pat, refl, tt))
      Linked-snoc stop end p w a v ((b, u) ∷ cs) (ne, at, out, l) relinked same pn pat new = (
        ne,
        same a (ground arith) (ground (arith, has-last_of b u cs)) ∙ at,
        rw has-append (ground arith),
        Linked-snoc stop end p w b u cs l relinked (λ x i d. same x (ground arith) d) pn pat
            (ground arith),
      )

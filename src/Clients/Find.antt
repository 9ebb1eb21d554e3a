-- ===== src/Clients/Find.antt =====
-- What the searches find, and what the frees leave.
use smart_ac.Base.{
  ◌∙◌, ℕ, zero, suc, ◌<◌, ◌≡◌, refl, Bool, true, false, Option, some, none, [], ◌∷◌, arith, ◌==◌,
  length, if◌then◌else◌,
}
use smart_ac.Clients.{find_node, free_nodes}
use smart_ac.Outcome.{ok, Returns, Returns-mono}
use smart_ac.Store.{Ptr, null, Store, Node, node, write, load, Cells, has, first, Linked}
use smart_ac.Store.Linked.{load-Linked, Linked-frame, write_ne}

module _ {V : Type 0} (test : V → Bool) where
  -- The first node that passes the test.
  abbrev pub first_match : Cells V → Option (Ptr × V)
  first_match [] = none
  first_match ((p, v) ∷ cs) = if test v then some (p, v) else first_match cs

  abbrev pub address : Option (Ptr × V) → Ptr
  address none = null
  address (some (p, v)) = p

  -- On a list in the heap with fewer nodes than the fuel, a search does nothing undefined and returns
  -- the address of the first node that passes the test, or NULL where there is none.
  pub find_node-Linked :
      (h : Store (Node V)) (fuel : ℕ) (cs : Cells V)
      → length cs < fuel
      → Linked h null cs
      → find_node test fuel h (first null cs) ≡ ok (address (first_match cs))
  unfolding find_node
  find_node-Linked h zero cs f l = absurd (omega arith)
  find_node-Linked h (suc k) [] f l = refl
  find_node-Linked h (suc k) ((p, v) ∷ cs) f l =
      rw (load-Linked h null p v cs l) (ground (arith, find_node-Linked h k cs (omega arith) l.3))

module _ {V : Type 0} where
  -- The search's answer can be read: it is a node of the list.
  abbrev pub Loads : Store (Node V) → Option (Ptr × V) → Type 0
  Loads h none = Unit
  Loads h (some (p, v)) = ((p == null) ≡ false) × ((q : Ptr) × (load h p ≡ ok (node v q)))

  Loads-if :
      (h : Store (Node V)) (b : Bool) (o o' : Option (Ptr × V))
      → Loads h o
      → Loads h o'
      → Loads h (if b then o else o')
  Loads-if h true o o' l l' = l
  Loads-if h false o o' l l' = l'

  pub first_match-Linked :
      (test : V → Bool) (h : Store (Node V)) (cs : Cells V)
      → Linked h null cs
      → Loads h (first_match test cs)
  first_match-Linked test h [] l = tt
  first_match-Linked test h ((p, v) ∷ cs) l =
      Loads-if h (test v) (some (p, v)) (first_match test cs)
        (ground (arith, l.0), (first null cs, load-Linked h null p v cs l))
        (first_match-Linked test h cs l.3)

  -- The nodes of the list are free, and the others are as they were.
  abbrev pub Freed : Store (Node V) → Cells V → Store (Node V) → Type 0
  Freed h cs g = (a : Ptr) → g a ≡ (if has a cs then none else h a)

  -- Exactly the nodes of the list are freed.
  pub free_nodes-Linked :
      (h : Store (Node V)) (fuel : ℕ) (cs : Cells V)
      → length cs < fuel
      → Linked h null cs
      → Returns (Freed h cs) (free_nodes fuel h (first null cs))
  unfolding free_nodes
  free_nodes-Linked h zero cs f l = absurd (omega arith)
  free_nodes-Linked h (suc k) [] f l = λ a. refl
  free_nodes-Linked h (suc k) ((p, v) ∷ cs) f l =
      let rest : Linked (write h p none) null cs =
        Linked-frame h _ null cs (λ a i. write_ne h p a none (λ e. cc (i, l.2))) l.3 in
      let some_node : (p == null) ≡ false = ground (arith, l.0) in
      rw (some_node, load-Linked h null p v cs l)
        (Returns-mono (Freed (write h p none) cs) (Freed h ((p, v) ∷ cs)) _
          (free_nodes-Linked (write h p none) k cs (omega arith) rest)
          (λ g same a. same a ∙ unfold write in ground arith))

-- ===== src/PortSort/Visible.antt =====
-- The list of ports that the caller of `addNode` keeps, after any number of calls.
use platform.Common.{ℕ, suc, ◌+◌, ◌≤◌, ◌≡◌, refl, sym, ◌∙◌, ◌≢◌, Option, none, some}
use platform.Common.{List, [], ◌∷◌, ◌++◌, arith, ok, length, get_elem?, set}
use platform.Common.{Bool-cases, true, false, length-set, length-append}
use platform.Common.{get_elem?-set_ne, get_elem?-set_self, get_elem?-append_lt}
use platform.Common.{get_elem?-append_length, inl, inr}
use mathlib.Core.Path.{subst}
use platform.Common.Int.{ℤ, negsuc, ltb_ℤ, unsigned, pos_part, neg_part}
use platform.PortSort.{Heap, creat_node, splice, add_node}
use platform.PortSort.Chain.{Cell, node_of, Chain, Avoids, Apart, Chain-set, Chain-append}
use platform.PortSort.Chain.{Chain-Avoids}
use platform.PortSort.Insert.{insert, visible, splice-Spliced, Spliced}

-- `sort` reaches exactly these cells, at different addresses, and they fit the heap.
pub record IsPortList (h : Heap) (sort : Option ℕ) (cs : List Cell) : Type 0 where
  pub chain : Chain h sort cs
  pub apart : Apart cs
  pub fits : length cs ≤ length h

-- No port is faster than one before it.
abbrev pub Bounded : ℤ → List Cell → Type 0
Bounded top [] = Unit
Bounded top (c ∷ cs) =
    (pos_part c.speed + neg_part top ≤ pos_part top + neg_part c.speed) × Bounded c.speed cs

abbrev pub IsFalling : List Cell → Type 0
IsFalling [] = Unit
IsFalling (c ∷ cs) = Bounded c.speed cs

Avoids-insert :
    (a : ℕ) (m : Cell) (cs : List Cell) → m.place ≢ a → Avoids a cs → Avoids a (insert m cs)
Avoids-insert a m [] ne out = (ne, tt)
Avoids-insert a m (c ∷ cs) ne out = elim (Bool-cases (ltb_ℤ m.speed c.speed)) [
  | inl e ↦ rw e (out.0, Avoids-insert a m cs ne out.1)
  | inr e ↦ rw e (ne, out)
]

Apart-insert : (m : Cell) (cs : List Cell) → Avoids m.place cs → Apart cs → Apart (insert m cs)
Apart-insert m [] out apart = (tt, tt)
Apart-insert m (c ∷ cs) out apart = elim (Bool-cases (ltb_ℤ m.speed c.speed)) [
  | inl e ↦
      rw e
        (Avoids-insert c.place m cs (λ q. out.0 (sym q)) apart.0, Apart-insert m cs out.1 apart.1)
  | inr e ↦ rw e (out, apart)
]

Apart-visible : (m : Cell) (cs : List Cell) → Avoids m.place cs → Apart cs → Apart (visible m cs)
Apart-visible m [] out apart = tt
Apart-visible m (c ∷ cs) out apart = elim (Bool-cases (ltb_ℤ m.speed c.speed)) [
  | inl e ↦
      rw e
        (Avoids-insert c.place m cs (λ q. out.0 (sym q)) apart.0, Apart-insert m cs out.1 apart.1)
  | inr e ↦ rw e apart
]

length-insert : (m : Cell) (cs : List Cell) → length (insert m cs) ≡ suc (length cs)
length-insert m [] = refl
length-insert m (c ∷ cs) = ground (arith, length-insert m cs)

length-visible : (m : Cell) (cs : List Cell) → length (visible m cs) ≤ suc (length cs)
length-visible m [] = omega arith
length-visible m (c ∷ cs) = ground (arith, length-insert m cs)

Bounded-insert :
    (top : ℤ) (m : Cell) (cs : List Cell)
    → (pos_part m.speed + neg_part top ≤ pos_part top + neg_part m.speed)
    → Bounded top cs
    → Bounded top (insert m cs)
Bounded-insert top m [] le b = (le, tt)
Bounded-insert top m (c ∷ cs) le b = ground (arith, Bounded-insert c.speed m cs)

visible-IsFalling : (m : Cell) (cs : List Cell) → IsFalling cs → IsFalling (visible m cs)
visible-IsFalling m [] f = tt
visible-IsFalling m (c ∷ cs) f = ground (arith, Bounded-insert c.speed m cs)

-- The caller's pointer still reaches the old head, so of the new list it sees what stands behind.
Chain-visible :
    (h h' : Heap) (sort first : Option ℕ) (m : Cell) (cs : List Cell)
    → Chain h sort cs
    → Chain h' first (insert m cs)
    → Chain h' sort (visible m cs)
Chain-visible h h' sort first m [] k k' = k
Chain-visible h h' sort first m (c ∷ cs) k k' = elim (Bool-cases (ltb_ℤ m.speed c.speed)) [
  | inl e ↦ rw e (let t = faster e k' in (k.0, t.1, t.2, t.3))
  | inr e ↦ rw e (let t = slower e k' in (k.0, t.3.1, t.3.2, t.3.3))
]
  where
    faster :
        ltb_ℤ m.speed c.speed ≡ true
        → Chain h' first (insert m (c ∷ cs))
        → Chain h' first (c ∷ insert m cs)
    faster e t = subst (λ l. Chain h' first l) {y = c ∷ insert m cs} (rw e refl) t

    slower :
        ltb_ℤ m.speed c.speed ≡ false
        → Chain h' first (insert m (c ∷ cs))
        → Chain h' first (m ∷ c ∷ cs)
    slower e t = subst (λ l. Chain h' first l) {y = m ∷ c ∷ cs} (rw e refl) t

-- The node that `creatNode` makes.
abbrev pub made : Heap → ℤ → ℤ → Cell
made h speed port_id = record { place = length h; speed = speed; port = unsigned 8 port_id }

module _ (h : Heap) (sort : Option ℕ) (cs : List Cell) (speed port_id : ℤ)
    (w : IsPortList h sort cs) where
  abbrev dummy : Cell
  dummy = record { place = suc (length h); speed = negsuc 0; port = 255 }

  abbrev both : Heap
  both = (h ++ node_of (made h speed port_id) none ∷ []) ++ node_of dummy none ∷ []

  abbrev ready : Heap
  ready = set both (suc (length h)) (node_of dummy sort)

  one_more : length (h ++ node_of (made h speed port_id) none ∷ []) ≡ suc (length h)
  one_more = omega (arith, length-append h (node_of (made h speed port_id) none ∷ []))

  length-both : length both ≡ suc (suc (length h))
  length-both = omega (
    arith,
    length-append h (node_of (made h speed port_id) none ∷ []),
    length-append (h ++ node_of (made h speed port_id) none ∷ []) (node_of dummy none ∷ []),
  )

  add_node-splice :
      add_node h sort speed port_id ≡ splice (suc (length h)) ready sort (suc (length h)) (length h)
  unfolding add_node creat_node
  add_node-splice = rw (
    get_elem?-append_length (h ++ node_of (made h speed port_id) none ∷ []) (node_of dummy none) [],
    one_more,
  )

  at_made : get_elem? ready (length h) ≡ some (node_of (made h speed port_id) none)
  at_made =
      get_elem?-set_ne both (suc (length h)) (length h) _ (λ e. absurd (omega arith))
      ∙ get_elem?-append_lt (h ++ node_of (made h speed port_id) none ∷ []) _ (length h)
          (omega (arith, one_more))
      ∙ get_elem?-append_length h _ []

  add_node-Spliced : Spliced ready dummy (made h speed port_id) cs (add_node h sort speed port_id)
  add_node-Spliced = rw add_node-splice (
      splice-Spliced (suc (length h)) ready dummy (made h speed port_id) cs sort none
        (get_elem?-set_self both (suc (length h)) _ (omega (arith, length-both))) at_made
        (omega arith) (omega (arith, w.fits))
        (Chain-set both sort cs _ _ (Chain-Avoids h sort cs (suc (length h)) (omega arith) w.chain)
          (Chain-append _ sort cs _ (Chain-append h sort cs _ w.chain)))
        w.apart (Chain-Avoids h sort cs (length h) (omega arith) w.chain)
        (Chain-Avoids h sort cs (suc (length h)) (omega arith) w.chain))

  -- On a well-formed list addNode returns, and the caller's pointer then reaches a well-formed
  -- list: the old one with the port put behind all faster ports, or the old one unchanged where
  -- it is empty or the port is not slower than the head.
  pub add_node-IsPortList :
      (h' : Heap) × (add_node h sort speed port_id ≡ ok h')
      × IsPortList h' sort (visible (made h speed port_id) cs)
  add_node-IsPortList =
      let s = add_node-Spliced in
      (
        s.heap,
        s.returns,
        record {
          chain = Chain-visible h s.heap sort _ (made h speed port_id) cs w.chain s.chain.3;
          apart =
              Apart-visible (made h speed port_id) cs
                (Chain-Avoids h sort cs (length h) (omega arith) w.chain) w.apart;
          fits = omega (
            arith,
            s.size,
            w.fits,
            length-visible (made h speed port_id) cs,
            length-both,
            length-set both (suc (length h)) (node_of dummy sort),
          );
        },
      )

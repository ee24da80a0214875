-- ===== src/PortSort/Chain.antt =====
-- What a pointer to a list of ports means: the nodes that it reaches, in order.
use platform.Common.{ℕ, ◌≤◌, ◌≡◌, ◌≢◌, Option, none, some, List, [], ◌∷◌, ◌++◌}
use platform.Common.{arith, ◌∙◌, length, get_elem?, set, get_elem?-set_ne, get_elem?-append_lt}
use platform.Common.{sym, get_elem?-lt}
use platform.Common.Int.{ℤ}
use platform.PortSort.{Node, Heap}

-- A node at its address, less its `next`.
pub record Cell : Type 0 where
  pub place : ℕ
  pub speed : ℤ
  pub port : ℕ

abbrev pub node_of : Cell → Option ℕ → Node
node_of c n = record { speed = c.speed; port_number = c.port; next = n }

-- From `p` the heap has these cells, and then NULL.
abbrev pub Chain : Heap → Option ℕ → List Cell → Type 0
Chain h p [] = p ≡ none
Chain h p (c ∷ cs) =
    (p ≡ some c.place) × (n : Option ℕ) × (get_elem? h c.place ≡ some (node_of c n)) × Chain h n cs

-- No cell stands at the address.
abbrev pub Avoids : ℕ → List Cell → Type 0
Avoids a [] = Unit
Avoids a (c ∷ cs) = (c.place ≢ a) × Avoids a cs

-- The cells stand at different addresses.
abbrev pub Apart : List Cell → Type 0
Apart [] = Unit
Apart (c ∷ cs) = Avoids c.place cs × Apart cs

-- A write elsewhere keeps the chain.
pub Chain-set :
    (h : Heap) (p : Option ℕ) (cs : List Cell) (a : ℕ) (v : Node)
    → Avoids a cs
    → Chain h p cs
    → Chain (set h a v) p cs
Chain-set h p [] a v out k = k
Chain-set h p (c ∷ cs) a v out k = (
  k.0,
  k.1,
  get_elem?-set_ne h a c.place v (λ e. out.0 (sym e)) ∙ k.2,
  Chain-set h k.1 cs a v out.1 k.3,
)

-- So does an allocation.
pub Chain-append :
    (h : Heap) (p : Option ℕ) (cs : List Cell) (ys : List Node)
    → Chain h p cs
    → Chain (h ++ ys) p cs
Chain-append h p [] ys k = k
Chain-append h p (c ∷ cs) ys k = (
  k.0,
  k.1,
  get_elem?-append_lt h ys c.place (get_elem?-lt h c.place k.2) ∙ k.2,
  Chain-append h k.1 cs ys k.3,
)

-- An address beyond the heap is not on a chain.
pub Chain-Avoids :
    (h : Heap) (p : Option ℕ) (cs : List Cell) (a : ℕ) → length h ≤ a → Chain h p cs → Avoids a cs
Chain-Avoids h p [] a fresh k = tt
Chain-Avoids h p (c ∷ cs) a fresh k =
    ((λ e. absurd (omega (arith, get_elem?-lt h c.place k.2))), Chain-Avoids h k.1 cs a fresh k.3)

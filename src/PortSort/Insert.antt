-- ===== src/PortSort/Insert.antt =====
-- What `addNode` does to the list that the caller's head pointer reaches.
use platform.Common.{ℕ, zero, suc, ◌<◌, ◌≡◌, refl, sym, ap, ◌∙◌, ◌≢◌, Option, some}
use platform.Common.{List, [], ◌∷◌, arith, Outcome, ok, length, get_elem?, set}
use platform.Common.{if◌then◌else◌, Bool-cases, true, false, length-set}
use platform.Common.{get_elem?-set_ne, get_elem?-set_self, get_elem?-lt}
use platform.Common.{inl, inr}
use platform.Common.Int.{ltb_ℤ}
use platform.PortSort.{Heap, link, splice}
use platform.PortSort.Chain.{Cell, node_of, Chain, Avoids, Apart, Chain-set}

-- Behind every faster port, before the first that is not faster.
abbrev pub insert : Cell → List Cell → List Cell
insert m [] = m ∷ []
insert m (c ∷ cs) = if ltb_ℤ m.speed c.speed then c ∷ insert m cs else m ∷ c ∷ cs

-- The caller's list: a port that is not slower than the head stays outside it.
abbrev pub visible : Cell → List Cell → List Cell
visible m [] = []
visible m (c ∷ cs) = if ltb_ℤ m.speed c.speed then c ∷ insert m cs else c ∷ cs

pub record Spliced (h : Heap) (pre new : Cell) (cs : List Cell) (result : Outcome Heap)
    : Type 0 where
  pub heap : Heap
  pub returns : result ≡ ok heap
  pub size : length heap ≡ length h
  pub chain : Chain heap (some pre.place) (pre ∷ insert new cs)
  pub others :
      (b : ℕ) → b ≢ new.place → b ≢ pre.place → Avoids b cs → get_elem? heap b ≡ get_elem? h b

module _ (h : Heap) (pre new : Cell) (cs : List Cell) (cur other : Option ℕ)
    (at_pre : get_elem? h pre.place ≡ some (node_of pre cur))
    (at_new : get_elem? h new.place ≡ some (node_of new other)) (ne : new.place ≢ pre.place) where
  abbrev linked : Heap
  linked = set (set h new.place (node_of new cur)) pre.place (node_of pre (some new.place))

  still : get_elem? (set h new.place (node_of new cur)) pre.place ≡ some (node_of pre cur)
  still = get_elem?-set_ne h new.place pre.place (node_of new cur) ne ∙ at_pre

  link-ok : link h pre.place new.place ≡ ok linked
  unfolding link
  link-ok = ground (arith, at_pre, at_new, still)

  link-Spliced :
      Chain h cur cs
      → Avoids new.place cs
      → Avoids pre.place cs
      → (insert new cs ≡ new ∷ cs)
      → Spliced h pre new cs (link h pre.place new.place)
  link-Spliced k out_new out_pre front = record {
    heap = linked;
    returns = link-ok;
    size = length-set (set h new.place (node_of new cur)) pre.place _ ∙ length-set h new.place _;
    chain = rw front (
      refl,
      some new.place,
      get_elem?-set_self (set h new.place (node_of new cur)) pre.place _
          (get_elem?-lt (set h new.place (node_of new cur)) pre.place still),
      (
        refl,
        cur,
        get_elem?-set_ne (set h new.place (node_of new cur)) pre.place new.place _ (λ e. ne (sym e))
            ∙ get_elem?-set_self h new.place _ (get_elem?-lt h new.place at_new),
        Chain-set _ cur cs pre.place _ out_pre (Chain-set h cur cs new.place _ out_new k),
      ),
    );
    others = λ b n p out.
        get_elem?-set_ne (set h new.place (node_of new cur)) pre.place b _ (λ e. p (sym e))
        ∙ get_elem?-set_ne h new.place b _ (λ e. n (sym e));
  }

module _ (fuel : ℕ) (h : Heap) (pre new c : Cell) (n other : Option ℕ)
    (at_pre : get_elem? h pre.place ≡ some (node_of pre (some c.place)))
    (at_new : get_elem? h new.place ≡ some (node_of new other))
    (at_c : get_elem? h c.place ≡ some (node_of c n)) where
  splice-slower :
      ltb_ℤ new.speed c.speed ≡ false
      → splice (suc fuel) h (some c.place) pre.place new.place ≡ link h pre.place new.place
  unfolding splice
  splice-slower e = rw (at_c, at_new, e)

  splice-faster :
      ltb_ℤ new.speed c.speed ≡ true
      → splice (suc fuel) h (some c.place) pre.place new.place ≡ splice fuel h n c.place new.place
  unfolding splice
  splice-faster e = rw (at_c, at_new, e, at_pre)

-- One round of the loop in front of what the later rounds do.
Spliced-cons :
    (h : Heap) (pre new c : Cell) (cs : List Cell) (result : Outcome Heap)
    → get_elem? h pre.place ≡ some (node_of pre (some c.place))
    → pre.place ≢ new.place
    → Avoids pre.place (c ∷ cs)
    → ltb_ℤ new.speed c.speed ≡ true
    → Spliced h c new cs result
    → Spliced h pre new (c ∷ cs) result
Spliced-cons h pre new c cs result at_pre ne out e s = record {
  heap = s.heap;
  returns = s.returns;
  size = s.size;
  chain =
      rw e (refl, some c.place, s.others pre.place ne (λ q. out.0 (sym q)) out.1 ∙ at_pre, s.chain);
  others = λ b p q away. s.others b p (λ r. away.0 (sym r)) away.1;
}

pub splice-Spliced :
    (fuel : ℕ) (h : Heap) (pre new : Cell) (cs : List Cell) (cur other : Option ℕ)
    → get_elem? h pre.place ≡ some (node_of pre cur)
    → get_elem? h new.place ≡ some (node_of new other)
    → new.place ≢ pre.place
    → length cs < fuel
    → Chain h cur cs
    → Apart cs
    → Avoids new.place cs
    → Avoids pre.place cs
    → Spliced h pre new cs (splice fuel h cur pre.place new.place)
unfolding splice
splice-Spliced zero h pre new cs cur other at_pre at_new ne room k apart out_new out_pre =
    absurd (omega arith)
splice-Spliced (suc fuel) h pre new [] cur other at_pre at_new ne room k apart out_new out_pre =
    rw k (link-Spliced h pre new [] cur other at_pre at_new ne k tt tt refl)
splice-Spliced (suc fuel) h pre new (c ∷ cs) cur other at_pre at_new ne room k apart out_new
      out_pre =
    rw k.0 (elim (Bool-cases (ltb_ℤ new.speed c.speed)) [
      | inr e ↦
          rw (splice-slower fuel h pre new c k.1 other here at_new k.2 e) (
            link-Spliced h pre new (c ∷ cs) cur other at_pre at_new ne k out_new out_pre
              (rw e refl))
      | inl e ↦ rw (splice-faster fuel h pre new c k.1 other here at_new k.2 e) (
          Spliced-cons h pre new c cs _ here (λ q. ne (sym q)) out_pre e
            (splice-Spliced fuel h c new cs k.1 other k.2 at_new (λ q. out_new.0 (sym q))
              (omega arith) k.3 apart.1 out_new.1 apart.0))
    ])
  where
    here : get_elem? h pre.place ≡ some (node_of pre (some c.place))
    here = at_pre ∙ ap (λ t. some (node_of pre t)) k.0

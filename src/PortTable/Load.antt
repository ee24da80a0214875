-- ===== src/PortTable/Load.antt =====
-- What the table holds after `cJSON_to_struct_array` has read a configuration.
use platform.Common.{ℕ, ◌+◌, ◌≤◌, ◌≡◌, refl, ◌∙◌, Option, none, some, List, [], ◌∷◌, arith}
use platform.Common.{Outcome, ok, length, if◌then◌else◌, Bool-cases, true, inl, inr}
use platform.Common.{lt→ltb, ge→ltb}
use platform.Common.Int.{ℤ, pos, negsuc, eqb_ℤ}
use platform.Double.{Double}
use platform.PortTable.{Entry, Uthash, Item, Current, add, find_weight, find_queue, next_values}
use platform.PortTable.{load_items, c_json_to_struct_array}

module _ (d : Double) where
  open d use {Num, from_int}

  -- An item with all its fields.
  pub record Row : Type 0 where
    pub speed : ℤ
    pub weight : Num
    pub queue_num : ℤ

  abbrev pub item : Row → Item d
  item r = record { speed = some r.speed; weight = some r.weight; queue_num = some r.queue_num }

  abbrev pub items : List Row → List (Item d)
  items [] = []
  items (r ∷ rs) = item r ∷ items rs

  abbrev pub row_for : List Row → ℤ → Option Row
  row_for [] k = none
  row_for (r ∷ rs) k = if eqb_ℤ r.speed k then some r else row_for rs k

  -- No speed is given twice.
  abbrev pub Distinct : List Row → Type 0
  Distinct [] = Unit
  Distinct (r ∷ rs) = (row_for rs r.speed ≡ none) × Distinct rs

  abbrev pub weight_of : Option Row → Num
  weight_of none = from_int (negsuc 0)
  weight_of (some r) = r.weight

  abbrev pub queue_of : Option Row → ℤ
  queue_of none = negsuc 0
  queue_of (some r) = r.queue_num

  length-items : (rs : List Row) → length (items rs) ≡ length rs
  length-items [] = refl
  length-items (r ∷ rs) = omega (arith, length-items rs)

eqb→eq : (a b : ℤ) → eqb_ℤ a b ≡ true → a ≡ b
eqb→eq a b h = ground arith

module _ (d : Double) (u : Uthash d) where
  open d use {Num, from_int}
  open u use {Table, null, add_int, find_int, find_int-null, find_int-add_int}

  abbrev Fresh : Table → List (Row d) → Type 0
  Fresh t [] = Unit
  Fresh t (r ∷ rs) = (find_int t r.speed ≡ none) × Fresh t rs

  Fresh-null : (rs : List (Row d)) → Fresh null rs
  Fresh-null [] = tt
  Fresh-null (r ∷ rs) = (find_int-null r.speed, Fresh-null rs)

  abbrev the_entry : Num → ℤ → Entry d
  the_entry v q = record { value1_weight = v; value2_queue_num = q }

  Fresh-add :
      (t : Table) (k : ℤ) (v : Num) (q : ℤ) (rs : List (Row d))
      → find_int t k ≡ none
      → row_for d rs k ≡ none
      → Fresh t rs
      → Fresh (add d u t k v q) rs
  unfolding add
  Fresh-add t k v q [] new other f = tt
  Fresh-add t k v q (r ∷ rs) new other f = (
    ground (arith, find_int-add_int t k (the_entry v q) r.speed new),
    Fresh-add t k v q rs new (ground arith) f.1,
  )

  abbrev entry_of : Option (Entry d) → Option (Row d) → Option (Entry d)
  entry_of old none = old
  entry_of old (some r) = some (the_entry r.weight r.queue_num)

  found_next :
      (t t' : Table) (r : Row d) (rs : List (Row d)) (k : ℤ)
      → find_int t r.speed ≡ none
      → row_for d rs r.speed ≡ none
      → find_int t' k
        ≡ entry_of (find_int (add d u t r.speed r.weight r.queue_num) k) (row_for d rs k)
      → find_int t' k ≡ entry_of (find_int t k) (row_for d (r ∷ rs) k)
  unfolding add
  found_next t t' r rs k new other e = elim (Bool-cases (eqb_ℤ r.speed k)) [
    | inl same ↦ rw (same) (
        e
        ∙ rw (find_int-add_int t r.speed (the_entry r.weight r.queue_num) k new, same)
            (rw (← eqb→eq r.speed k same, other) refl))
    | inr differ ↦
        rw (differ)
          (e ∙ rw (find_int-add_int t r.speed (the_entry r.weight r.queue_num) k new, differ) refl)
  ]

  record Loaded (t : Table) (rs : List (Row d)) (result : Outcome Table) : Type 0 where
    table : Table
    returns : result ≡ ok table
    finds : (k : ℤ) → find_int table k ≡ entry_of (find_int t k) (row_for d rs k)

  load_items-Loaded :
      (i : ℕ) (rs : List (Row d)) (c : Current d) (t : Table)
      → i + length rs ≤ 3
      → Distinct d rs
      → Fresh t rs
      → Loaded t rs (load_items d u i (items d rs) c t)
  unfolding load_items next_values
  load_items-Loaded i [] c t room apart f = record { table = t; returns = refl; finds = λ k. refl }
  load_items-Loaded i (r ∷ rs) c t room apart f =
      let rest =
        load_items-Loaded (i + 1) rs (next_values d u c (item d r))
          (add d u t r.speed r.weight r.queue_num) (omega arith) apart.1
          (Fresh-add t r.speed r.weight r.queue_num rs f.0 apart.0 f.1) in
      record {
        table = rest.table;
        returns = rw (lt→ltb i 3 (omega arith)) rest.returns;
        finds = λ k. found_next t rest.table r rs k f.0 apart.0 (rest.finds k);
      }

  -- A configuration of at most three complete items with different speeds is read without fault;
  -- then each of its speeds has the weight and the queues of its item, and every other speed -1
  -- for both.
  pub load_finds :
      (rs : List (Row d))
      → length rs ≤ 3
      → Distinct d rs
      → (t : Table) × (c_json_to_struct_array d u (some (items d rs)) null ≡ ok t)
        × ((k : ℤ)
            → (find_weight d u t k ≡ weight_of d (row_for d rs k))
              × (find_queue d u t k ≡ queue_of d (row_for d rs k)))
  unfolding c_json_to_struct_array find_weight find_queue
  load_finds rs room apart =
      let l =
        load_items-Loaded 0 rs
          (record { speed = pos 0; weight = from_int (pos 0); queue_num = pos 0 }) null
          (omega arith) apart (Fresh-null rs) in
      (
        l.table,
        rw (l.returns, ge→ltb 3 (length (items d rs)) (omega (arith, length-items d rs))) refl,
        (λ k. ground (arith, l.finds k, find_int-null k)),
      )

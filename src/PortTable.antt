-- ===== src/PortTable.antt =====
-- The table from a port's speed to its weight and number of queues: src/CaptureDpdk/hash.c, and
-- `cJSON_to_struct_array` of json.c, which fills it. The hash table behind it is uthash and the
-- parser is cJSON, both parameters here: uthash as the record below, cJSON as the items that it
-- returns, a field that is missing being `none`.
pub mod Load
use platform.Common.{ℕ, zero, suc, ◌+◌, ◌≡◌, Option, none, some, List, [], ◌∷◌}
use platform.Common.{Outcome, ok, exited, fault, ◌>>=◌, length, ltb, if◌then◌else◌}
use platform.Common.Int.{ℤ, pos, negsuc, eqb_ℤ}
use platform.Double.{Double}

module _ (d : Double) where
  open d use {Num, from_int}

  -- `Hash` of hash.h, less the handle of uthash.
  pub record Entry : Type 0 where
    pub value1_weight : Num
    pub value2_queue_num : ℤ

  -- HASH_ADD_INT and HASH_FIND_INT. An added key that is not in the table yet is found, and all
  -- other keys are found as before.
  pub record Uthash : Type 1 where
    pub Table : Type 0
    pub null : Table
    pub add_int : Table → ℤ → Entry → Table
    pub find_int : Table → ℤ → Option Entry
    pub find_int-null : (k : ℤ) → find_int null k ≡ none
    pub find_int-add_int :
        (t : Table) (k : ℤ) (e : Entry) (j : ℤ)
        → find_int t k ≡ none
        → find_int (add_int t k e) j ≡ (if eqb_ℤ k j then some e else find_int t j)

  -- One element of the array `port_info` of the configuration.
  pub record Item : Type 0 where
    pub speed : Option ℤ
    pub weight : Option Num
    pub queue_num : Option ℤ

  -- The variables `speed`, `weight` and `queue_num`, which keep their values from item to item.
  pub record Current : Type 0 where
    pub speed : ℤ
    pub weight : Num
    pub queue_num : ℤ

abbrev pub or_else {ℓ} : {A : Type ℓ} → Option A → A → A
or_else none a = a
or_else (some x) a = x

-- The size of `worker` in `dofile`.
abbrev pub worker_size : ℕ
worker_size = 3

module _ (d : Double) (u : Uthash d) where
  open d use {Num, from_int}
  open u use {Table, add_int, find_int}

  unfoldable pub add : Table → ℤ → Num → ℤ → Table
  add t key value1 value2 =
      add_int t key (record { value1_weight = value1; value2_queue_num = value2 })

  unfoldable pub find_weight : Table → ℤ → Num
  find_weight t key = elim (find_int t key) [
    | some s ↦ s.value1_weight
    | none ↦ from_int (negsuc 0)
  ]

  unfoldable pub find_queue : Table → ℤ → ℤ
  find_queue t key = elim (find_int t key) [ some s ↦ s.value2_queue_num | none ↦ negsuc 0 ]

  -- Whether a field of the item is written to `worker[i]`.
  pub writes : Item d → Option (Unit {0})
  writes it = elim it.speed [
    | some s ↦ some tt
    | none ↦ elim it.weight [
      | some w ↦ some tt
      | none ↦ elim it.queue_num [ some q ↦ some tt | none ↦ none ]
    ]
  ]

  unfoldable pub next_values : Current d → Item d → Current d
  next_values c it = record {
    speed = or_else it.speed c.speed;
    weight = or_else it.weight c.weight;
    queue_num = or_else it.queue_num c.queue_num;
  }

  -- The loop over the items from index `i` on.
  unfoldable pub load_items : ℕ → List (Item d) → Current d → Table → Outcome Table
  load_items i [] c t = ok t
  load_items i (it ∷ items) c t =
      let c' = next_values c it in
      let rest = load_items (i + 1) items c' (add t c'.speed c'.weight c'.queue_num) in
      if ltb i worker_size then rest else elim (writes it) [ some x ↦ fault | none ↦ rest ]

  -- `none` for a text that does not parse, or has no `port_info`. The printing after the loop reads
  -- `worker` up to the number of items.
  unfoldable pub c_json_to_struct_array : Option (List (Item d)) → Table → Outcome Table
  c_json_to_struct_array none t = ok t
  c_json_to_struct_array (some items) t = do
    t' ←
        load_items 0 items (record { speed = pos 0; weight = from_int (pos 0); queue_num = pos 0 })
          t
    if ltb worker_size (length items) then fault else ok t'

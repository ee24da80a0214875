-- ===== src/Tests/Values.antt =====
-- Concrete stand-ins for the code outside the repository: `double` by whole numbers, uthash by an
-- association list, and a card whose ports have a given speed.
use platform.Common.{ℕ, ◌+◌, ◌-◌, ◌*◌, ◌/◌, refl, Option, none, some, List, [], ◌∷◌}
use platform.Common.{ltb, leb, if◌then◌else◌}
use platform.Common.Int.{ℤ, pos, negsuc, pos_part, neg_part, eqb_ℤ}
use platform.Double.{Double}
use platform.PortTable.{Entry, Uthash}
use platform.PortTable.Load.{Row}

abbrev pub sub_ℕ : ℕ → ℕ → ℤ
sub_ℕ a b = if leb b a then pos (a - b) else negsuc (b - a - 1)

abbrev pub whole : Double
whole = record {
  Num = ℤ;
  from_int = λ z. z;
  add = λ a b. sub_ℕ (pos_part a + pos_part b) (neg_part a + neg_part b);
  mul = λ a b.
      sub_ℕ (pos_part a * pos_part b + neg_part a * neg_part b)
        (pos_part a * neg_part b + neg_part a * pos_part b);
  div = λ a b. pos (pos_part a / pos_part b);
  to_int = λ z. z;
  to_u16 = λ z. if ltb (pos_part z) 65536 then some (pos_part z) else none;
}

abbrev pub find_pair : List (ℤ × Entry whole) → ℤ → Option (Entry whole)
find_pair [] k = none
find_pair ((j, e) ∷ t) k = if eqb_ℤ j k then some e else find_pair t k

abbrev pub pairs : Uthash whole
pairs = record {
  Table = List (ℤ × Entry whole);
  null = [];
  add_int = λ t k e. (k, e) ∷ t;
  find_int = find_pair;
  find_int-null = λ k. refl;
  find_int-add_int = λ t k e j h. refl;
}

-- Ten gigabit: weight 100 and 4 queues. One gigabit: weight 10 and 1 queue.
abbrev pub rows : List (Row whole)
rows =
    record { speed = pos 10000; weight = pos 100; queue_num = pos 4 }
    ∷ record { speed = pos 1000; weight = pos 10; queue_num = pos 1 }
    ∷ []

abbrev pub ten_gigabit : ℕ → ℕ
ten_gigabit p = 10000

-- ===== src/Tests/PortList.antt =====
-- The list of ports, and the table of weights.
use platform.Common.{◌≡◌, refl, none, some, List, [], ◌∷◌, arith, ok}
use platform.Common.Int.{ℤ, pos}
use platform.PortSort.{Heap, add_node}
use platform.PortSort.Chain.{Cell}
use platform.PortSort.Insert.{visible}
use platform.PortSort.Visible.{IsPortList, made, add_node-IsPortList}
use platform.PortTable.{c_json_to_struct_array, find_weight, find_queue}
use platform.PortTable.Load.{items, Distinct, row_for, weight_of, queue_of, load_finds}
use platform.Tests.Values.{whole, pairs, rows}

abbrev one_node : Heap
one_node = record { speed = pos 1000; port_number = 0; next = none } ∷ []

abbrev one_cell : List Cell
one_cell = record { place = 0; speed = pos 1000; port = 0 } ∷ []

one_cell-IsPortList : IsPortList one_node (some 0) one_cell
one_cell-IsPortList = record {
  chain = (refl, none, refl, refl);
  apart = (tt, tt);
  fits = omega arith;
}

add_node-IsPortList_example :
    (h : Heap) × (add_node one_node (some 0) (pos 100) (pos 1) ≡ ok h)
    × IsPortList h (some 0) (visible (made one_node (pos 100) (pos 1)) one_cell)
add_node-IsPortList_example =
    add_node-IsPortList one_node (some 0) one_cell (pos 100) (pos 1) one_cell-IsPortList

rows-Distinct : Distinct whole rows
rows-Distinct = (refl, (refl, tt))

load_finds_example :
    (t : pairs.Table) × (c_json_to_struct_array whole pairs (some (items whole rows)) [] ≡ ok t)
    × ((k : ℤ)
        → (find_weight whole pairs t k ≡ weight_of whole (row_for whole rows k))
          × (find_queue whole pairs t k ≡ queue_of whole (row_for whole rows k)))
load_finds_example = load_finds whole pairs rows (omega arith) rows-Distinct

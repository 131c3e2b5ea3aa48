-- ===== src/Examples/Fields.antt =====
-- Witness for src/field_iter.rs: an array of one object that holds a number, then a number.
use dsct.Base.{ℕ, suc, ◌≡◌, refl, some, length}
use dsct.Packet.{FieldValue, Range}
use dsct.Fields.{top_level_fields, collect}
use dsct.Fields.Trees.{Tree, Forest, flatten, roots, collect-top_level_fields}

abbrev place : Range
place = record { start = 0; end = 1 }

abbrev number : ℕ → Tree
number n = Tree.leaf 7 (FieldValue.u8 n) refl place

abbrev message : Forest
message =
    Forest.cons
      (Tree.array_of 5 place
        (Forest.cons (Tree.object_of 6 place (Forest.cons (number 1) Forest.nil)) Forest.nil))
      (Forest.cons (number 2) Forest.nil)

collect-top_level_fields_example :
    collect (suc (length (flatten 10 message))) (top_level_fields (flatten 10 message) 10)
    ≡ some (roots 10 message)
collect-top_level_fields_example = collect-top_level_fields message 10

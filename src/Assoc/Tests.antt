-- ===== src/Assoc/Tests.antt =====
-- engines/default/assoc.c: tests of the item table, and the theorems at concrete inputs.
use arcus_memcached.Prelude.{ℕ, ◌≡◌, refl, true, false, Option, none, List, [], ◌∷◌, arith}
use arcus_memcached.Assoc.{
  Item, Assoc, matches, assoc_find, assoc_insert, redistribute, link_item, assoc_expand,
}
use arcus_memcached.Assoc.Chain.{hits}
use arcus_memcached.Assoc.Map.{list_of, Holds}
use arcus_memcached.Assoc.Insert.{
  Represents, put, assoc_find-Represents, assoc_insert-Represents, redistribute-Represents,
}

-- A table of two buckets that expands when it has more than one item.
abbrev small : Assoc
small = record {
  hashsize = 2;
  rootpower = 0;
  rootsize = 1;
  roottabsz = 1;
  prevsize = 0;
  expanding = false;
  exp_bucket = 0;
  exp_tabidx = 0;
  hash_items = 0;
  hash_expansion_limit = 1;
  roottable = λ t b. [];
  infotable = λ b. 0;
}

abbrev empty : ℕ → List ℕ → Option Item
empty hash key = none

abbrev first_item : Item
first_item = record { khash = 3; key = 1 ∷ []; value = 10 }

abbrev second_item : Item
second_item = record { khash = 1; key = 2 ∷ []; value = 20 }

abbrev third_item : Item
third_item = record { khash = 7; key = 3 ∷ []; value = 30 }

abbrev two_items : Assoc
two_items = assoc_insert true true (assoc_insert true true small first_item 3) second_item 1

abbrev three_items : Assoc
three_items = assoc_insert true true two_items third_item 7

abbrev two_known : ℕ → List ℕ → Option Item
two_known = put (put empty first_item) second_item

abbrev three_known : ℕ → List ℕ → Option Item
three_known = put two_known third_item

small-Represents : Represents empty small
unfolding Holds hits list_of
small-Represents = record {
  valid = record {
    shaped = record {
      buckets = ground arith;
      power = refl;
      roots = ground arith;
      doubled = λ f. ground arith;
      at_bucket = λ f. ground arith;
    };
    at_table = λ f. ground arith;
  };
  holds = λ hash key t b. ground arith;
}

fresh_second : put empty first_item 1 (2 ∷ []) ≡ none
unfolding matches
fresh_second = refl

fresh_third : two_known 7 (3 ∷ []) ≡ none
unfolding matches
fresh_third = refl

two_items-Represents : Represents two_known two_items
two_items-Represents =
    assoc_insert-Represents (put empty first_item) true true
      (assoc_insert true true small first_item 3) second_item
      (assoc_insert-Represents empty true true small first_item small-Represents refl) fresh_second

three_items-Represents : Represents three_known three_items
three_items-Represents =
    assoc_insert-Represents two_known true true two_items third_item two_items-Represents
      fresh_third

two_items_expanding : two_items.expanding ≡ true
unfolding assoc_insert link_item redistribute assoc_expand
two_items_expanding = refl

assoc_insert-Represents_example : Represents three_known three_items
assoc_insert-Represents_example =
    assoc_insert-Represents two_known true true two_items third_item two_items-Represents
      fresh_third

assoc_find-Represents_example : assoc_find three_items (1 ∷ []) 3 ≡ three_known 3 (1 ∷ [])
assoc_find-Represents_example =
    assoc_find-Represents three_known three_items (1 ∷ []) 3 three_items-Represents

redistribute-Represents_example : Represents two_known (redistribute two_items)
redistribute-Represents_example =
    redistribute-Represents two_known two_items two_items_expanding two_items-Represents

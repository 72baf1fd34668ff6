-- ===== src/Hashtable/Tests.antt =====
-- Runs of the hash table of hashtable.c, and its theorems at concrete inputs.
use chaconne.Prelude.{
  ℕ, zero, suc, ◌*◌, ◌≡◌, refl, true, List, [], ◌∷◌, Option, none, some, arith, ◌==◌, length,
}
use chaconne.Hashtable.{
  Attr, Table, Freed, no_node, get, find, grow, hashtable_set, delete, clear, destroy, travel,
}
use chaconne.Hashtable.Chains.{IsKeyed}
use chaconne.Hashtable.Buckets.{IsNode, node_at, total}
use chaconne.Hashtable.Map.{IsHashtable, Updated, hashtable_set-Updated, delete-Updated}
use chaconne.Hashtable.Whole.{grow-get, released, destroy-released}

-- Numbers as keys and values.
abbrev attr : Attr ℕ ℕ
attr = record {
  key_is_ptr = true;
  value_is_ptr = true;
  key_size = 0;
  value_size = 0;
  callbacks_set = true;
  hash = λ k. k;
  compare = λ k q. k == q;
  same = λ v w. v == w;
  frees_key = true;
  frees_value = true;
}

attr-IsKeyed : IsKeyed attr
attr-IsKeyed = record {
  compare_refl = λ k. ground arith;
  compare_symm = λ k q. ground arith;
  compare_trans = λ k q r h g. ground arith;
  hash_congr = λ k q h. ground arith;
}

-- A table of two buckets with 50 under 5.
abbrev small : Table ℕ ℕ
small = record {
  nodes =
      no_node ∷ record { count = 1; elems = record { hash = 5; key = 5; value = 50 } ∷ [] } ∷ [];
  count = 1;
  factor = 80;
}

small-IsNode : (i : ℕ) → IsNode attr attr-IsKeyed 2 i (node_at small.nodes i)
unfolding node_at find
small-IsNode zero = record { counted = omega arith; placed = tt; distinct = tt }
small-IsNode (suc zero) = record {
  counted = omega arith;
  placed = (refl, refl, tt);
  distinct = (refl, tt);
}
small-IsNode (suc (suc i)) = record { counted = omega arith; placed = tt; distinct = tt }

small-IsHashtable : IsHashtable attr attr-IsKeyed small
unfolding total
small-IsHashtable = record {
  table = record { some_bucket = omega arith; nodes = small-IsNode };
  counted = refl;
}

abbrev Seen : Type 0
Seen = Option (Option ℕ) × Option (Option ℕ) × ℕ × List (Freed ℕ ℕ)

abbrev after_set : Option Seen
after_set = elim (hashtable_set attr small 7 70) [
  | none ↦ none
  | some (h, freed) ↦ some (get attr h 7, get attr h 5, length h.nodes, freed)
]

-- A second element makes the table grow, and both keys are found.
set_grows : after_set ≡ some (some (some 70), some (some 50), 4, [])
unfolding hashtable_set get
set_grows = refl

hashtable_set-Updated_example :
    (g : Table ℕ ℕ) × (fs : List (Freed ℕ ℕ)) × (hashtable_set attr small 7 70 ≡ some (g, fs))
    × Updated attr attr-IsKeyed small 7 (some 70) g
hashtable_set-Updated_example = hashtable_set-Updated attr attr-IsKeyed small 7 70 small-IsHashtable

delete-Updated_example :
    (g : Table ℕ ℕ) × (fs : List (Freed ℕ ℕ)) × (delete attr small 5 ≡ some (g, fs))
    × Updated attr attr-IsKeyed small 5 none g
delete-Updated_example = delete-Updated attr attr-IsKeyed small 5 small-IsHashtable

grow-get_example :
    IsHashtable attr attr-IsKeyed (grow attr small)
    × (length (grow attr small).nodes ≡ 2 * 2)
    × ((q : ℕ) → get attr (grow attr small) q ≡ get attr small q)
grow-get_example = grow-get attr attr-IsKeyed small small-IsHashtable

destroy-released_example :
    (destroy attr small ≡ released attr attr-IsKeyed (travel small.nodes))
    × ((clear attr small).1 ≡ released attr attr-IsKeyed (travel small.nodes))
destroy-released_example = destroy-released attr attr-IsKeyed small

-- ===== src/Heap/Tests.antt =====
-- Runs of the heap of heap.c, and its theorems at concrete inputs.
use chaconne.Prelude.{
  ℕ, zero, suc, ◌+◌, ◌<◌, ◌≡◌, ◌⊎◌, refl, Bool, true, false, [], ◌∷◌, none, some, arith, ltb,
  get_or,
}
use chaconne.Heap.{Heap, heap_insert, heap_extract, heap_update, heap_top, heap_index}
use chaconne.Heap.Order.{IsOrder, IsOrdered, IsHeap, Below, tally}
use chaconne.Heap.Operations.{
  mark, changed, heap_insert-Inserted, heap_extract-Extracted, heap_update-Updated,
}

abbrev more : ℕ → ℕ → Bool
more a b = ltb b a

more-IsOrder : IsOrder more
more-IsOrder = record { asymm = λ a b h. ground arith; trans = λ a b c h g. ground arith }

abbrev three : Heap ℕ
three = record {
  alloc = 4;
  count = 3;
  arr = λ i. get_or (1 ∷ 5 ∷ 2 ∷ []) i 9;
  greater = more;
  updates = true;
  calls = [];
}

three-IsOrdered : IsOrdered three
three-IsOrdered zero a b = absurd (omega arith)
three-IsOrdered (suc zero) a b = refl
three-IsOrdered (suc (suc zero)) a b = refl
three-IsOrdered (suc (suc (suc c))) a b = absurd (omega arith)

three-IsHeap : IsHeap three
three-IsHeap = record { fits = omega arith; order = more-IsOrder; ordered = three-IsOrdered }

-- A new least element rises to the top; the callback is told the old place of each element.
insert_top : heap_top (heap_insert three 0).0 ≡ some 0
unfolding heap_insert heap_top
insert_top = refl

insert_calls : (heap_insert three 0).0.calls ≡ (5, 1) ∷ (0, 3) ∷ (1, 0) ∷ (0, 1) ∷ []
unfolding heap_insert
insert_calls = refl

extract_next : heap_top (heap_extract three).0 ≡ some 2
unfolding heap_extract heap_top
extract_next = refl

update_sinks : heap_index (heap_update (changed three 0 7) 0) 2 ≡ some 7
unfolding heap_update heap_index
update_sinks = refl

heap_insert-Inserted_example :
    (three.count ≡ three.alloc) × (heap_insert three 4 ≡ (three, false))
    ⊎ ((heap_insert three 4).1 ≡ true)
      × IsHeap (heap_insert three 4).0
      × ((heap_insert three 4).0.count ≡ three.count + 1)
      × ((p : ℕ → Bool)
          → tally p (heap_insert three 4).0.arr (heap_insert three 4).0.count
            ≡ tally p three.arr three.count + mark p 4)
heap_insert-Inserted_example = heap_insert-Inserted three 4 three-IsHeap

heap_extract-Extracted_example :
    (three.count ≡ 0) × (heap_extract three ≡ (three, none))
    ⊎ ((heap_extract three).1 ≡ some (three.arr 0))
      × ((i : ℕ) → 0 < i → i < three.count → Below three 0 i)
      × IsHeap (heap_extract three).0
      × ((heap_extract three).0.count + 1 ≡ three.count)
      × ((p : ℕ → Bool)
          → tally p (heap_extract three).0.arr (heap_extract three).0.count + mark p (three.arr 0)
            ≡ tally p three.arr three.count)
heap_extract-Extracted_example = heap_extract-Extracted three three-IsHeap

heap_update-Updated_example :
    IsHeap (heap_update (changed three 0 7) 0)
    × ((heap_update (changed three 0 7) 0).count ≡ three.count)
    × ((p : ℕ → Bool)
        → tally p (heap_update (changed three 0 7) 0).arr (heap_update (changed three 0 7) 0).count
            + mark p (three.arr 0)
          ≡ tally p three.arr three.count + mark p 7)
heap_update-Updated_example = heap_update-Updated three 0 7 three-IsHeap (omega arith)

-- ===== src/Heap.antt =====
-- heap.c: a binary heap in an array, with the two callbacks as parameters.
pub mod Order
pub mod Up
pub mod Down
pub mod Operations
mod Tests
use chaconne.Prelude.{
  ℕ, zero, suc, ◌+◌, ◌-◌, ◌*◌, ◌/◌, Bool, true, false, not, ◌&&◌, List, [], ◌∷◌, ◌++◌, Option, none,
  some, ltb, leb, ◌==◌, if◌then◌else◌,
}

-- `struct heap`. The array is a function from places to elements, whatever the bytes behind the
-- count are. `greater a b` is whether the comparison gives more than 0, `updates` whether the update
-- callback is set, and `calls` what it was called with, the element and the place that it is told.
pub record Heap {ℓ} (A : Type ℓ) : Type ℓ where
  pub alloc : ℕ
  pub count : ℕ
  pub arr : ℕ → A
  pub greater : A → A → Bool
  pub updates : Bool
  pub calls : List (A × ℕ)

abbrev pub left : ℕ → ℕ
left i = i * 2 + 1

abbrev pub right : ℕ → ℕ
right i = i * 2 + 2

abbrev pub parent : ℕ → ℕ
parent i = (i - 1) / 2

module _ {ℓ} {A : Type ℓ} where
  abbrev pub write : (ℕ → A) → ℕ → A → ℕ → A
  write arr i v j = if j == i then v else arr j

  -- `compare_set` is whether a comparison is given, and the two memories tell whether the calls of
  -- `calloc` and `malloc` succeed; `arr` is what the memory holds.
  pub heap_create : Bool → Bool → Bool → ℕ → (ℕ → A) → (A → A → Bool) → Bool → Option (Heap A)
  heap_create compare_set heap_memory array_memory alloc arr greater updates =
      if compare_set && heap_memory && array_memory
      then some (record {
        alloc = alloc;
        count = 0;
        arr = arr;
        greater = greater;
        updates = updates;
        calls = [];
      })
      else none

  -- The elements at two places change places, and the callback is told of both.
  pub exchange : Heap A → ℕ → ℕ → Heap A
  exchange h i m = record h {
    arr = write (write h.arr m (h.arr i)) i (h.arr m);
    calls = if h.updates then h.calls ++ (h.arr m, m) ∷ (h.arr i, i) ∷ [] else h.calls;
  }

  -- The place that the round of `heapify` at `i` goes on from.
  pub least_child : Heap A → ℕ → ℕ
  least_child h i =
      let m = if ltb (left i) h.count && h.greater (h.arr i) (h.arr (left i)) then left i else i in
      if ltb (right i) h.count && h.greater (h.arr m) (h.arr (right i)) then right i else m

  -- The loop of `heapify`, with rounds for fuel.
  pub heapify_loop : ℕ → Heap A → ℕ → Heap A
  unfolding least_child exchange
  heapify_loop zero h i = h
  heapify_loop (suc n) h i =
      let m = least_child h i in
      let rest = heapify_loop n (exchange h i m) m in
      if ltb i h.count then (if i == m then h else rest) else h

  -- Each round goes on from a greater place below the count.
  pub heapify : Heap A → ℕ → Heap A
  unfolding heapify_loop
  heapify h pos = heapify_loop (h.count + 1) h pos

  -- The element, or `none` for -ENOENT.
  pub heap_extract : Heap A → Heap A × Option A
  unfolding heapify
  heap_extract h =
      if h.count == 0
      then (h, none)
      else (let n = h.count - 1 in
          (heapify (record h { count = n; arr = write h.arr 0 (h.arr n) }) 0, some (h.arr 0)))

  -- The loop of `heap_update_key`, with rounds for fuel.
  pub update_key_loop : ℕ → Heap A → ℕ → Heap A
  unfolding exchange
  update_key_loop zero h i = h
  update_key_loop (suc n) h i =
      let p = parent i in
      let rest = update_key_loop n (exchange h i p) p in
      if ltb 0 i then (if h.greater (h.arr p) (h.arr i) then rest else h) else h

  -- Each round goes on from a smaller place.
  pub heap_update_key : Heap A → ℕ → Heap A
  unfolding update_key_loop
  heap_update_key h pos = update_key_loop (pos + 1) h pos

  pub heap_update : Heap A → ℕ → Heap A
  unfolding heap_update_key heapify
  heap_update h pos = heapify (heap_update_key h pos) pos

  -- `false` is -ENOMEM.
  pub heap_insert : Heap A → A → Heap A × Bool
  unfolding heap_update_key
  heap_insert h elem =
      if h.count == h.alloc
      then (h, false)
      else (let i = h.count in
          (heap_update_key (record h { count = i + 1; arr = write h.arr i elem }) i, true))

  pub heap_empty : Heap A → Bool
  heap_empty h = h.count == 0

  pub heap_top : Heap A → Option A
  heap_top h = if h.count == 0 then none else some (h.arr 0)

  pub heap_len : Heap A → ℕ
  heap_len h = h.count

  pub heap_index : Heap A → ℕ → Option A
  heap_index h index = if leb h.count index then none else some (h.arr index)

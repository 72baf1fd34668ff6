-- ===== src/Heap/Operations.antt =====
-- The operations of heap.c keep a heap in order, and account for every element.
use mathlib.Core.Path.{subst}
use chaconne.Prelude.{
  ℕ, zero, suc, ◌+◌, ◌-◌, ◌≤◌, ◌<◌, ◌≡◌, ◌⊎◌, refl, ap, sym, ◌∙◌, Bool, true, false, none, some,
  arith, ◌==◌, if◌then◌else◌, Bool-cases, inl, inr,
}
use chaconne.Heap.{Heap, parent, write, heap_update_key, heap_update, heap_insert, heap_extract}
use chaconne.Heap.Order.{
  IsOrder, Below, IsOrdered, IsHeap, tally, tally_beyond, tally-write, Keeps-trans, Sifted,
}
use chaconne.Heap.Up.{IsLoose, IsHigh, heap_update_key-Sifted, heap_update_key-loose}
use chaconne.Heap.Down.{IsLow, heapify-Sifted}

module _ {ℓ} {A : Type ℓ} where
  -- One for an element that passes a test.
  abbrev pub mark : (A → Bool) → A → ℕ
  mark p x = if p x then 1 else 0

  Sifted-IsHeap : (h g : Heap A) → h.count ≤ h.alloc → IsOrder h.greater → Sifted h g → IsHeap g
  Sifted-IsHeap h g fits order s = record {
    fits = omega (arith, s.1.alloc, s.1.count);
    order = subst IsOrder (sym s.1.greater) order;
    ordered = s.0;
  }

  abbrev appended : Heap A → A → Heap A
  appended h x = record h { count = h.count + 1; arr = write h.arr h.count x }

  appended-IsHigh : (h : Heap A) (x : A) → IsHeap h → IsHigh (appended h x) h.count
  appended-IsHigh h x k = record {
    loose = record {
      inside = omega arith;
      order = k.order;
      edges = λ c a b n e. ground (arith, k.ordered c a);
      bridged = λ c a b e q. absurd (omega arith);
    };
    children = λ c a b e. absurd (omega arith);
  }

  tally_next :
      (p : A → Bool) (arr : ℕ → A) (n : ℕ) → tally p arr (n + 1) ≡ tally p arr n + mark p (arr n)
  unfolding tally
  tally_next p arr n = let e : n + 1 ≡ suc n = omega arith in ap (tally p arr) e

  -- On a heap in order: a full heap is left alone, with an error; any other has the element among
  -- its elements then, beside those that it had, and stays in order.
  pub heap_insert-Inserted :
      (h : Heap A) (x : A)
      → IsHeap h
      → (h.count ≡ h.alloc) × (heap_insert h x ≡ (h, false))
        ⊎ ((heap_insert h x).1 ≡ true)
          × IsHeap (heap_insert h x).0
          × ((heap_insert h x).0.count ≡ h.count + 1)
          × ((p : A → Bool)
              → tally p (heap_insert h x).0.arr (heap_insert h x).0.count
                ≡ tally p h.arr h.count + mark p x)
  heap_insert-Inserted h x k = elim (Bool-cases (h.count == h.alloc)) [
    | inl full ↦ inl (ground (arith, full), unfold heap_insert in rw full)
    | inr room ↦
        let s = heap_update_key-Sifted (appended h x) h.count (appended-IsHigh h x k) in
        unfold heap_insert in
        rw (heap_insert, room)
          (inr (
            refl,
            Sifted-IsHeap (appended h x) _ (ground (arith, room, k.fits)) k.order s,
            s.1.count,
            λ p.
                s.1.content p
                ∙ tally_next p (write h.arr h.count x) h.count
                ∙ ground (arith, tally_beyond p h.arr h.count x h.count (omega arith)),
          ))
  ]

  least-Below : (n : ℕ) (h : Heap A) (i : ℕ) → IsHeap h → i < n → i < h.count → 0 < i → Below h 0 i
  least-Below zero h i k fuel hi pos = absurd (omega arith)
  least-Below (suc n) h i k fuel hi pos = elim (Bool-cases (parent i == 0)) [
    | inl root ↦
        let e : parent i ≡ 0 = ground (arith, root) in
        subst (λ a. Below h a i) e (k.ordered i pos hi)
    | inr inner ↦
        k.order.trans (h.arr 0) (h.arr (parent i)) (h.arr i)
          (least-Below n h (parent i) k (omega (arith, pos, fuel)) (omega (arith, hi))
            (ground (arith, inner)))
          (k.ordered i pos hi)
  ]

  abbrev shrunk : Heap A → Heap A
  shrunk h = record h { count = h.count - 1; arr = write h.arr 0 (h.arr (h.count - 1)) }

  shrunk-IsLow : (h : Heap A) → IsHeap h → IsLow (shrunk h) 0
  shrunk-IsLow h k = record {
    order = k.order;
    edges = λ c a b e. ground (arith, k.ordered c a, e);
    bridged = λ c a b e q. absurd (omega arith);
  }

  tally-shrunk :
      (p : A → Bool) (arr : ℕ → A) (n : ℕ)
      → tally p (write arr 0 (arr n)) n + mark p (arr 0) ≡ tally p arr (suc n)
  unfolding tally
  tally-shrunk p arr zero = refl
  tally-shrunk p arr (suc n) = tally-write p arr 0 (arr (suc n)) (suc n) (omega arith)

  -- On a heap in order: an empty heap is left alone, with an error; of any other the element at the
  -- top is taken, which is not above any other, and the rest stays, in order.
  pub heap_extract-Extracted :
      (h : Heap A)
      → IsHeap h
      → (h.count ≡ 0) × (heap_extract h ≡ (h, none))
        ⊎ ((heap_extract h).1 ≡ some (h.arr 0))
          × ((i : ℕ) → 0 < i → i < h.count → Below h 0 i)
          × IsHeap (heap_extract h).0
          × ((heap_extract h).0.count + 1 ≡ h.count)
          × ((p : A → Bool)
              → tally p (heap_extract h).0.arr (heap_extract h).0.count + mark p (h.arr 0)
                ≡ tally p h.arr h.count)
  heap_extract-Extracted h k = elim (Bool-cases (h.count == 0)) [
    | inl empty ↦ inl (ground (arith, empty), unfold heap_extract in rw empty)
    | inr some_left ↦
        let s = heapify-Sifted (shrunk h) 0 (shrunk-IsLow h k) in
        let n = h.count - 1 in
        let last : suc n ≡ h.count = ground (arith, some_left) in
        unfold heap_extract in
        rw (heap_extract, some_left)
          (inr (
            refl,
            λ i pos hi. least-Below (suc i) h i k (omega arith) hi pos,
            Sifted-IsHeap (shrunk h) _ (omega (arith, k.fits)) k.order s,
            omega (arith, s.1.count, last),
            λ p.
                ap (λ t. t + mark p (h.arr 0)) (s.1.content p)
                ∙ tally-shrunk p h.arr n
                ∙ ap (tally p h.arr) last,
          ))
  ]

  abbrev pub changed : Heap A → ℕ → A → Heap A
  changed h pos v = record h { arr = write h.arr pos v }

  changed-IsLoose :
      (h : Heap A) (pos : ℕ) (v : A) → IsHeap h → pos < h.count → IsLoose (changed h pos v) pos
  changed-IsLoose h pos v k hp = record {
    inside = hp;
    order = k.order;
    edges = λ c a b n e. ground (arith, k.ordered c a b, n, e);
    bridged = λ c a b e q. ground (
      arith,
      k.ordered c a b,
      k.ordered pos q hp,
      e,
      k.order.trans (h.arr (parent pos)) (h.arr pos) (h.arr c),
    );
  }

  ordered-IsLow : (h : Heap A) (pos : ℕ) → IsOrder h.greater → IsOrdered h → IsLow h pos
  ordered-IsLow h pos o r = record {
    order = o;
    edges = λ c a b _. r c a b;
    bridged = λ c a b e q.
        o.trans (h.arr (parent pos)) (h.arr pos) (h.arr c) (r pos q (omega arith))
          (subst (λ x. Below h x c) e (r c a b));
  }

  loose-IsLow :
      (h : Heap A) (pos : ℕ) → IsLoose h pos → ((0 < pos) → Below h (parent pos) pos) → IsLow h pos
  loose-IsLow h pos v top = record {
    order = v.order;
    edges = λ c a b n. elim (Bool-cases (c == pos)) [
      | inl here ↦
          let e : c ≡ pos = ground (arith, here) in
          subst (λ x. Below h (parent x) x) (sym e) (top (omega (arith, e, a)))
      | inr there ↦ v.edges c a b (ground (arith, there)) n
    ];
    bridged = v.bridged;
  }

  -- An element that is too low or too high goes where it belongs.
  heap_update-Sifted : (h : Heap A) (pos : ℕ) → IsLoose h pos → Sifted h (heap_update h pos)
  unfolding heap_update
  heap_update-Sifted h pos v = elim (heap_update_key-loose h pos v) [
    | inl s ↦
        let g = heap_update_key h pos in
        let t =
          heapify-Sifted g pos
            (ordered-IsLow g pos (subst IsOrder (sym s.1.greater) v.order) s.0) in
        (t.0, Keeps-trans s.1 t.1)
    | inr (same, top) ↦ rw same (heapify-Sifted h pos (loose-IsLow h pos v top))
  ]

  -- On a heap in order, where the element at a place is changed to any other: `heap_update` at that
  -- place brings the heap back in order, with the new element for the old one and the others kept.
  pub heap_update-Updated :
      (h : Heap A) (pos : ℕ) (v : A)
      → IsHeap h
      → pos < h.count
      → IsHeap (heap_update (changed h pos v) pos)
        × ((heap_update (changed h pos v) pos).count ≡ h.count)
        × ((p : A → Bool)
            → tally p
                  (heap_update (changed h pos v) pos).arr
                  (heap_update (changed h pos v) pos).count
                + mark p (h.arr pos)
              ≡ tally p h.arr h.count + mark p v)
  heap_update-Updated h pos v k hp =
      let s = heap_update-Sifted (changed h pos v) pos (changed-IsLoose h pos v k hp) in
      (
        Sifted-IsHeap (changed h pos v) _ k.fits k.order s,
        s.1.count,
        λ p.
            ap (λ t. t + mark p (h.arr pos)) (s.1.content p) ∙ tally-write p h.arr pos v h.count hp,
      )

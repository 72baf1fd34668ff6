-- ===== src/Heap/Up.antt =====
-- `heap_update_key` of heap.c: an element that may be too low rises to its place.
use chaconne.Prelude.{
  ℕ, zero, suc, ◌+◌, ◌≤◌, ◌<◌, ◌≡◌, ◌≢◌, ◌⊎◌, refl, ap, true, false, arith, ◌==◌, ltb, Bool-cases,
  inl, inr,
}
use chaconne.Heap.{Heap, parent, exchange, update_key_loop, heap_update_key}
use chaconne.Heap.Order.{
  IsOrder, Below, IsOrdered, IsBridged, Keeps-exchange, Keeps-refl, Keeps-trans, Sifted,
}

module _ {ℓ} {A : Type ℓ} where
  -- The edges that are neither above the place nor below it are in order, and so is the bridge.
  pub record IsLoose (h : Heap A) (i : ℕ) : Type ℓ where
    pub inside : i < h.count
    pub order : IsOrder h.greater
    pub edges : (c : ℕ) → 0 < c → c < h.count → c ≢ i → parent c ≢ i → Below h (parent c) c
    pub bridged : IsBridged h i

  -- Only the edge above the place may be out of order.
  pub record IsHigh (h : Heap A) (i : ℕ) : Type ℓ where
    pub loose : IsLoose h i
    pub children : (c : ℕ) → 0 < c → c < h.count → parent c ≡ i → Below h i c

  exchange-IsHigh :
      (h : Heap A) (i : ℕ)
      → IsLoose h i
      → 0 < i
      → h.greater (h.arr (parent i)) (h.arr i) ≡ true
      → IsHigh (exchange h i (parent i)) (parent i)
  unfolding exchange
  exchange-IsHigh h i v pos above =
      let low : h.greater (h.arr i) (h.arr (parent i)) ≡ false =
        v.order.asymm (h.arr (parent i)) (h.arr i) above in
      record {
        loose = record {
          inside = omega (arith, v.inside);
          order = v.order;
          edges = λ c a b d e. ground (arith, v.edges c a b, v.bridged c a b);
          bridged = λ c a b e q. ground (
            arith,
            v.edges c a b,
            v.edges (parent i) q,
            v.bridged c a b,
            v.inside,
            v.order.trans (h.arr (parent (parent i))) (h.arr (parent i)) (h.arr c),
          );
        };
        children = λ c a b e. ground (
          arith,
          v.edges c a b,
          v.bridged c a b,
          low,
          v.order.trans (h.arr i) (h.arr (parent i)) (h.arr c),
        );
      }

  settled : (h : Heap A) (i : ℕ) → IsHigh h i → ((0 < i) → Below h (parent i) i) → IsOrdered h
  settled h i v top c a b = elim (Bool-cases (c == i)) [
    | inl here ↦ let e : c ≡ i = ground (arith, here) in rw e (top (omega (arith, e, a)))
    | inr there ↦ elim (Bool-cases (parent c == i)) [
      | inl below ↦ let e : parent c ≡ i = ground (arith, below) in rw e (v.children c a b e)
      | inr apart ↦ v.loose.edges c a b (ground (arith, there)) (ground (arith, apart))
    ]
  ]

  -- Moves behind an exchange are moves from before it.
  pub Sifted-exchange :
      (h g : Heap A) (i m : ℕ)
      → i ≢ m
      → i < h.count
      → m < h.count
      → Sifted (exchange h i m) g
      → Sifted h g
  Sifted-exchange h g i m apart hi hm s = (s.0, Keeps-trans (Keeps-exchange h i m apart hi hm) s.1)

  rises : (n : ℕ) (h : Heap A) (i : ℕ) → i < n → IsHigh h i → Sifted h (update_key_loop n h i)
  unfolding update_key_loop
  rises zero h i fuel v = absurd (omega arith)
  rises (suc n) h i fuel v = elim (Bool-cases (ltb 0 i)) [
    | inr root ↦
        rw (update_key_loop, root)
          (settled h i v (λ pos. absurd (ground (arith, root, pos))), Keeps-refl h)
    | inl pos ↦ elim (Bool-cases (h.greater (h.arr (parent i)) (h.arr i))) [
      | inr done ↦ rw (update_key_loop, pos, done) (settled h i v (λ _. done), Keeps-refl h)
      | inl above ↦
          let inside = v.loose.inside in
          let low : 0 < i = ground (arith, pos) in
          rw (update_key_loop, pos, above)
            (Sifted-exchange h _ i (parent i) (omega (arith, low)) inside
              (omega (arith, inside, low))
              (rises n (exchange h i (parent i)) (parent i) (omega (arith, low, fuel))
                (exchange-IsHigh h i v.loose low above)))
    ]
  ]

  -- An element that may be too low rises, and all is in order.
  pub heap_update_key-Sifted :
      (h : Heap A) (pos : ℕ) → IsHigh h pos → Sifted h (heap_update_key h pos)
  unfolding heap_update_key
  heap_update_key-Sifted h pos v = rises (pos + 1) h pos (omega arith) v

  heap_update_key_lem :
      (h : Heap A) (pos : ℕ) → heap_update_key h pos ≡ update_key_loop (suc pos) h pos
  unfolding heap_update_key
  heap_update_key_lem h pos =
      let e : pos + 1 ≡ suc pos = omega arith in ap (λ n. update_key_loop n h pos) e

  first_round :
      (n : ℕ) (h : Heap A) (i : ℕ)
      → i ≤ n
      → IsLoose h i
      → Sifted h (update_key_loop (suc n) h i)
        ⊎ (update_key_loop (suc n) h i ≡ h) × ((0 < i) → Below h (parent i) i)
  unfolding update_key_loop
  first_round n h i fuel v = elim (Bool-cases (ltb 0 i)) [
    | inr root ↦ rw (update_key_loop, root) (inr (refl, λ p. absurd (ground (arith, root, p))))
    | inl pos ↦ elim (Bool-cases (h.greater (h.arr (parent i)) (h.arr i))) [
      | inr done ↦ rw (update_key_loop, pos, done) (inr (refl, λ _. refl))
      | inl above ↦
          let low : 0 < i = ground (arith, pos) in
          rw (update_key_loop, pos, above)
            (inl (
              Sifted-exchange h _ i (parent i) (omega (arith, low)) v.inside
                (omega (arith, low, v.inside))
                (rises n (exchange h i (parent i)) (parent i) (omega (arith, low, fuel))
                  (exchange-IsHigh h i v low above))))
    ]
  ]

  -- An element that may be too low or too high rises, and all is in order, or it stays, and is not
  -- too low.
  pub heap_update_key-loose :
      (h : Heap A) (pos : ℕ)
      → IsLoose h pos
      → Sifted h (heap_update_key h pos)
        ⊎ (heap_update_key h pos ≡ h) × ((0 < pos) → Below h (parent pos) pos)
  heap_update_key-loose h pos v =
      rw (heap_update_key_lem h pos) (first_round pos h pos (omega arith) v)

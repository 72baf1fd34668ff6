-- ===== src/Heap/Down.antt =====
-- `heapify` of heap.c: an element that may be too high sinks to its place.
use chaconne.Prelude.{
  ℕ, zero, suc, ◌+◌, ◌-◌, ◌<◌, ◌≡◌, ◌≢◌, ◌⊎◌, refl, true, false, ◌&&◌, arith, ◌==◌, ltb, Bool-cases,
  inl, inr,
}
use chaconne.Heap.{Heap, parent, left, right, exchange, least_child, heapify_loop, heapify}
use chaconne.Heap.Order.{IsOrder, Below, IsOrdered, IsBridged, Keeps-refl, Sifted}
use chaconne.Heap.Up.{Sifted-exchange}

child-cases : (c i : ℕ) → 0 < c → parent c ≡ i → (c ≡ left i) ⊎ (c ≡ right i)
child-cases c i pos e = omega arith

module _ {ℓ} {A : Type ℓ} where
  -- Only the edges below the place may be out of order.
  pub record IsLow (h : Heap A) (i : ℕ) : Type ℓ where
    pub order : IsOrder h.greater
    pub edges : (c : ℕ) → 0 < c → c < h.count → parent c ≢ i → Below h (parent c) c
    pub bridged : IsBridged h i

  -- A child with an element that is below that at `i`, and not above those at the other children.
  record IsLeast (h : Heap A) (i m : ℕ) : Type ℓ where
    inside : m < h.count
    child : parent m ≡ i
    further : i < m
    lower : Below h m i
    least : (c : ℕ) → 0 < c → c < h.count → parent c ≡ i → c ≢ m → Below h m c

  -- The place to go on from is such a child, or `i` itself, which is in order then.
  least_child-cases :
      (h : Heap A) (i : ℕ)
      → IsOrder h.greater
      → ((least_child h i ≡ i) × ((c : ℕ) → 0 < c → c < h.count → parent c ≡ i → Below h i c))
        ⊎ IsLeast h i (least_child h i)
  unfolding least_child
  least_child-cases h i o =
      let l = left i in
      let r = right i in
      elim (Bool-cases (ltb l h.count && h.greater (h.arr i) (h.arr l))) [
        | inl l_less ↦ elim (Bool-cases (ltb r h.count && h.greater (h.arr l) (h.arr r))) [
          | inl r_less ↦
              rw (l_less, r_less)
                (let down = o.asymm (h.arr i) (h.arr l) (ground (arith, l_less)) in
                  let more = o.asymm (h.arr l) (h.arr r) (ground (arith, r_less)) in
                  inr (record {
                    inside = ground (arith, r_less);
                    child = omega arith;
                    further = omega arith;
                    lower = o.trans (h.arr r) (h.arr l) (h.arr i) more down;
                    least = λ c a b e n. ground (arith, child-cases c i a e, more);
                  }))
          | inr r_more ↦
              rw (l_less, r_more)
                (let down = o.asymm (h.arr i) (h.arr l) (ground (arith, l_less)) in
                  inr (record {
                    inside = ground (arith, l_less);
                    child = omega arith;
                    further = omega arith;
                    lower = down;
                    least = λ c a b e n. ground (arith, child-cases c i a e, r_more);
                  }))
        ]
        | inr l_more ↦ elim (Bool-cases (ltb r h.count && h.greater (h.arr i) (h.arr r))) [
          | inl r_less ↦
              rw (l_more, r_less)
                (let down = o.asymm (h.arr i) (h.arr r) (ground (arith, r_less)) in
                  inr (record {
                    inside = ground (arith, r_less);
                    child = omega arith;
                    further = omega arith;
                    lower = down;
                    least = λ c a b e n. ground (
                      arith,
                      child-cases c i a e,
                      l_more,
                      down,
                      o.trans (h.arr r) (h.arr i) (h.arr l),
                    );
                  }))
          | inr r_more ↦
              rw (l_more, r_more)
                (inl (refl, λ c a b e. ground (arith, child-cases c i a e, l_more, r_more)))
        ]
      ]

  exchange-IsLow :
      (h : Heap A) (i m : ℕ) → i < h.count → IsLow h i → IsLeast h i m → IsLow (exchange h i m) m
  unfolding exchange
  exchange-IsLow h i m hi v s = record {
    order = v.order;
    edges = λ c a b d. ground (
      arith,
      v.edges c a b,
      v.bridged m,
      v.bridged c a b,
      s.least c a b,
      s.lower,
      s.inside,
      s.child,
      s.further,
    );
    bridged = λ c a b e q. ground (arith, v.edges c a b, s.child, s.further);
  }

  all_in_order :
      (h : Heap A) (i : ℕ)
      → IsLow h i
      → ((c : ℕ) → 0 < c → c < h.count → parent c ≡ i → Below h i c)
      → IsOrdered h
  all_in_order h i v below c a b = elim (Bool-cases (parent c == i)) [
    | inl here ↦ let e : parent c ≡ i = ground (arith, here) in rw e (below c a b e)
    | inr there ↦ v.edges c a b (ground (arith, there))
  ]

  sinks : (n : ℕ) (h : Heap A) (i : ℕ) → h.count - i < n → IsLow h i → Sifted h (heapify_loop n h i)
  unfolding heapify_loop
  sinks zero h i fuel v = absurd (omega arith)
  sinks (suc n) h i fuel v = elim (Bool-cases (ltb i h.count)) [
    | inr beyond ↦
        rw (heapify_loop, beyond) (λ c a b. v.edges c a b (ground (arith, beyond)), Keeps-refl h)
    | inl inside ↦
        let hi : i < h.count = ground (arith, inside) in
        elim (least_child-cases h i v.order) [
          | inl stays ↦
              let e : (i == least_child h i) ≡ true = ground (arith, stays.0) in
              rw (heapify_loop, inside, e) (all_in_order h i v stays.1, Keeps-refl h)
          | inr s ↦
              let e : (i == least_child h i) ≡ false = ground (arith, s.further) in
              rw (heapify_loop, inside, e)
                (Sifted-exchange h _ i (least_child h i) (omega (arith, s.further)) hi s.inside (
                  sinks n (exchange h i (least_child h i)) (least_child h i)
                    (unfold exchange in omega (arith, s.further, s.inside, fuel))
                    (exchange-IsLow h i (least_child h i) hi v s)))
        ]
  ]

  -- An element that may be too high sinks, and all is in order.
  pub heapify-Sifted : (h : Heap A) (pos : ℕ) → IsLow h pos → Sifted h (heapify h pos)
  unfolding heapify
  heapify-Sifted h pos v = sinks (h.count + 1) h pos (omega arith) v

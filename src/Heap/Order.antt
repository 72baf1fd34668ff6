-- ===== src/Heap/Order.antt =====
-- The order of a heap of heap.c, and how often it holds each element.
use chaconne.Prelude.{
  ℕ, zero, suc, ◌+◌, ◌≤◌, ◌<◌, ◌≡◌, ◌≢◌, refl, ◌∙◌, Bool, true, false, arith, if◌then◌else◌, ltb,
  Bool-cases, inl, inr,
}
use chaconne.Heap.{Heap, parent, write, exchange}

-- What the comparison has to be: an order up to elements that count as equal.
pub record IsOrder {ℓ} {A : Type ℓ} (greater : A → A → Bool) : Type ℓ where
  pub asymm : (a b : A) → greater a b ≡ true → greater b a ≡ false
  pub trans : (a b c : A) → greater a b ≡ false → greater b c ≡ false → greater a c ≡ false

module _ {ℓ} {A : Type ℓ} where
  -- The element at the first place is not above that at the second.
  abbrev pub Below : Heap A → ℕ → ℕ → Type 0
  Below h a b = h.greater (h.arr a) (h.arr b) ≡ false

  -- No element is below that at the parent place.
  abbrev pub IsOrdered : Heap A → Type 0
  IsOrdered h = (c : ℕ) → 0 < c → c < h.count → Below h (parent c) c

  pub record IsHeap (h : Heap A) : Type ℓ where
    pub fits : h.count ≤ h.alloc
    pub order : IsOrder h.greater
    pub ordered : IsOrdered h

  -- Across the place `i`, from its parent to its children, the order holds.
  abbrev pub IsBridged : Heap A → ℕ → Type 0
  IsBridged h i = (c : ℕ) → 0 < c → c < h.count → parent c ≡ i → 0 < i → Below h (parent i) c

  -- How many of the first `n` elements pass a test.
  unfoldable pub tally : (A → Bool) → (ℕ → A) → ℕ → ℕ
  tally p arr zero = 0
  tally p arr (suc n) = tally p arr n + (if p (arr n) then 1 else 0)

  pub tally_beyond :
      (p : A → Bool) (arr : ℕ → A) (i : ℕ) (v : A) (n : ℕ)
      → n ≤ i
      → tally p (write arr i v) n ≡ tally p arr n
  unfolding tally
  tally_beyond p arr i v zero h = refl
  tally_beyond p arr i v (suc n) h = ground (arith, tally_beyond p arr i v n (omega arith))

  pub tally-write :
      (p : A → Bool) (arr : ℕ → A) (i : ℕ) (v : A) (n : ℕ)
      → i < n
      → tally p (write arr i v) n + (if p (arr i) then 1 else 0)
        ≡ tally p arr n + (if p v then 1 else 0)
  unfolding tally
  tally-write p arr i v zero h = absurd (omega arith)
  tally-write p arr i v (suc n) h = elim (Bool-cases (ltb i n)) [
    | inl before ↦ ground (arith, tally-write p arr i v n (ground (arith, before)))
    | inr last ↦
        let e : n ≡ i = ground (arith, last) in
        rw e (ground (arith, tally_beyond p arr i v i (omega arith)))
  ]

  pub tally-exchange :
      (p : A → Bool) (h : Heap A) (i m : ℕ)
      → i ≢ m
      → i < h.count
      → m < h.count
      → tally p (exchange h i m).arr h.count ≡ tally p h.arr h.count
  unfolding exchange
  tally-exchange p h i m apart hi hm =
      let first = tally-write p h.arr m (h.arr i) h.count hm in
      let second = tally-write p (write h.arr m (h.arr i)) i (h.arr m) h.count hi in
      ground (arith, first, second, apart)

  -- A heap that came of another by moves within the count.
  pub record Keeps (h g : Heap A) : Type ℓ where
    pub alloc : g.alloc ≡ h.alloc
    pub count : g.count ≡ h.count
    pub greater : g.greater ≡ h.greater
    pub content : (p : A → Bool) → tally p g.arr g.count ≡ tally p h.arr h.count

  pub Keeps-exchange :
      (h : Heap A) (i m : ℕ) → i ≢ m → i < h.count → m < h.count → Keeps h (exchange h i m)
  unfolding exchange
  Keeps-exchange h i m apart hi hm = record {
    alloc = refl;
    count = refl;
    greater = refl;
    content = λ p. tally-exchange p h i m apart hi hm;
  }

  pub Keeps-refl : (h : Heap A) → Keeps h h
  Keeps-refl h = record { alloc = refl; count = refl; greater = refl; content = λ p. refl }

  pub Keeps-trans : {f g h : Heap A} → Keeps f g → Keeps g h → Keeps f h
  Keeps-trans a b = record {
    alloc = b.alloc ∙ a.alloc;
    count = b.count ∙ a.count;
    greater = b.greater ∙ a.greater;
    content = λ p. b.content p ∙ a.content p;
  }

  -- The same elements, in order.
  abbrev pub Sifted : Heap A → Heap A → Type ℓ
  Sifted h g = IsOrdered g × Keeps h g

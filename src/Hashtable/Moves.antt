-- ===== src/Hashtable/Moves.antt =====
-- The inner loop of `hashtable_grow`: a chain moves to the new buckets.
use chaconne.Prelude.{
  ℕ, suc, ◌+◌, ◌%◌, ◌<◌, ◌≡◌, ◌⊎◌, refl, sym, ap, ◌∙◌, List, [], ◌∷◌, Option, none, some, arith,
  if◌then◌else◌, length, set, length-set, Bool-cases, inl, inr,
}
use chaconne.Hashtable.{Attr, Elem, Node, find, push, move_chain}
use chaconne.Hashtable.Chains.{IsKeyed, or_else, Distinct, Placed, find_congr}
use chaconne.Hashtable.Buckets.{
  IsTable, node_at, total, view, bucket_of-node_at, total-set, set-IsTable, view-set,
}

-- Every element of the chain carries the hash of its key.
abbrev pub Hashed {ℓ} : {K V : Type ℓ} → Attr K V → List (Elem K V) → Type ℓ
Hashed a [] = Unit
Hashed a (e ∷ es) = (e.hash ≡ a.hash e.key) × Hashed a es

pub or_else-none {ℓ} : {A : Type ℓ} (o : Option A) → or_else o none ≡ o
or_else-none none = refl
or_else-none (some x) = refl

module _ {ℓ} {K V : Type ℓ} (a : Attr K V) (law : IsKeyed a) where
  pub Placed-Hashed : (n i : ℕ) (es : List (Elem K V)) → Placed a law n i es → Hashed a es
  Placed-Hashed n i [] p = p
  Placed-Hashed n i (e ∷ es) p = (p.0, Placed-Hashed n i es p.2)

  -- A table with the element `e` in front of one of its chains.
  record Pushed (ns : List (Node K V)) (e : Elem K V) (ms : List (Node K V)) : Type ℓ where
    size : length ms ≡ length ns
    table : IsTable a law ms
    reads :
        (q : K) → view a law ms q ≡ (if a.compare e.key q then some e.value else view a law ns q)
    all : total ms ≡ suc (total ns)

  -- The table with `e` in front of the chain that the hash `x` selects.
  abbrev pushed : List (Node K V) → Elem K V → ℕ → List (Node K V)
  pushed ns e x =
      let b = node_at ns (x % length ns) in
      set ns (x % length ns) (record { count = b.count + 1; elems = e ∷ b.elems })

  push-pushed :
      (ns : List (Node K V)) (e : Elem K V)
      → 0 < length ns
      → e.hash ≡ a.hash e.key
      → push a ns e ≡ pushed ns e (a.hash e.key)
  unfolding push
  push-pushed ns e pos right = rw (push, bucket_of-node_at ns e.hash pos) (ap (pushed ns e) right)

  push_lem :
      (ns : List (Node K V)) (e : Elem K V)
      → IsTable a law ns
      → e.hash ≡ a.hash e.key
      → view a law ns e.key ≡ none
      → Pushed ns e (push a ns e)
  unfolding view find
  push_lem ns e t right fresh =
      let i = a.hash e.key % length ns in
      let b = node_at ns i in
      let k = t.nodes i in
      let m : Node K V = record { count = b.count + 1; elems = e ∷ b.elems } in
      let lt : i < length ns = omega (arith, t.some_bucket) in
      rw (push-pushed ns e t.some_bucket right) (record {
        size = length-set ns i m;
        table = set-IsTable a law ns i m t lt (record {
          counted = omega (arith, k.counted);
          placed = (right, ap (λ x. x % length ns) right, k.placed);
          distinct = (fresh, k.distinct);
        });
        reads = λ q. view-set a law ns e.key q m (some e.value) t.some_bucket (λ r. refl);
        all = omega (arith, total-set ns i m lt);
      })

  -- A table that took in the elements of a chain.
  pub record Moved (es : List (Elem K V)) (ns ms : List (Node K V)) : Type ℓ where
    pub size : length ms ≡ length ns
    pub table : IsTable a law ms
    pub reads : (q : K) → view a law ms q ≡ or_else (find a es q) (view a law ns q)
    pub all : total ms ≡ length es + total ns

  fresh-push :
      (e : Elem K V) (es : List (Elem K V)) (q : K) (o : Option V)
      → find a es e.key ≡ none
      → (find a (e ∷ es) q ≡ none) ⊎ (o ≡ none)
      → (find a es q ≡ none) ⊎ ((if a.compare e.key q then some e.value else o) ≡ none)
  unfolding find
  fresh-push e es q o d f = elim (Bool-cases (a.compare e.key q)) [
    | inl same ↦ inl (sym (find_congr a law es e.key q same) ∙ d)
    | inr other ↦ rw other (rw other at f)
  ]

  reads-push :
      (e : Elem K V) (es : List (Elem K V)) (q : K) (o : Option V)
      → find a es e.key ≡ none
      → or_else (find a es q) (if a.compare e.key q then some e.value else o)
        ≡ or_else (find a (e ∷ es) q) o
  unfolding find
  reads-push e es q o d = elim (Bool-cases (a.compare e.key q)) [
    | inl same ↦ rw (same, sym (find_congr a law es e.key q same), d)
    | inr other ↦ rw other
  ]

  head_fresh :
      (e : Elem K V) (es : List (Elem K V)) (o : Option V)
      → (find a (e ∷ es) e.key ≡ none) ⊎ (o ≡ none)
      → o ≡ none
  unfolding find
  head_fresh e es o (inl h) = cc (rw (law.compare_refl e.key) at h)
  head_fresh e es o (inr h) = h

  pub move_chain_lem :
      (es : List (Elem K V)) (ns : List (Node K V))
      → IsTable a law ns
      → Hashed a es
      → Distinct a law es
      → ((q : K) → (find a es q ≡ none) ⊎ (view a law ns q ≡ none))
      → Moved es ns (move_chain a es ns)
  unfolding move_chain find
  move_chain_lem [] ns t right d fresh = record {
    size = refl;
    table = t;
    reads = λ q. refl;
    all = omega arith;
  }
  move_chain_lem (e ∷ es) ns t right d fresh =
      let p = push_lem ns e t right.0 (head_fresh e es (view a law ns e.key) (fresh e.key)) in
      let r =
        move_chain_lem es (push a ns e) p.table right.1 d.1
          (λ q. rw (p.reads q) (fresh-push e es q (view a law ns q) d.0 (fresh q))) in
      record {
        size = r.size ∙ p.size;
        table = r.table;
        reads = λ q.
            r.reads q
            ∙ ap (or_else (find a es q)) (p.reads q)
            ∙ reads-push e es q (view a law ns q) d.0;
        all = omega (arith, r.all, p.all);
      }

-- ===== src/Hashtable/Buckets.antt =====
-- The buckets of hashtable.c: where an element stands, and what the table means as a map.
use mathlib.Core.Path.{subst}
use chaconne.Prelude.{
  ℕ, zero, suc, ◌+◌, ◌%◌, ◌≤◌, ◌<◌, ◌≡◌, refl, sym, ap, ◌∙◌, List, [], ◌∷◌, Option, none, some,
  arith, ◌==◌, if◌then◌else◌, length, get_elem?, set, length-set, Bool-cases, inl, inr,
}
use chaconne.Hashtable.{Attr, Elem, Node, Table, no_node, bucket_of, find, get}
use chaconne.Hashtable.Chains.{IsKeyed, Distinct, Placed}

-- The node at `i`, or an empty one beyond the last.
unfoldable pub node_at {ℓ} : {K V : Type ℓ} → List (Node K V) → ℕ → Node K V
node_at [] i = no_node
node_at (n ∷ ns) zero = n
node_at (n ∷ ns) (suc i) = node_at ns i

-- The number of elements in the chains.
unfoldable pub total {ℓ} : {K V : Type ℓ} → List (Node K V) → ℕ
total [] = 0
total (n ∷ ns) = length n.elems + total ns

module _ {ℓ} {K V : Type ℓ} where
  get_elem?-node_at :
      (ns : List (Node K V)) (i : ℕ) → i < length ns → get_elem? ns i ≡ some (node_at ns i)
  unfolding node_at
  get_elem?-node_at [] i h = absurd (omega arith)
  get_elem?-node_at (n ∷ ns) zero h = refl
  get_elem?-node_at (n ∷ ns) (suc i) h = get_elem?-node_at ns i (omega arith)

  pub bucket_of-node_at :
      (ns : List (Node K V)) (x : ℕ)
      → 0 < length ns
      → bucket_of ns x ≡ some (x % length ns, node_at ns (x % length ns))
  unfolding bucket_of
  bucket_of-node_at [] x h = absurd (omega arith)
  bucket_of-node_at (n ∷ ns) x h =
      rw (bucket_of, get_elem?-node_at (n ∷ ns) (x % length (n ∷ ns)) (omega arith))

  pub node_at-set :
      (ns : List (Node K V)) (i j : ℕ) (m : Node K V)
      → i < length ns
      → node_at (set ns i m) j ≡ (if i == j then m else node_at ns j)
  unfolding node_at
  node_at-set [] i j m h = absurd (omega arith)
  node_at-set (n ∷ ns) zero zero m h = refl
  node_at-set (n ∷ ns) zero (suc j) m h = ground arith
  node_at-set (n ∷ ns) (suc i) zero m h = ground arith
  node_at-set (n ∷ ns) (suc i) (suc j) m h = node_at-set ns i j m (omega arith) ∙ ground arith

  pub total-set :
      (ns : List (Node K V)) (i : ℕ) (m : Node K V)
      → i < length ns
      → total (set ns i m) + length (node_at ns i).elems ≡ total ns + length m.elems
  unfolding node_at total
  total-set [] i m h = absurd (omega arith)
  total-set (n ∷ ns) zero m h = omega arith
  total-set (n ∷ ns) (suc i) m h = omega (arith, total-set ns i m (omega arith))

module _ {ℓ} {K V : Type ℓ} (a : Attr K V) (law : IsKeyed a) where
  -- A bucket counts no fewer elements than its chain has, and the chain is in order.
  pub record IsNode (n i : ℕ) (b : Node K V) : Type ℓ where
    pub counted : length b.elems ≤ b.count
    pub placed : Placed a law n i b.elems
    pub distinct : Distinct a law b.elems

  pub record IsTable (ns : List (Node K V)) : Type ℓ where
    pub some_bucket : 0 < length ns
    pub nodes : (i : ℕ) → IsNode (length ns) i (node_at ns i)

  -- What the table holds under a key.
  unfoldable pub view : List (Node K V) → K → Option V
  view ns q = find a (node_at ns (a.hash q % length ns)).elems q

  skip_count :
      (b : Node K V) (k : K)
      → length b.elems ≤ b.count
      → (if b.count == 0 then none else find a b.elems k) ≡ find a b.elems k
  unfolding find
  skip_count b k le = elim (Bool-cases (b.count == 0)) [
    | inl empty ↦ rw (empty) (sym (find-short b.elems (ground (arith, le, empty))))
    | inr full ↦ rw (full)
  ]
    where
      find-short : (es : List (Elem K V)) → length es ≡ 0 → find a es k ≡ none
      find-short [] h = refl
      find-short (e ∷ es) h = absurd (omega arith)

  -- `hashtable_get` reads the view; its test of the count skips empty chains only.
  pub get-view : (h : Table K V) (k : K) → IsTable h.nodes → get a h k ≡ some (view h.nodes k)
  unfolding get view
  get-view h k t =
      let i = a.hash k % length h.nodes in
      rw (get, bucket_of-node_at h.nodes (a.hash k) t.some_bucket)
        (ap some (skip_count (node_at h.nodes i) k ((t.nodes i).counted)))

  -- A bucket replaced by one that is in order too.
  pub set-IsTable :
      (ns : List (Node K V)) (i : ℕ) (m : Node K V)
      → IsTable ns
      → i < length ns
      → IsNode (length ns) i m
      → IsTable (set ns i m)
  set-IsTable ns i m t lt k = record {
    some_bucket = rw length-set t.some_bucket;
    nodes = λ j.
        rw (length-set, node_at-set ns i j m lt)
          (elim (Bool-cases (i == j)) [
            | inl here ↦ rw (here) (subst (λ x. IsNode (length ns) x m) (ground (arith, here)) k)
            | inr there ↦ rw there (t.nodes j)
          ]);
  }

  -- The view after the bucket of `k` is replaced, if the new chain differs at `k` only.
  pub view-set :
      (ns : List (Node K V)) (k q : K) (m : Node K V) (o : Option V)
      → 0 < length ns
      → ((r : K)
          → find a m.elems r
            ≡ (if a.compare k r then o else find a (node_at ns (a.hash k % length ns)).elems r))
      → view (set ns (a.hash k % length ns) m) q ≡ (if a.compare k q then o else view ns q)
  unfolding view
  view-set ns k q m o pos reads =
      rw
        (
          view,
          length-set,
          node_at-set ns (a.hash k % length ns) (a.hash q % length ns) m (omega arith),
        )
        (elim (Bool-cases ((a.hash k % length ns) == (a.hash q % length ns))) [
          | inl same ↦ rw same (
              reads q
              ∙ ap (λ i. if a.compare k q then o else find a (node_at ns i).elems q)
                  (ground (arith, same)))
          | inr other ↦ rw other (elim (Bool-cases (a.compare k q)) [
            | inl equal ↦
                absurd (ground (arith, other, ap (λ x. x % length ns) (law.hash_congr k q equal)))
            | inr not_equal ↦ rw not_equal
          ])
        ])

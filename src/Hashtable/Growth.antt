-- ===== src/Hashtable/Growth.antt =====
-- `hashtable_grow`: the elements move to a table of twice as many buckets.
use mathlib.Core.Path.{subst}
use chaconne.Prelude.{
  ℕ, zero, suc, ◌+◌, ◌*◌, ◌%◌, ◌<◌, ◌≡◌, ◌⊎◌, ltb, ◌==◌, refl, ap, ◌∙◌, List, [], ◌∷◌, Option, none,
  arith, length, replicate, length-replicate, Bool-cases, inl, inr,
}
use chaconne.Hashtable.{Attr, Node, Table, no_node, find, move_chain, move_all, grow}
use chaconne.Hashtable.Moves.{Placed-Hashed, or_else-none, move_chain_lem}
use chaconne.Hashtable.Chains.{IsKeyed, or_else, find-elsewhere}
use chaconne.Hashtable.Buckets.{IsNode, IsTable, node_at, total, view}

module _ {ℓ} {K V : Type ℓ} (a : Attr K V) (law : IsKeyed a) where
  -- The first element under a key over all the chains, and the number of the elements.
  first : List (Node K V) → K → Option V
  first [] q = none
  first (n ∷ ns) q = or_else (find a n.elems q) (first ns q)

  -- The buckets from `i` on of a table of `n`.
  abbrev From : ℕ → ℕ → List (Node K V) → Type ℓ
  From n i old = (j : ℕ) → IsNode a law n (i + j) (node_at old j)

  From-tail :
      (n i : ℕ) (b : Node K V) (old : List (Node K V)) → From n i (b ∷ old) → From n (suc i) old
  unfolding node_at
  From-tail n i b old f j = subst (λ x. IsNode a law n x (node_at old j)) (omega arith) (f (suc j))

  From-head :
      (n i : ℕ) (b : Node K V) (old : List (Node K V)) → From n i (b ∷ old) → IsNode a law n i b
  unfolding node_at
  From-head n i b old f = subst (λ x. IsNode a law n x b) (omega arith) (f 0)

  first-before :
      (n i : ℕ) (old : List (Node K V)) (q : K)
      → From n i old
      → a.hash q % n < i
      → first old q ≡ none
  unfolding first
  first-before n i [] q f lt = refl
  first-before n i (b ∷ old) q f lt = rw (
    find-elsewhere a law n i b.elems q ((From-head n i b old f).placed) (omega arith),
    first-before n (suc i) old q (From-tail n i b old f) (omega arith),
  )

  first-node_at :
      (n i j : ℕ) (old : List (Node K V)) (q : K)
      → From n i old
      → a.hash q % n ≡ i + j
      → first old q ≡ find a (node_at old j).elems q
  unfolding first node_at find
  first-node_at n i j [] q f h = refl
  first-node_at n i zero (b ∷ old) q f h =
      rw (first-before n (suc i) old q (From-tail n i b old f) (omega arith), or_else-none)
  first-node_at n i (suc j) (b ∷ old) q f h =
      rw (find-elsewhere a law n i b.elems q ((From-head n i b old f).placed) (omega arith))
        (first-node_at n (suc i) j old q (From-tail n i b old f) (omega arith))

  -- The table after the chains of `old` moved to it.
  record Grown (n i : ℕ) (old ns ms : List (Node K V)) : Type ℓ where
    size : length ms ≡ length ns
    table : IsTable a law ms
    reads : (q : K) → view a law ms q ≡ or_else (first old q) (view a law ns q)
    all : total ms ≡ total old + total ns

  -- A new table in which only keys of buckets before `i` are found.
  abbrev Fresh : ℕ → ℕ → List (Node K V) → Type ℓ
  Fresh n i ns = (q : K) → (a.hash q % n < i) ⊎ (view a law ns q ≡ none)

  Fresh-chain :
      (n i : ℕ) (b : Node K V) (ns : List (Node K V)) (q : K)
      → IsNode a law n i b
      → Fresh n i ns
      → (find a b.elems q ≡ none) ⊎ (view a law ns q ≡ none)
  Fresh-chain n i b ns q k f = elim (f q) [
    | inl lt ↦ inl (find-elsewhere a law n i b.elems q k.placed (omega arith))
    | inr no_view ↦ inr no_view
  ]

  Fresh-next :
      (n i : ℕ) (b : Node K V) (ns ms : List (Node K V))
      → IsNode a law n i b
      → Fresh n i ns
      → ((q : K) → view a law ms q ≡ or_else (find a b.elems q) (view a law ns q))
      → Fresh n (suc i) ms
  Fresh-next n i b ns ms k f reads q = elim (Bool-cases (ltb (a.hash q % n) (suc i))) [
    | inl lt ↦ inl (ground (arith, lt))
    | inr ge ↦ elim (f q) [
      | inl lt ↦ absurd (ground (arith, ge, lt))
      | inr no_view ↦ inr (
          reads q
          ∙ rw (find-elsewhere a law n i b.elems q k.placed (λ e. ground (arith, ge, e)), no_view))
    ]
  ]

  swap_choice :
      (n i : ℕ) (b : Node K V) (old : List (Node K V)) (q : K) (o : Option V)
      → From n i (b ∷ old)
      → or_else (first old q) (or_else (find a b.elems q) o) ≡ or_else (first (b ∷ old) q) o
  unfolding first
  swap_choice n i b old q o f = elim (Bool-cases ((a.hash q % n) == i)) [
    | inl here ↦
        rw (
          first-before n (suc i) old q (From-tail n i b old f) (ground (arith, here)),
          or_else-none,
        )
    | inr there ↦ rw (
        find-elsewhere a law n i b.elems q ((From-head n i b old f).placed)
          (λ e. ground (arith, there, e)))
  ]

  move_all_lem :
      (n i : ℕ) (old ns : List (Node K V))
      → From n i old
      → IsTable a law ns
      → Fresh n i ns
      → Grown n i old ns (move_all a old ns)
  unfolding move_all total first
  move_all_lem n i [] ns f t fresh = record {
    size = refl;
    table = t;
    reads = λ q. refl;
    all = omega arith;
  }
  move_all_lem n i (b ∷ old) ns f t fresh =
      let k = From-head n i b old f in
      let ms = move_chain a b.elems ns in
      let c =
        move_chain_lem a law b.elems ns t (Placed-Hashed a law n i b.elems k.placed) k.distinct
          (λ q. Fresh-chain n i b ns q k fresh) in
      let r =
        move_all_lem n (suc i) old ms (From-tail n i b old f) c.table
          (Fresh-next n i b ns ms k fresh c.reads) in
      record {
        size = r.size ∙ c.size;
        table = r.table;
        reads = λ q.
            r.reads q
            ∙ ap (or_else (first old q)) (c.reads q)
            ∙ swap_choice n i b old q (view a law ns q) f;
        all = omega (arith, r.all, c.all);
      }

  node_at-replicate : (n i : ℕ) → node_at (replicate n (no_node {K = K} {V = V})) i ≡ no_node
  unfolding node_at
  node_at-replicate zero i = refl
  node_at-replicate (suc n) zero = refl
  node_at-replicate (suc n) (suc i) = node_at-replicate n i

  pub total-replicate : (n : ℕ) → total (replicate n (no_node {K = K} {V = V})) ≡ 0
  unfolding total
  total-replicate zero = refl
  total-replicate (suc n) = omega (arith, total-replicate n)

  pub empty-IsTable : (n : ℕ) → 0 < n → IsTable a law (replicate n no_node)
  empty-IsTable n pos = record {
    some_bucket = rw (length-replicate n (no_node {K = K} {V = V})) pos;
    nodes = λ i.
        rw (node_at-replicate n i) (record { counted = omega arith; placed = tt; distinct = tt });
  }

  pub empty-view : (n : ℕ) (q : K) → view a law (replicate n no_node) q ≡ none
  unfolding view find
  empty-view n q = rw (node_at-replicate n)

  -- A table of twice the buckets that holds the same.
  pub record Doubled (h g : Table K V) : Type ℓ where
    pub table : IsTable a law g.nodes
    pub reads : (q : K) → view a law g.nodes q ≡ view a law h.nodes q
    pub all : total g.nodes ≡ total h.nodes
    pub buckets : length g.nodes ≡ length h.nodes * 2
    pub count : g.count ≡ h.count

  pub grow_lem : (h : Table K V) → IsTable a law h.nodes → Doubled h (grow a h)
  unfolding grow view
  grow_lem h t =
      let n = length h.nodes in
      let new : List (Node K V) = replicate (n * 2) no_node in
      let f : From n 0 h.nodes =
        λ j. subst (λ x. IsNode a law n x (node_at h.nodes j)) (omega arith) (t.nodes j) in
      let r =
        move_all_lem n 0 h.nodes new f (empty-IsTable (n * 2) (omega (arith, t.some_bucket)))
          (λ q. inr (empty-view (n * 2) q)) in
      record {
        table = r.table;
        reads = λ q.
            r.reads q
            ∙ rw (empty-view (n * 2) q, or_else-none)
                (first-node_at n 0 (a.hash q % n) h.nodes q f (omega arith));
        all = omega (arith, r.all, total-replicate (n * 2));
        buckets = r.size ∙ length-replicate (n * 2) no_node;
        count = refl;
      }

-- ===== src/Hashtable/Map.antt =====
-- hashtable.c as a map: what each operation does to what `hashtable_get` gives.
use chaconne.Prelude.{
  ℕ, ◌+◌, ◌-◌, ◌*◌, ◌/◌, ◌%◌, ◌<◌, ◌≡◌, refl, sym, ◌∙◌, Bool, true, false, List, [], ◌∷◌, ◌++◌,
  Option, none, some, arith, ltb, if◌then◌else◌, length, set, length-set, length-append, Bool-cases,
  Option-cases, inl, inr,
}
use chaconne.Hashtable.{
  Attr, Elem, Node, Table, Freed, word, find, get, replace, grow, hashtable_set, remove, delete,
}
use chaconne.Hashtable.Chains.{
  IsKeyed, or_else, Distinct, Placed, find_congr, find-append, replace-none, replace-some,
  remove-none, remove-some,
}
use chaconne.Hashtable.Buckets.{
  IsTable, node_at, total, view, bucket_of-node_at, total-set, get-view, set-IsTable, view-set,
}
use chaconne.Hashtable.Growth.{grow_lem}

module _ {ℓ} {K V : Type ℓ} (a : Attr K V) (law : IsKeyed a) where
  -- Between two calls: every element stands in the bucket of its key, no key stands twice in a
  -- chain, and the count of the table is that of its elements.
  pub record IsHashtable (h : Table K V) : Type ℓ where
    pub table : IsTable a law h.nodes
    pub counted : h.count ≡ total h.nodes

  -- The map `g` is `h` with `o` under `k`.
  pub record Updated (h : Table K V) (k : K) (o : Option V) (g : Table K V) : Type ℓ where
    pub table : IsHashtable g
    pub reads : (q : K) → get a g q ≡ (if a.compare k q then some o else get a h q)

  from_views :
      (h g : Table K V) (k : K) (o : Option V)
      → IsTable a law h.nodes
      → IsHashtable g
      → ((q : K) → view a law g.nodes q ≡ (if a.compare k q then o else view a law h.nodes q))
      → Updated h k o g
  from_views h g k o th tg reads = record {
    table = tg;
    reads = λ q.
        rw (get-view a law h q th, get-view a law g q tg.table, reads q)
          (pull (a.compare k q) o (view a law h.nodes q));
  }
    where
      pull :
          (b : Bool) (x y : Option V) → some (if b then x else y) ≡ (if b then some x else some y)
      pull true x y = refl
      pull false x y = refl

  abbrev new_elem : K → V → Elem K V
  new_elem k v = record { hash = a.hash k; key = k; value = v }

  Placed-append :
      (n : ℕ) (k : K) (v : V) (es : List (Elem K V))
      → Placed a law n (a.hash k % n) es
      → Placed a law n (a.hash k % n) (es ++ new_elem k v ∷ [])
  Placed-append n k v [] p = (refl, refl, tt)
  Placed-append n k v (e ∷ es) p = (p.0, p.1, Placed-append n k v es p.2)

  Distinct-append :
      (k : K) (v : V) (es : List (Elem K V))
      → Distinct a law es
      → find a es k ≡ none
      → Distinct a law (es ++ new_elem k v ∷ [])
  unfolding find
  Distinct-append k v [] d h = (refl, tt)
  Distinct-append k v (e ∷ es) d h = elim (Bool-cases (a.compare e.key k)) [
    | inl same ↦ cc (rw same at h)
    | inr other ↦ (
      rw (find-append a law es (new_elem k v ∷ []) e.key, d.0, law.compare_symm k e.key, other),
      Distinct-append k v es d.1 (rw other at h),
    )
  ]

  reads-append :
      (k q : K) (v : V) (es : List (Elem K V))
      → find a es k ≡ none
      → find a (es ++ new_elem k v ∷ []) q ≡ (if a.compare k q then some v else find a es q)
  unfolding find
  reads-append k q v es h =
      rw (find-append a law es (new_elem k v ∷ []) q) (elim (Bool-cases (a.compare k q)) [
        | inl same ↦ rw (same, sym (find_congr a law es k q same), h)
        | inr other ↦ rw (other) (keep (find a es q))
      ])
    where
      keep : (o : Option V) → or_else o none ≡ o
      keep none = refl
      keep (some x) = refl

  grow-Updated :
      (h g : Table K V) (k : K) (o : Option V) (full : Bool)
      → Updated h k o g
      → Updated h k o (if full then grow a g else g)
  grow-Updated h g k o false u = u
  grow-Updated h g k o true u =
      let d = grow_lem a law g u.table.table in
      record {
        table = record { table = d.table; counted = d.count ∙ u.table.counted ∙ sym d.all };
        reads = λ q.
            rw (get-view a law (grow a g) q d.table, d.reads q)
              (sym (get-view a law g q u.table.table) ∙ u.reads q);
      }

  -- The table with a new element at the end of its chain.
  abbrev added : Table K V → K → V → Table K V
  added h k v =
      let i = a.hash k % length h.nodes in
      let b = node_at h.nodes i in
      record h {
        nodes =
            set h.nodes i (record { count = b.count + 1; elems = b.elems ++ new_elem k v ∷ [] });
        count = h.count + 1;
      }

  added-Updated :
      (h : Table K V) (k : K) (v : V)
      → IsHashtable h
      → view a law h.nodes k ≡ none
      → Updated h k (some v) (added h k v)
  unfolding view
  added-Updated h k v t absent =
      let n = length h.nodes in
      let i = a.hash k % n in
      let b = node_at h.nodes i in
      let kb = t.table.nodes i in
      let lt : i < n = omega (arith, t.table.some_bucket) in
      let es = b.elems ++ new_elem k v ∷ [] in
      let m : Node K V = record { count = b.count + 1; elems = es } in
      let size : length es ≡ length b.elems + 1 = length-append b.elems (new_elem k v ∷ []) in
      from_views h (added h k v) k (some v) t.table
        (record {
          table = set-IsTable a law h.nodes i m t.table lt (record {
            counted = omega (arith, kb.counted, size);
            placed = Placed-append n k v b.elems kb.placed;
            distinct = Distinct-append k v b.elems kb.distinct absent;
          });
          counted = omega (arith, t.counted, size, total-set h.nodes i m lt);
        })
        (λ q.
          view-set a law h.nodes k q m (some v) t.table.some_bucket
            (λ r. reads-append k r v b.elems absent))

  -- `hashtable_set` succeeds on a table in order, whether it replaces a value, adds an element or
  -- grows: the table stays in order, the key reads the new value, every other key reads as before.
  pub hashtable_set-Updated :
      (h : Table K V) (k : K) (v : V)
      → IsHashtable h
      → (g : Table K V) × (fs : List (Freed K V)) × (hashtable_set a h k v ≡ some (g, fs))
        × Updated h k (some v) g
  unfolding hashtable_set view
  hashtable_set-Updated h k v t =
      let n = length h.nodes in
      let i = a.hash k % n in
      let b = node_at h.nodes i in
      let kb = t.table.nodes i in
      let lt : i < n = omega (arith, t.table.some_bucket) in
      elim (Option-cases (replace a b.elems k v)) [
        | inl absent ↦
            let full = ltb (h.factor * n % word / 100) (h.count + 1) in
            (
              (if full then grow a (added h k v) else added h k v),
              [],
              rw
                  (
                    hashtable_set,
                    bucket_of-node_at h.nodes (a.hash k) t.table.some_bucket,
                    absent,
                    length-set,
                  )
                  refl,
              grow-Updated h (added h k v) k (some v) full
                  (added-Updated h k v t (replace-none a law b.elems k v absent)),
            )
        | inr ((es, fs), e) ↦
            let r = replace-some a law n i b.elems k v es fs kb.placed kb.distinct e in
            let m : Node K V = record b { elems = es } in
            let g : Table K V = record h { nodes = set h.nodes i m } in
            (
              g,
              fs,
              rw (hashtable_set, bucket_of-node_at h.nodes (a.hash k) t.table.some_bucket, e),
              from_views h g k (some v) t.table
                  (record {
                    table = set-IsTable a law h.nodes i m t.table lt (record {
                      counted = omega (arith, kb.counted, r.size);
                      placed = r.placed;
                      distinct = r.distinct;
                    });
                    counted = omega (arith, t.counted, r.size, total-set h.nodes i m lt);
                  })
                  (λ q. view-set a law h.nodes k q m (some v) t.table.some_bucket r.reads),
            )
      ]

  same_view :
      (h : Table K V) (k q : K)
      → view a law h.nodes k ≡ none
      → view a law h.nodes q ≡ (if a.compare k q then none else view a law h.nodes q)
  unfolding view
  same_view h k q absent = elim (Bool-cases (a.compare k q)) [
    | inl same ↦
        rw
          (
            same,
            sym (law.hash_congr k q same),
            sym (find_congr a law (node_at h.nodes (a.hash k % length h.nodes)).elems k q same),
          )
          absent
    | inr other ↦ rw other
  ]

  -- `hashtable_delete` succeeds on a table in order, with or without the key: the table stays in
  -- order, the key is not found any more, every other key reads as before.
  pub delete-Updated :
      (h : Table K V) (k : K)
      → IsHashtable h
      → (g : Table K V) × (fs : List (Freed K V)) × (delete a h k ≡ some (g, fs))
        × Updated h k none g
  unfolding delete view
  delete-Updated h k t =
      let n = length h.nodes in
      let i = a.hash k % n in
      let b = node_at h.nodes i in
      let kb = t.table.nodes i in
      let lt : i < n = omega (arith, t.table.some_bucket) in
      elim (Option-cases (remove a b.elems k)) [
        | inl absent ↦ (
          h,
          [],
          rw (delete, bucket_of-node_at h.nodes (a.hash k) t.table.some_bucket, absent),
          from_views h h k none t.table t
              (λ q. same_view h k q (remove-none a law b.elems k absent)),
        )
        | inr ((es, fs), e) ↦
            let r = remove-some a law n i b.elems k es fs kb.placed kb.distinct e in
            let m : Node K V = record { count = b.count - 1; elems = es } in
            (
              record { nodes = set h.nodes i m; count = h.count - 1; factor = h.factor },
              fs,
              rw (delete, bucket_of-node_at h.nodes (a.hash k) t.table.some_bucket, e),
              from_views h
                  (record { nodes = set h.nodes i m; count = h.count - 1; factor = h.factor }) k
                  none t.table
                  (record {
                    table = set-IsTable a law h.nodes i m t.table lt (record {
                      counted = omega (arith, kb.counted, r.size);
                      placed = r.placed;
                      distinct = r.distinct;
                    });
                    counted = omega (arith, t.counted, r.size, total-set h.nodes i m lt);
                  })
                  (λ q. view-set a law h.nodes k q m none t.table.some_bucket r.reads),
            )
      ]

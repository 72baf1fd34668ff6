-- ===== src/Hashtable/Whole.antt =====
-- The operations of hashtable.c on a whole table: creation, growth, clearing and the traversal.
use chaconne.Prelude.{
  ℕ, zero, suc, ◌*◌, ◌%◌, ◌<◌, ◌≡◌, refl, sym, ap, ◌∙◌, if◌then◌else◌, true, List, [], ◌∷◌, ◌++◌,
  none, some, arith, length, map, replicate, length-append, length-map,
}
use chaconne.Hashtable.{
  Attr, Elem, Node, Table, Freed, no_node, attr_ok, create, find, get, grow, free_chain, free_elem,
  free_key, free_value, free_nodes, clear, destroy, emptied, travel,
}
use chaconne.Hashtable.Chains.{IsKeyed}
use chaconne.Hashtable.Buckets.{IsTable, node_at, total, view, get-view}
use chaconne.Hashtable.Growth.{grow_lem, empty-IsTable, empty-view, total-replicate}
use chaconne.Hashtable.Map.{IsHashtable}

module _ {ℓ} {K V : Type ℓ} (a : Attr K V) (law : IsKeyed a) where
  -- A table created with at least one bucket, memory and usable attributes holds nothing.
  pub create-empty :
      (n : ℕ)
      → 0 < n
      → attr_ok a ≡ true
      → (h : Table K V) × (create true true n a ≡ some h)
        × IsHashtable a law h
        × ((q : K) → get a h q ≡ some none)
  unfolding create
  create-empty n pos ok =
      let h : Table K V = record { nodes = replicate n no_node; count = 0; factor = 80 } in
      let t = empty-IsTable a law n pos in
      (
        h,
        rw (create, ok),
        record { table = t; counted = sym (total-replicate a law n) },
        λ q. get-view a law h q t ∙ ap some (empty-view a law n q),
      )

  -- `hashtable_grow` keeps the table in order, under twice the buckets, and every key as it was.
  pub grow-get :
      (h : Table K V)
      → IsHashtable a law h
      → IsHashtable a law (grow a h)
        × (length (grow a h).nodes ≡ length h.nodes * 2)
        × ((q : K) → get a (grow a h) q ≡ get a h q)
  grow-get h t =
      let d = grow_lem a law h t.table in
      (
        record { table = d.table; counted = d.count ∙ t.counted ∙ sym d.all },
        d.buckets,
        λ q.
            get-view a law (grow a h) q d.table
            ∙ ap some (d.reads q)
            ∙ sym (get-view a law h q t.table),
      )

  node_at-emptied : (ns : List (Node K V)) (i : ℕ) → (node_at (map (emptied a) ns) i).elems ≡ []
  unfolding node_at emptied
  node_at-emptied [] i = refl
  node_at-emptied (n ∷ ns) zero = refl
  node_at-emptied (n ∷ ns) (suc i) = node_at-emptied ns i

  total-emptied : (ns : List (Node K V)) → total (map (emptied a) ns) ≡ 0
  unfolding total emptied
  total-emptied [] = refl
  total-emptied (n ∷ ns) = omega (arith, total-emptied ns)

  -- `hashtable_clear` keeps the table in order, and no key is found in it any more.
  pub clear-empty :
      (h : Table K V)
      → IsHashtable a law h
      → IsHashtable a law (clear a h).0 × ((q : K) → get a (clear a h).0 q ≡ some none)
  unfolding clear view find
  clear-empty h t =
      let ns = map (emptied a) h.nodes in
      let no_elems = node_at-emptied h.nodes in
      let table : IsTable a law ns = record {
        some_bucket = rw (length-map h.nodes (emptied a)) t.table.some_bucket;
        nodes = λ i. record {
          counted = rw (no_elems i) (omega arith);
          placed = rw (no_elems i) tt;
          distinct = rw (no_elems i) tt;
        };
      } in
      (
        record { table = table; counted = sym (total-emptied h.nodes) },
        λ q. get-view a law (clear a h).0 q table ∙ rw (no_elems (a.hash q % length ns)),
      )

  length-travel : (ns : List (Node K V)) → length (travel ns) ≡ total ns
  unfolding travel total
  length-travel [] = refl
  length-travel (n ∷ ns) =
      let pair : Elem K V → K × V = λ e. (e.key, e.value) in
      omega (
        arith,
        length-append (map pair n.elems) (travel ns),
        length-map n.elems pair,
        length-travel ns,
      )

  -- `hashtable_travel` calls its function as often as `count` says.
  pub travel-count : (h : Table K V) → IsHashtable a law h → length (travel h.nodes) ≡ h.count
  travel-count h t = length-travel h.nodes ∙ sym t.counted

  -- The calls of the free callbacks for a list of pairs: for each the key, then the value.
  pub released : List (K × V) → List (Freed K V)
  released [] = []
  released ((k, v) ∷ ps) =
      (if a.frees_key then Freed.key k ∷ [] else [])
      ++ (if a.frees_value then Freed.value v ∷ [] else [])
      ++ released ps

  released-append : (ps qs : List (K × V)) → released (ps ++ qs) ≡ released ps ++ released qs
  unfolding released
  released-append [] qs = refl
  released-append ((k, v) ∷ ps) qs = ground (arith, released-append ps qs)

  free_chain-released :
      (es : List (Elem K V)) → free_chain a es ≡ released (map (λ e. (e.key, e.value)) es)
  unfolding free_chain free_elem free_key free_value released
  free_chain-released [] = refl
  free_chain-released (e ∷ es) = ground (arith, free_chain-released es)

  free_nodes-released : (ns : List (Node K V)) → free_nodes a ns ≡ released (travel ns)
  unfolding free_nodes travel released
  free_nodes-released [] = refl
  free_nodes-released (n ∷ ns) =
      rw (free_nodes-released ns, free_chain-released n.elems, released-append)

  -- `hashtable_destroy` and `hashtable_clear` free every pair that `hashtable_travel` visits, once
  -- and in the order of the visits.
  pub destroy-released :
      (h : Table K V)
      → (destroy a h ≡ released (travel h.nodes)) × ((clear a h).1 ≡ released (travel h.nodes))
  unfolding destroy clear
  destroy-released h = (free_nodes-released h.nodes, free_nodes-released h.nodes)

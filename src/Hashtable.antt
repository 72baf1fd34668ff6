-- ===== src/Hashtable.antt =====
-- hashtable.c: the chained hash table, with the keys, the values and the two callbacks as
-- parameters. What the free callbacks are called on is part of each result.
pub mod Chains
pub mod Buckets
pub mod Moves
pub mod Growth
pub mod Map
pub mod Whole
mod Tests
use mathlib.Core.List.{map}
use chaconne.Prelude.{
  ℕ, zero, suc, ◌+◌, ◌-◌, ◌*◌, ◌/◌, ◌%◌, ◌^◌, Bool, true, false, not, ◌&&◌, ◌||◌, List, [], ◌∷◌,
  ◌++◌, Option, none, some, ltb, ◌==◌, if◌then◌else◌, length, get_elem?, set, replicate,
}

-- `struct kpattr`. `compare a b` is whether the callback gives 0, `same` whether two values are one
-- pointer, and the last two fields whether the free callbacks are set.
pub record Attr {ℓ} (K V : Type ℓ) : Type ℓ where
  pub key_is_ptr : Bool
  pub value_is_ptr : Bool
  pub key_size : ℕ
  pub value_size : ℕ
  pub callbacks_set : Bool
  pub hash : K → ℕ
  pub compare : K → K → Bool
  pub same : V → V → Bool
  pub frees_key : Bool
  pub frees_value : Bool

pub record Elem {ℓ} (K V : Type ℓ) : Type ℓ where
  pub hash : ℕ
  pub key : K
  pub value : V

pub record Node {ℓ} (K V : Type ℓ) : Type ℓ where
  pub count : ℕ
  pub elems : List (Elem K V)

-- `bucket_size` is the length of `nodes`.
pub record Table {ℓ} (K V : Type ℓ) : Type ℓ where
  pub nodes : List (Node K V)
  pub count : ℕ
  pub factor : ℕ

-- A call of a free callback.
pub data Freed {ℓ} (K V : Type ℓ) : Type ℓ where
  key : K → Freed K V
  value : V → Freed K V

abbrev pub word : ℕ
word = 2 ^ 64

module _ {ℓ} {K V : Type ℓ} where
  abbrev pub no_node : Node K V
  no_node = record { count = 0; elems = [] }

  unfoldable pub attr_ok : Attr K V → Bool
  attr_ok a =
      a.callbacks_set
      && not (not a.key_is_ptr && (a.key_size == 0))
      && not (not a.value_is_ptr && (a.value_size == 0))

  -- `table_memory` and `node_memory` tell whether the two calls of `calloc` succeed.
  unfoldable pub create : Bool → Bool → ℕ → Attr K V → Option (Table K V)
  unfolding attr_ok
  create table_memory node_memory bucket_size a =
      if table_memory && node_memory && attr_ok a
      then some (record { nodes = replicate bucket_size no_node; count = 0; factor = 80 })
      else none

  -- `h->node + (hash % h->bucket_size)`; `none` is the division by zero of a table with no bucket.
  unfoldable pub bucket_of : List (Node K V) → ℕ → Option (ℕ × Node K V)
  bucket_of [] hash = none
  bucket_of (n ∷ ns) hash =
      let i = hash % length (n ∷ ns) in
      elim (get_elem? (n ∷ ns) i) [ none ↦ none | some node ↦ some (i, node) ]

  module _ (a : Attr K V) where
    unfoldable pub free_key : Elem K V → List (Freed K V)
    free_key e = if a.frees_key then key e.key ∷ [] else []

    unfoldable pub free_value : Elem K V → List (Freed K V)
    free_value e = if a.frees_value then value e.value ∷ [] else []

    unfoldable pub free_elem : Elem K V → List (Freed K V)
    unfolding free_key free_value
    free_elem e = free_key e ++ free_value e

    -- The loop of `hashtable_get`.
    unfoldable pub find : List (Elem K V) → K → Option V
    find [] k = none
    find (e ∷ es) k = if a.compare e.key k then some e.value else find es k

    unfoldable pub get : Table K V → K → Option (Option V)
    unfolding bucket_of find
    get h k = elim (bucket_of h.nodes (a.hash k)) [
      | none ↦ none
      | some (i, node) ↦ some (if node.count == 0 then none else find node.elems k)
    ]

    -- The move of one element by `hashtable_grow`, to the front of its new chain.
    unfoldable pub push : List (Node K V) → Elem K V → List (Node K V)
    unfolding bucket_of
    push ns e = elim (bucket_of ns e.hash) [
      | none ↦ ns
      | some (i, node) ↦ set ns i (record { count = node.count + 1; elems = e ∷ node.elems })
    ]

    unfoldable pub move_chain : List (Elem K V) → List (Node K V) → List (Node K V)
    unfolding push
    move_chain [] ns = ns
    move_chain (e ∷ es) ns = move_chain es (push ns e)

    unfoldable pub move_all : List (Node K V) → List (Node K V) → List (Node K V)
    unfolding move_chain
    move_all [] ns = ns
    move_all (n ∷ old) ns = move_all old (move_chain n.elems ns)

    unfoldable pub grow : Table K V → Table K V
    unfolding move_all
    grow h = record h { nodes = move_all h.nodes (replicate (length h.nodes * 2) no_node) }

    -- The value that `hashtable_set` replaces is freed, unless it is the very pointer that is set.
    unfoldable pub free_old : V → Elem K V → List (Freed K V)
    unfolding free_value
    free_old v e = if not a.value_is_ptr || not (a.same e.value v) then free_value e else []

    -- The loop of `hashtable_set`: the chain with the value replaced, if it has the key.
    unfoldable pub replace : List (Elem K V) → K → V → Option (List (Elem K V) × List (Freed K V))
    unfolding free_old
    replace [] k v = none
    replace (e ∷ es) k v =
        if a.compare e.key k
        then some (record e { value = v } ∷ es, free_old v e)
        else elim (replace es k v) [ none ↦ none | some (rest, freed) ↦ some (e ∷ rest, freed) ]

    -- `hashtable_set` with memory for the element and for the growth.
    unfoldable pub hashtable_set : Table K V → K → V → Option (Table K V × List (Freed K V))
    unfolding bucket_of replace grow
    hashtable_set h k v = elim (bucket_of h.nodes (a.hash k)) [
      | none ↦ none
      | some (i, node) ↦ elim (replace node.elems k v) [
        | some (es, freed) ↦
            some (record h { nodes = set h.nodes i (record node { elems = es }) }, freed)
        | none ↦
            let e : Elem K V = record { hash = a.hash k; key = k; value = v } in
            let added = record h {
              nodes =
                  set h.nodes i (record { count = node.count + 1; elems = node.elems ++ e ∷ [] });
              count = h.count + 1;
            } in
            let full = ltb (h.factor * length h.nodes % word / 100) (h.count + 1) in
            some (if full then grow added else added, [])
      ]
    ]

    -- The loop of `hashtable_delete`.
    unfoldable pub remove : List (Elem K V) → K → Option (List (Elem K V) × List (Freed K V))
    unfolding free_elem
    remove [] k = none
    remove (e ∷ es) k =
        if a.compare e.key k
        then some (es, free_elem e)
        else elim (remove es k) [ none ↦ none | some (rest, freed) ↦ some (e ∷ rest, freed) ]

    unfoldable pub delete : Table K V → K → Option (Table K V × List (Freed K V))
    unfolding bucket_of remove
    delete h k = elim (bucket_of h.nodes (a.hash k)) [
      | none ↦ none
      | some (i, node) ↦ elim (remove node.elems k) [
        | none ↦ some (h, [])
        | some (es, freed) ↦ some (
          record {
            nodes = set h.nodes i (record { count = node.count - 1; elems = es });
            count = h.count - 1;
            factor = h.factor;
          },
          freed,
        )
      ]
    ]

    unfoldable pub free_chain : List (Elem K V) → List (Freed K V)
    unfolding free_elem
    free_chain [] = []
    free_chain (e ∷ es) = free_elem e ++ free_chain es

    unfoldable pub free_nodes : List (Node K V) → List (Freed K V)
    unfolding free_chain
    free_nodes [] = []
    free_nodes (n ∷ ns) = free_chain n.elems ++ free_nodes ns

    unfoldable pub emptied : Node K V → Node K V
    emptied n = record n { elems = [] }

    -- The chains are emptied; the counts of the buckets are left as they are.
    unfoldable pub clear : Table K V → Table K V × List (Freed K V)
    unfolding free_nodes emptied
    clear h = (record h { nodes = map emptied h.nodes; count = 0 }, free_nodes h.nodes)

    unfoldable pub destroy : Table K V → List (Freed K V)
    unfolding free_nodes
    destroy h = free_nodes h.nodes

  -- The pairs that `hashtable_travel` hands to its function, in order.
  unfoldable pub travel : List (Node K V) → List (K × V)
  travel [] = []
  travel (n ∷ ns) = map (λ e. (e.key, e.value)) n.elems ++ travel ns

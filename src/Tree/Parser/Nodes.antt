-- ===== src/Tree/Parser/Nodes.antt =====
-- `cmd_node_insert` of cli-tree.c: what stands at each place, and the order of the tree.
use mathlib.Core.Path.{subst}
use chaconne.Prelude.{
  ℕ, zero, suc, ◌≤◌, ◌<◌, ◌≡◌, ◌⊎◌, refl, ◌∙◌, Bool, true, false, List, [], ◌∷◌, ◌++◌, arith, ◌==◌,
  if◌then◌else◌, length, length-append, length-set, set, get_or, Bool-cases, inl, inr,
}
use chaconne.Tree.{Token, Node, Tree, node, blank_node}
use chaconne.Tree.Parser.{token_type, cmd_node_insert, assign, Elem}

module _ {ℓ} {A : Type ℓ} where
  get_or-set :
      (xs : List A) (i j : ℕ) (x d : A)
      → i < length xs
      → get_or (set xs i x) j d ≡ (if j == i then x else get_or xs j d)
  get_or-set [] i j x d h = absurd (omega arith)
  get_or-set (y ∷ xs) zero zero x d h = refl
  get_or-set (y ∷ xs) zero (suc j) x d h = ground arith
  get_or-set (y ∷ xs) (suc i) zero x d h = ground arith
  get_or-set (y ∷ xs) (suc i) (suc j) x d h = get_or-set xs i j x d (omega arith) ∙ ground arith

  get_or-snoc :
      (xs : List A) (j : ℕ) (x d : A)
      → get_or (xs ++ x ∷ []) j d ≡ (if j == length xs then x else get_or xs j d)
  get_or-snoc [] zero x d = refl
  get_or-snoc [] (suc j) x d = ground arith
  get_or-snoc (y ∷ xs) zero x d = ground arith
  get_or-snoc (y ∷ xs) (suc j) x d = get_or-snoc xs j x d ∙ ground arith

-- The node above, with the new one at the end of one of its chains.
abbrev pub linked : Tree → ℕ → Bool → Node
linked tree p keyword =
    if keyword
    then record (node tree p) { keyword = (node tree p).keyword ++ length tree ∷ [] }
    else record (node tree p) { children = (node tree p).children ++ length tree ∷ [] }

abbrev pub new_node : ℕ → List Token → Node
new_node p ts = record blank_node { parent = p; tokens = ts }

pub node-cmd_node_insert :
    (tree : Tree) (p : ℕ) (ts : List Token) (keyword : Bool) (j : ℕ)
    → p < length tree
    → node (cmd_node_insert tree p ts keyword) j ≡ (
        if j == length tree
        then new_node p ts
        else if j == p
        then linked tree p keyword
        else node tree j)
unfolding node cmd_node_insert
node-cmd_node_insert tree p ts keyword j h =
    get_or-snoc (set tree p (linked tree p keyword)) j (new_node p ts) blank_node
    ∙ rw (
      length-set tree p (linked tree p keyword),
      get_or-set tree p j (linked tree p keyword) blank_node h,
    )

pub length-cmd_node_insert :
    (tree : Tree) (p : ℕ) (ts : List Token) (keyword : Bool)
    → length (cmd_node_insert tree p ts keyword) ≡ suc (length tree)
unfolding cmd_node_insert
length-cmd_node_insert tree p ts keyword = omega (
  arith,
  length-append (set tree p (linked tree p keyword)) (new_node p ts ∷ []),
  length-set tree p (linked tree p keyword),
)

pub node-assign :
    (elem : Elem) (i : ℕ) (tree : Tree) (j : ℕ)
    → i < length tree
    → node (assign elem i tree) j ≡ (
        if j == i
        then record (node tree i) { func = elem.func; optattr = elem.optattr }
        else node tree j)
unfolding node assign
node-assign elem i tree j h =
    get_or-set tree i j (record (node tree i) { func = elem.func; optattr = elem.optattr })
      blank_node h

pub length-assign : (elem : Elem) (i : ℕ) (tree : Tree) → length (assign elem i tree) ≡ length tree
unfolding assign
length-assign elem i tree =
    length-set tree i (record (node tree i) { func = elem.func; optattr = elem.optattr })

-- The nodes of a chain below node `i` of `n`.
abbrev pub Links : ℕ → ℕ → List ℕ → Type 0
Links i n [] = Unit
Links i n (id ∷ ids) = (i < id) × (id < n) × Links i n ids

abbrev pub Typed : List Token → Type 0
Typed [] = Unit
Typed (t ∷ ts) = (t.type ≡ token_type t.key) × Typed ts

-- What holds of node `i` of `n`: its chains lead to nodes behind it, its parent is a node, its
-- tokens have the types of their keys, and it has tokens unless it is the root.
pub record IsNode (n i : ℕ) (x : Node) : Type 0 where
  pub children : Links i n x.children
  pub keyword : Links i n x.keyword
  pub parent : x.parent < n
  pub typed : Typed x.tokens
  pub named : (i ≡ 0) ⊎ (1 ≤ length x.tokens)

-- A tree: it has a root, and all its nodes are in order.
pub record IsTree (tree : Tree) : Type 0 where
  pub rooted : 0 < length tree
  pub nodes : (i : ℕ) → i < length tree → IsNode (length tree) i (node tree i)

Links-more : (i n : ℕ) (ids : List ℕ) → Links i n ids → Links i (suc n) ids
Links-more i n [] l = tt
Links-more i n (id ∷ ids) l = (l.0, omega (arith, l.1), Links-more i n ids l.2)

Links-snoc : (i n : ℕ) (ids : List ℕ) → i < n → Links i n ids → Links i (suc n) (ids ++ n ∷ [])
Links-snoc i n [] h l = (h, omega arith, tt)
Links-snoc i n (id ∷ ids) h l = (l.0, omega (arith, l.1), Links-snoc i n ids h l.2)

IsNode-more : (n i : ℕ) (x : Node) → IsNode n i x → IsNode (suc n) i x
IsNode-more n i x k = record {
  children = Links-more i n x.children k.children;
  keyword = Links-more i n x.keyword k.keyword;
  parent = omega (arith, k.parent);
  typed = k.typed;
  named = k.named;
}

linked-IsNode :
    (tree : Tree) (p : ℕ) (keyword : Bool)
    → p < length tree
    → IsNode (length tree) p (node tree p)
    → IsNode (suc (length tree)) p (linked tree p keyword)
linked-IsNode tree p true h k = record {
  children = Links-more p (length tree) (node tree p).children k.children;
  keyword = Links-snoc p (length tree) (node tree p).keyword h k.keyword;
  parent = omega (arith, k.parent);
  typed = k.typed;
  named = k.named;
}
linked-IsNode tree p false h k = record {
  children = Links-snoc p (length tree) (node tree p).children h k.children;
  keyword = Links-more p (length tree) (node tree p).keyword k.keyword;
  parent = omega (arith, k.parent);
  typed = k.typed;
  named = k.named;
}

pub cmd_node_insert-IsTree :
    (tree : Tree) (p : ℕ) (ts : List Token) (keyword : Bool)
    → IsTree tree
    → p < length tree
    → Typed ts
    → 1 ≤ length ts
    → IsTree (cmd_node_insert tree p ts keyword)
cmd_node_insert-IsTree tree p ts keyword t h typed some_token =
    let size = length-cmd_node_insert tree p ts keyword in
    record {
      rooted = omega (arith, size);
      nodes = λ i lt.
          rw (size, node-cmd_node_insert tree p ts keyword i h)
            (elim (Bool-cases (i == length tree)) [
              | inl last ↦ rw last (record {
                children = tt;
                keyword = tt;
                parent = omega (arith, h);
                typed = typed;
                named = inr some_token;
              })
              | inr before ↦
                  let lt' : i < length tree = ground (arith, before, lt, size) in
                  elim (Bool-cases (i == p)) [
                    | inl same ↦
                        let e : p ≡ i = ground (arith, same) in
                        rw (before, same)
                          (subst (λ j. IsNode (suc (length tree)) j (linked tree p keyword)) e
                            (linked-IsNode tree p keyword h (t.nodes p h)))
                    | inr differ ↦
                        rw (before, differ)
                          (IsNode-more (length tree) i (node tree i) (t.nodes i lt'))
                  ]
            ]);
    }

pub assign-IsTree :
    (elem : Elem) (p : ℕ) (tree : Tree)
    → IsTree tree
    → p < length tree
    → IsTree (assign elem p tree)
assign-IsTree elem p tree t h =
    let size = length-assign elem p tree in
    record {
      rooted = omega (arith, size, t.rooted);
      nodes = λ i lt.
          rw (size, node-assign elem p tree i h)
            (elim (Bool-cases (i == p)) [
              | inl same ↦
                  let e : p ≡ i = ground (arith, same) in
                  let k = t.nodes p h in
                  rw same (
                    subst
                      (λ j.
                        IsNode (length tree) j
                          (record (node tree p) { func = elem.func; optattr = elem.optattr }))
                      e
                      (record {
                        children = k.children;
                        keyword = k.keyword;
                        parent = k.parent;
                        typed = k.typed;
                        named = k.named;
                      }))
              | inr differ ↦ rw differ (t.nodes i (omega (arith, size, lt)))
            ]);
    }

pub blank-IsTree : IsTree (blank_node ∷ [])
unfolding node
blank-IsTree = record { rooted = omega arith; nodes = root }
  where
    root : (i : ℕ) → i < 1 → IsNode 1 i (get_or (blank_node ∷ []) i blank_node)
    root zero lt = record {
      children = tt;
      keyword = tt;
      parent = omega arith;
      typed = tt;
      named = inl refl;
    }
    root (suc i) lt = absurd (omega arith)

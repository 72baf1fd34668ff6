-- ===== src/Tree/Plain.antt =====
-- Paths in the tree of cli-tree.c, along the tokens of plain words.
pub mod Parse
pub mod Adds
pub mod Finds
pub mod RoundTrip
use mathlib.Core.Path.{subst}
use mathlib.Core.Option.{some-injective}
use chaconne.Prelude.{
  ℕ, zero, suc, ◌+◌, ◌≤◌, ◌<◌, ◌≡◌, ◌≢◌, ◌⊎◌, refl, sym, ap, ◌∙◌, Bool, true, false, List, [], ◌∷◌,
  ◌++◌, Option, none, some, arith, ◌==◌, if◌then◌else◌, length, append-nil, Bool-cases,
  Option-cases, inl, inr,
}
use chaconne.Tree.{Token, Node, Tree, node, same_key}
use chaconne.Tree.Parser.{cmd_node_insert, find_one, has_key, assign, Elem}
use chaconne.Tree.Parser.Nodes.{
  IsTree, IsNode, Links, node-cmd_node_insert, length-cmd_node_insert, node-assign, length-assign,
  linked, new_node,
}
use chaconne.Tree.Parser.State.{find_one-lt}

-- The node that a path of words leads to from a node, over the children that have the words.
unfoldable pub walk : Tree → ℕ → List (List ℕ) → Option ℕ
walk tree i [] = some i
walk tree i (w ∷ ws) = elim (find_one tree (node tree i).children w) [
  | none ↦ none
  | some id ↦ walk tree id ws
]

-- No node has keywords.
abbrev pub NoKeywords : Tree → Type 0
NoKeywords tree = (i : ℕ) → (node tree i).keyword ≡ []

-- A tree that has all the tokens and children of another, and maybe more children.
pub record Extends (t u : Tree) : Type 0 where
  pub longer : length t ≤ length u
  pub tokens : (i : ℕ) → i < length t → (node u i).tokens ≡ (node t i).tokens
  pub children :
      (i : ℕ) → i < length t → (more : List ℕ) × ((node u i).children ≡ (node t i).children ++ more)

find_one-Extends :
    (t u : Tree) (i n : ℕ) (ids more : List ℕ) (key : List ℕ) (id : ℕ)
    → Extends t u
    → n ≤ length t
    → Links i n ids
    → find_one t ids key ≡ some id
    → find_one u (ids ++ more) key ≡ some id
unfolding find_one
find_one-Extends t u i n [] more key id x le l e = cc
find_one-Extends t u i n (a ∷ ids) more key id x le l e =
    elim (Bool-cases (has_key (node t a).tokens key)) [
      | inl here ↦ rw (find_one, x.tokens a (omega (arith, l.1)), here) (rw (find_one, here) at e)
      | inr there ↦
          rw (find_one, x.tokens a (omega (arith, l.1)), there)
            (find_one-Extends t u i n ids more key id x le l.2 (rw (find_one, there) at e))
    ]

pub find_one-absent :
    (t u : Tree) (i n : ℕ) (ids more : List ℕ) (key : List ℕ)
    → Extends t u
    → n ≤ length t
    → Links i n ids
    → find_one t ids key ≡ none
    → find_one u (ids ++ more) key ≡ find_one u more key
unfolding find_one
find_one-absent t u i n [] more key x le l e = refl
find_one-absent t u i n (a ∷ ids) more key x le l e =
    elim (Bool-cases (has_key (node t a).tokens key)) [
      | inl here ↦ cc (rw (find_one, here) at e)
      | inr there ↦
          rw (find_one, x.tokens a (omega (arith, l.1)), there)
            (find_one-absent t u i n ids more key x le l.2 (rw (find_one, there) at e))
    ]

-- A path stays where the tree grows.
pub walk-Extends :
    (t u : Tree) (i j : ℕ) (ws : List (List ℕ))
    → IsTree t
    → Extends t u
    → i < length t
    → walk t i ws ≡ some j
    → walk u i ws ≡ some j
unfolding walk
walk-Extends t u i j [] k x h e = e
walk-Extends t u i j (w ∷ ws) k x h e = elim (Option-cases (find_one t (node t i).children w)) [
  | inl absent ↦ cc (rw (walk, absent) at e)
  | inr (id, e') ↦
      let ids = (node t i).children in
      let links = (k.nodes i h).children in
      let more = (x.children i h).0 in
      let found : find_one u (node u i).children w ≡ some id =
        rw ((x.children i h).1)
          (find_one-Extends t u i (length t) ids more w id x (omega arith) links e') in
      rw (walk, found)
        (walk-Extends t u id j ws k x (find_one-lt t i (length t) ids w id links e')
          (rw (walk, e') at e))
]

pub walk-append :
    (t : Tree) (i j : ℕ) (ws : List (List ℕ)) (w : List ℕ)
    → walk t i ws ≡ some j
    → walk t i (ws ++ w ∷ []) ≡ find_one t (node t j).children w
unfolding walk
walk-append t i j [] w e =
    let same : i ≡ j = some-injective i j e in rw same (last (find_one t (node t j).children w))
  where
    last : (o : Option ℕ) → elim o as (λ x. Option ℕ) [ none ↦ none | some id ↦ some id ] ≡ o
    last none = refl
    last (some id) = refl
walk-append t i j (v ∷ ws) w e = elim (Option-cases (find_one t (node t i).children v)) [
  | inl absent ↦ cc (rw (walk, absent) at e)
  | inr (id, e') ↦ rw (walk, e') (walk-append t id j ws w (rw (walk, e') at e))
]

pub Extends-cmd_node_insert :
    (t : Tree) (p : ℕ) (ts : List Token) → p < length t → Extends t (cmd_node_insert t p ts false)
Extends-cmd_node_insert t p ts h = record {
  longer = omega (arith, length-cmd_node_insert t p ts false);
  tokens = λ i lt. at_node i lt (λ x. x.tokens ≡ (node t i).tokens) refl refl;
  children = λ i lt.
      at_node i lt (λ x. (more : List ℕ) × (x.children ≡ (node t i).children ++ more))
        (length t ∷ [], refl) ([], sym (append-nil (node t i).children));
}
  where
    at_node :
        (i : ℕ)
        → i < length t
        → (P : Node → Type 0) → P (linked t i false)
        → P (node t i)
        → P (node (cmd_node_insert t p ts false) i)
    at_node i lt P grown same =
        let old : (i == length t) ≡ false = ground (arith, lt) in
        rw (node-cmd_node_insert t p ts false i h, old)
          (elim (Bool-cases (i == p)) [
            | inl here ↦
                (let e : i ≡ p = ground (arith, here) in
                  rw here (subst (λ k. P (linked t k false)) e grown))
            | inr there ↦ rw there same
          ])

pub Extends-assign : (elem : Elem) (p : ℕ) (t : Tree) → p < length t → Extends t (assign elem p t)
Extends-assign elem p t h = record {
  longer = omega (arith, length-assign elem p t);
  tokens = λ i lt. at_node i (λ x. x.tokens ≡ (node t i).tokens) refl refl;
  children = λ i lt.
      at_node i (λ x. (more : List ℕ) × (x.children ≡ (node t i).children ++ more))
        ([], sym (append-nil (node t i).children)) ([], sym (append-nil (node t i).children));
}
  where
    at_node :
        (i : ℕ)
        → (P : Node → Type 0) → P (record (node t i) { func = elem.func; optattr = elem.optattr })
        → P (node t i)
        → P (node (assign elem p t) i)
    at_node i P set_it same = rw (node-assign elem p t i h) (elim (Bool-cases (i == p)) [
      | inl here ↦
          let e : i ≡ p = ground (arith, here) in
          rw here (
            subst (λ k. P (record (node t k) { func = elem.func; optattr = elem.optattr })) e
              set_it)
      | inr there ↦ rw there same
    ])

-- ===== src/Tree/Parser/State.antt =====
-- The state of the parser of cli-tree.c, and the nodes that it finds.
use chaconne.Prelude.{
  ℕ, ◌+◌, ◌<◌, ◌≡◌, refl, Bool, true, false, not, ◌&&◌, List, [], ◌∷◌, ◌++◌, Option, none, some,
  arith, ltb, ◌==◌, if◌then◌else◌, length, Bool-cases, Option-cases, inl, inr,
}
use chaconne.Tree.{Token, Tree, node}
use chaconne.Tree.Lines.{split}
use chaconne.Tree.Parser.{
  Parser, token_type, has_key, find_one, count_found, find_several, cmd_node_find,
}
use chaconne.Tree.Parser.Nodes.{IsTree, Links, Typed}

-- The input that is left.
abbrev pub weight : Parser → ℕ
weight p = length p.cp + length p.desc

-- The tree is in order, the two cursors are nodes of it, and the tokens read have their types.
pub record IsState (tree : Tree) (parent save : ℕ) (collected : List Token) : Type 0 where
  pub tree_ok : IsTree tree
  pub parent_in : parent < length tree
  pub save_in : save < length tree
  pub typed : Typed collected

abbrev pub Ensures : ℕ → Option Parser → Type 0
Ensures w none = Unit
Ensures w (some p) = (weight p < w) × IsState p.tree p.parent p.save_parent p.collected

pub if-Ensures :
    (b : Bool) (w : ℕ) (x y : Option Parser)
    → (b ≡ true → Ensures w x)
    → (b ≡ false → Ensures w y)
    → Ensures w (if b then x else y)
if-Ensures true w x y hx hy = hx refl
if-Ensures false w x y hx hy = hy refl

pub Typed-snoc :
    (ts : List Token) (t : Token) → Typed ts → t.type ≡ token_type t.key → Typed (ts ++ t ∷ [])
Typed-snoc [] t h e = (e, tt)
Typed-snoc (u ∷ ts) t h e = (h.0, Typed-snoc ts t h.1 e)

pub find_one-lt :
    (tree : Tree) (i n : ℕ) (ids : List ℕ) (key : List ℕ) (id : ℕ)
    → Links i n ids
    → find_one tree ids key ≡ some id
    → id < n
unfolding find_one
find_one-lt tree i n [] key id l e = cc
find_one-lt tree i n (x ∷ ids) key id l e = elim (Bool-cases (has_key (node tree x).tokens key)) [
  | inl here ↦ (let same : x ≡ id = cc (rw here at e) in omega (arith, same, l.1))
  | inr there ↦ find_one-lt tree i n ids key id l.2 (rw there at e)
]

pub find_one-gt :
    (tree : Tree) (i n : ℕ) (ids : List ℕ) (key : List ℕ) (id : ℕ)
    → Links i n ids
    → find_one tree ids key ≡ some id
    → i < id
unfolding find_one
find_one-gt tree i n [] key id l e = cc
find_one-gt tree i n (x ∷ ids) key id l e = elim (Bool-cases (has_key (node tree x).tokens key)) [
  | inl here ↦ (let same : x ≡ id = cc (rw here at e) in omega (arith, same, l.0))
  | inr there ↦ find_one-gt tree i n ids key id l.2 (rw there at e)
]

find_several-lt :
    (tree : Tree) (i n : ℕ) (ids : List ℕ) (ts : List Token) (id found : ℕ)
    → Links i n ids
    → find_several tree ids ts ≡ some (id, found)
    → id < n
unfolding find_several
find_several-lt tree i n [] ts id found l e = cc
find_several-lt tree i n (x ∷ ids) ts id found l e =
    let own = (node tree x).tokens in
    elim (Bool-cases (not (length own == 1) && ltb 0 (count_found own ts))) [
      | inl here ↦ (let same : x ≡ id = cc (rw here at e) in omega (arith, same, l.1))
      | inr there ↦ find_several-lt tree i n ids ts id found l.2 (rw there at e)
    ]

pub cmd_node_find-lt :
    (tree : Tree) (p : ℕ) (ts : List Token) (id found : ℕ)
    → IsTree tree
    → p < length tree
    → cmd_node_find tree p ts ≡ some (id, found)
    → id < length tree
unfolding cmd_node_find
cmd_node_find-lt tree p [] id found t h e =
    find_several-lt tree p (length tree) (node tree p).children [] id found (t.nodes p h).children e
cmd_node_find-lt tree p (x ∷ []) id found t h e =
    elim (Option-cases (find_one tree (node tree p).children x.key)) [
      | inl absent ↦ cc (rw (absent, cmd_node_find) at e)
      | inr (i, e') ↦
          let same : i ≡ id = cc (rw (e', cmd_node_find) at e) in
          omega (
            arith,
            same,
            find_one-lt tree p (length tree) (node tree p).children x.key i (t.nodes p h).children
                e',
          )
    ]
cmd_node_find-lt tree p (x ∷ y ∷ ts) id found t h e =
    find_several-lt tree p (length tree) (node tree p).children (x ∷ y ∷ ts) id found
      (t.nodes p h).children e

pub split-length :
    (test : ℕ → Bool) (cs : List ℕ)
    → length (split test cs).0 + length (split test cs).1 ≡ length cs
unfolding split
split-length test [] = omega arith
split-length test (c ∷ cs) = elim (Bool-cases (test c)) [
  | inl took ↦ rw (split, took) (omega (arith, split-length test cs))
  | inr left_it ↦ rw (split, left_it) (omega arith)
]

-- ===== src/Tree/Plain/RoundTrip.antt =====
-- The parser of cli-tree.c and its search: a command that was added is found by its words.
use mathlib.Core.List.{map}
use chaconne.Prelude.{ℕ, ◌≤◌, ◌≡◌, ap, ◌∙◌, Bool, true, List, [], ◌∷◌, arith, ◌==◌, length}
use chaconne.Tree.{Tree, node}
use chaconne.Tree.Lines.RoundTrip.{Every, line_of}
use chaconne.Tree.Search.{Found, reached, cmd_search}
use chaconne.Tree.Parser.{Elem, Added, added, cmd_add_elem}
use chaconne.Tree.Parser.Nodes.{IsTree}
use chaconne.Tree.Plain.{NoKeywords}
use chaconne.Tree.Plain.Adds.{PlainLine, Helps, cmd_add_elem-AddsAs}
use chaconne.Tree.Plain.Finds.{Literals, cmd_search-walk}

-- The words of a line.
abbrev pub words_in : List (List ℕ × List ℕ) → List (List ℕ)
words_in ps = map (λ p. p.1) ps

-- A command added, in a tree in order without keywords, where its words find its function and its
-- attributes, and no pair.
pub record Runs (elem : Elem) (words : List (List ℕ)) (r : Added) : Type 0 where
  pub tree : Tree
  pub result : r ≡ added tree
  pub tree_ok : IsTree tree
  pub bare : NoKeywords tree
  pub found : Found
  pub search : cmd_search tree (node tree 0).children words ≡ reached found
  pub func : (node tree found.target).func ≡ elem.func
  pub optattr : (node tree found.target).optattr ≡ elem.optattr
  pub no_pairs : found.pairs ≡ []

-- Where a space is blank: a line of literal words with a help line for each is added to every tree
-- in order without keywords, and then the search by its words ends at a node with its function and
-- its attributes, and sets no pair.
pub cmd_search-cmd_add_elem :
    (isspace : ℕ → Bool) (tree : Tree) (ps : List (List ℕ × List ℕ)) (gap : List ℕ) (elem : Elem)
    → isspace b' ' ≡ true
    → IsTree tree
    → NoKeywords tree
    → PlainLine isspace 0 ps
    → Every (λ c. c == b' ') gap
    → 1 ≤ length ps
    → Literals (words_in ps)
    → elem.line ≡ line_of isspace ps gap
    → Helps isspace (length ps) elem.desc
    → Runs elem (words_in ps) (cmd_add_elem isspace tree elem)
cmd_search-cmd_add_elem isspace tree [] gap elem space t bare l g some_word lits e helps =
    absurd (omega arith)
cmd_search-cmd_add_elem isspace tree ((g', w) ∷ ps) gap elem space t bare l g some_word lits e
      helps =
    let plain : Elem = record elem { line = line_of isspace ((g', w) ∷ ps) gap } in
    let same : elem ≡ plain = ap (λ x. record elem { line = x }) e in
    let (final, added_it, k) =
      cmd_add_elem-AddsAs isspace space tree ((g', w) ∷ ps) gap elem.desc elem.func elem.optattr t
        bare l g some_word helps in
    let (found, search, at_end, no_pairs) =
      cmd_search-walk final k.end w (words_in ps) k.tree_ok k.bare lits k.path in
    record {
      tree = final;
      result = ap (cmd_add_elem isspace tree) same ∙ added_it;
      tree_ok = k.tree_ok;
      bare = k.bare;
      found = found;
      search = search;
      func = ap (λ i. (node final i).func) at_end ∙ k.func;
      optattr = ap (λ i. (node final i).optattr) at_end ∙ k.optattr;
      no_pairs = no_pairs;
    }

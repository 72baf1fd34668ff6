-- ===== src/Tree/Tests.antt =====
-- Runs of the command tree of cli-tree.c, and its theorems at concrete inputs.
use chaconne.Prelude.{
  ℕ, zero, suc, ◌≤◌, ◌≡◌, ◌⊎◌, refl, Bool, true, ◌&&◌, ◌||◌, List, [], ◌∷◌, ◌++◌, Option, none,
  some, arith, leb, ◌==◌, length,
}
use chaconne.Term.Session.{full_match, list_match}
use chaconne.Tree.{literal, variable, Tree, Token, node, blank_node}
use chaconne.Tree.Lines.{line_get_args, in_word}
use chaconne.Tree.Lines.RoundTrip.{line_of, line_get_args-line}
use chaconne.Tree.Parser.{Elem, fault, cmd_add_elem, cmd_tree_build}
use chaconne.Tree.Parser.Nodes.{IsTree, blank-IsTree}
use chaconne.Tree.Parser.Build.{Adds, cmd_add_elem-Adds, cmd_tree_build-IsTree}
use chaconne.Tree.Lines.{next_help}
use chaconne.Tree.Parser.{word_byte, token_type}
use chaconne.Tree.Plain.{NoKeywords}
use chaconne.Tree.Plain.Adds.{Helps}
use chaconne.Tree.Plain.RoundTrip.{Runs, words_in, cmd_search-cmd_add_elem}
use chaconne.Tree.Search.{Found, Searched, reached, unreached, find_best_node, cmd_search, search}
use chaconne.Tree.Search.Choice.{IsBest, AtMost, tokens_of, find_best_node-IsBest}
use chaconne.Tree.Search.Rounds.{cmd_search-enough}
use chaconne.Tree.Complete.{cmd_complete}

abbrev isspace : ℕ → Bool
isspace c = (c == 32) || (leb 9 c && leb c 13)

abbrev help : List ℕ
help = b'h' ∷ b'\n' ∷ b'h' ∷ b'\n' ∷ b'h' ∷ b'\n' ∷ b'h' ∷ b'\n' ∷ []

-- `ab (x|y) Z`, `ab {k K} n` and `ac`
abbrev elems : List Elem
elems =
    record {
      line = b'a' ∷ b'b' ∷ b' ' ∷ b'(' ∷ b'x' ∷ b'|' ∷ b'y' ∷ b')' ∷ b' ' ∷ b'Z' ∷ [];
      desc = help;
      func = some 1;
      optattr = none;
    }
    ∷ record {
      line = b'a' ∷ b'c' ∷ b' ' ∷ b'{' ∷ b'k' ∷ b' ' ∷ b'K' ∷ b'}' ∷ [];
      desc = help;
      func = some 2;
      optattr = none;
    }
    ∷ record { line = b'a' ∷ b'd' ∷ []; desc = help; func = some 3; optattr = none }
    ∷ []

built : Option Tree
unfolding cmd_tree_build
built = cmd_tree_build isspace [] elems

or_blank : Option Tree → Tree
or_blank none = blank_node ∷ []
or_blank (some tree) = tree

tree : Tree
unfolding built or_blank
tree = or_blank built

abbrev found_of : Searched → Option Found
found_of (reached found) = some found
found_of (unreached args pairs) = none

abbrev command : List ℕ → Option Found
command line = elim (line_get_args isspace 100 line) [
  | none ↦ none
  | some words ↦ found_of (cmd_search tree (node tree 0).children words)
]

-- ` ab y q` leads to the node of `Z`, with two arguments.
search_args :
    command (b' ' ∷ b'a' ∷ b'b' ∷ b' ' ∷ b'y' ∷ b' ' ∷ b'q' ∷ [])
    ≡ some (record { target = 3; args = (b'y' ∷ []) ∷ (b'q' ∷ []) ∷ []; pairs = [] })
unfolding tree built or_blank line_get_args cmd_search node
search_args = refl

-- `ac k v` has one pair for the keyword, set twice.
search_keyword :
    command (b'a' ∷ b'c' ∷ b' ' ∷ b'k' ∷ b' ' ∷ b'v' ∷ [])
    ≡ some (record {
      target = 4;
      args = [];
      pairs = (b'k' ∷ [], b'1' ∷ []) ∷ (b'k' ∷ [], b'v' ∷ []) ∷ [];
    })
unfolding tree built or_blank line_get_args cmd_search node
search_keyword = refl

-- `ab ` lists both tokens of the node below; `a` lists the three commands.
complete_list :
    cmd_complete isspace 100 true true tree (b'a' ∷ b'b' ∷ b' ' ∷ [])
    ≡ some (list_match ((b'x' ∷ []) ∷ (b'y' ∷ []) ∷ []))
unfolding tree built or_blank cmd_complete node
complete_list = refl

complete_one :
    cmd_complete isspace 100 true true tree (b'a' ∷ b'd' ∷ [])
    ≡ some (full_match (b'a' ∷ b'd' ∷ []))
unfolding tree built or_blank cmd_complete node
complete_one = refl

built-some : built ≡ some tree
unfolding tree or_blank built cmd_tree_build node
built-some = refl

cmd_tree_build-IsTree_example : IsTree tree
unfolding built
cmd_tree_build-IsTree_example = cmd_tree_build-IsTree isspace refl [] elems tree built-some

abbrev plain : Elem
plain = record { line = b'a' ∷ b' ' ∷ b'b' ∷ []; desc = help; func = some 1; optattr = none }

cmd_add_elem-Adds_example : Adds isspace refl (cmd_add_elem isspace (blank_node ∷ []) plain)
cmd_add_elem-Adds_example = cmd_add_elem-Adds isspace refl (blank_node ∷ []) plain blank-IsTree

-- `{k K}` ends at the root.
keyword_fault :
    cmd_add_elem isspace
      (blank_node ∷ [])
      (record plain { line = b'{' ∷ b'k' ∷ b' ' ∷ b'K' ∷ b'}' ∷ []; desc = help })
    ≡ fault
        (record blank_node { keyword = 1 ∷ [] }
          ∷ record blank_node {
            children = 2 ∷ [];
            tokens = record { key = b'k' ∷ []; desc = b'h' ∷ []; type = literal } ∷ [];
          }
          ∷ record blank_node {
            parent = 1;
            tokens = record { key = b'K' ∷ []; desc = b'h' ∷ []; type = variable } ∷ [];
          }
          ∷ [])
        0
unfolding cmd_add_elem node word_byte token_type
keyword_fault = refl

-- `  ab x |q` behind two blanks
line_get_args-line_example :
    line_get_args isspace 4 (
      line_of isspace
        ((32 ∷ 32 ∷ [], b'a' ∷ b'b' ∷ []) ∷ (32 ∷ [], b'x' ∷ []) ∷ [])
        (32 ∷ [] ++ b'|' ∷ b'q' ∷ []))
    ≡ some ((b'a' ∷ b'b' ∷ []) ∷ (b'x' ∷ []) ∷ (b'|' ∷ b'q' ∷ []) ∷ [])
unfolding in_word
line_get_args-line_example =
    line_get_args-line isspace refl refl 4
      ((32 ∷ 32 ∷ [], b'a' ∷ b'b' ∷ []) ∷ (32 ∷ [], b'x' ∷ []) ∷ []) (32 ∷ []) (b'|' ∷ b'q' ∷ [])
      (
        omega arith,
        (refl, (refl, tt)),
        (omega arith, (refl, (refl, tt))),
        (omega arith, (refl, tt), (omega arith, (refl, tt)), tt),
      )
      (refl, tt) refl (omega arith)

find_best_node-IsBest_example :
    ((find_best_node tree (node tree 0).children (b'a' ∷ b'c' ∷ []) ≡ none)
      × AtMost (b'a' ∷ b'c' ∷ []) 0 (tokens_of tree (node tree 0).children))
    ⊎ ((id : ℕ) × (t : Token) × (find_best_node tree (node tree 0).children (b'a' ∷ b'c' ∷ [])
          ≡ some (id, t))
        × IsBest (b'a' ∷ b'c' ∷ []) (tokens_of tree (node tree 0).children) id t)
find_best_node-IsBest_example = find_best_node-IsBest tree (node tree 0).children (b'a' ∷ b'c' ∷ [])

cmd_search-enough_example :
    (cmd_search tree (node tree 0).children ((b'a' ∷ b'd' ∷ []) ∷ [])
      ≡ search 3 tree (node tree 0).children ((b'a' ∷ b'd' ∷ []) ∷ []) [] [])
    × ((found : Found)
        → cmd_search tree (node tree 0).children ((b'a' ∷ b'd' ∷ []) ∷ []) ≡ reached found
        → length found.args ≤ 1)
    × ((args : List (List ℕ)) (pairs : List (List ℕ × List ℕ))
        → cmd_search tree (node tree 0).children ((b'a' ∷ b'd' ∷ []) ∷ []) ≡ unreached args pairs
        → length args ≤ 1)
cmd_search-enough_example =
    cmd_search-enough 3 tree (node tree 0).children ((b'a' ∷ b'd' ∷ []) ∷ []) (omega arith)

-- `ab c` read into an empty tree
abbrev two_words : List (List ℕ × List ℕ)
two_words = ([], b'a' ∷ b'b' ∷ []) ∷ (32 ∷ [], b'c' ∷ []) ∷ []

abbrev two_word_command : Elem
two_word_command = record {
  line = line_of isspace two_words [];
  desc = help;
  func = some 7;
  optattr = none;
}

blank-NoKeywords : NoKeywords (blank_node ∷ [])
unfolding node
blank-NoKeywords zero = refl
blank-NoKeywords (suc i) = refl

two_words-Helps : Helps isspace 2 help
unfolding next_help
two_words-Helps = (b'h' ∷ [], _, refl, (b'h' ∷ [], _, refl, tt))

cmd_search-cmd_add_elem_example :
    Runs two_word_command
      (words_in two_words)
      (cmd_add_elem isspace (blank_node ∷ []) two_word_command)
unfolding word_byte token_type
cmd_search-cmd_add_elem_example =
    cmd_search-cmd_add_elem isspace (blank_node ∷ []) two_words [] two_word_command refl
      blank-IsTree blank-NoKeywords
      (
        omega arith,
        tt,
        (omega arith, (refl, (refl, tt))),
        (omega arith, (refl, tt), (omega arith, (refl, tt)), tt),
      )
      tt (omega arith) (refl, (refl, tt)) refl two_words-Helps

-- ===== src/Tree/Execute/Tests.antt =====
-- Runs of `cmd_execute` and `cmdopt_parse` of cli-tree.c, and the theorems on it at concrete inputs.
use chaconne.Prelude.{
  ℕ, zero, suc, ◌+◌, ◌≡◌, refl, Bool, ◌||◌, List, [], ◌∷◌, ◌++◌, none, some, arith, ◌==◌,
}
use chaconne.Tree.{Tree, literal, blank_node, node}
use chaconne.Tree.Lines.{next_help, in_word, line_get_args}
use chaconne.Tree.Search.{unreached, cmd_search}
use chaconne.Tree.Lines.RoundTrip.{line_of}
use chaconne.Tree.Parser.{Elem, added, cmd_add_elem, token_type, word_byte}
use chaconne.Tree.Parser.Nodes.{blank-IsTree}
use chaconne.Tree.Plain.{NoKeywords}
use chaconne.Tree.Plain.Adds.{Helps}
use chaconne.Tree.Options.Tables.{new_opt, new_opt-IsClear}
use chaconne.Tree.Execute.{Ret, Program, include, shell, pipe_of, until_bar, cmd_execute}
use chaconne.Tree.Execute.Runs.{Ends, cmd_execute-Ends}
use chaconne.Tree.Execute.EndToEnd.{Executed, cmd_execute-cmd_add_elem}

abbrev isspace : ℕ → Bool
isspace c = (c == b' ') || (c == b'\n')

-- The world is the number of the function that ran last.
abbrev prog : Program ℕ
prog = record {
  print = λ m w. w;
  attrs = λ i. record { attrs = []; init = λ w. w };
  run = λ f opt w. (f, Ret.success);
  pipe = λ p w. w + 100;
}

abbrev typed : List (List ℕ × List ℕ)
typed = ([], b'a' ∷ b'b' ∷ []) ∷ (32 ∷ [], b'c' ∷ []) ∷ []

abbrev command : Elem
command = record {
  line = line_of isspace typed [];
  desc = b'h' ∷ b'\n' ∷ b'h' ∷ b'\n' ∷ [];
  func = some 7;
  optattr = none;
}

abbrev pipe : List ℕ
pipe = b'|' ∷ b'x' ∷ []

blank-NoKeywords : NoKeywords (blank_node ∷ [])
unfolding node
blank-NoKeywords zero = refl
blank-NoKeywords (suc i) = refl

command-Helps : Helps isspace 2 command.desc
unfolding next_help
command-Helps = (b'h' ∷ [], _, refl, (b'h' ∷ [], _, refl, tt))

-- `|  include  a b ` filters by `a b`.
pipe_include :
    pipe_of
      (32 ∷ b'i' ∷ b'n' ∷ b'c' ∷ b'l' ∷ b'u' ∷ b'd' ∷ b'e' ∷ 32 ∷ 32 ∷ b'a' ∷ 32 ∷ b'b' ∷ 32 ∷ [])
    ≡ include (b'a' ∷ 32 ∷ b'b' ∷ [])
unfolding pipe_of
pipe_include = refl

pipe_shell : pipe_of (32 ∷ b'w' ∷ b'c' ∷ []) ≡ shell (32 ∷ b'w' ∷ b'c' ∷ [])
unfolding pipe_of
pipe_shell = refl

-- A keyword `k` with a value of the wrong kind: the search fails behind the key.
abbrev keyword_tree : Tree
keyword_tree =
    record blank_node { children = 1 ∷ [] }
    ∷ record blank_node {
      keyword = 2 ∷ [];
      tokens = record { key = b'a' ∷ []; desc = []; type = literal } ∷ [];
      func = some 1;
    }
    ∷ record blank_node {
      children = 3 ∷ [];
      tokens = record { key = b'k' ∷ []; desc = []; type = literal } ∷ [];
    }
    ∷ record blank_node { tokens = record { key = b'v' ∷ []; desc = []; type = literal } ∷ [] }
    ∷ []

abbrev keyword_line : List ℕ
keyword_line = b'a' ∷ 32 ∷ b'k' ∷ 32 ∷ b'w' ∷ []

keyword_unreached :
    cmd_search keyword_tree (1 ∷ []) ((b'a' ∷ []) ∷ (b'k' ∷ []) ∷ (b'w' ∷ []) ∷ [])
    ≡ unreached [] ((b'k' ∷ [], b'1' ∷ []) ∷ [])
unfolding cmd_search node
keyword_unreached = refl

cmd_execute-Ends_example :
    Ends prog (cmd_execute prog isspace 9 keyword_tree keyword_line new_opt 0)
unfolding line_get_args until_bar
cmd_execute-Ends_example =
    cmd_execute-Ends prog isspace 9 keyword_tree keyword_line new_opt 0 new_opt-IsClear.1 refl
      (omega arith)

cmd_execute-cmd_add_elem_example :
    (grown : Tree) × (cmd_add_elem isspace (blank_node ∷ []) command ≡ added grown)
    × Executed prog 7 2 new_opt
        (line_of isspace typed ([] ++ pipe))
        (pipe ∷ [])
        0
        (cmd_execute prog isspace 9 grown (line_of isspace typed ([] ++ pipe)) new_opt 0)
unfolding word_byte token_type in_word
cmd_execute-cmd_add_elem_example =
    cmd_execute-cmd_add_elem prog isspace (blank_node ∷ []) typed [] command 7 refl blank-IsTree
      blank-NoKeywords
      (
        omega arith,
        tt,
        (omega arith, (refl, (refl, tt))),
        (omega arith, (refl, tt), (omega arith, (refl, tt)), tt),
      )
      tt (omega arith) (refl, (refl, tt)) refl command-Helps refl refl typed [] pipe 9 refl refl
      (
        omega arith,
        tt,
        (omega arith, (refl, (refl, tt))),
        (omega arith, (refl, tt), (omega arith, (refl, tt)), tt),
      )
      tt refl refl (omega arith) new_opt 0 new_opt-IsClear.1

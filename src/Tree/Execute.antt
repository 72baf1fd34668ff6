-- ===== src/Tree/Execute.antt =====
-- `cmd_execute` of cli-tree.c: a line is split and searched, its command runs on its arguments and
-- keyword pairs, and what it printed goes through the pipe of the line.
pub mod Runs
pub mod EndToEnd
mod Tests
use chaconne.Prelude.{
  ℕ, zero, suc, ◌+◌, Bool, true, false, not, ◌&&◌, ◌||◌, List, [], ◌∷◌, Option, none, some, ltb,
  ◌==◌, if◌then◌else◌, length, get_or, take, same_key,
}
use chaconne.Tree.{Tree, node}
use chaconne.Tree.Lines.{split, line_get_args}
use chaconne.Tree.Search.{Searched, reached, unreached, cmd_search}
use chaconne.Tree.Options.{
  Kptable, Cmdopt, max_args, cmdopt_clear, set_pairs, Message, invalid_command, unknown_command,
  incomplete_command, Cmdoptattr, cmdopt_parse,
}

-- The codes that `cmd_execute` tells apart: CMD_SUCCESS, CMD_ERR_NO_MATCH, CMD_ERR_INCOMPLETE,
-- CMD_ERR_SYSTEM, the -1 of `cmdopt_parse`, and any other.
pub data Ret : Type 0 where
  success no_match incomplete system invalid : Ret
  other : ℕ → Ret

-- Where the output of a command goes: through a filter by a regular expression, or a shell.
pub data Pipe : Type 0 where
  include : List ℕ → Pipe
  shell : List ℕ → Pipe

-- What the engine is used with, over the world `W` of the terminal and the option buffers: the
-- commands with their option attributes by number, the printing of messages, and the two pipes.
pub record Program (W : Type 0) : Type 0 where
  pub print : Message → W → W
  pub attrs : ℕ → Cmdoptattr W
  pub run : ℕ → Cmdopt → W → W × Ret
  pub pipe : Pipe → W → W

unfoldable pub is_bar : List ℕ → Bool
is_bar [] = false
is_bar (c ∷ cs) = c == b'|'

-- The words before the first that starts with a bar, and the words from it on.
unfoldable pub until_bar : List (List ℕ) → List (List ℕ) × List (List ℕ)
unfolding is_bar
until_bar [] = ([], [])
until_bar (w ∷ words) =
    let rest = until_bar words in if is_bar w then ([], w ∷ words) else (w ∷ rest.0, rest.1)

unfoldable pub strip_head_blank : List ℕ → List ℕ
unfolding split
strip_head_blank str = (split (λ c. c == b' ') str).1

-- The loop of `strip_tail_blank`, from an end of the string down.
unfoldable pub tail_end : List ℕ → ℕ → ℕ
tail_end str zero = 0
tail_end str (suc n) = let rest = tail_end str n in if get_or str n 0 == b' ' then rest else suc n

unfoldable pub strip_tail_blank : List ℕ → List ℕ
unfolding tail_end
strip_tail_blank str = take (tail_end str (length str)) str

abbrev pub include_word : List ℕ
include_word = b'i' ∷ b'n' ∷ b'c' ∷ b'l' ∷ b'u' ∷ b'd' ∷ b'e' ∷ []

-- The pipe that the text behind the bar stands for.
unfoldable pub pipe_of : List ℕ → Pipe
unfolding split strip_head_blank strip_tail_blank same_key
pipe_of text =
    let (key, rest) = split (λ c. not (c == b' ')) (strip_head_blank text) in
    elim (strip_head_blank rest) [
      | [] ↦ shell text
      | c ∷ cs ↦
          if same_key key include_word then include (strip_tail_blank (c ∷ cs)) else shell text
    ]

-- The options with the words and the pairs of a search.
unfoldable pub filled : Cmdopt → List (List ℕ) → Kptable → Cmdopt
filled opt args table = record {
  argv = args;
  overrun = opt.overrun || ltb max_args (length args);
  kpairs = table;
}

module _ {W : Type 0} (prog : Program W) where
  unfoldable pub optattr_of : Option ℕ → Option (Cmdoptattr W)
  optattr_of none = none
  optattr_of (some i) = some (prog.attrs i)

  -- The command of a node on its options.
  unfoldable pub run_node : Tree → ℕ → Cmdopt → W → W × Ret
  unfolding cmdopt_parse optattr_of node
  run_node tree target opt w = elim (node tree target).func [
    | none ↦ (w, incomplete)
    | some f ↦
        let (w', valid) = cmdopt_parse prog.print opt (optattr_of (node tree target).optattr) w in
        if valid then prog.run f opt w' else (w', invalid)
  ]

  unfoldable pub report : Ret → List ℕ → W → W
  report no_match line w = prog.print (unknown_command line) w
  report incomplete line w = prog.print incomplete_command w
  report _ line w = w

  unfoldable pub run_pipe : Ret → List (List ℕ) → W → W
  unfolding pipe_of
  run_pipe success ((c ∷ text) ∷ words) w = prog.pipe (pipe_of text) w
  run_pipe _ words w = w

  -- What follows the command: the options are cleared, its result is reported, the pipe runs.
  unfoldable pub finish : Cmdopt → List ℕ → List (List ℕ) → W × Ret → Cmdopt × W × Ret
  unfolding cmdopt_clear report run_pipe
  finish opt line pipe (w, ret) = (cmdopt_clear opt, run_pipe ret pipe (report ret line w), ret)

  -- What follows the search, whose words and pairs are in the options whether it found a node or not.
  -- A result `none` is a fault of the table.
  unfoldable pub run_found :
      Tree → List ℕ → List (List ℕ) → Cmdopt → W → Searched → Option (Cmdopt × W × Ret)
  unfolding set_pairs filled run_node finish
  run_found tree line pipe opt w (unreached args pairs) = elim (set_pairs opt.kpairs pairs) [
    | none ↦ none
    | some table ↦ some (finish (filled opt args table) line pipe (w, no_match))
  ]
  run_found tree line pipe opt w (reached found) = elim (set_pairs opt.kpairs found.pairs) [
    | none ↦ none
    | some table ↦
        let given = filled opt found.args table in
        some (finish given line pipe (run_node tree found.target given w))
  ]

  -- The command before the bar, with the words from the bar on.
  unfoldable pub execute_words :
      Tree → List ℕ → List (List ℕ) → List (List ℕ) → Cmdopt → W → Option (Cmdopt × W × Ret)
  unfolding cmd_search run_found
  execute_words tree line [] pipe opt w = some (opt, prog.print (invalid_command line) w, no_match)
  execute_words tree line (c ∷ cs) pipe opt w =
      run_found tree line pipe opt w (cmd_search tree (node tree 0).children (c ∷ cs))

  unfoldable pub execute_args :
      Tree → List ℕ → Option (List (List ℕ)) → Cmdopt → W → Option (Cmdopt × W × Ret)
  unfolding until_bar execute_words
  execute_args tree line none opt w = some (opt, w, system)
  execute_args tree line (some []) opt w = some (opt, w, success)
  execute_args tree line (some (word ∷ words)) opt w =
      execute_words tree line (until_bar (word ∷ words)).0 (until_bar (word ∷ words)).1 opt w

  -- `memory` is the number of calls of `malloc` that succeed.
  unfoldable pub cmd_execute :
      (ℕ → Bool) → ℕ → Tree → List ℕ → Cmdopt → W → Option (Cmdopt × W × Ret)
  unfolding line_get_args execute_args
  cmd_execute isspace memory tree line opt w =
      execute_args tree line (line_get_args isspace memory line) opt w

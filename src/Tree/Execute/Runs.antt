-- ===== src/Tree/Execute/Runs.antt =====
-- What `cmd_execute` of cli-tree.c leaves, within the bound on the words of a command.
use chaconne.Prelude.{
  ℕ, ◌≤◌, ◌≡◌, refl, Bool, false, List, [], ◌∷◌, Option, none, some, arith, length,
}
use chaconne.Hashtable.Map.{IsHashtable}
use chaconne.Tree.{Tree, node}
use chaconne.Tree.Lines.{line_get_args}
use chaconne.Tree.Search.{Searched, reached, unreached, cmd_search}
use chaconne.Tree.Search.Rounds.{Within, cmd_search-Within}
use chaconne.Tree.Options.{string_attr, Kptable, Cmdopt, max_args, cmdopt_clear}
use chaconne.Tree.Options.Tables.{
  string_attr-IsKeyed, IsClear, cmdopt_clear-IsClear, set_pairs-Reads,
}
use chaconne.Tree.Execute.{
  Ret, Program, until_bar, run_node, filled, finish, run_found, execute_words, execute_args,
  cmd_execute,
}

-- The words of a command, before its bar, are no more than `argv` holds.
abbrev pub FewWords : Option (List (List ℕ)) → Type 0
FewWords none = Unit {0}
FewWords (some words) = length (until_bar words).0 ≤ max_args

module _ {W : Type 0} (prog : Program W) where
  -- A result, with the options clear and no word put behind `argv`.
  abbrev pub Ends : Option (Cmdopt × W × Ret) → Type 0
  Ends r =
      (opt : Cmdopt) × (w : W) × (ret : Ret) × (r ≡ some (opt, w, ret))
      × IsClear opt
      × (opt.overrun ≡ false)

  finish-Ends :
      (opt : Cmdopt) (line : List ℕ) (pipe : List (List ℕ)) (ran : W × Ret)
      → IsHashtable string_attr string_attr-IsKeyed opt.kpairs
      → opt.overrun ≡ false
      → Ends (some (finish prog opt line pipe ran))
  unfolding finish cmdopt_clear
  finish-Ends opt line pipe (w, ret) t within =
      (cmdopt_clear opt, _, ret, refl, cmdopt_clear-IsClear opt t, within)

  filled-within :
      (opt : Cmdopt) (args : List (List ℕ)) (table : Kptable)
      → opt.overrun ≡ false
      → length args ≤ max_args
      → (filled opt args table).overrun ≡ false
  unfolding filled
  filled-within opt args table o h = ground (arith, o, h)

  run_found-Ends :
      (tree : Tree) (line : List ℕ) (pipe : List (List ℕ)) (opt : Cmdopt) (w : W)
      (searched : Searched)
      → IsClear opt
      → opt.overrun ≡ false
      → Within max_args searched
      → Ends (run_found prog tree line pipe opt w searched)
  unfolding run_found filled
  run_found-Ends tree line pipe opt w (unreached args pairs) clear o h =
      let (table, done, reads) = set_pairs-Reads opt.kpairs pairs clear.table in
      rw (run_found, done)
        (finish-Ends (filled opt args table) line pipe (w, Ret.no_match) reads.table
          (filled-within opt args table o h))
  run_found-Ends tree line pipe opt w (reached found) clear o h =
      let (table, done, reads) = set_pairs-Reads opt.kpairs found.pairs clear.table in
      let given = filled opt found.args table in
      rw (run_found, done)
        (finish-Ends given line pipe (run_node prog tree found.target given w) reads.table
          (filled-within opt found.args table o h))

  Within-max :
      (n : ℕ) (searched : Searched) → n ≤ max_args → Within n searched → Within max_args searched
  Within-max n (unreached args pairs) le h = omega (arith, le, h)
  Within-max n (reached found) le h = omega (arith, le, h)

  execute_words-Ends :
      (tree : Tree) (line : List ℕ) (command pipe : List (List ℕ)) (opt : Cmdopt) (w : W)
      → IsClear opt
      → opt.overrun ≡ false
      → length command ≤ max_args
      → Ends (execute_words prog tree line command pipe opt w)
  unfolding execute_words
  execute_words-Ends tree line [] pipe opt w clear o h = (opt, _, Ret.no_match, refl, clear, o)
  execute_words-Ends tree line (c ∷ cs) pipe opt w clear o h =
      let searched = cmd_search tree (node tree 0).children (c ∷ cs) in
      run_found-Ends tree line pipe opt w searched clear o (
        Within-max (length (c ∷ cs)) searched h
          (cmd_search-Within tree (node tree 0).children (c ∷ cs)))

  execute_args-Ends :
      (tree : Tree) (line : List ℕ) (words : Option (List (List ℕ))) (opt : Cmdopt) (w : W)
      → IsClear opt
      → opt.overrun ≡ false
      → FewWords words
      → Ends (execute_args prog tree line words opt w)
  unfolding execute_args
  execute_args-Ends tree line none opt w clear o h = (opt, w, Ret.system, refl, clear, o)
  execute_args-Ends tree line (some []) opt w clear o h = (opt, w, Ret.success, refl, clear, o)
  execute_args-Ends tree line (some (word ∷ words)) opt w clear o h =
      execute_words-Ends tree line (until_bar (word ∷ words)).0 (until_bar (word ∷ words)).1 opt w
        clear o h

  -- For a line with at most 64 words before its bar, whatever the tree and the commands are: from
  -- options that are clear, `cmd_execute` ends without a fault of the table and without a word put
  -- behind `argv`, and the options are clear again, also where the search fails behind some arguments
  -- and keywords.
  pub cmd_execute-Ends :
      (isspace : ℕ → Bool) (memory : ℕ) (tree : Tree) (line : List ℕ) (opt : Cmdopt) (w : W)
      → IsClear opt
      → opt.overrun ≡ false
      → FewWords (line_get_args isspace memory line)
      → Ends (cmd_execute prog isspace memory tree line opt w)
  unfolding cmd_execute
  cmd_execute-Ends isspace memory tree line opt w clear o h =
      execute_args-Ends tree line (line_get_args isspace memory line) opt w clear o h

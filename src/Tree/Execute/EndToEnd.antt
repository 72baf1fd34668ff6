-- ===== src/Tree/Execute/EndToEnd.antt =====
-- cli-tree.c from end to end: a command that the parser added is run by a line with its words.
use mathlib.Core.List.{map}
use mathlib.Core.Path.{subst}
use chaconne.Prelude.{
  ℕ, ◌+◌, ◌≤◌, ◌<◌, ◌≡◌, refl, ap, ◌∙◌, Bool, true, false, List, [], ◌∷◌, ◌++◌, Option, none, some,
  ltb, ◌==◌, length, length-map, arith,
}
use chaconne.Hashtable.{get}
use chaconne.Tree.{Tree, node}
use chaconne.Tree.Lines.{in_word, line_get_args}
use chaconne.Tree.Lines.RoundTrip.{Every, Laid, line_of, IsPipe, pipe_words, line_get_args-line}
use chaconne.Tree.Search.{reached, cmd_search}
use chaconne.Tree.Parser.{Elem, Added, added, cmd_add_elem}
use chaconne.Tree.Parser.Nodes.{IsTree}
use chaconne.Tree.Plain.{NoKeywords}
use chaconne.Tree.Plain.Adds.{PlainLine, Helps}
use chaconne.Tree.Plain.Finds.{Literals}
use chaconne.Tree.Plain.RoundTrip.{Runs, words_in, cmd_search-cmd_add_elem}
use chaconne.Tree.Search.Rounds.{Within, cmd_search-Within}
use chaconne.Tree.Options.{string_attr, Cmdopt, max_args, cmdopt_clear, set_pairs, cmdopt_parse}
use chaconne.Tree.Options.Tables.{IsClear, cmdopt_clear-IsClear}
use chaconne.Tree.Execute.{
  Ret, Program, is_bar, optattr_of, until_bar, run_node, report, run_pipe, filled, finish,
  run_found, execute_words, execute_args, cmd_execute,
}

-- Words that are not a pipe stand before the pipe.
until_bar-Laid :
    (isspace : ℕ → Bool) (least : ℕ) (ps : List (List ℕ × List ℕ)) (pipe : List ℕ)
    → Laid isspace least ps
    → IsPipe isspace pipe
    → until_bar (map (λ p. p.1) ps ++ pipe_words isspace pipe)
      ≡ (map (λ p. p.1) ps, pipe_words isspace pipe)
unfolding until_bar is_bar
until_bar-Laid isspace least [] [] l p = refl
until_bar-Laid isspace least [] (c ∷ cs) l p = ground (arith, p)
until_bar-Laid isspace least ((g, []) ∷ ps) pipe l p = absurd (omega (arith, l.2.0))
until_bar-Laid isspace least ((g, c ∷ cs) ∷ ps) pipe l p =
    let plain : (c == b'|') ≡ false = unfold in_word in ground (arith, l.2.1.0) in
    rw (until_bar, plain, until_bar-Laid isspace 1 ps pipe l.3 p)

module _ {W : Type 0} (prog : Program W) where
  -- A run of the function `f` by a line with a pipe: it gets no keyword pair, its result is that of
  -- the line, and the options are clear behind it; if `argv` can hold its `n` words, none is put
  -- behind it.
  pub record Executed (f n : ℕ) (before : Cmdopt) (line : List ℕ) (pipe : List (List ℕ)) (w : W)
      (r : Option (Cmdopt × W × Ret)) : Type 0 where
    pub given : Cmdopt
    pub no_pairs : (q : List ℕ) → get string_attr given.kpairs q ≡ some none
    pub left : Cmdopt
    pub result :
        let (after, ret) = prog.run f given w in
        r ≡ some (left, run_pipe prog ret pipe (report prog ret line after), ret)
    pub clear : IsClear left
    pub within : n ≤ max_args → left.overrun ≡ before.overrun

  -- The line of a command that is in the tree, as its words, behind other blanks and with a pipe.
  execute_args-Executed :
      (isspace : ℕ → Bool) (elem : Elem) (words : List (List ℕ)) (r : Added) (f : ℕ)
      → (k : Runs elem words r) → elem.func ≡ some f
      → elem.optattr ≡ none
      → (qs : List (List ℕ × List ℕ)) (pipe line : List ℕ) → Laid isspace 0 qs
      → IsPipe isspace pipe
      → 1 ≤ length qs
      → words_in qs ≡ words
      → (opt : Cmdopt) (w : W) → IsClear opt
      → Executed f
          (length qs)
          opt
          line
          (pipe_words isspace pipe)
          w
          (execute_args prog k.tree line (some (words_in qs ++ pipe_words isspace pipe)) opt w)
  unfolding execute_args execute_words filled run_found run_node set_pairs optattr_of cmdopt_parse
      finish
  execute_args-Executed isspace elem words r f k func plain [] pipe line l p some_word same opt w
        clear =
      absurd (omega arith)
  execute_args-Executed isspace elem words r f k func plain ((g, v) ∷ qs) pipe line l p some_word
        same opt w clear =
      let given = filled opt k.found.args opt.kpairs in
      let search : cmd_search k.tree (node k.tree 0).children (v ∷ words_in qs) ≡ reached k.found =
        ap (cmd_search k.tree (node k.tree 0).children) same ∙ k.search in
      let split = until_bar-Laid isspace 0 ((g, v) ∷ qs) pipe l p in
      record {
        given = given;
        no_pairs = clear.no_pairs;
        left = cmdopt_clear given;
        result = rw (
          execute_args,
          split,
          search,
          run_found,
          k.no_pairs,
          run_node,
          k.func ∙ func,
          k.optattr ∙ plain,
        );
        clear = cmdopt_clear-IsClear given clear.table;
        within = λ le.
            let few =
              subst (Within (length (v ∷ words_in qs))) search
                (cmd_search-Within k.tree (node k.tree 0).children (v ∷ words_in qs)) in
            unfold cmdopt_clear in ground (arith, few, le, length-map qs (λ q. q.1));
      }

  -- Where the blanks of ctype.h are as they are used here: a command of literal words, without
  -- attributes, is added to any tree in order without keywords; then a line with the same words,
  -- behind any blanks and with a pipe or none, runs its function from clear options, with no keyword
  -- pair, if there is memory to split the line; its result is that of the line, and the options are
  -- clear again; with at most 64 words, none is put behind `argv`.
  pub cmd_execute-cmd_add_elem :
      (isspace : ℕ → Bool) (tree : Tree) (ps : List (List ℕ × List ℕ)) (gap : List ℕ) (elem : Elem)
      (f : ℕ)
      → isspace b' ' ≡ true
      → IsTree tree
      → NoKeywords tree
      → PlainLine isspace 0 ps
      → Every (λ c. c == b' ') gap
      → 1 ≤ length ps
      → Literals (words_in ps)
      → elem.line ≡ line_of isspace ps gap
      → Helps isspace (length ps) elem.desc
      → elem.func ≡ some f
      → elem.optattr ≡ none
      → (qs : List (List ℕ × List ℕ)) (blanks pipe : List ℕ) (memory : ℕ) → isspace b'\n' ≡ true
      → isspace b'|' ≡ false
      → Laid isspace 0 qs
      → Every isspace blanks
      → IsPipe isspace pipe
      → words_in qs ≡ words_in ps
      → length (words_in qs ++ pipe_words isspace pipe) < memory
      → (opt : Cmdopt) (w : W) → IsClear opt
      → (grown : Tree) × (cmd_add_elem isspace tree elem ≡ added grown)
        × Executed f
            (length qs)
            opt
            (line_of isspace qs (blanks ++ pipe))
            (pipe_words isspace pipe)
            w
            (cmd_execute prog isspace memory grown (line_of isspace qs (blanks ++ pipe)) opt w)
  cmd_execute-cmd_add_elem isspace tree ps gap elem f space t bare l g some_word lits e helps func
        plain qs blanks pipe memory newline bar l' b p same enough opt w clear =
      let k =
        cmd_search-cmd_add_elem isspace tree ps gap elem space t bare l g some_word lits e helps in
      let line = line_of isspace qs (blanks ++ pipe) in
      let count : length qs ≡ length ps =
        omega (arith, ap length same, length-map qs (λ q. q.1), length-map ps (λ q. q.1)) in
      let full : ltb memory (length (words_in qs ++ pipe_words isspace pipe) + 1) ≡ false =
        ground (arith, enough) in
      let args : line_get_args isspace memory line ≡ some (words_in qs ++ pipe_words isspace pipe) =
        line_get_args-line isspace newline bar memory qs blanks pipe l' b p
          (omega (arith, count, some_word))
        ∙ rw full in
      (
        k.tree,
        k.result,
        unfold cmd_execute in
            rw (cmd_execute, args)
              (execute_args-Executed isspace elem (words_in ps) _ f k func plain qs pipe line l' p
                (omega (arith, count, some_word)) same opt w clear),
      )

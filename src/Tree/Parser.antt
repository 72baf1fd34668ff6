-- ===== src/Tree/Parser.antt =====
-- cli-tree.c: the parser that adds the syntax of a command to the tree.
pub mod Nodes
pub mod State
pub mod Steps
pub mod Build
use chaconne.Prelude.{
  ℕ, zero, suc, ◌+◌, Bool, true, false, not, ◌&&◌, ◌||◌, List, [], ◌∷◌, ◌++◌, Option, none, some,
  ltb, leb, ◌==◌, if◌then◌else◌, length, set, drop,
}
use chaconne.Tree.{
  TokenType, literal, option, variable, vararg, Token, Node, Tree, node, blank_node, same_key,
}
use chaconne.Tree.Lines.{split, next_help}

-- `struct cmd_elem`: its syntax, its help lines, and the numbers of its function and attributes.
pub record Elem : Type 0 where
  pub line : List ℕ
  pub desc : List ℕ
  pub func : Option ℕ
  pub optattr : Option ℕ

-- `struct parser_state`, with the tree that it builds. `in_keyword` is 0 outside the braces, 1 where
-- a keyword must follow, and 2 behind one; `collected` are the tokens read between parentheses.
pub record Parser : Type 0 where
  pub cp : List ℕ
  pub desc : List ℕ
  pub in_multiple : Bool
  pub in_keyword : ℕ
  pub collected : List Token
  pub parent : ℕ
  pub save_parent : ℕ
  pub tree : Tree

unfoldable pub has_key : List Token → List ℕ → Bool
unfolding same_key
has_key [] key = false
has_key (t ∷ ts) key = same_key key t.key || has_key ts key

-- `cmd_node_find` for one token: the first node of a chain that has its key.
unfoldable pub find_one : Tree → List ℕ → List ℕ → Option ℕ
unfolding has_key
find_one tree [] key = none
find_one tree (id ∷ ids) key =
    if has_key (node tree id).tokens key then some id else find_one tree ids key

-- The number of the tokens that a node has.
unfoldable pub count_found : List Token → List Token → ℕ
unfolding has_key
count_found own [] = 0
count_found own (t ∷ ts) =
    let rest = count_found own ts in if has_key own t.key then suc rest else rest

-- `cmd_node_find` for several tokens: the first node that is an alternative and has one of them,
-- with the number of those that it has.
unfoldable pub find_several : Tree → List ℕ → List Token → Option (ℕ × ℕ)
unfolding count_found
find_several tree [] tokens = none
find_several tree (id ∷ ids) tokens =
    let own = (node tree id).tokens in
    if not (length own == 1) && ltb 0 (count_found own tokens)
    then some (id, count_found own tokens)
    else find_several tree ids tokens

unfoldable pub cmd_node_find : Tree → ℕ → List Token → Option (ℕ × ℕ)
unfolding find_one find_several
cmd_node_find tree parent (t ∷ []) = elim (find_one tree (node tree parent).children t.key) [
  | none ↦ none
  | some id ↦ some (id, 1)
]
cmd_node_find tree parent tokens = find_several tree (node tree parent).children tokens

-- `cmd_node_new` and `cmd_node_insert`: the new node is the last of the tree, and of its chain.
unfoldable pub cmd_node_insert : Tree → ℕ → List Token → Bool → Tree
cmd_node_insert tree parent tokens keyword =
    let above = node tree parent in
    let linked =
      if keyword
      then record above { keyword = above.keyword ++ length tree ∷ [] }
      else record above { children = above.children ++ length tree ∷ [] } in
    set tree parent linked ++ record blank_node { parent = parent; tokens = tokens } ∷ []

unfoldable pub token_type : List ℕ → TokenType
token_type [] = literal
token_type (c ∷ cs) =
    if c == b'['
    then option
    else if c == b'.'
    then vararg
    else if leb b'A' c && leb c b'Z'
    then variable
    else literal

-- `parser_read_word` behind the word and its help line, outside parentheses.
unfoldable pub read_token : Parser → Token → Parser
unfolding find_one cmd_node_insert
read_token p t = elim (find_one p.tree (node p.tree p.parent).children t.key) [
  | some id ↦ record p { parent = id }
  | none ↦ record p {
    tree = cmd_node_insert p.tree p.parent (t ∷ []) (p.in_keyword == 1);
    in_keyword = if p.in_keyword == 1 then 2 else p.in_keyword;
    parent = length p.tree;
  }
]

-- The results of the parser's functions other than 0 are -EINVAL, which is `none`.
module _ (isspace : ℕ → Bool) where
  -- A byte of a word: no blank, and none of those that `strchr` looks for.
  unfoldable pub word_byte : ℕ → Bool
  word_byte c =
      not (
        (c == b'\r')
        || (c == b'\n')
        || (c == b'{')
        || (c == b'}')
        || (c == b'(')
        || (c == b')')
        || (c == b'|'))
      && not (isspace c)

  unfoldable pub parser_read_word : Parser → Option Parser
  unfolding word_byte read_token token_type next_help split
  parser_read_word p =
      let (word, cp) = split word_byte p.cp in
      elim (next_help isspace p.desc) [
        | none ↦ none
        | some (help, desc) ↦
            let t : Token = record { key = word; desc = help; type = token_type word } in
            let read = record p { cp = cp; desc = desc } in
            some (
              if p.in_multiple
              then record read { collected = p.collected ++ t ∷ [] }
              else read_token read t)
      ]

unfoldable pub parser_begin_multiple : Parser → Option Parser
parser_begin_multiple p =
    if (p.in_keyword == 1) || p.in_multiple
    then none
    else some (record p { cp = drop 1 p.cp; in_multiple = true })

unfoldable pub parser_end_multiple : Parser → Option Parser
unfolding cmd_node_find cmd_node_insert
parser_end_multiple p =
    if not p.in_multiple || (length p.collected == 0)
    then none
    else (let closed = record p { cp = drop 1 p.cp; in_multiple = false; collected = [] } in
        elim (cmd_node_find p.tree p.parent p.collected) [
          | some (id, found) ↦
              if found == length p.collected then some (record closed { parent = id }) else none
          | none ↦ some (record closed {
            tree = cmd_node_insert p.tree p.parent p.collected false;
            parent = length p.tree;
          })
        ])

unfoldable pub parser_begin_keyword : Parser → Option Parser
parser_begin_keyword p =
    if not (p.in_keyword == 0) || p.in_multiple
    then none
    else some (record p { cp = drop 1 p.cp; in_keyword = 1; save_parent = p.parent })

unfoldable pub parser_end_keyword : Parser → Option Parser
parser_end_keyword p =
    if p.in_multiple || (p.in_keyword == 0) || (p.in_keyword == 1)
    then none
    else some (record p { cp = drop 1 p.cp; in_keyword = 0; parent = p.save_parent })

unfoldable pub parser_handle_pipe : Parser → Option Parser
parser_handle_pipe p =
    if p.in_multiple
    then some (record p { cp = drop 1 p.cp })
    else if p.in_keyword == 0
    then none
    else some (record p { cp = drop 1 p.cp; in_keyword = 1; parent = p.save_parent })

-- What `cmd_add_elem` returns, with the tree as it then is: 0, -EINVAL, a read of the first token of
-- a node that has none, or a lack of rounds.
pub data Added : Type 0 where
  added rejected : Tree → Added
  fault : Tree → ℕ → Added
  out_of_rounds : Added

unfoldable pub assign : Elem → ℕ → Tree → Tree
assign elem i tree = set tree i (record (node tree i) { func = elem.func; optattr = elem.optattr })

unfoldable pub parser_end : Elem → Parser → Added
unfolding assign
parser_end elem p =
    if p.in_multiple || not (p.in_keyword == 0)
    then rejected p.tree
    else elim (node p.tree p.parent).tokens [
      | [] ↦ fault p.tree p.parent
      | t ∷ ts ↦
          let own = assign elem p.parent p.tree in
          elim t.type [
            | vararg ↦ added (assign elem (node p.tree p.parent).parent own)
            | _ ↦ added own
          ]
    ]

module _ (isspace : ℕ → Bool) where
  -- The switch of `cmd_add_elem` on the byte at `cp`.
  unfoldable pub parse_byte : ℕ → Parser → Option Parser
  unfolding parser_begin_keyword parser_begin_multiple parser_end_keyword parser_end_multiple
      parser_handle_pipe parser_read_word
  parse_byte c p =
      if c == b'{'
      then parser_begin_keyword p
      else if c == b'('
      then parser_begin_multiple p
      else if c == b'}'
      then parser_end_keyword p
      else if c == b')'
      then parser_end_multiple p
      else if c == b'|'
      then parser_handle_pipe p
      else parser_read_word isspace p

  -- The loop of `cmd_add_elem`, with rounds for fuel.
  unfoldable pub parse_loop : ℕ → Elem → Parser → Added
  unfolding parser_end parse_byte split
  parse_loop zero elem p = out_of_rounds
  parse_loop (suc n) elem p = elim (split (λ c. c == b' ') p.cp).1 [
    | [] ↦ parser_end elem (record p { cp = [] })
    | c ∷ cs ↦ elim (parse_byte c (record p { cp = c ∷ cs })) [
      | none ↦ rejected p.tree
      | some next ↦ parse_loop n elem next
    ]
  ]

  unfoldable pub cmd_add_elem : Tree → Elem → Added
  unfolding parse_loop
  cmd_add_elem tree elem = parse_loop (length elem.line + length elem.desc + 1) elem (record {
    cp = elem.line;
    desc = elem.desc;
    in_multiple = false;
    in_keyword = 0;
    collected = [];
    parent = 0;
    save_parent = 0;
    tree = tree;
  })

  -- The loops of `cmd_tree_build`: an element that is refused leaves what it had inserted.
  unfoldable pub add_elems : Tree → List Elem → Option Tree
  unfolding cmd_add_elem
  add_elems tree [] = some tree
  add_elems tree (elem ∷ elems) = elim (cmd_add_elem tree elem) [
    | added next ↦ add_elems next elems
    | rejected next ↦ add_elems next elems
    | fault next id ↦ none
    | out_of_rounds ↦ none
  ]

  -- `cmd_tree_build`: the common commands, then those of the section.
  unfoldable pub cmd_tree_build : List Elem → List Elem → Option Tree
  unfolding add_elems
  cmd_tree_build common elems = add_elems (blank_node ∷ []) (common ++ elems)

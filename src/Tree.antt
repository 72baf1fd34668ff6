-- ===== src/Tree.antt =====
-- cli-tree.c: the tree of commands, as a store of nodes that name each other by their places in it.
pub mod Lines
pub mod Search
pub mod Parser
pub mod Complete
pub mod Plain
pub mod Options
pub mod Execute
mod Tests
unfoldable pub use chaconne.Prelude.{same_key}
use chaconne.Prelude.{
  ℕ, zero, suc, Bool, true, false, ◌&&◌, List, [], ◌∷◌, ◌++◌, Option, none, some, ◌==◌,
  if◌then◌else◌, set, get_or,
}

-- `enum token_type`
pub data TokenType : Type 0 where
  literal option variable vararg : TokenType

-- `struct token`, its strings without the NUL.
pub record Token : Type 0 where
  pub key : List ℕ
  pub desc : List ℕ
  pub type : TokenType

-- `struct cmd_node`. The two lists are the chains behind `children` and `keyword`, linked by
-- `sibling`; a function and an attribute table go by the number of the element that has them.
pub record Node : Type 0 where
  pub children : List ℕ
  pub keyword : List ℕ
  pub parent : ℕ
  pub tokens : List Token
  pub func : Option ℕ
  pub optattr : Option ℕ

abbrev pub blank_node : Node
blank_node = record {
  children = [];
  keyword = [];
  parent = 0;
  tokens = [];
  func = none;
  optattr = none;
}

-- The nodes allocated so far; the root is the first.
abbrev pub Tree : Type 0
Tree = List Node

unfoldable pub node : Tree → ℕ → Node
node tree i = get_or tree i blank_node

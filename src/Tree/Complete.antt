-- ===== src/Tree/Complete.antt =====
-- cli-tree.c: completion of the last word of a line, and help on what may follow.
pub mod Prefixes
pub mod Offers
pub mod Keys
pub mod LastWord
pub mod Covers
pub mod Printable
pub mod Serves
mod Tests
use mathlib.Core.List.{map}
use chaconne.Prelude.{
  ℕ, zero, suc, ◌+◌, ◌-◌, Bool, true, false, not, ◌&&◌, ◌||◌, List, [], ◌∷◌, ◌++◌, Option, none,
  some, ltb, ◌==◌, if◌then◌else◌, length, get_elem?, take, min,
}
use chaconne.Term.Session.{Completion, no_match, full_match, match, list_match, other}
use chaconne.Tree.{Token, Node, Tree, node, same_key}
use chaconne.Tree.Lines.{line_get_args}
use chaconne.Tree.Search.{Searched, reached, unreached, cmd_search}

-- `strncmp(key, str, strlen(str)) == 0`
unfoldable pub has_prefix : List ℕ → List ℕ → Bool
has_prefix [] key = true
has_prefix (c ∷ cs) [] = false
has_prefix (c ∷ cs) (k ∷ ks) = (c == k) && has_prefix cs ks

-- The test of `token_count`, `get_complete` and `get_desc`; no word is the empty one.
unfoldable pub offered : List ℕ → Token → Bool
unfolding has_prefix
offered word t = (length word == 0) || has_prefix word t.key

unfoldable pub count_tokens : List Token → List ℕ → ℕ
unfolding offered
count_tokens [] word = 0
count_tokens (t ∷ ts) word =
    let rest = count_tokens ts word in if offered word t then suc rest else rest

unfoldable pub token_count : Tree → List ℕ → List ℕ → ℕ
unfolding count_tokens
token_count tree [] word = 0
token_count tree (id ∷ ids) word =
    count_tokens (node tree id).tokens word + token_count tree ids word

-- The loops that store the tokens of a chain, in order.
unfoldable pub offer_tokens : List Token → List ℕ → List Token
unfolding offered
offer_tokens [] word = []
offer_tokens (t ∷ ts) word =
    let rest = offer_tokens ts word in if offered word t then t ∷ rest else rest

unfoldable pub offer : Tree → List ℕ → List ℕ → List Token
unfolding offer_tokens
offer tree [] word = []
offer tree (id ∷ ids) word = offer_tokens (node tree id).tokens word ++ offer tree ids word

-- The inner loop of `cmd_lcd`: the length of the common front of two keys.
unfoldable pub common : List ℕ → List ℕ → ℕ
common [] ks = 0
common (c ∷ cs) [] = 0
common (c ∷ cs) (k ∷ ks) = if c == k then suc (common cs ks) else 0

-- Its outer loop behind the first round.
unfoldable pub lcd_loop : ℕ → List ℕ → List (List ℕ) → ℕ
unfolding common
lcd_loop lcd key [] = lcd
lcd_loop lcd key (next ∷ keys) =
    let j = common key next in lcd_loop (if ltb j lcd then j else lcd) next keys

unfoldable pub cmd_lcd : List (List ℕ) → ℕ
unfolding lcd_loop
cmd_lcd [] = 0
cmd_lcd (a ∷ []) = 0
cmd_lcd (a ∷ b ∷ keys) = lcd_loop (common a b) b keys

-- The answer of `get_complete` for the keys that it stored. A longer front is copied to memory from
-- `malloc`, which is not tested: `none` is the write through NULL.
unfoldable pub complete_keys : Bool → ℕ → List (List ℕ) → Option Completion
unfolding cmd_lcd
complete_keys front_memory len [] = some no_match
complete_keys front_memory len (key ∷ keys) =
    let lcd = cmd_lcd (key ∷ keys) in
    if not (lcd == 0) && ltb len lcd
    then (if front_memory then some (match (take lcd key)) else none)
    else if length keys == 0
    then some (full_match key)
    else some (list_match (key ∷ keys))

-- `memory` tells whether `calloc` finds memory for the keys, and `front_memory` whether `malloc` does
-- for their front; `other` stands for CMD_SUCCESS and CMD_ERR_SYSTEM, at which the terminal shows
-- nothing, and `none` for a fault.
unfoldable pub get_complete : Bool → Bool → Tree → ℕ → List ℕ → Option Completion
unfolding token_count offer complete_keys
get_complete memory front_memory tree base word =
    let head = (node tree base).children in
    let keyword = (node tree base).keyword in
    if token_count tree head word + token_count tree keyword word == 0
    then some no_match
    else if memory
    then complete_keys front_memory (length word)
        (map (λ t. t.key) (offer tree head word ++ offer tree keyword word))
    else some other

unfoldable pub ends_blank : List ℕ → Bool
ends_blank [] = false
ends_blank (c ∷ []) = c == b' '
ends_blank (c ∷ d ∷ cs) = ends_blank (d ∷ cs)

-- The number of the words that are complete: the last one is not, unless a space ends the line.
unfoldable pub complete_words : List ℕ → List (List ℕ) → ℕ
unfolding ends_blank
complete_words line words = if ends_blank line then length words else length words - 1

-- The size of `argv` in `_cmd_complete` and `_cmd_describe`.
abbrev pub argv_size : ℕ
argv_size = 1000

-- The node that words lead to, none, or a write behind the end of `argv`, which is on the stack.
pub data Base : Type 0 where
  base_at : ℕ → Base
  no_base smashed : Base

unfoldable pub base_of : Searched → Base
base_of (reached found) =
    if ltb argv_size (length found.args) then smashed else base_at found.target
base_of (unreached args pairs) = if ltb argv_size (length args) then smashed else no_base

-- The node that the complete words lead to.
unfoldable pub base_node : Tree → List ℕ → List (List ℕ) → Base
unfolding complete_words cmd_search base_of
base_node tree line words =
    let n = complete_words line words in
    if n == 0 then base_at 0 else base_of (cmd_search tree (node tree 0).children (take n words))

-- A word, or the empty one for NULL.
unfoldable pub or_empty : Option (List ℕ) → List ℕ
or_empty none = []
or_empty (some w) = w

-- `words[wordi]`, or the empty word for NULL; the search ends at the last complete word.
unfoldable pub last_part : List ℕ → List (List ℕ) → List ℕ
unfolding complete_words or_empty
last_part line words = or_empty (get_elem? words (complete_words line words))

unfoldable pub is_pipe : List ℕ → Bool
is_pipe [] = false
is_pipe (c ∷ cs) = c == b'|'

unfoldable pub any_pipe : List (List ℕ) → Bool
unfolding is_pipe
any_pipe [] = false
any_pipe (w ∷ words) = is_pipe w || any_pipe words

-- `_cmd_complete`
unfoldable pub complete_line : Bool → Bool → Tree → List ℕ → List (List ℕ) → Option Completion
unfolding base_node get_complete last_part
complete_line memory front_memory tree line [] = some other
complete_line memory front_memory tree line (w ∷ words) = elim (base_node tree line (w ∷ words)) [
  | smashed ↦ none
  | no_base ↦ some no_match
  | base_at base ↦ get_complete memory front_memory tree base (last_part line (w ∷ words))
]

-- `mallocs` is the number of calls of `malloc` that succeed in the split of the line; `none` is a
-- fault.
unfoldable pub cmd_complete : (ℕ → Bool) → ℕ → Bool → Bool → Tree → List ℕ → Option Completion
unfolding line_get_args any_pipe complete_line
cmd_complete isspace mallocs memory front_memory tree line =
    elim (line_get_args isspace mallocs line) [
      | none ↦ some other
      | some words ↦
          if any_pipe words then some other else complete_line memory front_memory tree line words
    ]

-- What `cmd_describe` answers: no match, or the tokens with their help, and whether the line may end
-- here; `skipped` stands for CMD_SUCCESS and CMD_ERR_SYSTEM, and `fault` for the reads of keys that
-- were not stored and for a write behind the end of `argv`.
pub data Description : Type 0 where
  undescribed skipped fault : Description
  described : List Token → Bool → Description

unfoldable pub any_key : List ℕ → List Token → Bool
unfolding same_key
any_key word [] = false
any_key word (t ∷ ts) = same_key word t.key || any_key word ts

unfoldable pub has_func : Node → Bool
has_func n = elim n.func [ none ↦ false | some f ↦ true ]

-- The test on `word` behind `get_desc`, and its reads where there is no memory.
unfoldable pub exact_key : Option (List ℕ) → List Token → Bool
unfolding any_key
exact_key none shown = false
exact_key (some w) shown = any_key w shown

unfoldable pub unstored : Option (List ℕ) → Description
unstored none = skipped
unstored (some w) = fault

-- `_cmd_describe` and `get_desc` at the node; the word is `none` for NULL.
unfoldable pub describe_at : Bool → Tree → ℕ → Bool → Option (List ℕ) → Description
unfolding token_count offer has_func or_empty exact_key unstored
describe_at memory tree base complete word =
    let w = or_empty word in
    let head = (node tree base).children in
    let keyword = (node tree base).keyword in
    let shown = offer tree head w ++ offer tree keyword w in
    if token_count tree head w + token_count tree keyword w == 0
    then undescribed
    else if memory
    then described shown ((complete || exact_key word shown) && has_func (node tree base))
    else unstored word

unfoldable pub cmd_describe : (ℕ → Bool) → ℕ → Bool → Tree → List ℕ → Description
unfolding line_get_args any_pipe base_node describe_at complete_words
cmd_describe isspace mallocs memory tree line = elim (line_get_args isspace mallocs line) [
  | none ↦ undescribed
  | some words ↦ if any_pipe words then skipped else elim (base_node tree line words) [
    | smashed ↦ fault
    | no_base ↦ undescribed
    | base_at base ↦
        describe_at memory tree base ((length words == 0) || ends_blank line)
          (get_elem? words (complete_words line words))
  ]
]

-- ===== src/Tree/Options.antt =====
-- `struct cmdopt` of cli-term.c, the arguments and keyword pairs of a command, and `cmdopt_parse` of
-- cli-tree.c, which puts them where the command reads them.
pub mod Tables
use chaconne.Prelude.{
  ℕ, zero, suc, ◌+◌, ◌-◌, ◌*◌, ◌%◌, ◌^◌, Bool, true, false, ◌&&◌, List, [], ◌∷◌, Option, none, some,
  ltb, ◌==◌, if◌then◌else◌, length, get_elem?, same_key,
}
use chaconne.Hashtable.{Attr, Table, create, get, hashtable_set, clear}

-- A `char` added to a `size_t`: a byte from 128 on stands for a negative number.
unfoldable pub char_value : ℕ → ℕ
char_value c = if ltb c 128 then c else 2 ^ 64 - 256 + c

unfoldable pub hash_from : ℕ → List ℕ → ℕ
unfolding char_value
hash_from hash [] = hash
hash_from hash (c ∷ cs) = hash_from ((hash * 31 + char_value c) % 2 ^ 64) cs

unfoldable pub string_hash : List ℕ → ℕ
unfolding hash_from
string_hash key = hash_from 0 key

-- The attributes of the table of keyword pairs, strings that it does not free. Which of two values
-- is the same pointer makes no difference then.
abbrev pub string_attr : Attr (List ℕ) (List ℕ)
string_attr = record {
  key_is_ptr = true;
  value_is_ptr = true;
  key_size = 0;
  value_size = 0;
  callbacks_set = true;
  hash = string_hash;
  compare = same_key;
  same = same_key;
  frees_key = false;
  frees_value = false;
}

abbrev pub Kptable : Type 0
Kptable = Table (List ℕ) (List ℕ)

-- MAXARGC
abbrev pub max_args : ℕ
max_args = 64

-- `struct cmdopt`; `argc` is the length of `argv`. `overrun` tells whether more words than `argv`
-- holds were put there, over `argc` and `kpairs`; what is computed behind that says nothing of the
-- code.
pub record Cmdopt : Type 0 where
  pub argv : List (List ℕ)
  pub overrun : Bool
  pub kpairs : Kptable

-- With the success of the three allocations.
unfoldable pub cmdopt_create : Bool → Bool → Bool → Option Cmdopt
cmdopt_create memory table_memory node_memory =
    if memory
    then (elim (create table_memory node_memory 32 string_attr) [
      | none ↦ none
      | some h ↦ some (record { argv = []; overrun = false; kpairs = h })
    ])
    else none

unfoldable pub cmdopt_clear : Cmdopt → Cmdopt
unfolding clear
cmdopt_clear opt = record opt { argv = []; kpairs = (clear string_attr opt.kpairs).0 }

-- The calls of `hashtable_set` that a search makes, in order; `none` is the fault of a table with no
-- bucket.
unfoldable pub set_pairs : Kptable → List (List ℕ × List ℕ) → Option Kptable
unfolding hashtable_set
set_pairs h [] = some h
set_pairs h ((k, v) ∷ pairs) = elim (hashtable_set string_attr h k v) [
  | none ↦ none
  | some (g, freed) ↦ set_pairs g pairs
]

-- What the engine itself prints.
pub data Message : Type 0 where
  invalid_option : List ℕ → Message
  invalid_keyword : List ℕ → List ℕ → Message
  invalid_attribute : ℕ → Message
  invalid_command : List ℕ → Message
  unknown_command : List ℕ → Message
  incomplete_command : Message

-- `struct optattr` over a world `W`, which the option buffers are in: no index is a negative one, and
-- `set` writes the option at its offset and tells whether it was valid.
pub record Optattr (W : Type 0) : Type 0 where
  pub index : Option ℕ
  pub key : Option (List ℕ)
  pub set : List ℕ → W → W × Bool

-- `struct cmdoptattr`: `init` is the function of that name or else the `memset`.
pub record Cmdoptattr (W : Type 0) : Type 0 where
  pub attrs : List (Optattr W)
  pub init : W → W

-- The argument at an index that is in range.
unfoldable pub argument : Option ℕ → List (List ℕ) → Option (List ℕ)
argument none argv = none
argument (some i) argv = get_elem? argv i

module _ {W : Type 0} (print : Message → W → W) where
  -- The loop of `cmdopt_parse` from attribute `i` on; `false` is the result -1.
  unfoldable pub parse_attrs : ℕ → List (Optattr W) → Cmdopt → W → W × Bool
  unfolding argument
  parse_attrs i [] opt w = (w, true)
  parse_attrs i (a ∷ attrs) opt w =
      let rest = λ (w' : W). parse_attrs (i + 1) attrs opt w' in
      elim (argument a.index opt.argv) [
        | some arg ↦
            let (w', valid) = a.set arg w in
            if valid then rest w' else (print (invalid_option arg) w', false)
        | none ↦ elim a.key [
          | none ↦ rest (print (invalid_attribute i) w)
          | some key ↦ elim (get string_attr opt.kpairs key) [
            | none ↦ rest w
            | some none ↦ rest w
            | some (some value) ↦
                let (w', valid) = a.set value w in
                if valid then rest w' else (print (invalid_keyword key value) w', false)
          ]
        ]
      ]

  unfoldable pub cmdopt_parse : Cmdopt → Option (Cmdoptattr W) → W → W × Bool
  unfolding parse_attrs
  cmdopt_parse opt none w = (w, true)
  cmdopt_parse opt (some optattr) w =
      if (opt.kpairs.count == 0) && (length opt.argv == 0)
      then (optattr.init w, true)
      else parse_attrs 0 optattr.attrs opt (optattr.init w)

-- ===== src/Tree/Options/Tables.antt =====
-- The table of keyword pairs of cli-tree.c and cli-term.c: what it reads, and that it is emptied.
use mathlib.Core.Path.{subst}
use mathlib.Core.Option.{some-injective}
use chaconne.Prelude.{
  replicate, ℕ, ◌≡◌, refl, sym, ap, ◌∙◌, Bool, true, false, List, [], ◌∷◌, Option, none, some,
  arith, if◌then◌else◌, Bool-cases, inl, inr, same_key, same_key_refl, same_key-eq,
}
use chaconne.Hashtable.{no_node, attr_ok, create, get}
use chaconne.Hashtable.Chains.{IsKeyed}
use chaconne.Hashtable.Map.{IsHashtable, hashtable_set-Updated}
use chaconne.Hashtable.Whole.{clear-empty, create-empty}
use chaconne.Tree.Options.{
  string_attr, string_hash, Kptable, Cmdopt, cmdopt_create, cmdopt_clear, set_pairs,
}

pub string_attr-IsKeyed : IsKeyed string_attr
string_attr-IsKeyed = record {
  compare_refl = same_key_refl;
  compare_symm = same_key_symm;
  compare_trans = λ k q r h g. rw (same_key-eq k q h) g;
  hash_congr = λ k q h. ap string_hash (same_key-eq k q h);
}
  where
    same_key_symm : (k q : List ℕ) → same_key k q ≡ same_key q k
    same_key_symm k q = elim (Bool-cases (same_key k q)) [
      | inl same ↦
          ap (same_key k) (sym (same_key-eq k q same))
          ∙ ap (λ x. same_key x k) (same_key-eq k q same)
      | inr other ↦ elim (Bool-cases (same_key q k)) [
        | inl same ↦
            ap (same_key k) (same_key-eq q k same)
            ∙ ap (λ x. same_key x k) (sym (same_key-eq q k same))
        | inr other' ↦ other ∙ sym other'
      ]
    ]

-- Between two commands: the table is in order, and no argument and no keyword is left in it.
pub record IsClear (opt : Cmdopt) : Type 0 where
  pub no_args : opt.argv ≡ []
  pub table : IsHashtable string_attr string_attr-IsKeyed opt.kpairs
  pub no_pairs : (q : List ℕ) → get string_attr opt.kpairs q ≡ some none

pub cmdopt_clear-IsClear :
    (opt : Cmdopt)
    → IsHashtable string_attr string_attr-IsKeyed opt.kpairs
    → IsClear (cmdopt_clear opt)
unfolding cmdopt_clear
cmdopt_clear-IsClear opt t =
    let (table, reads) = clear-empty string_attr string_attr-IsKeyed opt.kpairs t in
    record { no_args = refl; table = table; no_pairs = reads }

-- The value that the last pair with a key gives, or another if no pair has it.
pub last_value : List ℕ → List (List ℕ × List ℕ) → Option (List ℕ) → Option (List ℕ)
last_value q [] o = o
last_value q ((k, v) ∷ pairs) o = last_value q pairs (if same_key k q then some v else o)

-- A table in which a key reads what the last of some pairs gave it.
pub record Reads (h : Kptable) (pairs : List (List ℕ × List ℕ)) (g : Kptable) : Type 0 where
  pub table : IsHashtable string_attr string_attr-IsKeyed g
  pub reads :
      (q : List ℕ) (o : Option (List ℕ))
      → get string_attr h q ≡ some o
      → get string_attr g q ≡ some (last_value q pairs o)

pub set_pairs-Reads :
    (h : Kptable) (pairs : List (List ℕ × List ℕ))
    → IsHashtable string_attr string_attr-IsKeyed h
    → (g : Kptable) × (set_pairs h pairs ≡ some g) × Reads h pairs g
unfolding set_pairs last_value
set_pairs-Reads h [] t = (h, refl, record { table = t; reads = λ q o e. e })
set_pairs-Reads h ((k, v) ∷ pairs) t =
    let (g, freed, done, u) = hashtable_set-Updated string_attr string_attr-IsKeyed h k v t in
    let (last, rest, r) = set_pairs-Reads g pairs u.table in
    (
      last,
      rw (set_pairs, done) rest,
      record {
        table = r.table;
        reads = λ q o e.
            r.reads q (if same_key k q then some v else o)
              (u.reads q ∙ pull (same_key k q) (get string_attr h q) o e);
      },
    )
  where
    pull :
        (b : Bool) (x : Option (Option (List ℕ))) (o : Option (List ℕ))
        → x ≡ some o
        → (if b then some (some v) else x) ≡ some (if b then some v else o)
    pull true x o e = refl
    pull false x o e = e

-- What `cmdopt_create` makes with memory, which is clear.
abbrev pub new_opt : Cmdopt
new_opt = record {
  argv = [];
  overrun = false;
  kpairs = record { nodes = replicate 32 no_node; count = 0; factor = 80 };
}

pub new_opt-IsClear : (cmdopt_create true true true ≡ some new_opt) × IsClear new_opt
unfolding cmdopt_create create attr_ok
new_opt-IsClear =
    let (h, made, t, reads) = create-empty string_attr string_attr-IsKeyed 32 (omega arith) refl in
    let e : h ≡ new_opt.kpairs = some-injective h new_opt.kpairs (sym made) in
    (
      refl,
      record {
        no_args = refl;
        table = subst (IsHashtable string_attr string_attr-IsKeyed) e t;
        no_pairs = λ q. subst (λ g. get string_attr g q ≡ some none) e (reads q);
      },
    )

-- ===== src/Kpairs/Tests.antt =====
-- Runs of the key pairs of str-kpairs.c, and its theorems at concrete inputs.
use chaconne.Prelude.{
  ℕ, ◌<◌, ◌≡◌, ◌⊎◌, refl, true, false, List, [], ◌∷◌, none, some, arith, if◌then◌else◌, length,
  replicate, same_key,
}
use chaconne.Kpairs.{Kpairs, str_kpairs_init, str_kpairs_get, str_kpairs_set, str_kpairs_delete}
use chaconne.Kpairs.Packed.{packed, Holds}
use chaconne.Kpairs.Pairs.{insert, remove}
use chaconne.Kpairs.Reads.{read}
use chaconne.Kpairs.Updates.{Becomes}
use chaconne.Kpairs.Sets.{str_kpairs_set-Updated}
use chaconne.Kpairs.Deletes.{str_kpairs_delete-Updated}

-- A buffer holds no pairs once it is initialised.
init-Holds : (bytes : List ℕ) → Holds (str_kpairs_init bytes) []
unfolding str_kpairs_init packed
init-Holds bytes = record {
  tail = (str_kpairs_init bytes).buf;
  parts = refl;
  ends = refl;
  pairs_ok = tt;
}

abbrev key : List ℕ
key = b'k' ∷ b'e' ∷ []

abbrev value : List ℕ
value = b'v' ∷ []

abbrev one_pair : Kpairs
one_pair = record { buf = b'k' ∷ b'e' ∷ 0 ∷ b'v' ∷ 0 ∷ replicate 5 7; last = 5 }

one_pair-Holds : Holds one_pair ((key, value) ∷ [])
unfolding packed
one_pair-Holds = record {
  tail = replicate 5 7;
  parts = refl;
  ends = refl;
  pairs_ok = (omega arith, (omega arith, (omega arith, tt)), (omega arith, tt), tt, tt);
}

set_one :
    str_kpairs_set (str_kpairs_init (replicate 10 7)) key value
    ≡ (record { buf = b'k' ∷ b'e' ∷ 0 ∷ b'v' ∷ 0 ∷ replicate 5 7; last = 5 }, true)
unfolding str_kpairs_init str_kpairs_set
set_one = refl

-- A longer value moves what stands behind it.
set_longer : (str_kpairs_set one_pair key (1 ∷ 2 ∷ 3 ∷ [])).0.last ≡ 7
unfolding str_kpairs_set
set_longer = refl

-- A pair under the empty key hides itself and all that is set after it.
empty_key :
    str_kpairs_get
      (str_kpairs_set (str_kpairs_set (str_kpairs_init (replicate 10 7)) [] value).0 key value).0
      key
    ≡ none
unfolding str_kpairs_init str_kpairs_set str_kpairs_get
empty_key = refl

str_kpairs_set-Updated_example :
    ((str_kpairs_set one_pair key (1 ∷ 2 ∷ 3 ∷ [])).1 ≡ true)
      × Becomes one_pair
          (str_kpairs_set one_pair key (1 ∷ 2 ∷ 3 ∷ [])).0
          (insert key (1 ∷ 2 ∷ 3 ∷ []) ((key, value) ∷ []))
      × ((q : List ℕ)
          → read (str_kpairs_set one_pair key (1 ∷ 2 ∷ 3 ∷ [])).0 q
            ≡ (if same_key q key then some (1 ∷ 2 ∷ 3 ∷ []) else read one_pair q))
    ⊎ (str_kpairs_set one_pair key (1 ∷ 2 ∷ 3 ∷ []) ≡ (one_pair, false))
      × (length one_pair.buf < length (packed (insert key (1 ∷ 2 ∷ 3 ∷ []) ((key, value) ∷ []))))
str_kpairs_set-Updated_example =
    str_kpairs_set-Updated one_pair ((key, value) ∷ []) key (1 ∷ 2 ∷ 3 ∷ []) one_pair-Holds
      (omega arith) (omega arith, (omega arith, tt)) (omega arith, (omega arith, (omega arith, tt)))

str_kpairs_delete-Updated_example :
    Becomes one_pair (str_kpairs_delete one_pair key) (remove key ((key, value) ∷ []))
    × ((q : List ℕ)
        → read (str_kpairs_delete one_pair key) q
          ≡ (if same_key q key then none else read one_pair q))
str_kpairs_delete-Updated_example =
    str_kpairs_delete-Updated one_pair ((key, value) ∷ []) key one_pair-Holds

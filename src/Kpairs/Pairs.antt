-- ===== src/Kpairs/Pairs.antt =====
-- The association list that the buffer of str-kpairs.c stands for.
use mathlib.Core.Path.{subst}
use chaconne.Prelude.{
  ℕ, ◌<◌, ◌≡◌, refl, sym, ap, ◌∙◌, true, false, List, [], ◌∷◌, ◌++◌, Option, none, some, arith,
  if◌then◌else◌, length, Bool-cases, inl, inr, same_key, same_key_refl, same_key-eq,
}
use chaconne.Kpairs.Packed.{Pairs, NoNul, Lacks, IsPairs}

pub lookup : List ℕ → Pairs → Option (List ℕ)
lookup key [] = none
lookup key ((k, v) ∷ ps) = if same_key key k then some v else lookup key ps

pub insert : List ℕ → List ℕ → Pairs → Pairs
insert key value [] = (key, value) ∷ []
insert key value ((k, v) ∷ ps) =
    if same_key key k then (k, value) ∷ ps else (k, v) ∷ insert key value ps

pub remove : List ℕ → Pairs → Pairs
remove key [] = []
remove key ((k, v) ∷ ps) = if same_key key k then ps else (k, v) ∷ remove key ps

-- A text equals at most one of two that differ.
same_key-apart :
    (a b c : List ℕ) → same_key b c ≡ false → same_key a c ≡ true → same_key a b ≡ false
same_key-apart a b c h e = elim (Bool-cases (same_key a b)) [
  | inl same ↦
      let d : b ≡ c = sym (same_key-eq a b same) ∙ same_key-eq a c e in
      cc (sym h ∙ ap (λ x. same_key x c) d ∙ same_key_refl c)
  | inr other ↦ other
]

pub lookup-Lacks : (key : List ℕ) (ps : Pairs) → Lacks key ps → lookup key ps ≡ none
unfolding lookup
lookup-Lacks key [] h = refl
lookup-Lacks key ((k, v) ∷ ps) h = rw (lookup, h.0) (lookup-Lacks key ps h.1)

pub lookup-append :
    (key v : List ℕ) (before after : Pairs)
    → Lacks key before
    → lookup key (before ++ (key, v) ∷ after) ≡ some v
unfolding lookup
lookup-append key v [] after h = rw (same_key_refl key)
lookup-append key v ((j, w) ∷ ps) after h = rw (lookup, h.0) (lookup-append key v ps after h.1)

pub insert-append :
    (key w value : List ℕ) (before after : Pairs)
    → Lacks key before
    → insert key value (before ++ (key, w) ∷ after) ≡ before ++ (key, value) ∷ after
unfolding insert
insert-append key w value [] after h = rw (insert, same_key_refl key)
insert-append key w value ((j, v) ∷ ps) after h =
    rw (insert, h.0) (ap (λ l. (j, v) ∷ l) (insert-append key w value ps after h.1))

pub insert-Lacks :
    (key value : List ℕ) (ps : Pairs) → Lacks key ps → insert key value ps ≡ ps ++ (key, value) ∷ []
unfolding insert
insert-Lacks key value [] h = refl
insert-Lacks key value ((j, v) ∷ ps) h =
    rw (insert, h.0) (ap (λ l. (j, v) ∷ l) (insert-Lacks key value ps h.1))

pub remove-append :
    (key w : List ℕ) (before after : Pairs)
    → Lacks key before
    → remove key (before ++ (key, w) ∷ after) ≡ before ++ after
unfolding remove
remove-append key w [] after h = rw (remove, same_key_refl key)
remove-append key w ((j, v) ∷ ps) after h =
    rw (remove, h.0) (ap (λ l. (j, v) ∷ l) (remove-append key w ps after h.1))

pub remove-Lacks : (key : List ℕ) (ps : Pairs) → Lacks key ps → remove key ps ≡ ps
unfolding remove
remove-Lacks key [] h = refl
remove-Lacks key ((j, v) ∷ ps) h = rw (remove, h.0) (ap (λ l. (j, v) ∷ l) (remove-Lacks key ps h.1))

pub lookup-insert :
    (q key value : List ℕ) (ps : Pairs)
    → lookup q (insert key value ps) ≡ (if same_key q key then some value else lookup q ps)
unfolding lookup insert
lookup-insert q key value [] = refl
lookup-insert q key value ((k, v) ∷ ps) = elim (Bool-cases (same_key key k)) [
  | inl same ↦ let e : key ≡ k = same_key-eq key k same in rw (insert, same, e) (ground arith)
  | inr other ↦
      rw (insert, other)
        (ground (arith, lookup-insert q key value ps, same_key-apart q key k other))
]

pub lookup-remove :
    (q key : List ℕ) (ps : Pairs)
    → IsPairs ps
    → lookup q (remove key ps) ≡ (if same_key q key then none else lookup q ps)
unfolding lookup remove
lookup-remove q key [] h = ground arith
lookup-remove q key ((k, v) ∷ ps) h = elim (Bool-cases (same_key key k)) [
  | inl same ↦
      let e : key ≡ k = same_key-eq key k same in
      rw (remove, same, e)
        (elim (Bool-cases (same_key q k)) [
          | inl here ↦
              rw here (lookup-Lacks q ps (subst (λ x. Lacks x ps) (sym (same_key-eq q k here)) h.3))
          | inr there ↦ rw there
        ])
  | inr other ↦
      rw (remove, other) (ground (arith, lookup-remove q key ps h.4, same_key-apart q key k other))
]

Lacks-insert :
    (j key value : List ℕ) (ps : Pairs)
    → same_key j key ≡ false
    → Lacks j ps
    → Lacks j (insert key value ps)
unfolding insert
Lacks-insert j key value [] h l = (h, tt)
Lacks-insert j key value ((k, v) ∷ ps) h l = elim (Bool-cases (same_key key k)) [
  | inl same ↦ rw (insert, same) l
  | inr other ↦ rw (insert, other) (l.0, Lacks-insert j key value ps h l.1)
]

same_key_symm : (a b : List ℕ) → same_key a b ≡ false → same_key b a ≡ false
same_key_symm a b h = elim (Bool-cases (same_key b a)) [
  | inl same ↦ cc (sym h ∙ ap (same_key a) (same_key-eq b a same) ∙ same_key_refl a)
  | inr other ↦ other
]

pub insert-IsPairs :
    (key value : List ℕ) (ps : Pairs)
    → 0 < length key
    → NoNul key
    → NoNul value
    → IsPairs ps
    → IsPairs (insert key value ps)
unfolding insert
insert-IsPairs key value [] some_key nk nv h = (some_key, nk, nv, tt, tt)
insert-IsPairs key value ((k, v) ∷ ps) some_key nk nv h = elim (Bool-cases (same_key key k)) [
  | inl same ↦ rw (insert, same) (h.0, h.1, nv, h.3, h.4)
  | inr other ↦
      rw (insert, other)
        (
          h.0,
          h.1,
          h.2,
          Lacks-insert k key value ps (same_key_symm key k other) h.3,
          insert-IsPairs key value ps some_key nk nv h.4,
        )
]

Lacks-remove : (j key : List ℕ) (ps : Pairs) → Lacks j ps → Lacks j (remove key ps)
unfolding remove
Lacks-remove j key [] l = tt
Lacks-remove j key ((k, v) ∷ ps) l = elim (Bool-cases (same_key key k)) [
  | inl same ↦ rw (remove, same) l.1
  | inr other ↦ rw (remove, other) (l.0, Lacks-remove j key ps l.1)
]

pub remove-IsPairs : (key : List ℕ) (ps : Pairs) → IsPairs ps → IsPairs (remove key ps)
unfolding remove
remove-IsPairs key [] h = tt
remove-IsPairs key ((k, v) ∷ ps) h = elim (Bool-cases (same_key key k)) [
  | inl same ↦ rw (remove, same) h.4
  | inr other ↦
      rw (remove, other) (h.0, h.1, h.2, Lacks-remove k key ps h.3, remove-IsPairs key ps h.4)
]

pub IsPairs-value :
    (before : Pairs) (k v : List ℕ) (after : Pairs) → IsPairs (before ++ (k, v) ∷ after) → NoNul v
IsPairs-value [] k v after h = h.2
IsPairs-value ((j, w) ∷ ps) k v after h = IsPairs-value ps k v after h.4

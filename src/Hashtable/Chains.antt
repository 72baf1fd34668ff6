-- ===== src/Hashtable/Chains.antt =====
-- The chains of hashtable.c under the comparison of keys.
use mathlib.Core.Path.{subst}
use mathlib.Core.Option.{some-injective}
use chaconne.Prelude.{
  ℕ, suc, ◌%◌, ◌≡◌, ◌≢◌, refl, sym, ap, ◌∙◌, true, List, [], ◌∷◌, ◌++◌, Option, none, some, arith,
  if◌then◌else◌, length, Bool-cases, Option-cases, inl, inr,
}
use chaconne.Hashtable.{Attr, Elem, Freed, find, replace, remove}

-- What the table relies on in its callbacks: `compare` is an equivalence that `hash` respects.
pub record IsKeyed {ℓ} {K V : Type ℓ} (a : Attr K V) : Type ℓ where
  pub compare_refl : (k : K) → a.compare k k ≡ true
  pub compare_symm : (k q : K) → a.compare k q ≡ a.compare q k
  pub compare_trans :
      (k q r : K) → a.compare k q ≡ true → a.compare q r ≡ true → a.compare k r ≡ true
  pub hash_congr : (k q : K) → a.compare k q ≡ true → a.hash k ≡ a.hash q

abbrev pub or_else {ℓ} : {A : Type ℓ} → Option A → Option A → Option A
or_else none o = o
or_else (some x) o = some x

some_fst {ℓ} :
    {A B : Type ℓ} {x z : A} {y w : B}
    → ◌≡◌ {A = Option (A × B)} (some (x, y)) (some (z, w))
    → x ≡ z
some_fst {x} {z} {y} {w} h = ap (λ r. r.0) (some-injective (x, y) (z, w) h)

module _ {ℓ} {K V : Type ℓ} (a : Attr K V) (law : IsKeyed a) where
  -- No two elements of a chain have one key.
  abbrev pub Distinct : List (Elem K V) → Type ℓ
  Distinct [] = Unit
  Distinct (e ∷ es) = (find a es e.key ≡ none) × Distinct es

  -- Every element has the hash of its key, and stands in bucket `i` of `n`.
  abbrev pub Placed : ℕ → ℕ → List (Elem K V) → Type ℓ
  Placed n i [] = Unit
  Placed n i (e ∷ es) = (e.hash ≡ a.hash e.key) × (e.hash % n ≡ i) × Placed n i es

  -- Equal keys compare alike with any other.
  pub compare_congr : (k q r : K) → a.compare k q ≡ true → a.compare r k ≡ a.compare r q
  compare_congr k q r h =
      ground (arith, law.compare_trans r k q, law.compare_trans r q k, law.compare_symm k q)

  pub find_congr :
      (es : List (Elem K V)) (k q : K) → a.compare k q ≡ true → find a es k ≡ find a es q
  unfolding find
  find_congr [] k q h = refl
  find_congr (e ∷ es) k q h = rw (compare_congr k q e.key h, find_congr es k q h)

  pub find-append :
      (es : List (Elem K V)) (ds : List (Elem K V)) (q : K)
      → find a (es ++ ds) q ≡ or_else (find a es q) (find a ds q)
  unfolding find
  find-append [] ds q = refl
  find-append (e ∷ es) ds q = ground (arith, find-append es ds q)

  -- A key in another bucket is not found.
  pub find-elsewhere :
      (n i : ℕ) (es : List (Elem K V)) (q : K)
      → Placed n i es
      → a.hash q % n ≢ i
      → find a es q ≡ none
  unfolding find
  find-elsewhere n i [] q p h = refl
  find-elsewhere n i (e ∷ es) q p h = elim (Bool-cases (a.compare e.key q)) [
    | inl same ↦ absurd (h (ap (λ x. x % n) (sym (p.0 ∙ law.hash_congr e.key q same)) ∙ p.1))
    | inr other ↦ rw (other, find-elsewhere n i es q p.2 h)
  ]

  pub replace-none :
      (es : List (Elem K V)) (k : K) (v : V) → replace a es k v ≡ none → find a es k ≡ none
  unfolding find replace
  replace-none [] k v h = refl
  replace-none (e ∷ es) k v h = ground (arith, replace-none es k v)

  compare_left : (k q r : K) → a.compare k q ≡ true → a.compare k r ≡ a.compare q r
  compare_left k q r h = law.compare_symm k r ∙ compare_congr k q r h ∙ law.compare_symm r q

  -- A chain in which the value under a key that it has is replaced.
  pub record Replaced (n i : ℕ) (es : List (Elem K V)) (k : K) (v : V) (ds : List (Elem K V))
      : Type ℓ where
    pub reads : (q : K) → find a ds q ≡ (if a.compare k q then some v else find a es q)
    pub placed : Placed n i ds
    pub distinct : Distinct ds
    pub size : length ds ≡ length es

  pub replace-some :
      (n i : ℕ) (es : List (Elem K V)) (k : K) (v : V) (ds : List (Elem K V))
      (fs : List (Freed K V))
      → Placed n i es
      → Distinct es
      → replace a es k v ≡ some (ds, fs)
      → Replaced n i es k v ds
  unfolding replace find
  replace-some n i [] k v ds fs p d h = cc
  replace-some n i (e ∷ es) k v ds fs p d h = elim (Bool-cases (a.compare e.key k)) [
    | inl same ↦ subst (Replaced n i (e ∷ es) k v) (some_fst (rw same at h)) (record {
      reads = λ q. ground (arith, compare_left e.key k q same);
      placed = p;
      distinct = d;
      size = refl;
    })
    | inr other ↦ elim (Option-cases (replace a es k v)) [
      | inl no_key ↦ cc (rw (other, no_key) at h)
      | inr ((ds', fs'), e') ↦
          let r = replace-some n i es k v ds' fs' p.2 d.1 e' in
          subst (Replaced n i (e ∷ es) k v) (some_fst (rw (other, e') at h)) (record {
            reads = λ q. ground (
              arith,
              r.reads q,
              compare_left e.key k q,
              law.compare_symm e.key k,
              law.compare_trans e.key q k,
              law.compare_symm q k,
            );
            placed = (p.0, p.1, r.placed);
            distinct = (ground (arith, r.reads e.key, d.0, law.compare_symm e.key k), r.distinct);
            size = ap suc r.size;
          })
    ]
  ]

  -- A chain from which a key that it has is removed.
  pub record Removed (n i : ℕ) (es : List (Elem K V)) (k : K) (ds : List (Elem K V)) : Type ℓ where
    pub reads : (q : K) → find a ds q ≡ (if a.compare k q then none else find a es q)
    pub placed : Placed n i ds
    pub distinct : Distinct ds
    pub size : suc (length ds) ≡ length es

  pub remove-none : (es : List (Elem K V)) (k : K) → remove a es k ≡ none → find a es k ≡ none
  unfolding find remove
  remove-none [] k h = refl
  remove-none (e ∷ es) k h = ground (arith, remove-none es k)

  pub remove-some :
      (n i : ℕ) (es : List (Elem K V)) (k : K) (ds : List (Elem K V)) (fs : List (Freed K V))
      → Placed n i es
      → Distinct es
      → remove a es k ≡ some (ds, fs)
      → Removed n i es k ds
  unfolding remove find
  remove-some n i [] k ds fs p d h = cc
  remove-some n i (e ∷ es) k ds fs p d h = elim (Bool-cases (a.compare e.key k)) [
    | inl same ↦ subst (Removed n i (e ∷ es) k) (some_fst (rw same at h)) (record {
      reads = λ q. ground (arith, compare_left e.key k q same, find_congr es e.key q, d.0);
      placed = p.2;
      distinct = d.1;
      size = refl;
    })
    | inr other ↦ elim (Option-cases (remove a es k)) [
      | inl no_key ↦ cc (rw (other, no_key) at h)
      | inr ((ds', fs'), e') ↦
          let r = remove-some n i es k ds' fs' p.2 d.1 e' in
          subst (Removed n i (e ∷ es) k) (some_fst (rw (other, e') at h)) (record {
            reads = λ q. ground (
              arith,
              r.reads q,
              compare_left e.key k q,
              law.compare_symm e.key k,
              law.compare_trans e.key q k,
              law.compare_symm q k,
            );
            placed = (p.0, p.1, r.placed);
            distinct = (ground (arith, r.reads e.key, d.0, law.compare_symm e.key k), r.distinct);
            size = ap suc r.size;
          })
    ]
  ]

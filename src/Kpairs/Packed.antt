-- ===== src/Kpairs/Packed.antt =====
-- str-kpairs.c: the buffer as a list of pairs, and the search in it.
use mathlib.Core.Path.{subst}
use chaconne.Prelude.{
  ℕ, zero, suc, ◌+◌, ◌≤◌, ◌<◌, ◌≡◌, ◌≢◌, ◌⊎◌, refl, sym, ap, ◌∙◌, true, false, List, [], ◌∷◌, ◌++◌,
  Option, none, some, arith, ltb, ◌==◌, length, get_or, take, drop, append_assoc, length-append,
  Bool-cases, inl, inr, same_key, same_key-eq,
}
use chaconne.Kpairs.{Kpairs, string_at, find, str_kpairs_get}

abbrev pub Pairs : Type 0
Pairs = List (List ℕ × List ℕ)

-- The bytes of the pairs, each string with its NUL.
unfoldable pub packed : Pairs → List ℕ
packed [] = []
packed ((k, v) ∷ ps) = (k ++ 0 ∷ []) ++ (v ++ 0 ∷ []) ++ packed ps

abbrev pub NoNul : List ℕ → Type 0
NoNul [] = Unit {0}
NoNul (c ∷ cs) = (c ≢ 0) × NoNul cs

-- No pair has the key.
abbrev pub Lacks : List ℕ → Pairs → Type 0
Lacks key [] = Unit {0}
Lacks key ((k, v) ∷ ps) = (same_key key k ≡ false) × Lacks key ps

-- The keys are not empty and differ, and no string has a NUL in it.
abbrev pub IsPairs : Pairs → Type 0
IsPairs [] = Unit {0}
IsPairs ((k, v) ∷ ps) = (0 < length k) × NoNul k × NoNul v × Lacks k ps × IsPairs ps

-- The buffer has the pairs, one behind the other, up to `last`.
pub record Holds (kps : Kpairs) (ps : Pairs) : Type 0 where
  pub tail : List ℕ
  pub parts : kps.buf ≡ packed ps ++ tail
  pub ends : kps.last ≡ length (packed ps)
  pub pairs_ok : IsPairs ps

module _ {ℓ} {A : Type ℓ} where
  pub drop_front : (xs ys : List A) (n : ℕ) → n ≡ length xs → drop n (xs ++ ys) ≡ ys
  drop_front [] ys n e = rw e
  drop_front (x ∷ xs) ys n e = rw e (drop_front xs ys (length xs) refl)

  pub take_front : (xs ys : List A) (n : ℕ) → n ≡ length xs → take n (xs ++ ys) ≡ xs
  take_front [] ys n e = rw e
  take_front (x ∷ xs) ys n e = rw e (ap (λ l. x ∷ l) (take_front xs ys (length xs) refl))

  pub get_or_front : (xs ys : List A) (d : A) → get_or (xs ++ ys) (length xs) d ≡ get_or ys 0 d
  get_or_front [] ys d = refl
  get_or_front (x ∷ xs) ys d = get_or_front xs ys d

pub string_at-append : (s r : List ℕ) → NoNul s → string_at ((s ++ 0 ∷ []) ++ r) ≡ s
unfolding string_at
string_at-append [] r h = refl
string_at-append (c ∷ cs) r h = ground (arith, string_at-append cs r h.1)

-- What a search that starts behind some bytes finds: the value of the key among the pairs.
pub record At (key : List ℕ) (ps : Pairs) (start : ℕ) (r : Option ℕ) : Type 0 where
  pub before : Pairs
  pub value : List ℕ
  pub after : Pairs
  pub parts : ps ≡ before ++ (key, value) ∷ after
  pub new : Lacks key before
  pub result : r ≡ some (start + length (packed before) + length key + 1)

abbrev pub Located : List ℕ → Pairs → ℕ → Option ℕ → Type 0
Located key ps start r = ((r ≡ none) × Lacks key ps) ⊎ At key ps start r

pub length-pair :
    (k v : List ℕ) (ps : Pairs)
    → length (packed ((k, v) ∷ ps)) ≡ length k + 1 + length v + 1 + length (packed ps)
unfolding packed
length-pair k v ps =
    let e : length ((k ++ 0 ∷ []) ++ (v ++ 0 ∷ []) ++ packed ps)
        ≡ length k + 1 + length v + 1 + length (packed ps) =
      omega (
        arith,
        length-append ((k ++ 0 ∷ []) ++ (v ++ 0 ∷ [])) (packed ps),
        length-append (k ++ 0 ∷ []) (v ++ 0 ∷ []),
        length-append k (0 ∷ []),
        length-append v (0 ∷ []),
      ) in
    e

pub packed-append : (ps qs : Pairs) → packed (ps ++ qs) ≡ packed ps ++ packed qs
unfolding packed
packed-append [] qs = refl
packed-append ((k, v) ∷ ps) qs =
    ap (λ l. (k ++ 0 ∷ []) ++ (v ++ 0 ∷ []) ++ l) (packed-append ps qs)
    ∙ sym (append_assoc ((k ++ 0 ∷ []) ++ (v ++ 0 ∷ [])) (packed ps) (packed qs))

pub packed_nil : packed [] ≡ []
unfolding packed
packed_nil = refl

pub packed-pair :
    (k v : List ℕ) (ps : Pairs)
    → packed ((k, v) ∷ ps) ≡ (k ++ 0 ∷ []) ++ ((v ++ 0 ∷ []) ++ packed ps)
unfolding packed
packed-pair k v ps = append_assoc (k ++ 0 ∷ []) (v ++ 0 ∷ []) (packed ps)

get_or-key :
    (k r : List ℕ) → 0 < length k → NoNul k → (get_or ((k ++ 0 ∷ []) ++ r) 0 0 == 0) ≡ false
get_or-key [] r h n = absurd (omega arith)
get_or-key (c ∷ cs) r h n = ground (arith, n.0)

later :
    (key k v : List ℕ) (ps : Pairs) (start next : ℕ) (r : Option ℕ)
    → same_key key k ≡ false
    → next ≡ start + length k + 1 + length v + 1
    → Located key ps next r
    → Located key ((k, v) ∷ ps) start r
later key k v ps start next r other e (inl h) = inl (h.0, (other, h.1))
later key k v ps start next r other e (inr h) = inr (record {
  before = (k, v) ∷ h.before;
  value = h.value;
  after = h.after;
  parts = ap (λ l. (k, v) ∷ l) h.parts;
  new = (other, h.new);
  result = h.result ∙ ap some (omega (arith, e, length-pair k v h.before));
})

find-Located :
    (n : ℕ) (kps : Kpairs) (key : List ℕ) (front : List ℕ) (ps : Pairs) (tail : List ℕ)
    → length ps < n
    → kps.buf ≡ front ++ (packed ps ++ tail)
    → kps.last ≡ length front + length (packed ps)
    → IsPairs ps
    → Located key ps (length front) (find n kps key (length front))
unfolding find packed
find-Located zero kps key front ps tail fuel parts ends good = absurd (omega arith)
find-Located (suc n) kps key front [] tail fuel parts ends good =
    let stop : ltb (length front) kps.last ≡ false = ground (arith, ends) in
    rw (find, stop) (inl (refl, tt))
find-Located (suc n) kps key front ((k, v) ∷ ps) tail fuel parts ends good =
    let kz = k ++ 0 ∷ [] in
    let vz = v ++ 0 ∷ [] in
    let at_key : kps.buf ≡ front ++ (kz ++ (vz ++ (packed ps ++ tail))) =
      parts ∙ simp append_assoc in
    let at_value : kps.buf ≡ (front ++ kz) ++ (vz ++ (packed ps ++ tail)) =
      at_key ∙ sym (append_assoc front kz (vz ++ (packed ps ++ tail))) in
    let at_next : kps.buf ≡ ((front ++ kz) ++ vz) ++ (packed ps ++ tail) =
      at_value ∙ sym (append_assoc (front ++ kz) vz (packed ps ++ tail)) in
    let to_value : length front + length k + 1 ≡ length (front ++ kz) =
      omega (arith, length-append front kz, length-append k (0 ∷ [])) in
    let to_next : length front + length k + 1 + length v + 1 ≡ length ((front ++ kz) ++ vz) =
      omega (arith, to_value, length-append (front ++ kz) vz, length-append v (0 ∷ [])) in
    let here : string_at (drop (length front) kps.buf) ≡ k =
      ap (λ b. string_at (drop (length front) b)) at_key
      ∙ ap string_at (drop_front front (kz ++ (vz ++ (packed ps ++ tail))) (length front) refl)
      ∙ string_at-append k (vz ++ (packed ps ++ tail)) good.1 in
    let there : string_at (drop (length front + length k + 1) kps.buf) ≡ v =
      ap (λ b. string_at (drop (length front + length k + 1) b)) at_value
      ∙ ap string_at (
          drop_front (front ++ kz) (vz ++ (packed ps ++ tail)) (length front + length k + 1)
            to_value)
      ∙ string_at-append v (packed ps ++ tail) good.2 in
    let full : (get_or kps.buf (length front) 0 == 0) ≡ false =
      ap (λ b. get_or b (length front) 0 == 0) at_key
      ∙ ap (λ c. c == 0) (get_or_front front (kz ++ (vz ++ (packed ps ++ tail))) 0)
      ∙ get_or-key k (vz ++ (packed ps ++ tail)) good.0 good.1 in
    let size = length-pair k v ps in
    let go : ltb (length front) kps.last ≡ true = ground (arith, ends, size) in
    let ih : Located key ps (length front + length k + 1 + length v + 1)
        (find n kps key (length front + length k + 1 + length v + 1)) =
      rw to_next (
        find-Located n kps key ((front ++ kz) ++ vz) ps tail (omega arith) at_next
          (omega (arith, ends, size, to_next)) good.4) in
    elim (Bool-cases (same_key key k)) [
      | inl same ↦
          rw (find, go, full, here, same)
            (inr (record {
              before = [];
              value = v;
              after = ps;
              parts = ap (λ l. (l, v) ∷ ps) (sym (same_key-eq key k same));
              new = tt;
              result = ap some (omega (arith, ap length (same_key-eq key k same)));
            }))
      | inr other ↦
          let next = length front + length k + 1 + length v + 1 in
          let e : find (suc n) kps key (length front) ≡ find n kps key next =
            rw (find, go, full, here, other, there) in
          subst (Located key ((k, v) ∷ ps) (length front)) (sym e)
            (later key k v ps (length front) next _ other refl ih)
    ]

length-le-packed : (ps : Pairs) → length ps ≤ length (packed ps)
length-le-packed [] = omega arith
length-le-packed ((k, v) ∷ ps) = omega (arith, length-pair k v ps, length-le-packed ps)

-- `str_kpairs_get` points to the value of the pair with the key, or to nothing where there is none.
pub str_kpairs_get-Located :
    (kps : Kpairs) (ps : Pairs) (key : List ℕ)
    → Holds kps ps
    → Located key ps 0 (str_kpairs_get kps key)
unfolding str_kpairs_get
str_kpairs_get-Located kps ps key h =
    find-Located (kps.last + 1) kps key [] ps h.tail (omega (arith, h.ends, length-le-packed ps))
      h.parts (omega (arith, h.ends)) h.pairs_ok

-- ===== src/Kpairs/Reads.antt =====
-- str-kpairs.c: writes into the buffer, and what `str_kpairs_get` reads in it.
use mathlib.Core.Path.{subst}
use mathlib.Core.Option.{some-injective}
use chaconne.Prelude.{
  ℕ, ◌+◌, ◌-◌, ◌≤◌, ◌≡◌, refl, sym, ap, ◌∙◌, List, [], ◌∷◌, ◌++◌, Option, none, some, arith, length,
  take, drop, append_assoc, length-append, length-take, take-append-drop, drop-append, take-append,
  take_all, drop_all, inl, inr,
}
use chaconne.Kpairs.{Kpairs, string_at, blit, str_kpairs_get}
use chaconne.Kpairs.Packed.{
  Pairs, packed, NoNul, Lacks, IsPairs, Holds, At, Located, drop_front, take_front,
  string_at-append, packed-append, packed-pair, str_kpairs_get-Located,
}
use chaconne.Kpairs.Pairs.{lookup, lookup-Lacks, lookup-append, IsPairs-value}

-- The text that `str_kpairs_get` points to.
pub read : Kpairs → List ℕ → Option (List ℕ)
read kps key = elim (str_kpairs_get kps key) [
  | none ↦ none
  | some val ↦ some (string_at (drop val kps.buf))
]

-- Bytes written over as many others.
pub blit-front :
    (a b c s : List ℕ) (n : ℕ)
    → n ≡ length a
    → length s ≡ length b
    → blit (a ++ (b ++ c)) n s ≡ a ++ (s ++ c)
unfolding blit
blit-front a b c s n e same =
    let front : take n (a ++ (b ++ c)) ≡ a = take_front a (b ++ c) n e in
    let back : drop (n + length s) (a ++ (b ++ c)) ≡ c =
      ap (drop (n + length s)) (sym (append_assoc a b c))
      ∙ drop_front (a ++ b) c (n + length s) (omega (arith, e, same, length-append a b)) in
    rw (front, back, append_assoc)

-- Bytes written into a part that is no shorter.
pub blit-fill :
    (a x s : List ℕ) (n : ℕ)
    → n ≡ length a
    → length s ≤ length x
    → blit (a ++ x) n s ≡ a ++ (s ++ drop (length s) x)
blit-fill a x s n e fits =
    ap (λ l. blit (a ++ l) n s) (sym (take-append-drop (length s) x))
    ∙ blit-front a (take (length s) x) (drop (length s) x) s n e
        (omega (arith, fits, length-take (length s) x))

-- Bytes written behind a part that the next write fills: what stood behind them stays.
pub blit-over :
    (a x s r : List ℕ) (n m : ℕ)
    → n ≡ length a
    → m ≡ length a + length s
    → length s + length r ≤ length x
    → blit (blit (a ++ x) m r) n s ≡ a ++ (s ++ (r ++ drop (length s + length r) x))
unfolding blit
blit-over a x s r n m e f fits =
    let k = length s in
    let front : take m (a ++ x) ≡ a ++ take k x =
      take-append m a x
      ∙ ap (λ l. l ++ take (m - length a) x) (take_all m a (omega (arith, f)))
      ∙ ap (λ i. a ++ take i x) (omega (arith, f)) in
    let back : drop (m + length r) (a ++ x) ≡ drop (k + length r) x =
      drop-append (m + length r) a x
      ∙ ap (λ l. l ++ drop (m + length r - length a) x)
          (drop_all (m + length r) a (omega (arith, f)))
      ∙ ap (λ i. drop i x) (omega (arith, f)) in
    let first : blit (a ++ x) m r ≡ a ++ (take k x ++ (r ++ drop (k + length r) x)) =
      rw (front, back) (simp append_assoc) in
    let same : length s ≡ length (take k x) = omega (arith, fits, length-take k x) in
    ap (λ b. blit b n s) first ∙ blit-front a (take k x) (r ++ drop (k + length r) x) s n e same

-- The buffer around the value that a search finds.
pub record Place (kps : Kpairs) (ps : Pairs) (key : List ℕ) (val : ℕ) : Type 0 where
  pub before : Pairs
  pub value : List ℕ
  pub after : Pairs
  pub tail : List ℕ
  pub new : Lacks key before
  pub pairs : ps ≡ before ++ (key, value) ∷ after
  pub parts :
      kps.buf ≡ (packed before ++ (key ++ 0 ∷ [])) ++ ((value ++ 0 ∷ []) ++ (packed after ++ tail))
  pub start : val ≡ length (packed before ++ (key ++ 0 ∷ []))
  pub ends : kps.last ≡ val + length (value ++ 0 ∷ []) + length (packed after)
  pub text : string_at (drop val kps.buf) ≡ value

pub packed-around :
    (before after : Pairs) (k v : List ℕ)
    → packed (before ++ (k, v) ∷ after)
      ≡ (packed before ++ (k ++ 0 ∷ [])) ++ ((v ++ 0 ∷ []) ++ packed after)
packed-around before after k v =
    packed-append before ((k, v) ∷ after)
    ∙ ap (λ l. packed before ++ l) (packed-pair k v after)
    ∙ simp append_assoc

pub Place-At :
    (kps : Kpairs) (ps : Pairs) (key : List ℕ) (val : ℕ)
    → Holds kps ps
    → At key ps 0 (some val)
    → Place kps ps key val
Place-At kps ps key val h a =
    let front = packed a.before ++ (key ++ 0 ∷ []) in
    let vz = a.value ++ 0 ∷ [] in
    let whole : packed ps ≡ front ++ (vz ++ packed a.after) =
      ap packed a.parts ∙ packed-around a.before a.after key a.value in
    let parts : kps.buf ≡ front ++ (vz ++ (packed a.after ++ h.tail)) =
      h.parts ∙ ap (λ l. l ++ h.tail) whole ∙ simp append_assoc in
    let found : val ≡ 0 + length (packed a.before) + length key + 1 = some-injective _ _ a.result in
    let start : val ≡ length front =
      omega (
        arith,
        found,
        length-append (packed a.before) (key ++ 0 ∷ []),
        length-append key (0 ∷ []),
      ) in
    let good : NoNul a.value =
      IsPairs-value a.before key a.value a.after (subst IsPairs a.parts h.pairs_ok) in
    record {
      before = a.before;
      value = a.value;
      after = a.after;
      tail = h.tail;
      new = a.new;
      pairs = a.parts;
      parts = parts;
      start = start;
      ends = omega (
        arith,
        h.ends,
        ap length whole,
        start,
        length-append front (vz ++ packed a.after),
        length-append vz (packed a.after),
      );
      text =
          ap (λ b. string_at (drop val b)) parts
          ∙ ap string_at (drop_front front (vz ++ (packed a.after ++ h.tail)) val start)
          ∙ string_at-append a.value (packed a.after ++ h.tail) good;
    }

-- The reads of a buffer are those of its pairs.
pub read-lookup :
    (kps : Kpairs) (ps : Pairs) (key : List ℕ) → Holds kps ps → read kps key ≡ lookup key ps
unfolding read
read-lookup kps ps key h =
    by_search (str_kpairs_get kps key) refl (str_kpairs_get-Located kps ps key h)
  where
    by_search :
        (r : Option ℕ)
        → str_kpairs_get kps key ≡ r
        → Located key ps 0 r
        → read kps key ≡ lookup key ps
    by_search none e (inl l) = rw (e, read) (sym (lookup-Lacks key ps l.1))
    by_search none e (inr a) = cc (a.result)
    by_search (some val) e (inl l) = cc (l.0)
    by_search (some val) e (inr a) =
        let p = Place-At kps ps key val h a in
        rw (e, read, p.text)
          (sym (lookup-append key p.value p.before p.after p.new) ∙ ap (lookup key) (sym p.pairs))

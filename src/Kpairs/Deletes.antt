-- ===== src/Kpairs/Deletes.antt =====
-- What `str_kpairs_delete` of str-kpairs.c does to the pairs.
use chaconne.Prelude.{
  ℕ, ◌+◌, ◌-◌, ◌≡◌, refl, sym, ap, ◌∙◌, List, [], ◌∷◌, ◌++◌, Option, none, some, arith, ◌==◌,
  if◌then◌else◌, length, set, take, drop, append_assoc, length-append, length-drop, length-set,
  Bool-cases, inl, inr, same_key,
}
use chaconne.Kpairs.{Kpairs, blit, memmove, str_kpairs_get, cut, str_kpairs_delete}
use chaconne.Kpairs.Packed.{
  Pairs, packed, IsPairs, Holds, Located, drop_front, take_front, packed-append,
  str_kpairs_get-Located,
}
use chaconne.Kpairs.Pairs.{remove, remove-append, remove-Lacks, lookup-remove, remove-IsPairs}
use chaconne.Kpairs.Reads.{read, Place, Place-At, read-lookup, blit-fill}
use chaconne.Kpairs.Updates.{Becomes}

no_bytes : {A : Type 0} (xs : List A) → length xs ≡ 0 → xs ≡ []
no_bytes [] e = refl
no_bytes (x ∷ xs) e = absurd (omega arith)

-- The first byte is reset where no pair is left.
reset-Becomes :
    (kps : Kpairs) (ps : Pairs) (buf tail : List ℕ) (last : ℕ)
    → buf ≡ packed ps ++ tail
    → last ≡ length (packed ps)
    → IsPairs ps
    → length buf ≡ length kps.buf
    → Becomes kps (record { buf = if last == 0 then set buf 0 0 else buf; last = last }) ps
reset-Becomes kps ps buf tail last parts ends good same = elim (Bool-cases (last == 0)) [
  | inr some_left ↦ rw some_left (record {
    holds = record { tail = tail; parts = parts; ends = ends; pairs_ok = good };
    within = same;
  })
  | inl none_left ↦
      let nothing : packed ps ≡ [] = no_bytes (packed ps) (ground (arith, ends, none_left)) in
      rw none_left (record {
        holds = record {
          tail = set buf 0 0;
          parts = sym (ap (λ l. l ++ set buf 0 0) nothing);
          ends = ends;
          pairs_ok = good;
        };
        within = length-set buf 0 0 ∙ same;
      })
]

cut-Becomes :
    (kps : Kpairs) (ps : Pairs) (key : List ℕ) (val : ℕ)
    → Holds kps ps
    → Place kps ps key val
    → Becomes kps (cut kps key val) (remove key ps)
cut-Becomes kps ps key val h p =
    let kz = key ++ 0 ∷ [] in
    let vz = p.value ++ 0 ∷ [] in
    let size_k : length kz ≡ length key + 1 = omega (arith, length-append key (0 ∷ [])) in
    let size_v : length vz ≡ length p.value + 1 = omega (arith, length-append p.value (0 ∷ [])) in
    let front = packed p.before in
    let rest = kz ++ (vz ++ (packed p.after ++ p.tail)) in
    let next = val + (length p.value + 1) in
    let n = kps.last - val - (length p.value + 1) in
    let start : val ≡ length front + length kz = omega (arith, p.start, length-append front kz) in
    let parts : kps.buf ≡ front ++ rest =
      p.parts ∙ append_assoc front kz (vz ++ (packed p.after ++ p.tail)) in
    let at_next : kps.buf ≡ ((front ++ kz) ++ vz) ++ (packed p.after ++ p.tail) =
      p.parts ∙ sym (append_assoc (front ++ kz) vz (packed p.after ++ p.tail)) in
    let taken : take n (drop next kps.buf) ≡ packed p.after =
      ap (take n) (
        ap (drop next) at_next
        ∙ drop_front ((front ++ kz) ++ vz) (packed p.after ++ p.tail) next
            (omega (arith, p.start, size_v, length-append (front ++ kz) vz)))
      ∙ take_front (packed p.after) p.tail n (omega (arith, p.ends, size_v)) in
    let size_r : length rest ≡ length kz + length vz + length (packed p.after) + length p.tail =
      omega (
        arith,
        length-append kz (vz ++ (packed p.after ++ p.tail)),
        length-append vz (packed p.after ++ p.tail),
        length-append (packed p.after) p.tail,
      ) in
    let tail = drop (length (packed p.after)) rest in
    let whole : packed (remove key ps) ≡ front ++ packed p.after =
      ap (λ l. packed (remove key l)) p.pairs
      ∙ ap packed (remove-append key p.value p.before p.after p.new)
      ∙ packed-append p.before p.after in
    let e : memmove kps.buf (val - (length key + 1)) next n ≡ packed (remove key ps) ++ tail =
      unfold memmove in
      ap (blit kps.buf (val - (length key + 1))) taken
      ∙ ap (λ b. blit b (val - (length key + 1)) (packed p.after)) parts
      ∙ blit-fill front rest (packed p.after) (val - (length key + 1))
          (omega (arith, start, size_k)) (omega (arith, size_r))
      ∙ sym (ap (λ l. l ++ tail) whole ∙ append_assoc front (packed p.after) tail) in
    unfold cut in
    rw (cut, p.text)
      (reset-Becomes kps (remove key ps) (memmove kps.buf (val - (length key + 1)) next n) tail _ e
        (omega (
          arith,
          p.ends,
          start,
          size_k,
          size_v,
          ap length whole,
          length-append front (packed p.after),
        ))
        (remove-IsPairs key ps h.pairs_ok)
        (omega (
          arith,
          ap length e,
          ap length whole,
          ap length parts,
          length-append (packed (remove key ps)) tail,
          length-append front (packed p.after),
          length-append front rest,
          length-drop (length (packed p.after)) rest,
          size_r,
        )))

-- For a buffer that holds some pairs, `str_kpairs_delete` ends with a buffer of the same size that
-- holds the pairs without the key: the key is not found any more, and every other key reads as
-- before.
pub str_kpairs_delete-Updated :
    (kps : Kpairs) (ps : Pairs) (key : List ℕ)
    → Holds kps ps
    → Becomes kps (str_kpairs_delete kps key) (remove key ps)
      × ((q : List ℕ)
          → read (str_kpairs_delete kps key) q ≡ (if same_key q key then none else read kps q))
str_kpairs_delete-Updated kps ps key h =
    let done = by_search (str_kpairs_get kps key) refl (str_kpairs_get-Located kps ps key h) in
    (
      done,
      λ q.
          read-lookup (str_kpairs_delete kps key) (remove key ps) q done.holds
          ∙ lookup-remove q key ps h.pairs_ok
          ∙ ap (λ r. if same_key q key then none else r) (sym (read-lookup kps ps q h)),
    )
  where
    by_search :
        (r : Option ℕ)
        → str_kpairs_get kps key ≡ r
        → Located key ps 0 r
        → Becomes kps (str_kpairs_delete kps key) (remove key ps)
    by_search none e (inl l) =
        unfold str_kpairs_delete in
        rw (str_kpairs_delete, e, remove-Lacks key ps l.1) (record { holds = h; within = refl })
    by_search none e (inr a) = cc (a.result)
    by_search (some val) e (inl l) = cc (l.0)
    by_search (some val) e (inr a) =
        unfold str_kpairs_delete in
        rw (str_kpairs_delete, e) (cut-Becomes kps ps key val h (Place-At kps ps key val h a))

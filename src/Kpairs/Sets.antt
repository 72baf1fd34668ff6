-- ===== src/Kpairs/Sets.antt =====
-- What `str_kpairs_set` of str-kpairs.c does to the pairs, on every branch.
use chaconne.Prelude.{
  ℕ, ◌+◌, ◌-◌, ◌≤◌, ◌<◌, ◌≡◌, ◌⊎◌, refl, sym, ap, ◌∙◌, Bool, true, false, List, [], ◌∷◌, ◌++◌,
  Option, none, some, arith, ltb, ◌==◌, if◌then◌else◌, length, drop, append_assoc, append-nil,
  length-append, length-drop, Bool-cases, inl, inr, same_key,
}
use chaconne.Kpairs.{Kpairs, blit, strcpy, str_kpairs_get, replace, add, str_kpairs_set}
use chaconne.Kpairs.Packed.{
  Pairs, packed, NoNul, Lacks, IsPairs, Holds, Located, packed-append, packed-pair, packed_nil,
  str_kpairs_get-Located,
}
use chaconne.Kpairs.Pairs.{insert, insert-Lacks, lookup-insert, insert-IsPairs}
use chaconne.Kpairs.Reads.{read, Place, Place-At, read-lookup, blit-fill}
use chaconne.Kpairs.Updates.{Becomes, length-insert, moved-Becomes, written-Becomes}

-- Success with the pairs updated, or failure with the buffer as it was, which has no room then.
abbrev pub Sets : Kpairs → Pairs → List ℕ → List ℕ → Kpairs × Bool → Type 0
Sets kps ps key value r =
    (r.1 ≡ true) × Becomes kps r.0 (insert key value ps)
    ⊎ (r ≡ (kps, false)) × (length kps.buf < length (packed (insert key value ps)))

replace-Sets :
    (kps : Kpairs) (ps : Pairs) (key value : List ℕ) (val : ℕ)
    → (h : Holds kps ps) → Place kps ps key val
    → IsPairs (insert key value ps)
    → Sets kps ps key value (replace kps val value)
replace-Sets kps ps key value val h p good =
    let len = length value + 1 in
    let old = length p.value + 1 in
    let room : kps.last ≤ length kps.buf =
      omega (arith, ap length h.parts, h.ends, length-append (packed ps) h.tail) in
    let total = length-insert kps ps key val h p value in
    elim (Bool-cases (len == old)) [
      | inl same ↦
          unfold replace in
          rw (replace, p.text, same)
            (inl (refl, written-Becomes kps ps key val h p value good (ground (arith, same))))
      | inr differs ↦ elim (Bool-cases (ltb old len)) [
        | inl longer ↦ elim (Bool-cases (ltb (length kps.buf) (kps.last + (len - old)))) [
          | inl full ↦
              unfold replace in
              rw (replace, p.text, differs, longer, full)
                (inr (refl, ground (arith, full, longer, total)))
          | inr fits ↦
              unfold replace in
              rw (replace, p.text, differs, longer, fits)
                (inl (
                  refl,
                  moved-Becomes kps ps key val h p value (val + old + (len - old))
                      (kps.last + (len - old)) good (ground (arith, longer))
                      (ground (arith, longer)) (ground (arith, fits)),
                ))
        ]
        | inr shorter ↦
            unfold replace in
            rw (replace, p.text, differs, shorter)
              (inl (
                refl,
                moved-Becomes kps ps key val h p value (val + old - (old - len))
                    (kps.last - (old - len)) good (ground (arith, shorter, p.ends))
                    (ground (arith, shorter, p.ends, length-append p.value (0 ∷ [])))
                    (omega (arith, room)),
              ))
      ]
    ]

add-Sets :
    (kps : Kpairs) (ps : Pairs) (key value : List ℕ)
    → Holds kps ps
    → Lacks key ps
    → IsPairs (insert key value ps)
    → Sets kps ps key value (add kps key value)
add-Sets kps ps key value h new good =
    let kz = key ++ 0 ∷ [] in
    let vz = value ++ 0 ∷ [] in
    let size_k : length kz ≡ length key + 1 = omega (arith, length-append key (0 ∷ [])) in
    let size_v : length vz ≡ length value + 1 = omega (arith, length-append value (0 ∷ [])) in
    let total = length key + 1 + (length value + 1) in
    let size : length kps.buf ≡ kps.last + length h.tail =
      omega (arith, ap length h.parts, h.ends, length-append (packed ps) h.tail) in
    let whole : packed (insert key value ps) ≡ packed ps ++ (kz ++ vz) =
      ap packed (insert-Lacks key value ps new)
      ∙ packed-append ps ((key, value) ∷ [])
      ∙ ap (λ l. packed ps ++ l)
          (packed-pair key value []
            ∙ ap (λ l. kz ++ (vz ++ l)) packed_nil
            ∙ ap (λ l. kz ++ l) (append-nil vz)) in
    let wide : length (packed (insert key value ps)) ≡ kps.last + total = omega (
      arith,
      ap length whole,
      h.ends,
      size_k,
      size_v,
      length-append (packed ps) (kz ++ vz),
      length-append kz vz,
    ) in
    elim (Bool-cases (ltb (length kps.buf - kps.last) total)) [
      | inl full ↦ unfold add in rw (add, full) (inr (refl, ground (arith, full, wide, size)))
      | inr fits ↦
          let room : total ≤ length h.tail = ground (arith, fits, size) in
          let tail = drop (length vz) (drop (length kz) h.tail) in
          let first : blit kps.buf kps.last kz ≡ packed ps ++ (kz ++ drop (length kz) h.tail) =
            ap (λ b. blit b kps.last kz) h.parts
            ∙ blit-fill (packed ps) h.tail kz kps.last h.ends (omega (arith, room, size_k)) in
          let second : blit (blit kps.buf kps.last kz) (kps.last + (length key + 1)) vz
              ≡ (packed ps ++ kz) ++ (vz ++ tail) =
            ap (λ b. blit b (kps.last + (length key + 1)) vz)
              (first ∙ sym (append_assoc (packed ps) kz (drop (length kz) h.tail)))
            ∙ blit-fill (packed ps ++ kz) (drop (length kz) h.tail) vz (kps.last + (length key + 1))
                (omega (arith, h.ends, size_k, length-append (packed ps) kz))
                (omega (arith, room, size_k, size_v, length-drop (length kz) h.tail)) in
          unfold add strcpy in
          rw (add, fits)
            (inl (
              refl,
              record {
                holds = record {
                  tail = tail;
                  parts = second ∙ sym (ap (λ l. l ++ tail) whole ∙ simp append_assoc);
                  ends = sym wide;
                  pairs_ok = good;
                };
                within = omega (
                  arith,
                  ap length second,
                  room,
                  size,
                  size_k,
                  size_v,
                  h.ends,
                  length-append (packed ps ++ kz) (vz ++ tail),
                  length-append (packed ps) kz,
                  length-append vz tail,
                  length-drop (length vz) (drop (length kz) h.tail),
                  length-drop (length kz) h.tail,
                );
              },
            ))
    ]

str_kpairs_set-Sets :
    (kps : Kpairs) (ps : Pairs) (key value : List ℕ)
    → Holds kps ps
    → IsPairs (insert key value ps)
    → Sets kps ps key value (str_kpairs_set kps key value)
str_kpairs_set-Sets kps ps key value h good =
    by_search (str_kpairs_get kps key) refl (str_kpairs_get-Located kps ps key h)
  where
    by_search :
        (r : Option ℕ)
        → str_kpairs_get kps key ≡ r
        → Located key ps 0 r
        → Sets kps ps key value (str_kpairs_set kps key value)
    by_search none e (inl l) =
        unfold str_kpairs_set in rw (str_kpairs_set, e) (add-Sets kps ps key value h l.1 good)
    by_search none e (inr a) = cc (a.result)
    by_search (some val) e (inl l) = cc (l.0)
    by_search (some val) e (inr a) =
        unfold str_kpairs_set in
        rw (str_kpairs_set, e)
          (replace-Sets kps ps key value val h (Place-At kps ps key val h a) good)

-- For a buffer that holds some pairs, a key that is not empty, and strings without a NUL:
-- `str_kpairs_set` succeeds, the buffer keeps its size and holds the pairs with the value set, the
-- key reads the value and every other key reads as before; or it fails, the buffer stays as it was,
-- and is too small for the pairs with the value set.
pub str_kpairs_set-Updated :
    (kps : Kpairs) (ps : Pairs) (key value : List ℕ)
    → Holds kps ps
    → 0 < length key
    → NoNul key
    → NoNul value
    → ((str_kpairs_set kps key value).1 ≡ true)
        × Becomes kps (str_kpairs_set kps key value).0 (insert key value ps)
        × ((q : List ℕ)
            → read (str_kpairs_set kps key value).0 q
              ≡ (if same_key q key then some value else read kps q))
      ⊎ (str_kpairs_set kps key value ≡ (kps, false))
        × (length kps.buf < length (packed (insert key value ps)))
str_kpairs_set-Updated kps ps key value h some_key nk nv =
    let good = insert-IsPairs key value ps some_key nk nv h.pairs_ok in
    elim (str_kpairs_set-Sets kps ps key value h good) [
      | inl done ↦ inl (
        done.0,
        done.1,
        λ q.
            read-lookup (str_kpairs_set kps key value).0 (insert key value ps) q done.1.holds
            ∙ lookup-insert q key value ps
            ∙ ap (λ r. if same_key q key then some value else r) (sym (read-lookup kps ps q h)),
      )
      | inr failed ↦ inr failed
    ]

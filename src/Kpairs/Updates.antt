-- ===== src/Kpairs/Updates.antt =====
-- `str_kpairs_set` and `str_kpairs_delete` of str-kpairs.c as updates of the list of pairs.
use chaconne.Prelude.{
  ℕ, ◌+◌, ◌-◌, ◌≤◌, ◌≡◌, sym, ap, ◌∙◌, List, [], ◌∷◌, ◌++◌, arith, length, take, drop, append_assoc,
  length-append, length-drop,
}
use chaconne.Kpairs.{Kpairs, blit, memmove, strcpy}
use chaconne.Kpairs.Packed.{Pairs, packed, IsPairs, Holds, drop_front, take_front}
use chaconne.Kpairs.Pairs.{insert, insert-append}
use chaconne.Kpairs.Reads.{blit-front, blit-over, Place, packed-around}

-- A buffer that came of another by an update: it holds the pairs, within the same bytes.
pub record Becomes (kps kps' : Kpairs) (ps : Pairs) : Type 0 where
  pub holds : Holds kps' ps
  pub within : length kps'.buf ≡ length kps.buf

module _ (kps : Kpairs) (ps : Pairs) (key : List ℕ) (val : ℕ) (h : Holds kps ps)
    (p : Place kps ps key val) where
  front : List ℕ
  front = packed p.before ++ (key ++ 0 ∷ [])

  rest : List ℕ
  rest = (p.value ++ 0 ∷ []) ++ (packed p.after ++ p.tail)

  buf_length : length kps.buf ≡ val + length p.value + 1 + length (packed p.after) + length p.tail
  unfolding front rest
  buf_length = omega (
    arith,
    ap length p.parts,
    p.start,
    length-append front rest,
    length-append (p.value ++ 0 ∷ []) (packed p.after ++ p.tail),
    length-append p.value (0 ∷ []),
    length-append (packed p.after) p.tail,
  )

  -- The pairs behind the value are moved to where the new value ends, and it is written.
  moved :
      (value : List ℕ) (m : ℕ)
      → m ≡ val + (length value + 1)
      → m + length (packed p.after) ≤ length kps.buf
      → strcpy
          (memmove kps.buf m (val + (length p.value + 1)) (kps.last - (val + (length p.value + 1))))
          val
          value
        ≡ front
          ++ ((value ++ 0 ∷ [])
              ++ (packed p.after ++ drop (length (value ++ 0 ∷ []) + length (packed p.after)) rest))
  unfolding memmove strcpy front rest
  moved value m at fits =
      let vz = p.value ++ 0 ∷ [] in
      let size : length vz ≡ length p.value + 1 = omega (arith, length-append p.value (0 ∷ [])) in
      let count : kps.last - (val + (length p.value + 1)) ≡ length (packed p.after) =
        omega (arith, p.ends, size) in
      let behind : drop (val + (length p.value + 1)) kps.buf ≡ packed p.after ++ p.tail =
        ap (drop (val + (length p.value + 1)))
          (p.parts ∙ sym (append_assoc front vz (packed p.after ++ p.tail)))
        ∙ drop_front (front ++ vz) (packed p.after ++ p.tail) (val + (length p.value + 1))
            (omega (arith, p.start, size, length-append front vz)) in
      let taken : take (kps.last - (val + (length p.value + 1)))
            (drop (val + (length p.value + 1)) kps.buf)
          ≡ packed p.after =
        ap (take (kps.last - (val + (length p.value + 1)))) behind
        ∙ take_front (packed p.after) p.tail _ count in
      ap (λ r. blit (blit kps.buf m r) val (value ++ 0 ∷ [])) taken
      ∙ ap (λ b. blit (blit b m (packed p.after)) val (value ++ 0 ∷ [])) p.parts
      ∙ blit-over front rest (value ++ 0 ∷ []) (packed p.after) val m p.start
          (omega (arith, at, p.start, length-append value (0 ∷ [])))
          (omega (
            arith,
            at,
            fits,
            buf_length,
            length-append value (0 ∷ []),
            length-append vz (packed p.after ++ p.tail),
            size,
            length-append (packed p.after) p.tail,
          ))

  -- A buffer laid out so holds the pairs with the value set.
  laid_out :
      (value : List ℕ) (buf tail : List ℕ) (last : ℕ)
      → IsPairs (insert key value ps)
      → buf ≡ front ++ ((value ++ 0 ∷ []) ++ (packed p.after ++ tail))
      → last ≡ val + (length value + 1) + length (packed p.after)
      → Holds (record { buf = buf; last = last }) (insert key value ps)
  unfolding front
  laid_out value buf tail last good parts ends =
      let vz = value ++ 0 ∷ [] in
      let whole : packed (insert key value ps) ≡ front ++ (vz ++ packed p.after) =
        ap (λ l. packed (insert key value l)) p.pairs
        ∙ ap packed (insert-append key p.value value p.before p.after p.new)
        ∙ packed-around p.before p.after key value in
      record {
        tail = tail;
        parts = parts ∙ sym (ap (λ l. l ++ tail) whole ∙ simp append_assoc);
        ends = omega (
          arith,
          ends,
          p.start,
          ap length whole,
          length-append front (vz ++ packed p.after),
          length-append vz (packed p.after),
          length-append value (0 ∷ []),
        );
        pairs_ok = good;
      }

  pub length-insert :
      (value : List ℕ)
      → length (packed (insert key value ps)) + length p.value ≡ kps.last + length value
  length-insert value =
      let vz = value ++ 0 ∷ [] in
      let whole : packed (insert key value ps) ≡ front ++ (vz ++ packed p.after) =
        unfold front in
        ap (λ l. packed (insert key value l)) p.pairs
        ∙ ap packed (insert-append key p.value value p.before p.after p.new)
        ∙ packed-around p.before p.after key value in
      let start : val ≡ length front = unfold front in p.start in
      omega (
        arith,
        p.ends,
        start,
        ap length whole,
        length-append front (vz ++ packed p.after),
        length-append vz (packed p.after),
        length-append value (0 ∷ []),
        length-append p.value (0 ∷ []),
      )

  pub moved-Becomes :
      (value : List ℕ) (m last : ℕ)
      → IsPairs (insert key value ps)
      → m ≡ val + (length value + 1)
      → last + length p.value ≡ kps.last + length value
      → last ≤ length kps.buf
      → Becomes kps
          (record {
            buf =
                strcpy
                  (memmove kps.buf m
                    (val + (length p.value + 1))
                    (kps.last - (val + (length p.value + 1))))
                  val
                  value;
            last = last;
          })
          (insert key value ps)
  moved-Becomes value m last good at ends fits =
      let size : length (p.value ++ 0 ∷ []) ≡ length p.value + 1 =
        omega (arith, length-append p.value (0 ∷ [])) in
      let same = moved value m at (omega (arith, at, ends, fits, p.ends, size)) in
      let s = value ++ 0 ∷ [] in
      let k = length s + length (packed p.after) in
      record {
        holds = laid_out value _ (drop k rest) last good same (omega (arith, ends, p.ends, size));
        within =
            unfold front rest in
            omega (
              arith,
              ap length same,
              ends,
              fits,
              at,
              p.ends,
              size,
              buf_length,
              p.start,
              ap length p.parts,
              length-append front (s ++ (packed p.after ++ drop k rest)),
              length-append s (packed p.after ++ drop k rest),
              length-append (packed p.after) (drop k rest),
              length-append front rest,
              length-drop k rest,
              length-append value (0 ∷ []),
            );
      }

  pub written-Becomes :
      (value : List ℕ)
      → IsPairs (insert key value ps)
      → length value ≡ length p.value
      → Becomes kps
          (record { buf = strcpy kps.buf val value; last = kps.last })
          (insert key value ps)
  unfolding strcpy
  written-Becomes value good same =
      let s = value ++ 0 ∷ [] in
      let size : length s ≡ length (p.value ++ 0 ∷ []) =
        omega (arith, same, length-append value (0 ∷ []), length-append p.value (0 ∷ [])) in
      let e : blit kps.buf val s ≡ front ++ (s ++ (packed p.after ++ p.tail)) =
        unfold front in
        ap (λ b. blit b val s) p.parts
        ∙ blit-front front (p.value ++ 0 ∷ []) (packed p.after ++ p.tail) s val p.start size in
      record {
        holds =
            laid_out value _ p.tail kps.last good e
              (omega (arith, p.ends, size, length-append value (0 ∷ [])));
        within =
            unfold front in
            omega (
              arith,
              ap length e,
              ap length p.parts,
              size,
              length-append front (s ++ (packed p.after ++ p.tail)),
              length-append s (packed p.after ++ p.tail),
              length-append front ((p.value ++ 0 ∷ []) ++ (packed p.after ++ p.tail)),
              length-append (p.value ++ 0 ∷ []) (packed p.after ++ p.tail),
            );
      }

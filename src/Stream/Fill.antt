-- ===== src/Stream/Fill.antt =====
-- The loop of `stream_put`: it fills the new blocks that the bytes need, in order.
use chaconne.Prelude.{
  drop-append, ℕ, zero, suc, ◌+◌, ◌-◌, ◌*◌, ◌≤◌, ◌<◌, ◌≡◌, ◌⊎◌, refl, sym, ap, ◌∙◌, List, [], ◌∷◌,
  ◌++◌, Option, some, arith, ltb, ◌==◌, length, take, drop, min, length-append, length-take,
  length-drop, take-append-drop, append-nil, append_assoc, Bool-cases, inl, inr,
}
use chaconne.Stream.{Block, size_limit, put_loop, new_blocks}
use chaconne.Stream.Queue.{content, Ordered}

-- The room `cap` and `n` new blocks hold `c` bytes, and with one block less they would not.
pub record Exact (c cap n : ℕ) : Type 0 where
  pub enough : c ≤ cap + n * 4096
  pub needed : (n ≡ 0) ⊎ (cap + n * 4096 < c + 4096)

pub new_blocks-Exact :
    (c cap : ℕ) → 1 ≤ c → c + 4096 < size_limit → cap ≤ 4096 → Exact c cap (new_blocks c cap)
unfolding new_blocks
new_blocks-Exact c cap lo hi room = elim (Bool-cases (ltb c cap)) [
  | inl fits ↦
      let lt : c < cap = ground (arith, fits) in
      record { enough = omega arith; needed = inl (omega arith) }
  | inr over ↦
      let ge : cap ≤ c = ground (arith, over) in
      record { enough = omega arith; needed = inr (omega arith) }
]

-- Every block is full, and not used up.
abbrev pub Full : List Block → Type 0
Full [] = Unit
Full (b ∷ bs) = (b.tail < 4096) × (length b.written ≡ 4096) × Full bs

-- The last block of a chain in order.
abbrev pub Open : Block → Type 0
Open b = (b.tail ≤ length b.written) × (length b.written ≤ 4096) × (b.tail < 4096)

Ordered-append :
    (front : List Block) (last : Block) → Full front → Open last → Ordered (front ++ last ∷ [])
Ordered-append [] last f o = (o.0, o.1, o.2, inl refl, tt)
Ordered-append (b ∷ front) last f o =
    (omega (arith, f.0, f.1), omega (arith, f.1), f.0, inr f.1, Ordered-append front last f.2 o)

Full-append :
    (front : List Block) (b : Block)
    → Full front
    → b.tail < 4096
    → length b.written ≡ 4096
    → Full (front ++ b ∷ [])
Full-append [] b f t h = (t, h, tt)
Full-append (d ∷ front) b f t h = (f.0, f.1, Full-append front b f.2 t h)

content-append : (bs ds : List Block) → content (bs ++ ds) ≡ content bs ++ content ds
unfolding content
content-append [] ds = refl
content-append (b ∷ bs) ds =
    ap (λ l. drop b.tail b.written ++ l) (content-append bs ds)
    ∙ sym (append_assoc (drop b.tail b.written) (content bs) (content ds))

-- What the loop of `stream_put` returns, from the block `last` behind `front` with `cs` to write.
abbrev pub Written : List ℕ → List Block → Block → Option (List Block) → Type 0
Written cs front last r =
    (bs : List Block) × (r ≡ some bs)
    × Ordered bs
    × (content bs ≡ content front ++ (drop last.tail last.written ++ cs))

-- The block with what fits of `cs` behind what it holds.
abbrev filled : Block → List ℕ → Block
filled b cs = record b { written = b.written ++ take (4096 - length b.written) cs }

length-filled :
    (b : Block) (cs : List ℕ)
    → length (filled b cs).written ≡ length b.written + min (4096 - length b.written) (length cs)
length-filled b cs =
    length-append b.written (take (4096 - length b.written) cs)
    ∙ ap (λ k. length b.written + k) (length-take (4096 - length b.written) cs)

pub content-snoc :
    (front : List Block) (last : Block)
    → content (front ++ last ∷ []) ≡ content front ++ drop last.tail last.written
unfolding content
content-snoc front last =
    content-append front (last ∷ [])
    ∙ ap (λ l. content front ++ l) (append-nil (drop last.tail last.written))

fill-Written :
    (cs : List ℕ) (front : List Block) (last : Block) (r : Option (List Block))
    → Open last
    → Written (drop (4096 - length last.written) cs) front (filled last cs) r
    → Written cs front last r
fill-Written cs front last r o (bs, e, ordered, reads) =
    let k = 4096 - length last.written in
    let w = drop last.tail last.written in
    let inside : last.tail - length last.written ≡ 0 = omega (arith, o.0) in
    let split : drop last.tail (last.written ++ take k cs) ≡ w ++ take k cs =
      drop-append last.tail last.written (take k cs) ∙ ap (λ j. w ++ drop j (take k cs)) inside in
    (
      bs,
      e,
      ordered,
      reads
          ∙ ap (λ l. content front ++ l)
              (ap (λ l. l ++ drop k cs) split
                ∙ append_assoc w (take k cs) (drop k cs)
                ∙ ap (λ l. w ++ l) (take-append-drop k cs)),
    )

fill-Exact :
    (cs : List ℕ) (b : Block) (new : ℕ)
    → Exact (length cs) (4096 - length b.written) new
    → Exact (length (drop (4096 - length b.written) cs)) (4096 - length (filled b cs).written) new
fill-Exact cs b new x =
    rw (length-filled b cs, length-drop (4096 - length b.written) cs)
      (record {
        enough = omega (arith, x.enough);
        needed = elim x.needed [
          | inl no_new ↦ inl no_new
          | inr lt ↦ elim (Bool-cases (ltb (length cs) (4096 - length b.written))) [
            | inl fits ↦
                let le : length cs < 4096 - length b.written = ground (arith, fits) in
                inl (omega (arith, lt, le))
            | inr over ↦
                let ge : 4096 - length b.written ≤ length cs = ground (arith, over) in
                inr (omega (arith, lt, ge))
          ]
        ];
      })

fill-Open : (b : Block) (cs : List ℕ) → Open b → Open (filled b cs)
fill-Open b cs o = rw (length-filled b cs) (omega (arith, o.0), omega (arith, o.1), o.2)

next-Written :
    (cs : List ℕ) (front : List Block) (last : Block) (r : Option (List Block))
    → Written (drop 4096 cs) (front ++ last ∷ []) (record { written = take 4096 cs; tail = 0 }) r
    → Written cs front last r
next-Written cs front last r (bs, e, ordered, reads) = (
  bs,
  e,
  ordered,
  reads
      ∙ ap (λ l. content (front ++ last ∷ []) ++ l) (take-append-drop 4096 cs)
      ∙ ap (λ l. l ++ cs) (content-snoc front last)
      ∙ append_assoc (content front) (drop last.tail last.written) cs,
)

next-Exact :
    (cs : List ℕ) (b : Block) (new : ℕ)
    → length b.written ≡ 4096
    → Exact (length cs) (4096 - length b.written) (suc new)
    → Exact (length (drop 4096 cs)) (4096 - length (take 4096 cs)) new
next-Exact cs b new full x =
    rw (length-drop 4096 cs, length-take 4096 cs)
      (record {
        enough = omega (arith, x.enough);
        needed = elim x.needed [
          | inl no_new ↦ absurd (omega (arith, no_new))
          | inr lt ↦ elim (Bool-cases (ltb (length cs) 4096)) [
            | inl fits ↦
                let le : length cs < 4096 = ground (arith, fits) in
                inl (omega (arith, lt, le, full))
            | inr over ↦
                let ge : 4096 ≤ length cs = ground (arith, over) in
                inr (omega (arith, lt, ge, full))
          ]
        ];
      })

pub put_loop-Written :
    (n : ℕ) (cs : List ℕ) (front : List Block) (last : Block) (new : ℕ)
    → length cs ≤ n
    → Full front
    → Open last
    → Exact (length cs) (4096 - length last.written) new
    → Written cs front last (put_loop n cs front last new)
unfolding put_loop
put_loop-Written n [] front last zero fuel f o x = (
  front ++ last ∷ [],
  refl,
  Ordered-append front last f o,
  content-snoc front last
      ∙ ap (λ l. content front ++ l) (sym (append-nil (drop last.tail last.written))),
)
put_loop-Written n [] front last (suc new) fuel f o x = elim x.needed [
  | inl no_new ↦ absurd (omega (arith, no_new))
  | inr lt ↦ absurd (omega (arith, lt))
]
put_loop-Written zero (c ∷ cs) front last new fuel f o x = absurd (omega arith)
put_loop-Written (suc n) (c ∷ cs) front last zero fuel f o x =
    let k = 4096 - length last.written in
    elim (Bool-cases (k == 0)) [
      | inl full ↦ absurd (ground (arith, full, x.enough))
      | inr room ↦
          let pos : 1 ≤ k = ground (arith, room) in
          let size : length (drop k (c ∷ cs)) ≡ suc (length cs) - k = length-drop k (c ∷ cs) in
          rw (put_loop, room)
            (fill-Written (c ∷ cs) front last
              (put_loop n (drop k (c ∷ cs)) front (filled last (c ∷ cs)) zero) o
              (put_loop-Written n (drop k (c ∷ cs)) front (filled last (c ∷ cs)) zero
                (omega (arith, pos, size, fuel)) f (fill-Open last (c ∷ cs) o)
                (fill-Exact (c ∷ cs) last zero x)))
    ]
put_loop-Written (suc n) (c ∷ cs) front last (suc new) fuel f o x =
    let k = 4096 - length last.written in
    elim (Bool-cases (k == 0)) [
      | inl full ↦
          let all : length last.written ≡ 4096 = ground (arith, full, o.1) in
          let size : length (drop 4096 (c ∷ cs)) ≡ suc (length cs) - 4096 =
            length-drop 4096 (c ∷ cs) in
          let b : Block = record { written = take 4096 (c ∷ cs); tail = 0 } in
          let short : length (take 4096 (c ∷ cs)) ≡ min 4096 (suc (length cs)) =
            length-take 4096 (c ∷ cs) in
          rw (put_loop, full)
            (next-Written (c ∷ cs) front last
              (put_loop n (drop 4096 (c ∷ cs)) (front ++ last ∷ []) b new)
              (put_loop-Written n (drop 4096 (c ∷ cs)) (front ++ last ∷ []) b new
                (omega (arith, size, fuel)) (Full-append front last f o.2 all)
                (omega arith, omega (arith, short), omega arith)
                (next-Exact (c ∷ cs) last new all x)))
      | inr room ↦
          let pos : 1 ≤ k = ground (arith, room) in
          let size : length (drop k (c ∷ cs)) ≡ suc (length cs) - k = length-drop k (c ∷ cs) in
          rw (put_loop, room)
            (fill-Written (c ∷ cs) front last
              (put_loop n (drop k (c ∷ cs)) front (filled last (c ∷ cs)) (suc new)) o
              (put_loop-Written n (drop k (c ∷ cs)) front (filled last (c ∷ cs)) (suc new)
                (omega (arith, pos, size, fuel)) f (fill-Open last (c ∷ cs) o)
                (fill-Exact (c ∷ cs) last (suc new) x)))
    ]

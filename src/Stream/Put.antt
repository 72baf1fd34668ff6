-- ===== src/Stream/Put.antt =====
-- `stream_put`: the blocks that it allocates are those that its loop fills.
use mathlib.Core.Path.{subst}
use chaconne.Prelude.{
  ℕ, zero, suc, ◌+◌, ◌-◌, ◌/◌, ◌%◌, ◌≤◌, ◌<◌, ◌≡◌, ◌⊎◌, refl, sym, ap, ◌∙◌, List, [], ◌∷◌, ◌++◌,
  Option, none, some, arith, ltb, length, drop, length-append, append-nil, append_assoc, Bool-cases,
  Option-cases, inl, inr,
}
use chaconne.Stream.{
  Block, Stream, ok, no_memory, size_limit, new_block, split_last, put_loop, new_blocks, put_blocks,
  capacity, stream_put,
}
use chaconne.Stream.Queue.{content, Ordered, IsStream}
use chaconne.Stream.Fill.{Exact, Full, Open, new_blocks-Exact, put_loop-Written, content-snoc}

-- A chain in order is empty, or has a last block that may take more behind full ones.
abbrev Ends : List Block → Type 0
Ends bs =
    ((split_last bs ≡ none) × (bs ≡ []))
    ⊎ ((front : List Block) × (last : Block) × (split_last bs ≡ some (front, last))
        × (bs ≡ front ++ last ∷ [])
        × Full front
        × Open last)

split_last-Ends : (bs : List Block) → Ordered bs → Ends bs
unfolding split_last
split_last-Ends [] o = inl (refl, refl)
split_last-Ends (b ∷ []) o = inr ([], b, refl, refl, tt, (o.0, o.1, o.2))
split_last-Ends (b ∷ d ∷ bs) o = elim (split_last-Ends (d ∷ bs) o.4) [
  | inl (e, empty) ↦ cc
  | inr (front, last, e, parts, full, open_last) ↦
      let b_full : length b.written ≡ 4096 = elim o.3 [ inl empty ↦ cc | inr h ↦ h ] in
      inr
        (b ∷ front, last, rw (split_last, e), ap (λ l. b ∷ l) parts, (o.2, b_full, full), open_last)
]

capacity_lem : (bs : List Block) → capacity bs ≤ 4096
unfolding capacity
capacity_lem bs = elim (Option-cases (split_last bs)) [
  | inl e ↦ rw (capacity, e) (omega arith)
  | inr ((front, last), e) ↦ rw (capacity, e) (omega arith)
]

-- The chain with the bytes `cs` behind those that wait.
abbrev Appended : List Block → List ℕ → Option (List Block) → Type 0
Appended bs cs r = (ds : List Block) × (r ≡ some ds) × Ordered ds × (content ds ≡ content bs ++ cs)

first_put :
    (cs : List ℕ) (num : ℕ)
    → 1 ≤ length cs
    → Exact (length cs) 0 num
    → Appended [] cs (elim num [ zero ↦ none | suc n ↦ put_loop (length cs) cs [] new_block n ])
unfolding content
first_put cs zero lo x = absurd (omega (arith, x.enough))
first_put cs (suc n) lo x =
    put_loop-Written (length cs) cs [] new_block n (omega arith) tt
      (omega arith, omega arith, omega arith)
      (record {
        enough = omega (arith, x.enough);
        needed = elim x.needed [
          | inl no_new ↦ absurd (omega (arith, no_new))
          | inr lt ↦ inr (omega (arith, lt))
        ];
      })

put_blocks-Appended :
    (bs : List Block) (cs : List ℕ) (num : ℕ)
    → Ordered bs
    → 1 ≤ length cs
    → Exact (length cs) (capacity bs) num
    → Appended bs cs (put_blocks bs cs num)
unfolding put_blocks capacity
put_blocks-Appended bs cs num o lo x = elim (split_last-Ends bs o) [
  | inl (e, empty) ↦
      let room : capacity bs ≡ 0 = rw (capacity, e) in
      let x' = subst (λ k. Exact (length cs) k num) room x in
      rw (put_blocks, e)
        (subst
          (λ ds.
            Appended ds cs
              (elim num [ zero ↦ none | suc n ↦ put_loop (length cs) cs [] new_block n ]))
          (sym empty) (first_put cs num lo x'))
  | inr (front, last, e, parts, full, open_last) ↦
      let room : capacity bs ≡ 4096 - length last.written = rw (capacity, e) in
      let x' = subst (λ k. Exact (length cs) k num) room x in
      let (ds, e', ordered, reads) =
        put_loop-Written (length cs) cs front last num (omega arith) full open_last x' in
      rw (put_blocks, e)
        (
          ds,
          e',
          ordered,
          reads
              ∙ sym (append_assoc (content front) (drop last.tail last.written) cs)
              ∙ ap (λ l. l ++ cs) (sym (ap content parts ∙ content-snoc front last)),
        )
]

-- From a stream in order, and with no overflow of the count: `stream_put` appends all the bytes and
-- keeps the stream in order, or it leaves the stream alone, which takes less memory than a block
-- more than the bytes fill.
pub stream_put-content :
    (memory : ℕ) (s : Stream) (cs : List ℕ)
    → IsStream s
    → s.count + length cs + 4096 < size_limit
    → ((stream_put memory s cs ≡ some (no_memory, s)) × (memory < length cs / 4096 + 1))
      ⊎ ((d : Stream) × (stream_put memory s cs ≡ some (ok, d))
          × IsStream d
          × (content d.blocks ≡ content s.blocks ++ cs))
unfolding stream_put
stream_put-content memory s [] t small = inr (s, refl, t, sym (append-nil (content s.blocks)))
stream_put-content memory s (c ∷ cs) t small =
    let n = length (c ∷ cs) in
    let num = new_blocks n (capacity s.blocks) in
    let x =
      new_blocks-Exact n (capacity s.blocks) (omega arith) (omega arith) (capacity_lem s.blocks) in
    elim (Bool-cases (ltb memory num)) [
      | inl short ↦
          let lt : memory < num = ground (arith, short) in
          inl (
            rw (stream_put, short),
            elim x.needed [
              | inl no_new ↦ absurd (omega (arith, lt, no_new))
              | inr few ↦ omega (arith, lt, few)
            ],
          )
      | inr enough ↦
          let (bs, e, ordered, reads) =
            put_blocks-Appended s.blocks (c ∷ cs) num t.ordered (omega arith) x in
          let size : length (content bs) ≡ s.count + n =
            ap length reads
            ∙ length-append (content s.blocks) (c ∷ cs)
            ∙ ap (λ k. k + n) (sym t.counted) in
          inr (
            record { blocks = bs; count = (s.count + n) % size_limit },
            rw (stream_put, enough, e),
            record { ordered = ordered; counted = omega (arith, size, small) },
            reads,
          )
    ]

-- ===== src/Stream/Queue.antt =====
-- stream.c as a queue of bytes: what the operations do to the bytes that wait.
use chaconne.Prelude.{
  Option, none, some, suc, List-cases, drop-nil, take-nil, drop_add-drop, drop-append, take-append,
  drop_all, take_all, ℕ, ◌+◌, ◌-◌, ◌≤◌, ◌<◌, ◌≡◌, ◌⊎◌, refl, sym, ap, ◌∙◌, Bool, false, List, [],
  ◌∷◌, ◌++◌, Option, arith, ltb, ◌==◌, if◌then◌else◌, length, take, drop, min, length-append,
  length-drop, append-nil, Bool-cases, Option-cases, inl, inr,
}
use mathlib.Core.List.{flatten}
use chaconne.Stream.{
  Flushed, nothing, no_vector, failed, wrote, iovec, stream_flush, Block, Stream, block_size,
  consume_loop, stream_consume, copy_loop, stream_get,
}

-- The bytes that wait in a chain.
unfoldable pub content : List Block → List ℕ
content [] = []
content (b ∷ bs) = drop b.tail b.written ++ content bs

-- Every block holds at most its size, is not used up, and is full unless it is the last.
abbrev pub Ordered : List Block → Type 0
Ordered [] = Unit
Ordered (b ∷ bs) =
    (b.tail ≤ length b.written)
    × (length b.written ≤ 4096)
    × (b.tail < 4096)
    × ((bs ≡ []) ⊎ (length b.written ≡ 4096))
    × Ordered bs

-- A stream between two calls: its count is the number of the bytes that wait.
pub record IsStream (s : Stream) : Type 0 where
  pub ordered : Ordered s.blocks
  pub counted : s.count ≡ length (content s.blocks)

consume_loop-zero : (kept bs : List Block) → consume_loop 0 kept bs ≡ kept ++ bs
unfolding consume_loop
consume_loop-zero kept [] = sym (append-nil kept)
consume_loop-zero kept (b ∷ bs) = refl

-- The chain after the loop took `c` bytes.
record Consumed (c : ℕ) (bs ds : List Block) : Type 0 where
  ordered : Ordered ds
  left : content ds ≡ drop c (content bs)

consume-room :
    (c : ℕ) (b : Block) (bs : List Block)
    → Ordered (b ∷ bs)
    → c ≤ length b.written - b.tail
    → b.tail + c < 4096
    → Consumed c (b ∷ bs) (record b { tail = b.tail + c } ∷ bs)
unfolding content
consume-room c b bs o h room = record {
  ordered = (omega (arith, o.0, h), o.1, room, o.3, o.4);
  left =
      let size : length (drop b.tail b.written) ≡ length b.written - b.tail =
        length-drop b.tail b.written in
      let none_over : 0 ≡ c - length (drop b.tail b.written) = omega arith in
      rw (drop-append c (drop b.tail b.written) (content bs), drop_add-drop b.tail c b.written)
        (ap (λ k. drop c (drop b.tail b.written) ++ drop k (content bs)) none_over);
}

consume-used : (c : ℕ) (w ws : List ℕ) → length w ≤ c → drop (c - length w) ws ≡ drop c (w ++ ws)
consume-used c w ws h = rw (drop-append c w ws, drop_all c w h)

-- Where the block is not used up, the bytes asked for all come from it.
stays :
    (c : ℕ) (b : Block) (bs : List Block)
    → Ordered (b ∷ bs)
    → c ≤ length (content (b ∷ bs))
    → (b.tail + min c (length b.written - b.tail) == block_size) ≡ false
    → c ≤ length b.written - b.tail
unfolding content
stays c b bs o h room = elim o.3 [
  | inl last ↦
      let no_more : length (content bs) ≡ 0 = ap (λ ds. length (content ds)) last in
      omega
        (arith, h, length-append (drop b.tail b.written) (content bs), length-drop b.tail b.written)
  | inr full ↦ ground (arith, room, full, o.2)
]

consume_loop-Consumed :
    (c : ℕ) (bs : List Block)
    → Ordered bs
    → c ≤ length (content bs)
    → Consumed c bs (consume_loop c [] bs)
unfolding consume_loop content
consume_loop-Consumed c [] o h = record { ordered = tt; left = sym (drop-nil c) }
consume_loop-Consumed c (b ∷ bs) o h =
    let w = drop b.tail b.written in
    let size : length w ≡ length b.written - b.tail = length-drop b.tail b.written in
    let all = length-append w (content bs) in
    let block = min c (length b.written - b.tail) in
    elim (Bool-cases (c == 0)) [
      | inl no_bytes ↦
          let zero_c : 0 ≡ c = ground (arith, no_bytes) in
          rw (consume_loop, no_bytes)
            (record { ordered = o; left = ap (λ k. drop k (w ++ content bs)) zero_c })
      | inr more ↦ elim (Bool-cases (b.tail + block == block_size)) [
        | inl used ↦
            let exact : block ≡ length w = ground (arith, used, size, o.0, o.1) in
            let enough : length w ≤ c = omega (arith, exact) in
            let r = consume_loop-Consumed (c - block) bs o.4 (omega (arith, exact, all, h)) in
            rw (consume_loop, more, used)
              (record {
                ordered = r.ordered;
                left =
                    r.left
                    ∙ ap (λ k. drop (c - k) (content bs)) exact
                    ∙ consume-used c w (content bs) enough;
              })
        | inr room ↦
            let le = stays c b bs o h room in
            let exact : block ≡ c = omega (arith, le) in
            let rest : c - block ≡ 0 = omega (arith, exact) in
            rw
              (
                consume_loop,
                more,
                room,
                rest,
                consume_loop-zero (record b { tail = b.tail + block } ∷ []) bs,
                exact,
              )
              (consume-room c b bs o le (ground (arith, room, exact, le, o.0, o.1)))
      ]
    ]

clip-drop : (m c : ℕ) (xs : List ℕ) → m ≡ length xs → drop (if ltb m c then m else c) xs ≡ drop c xs
clip-drop m c xs h = elim (Bool-cases (ltb m c)) [
  | inl less ↦
      rw (less) (drop_all m xs (omega (arith, h)) ∙ sym (drop_all c xs (ground (arith, less, h))))
  | inr enough ↦ rw (enough)
]

clip-take : (m c : ℕ) (xs : List ℕ) → m ≡ length xs → take (if ltb m c then m else c) xs ≡ take c xs
clip-take m c xs h = elim (Bool-cases (ltb m c)) [
  | inl less ↦
      rw (less) (take_all m xs (omega (arith, h)) ∙ sym (take_all c xs (ground (arith, less, h))))
  | inr enough ↦ rw (enough)
]

take-min : (n : ℕ) (xs : List ℕ) → take (min n (length xs)) xs ≡ take n xs
take-min n xs = elim (Bool-cases (ltb (length xs) n)) [
  | inl less ↦
      let lt : length xs ≤ n = ground (arith, less) in
      take_all (min n (length xs)) xs (omega (arith, lt)) ∙ sym (take_all n xs lt)
  | inr enough ↦ let e : min n (length xs) ≡ n = ground (arith, enough) in ap (λ k. take k xs) e
]

-- The bytes that a flush reports as written.
abbrev pub written_bytes : Flushed → ℕ
written_bytes nothing = 0
written_bytes no_vector = 0
written_bytes failed = 0
written_bytes (wrote n) = n

-- `stream_consume` drops the given number of bytes from the front, or all if there are fewer.
pub stream_consume-content :
    (s : Stream) (c : ℕ)
    → IsStream s
    → IsStream (stream_consume s c)
      × (content (stream_consume s c).blocks ≡ drop c (content s.blocks))
unfolding stream_consume
stream_consume-content s c t =
    let n = if ltb s.count c then s.count else c in
    let r = consume_loop-Consumed n s.blocks t.ordered (ground (arith, t.counted)) in
    (
      record {
        ordered = r.ordered;
        counted =
            ap (λ k. k - n) t.counted ∙ sym (ap length r.left ∙ length-drop n (content s.blocks));
      },
      r.left ∙ clip-drop s.count c (content s.blocks) (omega (arith, t.counted)),
    )

copy_loop-take : (c : ℕ) (bs : List Block) → Ordered bs → copy_loop c bs ≡ take c (content bs)
unfolding copy_loop content
copy_loop-take c [] o = sym (take-nil c)
copy_loop-take c (b ∷ bs) o = elim (Bool-cases (c == 0)) [
  | inl no_bytes ↦
      let zero_c : 0 ≡ c = ground (arith, no_bytes) in
      rw (copy_loop, no_bytes) (ap (λ k. take k (content (b ∷ bs))) zero_c)
  | inr more ↦
      let w = drop b.tail b.written in
      let n = length b.written - b.tail in
      let size : length w ≡ n = length-drop b.tail b.written in
      let waits : (b.tail == block_size) ≡ false = ground (arith, o.2) in
      let less : c - min c n ≡ c - length w = omega (arith, size) in
      rw
        (
          copy_loop,
          more,
          waits,
          copy_loop-take (c - min c n) bs o.4,
          less,
          take-append c w (content bs),
        )
        (ap (λ l. l ++ take (c - length w) (content bs))
          (ap (λ k. take (min c k) w) (sym size) ∙ take-min c w))
]

-- `stream_get` gives the oldest bytes, as many as asked for or all that there are, and drops them.
pub stream_get-content :
    (s : Stream) (c : ℕ)
    → IsStream s
    → ((stream_get s c).0 ≡ take c (content s.blocks))
      × IsStream (stream_get s c).1
      × (content (stream_get s c).1.blocks ≡ drop c (content s.blocks))
unfolding stream_get
stream_get-content s c t = elim (Bool-cases (s.count == 0)) [
  | inl empty ↦
      let short : length (content s.blocks) ≤ 0 = ground (arith, empty, t.counted) in
      let nil : content s.blocks ≡ [] = drop_all 0 (content s.blocks) short in
      rw (stream_get, empty)
        (sym (ap (take c) nil ∙ take-nil c), t, nil ∙ sym (ap (drop c) nil ∙ drop-nil c))
  | inr full ↦
      let n = if ltb s.count c then s.count else c in
      let d = stream_consume-content s n t in
      rw (stream_get, full)
        (
          copy_loop-take n s.blocks t.ordered
              ∙ clip-take s.count c (content s.blocks) (omega (arith, t.counted)),
          d.0,
          d.1 ∙ clip-drop s.count c (content s.blocks) (omega (arith, t.counted)),
        )
]

iovec-flatten : (bs : List Block) → flatten (iovec bs) ≡ content bs
unfolding iovec content flatten
iovec-flatten [] = refl
iovec-flatten (b ∷ bs) = ap (λ l. drop b.tail b.written ++ l) (iovec-flatten bs)

-- What a flush leaves of a stream.
abbrev Rest : Stream → Flushed × Stream → Type 0
Rest s (r, d) = IsStream d × (content d.blocks ≡ drop (written_bytes r) (content s.blocks))

flush_zero :
    (s : Stream) (n : ℕ) → IsStream s → Rest s (wrote n, if ltb 0 n then stream_consume s n else s)
flush_zero s n t = elim (Bool-cases (ltb 0 n)) [
  | inl some_bytes ↦ rw some_bytes (stream_consume-content s n t)
  | inr no_bytes ↦
      let e : 0 ≡ n = ground (arith, no_bytes) in
      rw no_bytes (t, ap (λ k. drop k (content s.blocks)) e)
]

-- What a flush returns for the answer of `writev`.
abbrev pub answered : Option ℕ → Flushed
answered none = failed
answered (some n) = wrote n

-- For a stream in order: `stream_flush` hands `writev` a vector of just the bytes that wait, if there
-- is a block and memory for the vector, and returns its answer; otherwise it calls nothing and tells
-- which of the two was missing. It drops exactly the bytes that it reports as written, and none on an
-- error, and the stream stays in order.
pub stream_flush-content :
    (memory : Bool) (writev : List (List ℕ) → Option ℕ) (s : Stream)
    → IsStream s
    → ((vector : List (List ℕ)) × (flatten vector ≡ content s.blocks)
        × ((stream_flush memory writev s).0 ≡ (
            if length s.blocks == 0
            then nothing
            else if memory
            then answered (writev vector)
            else no_vector)))
      × IsStream (stream_flush memory writev s).1
      × (content (stream_flush memory writev s).1.blocks
          ≡ drop (written_bytes (stream_flush memory writev s).0) (content s.blocks))
unfolding stream_flush
stream_flush-content memory writev s t =
    ((iovec s.blocks, iovec-flatten s.blocks, returned s.blocks), rest.0, rest.1)
  where
    returned :
        (bs : List Block)
        → (elim (iovec bs) as (λ _. Flushed × Stream) [
          | [] ↦ (nothing, s)
          | v ∷ vs ↦
              if memory
              then elim (writev (v ∷ vs)) [
                | none ↦ (failed, s)
                | some n ↦ (wrote n, if ltb 0 n then stream_consume s n else s)
              ]
              else (no_vector, s)
        ]).0
          ≡ (if length bs == 0
              then nothing
              else if memory
              then answered (writev (iovec bs))
              else no_vector)
    returned [] = unfold iovec in refl
    returned (b ∷ bs) =
        let some_block : (suc (length bs) == 0) ≡ false = ground arith in
        elim (Bool-cases memory) [
          | inr without_memory ↦ rw (iovec, some_block, without_memory) refl
          | inl with_memory ↦ elim (Option-cases (writev (iovec (b ∷ bs)))) [
            | inl error ↦ rw (iovec, some_block, with_memory, error) refl
            | inr (n, e) ↦ rw (iovec, some_block, with_memory, e) refl
          ]
        ]

    rest : Rest s (stream_flush memory writev s)
    rest = elim (List-cases (iovec s.blocks)) [
      | inl empty ↦ rw (stream_flush, empty) (t, refl)
      | inr (v, vs, e) ↦ elim (Bool-cases memory) [
        | inr none_left ↦ rw (stream_flush, e, none_left) (t, refl)
        | inl found ↦ elim (Option-cases (writev (v ∷ vs))) [
          | inl error ↦ rw (stream_flush, e, found, error) (t, refl)
          | inr (n, reply) ↦ rw (stream_flush, e, found, reply) (flush_zero s n t)
        ]
      ]
    ]

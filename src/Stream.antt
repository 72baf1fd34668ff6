-- ===== src/Stream.antt =====
-- stream.c: a queue of bytes in a chain of blocks.
pub mod Queue
pub mod Fill
pub mod Put
pub mod Filter
mod Tests
use mathlib.Core.List.{map}
use chaconne.Prelude.{
  ℕ, zero, suc, ◌+◌, ◌-◌, ◌*◌, ◌/◌, ◌%◌, ◌^◌, Bool, true, false, List, [], ◌∷◌, ◌++◌, Option, none,
  some, ltb, leb, ◌==◌, if◌then◌else◌, length, take, drop, min,
}

abbrev pub block_size : ℕ
block_size = 4096

abbrev pub size_limit : ℕ
size_limit = 2 ^ 64

-- `struct stream_node`: the bytes of `data` below `head`, whose number is `head`, and `tail`.
pub record Block : Type 0 where
  pub written : List ℕ
  pub tail : ℕ

-- `struct stream`: the chain from `first` to `last`, both NULL when it is empty.
pub record Stream : Type 0 where
  pub blocks : List Block
  pub count : ℕ

pub data Status : Type 0 where
  ok no_memory : Status

abbrev pub new_block : Block
new_block = record { written = []; tail = 0 }

abbrev pub stream_new : Stream
stream_new = record { blocks = []; count = 0 }

-- `s->last`, with the blocks before it.
unfoldable pub split_last : List Block → Option (List Block × Block)
split_last [] = none
split_last (b ∷ bs) = elim (split_last bs) [
  | none ↦ some ([], b)
  | some (front, l) ↦ some (b ∷ front, l)
]

-- The loop of `stream_put` at the block `last`, with `new` empty blocks behind it and rounds for
-- fuel. `none` stands for a missing block, for blocks that stay behind `s->last`, and for a lack of
-- rounds.
unfoldable pub put_loop : ℕ → List ℕ → List Block → Block → ℕ → Option (List Block)
put_loop n [] front last zero = some (front ++ last ∷ [])
put_loop n [] front last (suc new) = none
put_loop zero (c ∷ cs) front last new = none
put_loop (suc n) (c ∷ cs) front last zero =
    let block = block_size - length last.written in
    elim (block == 0) [
      | true ↦ none
      | false ↦
          put_loop n (drop block (c ∷ cs)) front
            (record last { written = last.written ++ take block (c ∷ cs) }) zero
    ]
put_loop (suc n) (c ∷ cs) front last (suc new) =
    let block = block_size - length last.written in
    elim (block == 0) [
      | true ↦
          put_loop n (drop block_size (c ∷ cs)) (front ++ last ∷ [])
            (record { written = take block_size (c ∷ cs); tail = 0 }) new
      | false ↦
          put_loop n (drop block (c ∷ cs)) front
            (record last { written = last.written ++ take block (c ∷ cs) }) (suc new)
    ]

-- The number of new blocks, computed in `size_t`.
unfoldable pub new_blocks : ℕ → ℕ → ℕ
new_blocks c cap =
    ((c + (size_limit - cap)) % size_limit + (block_size - 1)) % size_limit / block_size

-- The write of `stream_put`, to a stream whose blocks there is memory for.
unfoldable pub put_blocks : List Block → List ℕ → ℕ → Option (List Block)
unfolding split_last put_loop
put_blocks bs cs num = elim (split_last bs) [
  | some (front, last) ↦ put_loop (length cs) cs front last num
  | none ↦ elim num [ zero ↦ none | suc n ↦ put_loop (length cs) cs [] new_block n ]
]

unfoldable pub capacity : List Block → ℕ
unfolding split_last
capacity bs = elim (split_last bs) [
  | none ↦ 0
  | some (front, last) ↦ block_size - length last.written
]

-- `memory` is the number of calls of `malloc` that succeed. Blocks allocated before a failure are
-- freed again.
unfoldable pub stream_put : ℕ → Stream → List ℕ → Option (Status × Stream)
unfolding new_blocks put_blocks capacity
stream_put memory s [] = some (ok, s)
stream_put memory s (c ∷ cs) =
    let num = new_blocks (length (c ∷ cs)) (capacity s.blocks) in
    if ltb memory num then some (no_memory, s) else elim (put_blocks s.blocks (c ∷ cs) num) [
      | none ↦ none
      | some bs ↦
          some (ok, record { blocks = bs; count = (s.count + length (c ∷ cs)) % size_limit })
    ]

-- The loop of `stream_consume`; `kept` are the blocks passed and not freed, which a later
-- `s->first = next` would drop.
unfoldable pub consume_loop : ℕ → List Block → List Block → List Block
consume_loop c kept [] = kept
consume_loop c kept (b ∷ bs) = elim (c == 0) [
  | true ↦ kept ++ b ∷ bs
  | false ↦
      let block = min c (length b.written - b.tail) in
      elim (b.tail + block == block_size) [
        | true ↦ consume_loop (c - block) [] bs
        | false ↦ consume_loop (c - block) (kept ++ record b { tail = b.tail + block } ∷ []) bs
      ]
]

unfoldable pub stream_consume : Stream → ℕ → Stream
unfolding consume_loop
stream_consume s c =
    let n = if ltb s.count c then s.count else c in
    record { blocks = consume_loop n [] s.blocks; count = s.count - n }

unfoldable pub copy_loop : ℕ → List Block → List ℕ
copy_loop c [] = []
copy_loop c (b ∷ bs) = elim (c == 0) [
  | true ↦ []
  | false ↦ elim (b.tail == block_size) [
    | true ↦ copy_loop c bs
    | false ↦
        let block = min c (length b.written - b.tail) in
        take block (drop b.tail b.written) ++ copy_loop (c - block) bs
  ]
]

-- The bytes copied, whose number is the result.
unfoldable pub stream_get : Stream → ℕ → List ℕ × Stream
unfolding copy_loop stream_consume
stream_get s c =
    if s.count == 0
    then ([], s)
    else (let n = if ltb s.count c then s.count else c in
        (copy_loop n s.blocks, stream_consume s n))

-- `stream_iovec`: the waiting bytes of each block.
unfoldable pub iovec : List Block → List (List ℕ)
iovec [] = []
iovec (b ∷ bs) = drop b.tail b.written ∷ iovec bs

-- What `stream_flush` returns: no block, no memory for the vector, or the result of `writev`.
pub data Flushed : Type 0 where
  nothing no_vector failed : Flushed
  wrote : ℕ → Flushed

-- `writev` answers the number of bytes that it wrote, or `none` for an error.
unfoldable pub stream_flush : Bool → (List (List ℕ) → Option ℕ) → Stream → Flushed × Stream
unfolding iovec stream_consume
stream_flush memory writev s = elim (iovec s.blocks) [
  | [] ↦ (nothing, s)
  | v ∷ vs ↦
      if memory
      then elim (writev (v ∷ vs)) [
        | none ↦ (failed, s)
        | some n ↦ (wrote n, if ltb 0 n then stream_consume s n else s)
      ]
      else (no_vector, s)
]

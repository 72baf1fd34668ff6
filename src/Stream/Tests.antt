-- ===== src/Stream/Tests.antt =====
-- Runs of the stream of stream.c, and its theorems at concrete inputs.
use mathlib.Core.List.{flatten}
use chaconne.Prelude.{
  ℕ, ◌+◌, ◌/◌, ◌<◌, ◌≡◌, ◌⊎◌, refl, true, List, [], ◌∷◌, ◌++◌, Option, some, arith, take, drop, inl,
}
use chaconne.Stream.{Stream, ok, no_memory, stream_new, stream_put, stream_get, stream_flush}
use chaconne.Stream.Queue.{
  IsStream, content, written_bytes, answered, stream_get-content, stream_flush-content,
}
use chaconne.Stream.Put.{stream_put-content}

-- Three bytes written, of which one is consumed.
abbrev waiting : Stream
waiting = record { blocks = record { written = 7 ∷ 8 ∷ 9 ∷ []; tail = 1 } ∷ []; count = 2 }

waiting-IsStream : IsStream waiting
unfolding content
waiting-IsStream = record {
  ordered = (omega arith, omega arith, omega arith, inl refl, tt);
  counted = refl;
}

-- Bytes put behind others are behind them in the same block.
put_behind :
    stream_put 0 waiting (5 ∷ [])
    ≡ some
        (ok, record { blocks = record { written = 7 ∷ 8 ∷ 9 ∷ 5 ∷ []; tail = 1 } ∷ []; count = 3 })
unfolding stream_put
put_behind = refl

-- A new stream without memory stays as it is.
put_no_memory : stream_put 0 stream_new (5 ∷ []) ≡ some (no_memory, stream_new)
unfolding stream_put
put_no_memory = refl

stream_put-content_example :
    ((stream_put 0 waiting (5 ∷ 6 ∷ []) ≡ some (no_memory, waiting)) × (0 < 2 / 4096 + 1))
    ⊎ ((d : Stream) × (stream_put 0 waiting (5 ∷ 6 ∷ []) ≡ some (ok, d))
        × IsStream d
        × (content d.blocks ≡ content waiting.blocks ++ (5 ∷ 6 ∷ [])))
stream_put-content_example =
    stream_put-content 0 waiting (5 ∷ 6 ∷ []) waiting-IsStream (omega arith)

stream_get-content_example :
    ((stream_get waiting 1).0 ≡ take 1 (content waiting.blocks))
    × IsStream (stream_get waiting 1).1
    × (content (stream_get waiting 1).1.blocks ≡ drop 1 (content waiting.blocks))
stream_get-content_example = stream_get-content waiting 1 waiting-IsStream

-- A descriptor that takes one byte.
abbrev slow : List (List ℕ) → Option ℕ
slow vector = some 1

stream_flush-content_example :
    ((vector : List (List ℕ)) × (flatten vector ≡ content waiting.blocks)
      × ((stream_flush true slow waiting).0 ≡ answered (slow vector)))
    × IsStream (stream_flush true slow waiting).1
    × (content (stream_flush true slow waiting).1.blocks
        ≡ drop (written_bytes (stream_flush true slow waiting).0) (content waiting.blocks))
stream_flush-content_example = stream_flush-content true slow waiting waiting-IsStream

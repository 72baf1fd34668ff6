-- ===== src/Stream/Filter/Tests.antt =====
-- Runs of `stream_flush_regexp` of stream.c, and its theorem at a concrete input.
use chaconne.Prelude.{ℕ, ◌≡◌, refl, List, [], ◌∷◌, ◌⊎◌, inl, inr, arith, ◌==◌, if◌then◌else◌}
use chaconne.Stream.{Stream}
use chaconne.Stream.Queue.{IsStream, content}
use chaconne.Stream.Filter.{Match, matched, unmatched, is_end, stream_flush_regexp}
use chaconne.Stream.Filter.Lines.{text_of}
use chaconne.Stream.Filter.Whole.{Filtered, stream_flush_regexp-Filtered}

-- An expression is a byte, which a line has to start with.
abbrev compile : List ℕ → List ℕ ⊎ ℕ
compile [] = inl (b'e' ∷ [])
compile (c ∷ cs) = inr c

abbrev exec : ℕ → List ℕ → Match
exec c [] = unmatched
exec c (b ∷ bs) = if b == c then matched else unmatched

-- `a`, `b`, `ax` and `ac`, the last without an end
abbrev lines : List (List ℕ × List ℕ)
lines = (b'a' ∷ [], 13 ∷ 10 ∷ []) ∷ (b'b' ∷ [], 10 ∷ []) ∷ (b'a' ∷ b'x' ∷ [], 13 ∷ []) ∷ []

abbrev waiting : Stream
waiting = record {
  blocks = record { written = 10 ∷ text_of lines (b'a' ∷ b'c' ∷ []); tail = 0 } ∷ [];
  count = 11;
}

waiting-IsStream : IsStream waiting
unfolding content
waiting-IsStream = record {
  ordered = (omega arith, omega arith, omega arith, inl refl, tt);
  counted = refl;
}

filtered :
    (stream_flush_regexp compile exec waiting (b'a' ∷ [])).1.out
    ≡ b'a' ∷ 13 ∷ 10 ∷ b'a' ∷ b'x' ∷ 13 ∷ 10 ∷ b'a' ∷ b'c' ∷ []
unfolding stream_flush_regexp
filtered = refl

stream_flush_regexp-Filtered_example :
    IsStream (stream_flush_regexp compile exec waiting (b'a' ∷ [])).0
    × (content (stream_flush_regexp compile exec waiting (b'a' ∷ [])).0.blocks ≡ [])
    × Filtered exec lines (b'a' ∷ b'c' ∷ []) (inr b'a') (
      (stream_flush_regexp compile exec waiting (b'a' ∷ [])).1,
      (stream_flush_regexp compile exec waiting (b'a' ∷ [])).2,
    )
unfolding content is_end
stream_flush_regexp-Filtered_example =
    stream_flush_regexp-Filtered exec waiting (10 ∷ []) lines (b'a' ∷ b'c' ∷ []) compile (b'a' ∷ [])
      waiting-IsStream refl (refl, tt)
      (
        omega arith,
        omega arith,
        (refl, tt),
        omega arith,
        (refl, (refl, tt)),
        (
          omega arith,
          omega arith,
          (refl, tt),
          omega arith,
          (refl, tt),
          (omega arith, omega arith, (refl, (refl, tt)), omega arith, (refl, tt), tt),
        ),
      )
      (refl, (refl, tt)) (omega arith)

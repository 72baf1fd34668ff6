-- ===== src/Stream/Filter/Whole.antt =====
-- `stream_flush_regexp` of stream.c as a filter of the lines that wait in the stream.
use chaconne.Prelude.{
  ℕ, ◌+◌, ◌≤◌, ◌≡◌, refl, ap, ◌∙◌, Bool, true, false, List, [], ◌++◌, ◌⊎◌, inl, inr, arith, length,
  drop_all,
}
use chaconne.Stream.{Stream}
use chaconne.Stream.Queue.{content, IsStream, stream_consume-content}
use chaconne.Stream.Filter.{
  Match, compile_error, Filter, new_filter, end_line, flush_compiled, stream_flush_regexp,
}
use chaconne.Stream.Filter.Lines.{
  Inner, Ends, IsLines, text_of, written_lines, written_rest, feed, feed_all, filter_loop-Drained,
}

-- What a run ends with, as the expression compiles or not: the lines that match, each with an end
-- but for the last, with an error for each that cannot be tried; or the error alone.
abbrev pub Filtered :
    {R : Type 0}
    → (R → List ℕ → Match)
    → List (List ℕ × List ℕ)
    → List ℕ
    → List ℕ ⊎ R
    → Filter × Bool
    → Type 0
Filtered lre_exec ls rest (inl msg) r = (r.0.out ≡ compile_error msg) × (r.1 ≡ false)
Filtered lre_exec ls rest (inr bc) r =
    (r.0.out ≡ written_lines (lre_exec bc) ls ++ written_rest (lre_exec bc) rest)
    × (r.0.overrun ≡ false)
    × (r.1 ≡ true)

module _ {R : Type 0} (lre_exec : R → List ℕ → Match) (s : Stream) (lead : List ℕ)
    (ls : List (List ℕ × List ℕ)) (rest : List ℕ) where
  flush_compiled-Filtered :
      (compiled : List ℕ ⊎ R)
      → IsStream s
      → content s.blocks ≡ lead ++ text_of ls rest
      → Ends lead
      → IsLines ls
      → Inner rest
      → length rest ≤ 8192
      → IsStream (flush_compiled lre_exec s compiled).0
        × (content (flush_compiled lre_exec s compiled).0.blocks ≡ [])
        × Filtered lre_exec ls rest compiled
            ((flush_compiled lre_exec s compiled).1, (flush_compiled lre_exec s compiled).2)
  unfolding flush_compiled
  flush_compiled-Filtered (inl msg) t e l h inner fits =
      let (ok, left) = stream_consume-content s s.count t in
      (ok, left ∙ drop_all s.count (content s.blocks) (omega (arith, t.counted)), (refl, refl))
  flush_compiled-Filtered (inr bc) t e l h inner fits =
      let d =
        filter_loop-Drained (lre_exec bc) (s.count + 1) s new_filter t (omega (arith, t.counted)) in
      let same =
        ap (end_line (lre_exec bc) []) (d.fed ∙ ap (λ b. feed (lre_exec bc) b new_filter) e)
        ∙ feed_all (lre_exec bc) lead ls rest l h inner fits in
      (d.stream_ok, d.nothing_left, (ap (λ f. f.out) same, ap (λ f. f.overrun) same, refl))

  -- For a stream in order, with lines in it of at most 8192 bytes each, behind ends of lines and each
  -- with ends behind it, and a last one without: where the expression compiles, just the lines that
  -- match are written, each with an end but for the last, with an error for each that cannot be
  -- tried, no byte goes behind the array, and the result is 0; where it does not, the error is
  -- written, and the result is -1. Either way the stream is in order, and empty.
  pub stream_flush_regexp-Filtered :
      (lre_compile : List ℕ → List ℕ ⊎ R) (regexp : List ℕ)
      → IsStream s
      → content s.blocks ≡ lead ++ text_of ls rest
      → Ends lead
      → IsLines ls
      → Inner rest
      → length rest ≤ 8192
      → IsStream (stream_flush_regexp lre_compile lre_exec s regexp).0
        × (content (stream_flush_regexp lre_compile lre_exec s regexp).0.blocks ≡ [])
        × Filtered lre_exec ls rest (lre_compile regexp) (
          (stream_flush_regexp lre_compile lre_exec s regexp).1,
          (stream_flush_regexp lre_compile lre_exec s regexp).2,
        )
  unfolding stream_flush_regexp
  stream_flush_regexp-Filtered lre_compile regexp = flush_compiled-Filtered (lre_compile regexp)

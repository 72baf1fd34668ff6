-- ===== src/Stream/Filter/Lines.antt =====
-- `stream_flush_regexp` of stream.c against the lines that wait in the stream.
use chaconne.Prelude.{
  ℕ, zero, suc, ◌+◌, ◌≤◌, ◌<◌, ◌≡◌, refl, sym, ap, ◌∙◌, true, false, List, [], ◌∷◌, ◌++◌, inl, inr,
  arith, leb, length, take, drop, append-nil, append_assoc, length-append, List-cases,
}
use chaconne.Stream.{Stream, stream_get}
use chaconne.Stream.Queue.{content, IsStream, stream_get-content}
use chaconne.Stream.Filter.{
  Match, line_size, crlf, Filter, new_filter, is_end, written_for, end_line, filter_byte,
  filter_loop,
}

-- Bytes that are all in a line, or all ends of lines.
abbrev pub Inner : List ℕ → Type 0
Inner [] = Unit {0}
Inner (c ∷ cs) = (is_end c ≡ false) × Inner cs

abbrev pub Ends : List ℕ → Type 0
Ends [] = Unit {0}
Ends (c ∷ cs) = (is_end c ≡ true) × Ends cs

-- Lines that the array can hold, each with the ends behind it.
abbrev pub IsLines : List (List ℕ × List ℕ) → Type 0
IsLines [] = Unit {0}
IsLines ((line, ends) ∷ ls) =
    (1 ≤ length line)
    × (length line ≤ 8192)
    × Inner line
    × (1 ≤ length ends)
    × Ends ends
    × IsLines ls

-- The text of the lines, with what stands behind the last end.
abbrev pub text_of : List (List ℕ × List ℕ) → List ℕ → List ℕ
text_of [] rest = rest
text_of ((line, ends) ∷ ls) rest = line ++ (ends ++ text_of ls rest)

module _ (lre_exec : List ℕ → Match) where
  -- What is written for lines: each that matches, or an error for each that cannot be tried.
  pub written_lines : List (List ℕ × List ℕ) → List ℕ
  written_lines [] = []
  written_lines ((line, ends) ∷ ls) = written_for lre_exec crlf line ++ written_lines ls

  -- A last line without an end is written without one.
  pub written_rest : List ℕ → List ℕ
  written_rest [] = []
  written_rest (c ∷ cs) = written_for lre_exec [] (c ∷ cs)

  -- The rounds of the loop on some bytes.
  pub feed : List ℕ → Filter → Filter
  feed [] f = f
  feed (c ∷ cs) f = feed cs (filter_byte lre_exec c f)

  feed-append : (xs ys : List ℕ) (f : Filter) → feed (xs ++ ys) f ≡ feed ys (feed xs f)
  unfolding feed
  feed-append [] ys f = refl
  feed-append (x ∷ xs) ys f = feed-append xs ys (filter_byte lre_exec x f)

  -- The loop takes all the bytes, and does a round on each.
  pub record Drained (bytes : List ℕ) (f : Filter) (r : Stream × Filter) : Type 0 where
    pub stream_ok : IsStream r.0
    pub nothing_left : content r.0.blocks ≡ []
    pub fed : r.1 ≡ feed bytes f

  pub filter_loop-Drained :
      (n : ℕ) (s : Stream) (f : Filter)
      → IsStream s
      → length (content s.blocks) < n
      → Drained (content s.blocks) f (filter_loop lre_exec n s f)
  unfolding filter_loop feed
  filter_loop-Drained zero s f t fuel = absurd (omega arith)
  filter_loop-Drained (suc n) s f t fuel =
      let (got, ok, rest) = stream_get-content s 1 t in
      elim (List-cases (content s.blocks)) [
        | inl none_left ↦
            let nothing : (stream_get s 1).0 ≡ [] = got ∙ ap (take 1) none_left in
            rw (filter_loop, nothing, none_left)
              (record { stream_ok = ok; nothing_left = rest ∙ ap (drop 1) none_left; fed = refl })
        | inr (c, cs, more) ↦
            let one : (stream_get s 1).0 ≡ c ∷ [] = got ∙ ap (take 1) more in
            let left : content (stream_get s 1).1.blocks ≡ cs = rest ∙ ap (drop 1) more in
            let size : length (content (stream_get s 1).1.blocks) < n =
              omega (arith, ap length left, ap length more, fuel) in
            let d = filter_loop-Drained n (stream_get s 1).1 (filter_byte lre_exec c f) ok size in
            rw (filter_loop, one, more)
              (record {
                stream_ok = d.stream_ok;
                nothing_left = d.nothing_left;
                fed = d.fed ∙ ap (λ bytes. feed bytes (filter_byte lre_exec c f)) left;
              })
      ]

  feed-Inner :
      (line before out : List ℕ)
      → Inner line
      → length before + length line ≤ 8192
      → feed line (record { line = before; out = out; overrun = false })
        ≡ record { line = before ++ line; out = out; overrun = false }
  unfolding feed filter_byte
  feed-Inner [] before out h fits =
      ap (λ l. record { line = l; out = out; overrun = false }) (sym (append-nil before))
  feed-Inner (c ∷ cs) before out h fits =
      let room : leb line_size (length before) ≡ false = ground (arith, fits) in
      rw (feed, filter_byte, h.0, room)
        (feed-Inner cs (before ++ c ∷ []) out h.1
            (omega (arith, fits, length-append before (c ∷ [])))
          ∙ ap (λ l. record { line = l; out = out; overrun = false })
              (append_assoc before (c ∷ []) cs))

  feed-Ends :
      (ends out : List ℕ)
      → Ends ends
      → feed ends (record { line = []; out = out; overrun = false })
        ≡ record { line = []; out = out; overrun = false }
  unfolding feed filter_byte end_line
  feed-Ends [] out h = refl
  feed-Ends (c ∷ cs) out h = rw (feed, filter_byte, h.0) (feed-Ends cs out h.1)

  feed-line :
      (line ends out : List ℕ)
      → 1 ≤ length line
      → length line ≤ 8192
      → Inner line
      → 1 ≤ length ends
      → Ends ends
      → feed (line ++ ends) (record { line = []; out = out; overrun = false })
        ≡ record { line = []; out = out ++ written_for lre_exec crlf line; overrun = false }
  unfolding feed filter_byte end_line
  feed-line [] ends out some_byte fits h some_end e = absurd (omega arith)
  feed-line (b ∷ bs) [] out some_byte fits h some_end e = absurd (omega arith)
  feed-line (b ∷ bs) (c ∷ cs) out some_byte fits h some_end e =
      feed-append (b ∷ bs) (c ∷ cs) (record { line = []; out = out; overrun = false })
      ∙ ap (feed (c ∷ cs)) (feed-Inner (b ∷ bs) [] out h (omega (arith, fits)))
      ∙ rw (feed, filter_byte, e.0) (feed-Ends cs (out ++ written_for lre_exec crlf (b ∷ bs)) e.1)

  feed-text_of :
      (ls : List (List ℕ × List ℕ)) (rest out : List ℕ)
      → IsLines ls
      → feed (text_of ls rest) (record { line = []; out = out; overrun = false })
        ≡ feed rest (record { line = []; out = out ++ written_lines ls; overrun = false })
  unfolding written_lines
  feed-text_of [] rest out h =
      ap (λ o. feed rest (record { line = []; out = o; overrun = false })) (sym (append-nil out))
  feed-text_of ((line, ends) ∷ ls) rest out h =
      let start : Filter = record { line = []; out = out; overrun = false } in
      ap (λ t. feed t start) (sym (append_assoc line ends (text_of ls rest)))
      ∙ feed-append (line ++ ends) (text_of ls rest) start
      ∙ ap (feed (text_of ls rest)) (feed-line line ends out h.0 h.1 h.2 h.3 h.4)
      ∙ feed-text_of ls rest (out ++ written_for lre_exec crlf line) h.5
      ∙ ap (λ o. feed rest (record { line = []; out = o; overrun = false }))
          (append_assoc out (written_for lre_exec crlf line) (written_lines ls))

  end_line-rest :
      (rest out : List ℕ)
      → end_line lre_exec [] (record { line = rest; out = out; overrun = false })
        ≡ record { line = []; out = out ++ written_rest rest; overrun = false }
  unfolding end_line written_rest
  end_line-rest [] out =
      ap (λ o. record { line = []; out = o; overrun = false }) (sym (append-nil out))
  end_line-rest (c ∷ cs) out = refl

  -- The whole run on text that starts with ends.
  pub feed_all :
      (lead : List ℕ) (ls : List (List ℕ × List ℕ)) (rest : List ℕ)
      → Ends lead
      → IsLines ls
      → Inner rest
      → length rest ≤ 8192
      → end_line lre_exec [] (feed (lead ++ text_of ls rest) new_filter)
        ≡ record { line = []; out = written_lines ls ++ written_rest rest; overrun = false }
  feed_all lead ls rest e h inner fits =
      ap (end_line lre_exec []) (
        feed-append lead (text_of ls rest) new_filter
        ∙ ap (feed (text_of ls rest)) (feed-Ends lead [] e)
        ∙ feed-text_of ls rest [] h
        ∙ feed-Inner rest [] (written_lines ls) inner (omega (arith, fits)))
      ∙ end_line-rest rest (written_lines ls)

-- ===== src/Stream/Filter.antt =====
-- `stream_flush_regexp` of stream.c: the lines that wait in a stream, written out where they match a
-- regular expression. `lre_compile` and `lre_exec` are parameters.
pub mod Lines
pub mod Whole
mod Tests
use chaconne.Prelude.{
  ℕ, zero, suc, ◌+◌, Bool, true, false, ◌||◌, List, [], ◌∷◌, ◌++◌, ◌⊎◌, inl, inr, leb, ◌==◌,
  if◌then◌else◌, length,
}
use chaconne.Stream.{Stream, stream_get, stream_consume}

-- What `lre_exec` returns: 1, -1, or any other number.
pub data Match : Type 0 where
  matched failed unmatched : Match

abbrev pub line_size : ℕ
line_size = 8192

abbrev pub crlf : List ℕ
crlf = b'\r' ∷ b'\n' ∷ []

-- `lre_exec returns -1\n`
abbrev pub exec_error : List ℕ
exec_error =
    b'l' ∷ b'r' ∷ b'e' ∷ b'_' ∷ b'e' ∷ b'x' ∷ b'e' ∷ b'c' ∷ 32 ∷ b'r' ∷ b'e' ∷ b't' ∷ b'u' ∷ b'r'
    ∷ b'n' ∷ b's' ∷ 32 ∷ b'-' ∷ b'1' ∷ b'\n' ∷ []

-- `lre_compile error: %s\n`
abbrev pub compile_error : List ℕ → List ℕ
compile_error msg =
    b'l'
    ∷ b'r'
    ∷ b'e'
    ∷ b'_'
    ∷ b'c'
    ∷ b'o'
    ∷ b'm'
    ∷ b'p'
    ∷ b'i'
    ∷ b'l'
    ∷ b'e'
    ∷ 32
    ∷ b'e'
    ∷ b'r'
    ∷ b'r'
    ∷ b'o'
    ∷ b'r'
    ∷ b':'
    ∷ 32
    ∷ (msg ++ b'\n' ∷ [])

-- The locals of the loop: the line read so far, what was written to `fd`, and whether a byte was
-- put behind the end of the array `line`.
pub record Filter : Type 0 where
  pub line : List ℕ
  pub out : List ℕ
  pub overrun : Bool

abbrev pub new_filter : Filter
new_filter = record { line = []; out = []; overrun = false }

unfoldable pub is_end : ℕ → Bool
is_end c = (c == b'\r') || (c == b'\n')

module _ (lre_exec : List ℕ → Match) where
  -- What is written for a line, with `ending` behind one that matches.
  unfoldable pub written_for : List ℕ → List ℕ → List ℕ
  written_for ending line = elim (lre_exec line) [
    | matched ↦ line ++ ending
    | failed ↦ exec_error
    | unmatched ↦ []
  ]

  unfoldable pub end_line : List ℕ → Filter → Filter
  unfolding written_for
  end_line ending f = elim f.line [
    | [] ↦ f
    | c ∷ cs ↦ record f { line = []; out = f.out ++ written_for ending f.line }
  ]

  -- One round of the loop, on the byte that was read.
  unfoldable pub filter_byte : ℕ → Filter → Filter
  unfolding is_end end_line
  filter_byte c f = if is_end c then end_line crlf f else (record f {
    line = f.line ++ c ∷ [];
    overrun = f.overrun || leb line_size (length f.line);
  })

  -- The loop, with rounds for fuel.
  unfoldable pub filter_loop : ℕ → Stream → Filter → Stream × Filter
  unfolding stream_get filter_byte
  filter_loop zero s f = (s, f)
  filter_loop (suc n) s f = elim (stream_get s 1).0 [
    | [] ↦ ((stream_get s 1).1, f)
    | c ∷ cs ↦ filter_loop n (stream_get s 1).1 (filter_byte c f)
  ]

-- With the regular expression compiled to what `lre_exec` takes, or to an error message: the stream,
-- the locals, and whether the result is 0 and not -1. Each round of the loop takes a byte.
unfoldable pub flush_compiled :
    {R : Type 0} → (R → List ℕ → Match) → Stream → List ℕ ⊎ R → Stream × Filter × Bool
unfolding stream_consume filter_loop end_line
flush_compiled lre_exec s (inl msg) = (
  stream_consume s s.count,
  record { line = []; out = compile_error msg; overrun = false },
  false,
)
flush_compiled lre_exec s (inr bc) =
    let (s', f) = filter_loop (lre_exec bc) (s.count + 1) s new_filter in
    (s', end_line (lre_exec bc) [] f, true)

unfoldable pub stream_flush_regexp :
    {R : Type 0}
    → (List ℕ → List ℕ ⊎ R)
    → (R → List ℕ → Match)
    → Stream
    → List ℕ
    → Stream × Filter × Bool
unfolding flush_compiled
stream_flush_regexp lre_compile lre_exec s regexp = flush_compiled lre_exec s (lre_compile regexp)

-- ===== src/Range.antt =====
-- range.c: the parser of a list of ranges, a state machine on one byte at a time.
pub mod Bounds
mod Tests
use chaconne.Prelude.{
  ℕ, zero, suc, ◌+◌, ◌-◌, ◌%◌, ◌^◌, Bool, true, false, ◌&&◌, ◌||◌, List, [], ◌∷◌, ◌++◌, Option,
  none, some, ltb, leb, ◌==◌, if◌then◌else◌, length, take, drop,
}

-- The states before `done`; `range_desc` is the description of a range.
pub data State : Type 0 where
  start range_start range_start_space range_end range_end_space range_desc delimiter : State

-- `struct range`, its description as the bytes that it points to, and an `int` as its 32 bits: from
-- 2^31 on it stands for a negative number.
pub record Range : Type 0 where
  pub first : ℕ
  pub last : ℕ
  pub desc : List ℕ

-- The locals of `range_parse`: the state, the position `s`, the numbers of `entry`, and the
-- entries stored in the array.
pub record Scan : Type 0 where
  pub state : State
  pub s : ℕ
  pub first : ℕ
  pub last : ℕ
  pub stored : List Range

unfoldable pub in_desc : State → Bool
in_desc range_desc = true
in_desc state = false

-- The text without its trailing spaces.
unfoldable pub trim : List ℕ → List ℕ
trim [] = []
trim (c ∷ cs) = elim (trim cs) [ [] ↦ if c == 32 then [] else c ∷ [] | d ∷ ds ↦ c ∷ d ∷ ds ]

-- The conversion from `unsigned long` to `int`.
unfoldable pub int_of : ℕ → ℕ
int_of n = n % 2 ^ 32

-- `text` is the string before its NUL, `size` the length of the array; `strtoul` reads a number at
-- the front of a string, and `isgraph` is that of ctype.h. The operations give the locals, and
-- `false` where the parser returns -1 with them.
module _ (text : List ℕ) (size : ℕ) (strtoul : List ℕ → ℕ) (isgraph : ℕ → Bool) where
  -- The end of a description at position `p`, with the next state.
  unfoldable pub store : ℕ → State → Scan → Scan × Bool
  unfolding trim
  store p next scan =
      let desc = trim (take (p - scan.s) (drop scan.s text)) in
      if length scan.stored == size
      then (record scan { state = next; s = scan.s + length desc }, false)
      else (
        record scan {
          state = next;
          s = scan.s + length desc;
          stored = scan.stored ++ record { first = scan.first; last = scan.last; desc = desc } ∷ [];
        },
        true,
      )

  -- A blank in the given state: it ends a number.
  unfoldable pub blank : State → Scan → Scan
  unfolding int_of
  blank range_start scan = record scan {
    first = int_of (strtoul (drop scan.s text));
    state = range_start_space;
  }
  blank range_end scan = record scan {
    last = int_of (strtoul (drop scan.s text));
    state = range_end_space;
  }
  blank state scan = scan

  unfoldable pub digit : State → ℕ → Scan → Scan
  digit start p scan = record scan { s = p; state = range_start }
  digit delimiter p scan = record scan { s = p; state = range_start }
  digit range_start_space p scan = record scan { s = p; state = range_end }
  digit range_end_space p scan = record scan { s = p; state = range_desc }
  digit state p scan = scan

  unfoldable pub graph : State → ℕ → Scan → Scan × Bool
  graph range_end_space p scan = (record scan { s = p; state = range_desc }, true)
  graph range_desc p scan = (scan, true)
  graph state p scan = (scan, false)

  -- One byte other than NUL, and other than a line end behind a description.
  unfoldable pub step : ℕ → ℕ → Scan → Scan × Bool
  unfolding store blank digit graph in_desc
  step c p scan =
      if (c == 32) || (c == 9) || (c == 10)
      then (blank scan.state scan, true)
      else if c == 44
      then (if in_desc scan.state then store p delimiter scan else (scan, false))
      else if leb c 57 && leb 48 c
      then (digit scan.state p scan, true)
      else if isgraph c
      then graph scan.state p scan
      else (scan, false)

  -- At the NUL, after a description or a comma.
  unfoldable pub at_end : State → ℕ → Scan → Scan × Bool
  unfolding store
  at_end range_desc p scan = store p range_desc scan
  at_end delimiter p scan = store p range_desc scan
  at_end state p scan = (scan, false)

  -- The end of the parser at position `p`: the entries in the array, and the position for `endptr`,
  -- or `none` for -1.
  unfoldable pub ended : ℕ → Scan × Bool → List Range × Option ℕ
  ended p (scan, ok) = (scan.stored, if ok then some p else none)

  -- The loop at position `p`, with the text from there on.
  unfoldable pub loop : List ℕ → ℕ → Scan → List Range × Option ℕ
  unfolding step at_end store in_desc ended
  loop [] p scan = ended p (at_end scan.state p scan)
  loop (c ∷ cs) p scan =
      let next = step c p scan in
      let rest = loop cs (p + 1) next.0 in
      if (c == 10) && in_desc scan.state
      then ended p (store p range_desc scan)
      else if next.1
      then rest
      else (next.0.stored, none)

  -- The entries in the array, and the end position, or `none` for -1; the locals that C leaves unset
  -- are 0.
  unfoldable pub range_parse : List Range × Option ℕ
  unfolding loop
  range_parse = loop text 0 (record { state = start; s = 0; first = 0; last = 0; stored = [] })

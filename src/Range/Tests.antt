-- ===== src/Range/Tests.antt =====
-- Runs of the parser of range.c, and its theorem at a concrete input.
use chaconne.Prelude.{
  ℕ, ◌+◌, ◌-◌, ◌*◌, ◌≤◌, ◌≡◌, ◌⊎◌, refl, Bool, List, [], ◌∷◌, none, some, ltb, leb, ◌&&◌,
  if◌then◌else◌, length, get_elem?,
}
use chaconne.Range.{Range, range_parse}
use chaconne.Range.Bounds.{range_parse-Stops}

-- The digits at the front of a string.
digits : ℕ → List ℕ → ℕ
digits n [] = n
digits n (c ∷ cs) = if leb 48 c && leb c 57 then digits (n * 10 + (c - 48)) cs else n

abbrev strtoul : List ℕ → ℕ
unfolding digits
strtoul cs = digits 0 cs

abbrev isgraph : ℕ → Bool
isgraph c = ltb 32 c && ltb c 127

abbrev two_ranges : List ℕ
two_ranges =
    b'3' ∷ b'0' ∷ b' ' ∷ b'2' ∷ b' ' ∷ b'a' ∷ b' ' ∷ b',' ∷ b'1' ∷ b' ' ∷ b'5' ∷ b' ' ∷ b'b' ∷ b'c'
    ∷ 10 ∷ []

abbrev parsed : List Range
parsed =
    record { first = 30; last = 2; desc = b'a' ∷ [] }
    ∷ record { first = 1; last = 5; desc = b'b' ∷ b'c' ∷ [] }
    ∷ []

range_parse_two : range_parse two_ranges 4 strtoul isgraph ≡ (parsed, some 14)
unfolding range_parse digits
range_parse_two = refl

-- The array is full at the second range.
range_parse_full :
    range_parse two_ranges 1 strtoul isgraph
    ≡ (record { first = 30; last = 2; desc = b'a' ∷ [] } ∷ [], none)
unfolding range_parse digits
range_parse_full = refl

-- A comma before the NUL adds an entry that the text does not have.
range_parse_comma : range_parse (b'1' ∷ b' ' ∷ b'2' ∷ b' ' ∷ b'a' ∷ b',' ∷ []) 4 strtoul isgraph ≡ (
  record { first = 1; last = 2; desc = b'a' ∷ [] }
      ∷ record { first = 1; last = 2; desc = b',' ∷ [] }
      ∷ [],
  some 6,
)
unfolding range_parse digits
range_parse_comma = refl

-- 2^32 + 5 as an `int` is 5.
range_parse_wraps :
    range_parse
      (b'4' ∷ b'2' ∷ b'9' ∷ b'4' ∷ b'9' ∷ b'6' ∷ b'7' ∷ b'3' ∷ b'0' ∷ b'1' ∷ 32 ∷ b'2' ∷ 32 ∷ b'a'
        ∷ [])
      1
      strtoul
      isgraph
    ≡ (record { first = 5; last = 2; desc = b'a' ∷ [] } ∷ [], some 14)
unfolding range_parse digits
range_parse_wraps = refl

range_parse-Stops_example :
    (length (range_parse two_ranges 1 strtoul isgraph).0 ≤ 1)
    × ((q : ℕ)
        → (range_parse two_ranges 1 strtoul isgraph).1 ≡ some q
        → (q ≡ length two_ranges) ⊎ (get_elem? two_ranges q ≡ some 10))
range_parse-Stops_example = range_parse-Stops two_ranges 1 strtoul isgraph

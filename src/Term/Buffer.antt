-- ===== src/Term/Buffer.antt =====
-- cli-term.c: the line buffer `struct buffer`, the output stream as the bytes put so far, and the
-- loops over them that the editing commands share.
pub mod Shifts
use chaconne.Prelude.{
  ℕ, zero, suc, ◌+◌, ◌-◌, Bool, false, not, ◌||◌, List, [], ◌∷◌, ◌++◌, ltb, ◌==◌, if◌then◌else◌,
}

-- `sizeof(term->in->buf)`, which `term_create` stores as `max`
abbrev pub buf_size : ℕ
buf_size = 8192

-- `struct buffer` and the output of the terminal. `cell` holds the bytes of `buf`; `overrun`
-- records whether a write ever fell outside its `max` bytes.
pub record Editor : Type 0 where
  pub cell : ℕ → ℕ
  pub cp : ℕ
  pub len : ℕ
  pub max : ℕ
  pub overrun : Bool
  pub out : List ℕ

abbrev pub update : (ℕ → ℕ) → ℕ → ℕ → ℕ → ℕ
update f i v j = if i == j then v else f j

-- The `n` bytes of `f` from `i` on.
abbrev pub slice : (ℕ → ℕ) → ℕ → ℕ → List ℕ
slice f i zero = []
slice f i (suc n) = f i ∷ slice f (i + 1) n

-- `in->buf[i] = v`
unfoldable pub store : Editor → ℕ → ℕ → Editor
store e i v = record e { cell = update e.cell i v; overrun = e.overrun || not (ltb i e.max) }

-- `stream_putc(out, c)`
unfoldable pub putc : Editor → ℕ → Editor
putc e c = record e { out = e.out ++ c ∷ [] }

-- `stream_putstrn(out, &in->buf[i], n)`
unfoldable pub put_cells : Editor → ℕ → ℕ → Editor
put_cells e i n = record e { out = e.out ++ slice e.cell i n }

-- `for (i = 0; i < n; i++) stream_putc(out, c);`
unfoldable pub putc_times : ℕ → ℕ → Editor → Editor
putc_times zero c e = e
putc_times (suc n) c e = putc_times n c (putc e c)

-- `n` rounds of `buf[i - 1] = buf[i]`, with `i` counting up
unfoldable pub shift_left : ℕ → ℕ → Editor → Editor
shift_left zero i e = e
shift_left (suc n) i e = shift_left n (i + 1) (store e (i - 1) (e.cell i))

-- `n` rounds of `buf[i] = buf[i - 1]`, with `i` counting down
unfoldable pub shift_right : ℕ → ℕ → Editor → Editor
shift_right zero i e = e
shift_right (suc n) i e = shift_right n (i - 1) (store e i (e.cell (i - 1)))

-- `memset(&buf[i], 0, n)`
unfoldable pub clear_cells : ℕ → ℕ → Editor → Editor
clear_cells zero i e = e
clear_cells (suc n) i e = clear_cells n (i + 1) (store e i 0)

-- `memcpy(&buf[i], line, n)` for the `n` bytes of `line`
unfoldable pub copy_in : List ℕ → ℕ → Editor → Editor
copy_in [] i e = e
copy_in (c ∷ line) i e = copy_in line (i + 1) (store e i c)

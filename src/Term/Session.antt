-- ===== src/Term/Session.antt =====
-- cli-term.c: `struct term`, the dispatch of `term_read` on one byte, and the commands that leave
-- the line: execution, completion, help and the history.
pub mod Keys
pub mod Ready
pub mod Recall
pub mod Complete
pub mod Safe
pub mod Typing
use mathlib.Core.List.{flatten}
use chaconne.Prelude.{
  ℕ, zero, suc, ◌+◌, ◌-◌, ◌%◌, Bool, true, false, ◌&&◌, ◌||◌, List, [], ◌∷◌, ◌++◌, Option, none,
  some, ltb, leb, ◌==◌, if◌then◌else◌, length, replicate,
}
use chaconne.Term.Buffer.{Editor, store, buf_size}
use chaconne.Term.Edit.{
  backward_char, forward_char, delete_char, delete_backward_char, self_insert, kill_line,
  redraw_line, insert_word_overwrite, space,
}
use chaconne.Term.Words.{
  beginning_of_line, end_of_line, backward_pure_word, backward_word, forward_word,
  backward_kill_word, forward_kill_word, kill_line_from_beginning, show_line,
}
use chaconne.Term.History.{History, history_previous, history_next, history_add}

-- `term->escape`; the source never enters its `TERM_LITERAL`.
pub data Escape : Type 0 where
  normal pre_escape escape : Escape

-- What `cmd_complete` answers, with the keys that it returns.
pub data Completion : Type 0 where
  no_match : Completion
  full_match : List ℕ → Completion
  match : List ℕ → Completion
  list_match : List (List ℕ) → Completion
  other : Completion

-- What a command leaves behind: the bytes that it put, and whether it asked the terminal to stop.
pub record Outcome : Type 0 where
  pub printed : List ℕ
  pub stop : Bool

-- The calls of the command engine that the terminal makes, each with the line in the buffer.
pub record Engine : Type 0 where
  pub execute : History → List ℕ → Outcome
  pub complete : List ℕ → Completion
  pub describe : List ℕ → List ℕ

-- `line.out` holds the bytes put since the last prompt, and `log` those before it, that prompt
-- included; `memory` tells whether `strdup` will find memory.
pub record Terminal : Type 0 where
  pub line : Editor
  pub hist : History
  pub escape : Escape
  pub stop : Bool
  pub name : List ℕ
  pub log : List ℕ
  pub memory : Bool

-- `in->buf` as a C string, read within `n` bytes
unfoldable pub c_string : (ℕ → ℕ) → ℕ → ℕ → List ℕ
c_string f i zero = []
c_string f i (suc n) = if f i == 0 then [] else f i ∷ c_string f (i + 1) n

unfoldable pub buffer_text : Terminal → List ℕ
unfolding c_string
buffer_text t = c_string t.line.cell 0 t.line.max

abbrev pub newline : List ℕ
newline = 13 ∷ 10 ∷ []

-- `stream_puts` of bytes that the terminal itself chooses
unfoldable pub put_bytes : List ℕ → Terminal → Terminal
put_bytes bytes t = record t { line = record t.line { out = t.line.out ++ bytes } }

-- `stream_puts(term->out, "%s > ", term->name)`
unfoldable pub prompt : Terminal → Terminal
prompt t = record t {
  log = t.log ++ t.line.out ++ t.name ++ 32 ∷ 62 ∷ 32 ∷ [];
  line = record t.line { out = [] };
}

unfoldable pub edit : (Editor → Editor) → Terminal → Terminal
edit f t = record t { line = f t.line }

unfoldable pub show_history_line : Option (List ℕ) × History → Terminal → Terminal
unfolding show_line
show_history_line (none, h) t = record t { hist = h }
show_history_line (some text, h) t = record t { hist = h; line = show_line t.line text }

unfoldable pub previous_line : Terminal → Terminal
unfolding show_history_line history_previous
previous_line t = show_history_line (history_previous t.hist) t

unfoldable pub next_line : Terminal → Terminal
unfolding show_history_line history_next
next_line t = show_history_line (history_next t.hist) t

-- The last statements of `term_execute` before its prompt.
unfoldable pub clear_line : Editor → Editor
unfolding store
clear_line e = store (record e { cp = 0; len = 0 }) 0 0

unfoldable pub term_execute : Engine → Terminal → Terminal
unfolding put_bytes buffer_text history_add clear_line prompt
term_execute c t =
    let text = buffer_text t in
    let done = c.execute t.hist text in
    let ran = put_bytes (newline ++ done.printed) t in
    prompt (record ran {
      stop = t.stop || done.stop;
      hist = history_add t.memory t.hist text;
      line = clear_line ran.line;
    })

-- `"%-16s"`, five to a row
unfoldable pub padded : List ℕ → List ℕ
padded key = key ++ replicate (16 - length key) space

unfoldable pub key_rows : ℕ → List (List ℕ) → List ℕ
unfolding padded
key_rows i [] = []
key_rows i (key ∷ keys) =
    (if ltb 0 i && (i % 5 == 0) then newline else []) ++ padded key ++ key_rows (i + 1) keys

-- `"%% No matched command.\\r\\n"` through the format
abbrev pub no_matched : List ℕ
no_matched =
    b'%' ∷ b' ' ∷ b'N' ∷ b'o' ∷ b' ' ∷ b'm' ∷ b'a' ∷ b't' ∷ b'c' ∷ b'h' ∷ b'e' ∷ b'd' ∷ b' ' ∷ b'c'
    ∷ b'o' ∷ b'm' ∷ b'm' ∷ b'a' ∷ b'n' ∷ b'd' ∷ b'.' ∷ []

unfoldable pub show_completion : Completion → Terminal → Terminal
unfolding put_bytes prompt edit key_rows redraw_line backward_pure_word insert_word_overwrite
    self_insert
show_completion no_match t = edit redraw_line (prompt (put_bytes (no_matched ++ newline) t))
show_completion (full_match key) t =
    edit (λ e. self_insert (insert_word_overwrite (backward_pure_word (redraw_line e)) key) space)
      (prompt t)
show_completion (match key) t =
    edit (λ e. insert_word_overwrite (backward_pure_word (redraw_line e)) key) (prompt t)
show_completion (list_match keys) t =
    edit redraw_line (prompt (put_bytes (key_rows 0 keys ++ newline) t))
show_completion other t = edit redraw_line (prompt t)

unfoldable pub complete_command : Engine → Terminal → Terminal
unfolding show_completion put_bytes buffer_text
complete_command c t = show_completion (c.complete (buffer_text t)) (put_bytes newline t)

-- `term_describe_command`; `describe` gives what it puts behind the line break.
unfoldable pub describe_command : Engine → Terminal → Terminal
unfolding put_bytes prompt edit redraw_line buffer_text
describe_command c t =
    edit redraw_line (prompt (put_bytes (newline ++ c.describe (buffer_text t)) t))

-- `CTRL(c)`
abbrev pub ctrl : ℕ → ℕ
ctrl c = c - b'@'

abbrev pub del : ℕ
del = 0x7f

-- One branch of `term_read` for each value of `term->escape`.
unfoldable pub read_escape : ℕ → Terminal → Terminal
unfolding previous_line next_line edit forward_char backward_char
read_escape c t =
    if c == b'A'
    then previous_line t
    else if c == b'B'
    then next_line t
    else if c == b'C'
    then edit forward_char t
    else if c == b'D'
    then edit backward_char t
    else t

unfoldable pub read_pre_escape : ℕ → Terminal → Terminal
unfolding edit backward_word forward_word forward_kill_word backward_kill_word
read_pre_escape c t =
    if c == b'b'
    then record (edit backward_word t) { escape = normal }
    else if c == b'f'
    then record (edit forward_word t) { escape = normal }
    else if c == b'd'
    then record (edit forward_kill_word t) { escape = normal }
    else if (c == ctrl b'H') || (c == del)
    then record (edit backward_kill_word t) { escape = normal }
    else if c == b'['
    then record t { escape = escape }
    else record t { escape = normal }

unfoldable pub read_normal : Engine → ℕ → Terminal → Terminal
unfolding edit backward_char forward_char delete_backward_char delete_char beginning_of_line
    end_of_line next_line previous_line kill_line_from_beginning kill_line forward_kill_word
    describe_command complete_command term_execute self_insert
read_normal engine c t =
    if c == ctrl b'B'
    then edit backward_char t
    else if c == ctrl b'F'
    then edit forward_char t
    else if (c == ctrl b'H') || (c == del)
    then edit delete_backward_char t
    else if c == ctrl b'D'
    then edit delete_char t
    else if c == ctrl b'A'
    then edit beginning_of_line t
    else if c == ctrl b'E'
    then edit end_of_line t
    else if c == ctrl b'N'
    then next_line t
    else if c == ctrl b'P'
    then previous_line t
    else if c == ctrl b'U'
    then edit kill_line_from_beginning t
    else if c == ctrl b'K'
    then edit kill_line t
    else if c == ctrl b'W'
    then edit forward_kill_word t
    else if c == 0x1b
    then record t { escape = pre_escape }
    else if c == b'?'
    then describe_command engine t
    else if c == 9
    then complete_command engine t
    else if (c == 10) || (c == 13)
    then term_execute engine t
    else if ltb 31 c && ltb c 127
    then edit (λ e. self_insert e c) t
    else t

unfoldable pub dispatch : Escape → Engine → ℕ → Terminal → Terminal
unfolding read_escape read_pre_escape read_normal
dispatch normal engine c t = read_normal engine c t
dispatch pre_escape engine c t = read_pre_escape c t
dispatch escape engine c t = record (read_escape c t) { escape = normal }

-- `term_read`, for a byte `c`: a negative `char` meets no test, and neither does one from 128 on.
unfoldable pub term_read : Engine → ℕ → Terminal → Terminal
unfolding dispatch
term_read engine c t = dispatch t.escape engine c t

-- `term_run`, for the bytes that arrive before the terminal stops.
unfoldable pub term_run : Engine → List ℕ → Terminal → Terminal
unfolding term_read
term_run engine [] t = t
term_run engine (c ∷ cs) t =
    let rest = term_run engine cs (term_read engine c t) in if t.stop then t else rest

-- What `term_create` sets up, with its help line and the first prompt.
unfoldable pub term_create : List ℕ → List ℕ → Bool → Terminal
unfolding prompt put_bytes
term_create name help memory = prompt (
    put_bytes help (record {
      line = record { cell = λ _. 0; cp = 0; len = 0; max = buf_size; overrun = false; out = [] };
      hist = record { buf = λ _. none; cp = 0; index = 0 };
      escape = normal;
      stop = false;
      name = name;
      log = [];
      memory = memory;
    }))

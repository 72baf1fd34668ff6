-- ===== src/Lib.antt =====
-- Chaconne: a terminal with a command line engine, and the containers under it.
--
-- The program reads bytes from a terminal. `term_read` of cli-term.c takes one byte at a time and
-- edits a line of at most 8191 bytes in a buffer of 8192, with the cursor anywhere in it; what the
-- user sees is the effect of the bytes that the same functions put on the output stream. When a
-- line ends, it goes to the command engine (cli-tree.c) and into a ring of 32 lines, which the
-- arrow keys recall. The engine hands a command the keys and values of its line in a hash table
-- (hashtable.c), and output waits in a stream of blocks (stream.c).
--
-- Files and sources:
--   Prelude: shared names, lists and Boolean tests over the native numbers.
--   Term/Buffer: `struct buffer` of cli-term.c; a buffer is a function from positions to bytes.
--     The output is the list of bytes put, so that the memory moves and the redisplay of one command
--     are one state change, and writes at or past the size are recorded as an overrun.
--   Term/Edit, Term/Words: the editing commands, `term_self_insert` to `term_forward_kill_word`,
--     each a function on the buffer of the same name without `term_`.
--   Term/Screen: the row of a display that obeys the bytes put: a backspace moves left, a printable
--     byte writes and moves right. It is the independent account of what the user sees.
--   Term/History: `struct history`, `history_previous`, `history_next`, `history_add` and
--     `history_print` of cli-term.c.
--   Term/Session: `struct term`, `term_read` with its three escape states, `term_execute`,
--     `term_complete_command`, `term_describe_command`, `term_previous_line`, `term_next_line`.
--     The command engine is the record Engine, under the law IsEngine on its completions;
--     Tree/Complete/Serves is about `cmd_complete` in this place.
--   Hashtable: hashtable.c. A bucket is its count and its chain; the callbacks are the record Attr,
--     under the law IsKeyed that comparison is an equivalence that the hash respects. Memory is
--     found for each new element and each growth, where the source asserts it.
--   Stream: stream.c. A block is the bytes below its head and its tail; a stream is its chain and its
--     count. Stream/Queue has the readers, Stream/Fill and Stream/Put the writer; `writev` and the
--     success of `malloc` are arguments.
--   Tree: cli-tree.c. The nodes that the parser allocates are a list, and a pointer to a node is
--     its place there; the chain behind `children` or `keyword` is the list of its places.
--     Tree/Lines is the split of a line into words, Tree/Parser the parser of command syntax
--     (`cmd_add_elem`, `cmd_tree_build`), Tree/Search `cmd_search` with `find_best_node`,
--     Tree/Complete `cmd_complete` and `cmd_describe`. The parser finds memory for its tokens and
--     nodes; `isspace` is an argument, and that it takes the newline and not the bar is a
--     hypothesis where it is needed. The reads through NULL, of the first token of the root and
--     of the front that a completion copies, are faults.
--   Kpairs: str-kpairs.c. The buffer is the list of its bytes, and a pointer into it an offset.
--     Kpairs/Packed and Kpairs/Pairs say what pairs it holds; a write past its end would show as a
--     longer list, and the theorems on the operations keep its length.
--   Heap: heap.c. The array is a function from places to elements; the comparison is a parameter
--     under the law IsOrder, and the calls of the update callback are logged. Heap/Up has the climb of
--     `heap_update_key`, Heap/Down the descent of `heapify`.
--   Tree/Options: `struct cmdopt` of cli-term.c with its table of keyword pairs, and
--     `cmdopt_parse` of cli-tree.c. Tree/Execute: `cmd_execute`. The commands, with what they do
--     to the terminal and to the option buffers, are the record Program over a type of worlds;
--     the search gives the words and the pairs that it sets as lists, whether it finds a node or
--     not, and `set_pairs` makes the calls of `hashtable_set`. Words put behind `argv`, which
--     holds 64, are recorded as an overrun; in completion and help, where it holds 1000, they are
--     a fault. Tree/Plain has what the parser and the search do with a command of literal words.
--   Stream/Filter: `stream_flush_regexp` of stream.c; `lre_compile` and `lre_exec` are arguments, and
--     writes behind the end of its array are recorded as an overrun.
--   EventLoop: event-loop.c. A source goes by its place among those allocated, and a read or second
--     release of freed memory is recorded. `epoll_wait`, the descriptors that are opened and the
--     callbacks are arguments; a callback gives the actions that it takes on the loop.
--     EventLoop/Invariant has what the operations keep, EventLoop/Dispatch the dispatch.
--   Range: range.c. The cases of the switch are functions on the locals of `range_parse`, and the
--     loop is recursion on the rest of the text; `strtoul` and `isgraph` are arguments. What is in the
--     array is given on an error too, and an `int` is its 32 bits.
--
-- Bounds and fuel: the loops of the editor run on structural recursion, with the length of the
-- line or the cursor as the bound that the source tests; the word commands run on the number of
-- bytes before or behind the cursor as fuel, and the theorems on them show the run to end at a word
-- boundary, so it is enough; `history_print` runs on 33 rounds, and its theorem shows that they
-- suffice. Positions stay below 8192, so the editor's sums do not wrap; the growth test of the hash
-- table wraps at 64 bits, and its bucket indices are taken below 2^31, where the source's `int` holds
-- them. The loop of `stream_put` runs on as many rounds as there are bytes, and its theorem shows
-- that they suffice; its block count is computed at 64 bits. The loops of the heap run on the places
-- that are left above or below, and its places are taken below 2^30, where the source's `int` holds
-- both children; its elements have at most the 8 bytes of the exchange buffer. The search in the key
-- pairs runs on the bytes below `last`. The search runs on one round
-- for each word, and the parser on one for each byte of the syntax and of the help text. The filter
-- of a stream runs on a round for each byte that waits and one more, and the loop over idle sources
-- on as many as wait; their theorems show that these suffice. Indices of option attributes are below
-- 2^31, or negative.
--
-- Not modelled: the process that `cmd_pipe` starts, the deletion and drawing of a tree, and the
-- built-in commands, which print; the layout of help; the list of checks of the event loop, which
-- nothing fills; the vector; telnet negotiation, descriptors, sockets, ioctl and cpuid, which are
-- pure input and output; the copies of libregexp, libunicode, cutils and list.h, which are
-- third-party code.
pub mod Prelude
pub mod Term
pub mod Hashtable
pub mod Stream
pub mod Range
pub mod Tree
pub mod Kpairs
pub mod Heap
pub mod EventLoop

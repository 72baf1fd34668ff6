-- ===== src/EventLoop.antt =====
-- event-loop.c: sources of events, the loop that calls them, and when their memory is freed.
pub mod Counts
pub mod Invariant
pub mod Idle
pub mod Dispatch
mod Tests
use chaconne.Prelude.{
  ℕ, zero, suc, ◌+◌, Bool, true, false, ◌||◌, List, [], ◌∷◌, ◌++◌, Option, none, some, ltb, ◌==◌,
  if◌then◌else◌, length, get_elem?, set,
}

-- What a source is called for, and what is asked of epoll for it.
pub record Events : Type 0 where
  pub readable : Bool
  pub writable : Bool
  pub hangup : Bool
  pub error : Bool

-- The interface of a source; that of a descriptor keeps the one that it was added with.
pub data Interface : Type 0 where
  fd_source : ℕ → Interface
  timer_source signal_source idle_source : Interface

-- `struct event_source`: no descriptor is -1.
pub record Source : Type 0 where
  pub interface : Interface
  pub fd : Option ℕ

-- `struct event_loop`. A source goes by its place among those allocated so far. `polled` are the
-- sources that epoll watches, `freed` those whose memory is freed, `called` those called so far, and
-- `misused` whether a freed source was read or freed again.
pub record Loop : Type 0 where
  pub sources : List Source
  pub idle_list : List ℕ
  pub destroy_list : List ℕ
  pub polled : List ℕ
  pub freed : List ℕ
  pub called : List ℕ
  pub misused : Bool

abbrev pub new_loop : Loop
new_loop = record {
  sources = [];
  idle_list = [];
  destroy_list = [];
  polled = [];
  freed = [];
  called = [];
  misused = false;
}

-- How often a source stands in a list.
unfoldable pub count : ℕ → List ℕ → ℕ
count id [] = 0
count id (j ∷ js) = if id == j then suc (count id js) else count id js

-- `list_del`: a source is in one list at most.
unfoldable pub without : ℕ → List ℕ → List ℕ
without id [] = []
without id (j ∷ js) = if id == j then without id js else j ∷ without id js

unfoldable pub fd_of : List Source → ℕ → Option ℕ
fd_of sources id = elim (get_elem? sources id) [ none ↦ none | some s ↦ s.fd ]

-- `add_source`, with the success of `epoll_ctl`. A source that it gives up is not kept.
unfoldable pub add_source : Bool → Source → Loop → Loop
add_source watched source loop = elim source.fd [
  | none ↦ loop
  | some fd ↦
      if watched
      then (record loop {
        sources = loop.sources ++ source ∷ [];
        polled = loop.polled ++ length loop.sources ∷ [];
      })
      else loop
]

-- `event_loop_add_fd` with memory: `dup` is what `os_dupfd_cloexec` answers.
unfoldable pub event_loop_add_fd : ℕ → Bool → Option ℕ → Bool → Loop → Loop
unfolding add_source
event_loop_add_fd fd nodupfd dup watched loop =
    add_source watched (record { interface = fd_source fd; fd = if nodupfd then some fd else dup })
      loop

-- `event_loop_add_timer` and `event_loop_add_signal` with memory, and what `timerfd_create` or
-- `signalfd` answers.
unfoldable pub event_loop_add_timer : Option ℕ → Bool → Loop → Loop
unfolding add_source
event_loop_add_timer fd watched loop =
    add_source watched (record { interface = timer_source; fd = fd }) loop

unfoldable pub event_loop_add_signal : Option ℕ → Bool → Loop → Loop
unfolding add_source
event_loop_add_signal fd watched loop =
    add_source watched (record { interface = signal_source; fd = fd }) loop

unfoldable pub event_loop_add_idle : Loop → Loop
event_loop_add_idle loop = record loop {
  sources = loop.sources ++ record { interface = idle_source; fd = none } ∷ [];
  idle_list = loop.idle_list ++ length loop.sources ∷ [];
}

-- The descriptor of a source after it is removed: that of the user is left open, and in place.
unfoldable pub fd_left : Source → Option ℕ
fd_left source = elim source.fd [
  | none ↦ none
  | some fd ↦ elim source.interface [
    | fd_source user ↦ if user == fd then some fd else none
    | _ ↦ none
  ]
]

unfoldable pub close_source : ℕ → Loop → Loop
unfolding fd_left
close_source id loop = elim (get_elem? loop.sources id) [
  | none ↦ loop
  | some source ↦ elim source.fd [
    | none ↦ loop
    | some fd ↦ record loop {
      sources = set loop.sources id (record source { fd = fd_left source });
      polled = without id loop.polled;
    }
  ]
]

-- The memory of a source is read.
unfoldable pub touch : ℕ → Loop → Loop
unfolding count
touch id loop = record loop { misused = loop.misused || ltb 0 (count id loop.freed) }

unfoldable pub event_source_remove : ℕ → Loop → Loop
unfolding close_source touch without
event_source_remove id loop =
    let closed = close_source id (touch id loop) in
    record closed {
      idle_list = without id closed.idle_list;
      destroy_list = without id closed.destroy_list ++ id ∷ [];
    }

-- The loop of `event_loop_process_destroy_list`.
unfoldable pub free_sources : List ℕ → Loop → Loop
unfolding touch
free_sources [] loop = loop
free_sources (id ∷ ids) loop =
    let touched = touch id loop in
    free_sources ids (record touched { freed = touched.freed ++ id ∷ [] })

unfoldable pub event_loop_process_destroy_list : Loop → Loop
unfolding free_sources
event_loop_process_destroy_list loop = record (free_sources loop.destroy_list loop) {
  destroy_list = [];
}

-- What a callback can do with the loop.
pub data Action : Type 0 where
  add_fd : ℕ → Bool → Option ℕ → Bool → Action
  add_timer : Option ℕ → Bool → Action
  add_signal : Option ℕ → Bool → Action
  add_idle : Action
  remove : ℕ → Action

unfoldable pub perform : Action → Loop → Loop
unfolding event_loop_add_fd event_loop_add_timer event_loop_add_signal event_loop_add_idle
    event_source_remove
perform (add_fd fd nodupfd dup watched) loop = event_loop_add_fd fd nodupfd dup watched loop
perform (add_timer fd watched) loop = event_loop_add_timer fd watched loop
perform (add_signal fd watched) loop = event_loop_add_signal fd watched loop
perform add_idle loop = event_loop_add_idle loop
perform (remove id) loop = event_source_remove id loop

unfoldable pub perform_all : List Action → Loop → Loop
unfolding perform
perform_all [] loop = loop
perform_all (a ∷ actions) loop = perform_all actions (perform a loop)

-- A callback may look at the loop, at what was called before, and at the events.
abbrev pub Callbacks : Type 0
Callbacks = Loop → ℕ → Events → List Action

abbrev pub no_events : Events
no_events = record { readable = false; writable = false; hangup = false; error = false }

module _ (callbacks : Callbacks) where
  -- The function of a source is called, through its interface.
  unfoldable pub call : ℕ → Events → Loop → Loop
  unfolding touch perform_all
  call id events loop =
      let touched = touch id loop in
      let entered = record touched { called = touched.called ++ id ∷ [] } in
      perform_all (callbacks entered id events) entered

  -- `event_loop_dispatch_idle`, with rounds for fuel; `none` is a lack of them.
  unfoldable pub event_loop_dispatch_idle : ℕ → Loop → Option Loop
  unfolding call event_source_remove
  event_loop_dispatch_idle zero loop = elim loop.idle_list [ [] ↦ some loop | id ∷ ids ↦ none ]
  event_loop_dispatch_idle (suc n) loop =
      let rest =
        λ (id : ℕ). event_loop_dispatch_idle n (event_source_remove id (call id no_events loop)) in
      elim loop.idle_list [ [] ↦ some loop | id ∷ ids ↦ rest id ]

  -- The loop of `event_loop_dispatch` over what `epoll_wait` gave.
  unfoldable pub dispatch_ready : List (ℕ × Events) → Loop → Loop
  unfolding call touch fd_of
  dispatch_ready [] loop = loop
  dispatch_ready ((id, events) ∷ ready) loop =
      let touched = touch id loop in
      elim (fd_of touched.sources id) [
        | none ↦ dispatch_ready ready touched
        | some fd ↦ dispatch_ready ready (call id events touched)
      ]

  -- `event_loop_dispatch` with an empty check list: whether the result is 0 and not -1.
  -- `epoll_wait` is a parameter, which fails or gives the sources that are ready.
  unfoldable pub event_loop_dispatch :
      (Loop → Option (List (ℕ × Events))) → ℕ → Loop → Option (Loop × Bool)
  unfolding event_loop_dispatch_idle dispatch_ready event_loop_process_destroy_list
  event_loop_dispatch epoll_wait n loop = elim (event_loop_dispatch_idle n loop) [
    | none ↦ none
    | some waiting ↦ elim (epoll_wait waiting) [
      | none ↦ some (waiting, false)
      | some ready ↦
          let freed = event_loop_process_destroy_list (dispatch_ready ready waiting) in
          elim (event_loop_dispatch_idle n freed) [ none ↦ none | some done ↦ some (done, true) ]
    ]
  ]

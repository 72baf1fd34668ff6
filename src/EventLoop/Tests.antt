-- ===== src/EventLoop/Tests.antt =====
-- Runs of event-loop.c: a source that removes itself while the loop calls it, beside an idle one.
use mathlib.Core.Path.{subst}
use mathlib.Core.Option.{some-injective}
use chaconne.Prelude.{
  ℕ, ◌≤◌, ◌≡◌, refl, Bool, true, false, ◌&&◌, List, [], ◌∷◌, Option, none, some, arith, ◌==◌, ltb,
  if◌then◌else◌, length, Bool-cases, inl, inr,
}
use chaconne.EventLoop.{
  Loop, Events, fd_source, idle_source, Callbacks, new_loop, no_events, count, add_fd, add_idle,
  remove, perform_all, event_loop_dispatch,
}
use chaconne.EventLoop.Invariant.{IsLoop, new_loop-IsLoop, perform_all-IsLoop}
use chaconne.EventLoop.Idle.{IsSettled}
use chaconne.EventLoop.Dispatch.{IsCareful, Polled, event_loop_dispatch-IsLoop}

-- A source that is called removes itself.
unfoldable self_removing : Callbacks
self_removing l id events =
    if ltb id (length l.sources) && (count id l.freed == 0) then remove id ∷ [] else []

self_removing-IsCareful : IsCareful self_removing
unfolding self_removing
self_removing-IsCareful l id events k =
    elim (Bool-cases (ltb id (length l.sources) && (count id l.freed == 0))) [
      | inl live ↦ rw (self_removing, live) ((ground (arith, live), ground (arith, live)), tt)
      | inr gone ↦ rw (self_removing, gone) tt
    ]

self_removing-IsSettled : IsSettled self_removing
unfolding self_removing
self_removing-IsSettled l id events =
    elim (Bool-cases (ltb id (length l.sources) && (count id l.freed == 0))) [
      | inl live ↦ rw (self_removing, live) (tt, tt)
      | inr gone ↦ rw (self_removing, gone) tt
    ]

abbrev readable : Events
readable = record no_events { readable = true }

-- The first source is readable as long as epoll watches it.
unfoldable first_ready : Loop → Option (List (ℕ × Events))
unfolding count
first_ready m = some (if ltb 0 (count 0 m.polled) then (0, readable) ∷ [] else [])

first_ready-Polled :
    (m : Loop) (ready : List (ℕ × Events)) → first_ready m ≡ some ready → Polled ready m
unfolding first_ready
first_ready-Polled m ready e =
    subst (λ r. Polled r m) (some-injective _ ready e)
      (elim (Bool-cases (ltb 0 (count 0 m.polled))) [
        | inl watched ↦ rw watched (ground (arith, watched), tt)
        | inr idle ↦ rw idle tt
      ])

abbrev two_sources : Loop
two_sources = perform_all (add_fd 5 false (some 7) true ∷ add_idle ∷ []) new_loop

-- Both sources are called, the idle one first; both are freed in the end, once each.
dispatch_run :
    event_loop_dispatch self_removing first_ready 1 two_sources
    ≡ some (
      record {
        sources =
            record { interface = fd_source 5; fd = none }
            ∷ record { interface = idle_source; fd = none }
            ∷ [];
        idle_list = [];
        destroy_list = [];
        polled = [];
        freed = 1 ∷ 0 ∷ [];
        called = 1 ∷ 0 ∷ [];
        misused = false;
      },
      true,
    )
unfolding event_loop_dispatch self_removing first_ready perform_all
dispatch_run = refl

one_idle : length two_sources.idle_list ≤ 1
unfolding perform_all
one_idle = omega arith

event_loop_dispatch-IsLoop_example :
    (m : Loop) × (ok : Bool) × (event_loop_dispatch self_removing first_ready 1 two_sources
      ≡ some (m, ok))
    × IsLoop m
    × (m.misused ≡ false)
    × (m.idle_list ≡ [])
event_loop_dispatch-IsLoop_example =
    event_loop_dispatch-IsLoop self_removing self_removing-IsCareful first_ready 1 two_sources
      self_removing-IsSettled first_ready-Polled
      (perform_all-IsLoop (add_fd 5 false (some 7) true ∷ add_idle ∷ []) new_loop new_loop-IsLoop
        (tt, (tt, tt))).0
      one_idle

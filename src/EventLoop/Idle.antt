-- ===== src/EventLoop/Idle.antt =====
-- What the calls of callbacks do to the idle list of event-loop.c, and the end of the destroy list.
use chaconne.Prelude.{
  ℕ, ◌+◌, ◌≤◌, ◌≡◌, refl, sym, ap, ◌∙◌, Bool, false, List, [], ◌∷◌, ◌++◌, arith, length, get_elem?,
  Option-cases, Bool-cases, inl, inr, append_assoc, append-nil,
}
use chaconne.EventLoop.{
  Source, Loop, Events, Callbacks, event_loop_add_fd, event_loop_add_timer, event_loop_add_signal,
  count, without, close_source, touch, add_source, event_source_remove, Action, add_fd, add_timer,
  add_signal, add_idle, remove, perform, perform_all, free_sources, event_loop_process_destroy_list,
}
use chaconne.EventLoop.Counts.{count-append, count_one, length-without, without_comm}
use chaconne.EventLoop.Invariant.{IsLoop, touch_lem}

abbrev pub IsQuiet : Action → Type 0
IsQuiet add_idle = ⊥
IsQuiet _ = Unit {0}

abbrev pub AllQuiet : List Action → Type 0
AllQuiet [] = Unit {0}
AllQuiet (a ∷ actions) = IsQuiet a × AllQuiet actions

-- The callbacks add no idle source.
abbrev pub IsSettled : Callbacks → Type 0
IsSettled callbacks = (l : Loop) (id : ℕ) (events : Events) → AllQuiet (callbacks l id events)

-- No idle source is added, and those that go are gone for good.
pub record Shrinks (l m : Loop) : Type 0 where
  pub rest : (id : ℕ) → length (without id m.idle_list) ≤ length (without id l.idle_list)
  pub whole : length m.idle_list ≤ length l.idle_list

same_idle : (l m : Loop) → m.idle_list ≡ l.idle_list → Shrinks l m
same_idle l m e = record { rest = λ id. rw e (omega arith); whole = omega (arith, ap length e) }

pub idle_list-remove :
    (id : ℕ) (l : Loop) → (event_source_remove id l).idle_list ≡ without id l.idle_list
unfolding event_source_remove touch close_source
idle_list-remove id l = elim (Option-cases (get_elem? l.sources id)) [
  | inl absent ↦ rw (close_source, absent)
  | inr (s, e) ↦ elim (Option-cases s.fd) [
    | inl closed ↦ rw (close_source, e, closed)
    | inr (fd, open_fd) ↦ rw (close_source, e, open_fd)
  ]
]

idle_list-add_source :
    (w : Bool) (s : Source) (l : Loop) → (add_source w s l).idle_list ≡ l.idle_list
unfolding add_source
idle_list-add_source w s l = elim (Option-cases s.fd) [
  | inl closed ↦ rw (add_source, closed)
  | inr (fd, e) ↦ elim (Bool-cases w) [
    | inr refused ↦ rw (add_source, e, refused)
    | inl watched ↦ rw (add_source, e, watched)
  ]
]

Shrinks-perform : (a : Action) (l : Loop) → IsQuiet a → Shrinks l (perform a l)
unfolding perform event_loop_add_fd event_loop_add_timer event_loop_add_signal
Shrinks-perform (add_fd fd nodupfd dup w) l q = same_idle l _ (idle_list-add_source w _ l)
Shrinks-perform (add_timer fd w) l q = same_idle l _ (idle_list-add_source w _ l)
Shrinks-perform (add_signal fd w) l q = same_idle l _ (idle_list-add_source w _ l)
Shrinks-perform add_idle l q = absurd q
Shrinks-perform (remove id) l q = record {
  rest = λ j.
      rw (idle_list-remove id l, without_comm j id l.idle_list)
        (length-without id (without j l.idle_list));
  whole = rw (idle_list-remove id l) (length-without id l.idle_list);
}

pub Shrinks-perform_all :
    (actions : List Action) (l : Loop) → AllQuiet actions → Shrinks l (perform_all actions l)
unfolding perform_all
Shrinks-perform_all [] l q = same_idle l l refl
Shrinks-perform_all (a ∷ actions) l q =
    let first = Shrinks-perform a l q.0 in
    let more = Shrinks-perform_all actions (perform a l) q.1 in
    record {
      rest = λ id. omega (arith, first.rest id, more.rest id);
      whole = omega (arith, first.whole, more.whole);
    }

free_sources_lem :
    (ids : List ℕ) (l : Loop)
    → l.misused ≡ false
    → ((id : ℕ) → count id ids + count id l.freed ≤ 1)
    → free_sources ids l ≡ record l { freed = l.freed ++ ids }
unfolding free_sources
free_sources_lem [] l c once = ap (λ f. record l { freed = f }) (sym (append-nil l.freed))
free_sources_lem (id ∷ ids) l c once =
    let front =
      λ (j : ℕ). count-append j (id ∷ []) ids ∙ ap (λ x. x + count j ids) (count_one j id) in
    let unfreed : count id l.freed ≡ 0 = ground (arith, front id, once id) in
    ap (λ t. free_sources ids (record t { freed = t.freed ++ id ∷ [] })) (touch_lem id l unfreed c)
    ∙ (free_sources_lem ids (record l { freed = l.freed ++ id ∷ [] }) c
          (λ j. omega (arith, front j, once j, count-append j l.freed (id ∷ []), count_one j id))
        ∙ ap (λ f. record l { freed = f }) (append_assoc l.freed (id ∷ []) ids))

pub process_destroy-IsLoop :
    (l : Loop)
    → IsLoop l
    → IsLoop (event_loop_process_destroy_list l)
      × ((event_loop_process_destroy_list l).idle_list ≡ l.idle_list)
unfolding event_loop_process_destroy_list count
process_destroy-IsLoop l k =
    rw (free_sources_lem l.destroy_list l k.clean (λ id. omega (arith, k.once id))) (
      record {
        once = λ id. omega (arith, k.once id, count-append id l.freed l.destroy_list);
        fresh = λ id h. omega (arith, k.fresh id h, count-append id l.freed l.destroy_list);
        alive = λ id h. omega (arith, k.alive id h, count-append id l.freed l.destroy_list);
        watched = k.watched;
        clean = k.clean;
      },
      refl,
    )

-- ===== src/EventLoop/Dispatch.antt =====
-- `event_loop_dispatch` of event-loop.c: no freed source is read, and no idle source is left waiting.
use mathlib.Core.Path.{subst}
use chaconne.Prelude.{
  ℕ, zero, suc, ◌≤◌, ◌<◌, ◌≡◌, refl, sym, ap, ◌∙◌, Bool, true, false, List, [], ◌∷◌, ◌++◌, Option,
  none, some, arith, ltb, length, Option-cases, Bool-cases, List-cases, inl, inr,
}
use chaconne.EventLoop.{
  Loop, Events, Callbacks, no_events, count, without, fd_of, touch, event_source_remove,
  perform_all, event_loop_process_destroy_list, call, event_loop_dispatch_idle, dispatch_ready,
  event_loop_dispatch,
}
use chaconne.EventLoop.Counts.{length-without}
use chaconne.EventLoop.Invariant.{
  IsLoop, held, touch_lem, remove-IsLoop, AllowedAll, Keeps, perform_all-IsLoop,
}
use chaconne.EventLoop.Idle.{
  IsSettled, Shrinks, idle_list-remove, Shrinks-perform_all, process_destroy-IsLoop,
}

-- The callbacks remove only sources that exist and are not freed.
abbrev pub IsCareful : Callbacks → Type 0
IsCareful callbacks =
    (l : Loop) (id : ℕ) (events : Events) → IsLoop l → AllowedAll (callbacks l id events) l

-- Sources that epoll watches.
abbrev pub Polled : List (ℕ × Events) → Loop → Type 0
Polled [] l = Unit {0}
Polled ((id, events) ∷ ready) l = (0 < count id l.polled) × Polled ready l

module _ (callbacks : Callbacks) (careful : IsCareful callbacks) where
  call-IsLoop :
      (id : ℕ) (events : Events) (l : Loop)
      → IsLoop l
      → count id l.freed ≡ 0
      → IsLoop (call callbacks id events l) × Keeps l (call callbacks id events l)
  unfolding call
  call-IsLoop id events l k unfreed =
      let entered = record l { called = l.called ++ id ∷ [] } in
      let ready : IsLoop entered = record {
        once = k.once;
        fresh = k.fresh;
        alive = k.alive;
        watched = k.watched;
        clean = k.clean;
      } in
      let (done, kept) =
        perform_all-IsLoop (callbacks entered id events) entered ready
          (careful entered id events ready) in
      subst
        (λ t.
          let e = record t { called = t.called ++ id ∷ [] } in
          IsLoop (perform_all (callbacks e id events) e)
          × Keeps l (perform_all (callbacks e id events) e))
        (sym (touch_lem id l unfreed k.clean))
        (done, record { freed = kept.freed; longer = kept.longer })

  call-Shrinks :
      (id : ℕ) (events : Events) (l : Loop)
      → IsSettled callbacks
      → Shrinks l (call callbacks id events l)
  unfolding call touch
  call-Shrinks id events l settled =
      let touched = touch id l in
      let entered = record touched { called = l.called ++ id ∷ [] } in
      let s =
        Shrinks-perform_all (callbacks entered id events) entered (settled entered id events) in
      record { rest = s.rest; whole = s.whole }

  exists : (id : ℕ) (l : Loop) → IsLoop l → 0 < held id l → id < length l.sources
  exists id l k h = elim (Bool-cases (ltb id (length l.sources))) [
    | inl lt ↦ ground (arith, lt)
    | inr ge ↦ absurd (ground (arith, k.fresh id, ge, h))
  ]

  head_count : (id : ℕ) (ids : List ℕ) → 0 < count id (id ∷ ids)
  unfolding count
  head_count id ids = ground arith

  head_without : (id : ℕ) (ids : List ℕ) → length (without id (id ∷ ids)) ≤ length ids
  unfolding without
  head_without id ids = ground (arith, length-without id ids)

  idle_round :
      (l : Loop) (id : ℕ) (ids : List ℕ)
      → IsLoop l
      → l.idle_list ≡ id ∷ ids
      → IsLoop (event_source_remove id (call callbacks id no_events l))
  idle_round l id ids k e =
      let waits : 0 < count id l.idle_list = rw e (head_count id ids) in
      let (called, kept) = call-IsLoop id no_events l k (omega (arith, k.once id, waits)) in
      remove-IsLoop id (call callbacks id no_events l) called
        (omega (arith, exists id l k (omega (arith, waits)), kept.longer))
        (ap (count id) kept.freed ∙ omega (arith, k.once id, waits))

  -- A round of the loop, by the idle list.
  abbrev round : ℕ → Loop → List ℕ → Option Loop
  round n l [] = some l
  round n l (id ∷ ids) =
      event_loop_dispatch_idle callbacks n (event_source_remove id (call callbacks id no_events l))

  -- Every idle source is called or removed.
  dispatch_idle-all :
      (n : ℕ) (l : Loop)
      → IsLoop l
      → IsSettled callbacks
      → length l.idle_list ≤ n
      → (m : Loop) × (event_loop_dispatch_idle callbacks n l ≡ some m)
        × IsLoop m
        × (m.idle_list ≡ [])
  unfolding event_loop_dispatch_idle
  dispatch_idle-all zero l k settled fuel = elim (List-cases l.idle_list) [
    | inl none_left ↦ (
      l,
      ap (λ xs. elim xs as (λ _. Option Loop) [ [] ↦ some l | id ∷ ids ↦ none ]) none_left,
      k,
      none_left,
    )
    | inr (id, ids, e) ↦ absurd (omega (arith, ap length e, fuel))
  ]
  dispatch_idle-all (suc n) l k settled fuel = elim (List-cases l.idle_list) [
    | inl none_left ↦ (l, ap (round n l) none_left, k, none_left)
    | inr (id, ids, e) ↦
        let next = event_source_remove id (call callbacks id no_events l) in
        let s = call-Shrinks id no_events l settled in
        let fewer : length next.idle_list ≤ n = omega (
          arith,
          ap length (idle_list-remove id (call callbacks id no_events l)),
          s.rest id,
          ap (λ x. length (without id x)) e,
          head_without id ids,
          ap length e,
          fuel,
        ) in
        let (m, done, ok, none_left) =
          dispatch_idle-all n next (idle_round l id ids k e) settled fewer in
        (m, ap (round n l) e ∙ done, ok, none_left)
  ]

  -- Sources that are not freed.
  abbrev Unfreed : List (ℕ × Events) → Loop → Type 0
  Unfreed [] l = Unit {0}
  Unfreed ((id, events) ∷ ready) l = (count id l.freed ≡ 0) × Unfreed ready l

  Unfreed-Keeps :
      (ready : List (ℕ × Events)) (l m : Loop)
      → m.freed ≡ l.freed
      → Unfreed ready l
      → Unfreed ready m
  Unfreed-Keeps [] l m e u = tt
  Unfreed-Keeps ((id, events) ∷ ready) l m e u =
      (ap (count id) e ∙ u.0, Unfreed-Keeps ready l m e u.1)

  nothing_left : (xs : List ℕ) → length xs ≤ 0 → xs ≡ []
  nothing_left [] h = refl
  nothing_left (x ∷ xs) h = absurd (omega arith)

  -- A round of the loop over the ready sources, at a source that was read.
  abbrev ready_round : ℕ → Events → List (ℕ × Events) → Loop → Loop
  ready_round id events ready t = elim (fd_of t.sources id) [
    | none ↦ dispatch_ready callbacks ready t
    | some fd ↦ dispatch_ready callbacks ready (call callbacks id events t)
  ]

  dispatch_ready-IsLoop :
      (ready : List (ℕ × Events)) (l : Loop)
      → IsLoop l
      → IsSettled callbacks
      → Unfreed ready l
      → l.idle_list ≡ []
      → IsLoop (dispatch_ready callbacks ready l)
        × ((dispatch_ready callbacks ready l).idle_list ≡ [])
  unfolding dispatch_ready
  dispatch_ready-IsLoop [] l k settled u e = (k, e)
  dispatch_ready-IsLoop ((id, events) ∷ ready) l k settled u e =
      subst
        (λ t.
          IsLoop (ready_round id events ready t) × ((ready_round id events ready t).idle_list ≡ []))
        (sym (touch_lem id l u.0 k.clean))
        (elim (Option-cases (fd_of l.sources id)) [
          | inl closed ↦ rw (ready_round, closed) (dispatch_ready-IsLoop ready l k settled u.1 e)
          | inr (fd, open_fd) ↦
              let (done, kept) = call-IsLoop id events l k u.0 in
              let s = call-Shrinks id events l settled in
              rw (ready_round, open_fd)
                (dispatch_ready-IsLoop ready (call callbacks id events l) done settled
                  (Unfreed-Keeps ready l (call callbacks id events l) kept.freed u.1)
                  (nothing_left (call callbacks id events l).idle_list
                    (omega (arith, s.whole, ap length e))))
        ])

  Unfreed-Polled :
      (ready : List (ℕ × Events)) (l : Loop) → IsLoop l → Polled ready l → Unfreed ready l
  Unfreed-Polled [] l k p = tt
  Unfreed-Polled ((id, events) ∷ ready) l k p =
      (omega (arith, k.alive id p.0), Unfreed-Polled ready l k p.1)

  -- For a loop in order, with as many rounds as idle sources wait, callbacks that remove only sources
  -- that exist and are not freed and add no idle source, and an `epoll_wait` that fails or gives
  -- sources that it watches: `event_loop_dispatch` ends, reads no freed source and frees none twice,
  -- leaves no idle source waiting, and keeps the loop in order.
  pub event_loop_dispatch-IsLoop :
      (epoll_wait : Loop → Option (List (ℕ × Events))) (n : ℕ) (l : Loop)
      → IsSettled callbacks
      → ((m : Loop) (ready : List (ℕ × Events)) → epoll_wait m ≡ some ready → Polled ready m)
      → IsLoop l
      → length l.idle_list ≤ n
      → (m : Loop) × (ok : Bool) × (event_loop_dispatch callbacks epoll_wait n l ≡ some (m, ok))
        × IsLoop m
        × (m.misused ≡ false)
        × (m.idle_list ≡ [])
  unfolding event_loop_dispatch
  event_loop_dispatch-IsLoop epoll_wait n l settled watches k fuel =
      let (waiting, first, k', none_left) = dispatch_idle-all n l k settled fuel in
      elim (Option-cases (epoll_wait waiting)) [
        | inl failed ↦
            (waiting, false, rw (event_loop_dispatch, first, failed), k', k'.clean, none_left)
        | inr (ready, e) ↦
            let (called, still_none) =
              dispatch_ready-IsLoop ready waiting k' settled
                (Unfreed-Polled ready waiting k' (watches waiting ready e)) none_left in
            let (freed, same) =
              process_destroy-IsLoop (dispatch_ready callbacks ready waiting) called in
            let (m, last, ok, none_now) =
              dispatch_idle-all n
                (event_loop_process_destroy_list (dispatch_ready callbacks ready waiting)) freed
                settled (omega (arith, ap length (same ∙ still_none))) in
            (m, true, rw (event_loop_dispatch, first, e, last), ok, ok.clean, none_now)
      ]

-- ===== src/EventLoop/Invariant.antt =====
-- The invariant of the loop of event-loop.c, kept by the operations that a callback can make.
use chaconne.Prelude.{
  ℕ, ◌+◌, ◌≤◌, ◌<◌, ◌≡◌, refl, ap, ◌∙◌, Bool, true, false, ◌||◌, List, [], ◌∷◌, ◌++◌, none, arith,
  ◌==◌, ltb, if◌then◌else◌, length, length-append, length-set, get_elem?, Option-cases, Bool-cases,
  inl, inr,
}
use chaconne.EventLoop.{
  Source, Loop, new_loop, idle_source, event_loop_add_fd, event_loop_add_timer,
  event_loop_add_signal, count, without, fd_of, close_source, touch, add_source,
  event_loop_add_idle, event_source_remove, Action, add_fd, add_timer, add_signal, add_idle, remove,
  perform, perform_all,
}
use chaconne.EventLoop.Counts.{
  count-append, count_one, count-without, fd_of-append, Closed, close_source-Closed,
}

-- How often a source stands in the lists, and among the freed.
abbrev pub held : ℕ → Loop → ℕ
held id l = count id l.idle_list + count id l.destroy_list + count id l.freed

-- Every source is in one list at most and then not freed, or freed at most once; only sources that
-- exist are; those that epoll watches have a descriptor, and are neither freed nor about to be; and
-- no freed source was ever read.
pub record IsLoop (l : Loop) : Type 0 where
  pub once : (id : ℕ) → held id l ≤ 1
  pub fresh : (id : ℕ) → length l.sources ≤ id → held id l + count id l.polled ≡ 0
  pub alive : (id : ℕ) → 0 < count id l.polled → count id l.destroy_list + count id l.freed ≡ 0
  pub watched : (id : ℕ) → fd_of l.sources id ≡ none → count id l.polled ≡ 0
  pub clean : l.misused ≡ false

pub new_loop-IsLoop : IsLoop new_loop
unfolding count
new_loop-IsLoop = record {
  once = λ id. omega arith;
  fresh = λ id h. refl;
  alive = λ id h. refl;
  watched = λ id h. refl;
  clean = refl;
}

pub touch_lem : (id : ℕ) (l : Loop) → count id l.freed ≡ 0 → l.misused ≡ false → touch id l ≡ l
unfolding touch
touch_lem id l h c =
    let e : l.misused || ltb 0 (count id l.freed) ≡ l.misused = ground (arith, h, c) in
    ap (λ b. record l { misused = b }) e

add_source-IsLoop : (w : Bool) (s : Source) (l : Loop) → IsLoop l → IsLoop (add_source w s l)
unfolding add_source
add_source-IsLoop w s l k = elim (Option-cases s.fd) [
  | inl closed ↦ rw (add_source, closed) k
  | inr (fd, e) ↦ elim (Bool-cases w) [
    | inr refused ↦ rw (add_source, e, refused) k
    | inl watched ↦
        let n = length l.sources in
        let polls = λ (id : ℕ).
          count-append id l.polled (n ∷ []) ∙ ap (λ x. count id l.polled + x) (count_one id n) in
        rw (add_source, e, watched)
          (record {
            once = k.once;
            fresh =
                λ id h. ground (arith, polls id, k.fresh id, h, length-append l.sources (s ∷ []));
            alive = λ id h. ground (arith, polls id, k.fresh id, k.alive id, h);
            watched =
                λ id h. ground (arith, polls id, k.watched id, h, fd_of-append l.sources s id, e);
            clean = k.clean;
          })
  ]
]

add_idle-IsLoop : (l : Loop) → IsLoop l → IsLoop (event_loop_add_idle l)
unfolding event_loop_add_idle
add_idle-IsLoop l k =
    let n = length l.sources in
    let idles = λ (id : ℕ).
      count-append id l.idle_list (n ∷ []) ∙ ap (λ x. count id l.idle_list + x) (count_one id n) in
    let s : Source = record { interface = idle_source; fd = none } in
    record {
      once = λ id. ground (arith, idles id, k.fresh id, k.once id);
      fresh = λ id h. ground (arith, idles id, k.fresh id, h, length-append l.sources (s ∷ []));
      alive = k.alive;
      watched = λ id h. ground (arith, k.watched id, k.fresh id, h, fd_of-append l.sources s id);
      clean = k.clean;
    }

pub remove-IsLoop :
    (id : ℕ) (l : Loop)
    → IsLoop l
    → id < length l.sources
    → count id l.freed ≡ 0
    → IsLoop (event_source_remove id l)
unfolding event_source_remove
remove-IsLoop id l k exists unfreed =
    rw (touch_lem id l unfreed k.clean) (removed (close_source-Closed id l (k.watched id)))
  where
    removed :
        Closed id l (close_source id l)
        → IsLoop (record (close_source id l) {
          idle_list = without id (close_source id l).idle_list;
          destroy_list = without id (close_source id l).destroy_list ++ id ∷ [];
        })
    removed c =
        let idles = λ (j : ℕ).
          ap (λ xs. count j (without id xs)) c.idle_list ∙ count-without j id l.idle_list in
        let destroys = λ (j : ℕ).
          ap (λ xs. count j (without id xs ++ id ∷ [])) c.destroy_list
          ∙ count-append j (without id l.destroy_list) (id ∷ [])
          ∙ ap (λ x. x + count j (id ∷ [])) (count-without j id l.destroy_list)
          ∙ ap (λ x. (if j == id then 0 else count j l.destroy_list) + x) (count_one j id) in
        let frees = λ (j : ℕ). ap (count j) c.freed in
        record {
          once = λ j.
              ground
                (arith, idles j, destroys j, frees j, k.once j, unfreed, same_count j id l.freed);
          fresh = λ j h.
              ground
                (arith, idles j, destroys j, frees j, c.polled j, c.size, exists, k.fresh j, h);
          alive = λ j h. ground (arith, destroys j, frees j, c.polled j, k.alive j, h);
          watched = λ j h. ground (arith, c.polled j, c.others j, k.watched j, h);
          clean = c.misused ∙ k.clean;
        }
      where
        same_count : (j i : ℕ) (xs : List ℕ) → (j == i) ≡ true → count j xs ≡ count i xs
        same_count j i xs h = let e : j ≡ i = ground (arith, h) in ap (λ x. count x xs) e

-- A callback may remove only a source that exists and is not freed.
abbrev pub Allowed : Action → Loop → Type 0
Allowed (remove id) l = (id < length l.sources) × (count id l.freed ≡ 0)
Allowed _ l = Unit {0}

abbrev pub AllowedAll : List Action → Loop → Type 0
AllowedAll [] l = Unit {0}
AllowedAll (a ∷ actions) l = Allowed a l × AllowedAll actions (perform a l)

pub perform-IsLoop : (a : Action) (l : Loop) → IsLoop l → Allowed a l → IsLoop (perform a l)
unfolding perform event_loop_add_fd event_loop_add_timer event_loop_add_signal
perform-IsLoop (add_fd fd nodupfd dup w) l k h = add_source-IsLoop w _ l k
perform-IsLoop (add_timer fd w) l k h = add_source-IsLoop w _ l k
perform-IsLoop (add_signal fd w) l k h = add_source-IsLoop w _ l k
perform-IsLoop add_idle l k h = add_idle-IsLoop l k
perform-IsLoop (remove id) l k h = remove-IsLoop id l k h.0 h.1

-- What every operation of a callback leaves: nothing is freed, and no source goes away.
pub record Keeps (l m : Loop) : Type 0 where
  pub freed : m.freed ≡ l.freed
  pub longer : length l.sources ≤ length m.sources

pub Keeps-remove : (id : ℕ) (l : Loop) → Keeps l (event_source_remove id l)
unfolding event_source_remove touch close_source
Keeps-remove id l = elim (Option-cases (get_elem? l.sources id)) [
  | inl absent ↦ rw (close_source, absent) (record { freed = refl; longer = omega arith })
  | inr (s, e) ↦ elim (Option-cases s.fd) [
    | inl closed ↦ rw (close_source, e, closed) (record { freed = refl; longer = omega arith })
    | inr (fd, open_fd) ↦
        rw (close_source, e, open_fd)
          (record { freed = refl; longer = omega (arith, length-set l.sources id) })
  ]
]

Keeps-add_source : (w : Bool) (s : Source) (l : Loop) → Keeps l (add_source w s l)
unfolding add_source
Keeps-add_source w s l = elim (Option-cases s.fd) [
  | inl closed ↦ rw (add_source, closed) (record { freed = refl; longer = omega arith })
  | inr (fd, e) ↦ elim (Bool-cases w) [
    | inr refused ↦ rw (add_source, e, refused) (record { freed = refl; longer = omega arith })
    | inl watched ↦
        rw (add_source, e, watched)
          (record { freed = refl; longer = omega (arith, length-append l.sources (s ∷ [])) })
  ]
]

pub Keeps-perform : (a : Action) (l : Loop) → Keeps l (perform a l)
unfolding perform event_loop_add_fd event_loop_add_timer event_loop_add_signal event_loop_add_idle
Keeps-perform (add_fd fd nodupfd dup w) l = Keeps-add_source w _ l
Keeps-perform (add_timer fd w) l = Keeps-add_source w _ l
Keeps-perform (add_signal fd w) l = Keeps-add_source w _ l
Keeps-perform add_idle l = record {
  freed = refl;
  longer =
      omega (arith, length-append l.sources (record { interface = idle_source; fd = none } ∷ []));
}
Keeps-perform (remove id) l = Keeps-remove id l

pub perform_all-IsLoop :
    (actions : List Action) (l : Loop)
    → IsLoop l
    → AllowedAll actions l
    → IsLoop (perform_all actions l) × Keeps l (perform_all actions l)
unfolding perform_all
perform_all-IsLoop [] l k h = (k, record { freed = refl; longer = omega arith })
perform_all-IsLoop (a ∷ actions) l k h =
    let first = Keeps-perform a l in
    let (done, rest) = perform_all-IsLoop actions (perform a l) (perform-IsLoop a l k h.0) h.1 in
    (
      done,
      record {
        freed = rest.freed ∙ first.freed;
        longer = omega (arith, first.longer, rest.longer);
      },
    )

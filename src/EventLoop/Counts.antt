-- ===== src/EventLoop/Counts.antt =====
-- How often the sources of event-loop.c stand in its lists, as the operations change them.
use chaconne.Prelude.{
  ℕ, zero, suc, ◌+◌, ◌≤◌, ◌≡◌, refl, ap, ◌∙◌, false, List, [], ◌∷◌, ◌++◌, Option, none, some, arith,
  ◌==◌, if◌then◌else◌, length, length-set, get_elem?, get_elem?-set_ne, Option-cases, Bool-cases,
  inl, inr,
}
use chaconne.EventLoop.{Source, Loop, count, without, fd_of, close_source}

pub count-append : (id : ℕ) (xs ys : List ℕ) → count id (xs ++ ys) ≡ count id xs + count id ys
unfolding count
count-append id [] ys = omega arith
count-append id (x ∷ xs) ys = ground (arith, count-append id xs ys)

pub count_one : (id j : ℕ) → count id (j ∷ []) ≡ (if id == j then 1 else 0)
unfolding count
count_one id j = ground arith

pub count-without :
    (id j : ℕ) (xs : List ℕ) → count id (without j xs) ≡ (if id == j then 0 else count id xs)
unfolding count without
count-without id j [] = ground arith
count-without id j (x ∷ xs) = ground (arith, count-without id j xs)

pub length-without : (id : ℕ) (xs : List ℕ) → length (without id xs) ≤ length xs
unfolding without
length-without id [] = omega arith
length-without id (x ∷ xs) = ground (arith, length-without id xs)

pub without_comm : (id j : ℕ) (xs : List ℕ) → without id (without j xs) ≡ without j (without id xs)
unfolding without
without_comm id j [] = refl
without_comm id j (x ∷ xs) = ground (arith, without_comm id j xs)

get_elem?-append :
    (xs : List Source) (s : Source) (i : ℕ)
    → get_elem? (xs ++ s ∷ []) i ≡ (if i == length xs then some s else get_elem? xs i)
get_elem?-append [] s zero = refl
get_elem?-append [] s (suc i) = ground arith
get_elem?-append (x ∷ xs) s zero = ground arith
get_elem?-append (x ∷ xs) s (suc i) = get_elem?-append xs s i ∙ ground arith

pub fd_of-append :
    (xs : List Source) (s : Source) (i : ℕ)
    → fd_of (xs ++ s ∷ []) i ≡ (if i == length xs then s.fd else fd_of xs i)
unfolding fd_of
fd_of-append xs s i =
    rw (fd_of, get_elem?-append xs s i)
      (elim (Bool-cases (i == length xs)) [ inl new ↦ rw new | inr old ↦ rw old ])

-- What is left after the descriptor of a source is closed.
pub record Closed (id : ℕ) (l m : Loop) : Type 0 where
  pub size : length m.sources ≡ length l.sources
  pub others : (j : ℕ) → (j == id) ≡ false → fd_of m.sources j ≡ fd_of l.sources j
  pub polled : ((j : ℕ) → count j m.polled ≡ (if j == id then 0 else count j l.polled))
  pub idle_list : m.idle_list ≡ l.idle_list
  pub destroy_list : m.destroy_list ≡ l.destroy_list
  pub freed : m.freed ≡ l.freed
  pub misused : m.misused ≡ l.misused

pub close_source-Closed :
    (id : ℕ) (l : Loop)
    → (fd_of l.sources id ≡ none → count id l.polled ≡ 0)
    → Closed id l (close_source id l)
unfolding close_source fd_of
close_source-Closed id l none_polled = elim (Option-cases (get_elem? l.sources id)) [
  | inl absent ↦ rw (close_source, absent) (untouched (none_polled (rw (fd_of, absent))))
  | inr (s, e) ↦ elim (Option-cases s.fd) [
    | inl closed ↦ rw (close_source, e, closed) (untouched (none_polled (rw (fd_of, e, closed))))
    | inr (fd, open_fd) ↦
        rw (close_source, e, open_fd)
          (record {
            size = length-set l.sources id _;
            others = λ j ne.
                ap (λ o. elim o as (λ _. Option ℕ) [ none ↦ none | some x ↦ x.fd ])
                  (get_elem?-set_ne l.sources _ (λ p. ground (arith, p, ne)));
            polled = λ j. count-without j id l.polled;
            idle_list = refl;
            destroy_list = refl;
            freed = refl;
            misused = refl;
          })
  ]
]
  where
    untouched : count id l.polled ≡ 0 → Closed id l l
    untouched z = record {
      size = refl;
      others = λ j ne. refl;
      polled = λ j. elim (Bool-cases (j == id)) [
        | inl same ↦
            (let e : j ≡ id = ground (arith, same) in rw same (ap (λ x. count x l.polled) e ∙ z))
        | inr ne ↦ rw ne
      ];
      idle_list = refl;
      destroy_list = refl;
      freed = refl;
      misused = refl;
    }

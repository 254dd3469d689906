-- ===== src/Examples/FairQueue.antt =====
-- A queue with the documented behaviour: items wait in line, and an item that is added while a worker holds
-- it waits until the worker is done.
use mpi_operator.Prelude.{
  ◌≡◌, ◌∙◌, refl, ap, sym, subst, ◌⊎◌, inl, inr, Bool, true, false, not, ◌&&◌, ◌||◌, Option, none,
  some, List, [], ◌∷◌, ◌++◌, ◌==◌, eq_iff, arith,
}
use mpi_operator.Prelude.Tests.{if◌then◌else◌, Bool-cases}
use mpi_operator.Queue.{Item, key, other, WorkQueue}
use mpi_operator.Queue.Laws.{HandedOut, now, later, PendingLaws}

abbrev pub same : Item → Item → Bool
same (key a) (key b) = a == b
same (key a) (other b) = false
same (other a) (key b) = false
same (other a) (other b) = a == b

same-path : (i k : Item) → same i k ≡ true → i ≡ k
same-path (key a) (key b) h = ap key ((eq_iff a b).0 h)
same-path (key a) (other b) h = cc
same-path (other a) (key b) h = cc
same-path (other a) (other b) h = ap other ((eq_iff a b).0 h)

same_self : (i : Item) → same i i ≡ true
same_self (key a) = (eq_iff a a).1 refl
same_self (other a) = (eq_iff a a).1 refl

unfoldable pub mem : Item → List Item → Bool
mem k [] = false
mem k (i ∷ q) = let rest = mem k q in same i k || rest

unfoldable pub remove : Item → List Item → List Item
remove i [] = []
remove i (k ∷ q) = let rest = remove i q in if same i k then rest else k ∷ rest

mem-append : (i k : Item) (q : List Item) → mem k (q ++ i ∷ []) ≡ (mem k q || same i k)
unfolding mem
mem-append i k [] = ground arith
mem-append i k (j ∷ q) = ground (arith, mem-append i k q)

-- The test reads only the item.
same_both : (i j k : Item) → same i k ≡ true → same j k ≡ true → same i j ≡ true
same_both i j k ik jk = subst (λ x. same i x ≡ true) (sym (same-path j k jk)) ik

same_as : (i j k : Item) → same i j ≡ true → same i k ≡ same j k
same_as i j k ij = ap (λ x. same x k) (same-path i j ij)

mem-remove : (i k : Item) (q : List Item) → mem k (remove i q) ≡ (not (same i k) && mem k q)
unfolding mem remove
mem-remove i k [] = ground arith
mem-remove i k (j ∷ q) = ground (arith, mem-remove i k q, same_both i j k, same_as i j k)

pub record Line : Type 0 where
  pub waiting : List Item
  pub again : List Item
  pub held : List Item

unfoldable pub next_of : List Item → Line → Option (Item × Line)
next_of [] q = none
next_of (i ∷ rest) q = some (i, record q { waiting = rest; held = i ∷ q.held })

unfoldable pub get_next : Line → Option (Item × Line)
unfolding next_of
get_next q = next_of q.waiting q

unfoldable pub add_last : Item → Line → Line
add_last i q =
    if mem i q.held
    then record q { again = i ∷ q.again }
    else if mem i q.waiting
    then q
    else record q { waiting = q.waiting ++ i ∷ [] }

unfoldable pub release : Item → Line → Line
release i q = record {
  waiting = if mem i q.again then q.waiting ++ i ∷ [] else q.waiting;
  again = remove i q.again;
  held = remove i q.held;
}

abbrev pub fair_queue : WorkQueue
fair_queue = record {
  Queue = Line;
  get = get_next;
  done = release;
  forget = λ i q. q;
  add_rate_limited = add_last;
}

abbrev pub IsMarked : Line → Item → Type 0
IsMarked q k = (mem k q.waiting || (mem k q.again && mem k q.held)) ≡ true

abbrev pub IsHeld : Line → Item → Type 0
IsHeld q k = mem k q.held ≡ true

add_last-IsMarked : (i : Item) (q : Line) → IsMarked (add_last i q) i
unfolding add_last mem
add_last-IsMarked i q = ground (arith, same_self i, mem-append i i q.waiting)

add_last-keeps : (i k : Item) (q : Line) → IsMarked q k → IsMarked (add_last i q) k
unfolding add_last mem
add_last-keeps i k q h = ground (arith, mem-append i k q.waiting)

add_last-IsHeld : (i k : Item) (q : Line) → IsHeld (add_last i q) k → IsHeld q k
unfolding add_last
add_last-IsHeld i k q h = ground arith

release-keeps : (i k : Item) (q : Line) → IsMarked q k → IsMarked (release i q) k
unfolding release
release-keeps i k q h = ground (
  arith,
  mem-append i k q.waiting,
  mem-remove i k q.again,
  mem-remove i k q.held,
  λ (e : same i k ≡ true). ap (λ x. mem x q.again) (same-path i k e),
)

release-IsHeld : (i k : Item) (q : Line) → IsHeld (release i q) k → IsHeld q k
unfolding release
release-IsHeld i k q h = ground (arith, mem-remove i k q.held)

released : (i : Item) (q : Line) → ¬ IsHeld (release i q) i
unfolding release
released i q h = ground (arith, mem-remove i i q.held, same_self i)

-- What a Get does to the line.
record IsTaken (i : Item) (waiting : List Item) (q rest : Line) : Type 0 where
  first : waiting ≡ i ∷ rest.waiting
  same_again : rest.again ≡ q.again
  now_held : rest.held ≡ i ∷ q.held

next_of-IsTaken :
    (i : Item) (waiting : List Item) (q rest : Line)
    → next_of waiting q ≡ some (i, rest)
    → IsTaken i waiting q rest
unfolding next_of
next_of-IsTaken i [] q rest e = cc
next_of-IsTaken i (j ∷ l) q rest e =
    let is : j ≡ i = cc in
    let line : record q { waiting = l; held = j ∷ q.held } ≡ rest = cc in
    record {
      first = λ t. is t ∷ (line t).waiting;
      same_again = λ t. (sym line t).again;
      now_held = (λ t. (sym line t).held) ∙ ap (λ x. x ∷ q.held) is;
    }

get_next-keeps :
    (i k : Item) (q rest : Line)
    → get_next q ≡ some (i, rest)
    → IsMarked q k
    → (i ≡ k) ⊎ IsMarked rest k
unfolding get_next mem
get_next-keeps i k q rest e h =
    let t = next_of-IsTaken i q.waiting q rest e in
    elim (Bool-cases (same i k)) [
      | inl is ↦ inl (same-path i k is)
      | inr differ ↦ inr (rw t.same_again (rw t.now_held (rw differ (rw (t.first, differ) at h))))
    ]

get_next-IsHeld :
    (i k : Item) (q rest : Line)
    → get_next q ≡ some (i, rest)
    → IsHeld rest k
    → (i ≡ k) ⊎ IsHeld q k
unfolding get_next mem
get_next-IsHeld i k q rest e h =
    let t = next_of-IsTaken i q.waiting q rest e in
    elim (Bool-cases (same i k)) [
      | inl is ↦ inl (same-path i k is)
      | inr differ ↦ inr (rw differ at (rw t.now_held at h))
    ]

handed_out :
    (k : Item) (waiting again held : List Item)
    → mem k waiting ≡ true
    → HandedOut fair_queue k (record { waiting = waiting; again = again; held = held })
unfolding mem get_next next_of
handed_out k [] again held h = cc
handed_out k (i ∷ rest) again held h = elim (Bool-cases (same i k)) [
  | inl is ↦ now (
      ap (λ x. some (x, record { waiting = rest; again = again; held = i ∷ held }))
        (same-path i k is))
  | inr differ ↦ later refl (handed_out k rest again (i ∷ held) (rw differ at h))
]

is_waiting : (k : Item) (q : Line) → IsMarked q k → ¬ IsHeld q k → mem k q.waiting ≡ true
is_waiting k q marked free = ground (arith, free)

pub fair_queue-PendingLaws : PendingLaws fair_queue (λ q. Unit {0}) IsMarked IsHeld
fair_queue-PendingLaws = record {
  add_open = λ i q o. tt;
  done_open = λ i q o. tt;
  forget_open = λ i q o. tt;
  get_open = λ i q rest e o. tt;
  add_marks = λ i q o. add_last-IsMarked i q;
  add_keeps = add_last-keeps;
  done_keeps = release-keeps;
  forget_keeps = λ i k q h. h;
  get_keeps = get_next-keeps;
  add_held = add_last-IsHeld;
  done_held = release-IsHeld;
  done_releases = released;
  forget_held = λ i k q h. h;
  get_held = get_next-IsHeld;
  hands_out =
      λ k q o marked free. handed_out k q.waiting q.again q.held (is_waiting k q marked free);
}

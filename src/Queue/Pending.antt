-- ===== src/Queue/Pending.antt =====
-- No work is lost: the handlers and several workers on one queue.
use mpi_operator.Prelude.{
  refl, String, ◌≡◌, sym, ◌∙◌, ◌≢◌, subst, ◌⊎◌, inl, inr, Bool, true, false, false≢true, not, ◌&&◌,
  ◌||◌, List, ◌==◌, eq_iff,
}
use mpi_operator.Prelude.Tests.{Bool-cases}
use mpi_operator.Outcome.{Error, Outcome, ok, err, panic}
use mpi_operator.Queue.{Item, key, other, WorkQueue, settle}
use mpi_operator.Queue.Laws.{
  HandedOut, PendingLaws, Moment, Reaches, begin, notify, take, settle_item, owes, works_on,
}

module _ (w : WorkQueue) (IsOpen : w.Queue → Type 0) (Marked Held : w.Queue → Item → Type 0)
    (laws : PendingLaws w IsOpen Marked Held) where
  settle-open :
      (i : Item) (result : Outcome (Unit {0})) (q : w.Queue)
      → IsOpen q
      → IsOpen (settle w i result q)
  unfolding settle
  settle-open (other text) result q p = laws.done_open _ _ (laws.forget_open _ q p)
  settle-open (key name) (ok t) q p = laws.done_open _ _ (laws.forget_open _ q p)
  settle-open (key name) (err e) q p = laws.done_open _ _ (laws.add_open _ q p)
  settle-open (key name) panic q p = laws.done_open _ q p

  -- `Forget` or `AddRateLimited`, and `Done`, keep what is marked.
  settle-keeps :
      (i k : Item) (result : Outcome (Unit {0})) (q : w.Queue)
      → Marked q k
      → Marked (settle w i result q) k
  unfolding settle
  settle-keeps (other text) k result q p = laws.done_keeps _ k _ (laws.forget_keeps _ k q p)
  settle-keeps (key name) k (ok t) q p = laws.done_keeps _ k _ (laws.forget_keeps _ k q p)
  settle-keeps (key name) k (err e) q p = laws.done_keeps _ k _ (laws.add_keeps _ k q p)
  settle-keeps (key name) k panic q p = laws.done_keeps _ k q p

  settle-retries :
      (name : String) (e : Error) (q : w.Queue)
      → IsOpen q
      → Marked (settle w (key name) (err e) q) (key name)
  unfolding settle
  settle-retries name e q p = laws.done_keeps _ _ _ (laws.add_marks (key name) q p)

  settle-held :
      (i k : Item) (result : Outcome (Unit {0})) (q : w.Queue)
      → Held (settle w i result q) k
      → Held q k
  unfolding settle
  settle-held (other text) k result q p = laws.forget_held _ k q (laws.done_held _ k _ p)
  settle-held (key name) k (ok t) q p = laws.forget_held _ k q (laws.done_held _ k _ p)
  settle-held (key name) k (err e) q p = laws.add_held _ k q (laws.done_held _ k _ p)
  settle-held (key name) k panic q p = laws.done_held _ k q p

  -- A worker lets go of an item with whatever result.
  settle-releases :
      (i : Item) (result : Outcome (Unit {0})) (q : w.Queue) → ¬ Held (settle w i result q) i
  unfolding settle
  settle-releases (other text) result q = laws.done_releases _ _
  settle-releases (key name) (ok t) q = laws.done_releases _ _
  settle-releases (key name) (err e) q = laws.done_releases _ _
  settle-releases (key name) panic q = laws.done_releases _ q

  -- A test that holds by one of two reasons.
  or_cases :
      (new name : String) (before : Bool)
      → ((new == name) || before) ≡ true
      → (new ≡ name) ⊎ (before ≡ true)
  or_cases new name before h = elim (Bool-cases (new == name)) [
    | inl same ↦ inl ((eq_iff new name).0 same)
    | inr differ ↦ inr (rw differ at h)
  ]

  and_cases :
      (new name : String) (before : Bool)
      → (not (new == name) && before) ≡ true
      → (new ≢ name) × (before ≡ true)
  and_cases new name before h = elim (Bool-cases (new == name)) [
    | inl same ↦ cc (rw same at h)
    | inr differ ↦ (λ e. false≢true (sym differ ∙ (eq_iff new name).1 e), rw differ at h)
  ]

  key-injective : (a b : String) → key a ≡ key b → a ≡ b
  key-injective a b e = cc

  key-differs : (a b : String) → a ≢ b → key a ≢ key b
  key-differs a b differ e = differ (key-injective a b e)

  or_else : {P : Type 0} {i k : Item} → i ≢ k → (i ≡ k) ⊎ P → P
  or_else differ (inl same) = absurd (differ same)
  or_else differ (inr there) = there

  module _ (start : w.Queue) (opened : IsOpen start) where
    stays_open : (q : w.Queue) (h : List Moment) → Reaches w start q h → IsOpen q
    stays_open q h begin = opened
    stays_open q h (notify {q = q'} new r) = laws.add_open _ q' (stays_open q' _ r)
    stays_open q h (take {q = q'} i r e) = laws.get_open i q' q e (stays_open q' _ r)
    stays_open q h (settle_item {q = q'} i x r) = settle-open i x q' (stays_open q' _ r)

    marked_of_owed :
        (q : w.Queue) (h : List Moment) (name : String)
        → Reaches w start q h
        → owes h name ≡ true
        → Marked q (key name)
    unfolding owes
    marked_of_owed q h name begin owed = cc
    marked_of_owed q h name (notify {q = q'} {h = h'} new r) owed =
        elim (or_cases new name (owes h' name) owed) [
          | inl same ↦
              subst (λ n. Marked (w.add_rate_limited (key new) q') (key n)) same
                (laws.add_marks (key new) q' (stays_open q' h' r))
          | inr before ↦ laws.add_keeps _ _ _ (marked_of_owed q' h' name r before)
        ]
    marked_of_owed q h name (take {q = q'} {h = h'} (key new) r e) owed =
        let (differ, before) = and_cases new name (owes h' name) owed in
        or_else (key-differs new name differ)
          (laws.get_keeps (key new) (key name) q' q e (marked_of_owed q' h' name r before))
    marked_of_owed q h name (take {q = q'} {h = h'} (other text) r e) owed =
        or_else (λ same. cc)
          (laws.get_keeps (other text) (key name) q' q e (marked_of_owed q' h' name r owed))
    marked_of_owed q h name (settle_item {q = q'} {h = h'} (key new) (err x) r) owed =
        elim (or_cases new name (owes h' name) owed) [
          | inl same ↦
              subst (λ n. Marked (settle w (key new) (err x) q') (key n)) same
                (settle-retries new x q' (stays_open q' h' r))
          | inr before ↦
              settle-keeps (key new) (key name) (err x) q' (marked_of_owed q' h' name r before)
        ]
    marked_of_owed q h name (settle_item {q = q'} {h = h'} (key new) (ok t) r) owed =
        settle-keeps (key new) (key name) (ok t) q' (marked_of_owed q' h' name r owed)
    marked_of_owed q h name (settle_item {q = q'} {h = h'} (key new) panic r) owed =
        settle-keeps (key new) (key name) panic q' (marked_of_owed q' h' name r owed)
    marked_of_owed q h name (settle_item {q = q'} {h = h'} (other text) x r) owed =
        settle-keeps (other text) (key name) x q' (marked_of_owed q' h' name r owed)

  -- Only a worker holds an item.
  works_of_held :
      (start q : w.Queue) (h : List Moment) (name : String)
      → ¬ Held start (key name)
      → Reaches w start q h
      → Held q (key name)
      → works_on h name ≡ true
  unfolding works_on
  works_of_held start q h name free begin held = absurd (free held)
  works_of_held start q h name free (notify {q = q'} {h = h'} new r) held =
      works_of_held start q' h' name free r (laws.add_held _ _ q' held)
  works_of_held start q h name free (take {q = q'} {h = h'} (key new) r e) held =
      elim (Bool-cases (new == name)) [
        | inl same ↦ rw same refl
        | inr differ ↦ rw differ (
            works_of_held start q' h' name free r (
              or_else
                (λ p. false≢true (sym differ ∙ (eq_iff new name).1 (key-injective new name p)))
                (laws.get_held (key new) (key name) q' q e held)))
      ]
  works_of_held start q h name free (take {q = q'} {h = h'} (other text) r e) held =
      works_of_held start q' h' name free r
        (or_else (λ same. cc) (laws.get_held (other text) (key name) q' q e held))
  works_of_held start q h name free (settle_item {q = q'} {h = h'} (key new) x r) held =
      elim (Bool-cases (new == name)) [
        | inl same ↦ absurd (
            settle-releases (key new) x q' (
              subst (λ n. Held (settle w (key new) x q') (key n)) (sym ((eq_iff new name).0 same))
                held))
        | inr differ ↦
            rw differ
              (works_of_held start q' h' name free r (settle-held (key new) (key name) x q' held))
      ]
  works_of_held start q h name free (settle_item {q = q'} {h = h'} (other text) x r) held =
      works_of_held start q' h' name free r (settle-held (other text) (key name) x q' held)

  -- Let the queue be as documented, not shut down, and let no worker have the key at the start. No work is
  -- lost: whatever handlers and workers have done to the queue, in any order, a key that was enqueued, or
  -- whose sync failed, since a worker last took it is handed out by the next Gets, unless a worker is
  -- still at work on it.
  pub owes-HandedOut :
      (start q : w.Queue) (h : List Moment) (name : String)
      → IsOpen start
      → ¬ Held start (key name)
      → Reaches w start q h
      → owes h name ≡ true
      → works_on h name ≡ false
      → HandedOut w (key name) q
  owes-HandedOut start q h name opened free r owed idle =
      laws.hands_out (key name) q (stays_open start opened q h r)
        (marked_of_owed start opened q h name r owed)
        λ held. false≢true (sym idle ∙ works_of_held start q h name free r held)

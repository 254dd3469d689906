-- ===== src/Controller/Legit/Roles.antt =====
-- The statuses of the roles in a sync: a status that is changed through its pointer is there.
use mpi_operator.Prelude.{
  String, ◌≡◌, refl, ◌∙◌, Option, some, List, [], ◌∷◌, ◌==◌, eq_iff, inl, inr,
}
use mpi_operator.Prelude.Tests.{All, Bool-cases}
use mpi_operator.Prelude.Assoc.{Assoc, lookup, insert, lookup-insert}
use mpi_operator.Api.{GroupJob, JobStatus, JobCondition, ReplicaStatus, Pod}
use mpi_operator.Status.{
  initialize_statuses, statuses_or_empty, zero_replica_status, get_condition, set_condition,
  is_same,
}
use mpi_operator.Controller.World.{Answer, Env, Sync, modify_job, ◌>>=◌}
use mpi_operator.Controller.Update.{modify_status}
use mpi_operator.Controller.Keeps.{Keeps, ok_calm}
use mpi_operator.Controller.Legit.{Calm, HasRole, Inv, option-Inv}

module _ (statuses : Option (Assoc ReplicaStatus)) (rtype : String) (r : ReplicaStatus) where
  insert-HasRole : HasRole (some (insert rtype r (statuses_or_empty statuses))) rtype
  insert-HasRole = (
    r,
    lookup-insert rtype rtype r (statuses_or_empty statuses)
        ∙ rw ((eq_iff rtype rtype).1 refl) refl,
  )

  insert-keeps :
      (other : String)
      → HasRole statuses other
      → HasRole (some (insert rtype r (statuses_or_empty statuses))) other
  insert-keeps other (old, e) = elim (Bool-cases (rtype == other)) [
    | inl same ↦ (r, lookup-insert rtype other r (statuses_or_empty statuses) ∙ rw same refl)
    | inr differ ↦ (old, lookup-insert rtype other r (statuses_or_empty statuses) ∙ rw differ e)
  ]

  insert-keeps_each :
      (R : List String)
      → All (HasRole statuses) R
      → All (HasRole (some (insert rtype r (statuses_or_empty statuses)))) R
  insert-keeps_each [] h = tt
  insert-keeps_each (other ∷ R) (h, hs) = (insert-keeps other h, insert-keeps_each R hs)

module _ {env : Env} {j : GroupJob} {pods : String → String → Answer Pod} {R : List String} where
  -- From here on the status of the role is there.
  pub initialize-Keeps :
      {A : Type 0} (rtype : String) (next : Unit {0} → Sync A)
      → ((u : Unit {0}) → Keeps (Calm env j pods) (Inv env j pods (rtype ∷ R)) (next u))
      → Keeps (Calm env j pods) (Inv env j pods R) (modify_job (initialize_statuses rtype) >>= next)
  unfolding initialize_statuses ◌>>=◌
  initialize-Keeps rtype next k = record {
    preserved = λ s h.
        let statuses = s.job.status.replica_statuses in
        let (p, calm) =
          (k tt).preserved (record s { job = initialize_statuses rtype s.job })
            (record {
              same_meta = h.same_meta;
              same_spec = h.same_spec;
              same_pods = h.same_pods;
              legit = h.legit;
              roles = (
                insert-HasRole statuses rtype zero_replica_status,
                insert-keeps_each statuses rtype zero_replica_status R h.roles,
              );
            }) in
        (
          record {
            same_meta = p.same_meta;
            same_spec = p.same_spec;
            same_pods = p.same_pods;
            legit = p.legit;
            roles = p.roles.1;
          },
          calm,
        );
  }

  pub modify_role-Keeps :
      (rtype : String) (f : ReplicaStatus → ReplicaStatus)
      → Keeps (Calm env j pods) (Inv env j pods (rtype ∷ R)) (modify_status rtype f)
  unfolding modify_status
  modify_role-Keeps rtype f = record {
    preserved = λ s h.
        let statuses = s.job.status.replica_statuses in
        option-Inv (lookup rtype (statuses_or_empty statuses)) _ _
          (λ missing. (h, λ n e. cc (missing, h.roles.0.1)))
          λ r there. (
            record {
              same_meta = h.same_meta;
              same_spec = h.same_spec;
              same_pods = h.same_pods;
              legit = h.legit;
              roles = insert-keeps_each statuses rtype (f r) (rtype ∷ R) h.roles;
            },
            λ n. ok_calm tt,
          );
  }

-- A new condition leaves the statuses of the roles.
pub statuses-set_condition :
    (s : JobStatus) (c : JobCondition) → (set_condition s c).0.replica_statuses ≡ s.replica_statuses
unfolding set_condition
statuses-set_condition s c = elim (Bool-cases (is_same (get_condition s.conditions c.type) c)) [
  | inl same ↦ rw same refl
  | inr other ↦ rw other refl
]

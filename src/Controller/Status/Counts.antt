-- ===== src/Controller/Status/Counts.antt =====
-- The counts of the loop over the workers in `updateGroupJobStatus`.
use mpi_operator.Prelude.{
  ℕ, suc, ◌+◌, ◌^◌, ◌<◌, ◌≤◌, ◌≡◌, ap, ◌∙◌, Bool, true, false, List, [], ◌∷◌, arith, ◌==◌, ◌&&◌,
}
use mpi_operator.Prelude.Tests.{length}
use mpi_operator.Prelude.Int.{pos, ◌+ℤ◌, wrap32, wrap32_id}
use mpi_operator.Api.{
  Pod, PodPhase, pod_pending, pod_running, pod_succeeded, pod_failed, pod_unknown,
}
use mpi_operator.Status.{zero_replica_status}
use mpi_operator.Controller.Resources.{is_phase}
use mpi_operator.Controller.Status.{Tally, increment, tally_pod, tally_workers}

abbrev bit : Bool → ℕ
bit true = 1
bit false = 0

-- The number of pods that pass a test.
abbrev pub count_pods : (Pod → Bool) → List Pod → ℕ
count_pods test [] = 0
count_pods test (p ∷ ps) = bit (test p) + count_pods test ps

abbrev pub in_phase : PodPhase → List Pod → ℕ
in_phase phase = count_pods (λ p. is_phase p.phase phase)

abbrev pub is_evicted : Pod → Bool
is_evicted p = is_phase p.phase pod_failed && p.reason == "Evicted"

abbrev pub tally_of : (active succeeded failed running evict : ℕ) → Tally
tally_of active succeeded failed running evict = record {
  status = record { active = pos active; succeeded = pos succeeded; failed = pos failed };
  running = running;
  evict = evict;
}

plus_one : (n : ℕ) → pos n +ℤ pos 1 ≡ pos (n + 1)
plus_one n = ground arith

increment_small : (n k : ℕ) → n + suc k < 2 ^ 31 → increment (pos n) ≡ pos (n + 1)
increment_small n k h = ap wrap32 (plus_one n) ∙ wrap32_id (pos (n + 1)) (omega arith)

-- One pod changes the counts by at most one each.
tally_pod-counts :
    (a s f r e k : ℕ) (p : Pod) (phase : PodPhase)
    → a + suc k < 2 ^ 31
    → s + suc k < 2 ^ 31
    → f + suc k < 2 ^ 31
    → tally_pod (tally_of a s f r e) p phase
      ≡ tally_of
          (a + bit (is_phase phase pod_running))
          (s + bit (is_phase phase pod_succeeded))
          (f + bit (is_phase phase pod_failed))
          (r + bit (is_phase phase pod_running))
          (e + bit (is_phase phase pod_failed && p.reason == "Evicted"))
unfolding tally_pod is_phase
tally_pod-counts a s f r e k p pod_pending ha hs hf = ground arith
tally_pod-counts a s f r e k p pod_running ha hs hf = ground (arith, increment_small a k ha)
tally_pod-counts a s f r e k p pod_succeeded ha hs hf = ground (arith, increment_small s k hs)
tally_pod-counts a s f r e k p pod_failed ha hs hf = ground (arith, increment_small f k hf)
tally_pod-counts a s f r e k p pod_unknown ha hs hf = ground arith

bit_le : (b : Bool) → bit b ≤ 1
bit_le true = omega arith
bit_le false = omega arith

tally_from :
    (a s f r e : ℕ) (ps : List Pod)
    → a + length ps < 2 ^ 31
    → s + length ps < 2 ^ 31
    → f + length ps < 2 ^ 31
    → tally_workers (tally_of a s f r e) ps
      ≡ tally_of
          (a + in_phase pod_running ps)
          (s + in_phase pod_succeeded ps)
          (f + in_phase pod_failed ps)
          (r + in_phase pod_running ps)
          (e + count_pods is_evicted ps)
unfolding tally_workers
tally_from a s f r e [] ha hs hf = ground arith
tally_from a s f r e (p ∷ ps) ha hs hf =
    let x = bit (is_phase p.phase pod_running) in
    let y = bit (is_phase p.phase pod_succeeded) in
    let z = bit (is_phase p.phase pod_failed) in
    let hx = bit_le (is_phase p.phase pod_running) in
    let hy = bit_le (is_phase p.phase pod_succeeded) in
    let hz = bit_le (is_phase p.phase pod_failed) in
    ap (λ t. tally_workers t ps) (tally_pod-counts a s f r e (length ps) p p.phase ha hs hf)
    ∙ tally_from (a + x) (s + y) (f + z) (r + x) (e + bit (is_evicted p)) ps (omega arith)
        (omega arith) (omega arith)
    ∙ ground arith

-- For fewer than 2 ^ 31 workers, the loop from the empty counts leaves in the status exactly the numbers
-- of running, succeeded and failed workers, with no wrap-around, and counts the running and the evicted.
pub tally_workers-counts :
    (ps : List Pod)
    → length ps < 2 ^ 31
    → tally_workers (record { status = zero_replica_status; running = 0; evict = 0 }) ps
      ≡ tally_of
          (in_phase pod_running ps)
          (in_phase pod_succeeded ps)
          (in_phase pod_failed ps)
          (in_phase pod_running ps)
          (count_pods is_evicted ps)
tally_workers-counts ps small =
    tally_from 0 0 0 0 0 ps (omega arith) (omega arith) (omega arith) ∙ ground arith

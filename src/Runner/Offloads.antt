-- ===== src/Runner/Offloads.antt =====
-- The loop of `test_cluster` that offloads the test function to every cluster under test. The busy
-- register of a cluster is a function of the number of reads made so far.
use native.Mathlib.Nat.{add-zero}
use chimera_sdk.Base.{ℕ, zero, suc, ◌+◌, ◌≤◌, ◌<◌, ◌≡◌, ◌≢◌, ◌∙◌, refl, sym, ap, arith, none, some}
use chimera_sdk.Clint.{Timed}
use chimera_sdk.Offload.{Soc, soc_ctrl_base}
use chimera_sdk.Offload.Launch.{IsSame, IsSame-trans, SetUp_kept}
use chimera_sdk.Offload.Wait.{wait_busy, wait_busy_idle}
use chimera_sdk.Runner.Layout.{
  chimera_num_cores, chimera_launch, slot, IsReady, chimera_launch-IsReady, chimera_launch-IsSame,
  chimera_launch-kept,
}

-- What the loop passes on: the two functions, and for the cluster at each index of
-- `test_cfg->clusterIds` its number, its arguments and its stack pointers.
pub record Job : Type 0 where
  pub function_test : ℕ
  pub function_trampoline : ℕ
  pub cluster_ids : ℕ → ℕ
  pub args : ℕ → ℕ
  pub stack_cluster_ptr : ℕ → ℕ → ℕ

-- `offload_snitchCluster`, with the number of reads made.
pub chimera_offload : (fuel : ℕ) → Job → (id : ℕ) → (ℕ → ℕ → ℕ) → (n : ℕ) → Soc → Timed Soc
chimera_offload fuel job id polls n soc =
    let c = job.cluster_ids id in
    elim (wait_busy fuel c (polls c) n) [
      | none ↦ none
      | some reads ↦ some (
        chimera_launch job.function_test job.function_trampoline (job.args id)
            (job.stack_cluster_ptr id) c soc,
        reads,
      )
    ]

-- The loop for `count` clusters from index `id` on.
pub offload_clusters : (fuel count id : ℕ) → Job → (ℕ → ℕ → ℕ) → (n : ℕ) → Soc → Timed Soc
offload_clusters fuel zero id job polls n soc = some (soc, n)
offload_clusters fuel (suc count) id job polls n soc =
    elim (chimera_offload fuel job id polls n soc) [
      | none ↦ none
      | some r ↦ offload_clusters fuel count (suc id) job polls r.1 r.0
    ]

-- The clusters under test are different ones of the five.
pub record IsJob (job : Job) (count : ℕ) : Type 0 where
  pub exists : (i : ℕ) → i < count → job.cluster_ids i < 5
  pub distinct : (i j : ℕ) → i < count → j < count → job.cluster_ids i ≡ job.cluster_ids j → i ≡ j

-- A core of the cluster at index `i` is ready to run the test.
abbrev pub IsOffloaded : Job → (i j : ℕ) → Soc → Type 0
IsOffloaded job i j soc =
    IsReady job.function_test (job.args i) (job.stack_cluster_ptr i j) (slot (job.cluster_ids i) j)
      soc

-- The state when the cluster at index `id` is offloaded.
abbrev launched : Job → (id : ℕ) → Soc → Soc
launched job id soc =
    chimera_launch job.function_test job.function_trampoline (job.args id)
      (job.stack_cluster_ptr id) (job.cluster_ids id) soc

offload_clusters-suc :
    (fuel count id : ℕ) (job : Job) (polls : ℕ → ℕ → ℕ) (n : ℕ) (soc : Soc)
    → job.cluster_ids id < 5
    → polls (job.cluster_ids id) n ≢ 1
    → offload_clusters (suc fuel) (suc count) id job polls n soc
      ≡ offload_clusters (suc fuel) count (suc id) job polls (n + 1) (launched job id soc)
unfolding offload_clusters chimera_offload
offload_clusters-suc fuel count id job polls n soc lt idle =
    rw
      (
        wait_busy_idle fuel (job.cluster_ids id) n (polls (job.cluster_ids id)) lt idle,
        chimera_offload,
        offload_clusters,
      )
      refl

-- The clusters at the indices from `id` on are idle when they are polled, one after the other.
abbrev pub IsIdle : Job → (count id : ℕ) → (ℕ → ℕ → ℕ) → ℕ → Type 0
IsIdle job count id polls n = (i : ℕ) → i < count → polls (job.cluster_ids (id + i)) (n + i) ≢ 1

-- The loop from index `id` on has offloaded its clusters and left the others alone.
pub record IsDone (job : Job) (count id : ℕ) (s t : Soc) : Type 0 where
  pub offloaded :
      (i j : ℕ)
      → i < count
      → j < chimera_num_cores (job.cluster_ids (id + i))
      → IsOffloaded job (id + i) j t
  pub kept : (b : ℕ) → soc_ctrl_base < b → t.regs b ≡ s.regs b
  pub alone :
      (d j : ℕ)
      → d < 5
      → ((i : ℕ) → i < count → job.cluster_ids (id + i) ≢ d)
      → j < chimera_num_cores d
      → IsSame s t (slot d j)

shift : (id i : ℕ) → suc id + i ≡ id + suc i
shift id i = omega arith

later : (n i : ℕ) → n + 1 + i ≡ n + suc i
later n i = omega arith

next-IsOffloaded :
    (count id total : ℕ) (job : Job) (soc t : Soc) (i j : ℕ)
    → IsJob job total
    → id + suc count ≤ total
    → IsDone job count (suc id) (launched job id soc) t
    → i < suc count
    → j < chimera_num_cores (job.cluster_ids (id + i))
    → IsOffloaded job (id + i) j t
next-IsOffloaded count id total job soc t zero j ok le rest lt j_lt =
    let c = job.cluster_ids id in
    let own : j < chimera_num_cores c = rw add-zero at j_lt in
    let c_lt = ok.exists id (omega (arith, le)) in
    let kept =
      rest.alone c j c_lt
        (λ i h e.
          let same = ok.distinct (suc id + i) id (omega (arith, le, h)) (omega (arith, le)) e in
          omega (arith, same))
        own in
    let now =
      chimera_launch-IsReady job.function_test job.function_trampoline (job.args id)
        (job.stack_cluster_ptr id) c j soc c_lt own in
    rw add-zero (SetUp_kept now kept)
next-IsOffloaded count id total job soc t (suc i) j ok le rest lt j_lt =
    let e = shift id i in
    let there = rest.offloaded i j (omega (arith, lt)) (rw e j_lt) in rw e at there

next-IsDone :
    (count id total : ℕ) (job : Job) (soc t : Soc)
    → IsJob job total
    → id + suc count ≤ total
    → IsDone job count (suc id) (launched job id soc) t
    → IsDone job (suc count) id soc t
next-IsDone count id total job soc t ok le rest = record {
  offloaded = λ i j lt j_lt. next-IsOffloaded count id total job soc t i j ok le rest lt j_lt;
  kept = λ b above.
      rest.kept b above
      ∙ chimera_launch-kept job.function_test job.function_trampoline (job.args id)
          (job.stack_cluster_ptr id) (job.cluster_ids id) b soc (ok.exists id (omega (arith, le)))
          above;
  alone = λ d j d_lt others j_lt.
      let first : job.cluster_ids id ≢ d = rw add-zero at (others 0 (omega arith)) in
      IsSame-trans
        (chimera_launch-IsSame job.function_test job.function_trampoline (job.args id)
          (job.stack_cluster_ptr id) (job.cluster_ids id) d j soc (ok.exists id (omega (arith, le)))
          d_lt first j_lt)
        (rest.alone d j d_lt (λ i h. rw (← shift id i) at (others (suc i) (omega (arith, h))))
          j_lt);
}

pub offload_clusters_from :
    (fuel count id total : ℕ) (job : Job) (polls : ℕ → ℕ → ℕ) (n : ℕ) (soc : Soc)
    → IsJob job total
    → id + count ≤ total
    → IsIdle job count id polls n
    → (t : Soc) × (offload_clusters (suc fuel) count id job polls n soc ≡ some (t, n + count))
      × IsDone job count id soc t
unfolding offload_clusters
offload_clusters_from fuel zero id total job polls n soc ok le idle = (
  soc,
  ap (λ m. some (soc, m)) (sym (add-zero n)),
  record {
    offloaded = λ i j lt j_lt. absurd (omega (arith, lt));
    kept = λ b above. refl;
    alone = λ d j d_lt others j_lt. record {
      function_eq = refl;
      args_eq = refl;
      stack_eq = refl;
      msip_eq = refl;
    };
  },
)
offload_clusters_from fuel (suc count) id total job polls n soc ok le idle =
    let now : polls (job.cluster_ids id) n ≢ 1 =
      rw (add-zero, add-zero) at (idle 0 (omega arith)) in
    let (t, runs, done) =
      offload_clusters_from fuel count (suc id) total job polls (n + 1) (launched job id soc) ok
        (omega (arith, le))
        (λ i h. rw (← shift id i, ← later n i) at (idle (suc i) (omega (arith, h)))) in
    let count_is : n + 1 + count ≡ n + suc count = omega arith in
    (
      t,
      offload_clusters-suc fuel count id job polls n soc (ok.exists id (omega (arith, le))) now
          ∙ rw count_is at runs,
      next-IsDone count id total job soc t ok le done,
    )

-- For different clusters under test, each idle when it is polled: the loop returns with each core
-- of each of these clusters ready to run the test, with the arguments and the stack pointer of its
-- cluster and core, and its hart interrupted; the trampolines and the interrupts of all cores of
-- the other clusters, if there are any, are as they were, and so are the registers behind the first
-- of the SoC's control registers.
pub offload_clusters-IsDone :
    (fuel count : ℕ) (job : Job) (polls : ℕ → ℕ → ℕ) (n : ℕ) (soc : Soc)
    → IsJob job count
    → IsIdle job count 0 polls n
    → (t : Soc) × (offload_clusters (suc fuel) count 0 job polls n soc ≡ some (t, n + count))
      × IsDone job count 0 soc t
offload_clusters-IsDone fuel count job polls n soc ok idle =
    offload_clusters_from fuel count 0 count job polls n soc ok (omega arith) idle

-- ===== src/Trampoline/Convolve.antt =====
-- The busy register that a core of chimera-convolve sets and clears,
-- targets/chimera-convolve/devices/snitch_cluster/inc/trampoline.h.
use chimera_sdk.Base.{ℕ, suc, ◌+◌, ◌*◌, ◌^◌, ◌<◌, ◌≡◌, ◌∙◌, refl, ap, arith, u32}
use chimera_sdk.Mmio.{write32}
use chimera_sdk.Runner.Layout.{chimera_num_cores, chimera_hart_base, chimera_hart_base_lem}
use chimera_sdk.Trampoline.{Core, exec_all, busy_base, chimera_write_cluster_busy}
use chimera_sdk.Trampoline.Busy.{at_least, passed_count}

-- The four tests count the cluster.
count_clusters :
    (c j h : ℕ)
    → c < 5
    → j < chimera_num_cores c
    → h ≡ suc (2 * c) + j
    → at_least 3 h + at_least 5 h + at_least 7 h + at_least 9 h ≡ c
unfolding chimera_num_cores
count_clusters c j h c_lt j_lt e = passed_count 3 5 7 9 h ∙ ground arith

-- On chimera-convolve, every core of the five clusters, by its hart, writes `v` to the busy register
-- of its own cluster and nothing else.
pub chimera_write_cluster_busy-own :
    (v c j : ℕ) (core : Core)
    → c < 5
    → j < chimera_num_cores c
    → core.mhartid ≡ chimera_hart_base c + j
    → (exec_all (chimera_write_cluster_busy v) core).mem ≡ write32 (busy_base + 4 * c) v core.mem
unfolding exec_all
chimera_write_cluster_busy-own v c j core c_lt j_lt hart =
    let at : core.mhartid ≡ suc (2 * c) + j = hart ∙ rw (chimera_hart_base_lem c c_lt).0 refl in
    let count = count_clusters c j core.mhartid c_lt j_lt at in
    let address : u32 (
          busy_base
          + u32 (
              u32 (
                u32 (
                  u32 (u32 (0 + at_least 3 core.mhartid) + at_least 5 core.mhartid)
                  + at_least 7 core.mhartid)
                + at_least 9 core.mhartid)
              * 2 ^ 2))
        ≡ busy_base + 4 * c =
      omega (arith, count, c_lt) in
    ap (λ a. write32 a v core.mem) address

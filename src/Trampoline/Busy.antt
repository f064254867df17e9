-- ===== src/Trampoline/Busy.antt =====
-- The busy register that a core of a cluster sets and clears.
use chimera_sdk.Base.{
  ℕ, ◌+◌, ◌*◌, ◌^◌, ◌<◌, ◌≡◌, ◌∙◌, refl, ap, Bool-cases, inl, inr, arith, u32, ltb, if◌then◌else◌,
}
use Prim.Native.Nat.{bit_xor}
use chimera_sdk.Mmio.{write32}
use chimera_sdk.Offload.{get_hart_id}
use chimera_sdk.Offload.Launch.{get_hart_id_lem}
use chimera_sdk.Trampoline.{Core, exec_all, busy_base, write_cluster_busy}

abbrev pub at_least : ℕ → ℕ → ℕ
at_least v h = bit_xor (if ltb h v then 1 else 0) 1

at_least_if : (v h : ℕ) → at_least v h ≡ (if ltb h v then 0 else 1)
at_least_if v h = elim (Bool-cases (ltb h v)) [
  | inl yes_below ↦ rw yes_below refl
  | inr not_below ↦ rw not_below refl
]

-- The four tests count those that the hart has passed.
pub passed_count :
    (first second third fourth h : ℕ)
    → at_least first h + at_least second h + at_least third h + at_least fourth h
      ≡ (if ltb h first then 0 else 1)
        + (if ltb h second then 0 else 1)
        + (if ltb h third then 0 else 1)
        + (if ltb h fourth then 0 else 1)
passed_count first second third fourth h =
    rw (at_least_if first h, at_least_if second h, at_least_if third h, at_least_if fourth h) refl

-- On chimera-open they count the cluster.
count_clusters :
    (c j h : ℕ)
    → c < 5
    → j < 9
    → h ≡ 1 + 9 * c + j
    → at_least 10 h + at_least 19 h + at_least 28 h + at_least 37 h ≡ c
count_clusters c j h c_lt j_lt e = passed_count 10 19 28 37 h ∙ ground arith

-- One of the nine cores of one of the five clusters, by its hart, writes `v` to the busy register
-- of its own cluster and nothing else.
pub write_cluster_busy-own :
    (v c j : ℕ) (core : Core)
    → c < 5
    → j < 9
    → core.mhartid ≡ get_hart_id c j
    → (exec_all (write_cluster_busy v) core).mem ≡ write32 (busy_base + 4 * c) v core.mem
unfolding exec_all
write_cluster_busy-own v c j core c_lt j_lt hart =
    let at : core.mhartid ≡ 1 + 9 * c + j = hart ∙ get_hart_id_lem c j c_lt j_lt in
    let count = count_clusters c j core.mhartid c_lt j_lt at in
    let address : u32 (
          busy_base
          + u32 (
              u32 (
                u32 (
                  u32 (u32 (0 + at_least 10 core.mhartid) + at_least 19 core.mhartid)
                  + at_least 28 core.mhartid)
                + at_least 37 core.mhartid)
              * 2 ^ 2))
        ≡ busy_base + 4 * c =
      omega (arith, count, c_lt) in
    ap (λ a. write32 a v core.mem) address

-- ===== src/Runner/Clusters.antt =====
-- What `test_cluster` does to the clusters it tests by the offload driver: the set-up before the run
-- and the clock gates after it. The registers of chimera-convolve are at the addresses of
-- chimera-open.
use chimera_sdk.Base.{
  ℕ, zero, suc, ◌+◌, ◌*◌, ◌/◌, ◌<◌, ◌≡◌, ◌∙◌, refl, arith, Bool, true, false, ◌||◌, ◌&&◌, ◌==◌, ltb,
  if◌then◌else◌,
}
use chimera_sdk.Mmio.{Regs, write32}
use chimera_sdk.Offload.{soc_ctrl_base, set_clock_gating, set_reset}

-- The loop that sets up the clusters, `count` of which are left, the next at index `id` of
-- `test_cfg->clusterIds`: clock on, reset on and off. The delays touch no register.
pub set_up_clusters : (count id : ℕ) → (ℕ → ℕ) → Regs → Regs
set_up_clusters zero id cluster_ids regs = regs
set_up_clusters (suc count) id cluster_ids regs =
    let c = cluster_ids id in
    set_up_clusters count (suc id) cluster_ids
      (set_reset c 0 (set_reset c 1 (set_clock_gating c 0 regs)))

-- The clock gates in the loop that collects the results.
pub gate_clusters : (count id : ℕ) → (ℕ → ℕ) → Regs → Regs
gate_clusters zero id cluster_ids regs = regs
gate_clusters (suc count) id cluster_ids regs =
    gate_clusters count (suc id) cluster_ids (set_clock_gating (cluster_ids id) 1 regs)

-- Is the cluster `c` among the `count` from index `id` on?
pub listed : (count id : ℕ) → (ℕ → ℕ) → ℕ → Bool
listed zero id cluster_ids c = false
listed (suc count) id cluster_ids c = cluster_ids id == c || listed count (suc id) cluster_ids c

-- The registers of a cluster.
abbrev pub gate_of : ℕ → ℕ
gate_of c = soc_ctrl_base + 0x34 + 4 * c

abbrev pub reset_of : ℕ → ℕ
reset_of c = soc_ctrl_base + 0x20 + 4 * c

-- A register whose low byte is set to `v` if `b`.
abbrev pub low_byte : Bool → ℕ → ℕ → ℕ
low_byte b v word = if b then word / 256 * 256 + v else word

set_clock_gating_lem :
    (c v : ℕ) (regs : Regs) (a : ℕ)
    → set_clock_gating c v regs a ≡ low_byte (ltb c 5 && a == gate_of c) v (regs a)
unfolding set_clock_gating write32
set_clock_gating_lem c v regs a = ground arith

set_reset_lem :
    (c v : ℕ) (regs : Regs) (a : ℕ)
    → set_reset c v regs a ≡ low_byte (ltb c 5 && a == reset_of c) v (regs a)
unfolding set_reset write32
set_reset_lem c v regs a = ground arith

-- The last of two writes of the same byte counts.
pub overwritten :
    (b : Bool) (u v word : ℕ) → u < 256 → low_byte b v (low_byte b u word) ≡ low_byte b v word
overwritten true u v word h = omega arith
overwritten false u v word h = refl

-- Two marks of the same byte with the same value are one.
pub marked :
    (a b : Bool) (v word : ℕ)
    → v < 256
    → low_byte a v (low_byte b v word) ≡ low_byte (b || a) v word
marked true true v word h = omega arith
marked true false v word h = refl
marked false true v word h = refl
marked false false v word h = refl

-- The write of a cluster's gate, seen at that of `d`.
pub own_gate :
    (c d v : ℕ) (regs : Regs)
    → d < 5
    → set_clock_gating c v regs (gate_of d) ≡ low_byte (c == d) v (regs (gate_of d))
own_gate c d v regs lt =
    let same : (ltb c 5 && gate_of d == gate_of c) ≡ (c == d) = ground arith in
    set_clock_gating_lem c v regs (gate_of d) ∙ rw same refl

own_reset :
    (c d v : ℕ) (regs : Regs)
    → d < 5
    → set_reset c v regs (reset_of d) ≡ low_byte (c == d) v (regs (reset_of d))
own_reset c d v regs lt =
    let same : (ltb c 5 && reset_of d == reset_of c) ≡ (c == d) = ground arith in
    set_reset_lem c v regs (reset_of d) ∙ rw same refl

-- The gates and the resets are apart.
gate-reset : (c d v : ℕ) (regs : Regs) → d < 5 → set_reset c v regs (gate_of d) ≡ regs (gate_of d)
gate-reset c d v regs lt =
    let apart : (ltb c 5 && gate_of d == reset_of c) ≡ false = ground arith in
    set_reset_lem c v regs (gate_of d) ∙ rw apart refl

reset-gate :
    (c d v : ℕ) (regs : Regs) → d < 5 → set_clock_gating c v regs (reset_of d) ≡ regs (reset_of d)
reset-gate c d v regs lt =
    let apart : (ltb c 5 && reset_of d == gate_of c) ≡ false = ground arith in
    set_clock_gating_lem c v regs (reset_of d) ∙ rw apart refl

-- One round of the set-up, seen at the two registers of `d`.
abbrev round : ℕ → Regs → Regs
round c regs = set_reset c 0 (set_reset c 1 (set_clock_gating c 0 regs))

round_gate :
    (c d : ℕ) (regs : Regs)
    → d < 5
    → round c regs (gate_of d) ≡ low_byte (c == d) 0 (regs (gate_of d))
round_gate c d regs lt =
    gate-reset c d 0 (set_reset c 1 (set_clock_gating c 0 regs)) lt
    ∙ gate-reset c d 1 (set_clock_gating c 0 regs) lt
    ∙ own_gate c d 0 regs lt

round_reset :
    (c d : ℕ) (regs : Regs)
    → d < 5
    → round c regs (reset_of d) ≡ low_byte (c == d) 0 (regs (reset_of d))
round_reset c d regs lt =
    own_reset c d 0 (set_reset c 1 (set_clock_gating c 0 regs)) lt
    ∙ rw (own_reset c d 1 (set_clock_gating c 0 regs) lt, reset-gate c d 0 regs lt)
        (overwritten (c == d) 1 0 (regs (reset_of d)) (omega arith))

pub gate_clusters-zero : (id : ℕ) (ids : ℕ → ℕ) (regs : Regs) → gate_clusters 0 id ids regs ≡ regs
unfolding gate_clusters
gate_clusters-zero id ids regs = refl

pub gate_clusters-suc :
    (count id : ℕ) (ids : ℕ → ℕ) (regs : Regs)
    → gate_clusters (suc count) id ids regs
      ≡ gate_clusters count (suc id) ids (set_clock_gating (ids id) 1 regs)
unfolding gate_clusters
gate_clusters-suc count id ids regs = refl

-- The gate of `d` when the cluster at index `id` and then those behind it are gated.
pub gate-listed :
    (count id : ℕ) (ids : ℕ → ℕ) (d word : ℕ)
    → (low_byte (listed 0 id ids d) 1 word ≡ word)
      × (low_byte (listed count (suc id) ids d) 1 (low_byte (ids id == d) 1 word)
          ≡ low_byte (listed (suc count) id ids d) 1 word)
unfolding listed
gate-listed count id ids d word =
    (refl, marked (listed count (suc id) ids d) (ids id == d) 1 word (omega arith))

pub gate_clusters_lem :
    (count id : ℕ) (ids : ℕ → ℕ) (d : ℕ) (regs : Regs)
    → d < 5
    → gate_clusters count id ids regs (gate_of d)
      ≡ low_byte (listed count id ids d) 1 (regs (gate_of d))
unfolding gate_clusters listed
gate_clusters_lem zero id ids d regs lt = refl
gate_clusters_lem (suc count) id ids d regs lt =
    gate_clusters_lem count (suc id) ids d (set_clock_gating (ids id) 1 regs) lt
    ∙ rw (own_gate (ids id) d 1 regs lt)
        (marked (listed count (suc id) ids d) (ids id == d) 1 (regs (gate_of d)) (omega arith))

gate_clusters-reset :
    (count id : ℕ) (ids : ℕ → ℕ) (d : ℕ) (regs : Regs)
    → d < 5
    → gate_clusters count id ids regs (reset_of d) ≡ regs (reset_of d)
unfolding gate_clusters
gate_clusters-reset zero id ids d regs lt = refl
gate_clusters-reset (suc count) id ids d regs lt =
    gate_clusters-reset count (suc id) ids d (set_clock_gating (ids id) 1 regs) lt
    ∙ reset-gate (ids id) d 1 regs lt

pub set_up_clusters-gate :
    (count id : ℕ) (ids : ℕ → ℕ) (d : ℕ) (regs : Regs)
    → d < 5
    → set_up_clusters count id ids regs (gate_of d)
      ≡ low_byte (listed count id ids d) 0 (regs (gate_of d))
unfolding set_up_clusters listed
set_up_clusters-gate zero id ids d regs lt = refl
set_up_clusters-gate (suc count) id ids d regs lt =
    set_up_clusters-gate count (suc id) ids d (round (ids id) regs) lt
    ∙ rw (round_gate (ids id) d regs lt)
        (marked (listed count (suc id) ids d) (ids id == d) 0 (regs (gate_of d)) (omega arith))

set_up_clusters-reset :
    (count id : ℕ) (ids : ℕ → ℕ) (d : ℕ) (regs : Regs)
    → d < 5
    → set_up_clusters count id ids regs (reset_of d)
      ≡ low_byte (listed count id ids d) 0 (regs (reset_of d))
unfolding set_up_clusters listed
set_up_clusters-reset zero id ids d regs lt = refl
set_up_clusters-reset (suc count) id ids d regs lt =
    set_up_clusters-reset count (suc id) ids d (round (ids id) regs) lt
    ∙ rw (round_reset (ids id) d regs lt)
        (marked (listed count (suc id) ids d) (ids id == d) 0 (regs (reset_of d)) (omega arith))

-- For each of the five clusters, whatever the list of clusters tested and the registers before: after
-- the set-up the clock gate and the reset of the cluster are off if it is in the list, and its two
-- registers are unchanged if not; after the run, if nothing else writes these registers, the clock
-- gate is on if the cluster is in the list, else its registers are as they were before the set-up.
pub gate_clusters-set_up_clusters :
    (count : ℕ) (ids : ℕ → ℕ) (d : ℕ) (before running : Regs)
    → d < 5
    → running (gate_of d) ≡ set_up_clusters count 0 ids before (gate_of d)
    → running (reset_of d) ≡ set_up_clusters count 0 ids before (reset_of d)
    → let on = listed count 0 ids d in
      let after = gate_clusters count 0 ids running in
      (running (gate_of d) ≡ low_byte on 0 (before (gate_of d)))
      × (running (reset_of d) ≡ low_byte on 0 (before (reset_of d)))
      × (after (gate_of d) ≡ low_byte on 1 (before (gate_of d)))
      × (after (reset_of d) ≡ low_byte on 0 (before (reset_of d)))
gate_clusters-set_up_clusters count ids d before running lt gate reset =
    let on = listed count 0 ids d in
    let gate_off = gate ∙ set_up_clusters-gate count 0 ids d before lt in
    let reset_off = reset ∙ set_up_clusters-reset count 0 ids d before lt in
    (
      gate_off,
      reset_off,
      gate_clusters_lem count 0 ids d running lt
          ∙ rw gate_off (overwritten on 0 1 (before (gate_of d)) (omega arith)),
      gate_clusters-reset count 0 ids d running lt ∙ reset_off,
    )

-- ===== src/Runner/Whole/Collect.antt =====
-- The loop that collects the results: it ends, and all clusters under test are gated after it.
use native.Mathlib.Nat.{add-zero}
use chimera_sdk.Base.{
  ℕ, zero, suc, ◌+◌, ◌*◌, ◌/◌, ◌≤◌, ◌<◌, ◌≡◌, ◌≢◌, ◌∙◌, refl, arith, true, false, some, ◌==◌,
}
use chimera_sdk.Mmio.{Regs, write32, write32_ne}
use chimera_sdk.Clint.{◌>>=◌}
use chimera_sdk.Offload.{soc_ctrl_base, return_reg, set_clock_gating}
use chimera_sdk.Offload.Wait.{wait_return_now}
use chimera_sdk.Runner.Clusters.{
  gate_clusters, gate_clusters-suc, gate_clusters-zero, gate-listed, gate_of, listed, low_byte,
  own_gate,
}
use chimera_sdk.Runner.Watch.{Bus}
use chimera_sdk.Runner.Whole.{collect_results}

abbrev pub late_ret : (count ret : ℕ) → ℕ
late_ret zero ret = ret
late_ret (suc count) ret = 0

late_ret_zero : (count : ℕ) → late_ret count 0 ≡ 0
late_ret_zero zero = refl
late_ret_zero (suc count) = refl

-- After a time-out the result is 0 and the loop only gates the clusters.
pub collect_results-late :
    (bus : Bus) (fuel count id ret n : ℕ) (ids : ℕ → ℕ) (regs : Regs)
    → collect_results bus fuel true ids count id ret n regs
      ≡ some ((late_ret count ret, gate_clusters count id ids regs), n)
unfolding collect_results
collect_results-late bus fuel zero id ret n ids regs = rw (gate_clusters-zero id ids regs) refl
collect_results-late bus fuel (suc count) id ret n ids regs =
    collect_results-late bus fuel count (suc id) 0 n ids (set_clock_gating (ids id) 1 regs)
    ∙ rw (gate_clusters-suc count id ids regs, late_ret_zero count) refl

return_reg_lem : (c : ℕ) → c < 5 → return_reg c ≡ some (soc_ctrl_base + 0xc + 4 * c)
return_reg_lem c lt = ground arith

-- The register of the gate of `d` after one round.
round_gate :
    (c d : ℕ) (regs : Regs)
    → c < 5
    → d < 5
    → set_clock_gating c 1 (write32 (soc_ctrl_base + 0xc + 4 * c) 0 regs) (gate_of d)
      ≡ low_byte (c == d) 1 (regs (gate_of d))
round_gate c d regs c_lt d_lt =
    let a = soc_ctrl_base + 0xc + 4 * c in
    own_gate c d 1 (write32 a 0 regs) d_lt ∙ rw (write32_ne a (gate_of d) 0 regs (omega arith)) refl

-- The result is half the return value of the last cluster.
abbrev pub IsReport : Bus → (ℕ → ℕ) → (count id ret n ret' : ℕ) → Type 0
IsReport bus ids zero id ret n ret' = ret' ≡ ret
IsReport bus ids (suc count) id ret n ret' =
    (m : ℕ) × (n ≤ m) × (ret' ≡ bus.returns (ids (id + count)) m / 2)

-- The gates after the loop.
abbrev pub IsGated : (ℕ → ℕ) → (count id : ℕ) → Regs → Regs → Type 0
IsGated ids count id regs regs' =
    (d : ℕ) → d < 5 → regs' (gate_of d) ≡ low_byte (listed count id ids d) 1 (regs (gate_of d))

-- Every cluster has its result in its return register from access `n` on.
abbrev pub IsReporting : Bus → (ℕ → ℕ) → (count id n : ℕ) → Type 0
IsReporting bus ids count id n = (i m : ℕ) → i < count → n ≤ m → bus.returns (ids (id + i)) m ≢ 0

abbrev pub IsListed : (ℕ → ℕ) → (count id : ℕ) → Type 0
IsListed ids count id = (i : ℕ) → i < count → ids (id + i) < 5

shift : (id i : ℕ) → suc id + i ≡ id + suc i
shift id i = omega arith

collect_results-suc :
    (bus : Bus) (fuel count id ret n : ℕ) (ids : ℕ → ℕ) (regs : Regs)
    → ids id < 5
    → bus.returns (ids id) n ≢ 0
    → collect_results bus (suc fuel) false ids (suc count) id ret n regs
      ≡ collect_results bus
          (suc fuel)
          false
          ids
          count
          (suc id)
          (bus.returns (ids id) (n + 1) / 2)
          (n + 2)
          (set_clock_gating (ids id) 1 (write32 (soc_ctrl_base + 0xc + 4 * ids id) 0 regs))
unfolding collect_results
collect_results-suc bus fuel count id ret n ids regs lt ne =
    rw
      (
        return_reg_lem (ids id) lt,
        wait_return_now fuel (soc_ctrl_base + 0xc + 4 * ids id) n (bus.returns (ids id)) regs ne,
        ◌>>=◌,
        collect_results,
      )
      refl

-- The report of the loop behind the first cluster, for the whole loop.
next-IsReport :
    (bus : Bus) (ids : ℕ → ℕ) (count id ret n ret' : ℕ)
    → IsReport bus ids count (suc id) (bus.returns (ids id) (n + 1) / 2) (n + 2) ret'
    → IsReport bus ids (suc count) id ret n ret'
next-IsReport bus ids zero id ret n ret' e = (n + 1, omega arith, rw add-zero e)
next-IsReport bus ids (suc count) id ret n ret' (m, le, e) =
    (m, omega (arith, le), rw (shift id count) at e)

-- Without a time-out and with the results there, the loop ends.
pub collect_results-in_time :
    (bus : Bus) (fuel count id ret n : ℕ) (ids : ℕ → ℕ) (regs : Regs)
    → IsListed ids count id
    → IsReporting bus ids count id n
    → (ret' : ℕ) × (regs' : Regs) × (n' : ℕ) × (collect_results bus
          (suc fuel)
          false
          ids
          count
          id
          ret
          n
          regs
        ≡ some ((ret', regs'), n'))
      × IsReport bus ids count id ret n ret'
      × IsGated ids count id regs regs'
unfolding collect_results
collect_results-in_time bus fuel zero id ret n ids regs exist report =
    (ret, regs, n, refl, refl, λ d lt. rw (gate-listed 0 id ids d (regs (gate_of d))).0 refl)
collect_results-in_time bus fuel (suc count) id ret n ids regs exist report =
    let c_lt : ids id < 5 = rw add-zero at (exist 0 (omega arith)) in
    let here : bus.returns (ids id) n ≢ 0 =
      rw add-zero at (report 0 n (omega arith) (omega arith)) in
    let next = set_clock_gating (ids id) 1 (write32 (soc_ctrl_base + 0xc + 4 * ids id) 0 regs) in
    let (ret', regs', n', runs, reported, gated) =
      collect_results-in_time bus fuel count (suc id) (bus.returns (ids id) (n + 1) / 2) (n + 2) ids
        next (λ i h. rw (shift id i) (exist (suc i) (omega (arith, h))))
        (λ i m h le. rw (shift id i) (report (suc i) m (omega (arith, h)) (omega (arith, le)))) in
    (
      ret',
      regs',
      n',
      collect_results-suc bus fuel count id ret n ids regs c_lt here ∙ runs,
      next-IsReport bus ids count id ret n ret' reported,
      λ d lt.
          gated d lt
          ∙ rw (round_gate (ids id) d regs c_lt lt)
              (gate-listed count id ids d (regs (gate_of d))).1,
    )

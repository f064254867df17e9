-- ===== src/Offload/Tests.antt =====
-- Cluster 2 on chimera-open, and the theorems applied to it.
use chimera_sdk.Base.{ℕ, ◌+◌, ◌≤◌, ◌<◌, arith, ltb, if◌then◌else◌}
use chimera_sdk.Offload.{Soc, num_cores, generate_sps}
use chimera_sdk.Offload.Stacks.{room, generate_sps-apart}

abbrev sizes : ℕ → ℕ
sizes = λ core_id. 1024 + core_id

abbrev no_stacks : ℕ → ℕ
no_stacks = λ core_id. 0

enough_room : room (num_cores 2) 0 sizes ≤ 0x20010007
unfolding num_cores
enough_room = omega arith

three_lt : 3 < num_cores 2
unfolding num_cores
three_lt = omega arith

generate_sps-apart_example :
    let r = generate_sps 2 0x20010007 sizes no_stacks in
    (r.1 3 + 1025 ≤ r.1 1) × (r.0 + 1027 ≤ r.1 3)
generate_sps-apart_example =
    generate_sps-apart 2 0x20010007 sizes no_stacks 1 3 (omega arith) enough_room (omega arith)
      three_lt

abbrev soc : Soc
soc = record { regs = λ a. 0; function = λ i. 0; args = λ i. 0; stack = λ i. 0 }

abbrev busy_polls : ℕ → ℕ
busy_polls = λ i. if ltb i 3 then 1 else 0

abbrev return_polls : ℕ → ℕ
return_polls = λ i. if ltb i 2 then 0 else 7

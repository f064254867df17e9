-- ===== src/Runner/Watch.antt =====
-- The supervision loop of `test_cluster` as it runs: the busy registers of the clusters are polled,
-- the time is read and compared with the deadline, a call of a cluster is call_actions and the core
-- sleeps for ten ticks. What the bus shows is a function of the number of accesses made so far.
pub mod Count
pub mod Verdict
pub mod Total
use chimera_sdk.Base.{
  ℕ, zero, suc, ◌+◌, ◌*◌, ◌/◌, ◌^◌, Bool, true, false, Option, none, some, List, [], ◌∷◌, ◌++◌, u32,
  ◌==◌, if◌then◌else◌,
}
use chimera_sdk.Clint.{Mtime, Counters, Timed, ◌>>=◌, get_mtime, less_than}
use chimera_sdk.Clint.Sleep.{Core, sleep_ticks}
use chimera_sdk.Offload.Wait.{cluster_busy}

-- The timer, the busy and the return register of each cluster, `shared_data.device_to_host`, and the
-- words in memory.
pub record Bus : Type 0 where
  pub counters : Counters
  pub busy : (cluster_id access : ℕ) → ℕ
  pub returns : (cluster_id access : ℕ) → ℕ
  pub device_to_host : (access : ℕ) → ℕ
  pub word : (access address : ℕ) → ℕ

-- What the host does for a call, in this order.
pub data Action : Type 0 where
  acknowledged : Action
  fwrite : (buf count : ℕ) → Action
  unknown_syscall : ℕ → Action
  answered : ℕ → Action

pub record Host : Type 0 where
  pub core : Core
  pub actions : List Action

-- The loop that counts the clusters that are not busy, `count` of which are left.
pub count_idle : Bus → (ℕ → ℕ) → (count id done n : ℕ) → ℕ × ℕ
count_idle bus cluster_ids zero id done n = (done, n)
count_idle bus cluster_ids (suc count) id done n =
    let c = cluster_ids id in
    let idle = if cluster_busy c (bus.busy c n) == 0 then 1 else 0 in
    count_idle bus cluster_ids count (suc id) (done + idle) (n + 1)

-- The call at `syscall_addr`, whose words are read from access `n` on, with the next access.
pub call_actions : Bus → (syscall_addr n : ℕ) → List Action × ℕ
call_actions bus syscall_addr n =
    let buf = bus.word n (syscall_addr + 8) in
    let number = bus.word (n + 1) syscall_addr in
    let count = bus.word (n + 2) (syscall_addr + 12) in
    if number == 64
    then (acknowledged ∷ fwrite buf count ∷ answered syscall_addr ∷ [], n + 3)
    else (acknowledged ∷ unknown_syscall number ∷ answered syscall_addr ∷ [], n + 2)

-- The part of a round that serves a cluster.
pub serve_call : Bus → Host → (n : ℕ) → Host × ℕ
serve_call bus host n =
    let call = call_actions bus (u32 (bus.device_to_host (n + 1))) (n + 2) in
    if bus.device_to_host n == 0
    then (host, n + 1)
    else (record host { actions = host.actions ++ call.0 }, call.1)

-- The loop, with `fuel` rounds; `true` is `timed_out`.
pub watch :
    Bus
    → (reads fuel clusters : ℕ) → (ℕ → ℕ)
    → Mtime
    → (done : ℕ) → Host
    → (n : ℕ) → Timed (Bool × Host)
watch bus reads zero clusters cluster_ids deadline done host n = none
watch bus reads (suc fuel) clusters cluster_ids deadline done host n = elim (done == clusters) [
  | true ↦ some ((false, host), n)
  | false ↦
      let polled = count_idle bus cluster_ids clusters 0 0 n in
      get_mtime bus.counters reads polled.1 >>= λ r. elim (less_than deadline r.0) [
        | true ↦ some ((true, host), r.1)
        | false ↦
            let s = serve_call bus host r.1 in
            sleep_ticks bus.counters reads 0 10 s.0.core s.1 >>= λ q.
            watch bus reads fuel clusters cluster_ids deadline polled.0 (record s.0 { core = q.0 })
              q.1
      ]
]

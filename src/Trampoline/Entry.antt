-- ===== src/Trampoline/Entry.antt =====
-- A released core enters the function that the host has set up for it.
use chimera_sdk.Base.{
  ℕ, suc, ◌+◌, ◌*◌, ◌/◌, ◌%◌, ◌^◌, ◌<◌, ◌≡◌, ◌≢◌, ◌∙◌, refl, ap, arith, bit_and, u32, sub32, some,
}
use chimera_sdk.Base.Bits.{bit_and_parts, bit_and_low}
use chimera_sdk.Offload.{Soc}
use chimera_sdk.Offload.Launch.{core_at}
use chimera_sdk.Offload.Whole.{offload_cluster, offload_cluster_lem}
use chimera_sdk.Trampoline.{Core, Layout, exec_all, trampoline, minus, sp, tp, a0}

-- The core reads the arrays of the shared data where the linker has put them.
pub record IsShared (l : Layout) (soc : Soc) (c : Core) : Type 0 where
  pub function_at :
      (i : ℕ) → i < 45 → c.mem (u32 (l.shared_data + l.off_func + 4 * i)) ≡ soc.function i
  pub args_at : (i : ℕ) → i < 45 → c.mem (u32 (l.shared_data + l.off_args + 4 * i)) ≡ soc.args i
  pub stack_at : (i : ℕ) → i < 45 → c.mem (u32 (l.shared_data + l.off_stack + 4 * i)) ≡ soc.stack i

-- The thread pointer for a stack pointer.
abbrev pub thread_pointer : Layout → ℕ → ℕ
thread_pointer l stack =
    sub32 (sub32 stack (sub32 l.tdata_end l.tdata_start)) (sub32 l.tbss_end l.tbss_start)

-- `andi` with -15 clears the bits 1 to 3.
pub and_minus_15 : (n : ℕ) → n < 2 ^ 32 → bit_and n (minus 15) ≡ n / 16 * 16 + n % 2
and_minus_15 n h =
    let e : bit_and (n / 2 ^ 4 * 2 ^ 4 + n % 2 ^ 4) (0xFFFFFFF * 2 ^ 4 + 1)
        ≡ bit_and (n / 2 ^ 4) 0xFFFFFFF * 2 ^ 4 + bit_and (n % 2 ^ 4) 1 =
      bit_and_parts 4 (n / 2 ^ 4) (n % 2 ^ 4) 0xFFFFFFF 1 (omega arith) (omega arith) in
    let l : n / 2 ^ 4 * 2 ^ 4 + n % 2 ^ 4 ≡ n = omega arith in
    let high = bit_and_low 28 (n / 2 ^ 4) in
    let low = bit_and_low 1 (n % 2 ^ 4) in rw (l, high, low) at e ∙ omega (arith, h)

-- Where the core of hart `suc i` looks its word of an array up.
entry_address :
    (base off i : ℕ)
    → i < 45
    → u32 (u32 (base + off) + u32 (u32 (suc i + minus 1) * 2 ^ 2)) ≡ u32 (base + off + 4 * i)
entry_address base off i h = omega (arith, h)

-- A core whose hart is the `i`-th of the clusters, with the shared data where the linker has put them:
-- the trampoline enters the `i`-th function, its bit 0 cleared, with the `i`-th argument, below the `i`-th stack pointer
-- less the two thread-local sections, and leaves the memory as it is.
pub trampoline-enters :
    (l : Layout) (soc : Soc) (c : Core) (i : ℕ)
    → IsShared l soc c
    → i < 45
    → c.mhartid ≡ suc i
    → let t = exec_all (trampoline l) c in
      let thread = thread_pointer l (soc.stack i) in
      (t.pc ≡ soc.function i / 2 * 2)
      × (t.x a0 ≡ soc.args i)
      × (t.x tp ≡ thread)
      × (t.x sp ≡ thread / 16 * 16 + thread % 2)
      × (t.mem ≡ c.mem)
unfolding exec_all
trampoline-enters l soc c i shared lt hart =
    let stack = entry_address l.shared_data l.off_stack i lt in
    let function = entry_address l.shared_data l.off_func i lt in
    let args = entry_address l.shared_data l.off_args i lt in
    rw
      (
        hart,
        stack,
        function,
        args,
        shared.stack_at i lt,
        shared.function_at i lt,
        shared.args_at i lt,
        and_minus_15 (thread_pointer l (soc.stack i)) (omega arith),
      )
      (refl, refl, refl, refl, refl)

-- For core `j` of the nine of one of the five clusters, after an offload to the cluster, whose
-- busy register is 1 for `k` reads and then not, if the core's memory shows the shared data where
-- the linker has put them, and its thread pointer comes out even: the offload returns, and then
-- the core's trampoline enters the low 32 bits of the offloaded function, with bit 0 cleared by the
-- jump, and with the low 32 bits of the argument, bit 0 as it is. The thread pointer is the core's stack pointer less the thread-local sections, and the
-- stack is that, rounded down to 16 bytes.
pub offload-enters :
    (k function boot args : ℕ) (stack_ptr : ℕ → ℕ) (c j : ℕ) (polls : ℕ → ℕ) (n : ℕ) (soc : Soc)
    (l : Layout) (view : Soc → Core)
    → c < 5
    → j < 9
    → ((i : ℕ) → i < k → polls (n + i) ≡ 1)
    → polls (n + k) ≢ 1
    → ((t : Soc) → IsShared l t (view t))
    → ((t : Soc) → (view t).mhartid ≡ suc (core_at c j))
    → thread_pointer l (u32 (stack_ptr j)) % 2 ≡ 0
    → let thread = thread_pointer l (u32 (stack_ptr j)) in
      (t : Soc) × (offload_cluster (suc k) function boot args stack_ptr c polls n soc ≡ some t)
      × ((exec_all (trampoline l) (view t)).pc ≡ u32 function / 2 * 2)
      × ((exec_all (trampoline l) (view t)).x a0 ≡ u32 args)
      × ((exec_all (trampoline l) (view t)).x tp ≡ thread)
      × ((exec_all (trampoline l) (view t)).x sp ≡ thread / 16 * 16)
offload-enters k function boot args stack_ptr c j polls n soc l view c_lt j_lt busy idle shared hart
      even =
    let (t, offloaded, ready, on) =
      offload_cluster_lem k function boot args stack_ptr c j polls n soc c_lt j_lt busy idle in
    let (enters, given, thread, stack, mem) =
      trampoline-enters l t (view t) (core_at c j) (shared t) (omega arith) (hart t) in
    let thread_is : thread_pointer l (t.stack (core_at c j))
        ≡ thread_pointer l (u32 (stack_ptr j)) =
      ap (thread_pointer l) ready.stack_is in
    (
      t,
      offloaded,
      enters ∙ ap (λ f. f / 2 * 2) ready.function_is,
      given ∙ ready.args_is,
      thread ∙ thread_is,
      stack ∙ rw thread_is (omega (arith, even)),
    )

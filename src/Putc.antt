-- ===== src/Putc.antt =====
-- The character output of the clusters' cores, devices/snitch_cluster/runtime/putc.c, and the loop
-- of a host that serves it: tests/snitchCluster/snrt/src_host/test_host.c, and the runner
-- targets/chimera-convolve/host/src/test.c. The cores and the host take turns in any order, one
-- access to shared memory at a time; what a core or the host does in between, on memory that the
-- others do not use then, is joined with a step. Addresses do not wrap, as the array lies in memory as
-- a whole, and memory is sequentially consistent. The mutex is that of the Snitch library, which the build
-- fetches: it is taken only while it is 0.
pub mod Phase
mod Stages
mod Moves
pub mod Keep
pub mod Output
pub mod Progress
pub mod Complete
pub mod Runner
mod Tests
use chimera_sdk.Base.{
  ℕ, zero, suc, ◌+◌, ◌-◌, ◌*◌, ◌^◌, ◌%◌, ◌≡◌, ◌≢◌, Bool, true, false, leb, List, [], ◌∷◌, ◌++◌,
  ◌||◌, ◌==◌, if◌then◌else◌,
}

-- A family changed at one index.
abbrev pub update {ℓ} : {A : Type ℓ} → (ℕ → A) → ℕ → A → ℕ → A
update f i a j = if j == i then a else f j

-- `PUTC_BUFFER_LEN` on RV32
abbrev pub putc_buffer_len : ℕ
putc_buffer_len = 1024 - 4

-- The words of `syscall_mem` that are used: the number, the buffer's address and the length.
pub record Header : Type 0 where
  pub number : ℕ
  pub buf : ℕ
  pub len : ℕ

-- The addresses of `syscall_mem` and of `data` in `putc_buffer[i]`, with the array at `base`:
-- a size of 4 bytes, 8 words, and the characters.
abbrev pub syscall_addr : ℕ → ℕ → ℕ
syscall_addr base i = base + 1056 * i + 4

abbrev pub data_addr : ℕ → ℕ → ℕ
data_addr base i = base + 1056 * i + 36

-- Where a core stands in `snrt_putchar`.
pub data Pc : Type 0 where
  idle : Pc  -- outside
  want : Pc  -- header filled, before the mutex
  holding : Pc  -- before `device_to_host`
  posted : Pc  -- before the software interrupt
  waiting : Pc  -- in the `while`
  woken : Pc  -- before `host_to_device` is cleared
  cleared : Pc  -- before the size is reset and the mutex released

-- Where the host stands in the body of its loop.
pub data HostPc : Type 0 where
  polling : HostPc
  got : ℕ → HostPc  -- before `device_to_host` is cleared
  took : ℕ → HostPc  -- before the system call is served
  served : ℕ → HostPc  -- before the cluster is notified

-- `running` is the cluster's busy register, which the host reads. Two variables are history: `spoken` has
-- the characters of the flushes that have returned, and `overrun` says whether a core has ever stored a
-- character behind its buffer. In C that store changes the memory behind the buffer, so the arrays
-- stand for the program's memory as long as `overrun` is false, and for nothing behind that.
pub record System : Type 0 where
  pub pc : ℕ → Pc
  pub size : ℕ → ℕ
  pub chars : ℕ → ℕ → ℕ
  pub header : ℕ → Header
  pub lock : ℕ
  pub host_to_device : ℕ
  pub device_to_host : ℕ
  pub msip : ℕ
  pub running : Bool
  pub host : HostPc
  pub output : List ℕ
  pub spoken : List ℕ
  pub overrun : Bool

-- The first `n` characters of an array.
unfoldable pub prefix : (ℕ → ℕ) → ℕ → List ℕ
prefix f zero = []
prefix f (suc n) = prefix f n ++ (f n ∷ [])

-- What core `i` has in its buffer.
abbrev pub message : ℕ → System → ℕ → List ℕ
message base s i = prefix (s.chars (data_addr base i)) (s.size i)

-- The store of a character, which overruns a buffer that is full, and the test for a flush behind it.
abbrev pub put_char : ℕ → System → ℕ → ℕ → System
put_char base s i c = record s {
  chars = update s.chars (data_addr base i) (update (s.chars (data_addr base i)) (s.size i) c);
  size = update s.size i (suc (s.size i) % 2 ^ 32);
  overrun = s.overrun || leb putc_buffer_len (s.size i);
}

abbrev pub must_flush : ℕ → ℕ → Bool
must_flush size c = (size == putc_buffer_len) || (c == b'\n')

-- The header for `sys_write`, and the core on its way to the mutex.
abbrev pub fill_header : ℕ → System → ℕ → System
fill_header base s i = record s {
  header =
      update s.header (syscall_addr base i)
        (record { number = 64; buf = data_addr base i; len = s.size i });
  pc = update s.pc i want;
}

abbrev pub put : ℕ → System → ℕ → ℕ → System
put base s i c =
    let t = put_char base s i c in if must_flush (t.size i) c then fill_header base t i else t

-- What the host writes for the call whose header is at `a`.
abbrev pub serve : System → ℕ → List ℕ
serve s a =
    let h = s.header a in
    if h.number == 64 then s.output ++ prefix (s.chars h.buf) h.len else s.output

-- Two ways to notify the cluster: the word it waits for, and the one that the runner writes.
pub data Notify : Type 0 where
  to_device : Notify
  to_host : Notify

abbrev pub notify : Notify → System → ℕ → System
notify to_device s a = record s { host_to_device = a; host = polling }
notify to_host s a = record s { device_to_host = a; host = polling }

-- Is the body of the host's loop entered? test_host.c asks for the cluster's busy register, in the same
-- turn as it polls; the runner polls in each of its rounds.
abbrev pub may_poll : Notify → System → Bool
may_poll to_device s = s.running
may_poll to_host s = true

pub data Step (base : ℕ) (way : Notify) (s t : System) : Type 0 where
  putc : (i c : ℕ) → s.pc i ≡ idle → t ≡ put base s i c → Step base way s t
  acquire :
      (i : ℕ)
      → s.pc i ≡ want
      → s.lock ≡ 0
      → t ≡ record s { lock = 1; pc = update s.pc i holding }
      → Step base way s t
  post :
      (i : ℕ)
      → s.pc i ≡ holding
      → t ≡ record s { device_to_host = syscall_addr base i; pc = update s.pc i posted }
      → Step base way s t
  ring :
      (i : ℕ)
      → s.pc i ≡ posted
      → t ≡ record s { msip = 1; pc = update s.pc i waiting }
      → Step base way s t
  see :
      (i : ℕ)
      → s.pc i ≡ waiting
      → s.host_to_device ≢ 0
      → t ≡ record s { pc = update s.pc i woken }
      → Step base way s t
  clear :
      (i : ℕ)
      → s.pc i ≡ woken
      → t ≡ record s { host_to_device = 0; pc = update s.pc i cleared }
      → Step base way s t
  release :
      (i : ℕ)
      → s.pc i ≡ cleared
      → t ≡ record s {
        size = update s.size i 0;
        lock = 0;
        pc = update s.pc i idle;
        spoken = s.spoken ++ message base s i;
      }
      → Step base way s t
  poll :
      s.host ≡ polling
      → may_poll way s ≡ true
      → s.device_to_host ≢ 0
      → t ≡ record s { host = got s.device_to_host }
      → Step base way s t
  take :
      (a : ℕ)
      → s.host ≡ got a
      → t ≡ record s { device_to_host = 0; host = took a }
      → Step base way s t
  write :
      (a : ℕ)
      → s.host ≡ took a
      → t ≡ record s { output = serve s a; host = served a }
      → Step base way s t
  tell : (a : ℕ) → s.host ≡ served a → t ≡ notify way s a → Step base way s t
  retire : t ≡ record s { running = false } → Step base way s t

pub data Reach (base : ℕ) (way : Notify) (s : System) : System → Type 0 where
  start : Reach base way s s
  step : {t u : System} → Reach base way s t → Step base way t u → Reach base way s u

-- Before the first character: no core in a call, no word set, every buffer as `size` finds it.
pub record IsInitial (s : System) : Type 0 where
  pub all_idle : (i : ℕ) → s.pc i ≡ idle
  pub unlocked : s.lock ≡ 0
  pub no_answer : s.host_to_device ≡ 0
  pub no_call : s.device_to_host ≡ 0
  pub host_polls : s.host ≡ polling
  pub silent : s.output ≡ s.spoken

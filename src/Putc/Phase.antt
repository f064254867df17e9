-- ===== src/Putc/Phase.antt =====
-- How far the call in progress is: a ghost variable that fixes what the shared words hold.
use chimera_sdk.Base.{ℕ, ◌≡◌, ◌≢◌, ◌++◌, Bool, true, false, List, if◌then◌else◌, ◌==◌}
use chimera_sdk.Putc.{
  syscall_addr, data_addr, Pc, idle, want, holding, posted, waiting, woken, cleared, HostPc,
  polling, got, took, served, System, message,
}

-- `hold`, then `call`, and what the host has done, up to the release.
pub data Part : Type 0 where
  hold : Part
  call : Part
  seen : Part
  taken : Part
  shown : Part
  told : Part
  done : Part

pub data Stage : Type 0 where
  free : Stage
  busy : ℕ → Part → Stage

abbrev pub lock_of : Stage → ℕ
lock_of free = 0
lock_of (busy h f) = 1

-- `device_to_host` and `host_to_device` of a call whose header is at `a`
abbrev pub call_of : ℕ → Part → ℕ
call_of a call = a
call_of a seen = a
call_of a _ = 0

abbrev pub answer_of : ℕ → Part → ℕ
answer_of a told = a
answer_of a _ = 0

abbrev pub host_of : ℕ → Part → HostPc
host_of a seen = got a
host_of a taken = took a
host_of a shown = served a
host_of a _ = polling

abbrev pub outside : Pc → Bool
outside idle = true
outside want = true
outside _ = false

-- Where the owner of the mutex may stand.
abbrev pub inside : Part → Pc → Bool
inside hold holding = true
inside hold _ = false
inside done cleared = true
inside done _ = false
inside told posted = true
inside told waiting = true
inside told woken = true
inside told _ = false
inside _ posted = true
inside _ waiting = true
inside _ _ = false

abbrev pub printed : Part → Bool
printed shown = true
printed told = true
printed done = true
printed _ = false

abbrev pub call_at : ℕ → Stage → ℕ
call_at base free = 0
call_at base (busy h f) = call_of (syscall_addr base h) f

abbrev pub answer_at : ℕ → Stage → ℕ
answer_at base free = 0
answer_at base (busy h f) = answer_of (syscall_addr base h) f

abbrev pub host_at : ℕ → Stage → HostPc
host_at base free = polling
host_at base (busy h f) = host_of (syscall_addr base h) f

abbrev pub allows : Stage → ℕ → Pc → Bool
allows free i p = outside p
allows (busy h f) i p = if i == h then inside f p else outside p

abbrev pub said : ℕ → System → Stage → List ℕ
said base s free = s.spoken
said base s (busy h f) = if printed f then s.spoken ++ message base s h else s.spoken

pub record IsPhase (base : ℕ) (g : Stage) (s : System) : Type 0 where
  pub lock : s.lock ≡ lock_of g
  pub call : s.device_to_host ≡ call_at base g
  pub answer : s.host_to_device ≡ answer_at base g
  pub host : s.host ≡ host_at base g
  pub cores : (i : ℕ) → allows g i (s.pc i) ≡ true
  pub filled :
      (i : ℕ)
      → s.pc i ≢ idle
      → s.header (syscall_addr base i)
        ≡ record { number = 64; buf = data_addr base i; len = s.size i }
  pub output : s.output ≡ said base s g

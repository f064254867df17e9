-- ===== src/Putc/Moves.antt =====
-- The steps of a call, each from the stage that it needs to the next.
use chimera_sdk.Base.{ℕ, ◌≡◌, ◌≢◌, ◌++◌, refl, true, arith}
use chimera_sdk.Putc.{
  update, syscall_addr, idle, want, holding, posted, waiting, woken, cleared, got, took, served,
  System, message, serve, notify, to_device,
}
use chimera_sdk.Putc.Phase.{
  Part, hold, call, seen, taken, shown, told, done, free, busy, IsPhase, inside,
}

module _ {base : ℕ} {s : System} where
  pub acquire-IsPhase :
      (i : ℕ)
      → IsPhase base free s
      → s.pc i ≡ want
      → IsPhase base (busy i hold) (record s { lock = 1; pc = update s.pc i holding })
  acquire-IsPhase i p at_i = record {
    lock = refl;
    call = p.call;
    answer = p.answer;
    host = p.host;
    cores = λ j. ground (arith, p.cores j);
    filled = λ j out. ground (arith, p.filled j);
    output = p.output;
  }

  pub post-IsPhase :
      (i : ℕ)
      → IsPhase base (busy i hold) s
      → s.pc i ≡ holding
      → IsPhase base
          (busy i call)
          (record s { device_to_host = syscall_addr base i; pc = update s.pc i posted })
  post-IsPhase i p at_i = record {
    lock = p.lock;
    call = refl;
    answer = p.answer;
    host = p.host;
    cores = λ j. ground (arith, p.cores j);
    filled = λ j out. ground (arith, p.filled j);
    output = p.output;
  }

  pub ring-IsPhase :
      (i : ℕ) (f : Part)
      → IsPhase base (busy i f) s
      → s.pc i ≡ posted
      → inside f waiting ≡ true
      → IsPhase base (busy i f) (record s { msip = 1; pc = update s.pc i waiting })
  ring-IsPhase i f p at_i there = record {
    lock = p.lock;
    call = p.call;
    answer = p.answer;
    host = p.host;
    cores = λ j. ground (arith, p.cores j);
    filled = λ j out. ground (arith, p.filled j);
    output = p.output;
  }

  pub see-IsPhase :
      (i : ℕ)
      → IsPhase base (busy i told) s
      → s.pc i ≡ waiting
      → IsPhase base (busy i told) (record s { pc = update s.pc i woken })
  see-IsPhase i p at_i = record {
    lock = p.lock;
    call = p.call;
    answer = p.answer;
    host = p.host;
    cores = λ j. ground (arith, p.cores j);
    filled = λ j out. ground (arith, p.filled j);
    output = p.output;
  }

  pub clear-IsPhase :
      (i : ℕ)
      → IsPhase base (busy i told) s
      → s.pc i ≡ woken
      → IsPhase base (busy i done) (record s { host_to_device = 0; pc = update s.pc i cleared })
  clear-IsPhase i p at_i = record {
    lock = p.lock;
    call = p.call;
    answer = refl;
    host = p.host;
    cores = λ j. ground (arith, p.cores j);
    filled = λ j out. ground (arith, p.filled j);
    output = p.output;
  }

  pub release-IsPhase :
      (i : ℕ)
      → IsPhase base (busy i done) s
      → s.pc i ≡ cleared
      → IsPhase base free (record s {
        size = update s.size i 0;
        lock = 0;
        pc = update s.pc i idle;
        spoken = s.spoken ++ message base s i;
      })
  release-IsPhase i p at_i = record {
    lock = refl;
    call = p.call;
    answer = p.answer;
    host = p.host;
    cores = λ j. ground (arith, p.cores j);
    filled = λ j out. ground (arith, p.filled j);
    output = p.output;
  }

  pub poll-IsPhase :
      (h : ℕ)
      → IsPhase base (busy h call) s
      → IsPhase base (busy h seen) (record s { host = got s.device_to_host })
  poll-IsPhase h p = record {
    lock = p.lock;
    call = p.call;
    answer = p.answer;
    host = cc p.call;
    cores = λ j. ground (arith, p.cores j);
    filled = p.filled;
    output = p.output;
  }

  pub take-IsPhase :
      (h : ℕ)
      → IsPhase base (busy h seen) s
      → IsPhase base
          (busy h taken)
          (record s { device_to_host = 0; host = took (syscall_addr base h) })
  take-IsPhase h p = record {
    lock = p.lock;
    call = refl;
    answer = p.answer;
    host = refl;
    cores = λ j. ground (arith, p.cores j);
    filled = p.filled;
    output = p.output;
  }

  pub owner_out : (h : ℕ) → IsPhase base (busy h taken) s → s.pc h ≢ idle
  owner_out h p e = absurd (ground (arith, p.cores h))

  serve-message :
      (h : ℕ)
      → IsPhase base (busy h taken) s
      → serve s (syscall_addr base h) ≡ s.spoken ++ message base s h
  serve-message h p = rw (p.filled h (owner_out h p), p.output) refl

  pub write-IsPhase :
      (h : ℕ)
      → IsPhase base (busy h taken) s
      → IsPhase base
          (busy h shown)
          (record s { output = serve s (syscall_addr base h); host = served (syscall_addr base h) })
  write-IsPhase h p = record {
    lock = p.lock;
    call = p.call;
    answer = p.answer;
    host = refl;
    cores = λ j. ground (arith, p.cores j);
    filled = p.filled;
    output = serve-message h p;
  }

  pub tell-IsPhase :
      (h : ℕ)
      → IsPhase base (busy h shown) s
      → IsPhase base (busy h told) (notify to_device s (syscall_addr base h))
  tell-IsPhase h p = record {
    lock = p.lock;
    call = p.call;
    answer = refl;
    host = refl;
    cores = λ j. ground (arith, p.cores j);
    filled = p.filled;
    output = p.output;
  }

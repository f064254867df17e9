-- ===== src/Putc/Tests.antt =====
-- One core prints the end of a line.
use chimera_sdk.Base.{ℕ, ◌≡◌, ◌≢◌, refl, sym, [], ◌∷◌, arith, true, false}
use chimera_sdk.Putc.{
  prefix, idle, cleared, woken, waiting, polling, took, served, System, Notify, to_device, to_host,
  putc, acquire, post, ring, see, clear, release, poll, take, write, tell, Reach, start, step,
  IsInitial, may_poll,
}
use chimera_sdk.Putc.Output.{output-eq-spoken, mutex-IsExclusive, IsRoomy}
use chimera_sdk.Putc.Complete.{IsFlushed, flush-completes}
use chimera_sdk.Putc.Runner.{runner-never_returns}

abbrev quiet : System
quiet = record {
  pc = λ i. idle;
  size = λ i. 0;
  chars = λ a k. 0;
  header = λ a. record { number = 0; buf = 0; len = 0 };
  lock = 0;
  host_to_device = 0;
  device_to_host = 0;
  msip = 0;
  host = polling;
  output = [];
  spoken = [];
  running = true;
  overrun = false;
}

quiet-IsInitial : IsInitial quiet
quiet-IsInitial = record {
  all_idle = λ i. refl;
  unlocked = refl;
  no_answer = refl;
  no_call = refl;
  host_polls = refl;
  silent = refl;
}

quiet-IsRoomy : IsRoomy quiet
quiet-IsRoomy = record { within = refl; room = λ i. (omega arith, λ e. omega arith) }

can_poll : (way : Notify) (s : System) → s.running ≡ true → may_poll way s ≡ true
can_poll to_device s on = on
can_poll to_host s on = refl

-- Up to the host's copy of the call.
abbrev line_taken :
    (way : Notify)
    → (t : System) × Reach 4096 way quiet t × (t.host ≡ took 4100) × (t.pc 0 ≡ waiting)
line_taken way = (
  _,
  step
      (step
        (step
          (step (step (step start (putc 0 10 refl refl)) (acquire 0 refl refl refl))
            (post 0 refl refl))
          (ring 0 refl refl))
        (poll refl (can_poll way _ refl) (λ e. omega (arith, e)) refl))
      (take 4100 refl refl),
  refl,
  refl,
)

-- Up to the core's release of the mutex.
abbrev line_answered : (t : System) × Reach 4096 to_device quiet t × (t.pc 0 ≡ cleared)
line_answered = (
  _,
  step
      (step (step (step (line_taken to_device).1 (write 4100 refl refl)) (tell 4100 refl refl))
        (see 0 refl (λ e. omega (arith, e)) refl))
      (clear 0 refl refl),
  refl,
)

abbrev line_done : (t : System) × Reach 4096 to_device quiet t × (t.lock ≡ 0)
line_done = (_, step line_answered.1 (release 0 refl refl), refl)

abbrev line_served : (t : System) × Reach 4096 to_host quiet t × (t.host ≡ served 4100)
line_served = (_, step (line_taken to_host).1 (write 4100 refl refl), refl)

output-eq-spoken_example : (line_done.0.output ≡ 10 ∷ []) × (line_done.0.overrun ≡ false)
unfolding prefix
output-eq-spoken_example = output-eq-spoken quiet-IsInitial quiet-IsRoomy line_done.1 refl

mutex-IsExclusive_example : ◌≡◌ {A = ℕ} 0 0
mutex-IsExclusive_example = mutex-IsExclusive 0 0 quiet-IsInitial line_answered.1 refl refl

flush-completes_example :
    (u : System) × Reach 4096 to_device (line_taken to_device).0 u
    × IsFlushed 4096 0 (line_taken to_device).0 u
    × (u.overrun ≡ false)
flush-completes_example =
    flush-completes 0 quiet-IsInitial quiet-IsRoomy (line_taken to_device).1 refl
      (λ e. waiting_ne (sym e))
  where
    waiting_ne : idle ≢ waiting
    waiting_ne e = cc

runner-never_returns_example :
    (line_served.0.pc 0 ≢ woken) × (line_served.0.pc 0 ≢ cleared) × (line_served.0.spoken ≡ [])
runner-never_returns_example = runner-never_returns 0 quiet-IsInitial line_served.1

-- ===== src/Putc/Runner.antt =====
-- The runner of chimera-convolve, which answers in `device_to_host`.
use chimera_sdk.Base.{ℕ, ◌≡◌, ◌≢◌, refl, List, arith}
use chimera_sdk.Putc.{
  woken, cleared, served, System, serve, to_host, Step, putc, acquire, post, ring, see, clear,
  release, poll, take, write, tell, retire, Reach, start, step, IsInitial,
}
use chimera_sdk.Putc.Progress.{before}

-- No answer, and nobody behind the wait for one.
record IsStuck (m : List ℕ) (s : System) : Type 0 where
  answer : s.host_to_device ≡ 0
  cores : (i : ℕ) → (s.pc i ≢ woken) × (s.pc i ≢ cleared)
  spoken : s.spoken ≡ m

Step-IsStuck :
    {base : ℕ} {m : List ℕ} {s t : System} → Step base to_host s t → IsStuck m s → IsStuck m t
Step-IsStuck (putc i c at_i e) p = rw e (ground (arith, p))
Step-IsStuck (acquire i at_i unlocked e) p =
    rw e (record { answer = p.answer; cores = λ j. ground (arith, p.cores j); spoken = p.spoken })
Step-IsStuck (post i at_i e) p =
    rw e (record { answer = p.answer; cores = λ j. ground (arith, p.cores j); spoken = p.spoken })
Step-IsStuck (ring i at_i e) p =
    rw e (record { answer = p.answer; cores = λ j. ground (arith, p.cores j); spoken = p.spoken })
Step-IsStuck (see i at_i set e) p = absurd (set p.answer)
Step-IsStuck (clear i at_i e) p = absurd ((p.cores i).0 at_i)
Step-IsStuck (release i at_i e) p = absurd ((p.cores i).1 at_i)
Step-IsStuck (poll at_h may set e) p =
    rw e (record { answer = p.answer; cores = p.cores; spoken = p.spoken })
Step-IsStuck (take a at_h e) p =
    rw e (record { answer = p.answer; cores = p.cores; spoken = p.spoken })
Step-IsStuck (write a at_h e) p =
    rw e (record { answer = p.answer; cores = p.cores; spoken = p.spoken })
Step-IsStuck (tell a at_h e) p =
    rw e (record { answer = p.answer; cores = p.cores; spoken = p.spoken })
Step-IsStuck (retire e) p = rw e (record { answer = p.answer; cores = p.cores; spoken = p.spoken })

Reach-IsStuck :
    {base : ℕ} {s t : System} → IsInitial s → Reach base to_host s t → IsStuck s.spoken t
Reach-IsStuck z start = record {
  answer = z.no_answer;
  cores = λ i. ((λ e. cc (z.all_idle i, e)), (λ e. cc (z.all_idle i, e)));
  spoken = refl;
}
Reach-IsStuck z (step r st) = Step-IsStuck st (Reach-IsStuck z r)

-- With the runner of chimera-convolve as the host and from a state before the first character: no
-- core comes past the wait of a flush, whatever the order of the steps, and no flush returns.
pub runner-never_returns :
    {base : ℕ} {s t : System} (i : ℕ)
    → IsInitial s
    → Reach base to_host s t
    → (t.pc i ≢ woken) × (t.pc i ≢ cleared) × (t.spoken ≡ s.spoken)
runner-never_returns i z r = let p = Reach-IsStuck z r in ((p.cores i).0, (p.cores i).1, p.spoken)

-- With the runner of chimera-convolve as the host: after it has served a call at an address that is
-- not 0, its own next steps lead to the same call served again.
pub runner-repeats :
    {base : ℕ} (s : System) (a : ℕ)
    → s.host ≡ served a
    → a ≢ 0
    → (u : System) × Reach base to_host s u × (u.host ≡ served a) × (u.output ≡ serve s a)
runner-repeats s a at_h set = (
  _,
  before (tell a at_h refl) (
      before (poll refl refl set refl)
        (before (take a refl refl) (step start (write a refl refl)))),
  refl,
  refl,
)

-- ===== src/Putc/Keep.antt =====
-- Every step keeps the invariant of the calls.
use native.Mathlib.Decide.{ℕ_discrete}
use chimera_sdk.Base.{ℕ, ◌≡◌, ◌≢◌, refl, sym, ◌∙◌, true, false, inl, inr, Bool-cases, arith}
use chimera_sdk.Putc.{
  Pc, idle, holding, posted, waiting, woken, cleared, System, message, put_char, fill_header,
  must_flush, put, to_device, Step, putc, acquire, post, ring, see, clear, release, poll, take,
  write, tell, retire, Reach, start, step, IsInitial,
}
use chimera_sdk.Putc.Phase.{
  Part, hold, call, seen, taken, shown, told, done, Stage, free, busy, IsPhase, allows, inside,
  outside, said,
}
use chimera_sdk.Putc.Stages.{
  lock-eq-zero, owner, not_inside_idle, allows_want, inside_holding, inside_woken, inside-cleared,
  inside_posted, answered, called, host_got, host_took, host_served,
}
use chimera_sdk.Putc.Moves.{
  acquire-IsPhase, post-IsPhase, ring-IsPhase, see-IsPhase, clear-IsPhase, release-IsPhase,
  poll-IsPhase, take-IsPhase, write-IsPhase, tell-IsPhase,
}

-- Neither the characters nor the size of another core's message change.
message-put_char :
    (base : ℕ) (s : System) (i c h : ℕ)
    → h ≢ i
    → message base (put_char base s i c) h ≡ message base s h
message-put_char base s i c h other = ground (arith, other)

said-put_char :
    (base : ℕ) (s : System) (i c : ℕ) (g : Stage)
    → allows g i idle ≡ true
    → said base (put_char base s i c) g ≡ said base s g
said-put_char base s i c free e = refl
said-put_char base s i c (busy h f) e = elim (ℕ_discrete h i) [
  | yes same ↦ absurd (ground (arith, not_inside_idle f))
  | no other ↦ rw (message-put_char base s i c h other) refl
]

module _ {base : ℕ} {s : System} where
  put_char-IsPhase :
      (i c : ℕ) (g : Stage)
      → IsPhase base g s
      → s.pc i ≡ idle
      → IsPhase base g (put_char base s i c)
  put_char-IsPhase i c g p at_i = record {
    lock = p.lock;
    call = p.call;
    answer = p.answer;
    host = p.host;
    cores = p.cores;
    filled = λ j out. ground (arith, p.filled j);
    output = p.output ∙ sym (said-put_char base s i c g (rw at_i at (p.cores i)));
  }

  fill_header-IsPhase :
      (i : ℕ) (g : Stage) → IsPhase base g s → s.pc i ≡ idle → IsPhase base g (fill_header base s i)
  fill_header-IsPhase i g p at_i = record {
    lock = p.lock;
    call = p.call;
    answer = p.answer;
    host = p.host;
    cores = λ j. ground (arith, p.cores j, allows_want g i (rw at_i at (p.cores i)));
    filled = λ j out. ground (arith, p.filled j);
    output = p.output;
  }

put-IsPhase :
    {base : ℕ} {s : System} (i c : ℕ) (g : Stage)
    → IsPhase base g s
    → s.pc i ≡ idle
    → IsPhase base g (put base s i c)
put-IsPhase {base} {s} i c g p at_i =
    let q : IsPhase base g (put_char base s i c) = put_char-IsPhase i c g p at_i in
    elim (Bool-cases (must_flush ((put_char base s i c).size i) c)) [
      | inl flush ↦ rw flush (fill_header-IsPhase i g q at_i)
      | inr stay ↦ rw stay q
    ]

-- The part of the call that a core in the critical section is at.
owned :
    {base : ℕ} {s : System} {g : Stage} (i : ℕ) (at : Pc)
    → IsPhase base g s
    → s.pc i ≡ at
    → outside at ≡ false
    → (f : Part) × (g ≡ busy i f) × (inside f at ≡ true)
owned {g} i at p e out = owner g i at (rw e at (p.cores i)) out

-- Every step keeps the invariant, at some stage.
pub Step-IsPhase :
    {base : ℕ} {s t : System} (g : Stage)
    → Step base to_device s t
    → IsPhase base g s
    → (g' : Stage) × IsPhase base g' t
Step-IsPhase g (putc i c at_i e) p = (g, rw e (put-IsPhase i c g p at_i))
Step-IsPhase {base} {s} g (acquire i at_i unlocked e) p =
    let is_free = lock-eq-zero g (sym p.lock ∙ unlocked) in
    (busy i hold, rw e (acquire-IsPhase i (rw is_free at p) at_i))
Step-IsPhase g (post i at_i e) p =
    let (f, own, in_f) = owned i holding p at_i refl in
    let q = rw (own, inside_holding f in_f) at p in (busy i call, rw e (post-IsPhase i q at_i))
Step-IsPhase g (ring i at_i e) p =
    let (f, own, in_f) = owned i posted p at_i refl in
    (busy i f, rw e (ring-IsPhase i f (rw own at p) at_i (inside_posted f in_f)))
Step-IsPhase {base} g (see i at_i set e) p =
    let (h, is_told) = answered base g (rw p.answer at set) in
    let (f, own, in_f) = owned i waiting p at_i refl in
    let is : g ≡ busy i told = cc (own, is_told) in
    (busy i told, rw e (see-IsPhase i (rw is at p) at_i))
Step-IsPhase g (clear i at_i e) p =
    let (f, own, in_f) = owned i woken p at_i refl in
    (busy i done, rw e (clear-IsPhase i (rw (own, inside_woken f in_f) at p) at_i))
Step-IsPhase g (release i at_i e) p =
    let (f, own, in_f) = owned i cleared p at_i refl in
    (free, rw e (release-IsPhase i (rw (own, inside-cleared f in_f) at p) at_i))
Step-IsPhase {base} g (poll at_h may set e) p =
    let (h, is_call) = called base g (sym p.host ∙ at_h) (rw p.call at set) in
    (busy h seen, rw e (poll-IsPhase h (rw is_call at p)))
Step-IsPhase {base} g (take a at_h e) p =
    let (h, is_seen, addr) = host_got base g (sym p.host ∙ at_h) in
    (busy h taken, rw (e, sym addr) (take-IsPhase h (rw is_seen at p)))
Step-IsPhase {base} g (write a at_h e) p =
    let (h, is_taken, addr) = host_took base g (sym p.host ∙ at_h) in
    (busy h shown, rw (e, sym addr) (write-IsPhase h (rw is_taken at p)))
Step-IsPhase {base} g (tell a at_h e) p =
    let (h, is_shown, addr) = host_served base g (sym p.host ∙ at_h) in
    (busy h told, rw (e, sym addr) (tell-IsPhase h (rw is_shown at p)))
Step-IsPhase g (retire e) p = (
  g,
  rw e (record {
    lock = p.lock;
    call = p.call;
    answer = p.answer;
    host = p.host;
    cores = p.cores;
    filled = p.filled;
    output = p.output;
  }),
)

pub start-IsPhase : (base : ℕ) (s : System) → IsInitial s → IsPhase base free s
start-IsPhase base s z = record {
  lock = z.unlocked;
  call = z.no_call;
  answer = z.no_answer;
  host = z.host_polls;
  cores = λ i. rw (z.all_idle i) refl;
  filled = λ i out. absurd (out (z.all_idle i));
  output = z.silent;
}

pub Reach-IsPhase :
    {base : ℕ} {s t : System}
    → IsInitial s
    → Reach base to_device s t
    → (g : Stage) × IsPhase base g t
Reach-IsPhase {base} {s} z start = (free, start-IsPhase base s z)
Reach-IsPhase z (step r st) = let (g, p) = Reach-IsPhase z r in Step-IsPhase g st p

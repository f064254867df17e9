-- ===== src/Putc/Complete.antt =====
-- Every flush that has begun can be completed.
use native.Mathlib.Decide.{ℕ_discrete}
use mathlib.Core.List.{append_assoc}
use chimera_sdk.Base.{
  ℕ, ◌≡◌, ◌≢◌, ◌++◌, ◌∙◌, refl, sym, true, false, List, [], arith, Bool-cases, inl, inr,
}
use chimera_sdk.Putc.{
  idle, want, holding, System, message, Notify, to_device, acquire, Reach, start, step, IsInitial,
}
use chimera_sdk.Putc.Phase.{Part, Stage, free, busy, IsPhase, inside, outside}
use chimera_sdk.Putc.Stages.{at_want, not_inside_want}
use chimera_sdk.Putc.Keep.{Reach-IsPhase}
use chimera_sdk.Putc.Output.{IsRoomy, Reach-IsRoomy, unlocked-output}
use chimera_sdk.Putc.Progress.{update_ne, Ends, then, from_busy, flush-ends}

-- So can one that waits for the mutex while it is free.
take_turn :
    {base : ℕ} {s t : System} (i : ℕ)
    → IsInitial s
    → Reach base to_device s t
    → t.running ≡ true
    → t.pc i ≡ want
    → t.lock ≡ 0
    → Ends base i (t.spoken ++ message base t i) t
take_turn {t} i z r on at_i unlocked =
    let st = acquire i at_i unlocked refl in
    then st
      (record { pcs = update_ne t.pc i holding; sizes = λ j ne. refl; chars = refl; runs = refl })
      (flush-ends i z (step r st) on (ground arith))

reach_trans :
    {base : ℕ} {way : Notify} {s t u : System}
    → Reach base way s t
    → Reach base way t u
    → Reach base way s u
reach_trans r start = r
reach_trans r (step q st) = step (reach_trans r q) st

-- What a completed flush of core `i` leaves: the core outside, its message as it was at the end of the
-- output, and what was said before the flush, with at most other cores' messages in between.
pub record IsFlushed (base i : ℕ) (t u : System) : Type 0 where
  pub home : u.pc i ≡ idle
  pub unlocked : u.lock ≡ 0
  pub between : List ℕ
  pub output : u.output ≡ t.spoken ++ (between ++ message base t i)

-- The mutex is held by another core, which ends its call first.
after_other :
    {base : ℕ} {s t : System} (i h : ℕ) (f : Part)
    → IsInitial s
    → Reach base to_device s t
    → t.running ≡ true
    → t.pc i ≡ want
    → i ≢ h
    → IsPhase base (busy h f) t
    → (u : System) × Reach base to_device t u × IsFlushed base i t u
after_other {base} {s} {t} i h f z r on at_i ne p =
    let in_h : inside f (t.pc h) ≡ true = ground (arith, p.cores h) in
    let (u, r', unlocked, printed, home, apart) = from_busy h f t on p in_h in
    let still : u.pc i ≡ want = apart.pcs i ne ∙ at_i in
    let reached = reach_trans r r' in
    let (v, r'', free', printed', home', apart') =
      take_turn i z reached (apart.runs ∙ on) still unlocked in
    let said : u.spoken ≡ t.spoken ++ message base t h =
      sym (unlocked-output z reached unlocked) ∙ printed in
    let same : message base u i ≡ message base t i = rw (apart.sizes i ne, apart.chars) refl in
    (
      v,
      reach_trans r' r'',
      record {
        home = home';
        unlocked = free';
        between = message base t h;
        output =
            printed'
            ∙ rw (said, same) (append_assoc t.spoken (message base t h) (message base t i));
      },
    )

in_turn :
    {base : ℕ} {s t : System} (i : ℕ) (g : Stage)
    → IsInitial s
    → Reach base to_device s t
    → t.running ≡ true
    → t.pc i ≡ want
    → IsPhase base g t
    → (u : System) × Reach base to_device t u × IsFlushed base i t u
in_turn i free z r on at_i p =
    let (u, r', unlocked, printed, home, apart) = take_turn i z r on at_i p.lock in
    (u, r', record { home = home; unlocked = unlocked; between = []; output = printed })
in_turn {t} i (busy h f) z r on at_i p = elim (ℕ_discrete i h) [
  | yes same ↦ absurd (ground (arith, p.cores i, not_inside_want f))
  | no other ↦ after_other i h f z r on at_i other p
]

completes :
    {base : ℕ} {s t : System} (i : ℕ)
    → IsInitial s
    → Reach base to_device s t
    → t.running ≡ true
    → t.pc i ≢ idle
    → (u : System) × Reach base to_device t u × IsFlushed base i t u
completes {base} {s} {t} i z r on out = elim (Bool-cases (outside (t.pc i))) [
  | inr in_i ↦
      let (u, r', unlocked, printed, home, apart) = flush-ends i z r on in_i in
      (u, r', record { home = home; unlocked = unlocked; between = []; output = printed })
  | inl waits ↦ let (g, p) = Reach-IsPhase z r in in_turn i g z r on (at_want (t.pc i) waits out) p
]

-- With the host of test_host.c and from a state before the first character, with room in every buffer:
-- whenever a core is in a flush, waiting for the mutex or holding it, and the cluster's busy register is
-- still set, some steps bring the core out of the flush, with the mutex free and its message, as it
-- was, at the end of what the host has printed, and no character stored behind a buffer.
pub flush-completes :
    {base : ℕ} {s t : System} (i : ℕ)
    → IsInitial s
    → IsRoomy s
    → Reach base to_device s t
    → t.running ≡ true
    → t.pc i ≢ idle
    → (u : System) × Reach base to_device t u × IsFlushed base i t u × (u.overrun ≡ false)
flush-completes i z h r on out =
    let (u, r', flushed) = completes i z r on out in
    (u, r', flushed, (Reach-IsRoomy h (reach_trans r r')).within)

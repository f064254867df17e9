-- ===== src/Putc/Stages.antt =====
-- What one fact about a state says of the call in progress.
use chimera_sdk.Base.{ℕ, ◌≡◌, ◌≢◌, refl, true, false, arith}
use native.Mathlib.Decide.{ℕ_discrete}
use chimera_sdk.Putc.{
  syscall_addr, Pc, idle, want, holding, posted, waiting, woken, cleared, polling, got, took,
  served,
}
use chimera_sdk.Putc.Phase.{
  Part, hold, call, seen, taken, shown, told, done, Stage, free, busy, allows, inside, outside,
  lock_of, call_at, answer_at, host_at,
}

pub lock-eq-zero : (g : Stage) → lock_of g ≡ 0 → g ≡ free
lock-eq-zero free e = refl
lock-eq-zero (busy h f) e = cc

pub owner :
    (g : Stage) (i : ℕ) (p : Pc)
    → allows g i p ≡ true
    → outside p ≡ false
    → (f : Part) × (g ≡ busy i f) × (inside f p ≡ true)
owner free i p e out = cc (e, out)
owner (busy h f) i p e out = elim (ℕ_discrete i h) [
  | yes same ↦ (f, ground arith, ground arith)
  | no other ↦ absurd (ground arith)
]

pub inside_holding : (f : Part) → inside f holding ≡ true → f ≡ hold
inside_holding hold e = refl
inside_holding call e = cc
inside_holding seen e = cc
inside_holding taken e = cc
inside_holding shown e = cc
inside_holding told e = cc
inside_holding done e = cc

pub inside_woken : (f : Part) → inside f woken ≡ true → f ≡ told
inside_woken hold e = cc
inside_woken call e = cc
inside_woken seen e = cc
inside_woken taken e = cc
inside_woken shown e = cc
inside_woken told e = refl
inside_woken done e = cc

pub inside-cleared : (f : Part) → inside f cleared ≡ true → f ≡ done
inside-cleared hold e = cc
inside-cleared call e = cc
inside-cleared seen e = cc
inside-cleared taken e = cc
inside-cleared shown e = cc
inside-cleared told e = cc
inside-cleared done e = refl

-- A core that has posted its call sees no difference between the two places behind it.
pub inside_posted : (f : Part) → inside f posted ≡ true → inside f waiting ≡ true
inside_posted hold e = cc
inside_posted call e = refl
inside_posted seen e = refl
inside_posted taken e = refl
inside_posted shown e = refl
inside_posted told e = refl
inside_posted done e = cc

-- What a set word, or the host's place, says of the call.
pub answered : (base : ℕ) (g : Stage) → answer_at base g ≢ 0 → (h : ℕ) × (g ≡ busy h told)
answered base free e = absurd (e refl)
answered base (busy h hold) e = absurd (e refl)
answered base (busy h call) e = absurd (e refl)
answered base (busy h seen) e = absurd (e refl)
answered base (busy h taken) e = absurd (e refl)
answered base (busy h shown) e = absurd (e refl)
answered base (busy h told) e = (h, refl)
answered base (busy h done) e = absurd (e refl)

pub called :
    (base : ℕ) (g : Stage)
    → host_at base g ≡ polling
    → call_at base g ≢ 0
    → (h : ℕ) × (g ≡ busy h call)
called base free p e = absurd (e refl)
called base (busy h hold) p e = absurd (e refl)
called base (busy h call) p e = (h, refl)
called base (busy h seen) p e = cc
called base (busy h taken) p e = cc
called base (busy h shown) p e = cc
called base (busy h told) p e = absurd (e refl)
called base (busy h done) p e = absurd (e refl)

pub host_got :
    (base : ℕ) {a : ℕ} (g : Stage)
    → host_at base g ≡ got a
    → (h : ℕ) × (g ≡ busy h seen) × (syscall_addr base h ≡ a)
host_got base free e = cc
host_got base (busy h hold) e = cc
host_got base (busy h call) e = cc
host_got base (busy h seen) e = (h, refl, cc)
host_got base (busy h taken) e = cc
host_got base (busy h shown) e = cc
host_got base (busy h told) e = cc
host_got base (busy h done) e = cc

pub host_took :
    (base : ℕ) {a : ℕ} (g : Stage)
    → host_at base g ≡ took a
    → (h : ℕ) × (g ≡ busy h taken) × (syscall_addr base h ≡ a)
host_took base free e = cc
host_took base (busy h hold) e = cc
host_took base (busy h call) e = cc
host_took base (busy h seen) e = cc
host_took base (busy h taken) e = (h, refl, cc)
host_took base (busy h shown) e = cc
host_took base (busy h told) e = cc
host_took base (busy h done) e = cc

pub host_served :
    (base : ℕ) {a : ℕ} (g : Stage)
    → host_at base g ≡ served a
    → (h : ℕ) × (g ≡ busy h shown) × (syscall_addr base h ≡ a)
host_served base free e = cc
host_served base (busy h hold) e = cc
host_served base (busy h call) e = cc
host_served base (busy h seen) e = cc
host_served base (busy h taken) e = cc
host_served base (busy h shown) e = (h, refl, cc)
host_served base (busy h told) e = cc
host_served base (busy h done) e = cc

pub not_inside_idle : (f : Part) → inside f idle ≡ false
not_inside_idle hold = refl
not_inside_idle call = refl
not_inside_idle seen = refl
not_inside_idle taken = refl
not_inside_idle shown = refl
not_inside_idle told = refl
not_inside_idle done = refl

pub allows_want : (g : Stage) (i : ℕ) → allows g i idle ≡ true → allows g i want ≡ true
allows_want free i e = refl
allows_want (busy h f) i e = elim (ℕ_discrete i h) [
  | yes same ↦ absurd (ground (arith, not_inside_idle f))
  | no other ↦ ground arith
]

pub inside-eq-holding : (p : Pc) → inside hold p ≡ true → p ≡ holding
inside-eq-holding holding e = refl
inside-eq-holding idle e = cc
inside-eq-holding want e = cc
inside-eq-holding posted e = cc
inside-eq-holding waiting e = cc
inside-eq-holding woken e = cc
inside-eq-holding cleared e = cc

pub shown_told : (p : Pc) → inside shown p ≡ true → inside told p ≡ true
shown_told posted e = refl
shown_told waiting e = refl
shown_told idle e = cc
shown_told want e = cc
shown_told holding e = cc
shown_told woken e = cc
shown_told cleared e = cc

pub at_want : (p : Pc) → outside p ≡ true → p ≢ idle → p ≡ want
at_want idle e ne = absurd (ne refl)
at_want want e ne = refl
at_want holding e ne = cc
at_want posted e ne = cc
at_want waiting e ne = cc
at_want woken e ne = cc
at_want cleared e ne = cc

pub not_inside_want : (f : Part) → inside f want ≡ false
not_inside_want hold = refl
not_inside_want call = refl
not_inside_want seen = refl
not_inside_want taken = refl
not_inside_want shown = refl
not_inside_want told = refl
not_inside_want done = refl

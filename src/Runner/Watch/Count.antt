-- ===== src/Runner/Watch/Count.antt =====
-- One round of the supervision loop: the count of the idle clusters and what follows it.
use native.Mathlib.Nat.{add-zero}
use chimera_sdk.Base.{
  ℕ, zero, suc, ◌+◌, ◌≤◌, ◌<◌, ◌≡◌, ◌≢◌, refl, sym, arith, Bool, true, false, some, ◌==◌,
  if◌then◌else◌, ==-eq, ==-ne,
}
use chimera_sdk.Clint.{Mtime, ◌>>=◌, get_mtime, less_than}
use chimera_sdk.Clint.Sleep.{sleep_ticks}
use chimera_sdk.Offload.Wait.{cluster_busy}
use chimera_sdk.Runner.Watch.{Bus, Host, count_idle, call_actions, serve_call, watch}

-- Each of `count` clusters is idle when it is polled, one after the other from access `n` on.
abbrev pub IsAllIdle : Bus → (ℕ → ℕ) → (count id n : ℕ) → Type 0
IsAllIdle bus ids count id n =
    (i : ℕ) → i < count → cluster_busy (ids (id + i)) (bus.busy (ids (id + i)) (n + i)) ≡ 0

-- What is known of a count.
pub record IsCount (bus : Bus) (ids : ℕ → ℕ) (count id done n : ℕ) (r : ℕ × ℕ) : Type 0 where
  pub next_access : r.1 ≡ n + count
  pub bounded : r.0 ≤ done + count
  pub full : r.0 ≡ done + count → IsAllIdle bus ids count id n

idle_bit : (b : Bool) → (if b then 1 else 0) ≤ 1
idle_bit b = ground arith

idle_if : (x : ℕ) → ◌≡◌ {A = ℕ} (if x == 0 then 1 else 0) 1 → x ≡ 0
idle_if x e = ground arith

all_idle :
    (bus : Bus) (ids : ℕ → ℕ) (count id n : ℕ)
    → cluster_busy (ids id) (bus.busy (ids id) n) ≡ 0
    → IsAllIdle bus ids count (suc id) (n + 1)
    → IsAllIdle bus ids (suc count) id n
all_idle bus ids count id n here rest zero lt = rw (add-zero, add-zero) here
all_idle bus ids count id n here rest (suc i) lt =
    let index : suc id + i ≡ id + suc i = omega arith in
    let access : n + 1 + i ≡ n + suc i = omega arith in
    rw (index, access) at (rest i (omega (arith, lt)))

pub count_idle-IsCount :
    (bus : Bus) (ids : ℕ → ℕ) (count id done n : ℕ)
    → IsCount bus ids count id done n (count_idle bus ids count id done n)
unfolding count_idle
count_idle-IsCount bus ids zero id done n = record {
  next_access = sym (add-zero n);
  bounded = omega arith;
  full = λ e i lt. absurd (omega (arith, lt));
}
count_idle-IsCount bus ids (suc count) id done n =
    let idle : Bool = cluster_busy (ids id) (bus.busy (ids id) n) == 0 in
    let rest = count_idle-IsCount bus ids count (suc id) (done + (if idle then 1 else 0)) (n + 1) in
    record {
      next_access = omega (arith, rest.next_access);
      bounded = omega (arith, rest.bounded, idle_bit idle);
      full = λ e.
          all_idle bus ids count id n
            (idle_if (cluster_busy (ids id) (bus.busy (ids id) n))
              (omega (arith, rest.bounded, idle_bit idle, e)))
            (rest.full (omega (arith, e, rest.bounded, idle_bit idle)));
    }

pub serve_call-later : (bus : Bus) (host : Host) (n : ℕ) → n < (serve_call bus host n).1
unfolding serve_call call_actions
serve_call-later bus host n = ground arith

pub watch_all :
    (bus : Bus) (reads fuel clusters : ℕ) (ids : ℕ → ℕ) (limit : Mtime) (done : ℕ) (host : Host)
    (n : ℕ)
    → done ≡ clusters
    → watch bus reads (suc fuel) clusters ids limit done host n ≡ some ((false, host), n)
unfolding watch
watch_all bus reads fuel clusters ids limit done host n e = rw (==-eq done clusters e, watch) refl

pub watch_late :
    (bus : Bus) (reads fuel clusters : ℕ) (ids : ℕ → ℕ) (limit : Mtime) (done : ℕ) (host : Host)
    (n : ℕ) (m : Mtime) (k : ℕ)
    → done ≢ clusters
    → get_mtime bus.counters reads (count_idle bus ids clusters 0 0 n).1 ≡ some (m, k)
    → less_than limit m ≡ true
    → watch bus reads (suc fuel) clusters ids limit done host n ≡ some ((true, host), k)
unfolding watch
watch_late bus reads fuel clusters ids limit done host n m k ne read late =
    rw (==-ne done clusters ne, read, ◌>>=◌, late, watch) refl

pub watch_round :
    (bus : Bus) (reads fuel clusters : ℕ) (ids : ℕ → ℕ) (limit : Mtime) (done : ℕ) (host : Host)
    (n : ℕ) (m : Mtime) (k : ℕ)
    → done ≢ clusters
    → get_mtime bus.counters reads (count_idle bus ids clusters 0 0 n).1 ≡ some (m, k)
    → less_than limit m ≡ false
    → watch bus reads (suc fuel) clusters ids limit done host n ≡ (
        sleep_ticks bus.counters reads 0 10 (serve_call bus host k).0.core (serve_call bus host k).1
        >>= λ q.
            watch bus reads fuel clusters ids limit
              (count_idle bus ids clusters 0 0 n).0
              (record (serve_call bus host k).0 { core = q.0 })
              q.1)
unfolding watch
watch_round bus reads fuel clusters ids limit done host n m k ne read early =
    rw (==-ne done clusters ne, read, ◌>>=◌, early, watch) refl

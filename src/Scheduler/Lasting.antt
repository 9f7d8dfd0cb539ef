-- ===== src/Scheduler/Lasting.antt =====
-- When no process ends by the removal of dead threads in sched_select_next, from thread to thread.
use nocturne_os_base.Prelude.{
  ℕ, suc, ◌^◌, ◌<◌, ◌≤◌, if◌then◌else◌, ◌≡◌, refl, sym, subst, ◌∙◌, ◌≢◌, ◌⊎◌, inl, inr, false, ◌&&◌,
  List, [], ◌∷◌, ◌==◌, sub32, arith,
}
use nocturne_os_base.Scheduler.{
  Tasks, Thread, ThreadState, created, running, paused, dead, count_down,
}
use nocturne_os_base.Scheduler.Ring.{forget, count_down-pid}

-- How many of these threads are dead threads of a process.
abbrev pub tally : ThreadState → ℕ → ℕ → ℕ → ℕ
tally dead own p n = if own == p then suc n else n
tally created own p n = n
tally running own p n = n
tally paused own p n = n

abbrev pub dead_of : (ℕ → Thread) → List ℕ → ℕ → ℕ
dead_of threads [] p = 0
dead_of threads (q ∷ qs) p =
    tally ((threads q).state) ((threads q).process) p (dead_of threads qs p)

-- No process ends by the removal of the dead ones of these threads: the kernel is not the current process, or every
-- process that has dead threads among these counts more threads than those.
abbrev pub Lasting : Tasks → List ℕ → Type 0
Lasting s qs =
    ((s.processes s.current_proc).pid ≢ 0)
    ⊎ ((p : ℕ)
        → 0 < dead_of s.threads qs p
        → (dead_of s.threads qs p < (s.processes p).threads_count)
          × ((s.processes p).threads_count < 2 ^ 32))

-- One thread less.
pub Lasting-gone :
    (s : Tasks) (q : ℕ) (qs : List ℕ)
    → (s.threads q).state ≡ dead
    → Lasting s (q ∷ qs)
    → ((sub32 (s.processes (s.threads q).process).threads_count 1 == 0)
        && ((s.processes s.current_proc).pid == 0))
      ≡ false
Lasting-gone s q qs e (inl user) = ground arith
Lasting-gone s q qs e (inr more) =
    let p = (s.threads q).process in
    let n = (s.processes p).threads_count in
    let c : dead_of s.threads (q ∷ qs) p ≡ suc (dead_of s.threads qs p) = rw e (ground arith) in
    let m = more p (omega (arith, c)) in
    let ne : sub32 n 1 ≢ 0 = λ z. absurd (omega (arith, c, m.0, m.1, z)) in ground arith

count_down-lt :
    (s : Tasks) (own p n : ℕ)
    → tally dead own p n < (s.processes p).threads_count
    → (s.processes p).threads_count < 2 ^ 32
    → (n < ((count_down s own).processes p).threads_count)
      × (((count_down s own).processes p).threads_count < 2 ^ 32)
unfolding count_down
count_down-lt s own p n l u = ground arith

pub Lasting-forget :
    (s : Tasks) (q : ℕ) (qs : List ℕ)
    → (s.threads q).state ≡ dead
    → Lasting s (q ∷ qs)
    → Lasting (forget s q) qs
unfolding count_down
Lasting-forget s q qs e (inl user) =
    inl (λ e. user (sym (count_down-pid s (s.threads q).process s.current_proc) ∙ e))
Lasting-forget s q qs e (inr more) = inr (λ p some_dead.
    let own = (s.threads q).process in
    let n = dead_of s.threads qs p in
    let c : dead_of s.threads (q ∷ qs) p ≡ tally dead own p n = rw e refl in
    let at_least : n ≤ tally dead own p n = ground arith in
    let m = more p (omega (arith, c, at_least, some_dead)) in
    count_down-lt s own p n (subst (λ k. k < (s.processes p).threads_count) c m.0) m.1)

pub Lasting-paused :
    (s : Tasks) (q : ℕ) (qs : List ℕ)
    → (s.threads q).state ≡ paused
    → Lasting s (q ∷ qs)
    → Lasting s qs
Lasting-paused s q qs e (inl user) = inl user
Lasting-paused s q qs e (inr more) = inr (λ p some_dead.
    let c : dead_of s.threads (q ∷ qs) p ≡ dead_of s.threads qs p = rw e refl in
    subst (λ k. (k < (s.processes p).threads_count) × ((s.processes p).threads_count < 2 ^ 32)) c
      (more p (subst (λ k. 0 < k) (sym c) some_dead)))

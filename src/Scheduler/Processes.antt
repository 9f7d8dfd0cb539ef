-- ===== src/Scheduler/Processes.antt =====
-- process_exists looks from the current process to the kernel's, and no further.
use nocturne_os_base.Prelude.{
  ℕ, zero, suc, ◌<◌, ◌≡◌, refl, ap, ◌∙◌, ◌≢◌, Bool, true, false, List, [], ◌∷◌, ◌++◌, ◌==◌, inl,
  inr, Bool-cases, if◌then◌else◌, ret, All, length, arith,
}
use nocturne_os_base.Links.Chain.{Chain, Chain-split}
use nocturne_os_base.Links.Distinct.{All-split}
use nocturne_os_base.Links.Ring.{Ring}
use nocturne_os_base.Scheduler.{Tasks, Process, process_list, exists_from, process_exists}

-- One of the processes has the pid.
abbrev pub has_pid : (ℕ → Process) → ℕ → List ℕ → Bool
has_pid processes pid [] = false
has_pid processes pid (p ∷ ps) = if (processes p).pid == pid then true else has_pid processes pid ps

-- The loop up to a process whose pid is 0.
exists_from_lem :
    (f : ℕ) (s : Tasks) (pid p : ℕ) (qs : List ℕ) (k : ℕ)
    → length qs < f
    → Chain s.links p qs k
    → (s.processes k).pid ≡ 0
    → All (λ q. 0 ≢ q) qs
    → All (λ q. (s.processes q).pid ≢ 0) qs
    → exists_from f s pid p ≡ ret (has_pid s.processes pid (p ∷ qs))
unfolding exists_from
exists_from_lem zero s pid p qs k l c kernel real user = absurd (omega arith)
exists_from_lem (suc f) s pid p [] k l c kernel real user =
    elim (Bool-cases ((s.processes p).pid == pid)) [
      | inl found ↦ rw found refl
      | inr other ↦ rw (other, c.0, kernel) (ground arith)
    ]
exists_from_lem (suc f) s pid p (q ∷ qs) k l c kernel real user =
    let ih = exists_from_lem f s pid q qs k (omega arith) c.2 kernel real.1 user.1 in
    let a : (q == 0) ≡ false = let ne = real.0 in ground arith in
    let b : ((s.processes q).pid == 0) ≡ false = let ne = user.0 in ground arith in
    elim (Bool-cases ((s.processes p).pid == pid)) [
      | inl found ↦ rw found refl
      | inr other ↦ rw (other, c.0, a, b) ih
    ]

-- `process_exists` with a round of fuel for each process looked at returns, and tells whether the current process or one of those behind
-- it has the pid, up to the first process with pid 0; the processes behind that one, `rest`, are not looked at.
pub process_exists-Looks :
    (fuel : ℕ) (s : Tasks) (pid : ℕ) (qs : List ℕ) (k : ℕ) (rest : List ℕ)
    → length qs < fuel
    → Ring s.links process_list ((s.current_proc ∷ qs) ++ (k ∷ rest))
    → (s.processes k).pid ≡ 0
    → All (λ q. (s.processes q).pid ≢ 0) qs
    → process_exists fuel s pid ≡ ret (has_pid s.processes pid (s.current_proc ∷ qs))
unfolding process_exists
process_exists-Looks fuel s pid qs k rest l g kernel user =
    let (c, _) = Chain-split s.links s.current_proc qs k rest s.current_proc g.closed in
    let (real, _) = All-split _ qs (k ∷ rest) g.real.1 in
    exists_from_lem fuel s pid s.current_proc qs k l c kernel real user

-- From the kernel's own process all are looked at.
pub process_exists-kernel :
    (fuel : ℕ) (s : Tasks) (pid : ℕ) (qs : List ℕ)
    → length qs < fuel
    → Ring s.links process_list (s.current_proc ∷ qs)
    → (s.processes s.current_proc).pid ≡ 0
    → All (λ q. (s.processes q).pid ≢ 0) qs
    → process_exists fuel s pid ≡ ret (has_pid s.processes pid (s.current_proc ∷ qs))
unfolding process_exists
process_exists-kernel fuel s pid qs l g kernel user =
    exists_from_lem fuel s pid s.current_proc qs s.current_proc l g.closed kernel g.real.1 user

-- A process with the pid that stands behind the kernel's is not found, if none before has it.
pub process_exists_misses :
    (fuel : ℕ) (s : Tasks) (pid : ℕ) (qs : List ℕ) (k x : ℕ) (rest : List ℕ)
    → length qs < fuel
    → Ring s.links process_list ((s.current_proc ∷ qs) ++ (k ∷ (x ∷ rest)))
    → (s.processes k).pid ≡ 0
    → (s.processes x).pid ≡ pid
    → All (λ q. (s.processes q).pid ≢ 0) qs
    → has_pid s.processes pid (s.current_proc ∷ qs) ≡ false
    → process_exists fuel s pid ≡ ret false
process_exists_misses fuel s pid qs k x rest l g kernel there user none_before =
    process_exists-Looks fuel s pid qs k (x ∷ rest) l g kernel user ∙ ap ret none_before

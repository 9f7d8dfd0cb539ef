-- ===== src/Scheduler/Ring.antt =====
-- The steps of a walk round the threads.
use nocturne_os_base.Prelude.{
  ℕ, ◌≡◌, refl, ◌∙◌, false, ◌&&◌, List, [], ◌∷◌, ◌++◌, ◌==◌, sub32, ret, arith,
}
use nocturne_os_base.Links.{Links, list_remove}
use nocturne_os_base.Links.Chain.{Chain, Chain-split}
use nocturne_os_base.Links.Ring.{Ring}
use nocturne_os_base.Scheduler.{lock_free, Tasks, count_down, thread_calls, remove_thread}

-- Where a walk over `qs` starts, if `n` comes behind them.
abbrev pub first_or : ℕ → List ℕ → ℕ
first_or n [] = n
first_or n (q ∷ qs) = q

Chain-first : (s : Links) (a : ℕ) (xs : List ℕ) (b : ℕ) → Chain s a xs b → s.next a ≡ first_or b xs
Chain-first s a [] b c = c.0
Chain-first s a (x ∷ xs) b c = c.0

-- The successor of an item of the list.
pub Ring-next :
    (s : Links) (list n : ℕ) (ws : List ℕ) (q : ℕ) (qs : List ℕ)
    → Ring s list ((n ∷ ws) ++ (q ∷ qs))
    → s.next q ≡ first_or n qs
Ring-next s list n ws q qs g = Chain-first s q qs n (Chain-split s n ws q qs n g.closed).1

pub Ring-first :
    (s : Links) (list n : ℕ) (xs : List ℕ) → Ring s list (n ∷ xs) → s.next n ≡ first_or n xs
Ring-first s list n xs g = Chain-first s n xs n g.closed

-- The state behind `remove_thread`, for a process that goes on.
abbrev pub forget : Tasks → ℕ → Tasks
forget s q =
    count_down
      (record s {
        links = list_remove s.links q;
        calls = s.calls ++ thread_calls (s.threads q) q;
        thread_lock = lock_free;
      })
      (s.threads q).process

pub count_down_self :
    (s : Tasks) (p : ℕ)
    → ((count_down s p).processes p).threads_count ≡ sub32 (s.processes p).threads_count 1
unfolding count_down
count_down_self s p = ground arith

pub count_down-pid :
    (s : Tasks) (p q : ℕ) → ((count_down s p).processes q).pid ≡ (s.processes q).pid
unfolding count_down
count_down-pid s p q = ground arith

-- What `remove_thread` tests behind the removal.
pub forget-gone :
    (s : Tasks) (q : ℕ)
    → (((forget s q).processes (s.threads q).process).threads_count == 0
        && ((forget s q).processes (forget s q).current_proc).pid == 0)
      ≡ (sub32 (s.processes (s.threads q).process).threads_count 1 == 0
          && (s.processes s.current_proc).pid == 0)
unfolding count_down
forget-gone s q =
    let r = record s {
      links = list_remove s.links q;
      calls = s.calls ++ thread_calls (s.threads q) q;
      thread_lock = lock_free;
    } in
    let p = (s.threads q).process in
    rw (count_down_self r p, count_down-pid r p s.current_proc) refl

-- The process of the thread goes on if it has a thread left, or if the kernel is not the current process.
pub remove_thread-forget :
    (s : Tasks) (q : ℕ)
    → s.thread_lock ≡ lock_free
    → ((sub32 (s.processes (s.threads q).process).threads_count 1 == 0)
        && ((s.processes s.current_proc).pid == 0))
      ≡ false
    → remove_thread s q ≡ ret (forget s q)
unfolding remove_thread
remove_thread-forget s q free goes_on = rw (free, forget-gone s q ∙ goes_on) refl

-- ===== src/Scheduler/Reclaim.antt =====
-- remove_thread takes a dead thread out of its list, and its process with it, if that was the last thread and the kernel is
-- the current process.
use nocturne_os_base.Prelude.{
  ℕ, ◌^◌, ◌<◌, ◌≡◌, refl, ap, ◌∙◌, ◌≢◌, true, ◌&&◌, List, [], ◌∷◌, ◌++◌, ◌==◌, inl, inr, Bool-cases,
  sub32, ret, length, arith,
}
use mathlib.Core.List.{append_assoc}
use nocturne_os_base.Links.{list_remove}
use nocturne_os_base.Links.Edit.{Holds}
use nocturne_os_base.Links.Removal.{list_remove-Holds}
use nocturne_os_base.Links.Other.{list_remove-other}
use nocturne_os_base.Scheduler.{
  lock_free, Tasks, freed, thread_list, process_list, count_down, thread_calls, process_calls,
  remove_process, remove_thread,
}
use nocturne_os_base.Scheduler.Ring.{forget, forget-gone, count_down_self, remove_thread-forget}
use nocturne_os_base.Scheduler.Blocks.{program_blocks, table_blocks, process_calls_lem}

-- A thread that stands in the list of the threads, and its process in that of the processes.
pub record Member (s : Tasks) (before : List ℕ) (q : ℕ) (behind : List ℕ) (ps : List ℕ) (p : ℕ)
    (rs : List ℕ) : Type 0 where
  pub threads : Holds s.links thread_list (before ++ (q ∷ behind))
  pub processes : Holds s.links process_list (ps ++ (p ∷ rs))
  pub threads_room : length (before ++ (q ∷ behind)) < 2 ^ 32
  pub processes_room : length (ps ++ (p ∷ rs)) < 2 ^ 32
  pub own : (s.threads q).process ≡ p
  pub free : s.thread_lock ≡ lock_free

-- Both lists without the thread.
forget-Holds :
    (s : Tasks) (before : List ℕ) (q : ℕ) (behind ps : List ℕ) (p : ℕ) (rs : List ℕ)
    → Member s before q behind ps p rs
    → Holds (list_remove s.links q) thread_list (before ++ behind)
      × Holds (list_remove s.links q) process_list (ps ++ (p ∷ rs))
forget-Holds s before q behind ps p rs m = (
  list_remove-Holds s.links thread_list q before behind m.threads_room m.threads,
  list_remove-other s.links thread_list process_list (omega arith) q before behind (ps ++ (p ∷ rs))
      m.threads m.processes,
)

-- `remove_thread` of the only thread of a process, while another process than the kernel's is the current one and the lock of the
-- threads is free: it returns, the thread is out of its list, and the process stays in its list with no thread.
pub remove_thread-orphans :
    (s : Tasks) (before : List ℕ) (q : ℕ) (behind ps : List ℕ) (p : ℕ) (rs : List ℕ)
    → Member s before q behind ps p rs
    → (s.processes s.current_proc).pid ≢ 0
    → (s.processes p).threads_count ≡ 1
    → (t : Tasks) × (remove_thread s q ≡ ret t)
      × Holds t.links thread_list (before ++ behind)
      × Holds t.links process_list (ps ++ (p ∷ rs))
      × ((t.processes p).threads_count ≡ 0)
unfolding count_down
remove_thread-orphans s before q behind ps p rs m user last =
    let (ts, procs) = forget-Holds s before q behind ps p rs m in
    (
      forget s q,
      remove_thread-forget s q m.free (ground arith),
      ts,
      procs,
      rw m.own (count_down_self s p ∙ rw last refl),
    )

-- The test of `remove_thread` for the last thread, when the kernel is the current process.
gone :
    (s : Tasks) (p : ℕ)
    → (s.processes p).threads_count ≡ 1
    → (s.processes s.current_proc).pid ≡ 0
    → (sub32 (s.processes p).threads_count 1 == 0 && (s.processes s.current_proc).pid == 0) ≡ true
gone s p last kernel = rw (last, kernel) refl

remove_thread-last :
    (s : Tasks) (q : ℕ)
    → s.thread_lock ≡ lock_free
    → (sub32 (s.processes (s.threads q).process).threads_count 1 == 0
        && (s.processes s.current_proc).pid == 0)
      ≡ true
    → remove_thread s q ≡ remove_process (forget s q) (s.threads q).process
unfolding remove_thread
remove_thread-last s q free over = rw (free, forget-gone s q ∙ over) refl

remove_process-unlocked :
    (s : Tasks) (p : ℕ)
    → s.process_lock ≡ lock_free
    → remove_process s p
      ≡ ret (record s {
        links = list_remove s.links p;
        calls = (s.calls ++ process_calls (s.processes p)) ++ (freed p ∷ []);
        process_lock = lock_free;
      })
unfolding remove_process
remove_process-unlocked s p unlocked = rw unlocked refl

-- The count is none of the blocks of a process.
count_down-calls :
    (s : Tasks) (p q : ℕ)
    → process_calls ((count_down s p).processes q) ≡ process_calls (s.processes q)
unfolding count_down process_calls
count_down-calls s p q = elim (Bool-cases (p == q)) [
  | inl same ↦ rw same refl
  | inr other ↦ rw other refl
]

-- `remove_thread` of the only thread of a process, while the kernel's process is the current one and both locks are free, with both
-- lists in order and of fewer than 2^32 items: it returns,
-- the thread and the process are out of their lists, which keep their other items in order. Freed are, in this order: the region for
-- `fxsave`, the kernel stack and the stack of the thread, the thread; then the frame behind every page of the loaded segments of the
-- program, the program, the page tables in use, the page directory, the name and the current directory of the process, the process.
pub remove_thread-Reclaims :
    (s : Tasks) (before : List ℕ) (q : ℕ) (behind ps : List ℕ) (p : ℕ) (rs : List ℕ)
    → Member s before q behind ps p rs
    → (s.processes s.current_proc).pid ≡ 0
    → (s.processes p).threads_count ≡ 1
    → s.process_lock ≡ lock_free
    → let own = s.processes p in
      (t : Tasks) × (remove_thread s q ≡ ret t)
      × Holds t.links thread_list (before ++ behind)
      × Holds t.links process_list (ps ++ rs)
      × (t.calls
          ≡ (s.calls
              ++ (freed (s.threads q).fxsave_region
                  ∷ freed (s.threads q).kernel_stack_bottom
                  ∷ freed (s.threads q).stack
                  ∷ freed q
                  ∷ []))
            ++ (program_blocks own.page_dir_virt own.program
                ++ (table_blocks own.page_tables_virts
                    ++ (freed own.page_dir_virt ∷ freed own.name ∷ freed own.cwd ∷ freed p ∷ []))))
unfolding count_down thread_calls
remove_thread-Reclaims s before q behind ps p rs m kernel last unlocked =
    let (ts, procs) = forget-Holds s before q behind ps p rs m in
    let l = list_remove s.links q in
    let u = forget s q in
    let c = u.calls ++ process_calls (u.processes p) in
    (
      record u { links = list_remove l p; calls = c ++ (freed p ∷ []); process_lock = lock_free },
      remove_thread-last s q m.free (rw m.own (gone s p last kernel))
          ∙ (ap (remove_process u) m.own ∙ remove_process-unlocked u p unlocked),
      list_remove-other l process_list thread_list (omega arith) p ps rs (before ++ behind) procs
          ts,
      list_remove-Holds l process_list p ps rs m.processes_room procs,
      ap (λ l. (u.calls ++ l) ++ (freed p ∷ [])) (count_down-calls s (s.threads q).process p)
          ∙ (append_assoc u.calls (process_calls (s.processes p)) (freed p ∷ [])
              ∙ ap (λ l. u.calls ++ l) (process_calls_lem (s.processes p) p)),
    )

-- ===== src/Scheduler.antt =====
-- The scheduler of kernel/src/sys/scheduler/scheduler.c and thread.c, with mutex_get and mutex_release of
-- kernel/src/sys/sync.c and the switch of kernel/src/arch/x86/asm/switch_task.s.
--
-- A thread and a process stand at the address of their list item, their first field. The two list heads stand
-- at two fixed addresses. Freed memory keeps its contents, and what is freed is kept as the list of the calls. An
-- `Outcome` is `hang` where the code stops for ever, or where the rounds given to a loop run out. Log calls
-- are left out. Children: Threads has the creation of threads, the others prove what holds.
mod State
pub mod Threads
pub mod Ring
pub mod Lasting
pub mod Select
pub mod Blocks
pub mod Reclaim
pub mod Switch
pub mod Processes
pub mod Start
mod Tests
pub use State.*
use nocturne_os_base.Prelude.{
  ℕ, zero, suc, ◌+◌, ◌-◌, ◌*◌, ◌/◌, ◌^◌, max, Bool, true, false, ◌&&◌, ◌||◌, ◌==◌, if◌then◌else◌,
  Option, none, some, List, [], ◌∷◌, ◌++◌, u32, sub32, align_up, page_size, Outcome, ret, hang,
  ◌>>=◌,
}
use nocturne_os_base.Links.{Links, update, list_add, list_remove}

-- The `while` loop of `mutex_get`: `lock` is found set so many times more. The code has it from then on, and no other
-- lets it go.
unfoldable pub spin : ℕ → Outcome Lock
spin zero = ret (lock_held none)
spin (suc n) = spin n

unfoldable pub mutex_get : Lock → Outcome Lock
unfolding spin
mutex_get lock_free = ret (lock_held none)
mutex_get (lock_held (some n)) = spin (suc n)
mutex_get (lock_held none) = hang

unfoldable pub mutex_release : Lock → Lock
mutex_release lock = lock_free

unfoldable pub thread_add_prepared : Tasks → ℕ → Outcome Tasks
unfolding mutex_get mutex_release
thread_add_prepared s thread = do
  lock ← mutex_get s.thread_lock
  let t = record s { thread_lock = lock; links = list_add s.links thread_list thread }
  ret (record t { thread_lock = mutex_release t.thread_lock })

unfoldable pub thread_remove_prepared : Tasks → ℕ → Outcome Tasks
unfolding mutex_get mutex_release
thread_remove_prepared s thread = do
  lock ← mutex_get s.thread_lock
  let t = record s { thread_lock = lock; links = list_remove s.links thread }
  ret (record t { thread_lock = mutex_release t.thread_lock })

unfoldable pub process_add_prepared : Tasks → ℕ → Outcome Tasks
unfolding mutex_get mutex_release
process_add_prepared s process = do
  lock ← mutex_get s.process_lock
  let t = record s { process_lock = lock; links = list_add s.links process_list process }
  ret (record t { process_lock = mutex_release t.process_lock })

unfoldable pub process_remove_prepared : Tasks → ℕ → Outcome Tasks
unfolding mutex_get mutex_release
process_remove_prepared s process = do
  lock ← mutex_get s.process_lock
  let t = record s { process_lock = lock; links = list_remove s.links process }
  ret (record t { process_lock = mutex_release t.process_lock })

-- The frames of a loaded segment, page by page.
unfoldable pub free_pages : ℕ → ℕ → ℕ → List Call
free_pages dir vaddr zero = []
free_pages dir vaddr (suc n) = freed_page dir (u32 vaddr) ∷ free_pages dir (vaddr + page_size) n

abbrev pub pt_load : ℕ
pt_load = 1

unfoldable pub free_segments : ℕ → List ProgramHeader → List Call
unfolding free_pages
free_segments dir [] = []
free_segments dir (phdr ∷ phdrs) =
    let count = max (align_up phdr.p_memsz page_size / page_size) 1 in
    (if phdr.p_type == pt_load then free_pages dir phdr.p_vaddr count else [])
    ++ free_segments dir phdrs

unfoldable pub free_program : ℕ → Option Program → List Call
unfolding free_segments
free_program dir none = []
free_program dir (some program) = free_segments dir program.p_header ++ (unloaded program.at ∷ [])

-- The page tables that the process uses.
unfoldable pub free_tables : List ℕ → List Call
free_tables [] = []
free_tables (table ∷ tables) = (if table == 0 then [] else freed table ∷ []) ++ free_tables tables

-- The calls of `remove_thread` that give back what a process without threads holds.
unfoldable pub process_calls : Process → List Call
unfolding free_program free_tables
process_calls p =
    free_program p.page_dir_virt p.program
    ++ (free_tables p.page_tables_virts
        ++ (freed p.page_dir_virt ∷ freed p.name ∷ freed p.cwd ∷ []))

unfoldable pub thread_calls : Thread → ℕ → List Call
thread_calls t thread =
    freed t.fxsave_region ∷ freed t.kernel_stack_bottom ∷ freed t.stack ∷ freed thread ∷ []

-- The end of `remove_thread`, for a process that has no threads left.
unfoldable pub remove_process : Tasks → ℕ → Outcome Tasks
unfolding process_calls process_remove_prepared
remove_process s process = do
  t ←
      process_remove_prepared (record s { calls = s.calls ++ process_calls (s.processes process) })
        process
  ret (record t { calls = t.calls ++ (freed process ∷ []) })

-- One thread less in a process.
unfoldable pub count_down : Tasks → ℕ → Tasks
count_down s process = record s {
  processes = λ p.
      if process == p
      then record (s.processes p) { threads_count = sub32 (s.processes p).threads_count 1 }
      else s.processes p;
}

unfoldable pub remove_thread : Tasks → ℕ → Outcome Tasks
unfolding thread_remove_prepared thread_calls count_down remove_process
remove_thread s thread = do
  let process = (s.threads thread).process
  t ← thread_remove_prepared s thread
  let u =
      count_down (record t { calls = t.calls ++ thread_calls (t.threads thread) thread }) process
  let gone = (u.processes process).threads_count == 0 && (u.processes u.current_proc).pid == 0
  if gone then remove_process u process else ret u

-- The body of the loop of `sched_select_next`, by the state of the thread.
unfoldable pub visit_thread :
    (Tasks → Outcome (Tasks × ℕ)) → ThreadState → Tasks → ℕ → Outcome (Tasks × ℕ)
visit_thread go paused s thread = go s
visit_thread go dead s thread = remove_thread s thread >>= go
visit_thread go created s thread = ret (s, thread)
visit_thread go running s thread = ret (s, thread)

-- The loop, at a thread: its successor is read before the thread may be removed.
pub select_from : ℕ → Tasks → ℕ → Outcome (Tasks × ℕ)
unfolding visit_thread
select_from zero s thread = hang
select_from (suc fuel) s thread =
    let soon = s.links.next thread in
    let go = λ (t : Tasks). select_from fuel t soon in
    let round = visit_thread go ((s.threads thread).state) s thread in
    if thread == 0 then ret (s, 0) else round

unfoldable pub sched_select_next : ℕ → Tasks → Outcome (Tasks × ℕ)
unfolding select_from
sched_select_next fuel s = select_from fuel s (s.links.next s.current_thread)

-- `task_switch_v2`: the stack pointer goes to the old thread and comes from the new one. `%eax` holds the old thread
-- still when the floating point state is loaded.
unfoldable pub task_switch_v2 : Tasks → ℕ → ℕ → Tasks
task_switch_v2 s old new =
    let region = (s.threads old).fxsave_region in
    let threads : ℕ → Thread =
      λ t. if old == t then record (s.threads t) { esp = s.cpu.esp } else s.threads t in
    let saved = update s.saved region s.cpu.simd in
    let process = (threads new).process in
    let cpu : Cpu = record {
      esp = (threads new).esp;
      simd = saved region;
      esp0 = (threads new).kernel_stack_top;
      cr3 = (s.processes process).page_dir;
    } in
    if old == new then s else record s {
      threads = threads;
      saved = saved;
      cpu = cpu;
      current_thread = new;
      current_proc = process;
    }

-- Where there is no thread, the idle thread runs.
abbrev pub chosen : Tasks → ℕ → ℕ
chosen s thread = if thread == 0 then s.sched_idle_thread else thread

unfoldable pub task_switch_v2_wrapper : ℕ → Tasks → Outcome Tasks
unfolding sched_select_next task_switch_v2
task_switch_v2_wrapper fuel s =
    let switch = sched_select_next fuel s >>= λ r.
    ret (task_switch_v2 r.0 r.0.current_thread (chosen r.0 r.1)) in
    if s.multi_task then switch else ret s

unfoldable pub thread_exit : ℕ → Tasks → ℕ → Outcome Tasks
unfolding task_switch_v2_wrapper
thread_exit fuel s thread =
    let t = record s {
      threads = λ p. if thread == p then record (s.threads p) { state = dead } else s.threads p;
    } in
    if s.multi_task then task_switch_v2_wrapper fuel t else ret s

-- The loop of `process_exists`, at a process.
pub exists_from : ℕ → Tasks → ℕ → ℕ → Outcome Bool
exists_from zero s pid process = hang
exists_from (suc fuel) s pid process =
    let next = s.links.next process in
    let more = exists_from fuel s pid next in
    let rest : Outcome Bool =
      if next == 0 || (s.processes next).pid == 0 then ret false else more in
    if (s.processes process).pid == pid then ret true else rest

unfoldable pub process_exists : ℕ → Tasks → ℕ → Outcome Bool
unfolding exists_from
process_exists fuel s pid = exists_from fuel s pid s.current_proc

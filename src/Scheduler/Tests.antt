-- ===== src/Scheduler/Tests.antt =====
-- Runs of the scheduler, and instances of the theorems.
use nocturne_os_base.Prelude.{
  ℕ, align_up, ◌≡◌, refl, true, [], ◌∷◌, some, none, ret, hang, ◌==◌, if◌then◌else◌, inl, inr,
  arith,
}
use nocturne_os_base.Links.{Links}
use nocturne_os_base.Links.Edit.{Holds}
use nocturne_os_base.Links.Ring.{Ring}
use nocturne_os_base.Scheduler.{
  lock_free, Tasks, Thread, Process, ThreadState, created, paused, dead, thread_list, process_list,
  freed, freed_page, unloaded, Lock, lock_held, mutex_get, remove_thread, task_switch_v2_wrapper,
  thread_exit, process_exists,
}
use nocturne_os_base.Scheduler.Switch.{
  Turn, Switched, mark_dead, task_switch_v2_wrapper-Switches, thread_exit-Switches,
}
use nocturne_os_base.Scheduler.Reclaim.{Member, remove_thread-orphans, remove_thread-Reclaims}
use nocturne_os_base.Scheduler.Processes.{process_exists-Looks}
use nocturne_os_base.Scheduler.Start.{Started, thread_create-Starts}
use nocturne_os_base.Scheduler.Threads.{Blocks, thread_create}

-- Items 100 to 103 are threads, 200 to 202 processes; the links stand as list_add leaves them.
abbrev ring_of : ℕ → ℕ → ℕ → ℕ → ℕ
ring_of a b c x = if x == a then b else if x == b then c else a

-- Thread 100 runs, 101 waits, 102 is dead, 103 can run.
abbrev next_of : ℕ → ℕ
next_of x =
    if x == 100
    then 101
    else if x == 101
    then 102
    else if x == 102
    then 103
    else if x == 103
    then 100
    else if x == 200
    then 201
    else if x == 201
    then 202
    else 200

abbrev prev_of : ℕ → ℕ
prev_of x =
    if x == 100
    then 103
    else if x == 101
    then 100
    else if x == 102
    then 101
    else if x == 103
    then 102
    else if x == 200
    then 202
    else if x == 201
    then 200
    else 201

abbrev links : Links
links = record {
  prev = prev_of;
  next = next_of;
  owner = λ x.
      if x == 200
      then 32
      else if x == 201
      then 32
      else if x == 202
      then 32
      else if x == 104
      then 0
      else 16;
  first = λ l. if l == 16 then 100 else 200;
  count = λ l. if l == 16 then 4 else 3;
}

abbrev thread_of : ℕ → ThreadState → Thread
thread_of process state = record {
  process = process;
  flags = 1;
  stack_size = 4096;
  stack = 0;
  esp = 5000;
  entry_point = 0;
  id = 0;
  stack_top = 0;
  state = state;
  fxsave_region = 700;
  kernel_stack_top = 9000;
  kernel_stack_bottom = 800;
  last_error = 0;
}

abbrev thread_at : ℕ → Thread
thread_at x =
    if x == 101
    then thread_of 200 paused
    else if x == 102
    then thread_of 201 dead
    else thread_of 200 created

abbrev process_of : ℕ → ℕ → Process
process_of pid count = record {
  page_dir = 0;
  threads_count = count;
  pid = pid;
  page_dir_virt = 0;
  name = 0;
  page_tables_virts = [];
  cwd = 0;
  program = none;
}

-- A process with a program of one loaded segment of two pages, and one page table.
abbrev user_process : Process
user_process = record (process_of 1 1) {
  page_dir_virt = 900;
  name = 910;
  page_tables_virts = 0 ∷ 960 ∷ [];
  cwd = 920;
  program = some record {
    at = 950;
    p_header =
        record { p_type = 1; p_vaddr = 28672; p_memsz = 5000 }
        ∷ record { p_type = 2; p_vaddr = 0; p_memsz = 10 }
        ∷ [];
  };
}

abbrev process_at : ℕ → Process
process_at x =
    if x == 200 then process_of 0 3 else if x == 201 then user_process else process_of 2 2

abbrev tasks : ℕ → Lock → Tasks
tasks current_proc process_lock = record {
  links = links;
  threads = thread_at;
  processes = process_at;
  words = λ a. 0;
  saved = λ a. 0;
  calls = [];
  cpu = record { esp = 4000; simd = 7; esp0 = 0; cr3 = 0 };
  current_thread = 100;
  current_proc = current_proc;
  sched_idle_thread = 103;
  next_thread_id = 5;
  next_pid = 3;
  multi_task = true;
  thread_lock = lock_free;
  process_lock = process_lock;
}

pid_of_2 : (process_at 202).pid ≡ 2
pid_of_2 = refl

turn : Turn (tasks 202 lock_free) (101 ∷ 102 ∷ []) 103 []
turn = record {
  ring = record {
    closed = omega arith;
    head = inl refl;
    distinct = omega arith;
    real = omega arith;
    owned = omega arith;
    counted = refl;
  };
  room = omega arith;
  free = refl;
  runs = tt;
  waits = (tt, (tt, tt));
  lasting = inl (omega arith);
}

task_switch_v2_wrapper-Switches_example :
    (t : Tasks) × (task_switch_v2_wrapper 3 (tasks 202 lock_free) ≡ ret t)
    × Switched (tasks 202 lock_free) t (101 ∷ 102 ∷ []) 103 []
task_switch_v2_wrapper-Switches_example =
    task_switch_v2_wrapper-Switches 3 (tasks 202 lock_free) (101 ∷ 102 ∷ []) 103 [] refl
      (omega arith) turn

thread_exit-Switches_example :
    (t : Tasks) × (thread_exit 3 (tasks 202 lock_free) 100 ≡ ret t)
    × Switched (mark_dead (tasks 202 lock_free) 100) t (101 ∷ 102 ∷ []) 103 []
    × ((t.threads 100).state ≡ dead)
thread_exit-Switches_example =
    thread_exit-Switches 3 (tasks 202 lock_free) (101 ∷ 102 ∷ []) 103 [] refl (omega arith) turn

thread_items : Holds links thread_list (100 ∷ 101 ∷ 102 ∷ 103 ∷ [])
thread_items = record {
  shape = omega arith;
  distinct = omega arith;
  real = omega arith;
  owned = omega arith;
  counted = refl;
}

process_items : Holds links process_list (200 ∷ 201 ∷ 202 ∷ [])
process_items = record {
  shape = omega arith;
  distinct = omega arith;
  real = omega arith;
  owned = omega arith;
  counted = refl;
}

member :
    (c : ℕ) (lock : Lock)
    → Member (tasks c lock) (100 ∷ 101 ∷ []) 102 (103 ∷ []) (200 ∷ []) 201 (202 ∷ [])
member c lock = record {
  threads = thread_items;
  processes = process_items;
  threads_room = omega arith;
  processes_room = omega arith;
  own = refl;
  free = refl;
}

remove_thread-orphans_example :
    (t : Tasks) × (remove_thread (tasks 202 lock_free) 102 ≡ ret t)
    × Holds t.links thread_list (100 ∷ 101 ∷ 103 ∷ [])
    × Holds t.links process_list (200 ∷ 201 ∷ 202 ∷ [])
    × ((t.processes 201).threads_count ≡ 0)
remove_thread-orphans_example =
    remove_thread-orphans (tasks 202 lock_free) (100 ∷ 101 ∷ []) 102 (103 ∷ []) (200 ∷ []) 201
      (202 ∷ []) (member 202 lock_free) (omega arith) refl

remove_thread-Reclaims_example :
    (t : Tasks) × (remove_thread (tasks 200 lock_free) 102 ≡ ret t)
    × Holds t.links thread_list (100 ∷ 101 ∷ 103 ∷ [])
    × Holds t.links process_list (200 ∷ 202 ∷ [])
    × (t.calls
        ≡ freed 700
          ∷ freed 800
          ∷ freed 0
          ∷ freed 102
          ∷ freed_page 900 28672
          ∷ freed_page 900 32768
          ∷ unloaded 950
          ∷ freed 960
          ∷ freed 900
          ∷ freed 910
          ∷ freed 920
          ∷ freed 201
          ∷ [])
unfolding align_up
remove_thread-Reclaims_example =
    remove_thread-Reclaims (tasks 200 lock_free) (100 ∷ 101 ∷ []) 102 (103 ∷ []) (200 ∷ []) 201
      (202 ∷ []) (member 200 lock_free) refl refl refl

-- A lock that its holder lets go is waited for, one that is never let go stops the code.
mutex_get_waits : mutex_get (lock_held (some 2)) ≡ ret (lock_held none)
unfolding mutex_get
mutex_get_waits = refl

remove_thread_deadlocks : remove_thread (tasks 200 (lock_held none)) 102 ≡ hang
unfolding remove_thread
remove_thread_deadlocks = refl

process-Ring : Ring links process_list (201 ∷ 202 ∷ 200 ∷ [])
process-Ring = record {
  closed = omega arith;
  head = inr (inr (inl refl));
  distinct = omega arith;
  real = omega arith;
  owned = omega arith;
  counted = refl;
}

process_exists-Looks_example : process_exists 3 (tasks 201 lock_free) 2 ≡ ret true
process_exists-Looks_example =
    process_exists-Looks 3 (tasks 201 lock_free) 2 (202 ∷ []) 200 [] (omega arith) process-Ring refl
      (omega arith)

abbrev blocks : Blocks
blocks = record { thread = 104; fxsave_region = 700; kernel_stack = 8192; stack = 16384 }

thread_create-Starts_example :
    (r : Tasks × ℕ) × (thread_create (tasks 200 lock_free) blocks 66 200 55 4096 1 (9 ∷ []) ≡ ret r)
    × Started (tasks 200 lock_free) 104 200 55 66 (100 ∷ 101 ∷ 102 ∷ 103 ∷ []) r
thread_create-Starts_example =
    thread_create-Starts (tasks 200 lock_free) blocks 66 200 55 4096 1 (9 ∷ [])
      (100 ∷ 101 ∷ 102 ∷ 103 ∷ []) refl refl (omega arith) (omega arith) thread_items (omega arith)
      (omega arith) (omega arith)

-- ===== src/Scheduler/Threads.antt =====
-- The creation of threads in kernel/src/sys/scheduler/thread.c, and create_process of scheduler.c. What the allocator
-- returns, and the page directory that clone_kernel_page_directory makes, are arguments.
use nocturne_os_base.Prelude.{
  ℕ, zero, suc, ◌+◌, ◌*◌, ◌/◌, ◌^◌, bit_and, Bool, ◌&&◌, ◌==◌, leb, ltb, if◌then◌else◌, List, [],
  ◌∷◌, ◌++◌, none, u32, sub32, align_up, page_size, Outcome, ret, ◌>>=◌,
}
use nocturne_os_base.Links.{Links, update, set_prev, set_next, set_owner}
use nocturne_os_base.Scheduler.{
  Tasks, Thread, Process, created, paused, Call, opened, thread_add_prepared, process_add_prepared,
}

-- The blocks of a new thread: `tmp_thread`, its region for `fxsave`, its kernel stack and its stack.
pub record Blocks : Type 0 where
  pub thread : ℕ
  pub fxsave_region : ℕ
  pub kernel_stack : ℕ
  pub stack : ℕ

-- The item of a block that is filled with zeros.
unfoldable pub clear_item : Links → ℕ → Links
clear_item s item = set_owner (set_next (set_prev s item 0) item 0) item 0

-- The words of a stack that is filled with zeros.
unfoldable pub clear_words : (ℕ → ℕ) → ℕ → ℕ → ℕ → ℕ
clear_words w at size a = if leb at a && ltb a (at + size) then 0 else w a

-- `*--esp = value` on the words and the stack pointer.
abbrev pub push : (ℕ → ℕ) × ℕ → ℕ → (ℕ → ℕ) × ℕ
push m value = (update m.0 (sub32 m.1 4) value, sub32 m.1 4)

unfoldable pub push_all : (ℕ → ℕ) × ℕ → List ℕ → (ℕ → ℕ) × ℕ
push_all m [] = m
push_all m (value ∷ values) = push_all (push m value) values

-- The pages of a user stack.
unfoldable pub open_pages : ℕ → ℕ → List Call
open_pages stack zero = []
open_pages stack (suc n) = opened (u32 stack) ∷ open_pages (stack + page_size) n

-- One thread more in a process.
unfoldable pub count_up : (ℕ → Process) → ℕ → ℕ → Process
count_up processes process p =
    if process == p
    then record (processes p) { threads_count = u32 ((processes p).threads_count + 1) }
    else processes p

-- The stack of a new thread: the arguments, the two return addresses, the flags, and seven registers below.
unfoldable pub first_frame : (ℕ → ℕ) × ℕ → List ℕ → ℕ → ℕ → (ℕ → ℕ) × ℕ
unfolding push_all
first_frame m args exit entry_point =
    let framed = push (push (push (push_all m args) exit) entry_point) 0x202 in
    (framed.0, sub32 framed.1 28)

-- The thread with its stack, counted in its process. The address of `thread_exit_entrypoint` is an argument.
unfoldable pub prepare_thread : Tasks → Blocks → ℕ → ℕ → ℕ → ℕ → ℕ → List ℕ → Tasks
unfolding clear_item clear_words first_frame open_pages count_up
prepare_thread s b exit process entry_point stack_size flags args =
    let real_stack_size = align_up stack_size page_size in
    let m =
      first_frame (clear_words s.words b.stack real_stack_size, u32 (b.stack + stack_size)) args
        exit entry_point in
    let tmp_thread : Thread = record {
      process = process;
      flags = flags;
      stack_size = stack_size;
      stack = b.stack;
      esp = m.1;
      entry_point = entry_point;
      id = s.next_thread_id;
      stack_top = u32 (b.stack + stack_size);
      state = paused;
      fxsave_region = b.fxsave_region;
      kernel_stack_top = u32 (b.kernel_stack + page_size);
      kernel_stack_bottom = b.kernel_stack;
      last_error = 0;
    } in
    let user = bit_and flags 1 == 0 in
    record s {
      links = clear_item s.links b.thread;
      threads = λ p. if b.thread == p then tmp_thread else s.threads p;
      processes = count_up s.processes process;
      words = m.0;
      calls = s.calls ++ (if user then open_pages b.stack (real_stack_size / page_size) else []);
      next_thread_id = u32 (s.next_thread_id + 1);
    }

-- A null pointer is 0.
unfoldable pub thread_create_unwrapped :
    Tasks → Blocks → ℕ → ℕ → ℕ → ℕ → ℕ → List ℕ → Outcome (Tasks × ℕ)
unfolding prepare_thread thread_add_prepared
thread_create_unwrapped s b exit process entry_point stack_size flags args =
    let t = prepare_thread s b exit process entry_point stack_size flags args in
    let added = thread_add_prepared t b.thread >>= λ u. ret (u, b.thread) in
    if s.multi_task then added else ret (s, 0)

-- A thread may run from now on.
unfoldable pub wake : Tasks → ℕ → Tasks
wake s thread = record s {
  threads = λ p. if thread == p then record (s.threads p) { state = created } else s.threads p;
}

unfoldable pub thread_create : Tasks → Blocks → ℕ → ℕ → ℕ → ℕ → ℕ → List ℕ → Outcome (Tasks × ℕ)
unfolding thread_create_unwrapped wake
thread_create s b exit process entry_point stack_size flags args =
    let made = thread_create_unwrapped s b exit process entry_point stack_size flags args >>= λ r.
    ret (wake r.0 r.1, r.1) in
    if s.multi_task then made else ret (s, 0)

unfoldable pub thread_create_arg1 : Tasks → Blocks → ℕ → ℕ → ℕ → ℕ → ℕ → ℕ → Outcome (Tasks × ℕ)
unfolding thread_create
thread_create_arg1 s b exit process entry_point stack_size flags arg1 =
    thread_create s b exit process entry_point stack_size flags (arg1 ∷ [])

-- What `create_process` gets from the allocator, and the directory of pages that is cloned for it.
pub record ProcessBlocks : Type 0 where
  pub process : ℕ
  pub name : ℕ
  pub cwd : ℕ
  pub page_dir : ℕ
  pub page_dir_virt : ℕ
  pub page_tables_virts : List ℕ

abbrev pub default_stack_size : ℕ
default_stack_size = 128 * 2 ^ 10

-- The result is the pid. The thread is added twice; its state stays that of `thread_create_unwrapped`.
unfoldable pub create_process : Tasks → ProcessBlocks → Blocks → ℕ → ℕ → Bool → Outcome (Tasks × ℕ)
unfolding clear_item thread_create_unwrapped process_add_prepared thread_add_prepared
create_process s pb b exit entry_point is_kernel = do
  let proc : Process = record {
    page_dir = 0;
    threads_count = 0;
    pid = s.next_pid;
    page_dir_virt = 0;
    name = pb.name;
    page_tables_virts = [];
    cwd = pb.cwd;
    program = none;
  }
  let s1 = record s {
    links = clear_item s.links pb.process;
    processes = λ p. if pb.process == p then proc else s.processes p;
    next_pid = u32 (s.next_pid + 1);
  }
  s2 ← process_add_prepared s1 pb.process
  r ←
      thread_create_unwrapped s2 b exit pb.process entry_point default_stack_size
        (if is_kernel then 1 else 0) []
  s3 ← thread_add_prepared r.0 r.1
  let cloned = λ (p : ℕ).
      if pb.process == p
      then record (s3.processes p) {
        page_dir = pb.page_dir;
        page_dir_virt = pb.page_dir_virt;
        page_tables_virts = pb.page_tables_virts;
      }
      else s3.processes p
  ret (record s3 { processes = cloned }, s.next_pid)

-- ===== src/Scheduler/State.antt =====
-- The state of the scheduler: `thread_t`, `process_t` and the variables of kernel/src/sys/scheduler/scheduler.c and
-- thread.c, with what the switch changes of the processor.
use nocturne_os_base.Prelude.{ℕ, Bool, Option, List}
use nocturne_os_base.Links.{Links}

-- `thread_state_t`.
pub data ThreadState : Type 0 where
  created : ThreadState
  running : ThreadState
  paused : ThreadState
  dead : ThreadState

-- `thread_t` behind its list item.
pub record Thread : Type 0 where
  pub process : ℕ
  pub flags : ℕ
  pub stack_size : ℕ
  pub stack : ℕ
  pub esp : ℕ
  pub entry_point : ℕ
  pub id : ℕ
  pub stack_top : ℕ
  pub state : ThreadState
  pub fxsave_region : ℕ
  pub kernel_stack_top : ℕ
  pub kernel_stack_bottom : ℕ
  pub last_error : ℕ

-- The fields of `Elf32_Phdr` that are read, and the program of a process at its address.
pub record ProgramHeader : Type 0 where
  pub p_type : ℕ
  pub p_vaddr : ℕ
  pub p_memsz : ℕ

pub record Program : Type 0 where
  pub at : ℕ
  pub p_header : List ProgramHeader

-- `process_t` behind its list item.
pub record Process : Type 0 where
  pub page_dir : ℕ
  pub threads_count : ℕ
  pub pid : ℕ
  pub page_dir_virt : ℕ
  pub name : ℕ
  pub page_tables_virts : List ℕ
  pub cwd : ℕ
  pub program : Option Program

-- `kfree`, `phys_free_single_page` of the frame behind an address of a page directory, `unload_elf`, and
-- `phys_set_flags` that opens a page of a stack to user code.
pub data Call : Type 0 where
  freed : ℕ → Call
  freed_page : ℕ → ℕ → Call
  unloaded : ℕ → Call
  opened : ℕ → Call

-- `mutex_t`, as the code that waits for it finds it: free, or held by another that lets it go behind so many more tests of
-- `lock`, or never.
pub data Lock : Type 0 where
  lock_free : Lock
  lock_held : Option ℕ → Lock

-- The registers that a switch changes: the stack pointer, the floating point state, the stack of the task
-- segment and the page directory.
pub record Cpu : Type 0 where
  pub esp : ℕ
  pub simd : ℕ
  pub esp0 : ℕ
  pub cr3 : ℕ

-- `saved` is what a region of `fxsave` holds, `words` are the words of the stacks.
pub record Tasks : Type 0 where
  pub links : Links
  pub threads : ℕ → Thread
  pub processes : ℕ → Process
  pub words : ℕ → ℕ
  pub saved : ℕ → ℕ
  pub calls : List Call
  pub cpu : Cpu
  pub current_thread : ℕ
  pub current_proc : ℕ
  pub sched_idle_thread : ℕ
  pub next_thread_id : ℕ
  pub next_pid : ℕ
  pub multi_task : Bool
  pub thread_lock : Lock
  pub process_lock : Lock

-- The addresses of the two list heads.
abbrev pub thread_list : ℕ
thread_list = 16

abbrev pub process_list : ℕ
process_list = 32

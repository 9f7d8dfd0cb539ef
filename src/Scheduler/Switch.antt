-- ===== src/Scheduler/Switch.antt =====
-- The switch to the thread that is found: what task_switch_v2_wrapper and thread_exit leave.
use nocturne_os_base.Prelude.{
  ℕ, ◌^◌, ◌<◌, ◌≡◌, refl, sym, ap, subst, ◌∙◌, ◌≢◌, true, List, [], ◌∷◌, ◌++◌, ◌==◌, if◌then◌else◌,
  ret, >>=-ret, inl, inr, Bool-cases, if_true, All, length, length-append, arith,
}
use mathlib.Core.List.{append_assoc}
use nocturne_os_base.Links.Distinct.{All-split, All-map}
use nocturne_os_base.Links.Ring.{Ring, Ring-rotate}
use nocturne_os_base.Scheduler.{
  lock_free, Tasks, Thread, Cpu, dead, thread_list, chosen, sched_select_next, task_switch_v2,
  task_switch_v2_wrapper, thread_exit,
}
use nocturne_os_base.Scheduler.Ring.{first_or, Ring-first}
use nocturne_os_base.Scheduler.Lasting.{Lasting, tally, dead_of}
use nocturne_os_base.Scheduler.Select.{
  Runs, Waits, Ahead, Walked, staying, releases, sched_select_next-Finds,
}

-- Behind the current thread come the threads `qs`, which wait, and then `n`, which can run.
pub record Turn (s : Tasks) (qs : List ℕ) (n : ℕ) (rest : List ℕ) : Type 0 where
  pub ring : Ring s.links thread_list ((s.current_thread ∷ qs) ++ (n ∷ rest))
  pub room : length ((s.current_thread ∷ qs) ++ (n ∷ rest)) < 2 ^ 32
  pub free : s.thread_lock ≡ lock_free
  pub runs : Runs ((s.threads n).state)
  pub waits : All (λ q. Waits ((s.threads q).state)) qs
  pub lasting : Lasting s qs

Turn-Ahead :
    (s : Tasks) (qs : List ℕ) (n : ℕ) (rest : List ℕ)
    → Turn s qs n rest
    → Ahead s n (rest ++ (s.current_thread ∷ [])) qs
Turn-Ahead s qs n rest t =
    let c = s.current_thread in
    let e : n ∷ (rest ++ (c ∷ qs)) ≡ n ∷ ((rest ++ (c ∷ [])) ++ qs) =
      ap (λ l. n ∷ l) (sym (append_assoc rest (c ∷ []) qs)) in
    let size : length ((n ∷ rest) ++ (c ∷ qs)) < 2 ^ 32 =
      omega (arith, t.room, length-append (c ∷ qs) (n ∷ rest), length-append (n ∷ rest) (c ∷ qs)) in
    record {
      ring =
          subst (λ l. Ring s.links thread_list l) e
            (Ring-rotate s.links thread_list c qs n rest t.ring);
      room = subst (λ l. length l < 2 ^ 32) e size;
      free = t.free;
      runs = t.runs;
      waits = t.waits;
      lasting = t.lasting;
    }

first_or-append : (c n : ℕ) (qs rest : List ℕ) → first_or c (qs ++ (n ∷ rest)) ≡ first_or n qs
first_or-append c n [] rest = refl
first_or-append c n (q ∷ qs) rest = refl

-- The next thread is the first behind the current one that can run.
pub select-Turn :
    (fuel : ℕ) (s : Tasks) (qs : List ℕ) (n : ℕ) (rest : List ℕ)
    → length qs < fuel
    → Turn s qs n rest
    → (r : Tasks × ℕ) × (sched_select_next fuel s ≡ ret r)
      × Walked s (rest ++ (s.current_thread ∷ [])) qs n r
select-Turn fuel s qs n rest l t =
    let c = s.current_thread in
    sched_select_next-Finds fuel s n (rest ++ (c ∷ [])) qs l
      (Ring-first s.links thread_list c (qs ++ (n ∷ rest)) t.ring ∙ first_or-append c n qs rest)
      (Turn-Ahead s qs n rest t)

-- What the switch from one thread to another leaves.
pub record Switched (s t : Tasks) (qs : List ℕ) (n : ℕ) (rest : List ℕ) : Type 0 where
  pub ring :
      Ring t.links thread_list (n ∷ ((rest ++ (s.current_thread ∷ [])) ++ staying s.threads qs))
  pub calls : t.calls ≡ s.calls ++ releases s.threads qs
  pub current : t.current_thread ≡ n
  pub process : t.current_proc ≡ (s.threads n).process
  pub left : (t.threads s.current_thread).esp ≡ s.cpu.esp
  pub resumed : t.cpu.esp ≡ (s.threads n).esp
  pub simd : t.cpu.simd ≡ s.cpu.simd
  pub kernel_stack : t.cpu.esp0 ≡ (s.threads n).kernel_stack_top
  pub states : (q : ℕ) → (t.threads q).state ≡ (s.threads q).state

switch-fields :
    (s : Tasks) (c n : ℕ)
    → c ≢ n
    → (((task_switch_v2 s c n).threads c).esp ≡ s.cpu.esp)
      × ((task_switch_v2 s c n).current_thread ≡ n)
      × ((task_switch_v2 s c n).current_proc ≡ (s.threads n).process)
      × ((task_switch_v2 s c n).cpu.esp ≡ (s.threads n).esp)
      × ((task_switch_v2 s c n).cpu.esp0 ≡ (s.threads n).kernel_stack_top)
      × ((task_switch_v2 s c n).links ≡ s.links)
      × ((task_switch_v2 s c n).calls ≡ s.calls)
unfolding task_switch_v2
switch-fields s c n ne = (
  ground arith,
  ground arith,
  ground arith,
  ground arith,
  ground arith,
  ground arith,
  ground arith,
)

switch-states :
    (s : Tasks) (c n q : ℕ) → ((task_switch_v2 s c n).threads q).state ≡ (s.threads q).state
unfolding task_switch_v2
switch-states s c n q = ground arith

-- The current thread is another than the next.
Turn-ne :
    (s : Tasks) (qs : List ℕ) (n : ℕ) (rest : List ℕ) → Turn s qs n rest → s.current_thread ≢ n
Turn-ne s qs n rest t = (All-split _ qs (n ∷ rest) t.ring.distinct.0).1.0

-- The floating point registers are those of the old thread behind every switch.
task_switch_v2-keeps_simd :
    (s : Tasks) (old new : ℕ) → (task_switch_v2 s old new).cpu.simd ≡ s.cpu.simd
unfolding task_switch_v2
task_switch_v2-keeps_simd s old new = ground arith

-- What the rest of the wrapper does with the thread that the walk has found.
Switched-of-Walked :
    (s : Tasks) (qs : List ℕ) (n : ℕ) (rest : List ℕ) (r : Tasks × ℕ)
    → s.current_thread ≢ n
    → 0 ≢ n
    → Walked s (rest ++ (s.current_thread ∷ [])) qs n r
    → Switched s (task_switch_v2 r.0 r.0.current_thread (chosen r.0 r.1)) qs n rest
Switched-of-Walked s qs n rest r ne real w =
    let (u, m) = r in
    let c = s.current_thread in
    let found : chosen u m ≡ n = rw w.0 (ground arith) in
    let f = switch-fields u c n ne in
    subst (λ a. Switched s (task_switch_v2 u a (chosen u m)) qs n rest) (sym w.4)
      (subst (λ b. Switched s (task_switch_v2 u c b) qs n rest) (sym found)
        record {
          ring =
              subst (λ l. Ring l thread_list (n ∷ ((rest ++ (c ∷ [])) ++ staying s.threads qs)))
                (sym f.5) w.1;
          calls = f.6 ∙ w.2;
          current = f.1;
          process = f.2 ∙ ap (λ (t : ℕ → Thread). (t n).process) w.3;
          left = f.0 ∙ ap (λ (t : Cpu). t.esp) w.6;
          resumed = f.3 ∙ ap (λ (t : ℕ → Thread). (t n).esp) w.3;
          simd = task_switch_v2-keeps_simd u c n ∙ ap (λ (t : Cpu). t.simd) w.6;
          kernel_stack = f.4 ∙ ap (λ (t : ℕ → Thread). (t n).kernel_stack_top) w.3;
          states = λ q. switch-states u c n q ∙ ap (λ (t : ℕ → Thread). (t q).state) w.3;
        })

-- While threads are on and the lock of the threads is free, a timer interrupt goes from the current thread to `n`, with the stack,
-- the kernel stack and the process of `n`, and with the floating point registers of the old thread, where `n` can run, another
-- thread, all threads between them are paused or dead, the list is in order with fewer than 2^32 threads and the loop has more
-- rounds than there are threads between. The dead ones of those are out of the list and their four blocks are freed, the others are in it in
-- order, and no state is changed. The condition on the dead ones: if the kernel's process is the current one, every process of
-- theirs counts more threads than it has dead ones there, and fewer than 2^32.
pub task_switch_v2_wrapper-Switches :
    (fuel : ℕ) (s : Tasks) (qs : List ℕ) (n : ℕ) (rest : List ℕ)
    → s.multi_task ≡ true
    → length qs < fuel
    → Turn s qs n rest
    → (t : Tasks) × (task_switch_v2_wrapper fuel s ≡ ret t) × Switched s t qs n rest
unfolding task_switch_v2_wrapper
task_switch_v2_wrapper-Switches fuel s qs n rest on l turn =
    let (r, e, w) = select-Turn fuel s qs n rest l turn in
    let real = (All-split _ (s.current_thread ∷ qs) (n ∷ rest) turn.ring.real).1.0 in
    (
      task_switch_v2 r.0 r.0.current_thread (chosen r.0 r.1),
      if_true s.multi_task _ (ret s) on ∙ >>=-ret (sched_select_next fuel s) _ e refl,
      Switched-of-Walked s qs n rest r (Turn-ne s qs n rest turn) real w,
    )

-- The state that `thread_exit` hands to the switch.
abbrev pub mark_dead : Tasks → ℕ → Tasks
mark_dead s thread = record s {
  threads = λ p. if thread == p then record (s.threads p) { state = dead } else s.threads p;
}

mark_dead-Waits :
    (s : Tasks) (c q : ℕ) → Waits ((s.threads q).state) → Waits (((mark_dead s c).threads q).state)
mark_dead-Waits s c q w = elim (Bool-cases (c == q)) [
  | inl own ↦ rw own tt
  | inr other ↦ rw other w
]

mark_dead-ne : (s : Tasks) (c q : ℕ) → c ≢ q → ((mark_dead s c).threads q) ≡ s.threads q
mark_dead-ne s c q ne = ground arith

dead_of-mark_dead :
    (s : Tasks) (c p : ℕ) (qs : List ℕ)
    → All (λ q. c ≢ q) qs
    → dead_of (mark_dead s c).threads qs p ≡ dead_of s.threads qs p
dead_of-mark_dead s c p [] ne = refl
dead_of-mark_dead s c p (q ∷ qs) ne =
    rw (mark_dead-ne s c q ne.0)
      (ap (tally ((s.threads q).state) ((s.threads q).process) p) (dead_of-mark_dead s c p qs ne.1))

mark_dead_self : (s : Tasks) (c : ℕ) → ((mark_dead s c).threads c).state ≡ dead
mark_dead_self s c = ground arith

mark_dead-Lasting :
    (s : Tasks) (c : ℕ) (qs : List ℕ)
    → All (λ q. c ≢ q) qs
    → Lasting s qs
    → Lasting (mark_dead s c) qs
mark_dead-Lasting s c qs ne (inl user) = inl user
mark_dead-Lasting s c qs ne (inr more) = inr (λ p some_dead.
    let same = dead_of-mark_dead s c p qs ne in
    subst (λ k. (k < (s.processes p).threads_count) × ((s.processes p).threads_count < 2 ^ 32))
      (sym same) (more p (subst (λ k. 0 < k) same some_dead)))

Turn-mark :
    (s : Tasks) (qs : List ℕ) (n : ℕ) (rest : List ℕ)
    → Turn s qs n rest
    → Turn (mark_dead s s.current_thread) qs n rest
Turn-mark s qs n rest t =
    let c = s.current_thread in
    record {
      ring = t.ring;
      room = t.room;
      free = t.free;
      runs =
          subst (λ (h : Thread). Runs (h.state)) (sym (mark_dead-ne s c n (Turn-ne s qs n rest t)))
            t.runs;
      waits = All-map _ _ qs (λ q w. mark_dead-Waits s c q w) t.waits;
      lasting = mark_dead-Lasting s c qs (All-split _ qs (n ∷ rest) t.ring.distinct.0).0 t.lasting;
    }

-- While threads are on and the lock of the threads is free, `thread_exit` of the current thread makes it dead, leaves it in the list
-- and goes to `n`, with the stack, the kernel stack and the process of `n`, where `n` can run, all threads between them are
-- paused or dead, the list is in order with fewer than 2^32 threads and the loop has more rounds than there are threads between. The dead
-- ones of those are out of the list and their four blocks are freed, the others are in it in order. The condition on the dead
-- ones: if the kernel's process is the current one, every process of theirs counts more threads than it has dead ones there, and
-- fewer than 2^32.
pub thread_exit-Switches :
    (fuel : ℕ) (s : Tasks) (qs : List ℕ) (n : ℕ) (rest : List ℕ)
    → s.multi_task ≡ true
    → length qs < fuel
    → Turn s qs n rest
    → (t : Tasks) × (thread_exit fuel s s.current_thread ≡ ret t)
      × Switched (mark_dead s s.current_thread) t qs n rest
      × ((t.threads s.current_thread).state ≡ dead)
unfolding thread_exit
thread_exit-Switches fuel s qs n rest on l turn =
    let c = s.current_thread in
    let (t, e, w) =
      task_switch_v2_wrapper-Switches fuel (mark_dead s c) qs n rest on l
        (Turn-mark s qs n rest turn) in
    (t, if_true s.multi_task _ (ret s) on ∙ e, w, w.states c ∙ mark_dead_self s c)

-- ===== src/Scheduler/Start.antt =====
-- What a new thread is: the last of the list, with a stack that leads into its entry point.
use nocturne_os_base.Prelude.{
  ℕ, ◌+◌, ◌-◌, ◌*◌, ◌^◌, ◌<◌, ◌≤◌, ◌≡◌, refl, sym, ap, ap₂, subst, ◌∙◌, ◌≢◌, true, false, List, [],
  ◌∷◌, ◌++◌, ◌==◌, if_true, >>=-ret, align_up, page_size, u32, sub32, ret, length, arith,
}
use nocturne_os_base.Links.{Links, update, list_add}
use nocturne_os_base.Links.Cycle.{update_ne, update_self}
use nocturne_os_base.Links.Distinct.{NotIn, All-map}
use nocturne_os_base.Links.Edit.{Holds, list_add-Holds}
use nocturne_os_base.Links.Other.{Holds-frame_on}
use nocturne_os_base.Scheduler.{
  lock_free, Tasks, Process, created, thread_list, thread_add_prepared,
}
use nocturne_os_base.Scheduler.Threads.{
  Blocks, clear_item, clear_words, push, push_all, prepare_thread, first_frame,
  thread_create_unwrapped, wake, thread_create,
}

push_all-esp :
    (m : (ℕ → ℕ) × ℕ) (args : List ℕ)
    → m.1 < 2 ^ 32
    → 4 * length args ≤ m.1
    → (push_all m args).1 ≡ m.1 - 4 * length args
unfolding push_all
push_all-esp m [] small room = omega arith
push_all-esp m (x ∷ args) small room =
    push_all-esp (push m x) args (omega arith) (omega arith) ∙ omega arith

-- `esp` points at seven registers; above them stand the flags and the two return addresses.
pub record Framed (words : ℕ → ℕ) (esp entry_point exit : ℕ) : Type 0 where
  pub eflags : words (esp + 28) ≡ 0x202
  pub starts : words (esp + 32) ≡ entry_point
  pub ends : words (esp + 36) ≡ exit

three_pushes :
    (w : ℕ → ℕ) (e exit entry_point : ℕ)
    → 40 ≤ e
    → e < 2 ^ 32
    → Framed
        (update (update (update w (e - 4) exit) (e - 8) entry_point) (e - 12) 0x202)
        (e - 40)
        entry_point
        exit
three_pushes w e exit entry_point l u = record {
  eflags = ground arith;
  starts = ground arith;
  ends = ground arith;
}

pub first_frame-Framed :
    (m : (ℕ → ℕ) × ℕ) (args : List ℕ) (exit entry_point : ℕ)
    → m.1 < 2 ^ 32
    → 40 + 4 * length args ≤ m.1
    → Framed (first_frame m args exit entry_point).0 (m.1 - 4 * length args - 40) entry_point exit
      × ((first_frame m args exit entry_point).1 ≡ m.1 - 4 * length args - 40)
unfolding first_frame
first_frame-Framed m args exit entry_point small room =
    let p = push_all m args in
    let e : p.1 ≡ m.1 - 4 * length args = push_all-esp m args small (omega arith) in
    let k = m.1 - 4 * length args in
    let a : sub32 p.1 4 ≡ k - 4 = omega arith in
    let b : sub32 (sub32 p.1 4) 4 ≡ k - 8 = omega arith in
    let c : sub32 (sub32 (sub32 p.1 4) 4) 4 ≡ k - 12 = omega arith in
    let d : sub32 (sub32 (sub32 (sub32 p.1 4) 4) 4) 28 ≡ k - 40 = omega arith in
    (
      subst
          (λ (t : ℕ × ℕ × ℕ).
            Framed (update (update (update p.0 t.0 exit) t.1 entry_point) t.2 0x202) (k - 40)
              entry_point exit)
          (sym (ap₂ (λ x (y : ℕ × ℕ). (x, y.0, y.1)) a (ap₂ (λ x y. (x, y)) b c)))
          (three_pushes p.0 k exit entry_point (omega arith) (omega arith)),
      d,
    )

-- The thread that `r` returns is the last of the list, may run, and starts at its entry point; the others are as
-- they were.
pub record Started (s : Tasks) (thread process entry_point exit : ℕ) (xs : List ℕ) (r : Tasks × ℕ)
    : Type 0 where
  pub address : r.1 ≡ thread
  pub threads : Holds r.0.links thread_list (xs ++ (thread ∷ []))
  pub state : (r.0.threads thread).state ≡ created
  pub home : (r.0.threads thread).process ≡ process
  pub frame : Framed r.0.words (r.0.threads thread).esp entry_point exit
  pub counted :
      (r.0.processes process).threads_count ≡ u32 ((s.processes process).threads_count + 1)
  pub others : (q : ℕ) → thread ≢ q → r.0.threads q ≡ s.threads q

-- The list does not see that the block of the new thread is cleared.
clear_item-Holds :
    (s : Links) (list item : ℕ) (xs : List ℕ)
    → NotIn item xs
    → Holds s list xs
    → Holds (clear_item s item) list xs
unfolding clear_item
clear_item-Holds s list item xs out h =
    Holds-frame_on s _ list xs
      (All-map _ _ xs
        (λ p ne. (
          update_ne s.next item 0 p ne,
          update_ne s.prev item 0 p ne,
          update_ne s.owner item 0 p ne,
        ))
        out)
      refl refl h

clear_item-owner : (s : Links) (item : ℕ) → (clear_item s item).owner item ≡ 0
unfolding clear_item
clear_item-owner s item = update_self s.owner item 0

thread_add_prepared-free :
    (s : Tasks) (thread : ℕ)
    → s.thread_lock ≡ lock_free
    → thread_add_prepared s thread
      ≡ ret (record s { links = list_add s.links thread_list thread; thread_lock = lock_free })
unfolding thread_add_prepared
thread_add_prepared-free s thread free = rw free refl

module _ (s : Tasks) (b : Blocks) (exit process entry_point stack_size flags : ℕ)
    (args : List ℕ) where
  abbrev prepared : Tasks
  prepared = prepare_thread s b exit process entry_point stack_size flags args

  prepared-links : prepared.links ≡ clear_item s.links b.thread
  unfolding prepare_thread
  prepared-links = refl

  prepared-count :
      (prepared.processes process).threads_count ≡ u32 ((s.processes process).threads_count + 1)
  unfolding prepare_thread
  prepared-count = ground arith

  prepared-others : (q : ℕ) → b.thread ≢ q → prepared.threads q ≡ s.threads q
  unfolding prepare_thread
  prepared-others q ne = ground arith

  prepared-home : (prepared.threads b.thread).process ≡ process
  unfolding prepare_thread
  prepared-home = ground arith

  prepared-Framed :
      b.stack + stack_size < 2 ^ 32
      → 40 + 4 * length args ≤ stack_size
      → Framed prepared.words (prepared.threads b.thread).esp entry_point exit
  unfolding prepare_thread
  prepared-Framed small room =
      let w = clear_words s.words b.stack (align_up stack_size page_size) in
      let top : u32 (b.stack + stack_size) ≡ b.stack + stack_size = omega arith in
      let (f, e) =
        first_frame-Framed (w, u32 (b.stack + stack_size)) args exit entry_point (omega arith)
          (omega (arith, top)) in
      let self : (b.thread == b.thread) ≡ true = ground arith in
      let m = first_frame (w, u32 (b.stack + stack_size)) args exit entry_point in
      let at : (prepared.threads b.thread).esp ≡ m.1 = rw self refl in
      subst (λ k. Framed m.0 k entry_point exit) (sym (at ∙ e)) f

  prepared-lock : prepared.thread_lock ≡ s.thread_lock
  unfolding prepare_thread
  prepared-lock = refl

  abbrev added : Tasks
  added = record prepared {
    links = list_add prepared.links thread_list b.thread;
    thread_lock = lock_free;
  }

  unwrapped-added :
      s.multi_task ≡ true
      → s.thread_lock ≡ lock_free
      → thread_create_unwrapped s b exit process entry_point stack_size flags args
        ≡ ret (added, b.thread)
  unfolding thread_create_unwrapped
  unwrapped-added on free =
      if_true s.multi_task _ (ret (s, 0)) on
      ∙ >>=-ret (thread_add_prepared prepared b.thread) _
          (thread_add_prepared-free prepared b.thread (prepared-lock ∙ free)) refl

  wake_self :
      (((wake added b.thread).threads b.thread).state ≡ created)
      × (((wake added b.thread).threads b.thread).process ≡ (prepared.threads b.thread).process)
      × (((wake added b.thread).threads b.thread).esp ≡ (prepared.threads b.thread).esp)
  unfolding wake
  wake_self = let self : (b.thread == b.thread) ≡ true = ground arith in rw self (refl, refl, refl)

  wake-others : (q : ℕ) → b.thread ≢ q → (wake added b.thread).threads q ≡ prepared.threads q
  unfolding wake
  wake-others q ne = let other : (b.thread == q) ≡ false = ground arith in rw other refl

  wake-rest :
      ((wake added b.thread).links ≡ list_add prepared.links thread_list b.thread)
      × ((wake added b.thread).words ≡ prepared.words)
      × ((wake added b.thread).processes ≡ prepared.processes)
  unfolding wake
  wake-rest = (refl, refl, refl)

  added-Holds :
      (xs : List ℕ)
      → 0 ≢ b.thread
      → NotIn b.thread xs
      → Holds s.links thread_list xs
      → length xs + 1 < 2 ^ 32
      → Holds (list_add prepared.links thread_list b.thread) thread_list (xs ++ (b.thread ∷ []))
  added-Holds xs real out h count =
      subst (λ l. Holds (list_add l thread_list b.thread) thread_list (xs ++ (b.thread ∷ [])))
        (sym prepared-links)
        (list_add-Holds (clear_item s.links b.thread) thread_list b.thread (omega arith) real
          (clear_item-owner s.links b.thread) xs
          (clear_item-Holds s.links thread_list b.thread xs out h) count)

  -- `thread_create` with threads on, the lock free, a block for the thread that is not in the list, and a stack with room for the arguments
  -- and ten words, below the end of the address space: it returns the thread, which is the last of the list, may run, and is counted
  -- in its process. Its stack holds seven registers, the flags, the entry point and the exit routine. The other threads are as before.
  pub thread_create-Starts :
      (xs : List ℕ)
      → s.multi_task ≡ true
      → s.thread_lock ≡ lock_free
      → 0 ≢ b.thread
      → NotIn b.thread xs
      → Holds s.links thread_list xs
      → length xs + 1 < 2 ^ 32
      → b.stack + stack_size < 2 ^ 32
      → 40 + 4 * length args ≤ stack_size
      → (r : Tasks × ℕ) × (thread_create s b exit process entry_point stack_size flags args ≡ ret r)
        × Started s b.thread process entry_point exit xs r
  unfolding thread_create
  thread_create-Starts xs on free real out h count small room = (
    (wake added b.thread, b.thread),
    if_true s.multi_task _ (ret (s, 0)) on
        ∙ >>=-ret (thread_create_unwrapped s b exit process entry_point stack_size flags args) _
            (unwrapped-added on free) refl,
    record {
      address = refl;
      threads =
          subst (λ l. Holds l thread_list (xs ++ (b.thread ∷ []))) (sym wake-rest.0)
            (added-Holds xs real out h count);
      state = wake_self.0;
      home = wake_self.1 ∙ prepared-home;
      frame =
          subst (λ k. Framed (wake added b.thread).words k entry_point exit) (sym wake_self.2)
            (subst (λ w. Framed w (prepared.threads b.thread).esp entry_point exit)
              (sym wake-rest.1) (prepared-Framed small room));
      counted = ap (λ (ps : ℕ → Process). (ps process).threads_count) wake-rest.2 ∙ prepared-count;
      others = λ q ne. wake-others q ne ∙ prepared-others q ne;
    },
  )

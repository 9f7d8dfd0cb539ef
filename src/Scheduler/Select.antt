-- ===== src/Scheduler/Select.antt =====
-- sched_select_next walks to the first thread that can run, and takes the dead threads before it out.
use nocturne_os_base.Prelude.{
  ℕ, zero, suc, ◌^◌, ◌<◌, ◌≡◌, refl, sym, ap, subst, ◌∙◌, ◌≢◌, false, List, [], ◌∷◌, ◌++◌, ◌==◌,
  Outcome, ret, All, length, length-append, arith,
}
use mathlib.Core.List.{append-nil, append_assoc}
use nocturne_os_base.Links.Distinct.{All-split}
use nocturne_os_base.Links.Ring.{Ring, Ring-remove_inner}
use nocturne_os_base.Scheduler.{
  lock_free, Tasks, Thread, ThreadState, created, running, paused, dead, Call, freed, thread_list,
  thread_calls, count_down, select_from, sched_select_next, visit_thread,
}
use nocturne_os_base.Scheduler.Ring.{first_or, Ring-next, forget, remove_thread-forget}
use nocturne_os_base.Scheduler.Lasting.{Lasting, Lasting-gone, Lasting-forget, Lasting-paused}

abbrev pub Runs : ThreadState → Type 0
Runs created = Unit {0}
Runs running = Unit {0}
Runs paused = ⊥
Runs dead = ⊥

abbrev pub Waits : ThreadState → Type 0
Waits created = ⊥
Waits running = ⊥
Waits paused = Unit {0}
Waits dead = Unit {0}

-- The threads that stay in the list: all but the dead ones.
abbrev pub stay : ThreadState → ℕ → List ℕ → List ℕ
stay dead q r = r
stay created q r = q ∷ r
stay running q r = q ∷ r
stay paused q r = q ∷ r

abbrev pub staying : (ℕ → Thread) → List ℕ → List ℕ
staying threads [] = []
staying threads (q ∷ qs) = stay ((threads q).state) q (staying threads qs)

-- The blocks that are freed with the dead threads, in order: the region for `fxsave`, the kernel stack, the stack and
-- the thread itself.
abbrev pub release : ThreadState → List Call → List Call → List Call
release dead own rest = own ++ rest
release created own rest = rest
release running own rest = rest
release paused own rest = rest

abbrev pub releases : (ℕ → Thread) → List ℕ → List Call
releases threads [] = []
releases threads (q ∷ qs) =
    release ((threads q).state)
      (freed (threads q).fxsave_region
        ∷ freed (threads q).kernel_stack_bottom
        ∷ freed (threads q).stack
        ∷ freed q
        ∷ [])
      (releases threads qs)

-- What a walk leaves: a thread, the list without the dead threads, the calls, and all else as it was.
abbrev pub Walked : Tasks → List ℕ → List ℕ → ℕ → Tasks × ℕ → Type 0
Walked s ws qs n r =
    (r.1 ≡ n)
    × Ring r.0.links thread_list ((n ∷ ws) ++ staying s.threads qs)
    × (r.0.calls ≡ s.calls ++ releases s.threads qs)
    × (r.0.threads ≡ s.threads)
    × (r.0.current_thread ≡ s.current_thread)
    × (r.0.current_proc ≡ s.current_proc)
    × (r.0.cpu ≡ s.cpu)

-- A thread that can run ends the walk.
visit_thread-Runs :
    (go : Tasks → Outcome (Tasks × ℕ)) (st : ThreadState) (s : Tasks) (n : ℕ)
    → Runs st
    → visit_thread go st s n ≡ ret (s, n)
unfolding visit_thread
visit_thread-Runs go created s n r = refl
visit_thread-Runs go running s n r = refl
visit_thread-Runs go paused s n r = elim r [ ]
visit_thread-Runs go dead s n r = elim r [ ]

step :
    (f : ℕ) (s : Tasks) (n : ℕ)
    → 0 ≢ n
    → select_from (suc f) s n
      ≡ visit_thread (λ (t : Tasks). select_from f t (s.links.next n)) ((s.threads n).state) s n
unfolding select_from
step f s n real = let t : (n == 0) ≡ false = ground arith in rw t refl

-- A list in order, all of whose threads before `n` wait.
pub record Ahead (s : Tasks) (n : ℕ) (ws qs : List ℕ) : Type 0 where
  pub ring : Ring s.links thread_list ((n ∷ ws) ++ qs)
  pub room : length ((n ∷ ws) ++ qs) < 2 ^ 32
  pub free : s.thread_lock ≡ lock_free
  pub runs : Runs ((s.threads n).state)
  pub waits : All (λ q. Waits ((s.threads q).state)) qs
  pub lasting : Lasting s qs

abbrev Arrives : Tasks → ℕ → List ℕ → List ℕ → Outcome (Tasks × ℕ) → Type 0
Arrives s n ws qs o = (r : Tasks × ℕ) × (o ≡ ret r) × Walked s ws qs n r

regroup : (ws : List ℕ) (q : ℕ) (qs : List ℕ) → ws ++ (q ∷ qs) ≡ (ws ++ (q ∷ [])) ++ qs
regroup ws q qs = sym (append_assoc ws (q ∷ []) qs)

Ahead-pass :
    (s : Tasks) (n : ℕ) (ws : List ℕ) (q : ℕ) (qs : List ℕ)
    → (s.threads q).state ≡ paused
    → Ahead s n ws (q ∷ qs)
    → Ahead s n (ws ++ (q ∷ [])) qs
Ahead-pass s n ws q qs e h = record {
  ring = subst (λ l. Ring s.links thread_list (n ∷ l)) (regroup ws q qs) h.ring;
  room = subst (λ l. length (n ∷ l) < 2 ^ 32) (regroup ws q qs) h.room;
  free = h.free;
  runs = h.runs;
  waits = h.waits.1;
  lasting = Lasting-paused s q qs e h.lasting;
}

Ahead-forget :
    (s : Tasks) (n : ℕ) (ws : List ℕ) (q : ℕ) (qs : List ℕ)
    → (s.threads q).state ≡ dead
    → Ahead s n ws (q ∷ qs)
    → Ahead (forget s q) n ws qs
unfolding count_down
Ahead-forget s n ws q qs e h = record {
  ring = Ring-remove_inner s.links thread_list n ws q qs h.room h.ring;
  room = omega (arith, h.room, length-append (n ∷ ws) (q ∷ qs), length-append (n ∷ ws) qs);
  free = refl;
  runs = h.runs;
  waits = h.waits.1;
  lasting = Lasting-forget s q qs e h.lasting;
}

visit_thread-Waits :
    (go : Tasks → Outcome (Tasks × ℕ)) (st : ThreadState) (s : Tasks) (n : ℕ) (ws : List ℕ) (q : ℕ)
    (qs : List ℕ)
    → ((t : Tasks) (vs : List ℕ) → Ahead t n vs qs → Arrives t n vs qs (go t))
    → (s.threads q).state ≡ st
    → Waits st
    → Ahead s n ws (q ∷ qs)
    → Arrives s n ws (q ∷ qs) (visit_thread go ((s.threads q).state) s q)
unfolding visit_thread count_down thread_calls
visit_thread-Waits go created s n ws q qs ih e w h = elim w [ ]
visit_thread-Waits go running s n ws q qs ih e w h = elim w [ ]
visit_thread-Waits go paused s n ws q qs ih e _ h =
    let (r, done, w) = ih s (ws ++ (q ∷ [])) (Ahead-pass s n ws q qs e h) in
    rw e (
      r,
      done,
      (
        w.0,
        subst (λ l. Ring r.0.links thread_list (n ∷ l)) (sym (regroup ws q (staying s.threads qs)))
            w.1,
        w.2,
        w.3,
        w.4,
        w.5,
        w.6,
      ),
    )
visit_thread-Waits go dead s n ws q qs ih e _ h =
    let (r, done, w) = ih (forget s q) ws (Ahead-forget s n ws q qs e h) in
    rw e (
      r,
      rw (remove_thread-forget s q h.free (Lasting-gone s q qs e h.lasting)) done,
      (
        w.0,
        w.1,
        w.2 ∙ append_assoc s.calls (thread_calls (s.threads q) q) (releases s.threads qs),
        w.3,
        w.4,
        w.5,
        w.6,
      ),
    )

-- The walk over threads that wait, to one that runs.
walk :
    (qs : List ℕ) (f : ℕ) (s : Tasks) (n : ℕ) (ws : List ℕ)
    → length qs < f
    → Ahead s n ws qs
    → Arrives s n ws qs (select_from f s (first_or n qs))
walk qs zero s n ws f h = absurd (omega arith)
walk [] (suc f) s n ws l h = (
  (s, n),
  step f s n h.ring.real.0 ∙ visit_thread-Runs _ ((s.threads n).state) s n h.runs,
  (refl, h.ring, sym (append-nil s.calls), refl, refl, refl, refl),
)
walk (q ∷ qs) (suc f) s n ws l h =
    let real = (All-split _ (n ∷ ws) (q ∷ qs) h.ring.real).1 in
    let go : Tasks → Outcome (Tasks × ℕ) = λ t. select_from f t (first_or n qs) in
    let onward =
      ap (λ a. visit_thread (λ (t : Tasks). select_from f t a) ((s.threads q).state) s q)
        (Ring-next s.links thread_list n ws q qs h.ring) in
    let (r, e, w) =
      visit_thread-Waits go ((s.threads q).state) s n ws q qs
        (λ t vs a. walk qs f t n vs (omega arith) a) refl h.waits.0 h in
    (r, step f s q real.0 ∙ (onward ∙ e), w)

-- When the current thread comes right before the waiting threads: `ws` ends with it, or it is `n` itself.
pub sched_select_next-Finds :
    (fuel : ℕ) (s : Tasks) (n : ℕ) (ws qs : List ℕ)
    → length qs < fuel
    → s.links.next s.current_thread ≡ first_or n qs
    → Ahead s n ws qs
    → (r : Tasks × ℕ) × (sched_select_next fuel s ≡ ret r) × Walked s ws qs n r
unfolding sched_select_next
sched_select_next-Finds fuel s n ws qs l at h = rw at (walk qs fuel s n ws l h)

-- ===== src/Net/Loop/Order.antt =====
-- The tasks of the event loop of net/src/eventloop.cpp are a queue.
use qinyunserver.Base.{
  ℕ, ◌≡◌, refl, sym, ap, ◌∙◌, Bool, true, false, List, [], ◌∷◌, ◌++◌, append_assoc, append-nil,
  arith, Bool-cases, inl, inr,
}
use qinyunserver.Net.Loop.{
  wakeup_channel, other_channel, Place, running, Loop, new_loop, wakeup, push, needs_wakeup,
  queue_in_loop, queue_early, queue_from_outside, quit_in_loop, quit_from_outside, handle_wakeup,
  enter, begin_poll, end_poll, handle_channel, leave, swap_functors, run_functor, end_functors,
  Step, starts, goes_on, ends, polls, handles, swaps, runs, finishes, queues, queues_early,
  queues_from_outside, quits, quits_from_outside, wakes, Reach, start, later,
}

abbrev pub is_running : Place → Bool
is_running running = true
is_running _ = false

-- The vector of `doPendingFunctors` is empty except while the tasks run, and so is the flag false.
pub record Tidy (s : Loop) : Type 0 where
  pub calling : s.calling_pending_functors ≡ is_running s.place
  pub empty : is_running s.place ≡ false → s.functors ≡ []

pub Step-Tidy : {s t : Loop} → Step s t → Tidy s → Tidy t
unfolding wakeup push needs_wakeup queue_in_loop queue_early queue_from_outside quit_in_loop
    quit_from_outside handle_wakeup enter begin_poll end_poll handle_channel leave swap_functors
    run_functor end_functors
Step-Tidy (starts p) h = ground arith
Step-Tidy (goes_on p q) h = ground arith
Step-Tidy (ends p q) h = ground arith
Step-Tidy (polls ready p) h = ground arith
Step-Tidy (handles wakeup_channel rest p q) h = ground arith
Step-Tidy (handles (other_channel c) rest p q) h = ground arith
Step-Tidy (swaps p q) h = ground arith
Step-Tidy (runs task rest p q) h = ground arith
Step-Tidy (finishes p q) h = ground arith
Step-Tidy (queues task p) h = ground arith
Step-Tidy (queues_early task p) h = ground arith
Step-Tidy (queues_from_outside task) h = ground arith
Step-Tidy (quits p) h = ground arith
Step-Tidy quits_from_outside h = ground arith
Step-Tidy (wakes k p) h = ground arith

pub Reach-Tidy : {s : Loop} → Reach s → Tidy s
unfolding new_loop
Reach-Tidy start = record { calling = refl; empty = λ h. refl }
Reach-Tidy (later r st) = Step-Tidy st (Reach-Tidy r)

-- A queue of tasks: those that wait, and those that were called.
pub record Queue : Type 0 where
  pub waiting : List ℕ
  pub called : List ℕ

-- A step of a queue: nothing, a task that comes in at the back, or a call of the one in front.
pub data Serve (q r : Queue) : Type 0 where
  stays : r.waiting ≡ q.waiting → r.called ≡ q.called → Serve q r
  adds : (task : ℕ) → r.waiting ≡ q.waiting ++ task ∷ [] → r.called ≡ q.called → Serve q r
  serves : (task : ℕ) → q.waiting ≡ task ∷ r.waiting → r.called ≡ q.called ++ task ∷ [] → Serve q r

-- The tasks of a loop as a queue.
abbrev pub view : Loop → Queue
view s = record { waiting = s.functors ++ s.pending_functors; called = s.ran }

queue_in_loop-view :
    (task : ℕ) (s : Loop)
    → ((view (queue_in_loop task s)).waiting ≡ (view s).waiting ++ task ∷ [])
      × ((queue_in_loop task s).ran ≡ s.ran)
unfolding queue_in_loop push wakeup
queue_in_loop-view task s = elim (Bool-cases (needs_wakeup true s)) [
  | inl e ↦ rw e (sym (append_assoc s.functors s.pending_functors (task ∷ [])), refl)
  | inr e ↦ rw e (sym (append_assoc s.functors s.pending_functors (task ∷ [])), refl)
]

queue_from_outside-view :
    (task : ℕ) (s : Loop)
    → ((view (queue_from_outside task s)).waiting ≡ (view s).waiting ++ task ∷ [])
      × ((queue_from_outside task s).ran ≡ s.ran)
unfolding queue_from_outside push
queue_from_outside-view task s = elim (Bool-cases (needs_wakeup false s)) [
  | inl e ↦ rw e (sym (append_assoc s.functors s.pending_functors (task ∷ [])), refl)
  | inr e ↦ rw e (sym (append_assoc s.functors s.pending_functors (task ∷ [])), refl)
]

-- Whatever the loop's thread and the others do, and in whatever order, the tasks are a queue: from a state
-- that can be reached each step leaves the queue as it is, or puts one task at its back, or calls the one
-- at its front. So no task is lost, none is called twice, and they are called in the order in which they
-- came in.
pub Step-Serve : {s t : Loop} → Reach s → Step s t → Serve (view s) (view t)
unfolding queue_early quit_in_loop quit_from_outside wakeup handle_wakeup enter begin_poll end_poll
    handle_channel leave swap_functors run_functor end_functors
Step-Serve r (starts p) = stays refl refl
Step-Serve r (goes_on p q) = stays refl refl
Step-Serve r (ends p q) = stays refl refl
Step-Serve r (polls ready p) = stays refl refl
Step-Serve r (handles wakeup_channel rest p q) = stays refl refl
Step-Serve r (handles (other_channel c) rest p q) = stays refl refl
Step-Serve {s = s} r (swaps p q) =
    stays
      (append-nil s.pending_functors
        ∙ ap (λ l. l ++ s.pending_functors) (sym ((Reach-Tidy r).empty (ap is_running p))))
      refl
Step-Serve {s = s} r (runs task rest p q) = serves task (ap (λ l. l ++ s.pending_functors) q) refl
Step-Serve r (finishes p q) = stays refl refl
Step-Serve {s = s} r (queues task p) =
    adds task (queue_in_loop-view task s).0 (queue_in_loop-view task s).1
Step-Serve {s = s} r (queues_early task p) =
    adds task (queue_in_loop-view task s).0 (queue_in_loop-view task s).1
Step-Serve {s = s} r (queues_from_outside task) =
    adds task (queue_from_outside-view task s).0 (queue_from_outside-view task s).1
Step-Serve r (quits p) = stays refl refl
Step-Serve r quits_from_outside = stays refl refl
Step-Serve r (wakes k p) = stays refl refl

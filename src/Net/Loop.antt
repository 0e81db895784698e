-- ===== src/Net/Loop.antt =====
-- The event loop of net/src/eventloop.cpp: its own thread and the others that give it tasks, as a step
-- relation. A task and a channel are known by numbers.
pub mod Order
pub mod Wakeup
use qinyunserver.Base.{
  ℕ, zero, suc, ◌+◌, ◌<◌, ◌≡◌, not, ◌||◌, Bool, true, false, List, [], ◌∷◌, ◌++◌, if◌then◌else◌,
}

-- A channel that poll returns: that of the event descriptor, or another.
pub data Source : Type 0 where
  wakeup_channel : Source
  other_channel : ℕ → Source

-- Where the thread of the loop stands: not in `loop`, at the test of its while, in poll, at the active
-- channels, or at the tasks.
pub data Place : Type 0 where
  outside testing polling handling running : Place

-- The fields of EventLoop; `functors` is the vector of `doPendingFunctors` that is still to run, and
-- `wakeups` the counter of the event descriptor. `owed` counts the other threads between a change and
-- their call of wakeup. `early` says that the loop's own thread has queued a task outside `loop`, and
-- `ran` lists the tasks that were called, in order.
pub record Loop : Type 0 where
  pub place : Place
  pub looping : Bool
  pub quit : Bool
  pub event_handling : Bool
  pub calling_pending_functors : Bool
  pub pending_functors : List ℕ
  pub functors : List ℕ
  pub active_channels : List Source
  pub wakeups : ℕ
  pub owed : ℕ
  pub early : Bool
  pub ran : List ℕ

-- `EventLoop::EventLoop`
unfoldable pub new_loop : Loop
new_loop = record {
  place = outside;
  looping = false;
  quit = false;
  event_handling = false;
  calling_pending_functors = false;
  pending_functors = [];
  functors = [];
  active_channels = [];
  wakeups = 0;
  owed = 0;
  early = false;
  ran = [];
}

-- `wakeup`
unfoldable pub wakeup : Loop → Loop
wakeup s = record s { wakeups = s.wakeups + 1 }

-- `queueInLoop` under the lock, and the test behind it.
unfoldable pub push : ℕ → Loop → Loop
push task s = record s { pending_functors = s.pending_functors ++ task ∷ [] }

unfoldable pub needs_wakeup : Bool → Loop → Bool
needs_wakeup in_loop_thread s = s.calling_pending_functors || not in_loop_thread

-- `queueInLoop` in the loop's own thread, from a callback.
unfoldable pub queue_in_loop : ℕ → Loop → Loop
queue_in_loop task s = if needs_wakeup true s then wakeup (push task s) else push task s

-- The same outside `loop`.
unfoldable pub queue_early : ℕ → Loop → Loop
queue_early task s = record (queue_in_loop task s) { early = true }

-- `queueInLoop` in another thread, up to its call of wakeup.
unfoldable pub queue_from_outside : ℕ → Loop → Loop
queue_from_outside task s =
    if needs_wakeup false s then record (push task s) { owed = s.owed + 1 } else push task s

-- `quit`, likewise.
unfoldable pub quit_in_loop : Loop → Loop
quit_in_loop s = record s { quit = true }

unfoldable pub quit_from_outside : Loop → Loop
quit_from_outside s = record s { quit = true; owed = s.owed + 1 }

-- `handleRead` of the loop: the read empties the counter.
unfoldable pub handle_wakeup : Loop → Loop
handle_wakeup s = record s { wakeups = 0 }

-- The steps of `loop`: its start, the test and the clearing, what poll gives, one channel, and its end.
unfoldable pub enter : Loop → Loop
enter s = record s { place = testing; looping = true; quit = false }

unfoldable pub begin_poll : Loop → Loop
begin_poll s = record s { place = polling; active_channels = [] }

unfoldable pub end_poll : List Source → Loop → Loop
end_poll ready s = record s { place = handling; active_channels = ready; event_handling = true }

unfoldable pub handle_channel : Source → List Source → Loop → Loop
handle_channel wakeup_channel rest s = handle_wakeup (record s { active_channels = rest })
handle_channel (other_channel c) rest s = record s { active_channels = rest }

unfoldable pub leave : Loop → Loop
leave s = record s { place = outside; looping = false }

-- `doPendingFunctors`: the swap under the lock, the call of one task, and its end.
unfoldable pub swap_functors : Loop → Loop
swap_functors s = record s {
  place = running;
  event_handling = false;
  calling_pending_functors = true;
  functors = s.pending_functors;
  pending_functors = [];
  early = false;
}

unfoldable pub run_functor : ℕ → List ℕ → Loop → Loop
run_functor task rest s = record s { functors = rest; ran = s.ran ++ task ∷ [] }

unfoldable pub end_functors : Loop → Loop
end_functors s = record s { place = testing; calling_pending_functors = false }

-- A callback of the loop's own thread is running.
abbrev pub in_callback : Place → Bool
in_callback handling = true
in_callback running = true
in_callback _ = false

-- What may happen next, in the loop's thread or in another. A task or a channel's callback may queue and
-- quit while it runs; poll returns any channels, or none at its timeout.
pub data Step (s : Loop) : Loop → Type 0 where
  starts : s.place ≡ outside → Step s (enter s)
  goes_on : s.place ≡ testing → s.quit ≡ false → Step s (begin_poll s)
  ends : s.place ≡ testing → s.quit ≡ true → Step s (leave s)
  polls : (ready : List Source) → s.place ≡ polling → Step s (end_poll ready s)
  handles :
      (c : Source) (rest : List Source)
      → s.place ≡ handling
      → s.active_channels ≡ c ∷ rest
      → Step s (handle_channel c rest s)
  swaps : s.place ≡ handling → s.active_channels ≡ [] → Step s (swap_functors s)
  runs :
      (task : ℕ) (rest : List ℕ)
      → s.place ≡ running
      → s.functors ≡ task ∷ rest
      → Step s (run_functor task rest s)
  finishes : s.place ≡ running → s.functors ≡ [] → Step s (end_functors s)
  queues : (task : ℕ) → in_callback s.place ≡ true → Step s (queue_in_loop task s)
  queues_early : (task : ℕ) → s.place ≡ outside → Step s (queue_early task s)
  queues_from_outside : (task : ℕ) → Step s (queue_from_outside task s)
  quits : in_callback s.place ≡ true → Step s (quit_in_loop s)
  quits_from_outside : Step s (quit_from_outside s)
  wakes : (k : ℕ) → s.owed ≡ suc k → Step s (wakeup (record s { owed = k }))

pub data Reach : Loop → Type 0 where
  start : Reach new_loop
  later : {s t : Loop} → Reach s → Step s t → Reach t

-- ===== src/Net/Channel.antt =====
-- net/include/channel.h, net/src/channel.cpp and the constants of net/include/enum.h: what a channel
-- watches, and the dispatch of what has happened. An event mask is the record of its bits.
use qinyunserver.Base.{Bool, true, false, not, ◌&&◌, ◌||◌, List, [], ◌∷◌, ◌++◌, if◌then◌else◌, ℕ}

-- The bits EPOLLIN, EPOLLPRI, EPOLLOUT, EPOLLERR, EPOLLHUP and EPOLLRDHUP.
pub record Events : Type 0 where
  pub readable : Bool
  pub urgent : Bool
  pub writable : Bool
  pub error : Bool
  pub hang_up : Bool
  pub peer_closed : Bool

abbrev pub none_event : Events
none_event = record {
  readable = false;
  urgent = false;
  writable = false;
  error = false;
  hang_up = false;
  peer_closed = false;
}

abbrev pub read_event : Events
read_event = record none_event { readable = true; urgent = true }

abbrev pub write_event : Events
write_event = record none_event { writable = true }

-- `a | b`
abbrev pub union : Events → Events → Events
union a b = record {
  readable = a.readable || b.readable;
  urgent = a.urgent || b.urgent;
  writable = a.writable || b.writable;
  error = a.error || b.error;
  hang_up = a.hang_up || b.hang_up;
  peer_closed = a.peer_closed || b.peer_closed;
}

-- `a & ~b`
abbrev pub without : Events → Events → Events
without a b = record {
  readable = a.readable && not b.readable;
  urgent = a.urgent && not b.urgent;
  writable = a.writable && not b.writable;
  error = a.error && not b.error;
  hang_up = a.hang_up && not b.hang_up;
  peer_closed = a.peer_closed && not b.peer_closed;
}

abbrev pub same_bit : Bool → Bool → Bool
same_bit true b = b
same_bit false b = not b

-- `a == b`
abbrev pub same_events : Events → Events → Bool
same_events a b =
    same_bit a.readable b.readable
    && (same_bit a.urgent b.urgent
        && (same_bit a.writable b.writable
            && (same_bit a.error b.error
                && (same_bit a.hang_up b.hang_up && same_bit a.peer_closed b.peer_closed))))

-- The states of a channel in its poller.
pub data Index : Type 0 where
  new added deleted : Index

pub record Channel : Type 0 where
  pub fd : ℕ
  pub events : Events
  pub revents : Events
  pub index : Index
  pub tied : Bool
  pub event_handling : Bool
  pub added_to_loop : Bool

unfoldable pub fresh : ℕ → Channel
fresh fd = record {
  fd = fd;
  events = none_event;
  revents = none_event;
  index = new;
  tied = false;
  event_handling = false;
  added_to_loop = false;
}

-- The changes of the mask, without the `update()` behind each of them.
abbrev pub with_reading : Channel → Channel
with_reading c = record c { events = union c.events read_event }

abbrev pub without_reading : Channel → Channel
without_reading c = record c { events = without c.events read_event }

abbrev pub with_writing : Channel → Channel
with_writing c = record c { events = union c.events write_event }

abbrev pub without_writing : Channel → Channel
without_writing c = record c { events = without c.events write_event }

abbrev pub with_none : Channel → Channel
with_none c = record c { events = none_event }

unfoldable pub is_reading : Channel → Bool
is_reading c = same_events c.events read_event

unfoldable pub is_writing : Channel → Bool
is_writing c = same_events c.events write_event

unfoldable pub is_none_event : Channel → Bool
is_none_event c = same_events c.events none_event

-- The callbacks of a channel.
pub data Callback : Type 0 where
  closed read written failed : Callback

abbrev pub call : Bool → Callback → List Callback
call true k = k ∷ []
call false k = []

-- `handleEventWithGuard`: which of the callbacks it calls, in order, of those that are set.
unfoldable pub handle_event_with_guard : (Callback → Bool) → Channel → List Callback
handle_event_with_guard is_set c =
    call ((r.hang_up && not r.readable) && is_set closed) closed
    ++ (call (((r.readable || r.urgent) || r.peer_closed) && is_set read) read
        ++ (call (r.writable && is_set written) written ++ call (r.error && is_set failed) failed))
  where
    open c use {revents as r}

-- `handleEvent`: nothing happens once the object that the channel is tied to is gone.
unfoldable pub handle_event : (Callback → Bool) → Bool → Channel → List Callback
unfolding handle_event_with_guard
handle_event is_set alive c =
    if c.tied
    then (if alive then handle_event_with_guard is_set c else [])
    else handle_event_with_guard is_set c

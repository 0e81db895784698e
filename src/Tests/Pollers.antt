-- ===== src/Tests/Pollers.antt =====
-- Runs of the poller and of the acceptor of net/src/.
use qinyunserver.Base.{ℕ, ◌+◌, ◌<◌, ◌≡◌, refl, true, Option, none, some, List, [], ◌∷◌, arith}
use qinyunserver.Net.Channel.{read_event, write_event, fresh}
use qinyunserver.Net.Poller.{
  Poller, Request, request, update_channel, remove_channel, update_by, enable_reading,
  enable_writing, disable_all,
}
use qinyunserver.Net.Poller.Agrees.{Agrees}
use qinyunserver.Net.Poller.Legal.{initial, initial-Agrees, requests, requests-Agrees}
use qinyunserver.Net.Poller.Poll.{Wait, entries, EpollPoller, poll, fill_active_channels}
use qinyunserver.Net.Poller.Poll.Agreed.{poll_lem, reports, last_report, happened}
use qinyunserver.Net.Sockets.{emfile, enfile, returned, failed, passes_on, accept}
use qinyunserver.Net.Acceptor.{Acceptor, Effect, gets, closes, handle_read, make_room}
use qinyunserver.Net.Acceptor.Balance.{given, gone, held, handle_read-Balanced}

abbrev own_fd : ℕ → ℕ
own_fd c = c

-- The channels 3 and 4 read, and the second writes too.
abbrev some_requests : List (ℕ × Request)
some_requests =
    (3, enable_reading) ∷ (4, enable_reading) ∷ (4, enable_writing) ∷ (3, disable_all) ∷ []

abbrev after_requests : Option Poller → Poller
after_requests none = initial own_fd
after_requests (some q) = q

abbrev watching : EpollPoller
watching = record { base = after_requests (requests some_requests (initial own_fd)); size = 2 }

-- Both channels have something, and the array of two is full.
abbrev both : Wait
both =
    entries
      (record { ptr = 4; events = write_event } ∷ record { ptr = 3; events = read_event } ∷ [])

poll-grows : (poll both watching []).poller.size ≡ 4
unfolding poll
poll-grows = refl

poll-active : (poll both watching (9 ∷ [])).active ≡ 9 ∷ 4 ∷ 3 ∷ []
unfolding poll fill_active_channels
poll-active = refl

poll_example :
    Agrees (poll both watching []).poller.base
    × ((poll both watching []).active ≡ 4 ∷ 3 ∷ [])
    × ((c : ℕ)
        → (poll both watching []).poller.base.channel c
          ≡ happened (last_report (reports both) c) (watching.base.channel c))
    × (2 < (poll both watching []).poller.size)
unfolding request update_channel remove_channel update_by fresh
poll_example =
    poll_lem both watching []
      (requests-Agrees some_requests (initial own_fd) watching.base (initial-Agrees own_fd) refl)
      (omega arith) (omega arith)

abbrev listening : Acceptor
listening = record { new_conn_callback = true; idle_fd = some 5 }

-- What is left behind a call, or the acceptor as it was.
abbrev behind : Option (Acceptor × List Effect) → Acceptor × List Effect
behind none = (listening, [])
behind (some r) = r

-- The process has no descriptor left: the reserve makes room for the connection, which is closed.
abbrev full : Acceptor × List Effect
full = behind (handle_read (failed emfile) (returned 5) (some 5) listening)

handle_read-emfile : full.1 ≡ closes 5 ∷ gets 5 ∷ closes 5 ∷ gets 5 ∷ []
unfolding handle_read make_room accept
handle_read-emfile = refl

-- Another error that accept does not pass on ends the process.
handle_read-enfile : handle_read (failed enfile) (returned 5) (some 5) listening ≡ none
unfolding handle_read accept
handle_read-enfile = refl

handle_read-Balanced_example :
    (r : Acceptor × List Effect) × (handle_read (failed emfile) (returned 5) (some 5) listening
      ≡ some r)
    × (held 5 (some 5) + given 5 r.1 ≡ gone 5 r.1 + held 5 r.0.idle_fd)
unfolding passes_on
handle_read-Balanced_example =
    handle_read-Balanced 5 (failed emfile) (returned 5) (some 5) listening refl tt

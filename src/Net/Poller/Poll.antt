-- ===== src/Net/Poller/Poll.antt =====
-- `EPollPoller::poll` and `EPollPoller::fillActiveChannels` of net/src/poller.cpp. What epoll_wait
-- returns is an argument; the array `_events` is known by its size.
pub mod Agreed
use qinyunserver.Base.{
  ℕ, ◌*◌, Bool, Option, none, some, List, [], ◌∷◌, ◌++◌, length, ◌==◌, if◌then◌else◌,
}
use qinyunserver.Net.Channel.{Channel, Events}
use qinyunserver.Net.Poller.{Poller, update_at}

-- One entry of the array: the address of a channel and what has happened to it.
pub record Report : Type 0 where
  pub ptr : ℕ
  pub events : Events

-- What epoll_wait returns: an error, by whether it is EINTR, or its entries.
pub data Wait : Type 0 where
  error : Bool → Wait
  entries : List Report → Wait

pub record EpollPoller : Type 0 where
  pub base : Poller
  pub size : ℕ

-- The poller and the list of active channels of the caller.
pub record Polled : Type 0 where
  pub poller : EpollPoller
  pub active : List ℕ

abbrev pub set_revent : ℕ → Events → Poller → Poller
set_revent c e p = record p {
  channel = update_at p.channel c (record (p.channel c) { revents = e });
}

unfoldable pub fill_active_channels : List Report → Poller → List ℕ → Poller × List ℕ
fill_active_channels [] p active = (p, active)
fill_active_channels (r ∷ rs) p active =
    fill_active_channels rs (set_revent r.ptr r.events p) (active ++ (r.ptr ∷ []))

abbrev pub enlarge : ℕ → ℕ → ℕ
enlarge n size = if n == size then size * 2 else size

unfoldable pub poll : Wait → EpollPoller → List ℕ → Polled
unfolding fill_active_channels
poll (error interrupted) p active = record { poller = p; active = active }
poll (entries []) p active = record { poller = p; active = active }
poll (entries (r ∷ rs)) p active =
    (let filled = fill_active_channels (r ∷ rs) p.base active in
      record {
        poller = record { base = filled.0; size = enlarge (length (r ∷ rs)) p.size };
        active = filled.1;
      })

-- ===== src/Net/Poller.antt =====
-- net/src/poller.cpp and net/include/poller.h: the map of channels and the calls of epoll_ctl.
-- A channel is known by a number, its address; `none` is a failed assertion.
pub mod Interest
pub mod Agrees
pub mod Changes
pub mod Legal
pub mod Poll
use qinyunserver.Base.{ℕ, Bool, true, false, Option, none, some, List, [], ◌∷◌, ◌==◌, if◌then◌else◌}
use qinyunserver.Net.Channel.{
  Channel, Events, Index, new, added, deleted, none_event, read_event, write_event, union, without,
  same_events, with_reading, without_reading, with_writing, without_writing, with_none,
}

-- A call of epoll_ctl: the operation, the descriptor and the mask.
pub data Ctl : Type 0 where
  ctl_add ctl_mod ctl_del : ℕ → Events → Ctl

-- The channels by their addresses, the poller's map from descriptors to channels, and the calls of
-- epoll_ctl, the last one first.
pub record Poller : Type 0 where
  pub channel : ℕ → Channel
  pub channels : ℕ → Option ℕ
  pub calls : List Ctl

abbrev pub update_at {ℓ} : {A : Type ℓ} → (ℕ → A) → ℕ → A → ℕ → A
update_at f k v j = if j == k then v else f j

-- `_channels.find(fd) != end() && _channels[fd] == channel`
abbrev pub holds : Option ℕ → ℕ → Bool
holds none c = false
holds (some d) c = d == c

abbrev pub is_free : Option ℕ → Bool
is_free none = true
is_free (some d) = false

unfoldable pub has_channel : ℕ → Poller → Bool
has_channel c p = if is_free (p.channels (p.channel c).fd) then false else true

abbrev pub set_index : ℕ → Index → Poller → Poller
set_index c i p = record p { channel = update_at p.channel c (record (p.channel c) { index = i }) }

-- `update`, with the operation that it is given.
abbrev pub control : (ℕ → Events → Ctl) → ℕ → Poller → Poller
control op c p = record p { calls = op (p.channel c).fd (p.channel c).events ∷ p.calls }

unfoldable pub update_by : Index → ℕ → Poller → Option Poller
update_by new c p =
    if is_free (p.channels (p.channel c).fd)
    then some (
        set_index c added (
          control ctl_add c
            (record p { channels = update_at p.channels (p.channel c).fd (some c) })))
    else none
update_by deleted c p =
    if holds (p.channels (p.channel c).fd) c
    then some (set_index c added (control ctl_add c p))
    else none
update_by added c p =
    if same_events (p.channel c).events none_event
    then some (set_index c deleted (control ctl_del c p))
    else some (control ctl_mod c p)

unfoldable pub update_channel : ℕ → Poller → Option Poller
unfolding update_by
update_channel c p = update_by (p.channel c).index c p

abbrev pub del_if_added : Index → ℕ → Poller → Poller
del_if_added added c p = control ctl_del c p
del_if_added _ c p = p

unfoldable pub remove_channel : ℕ → Poller → Option Poller
remove_channel c p =
    if holds (p.channels (p.channel c).fd) c
    then (let p₁ = del_if_added (p.channel c).index c p in
        some
          (set_index c new (record p₁ { channels = update_at p.channels (p.channel c).fd none })))
    else none

-- The calls of a channel that reach the poller.
pub data Request : Type 0 where
  enable_reading disable_reading enable_writing disable_writing disable_all remove : Request

-- `Channel::update`, after the change of the mask.
abbrev pub update : ℕ → Channel → Poller → Option Poller
update c ch p =
    update_channel c
      (record p { channel = update_at p.channel c (record ch { added_to_loop = true }) })

abbrev pub not_added : ℕ → Poller → Poller
not_added c p = record p {
  channel = update_at p.channel c (record (p.channel c) { added_to_loop = false });
}

abbrev pub after_remove : ℕ → Option Poller → Option Poller
after_remove c none = none
after_remove c (some p) = some (not_added c p)

unfoldable pub request : ℕ → Request → Poller → Option Poller
request c enable_reading p = update c (with_reading (p.channel c)) p
request c disable_reading p = update c (without_reading (p.channel c)) p
request c enable_writing p = update c (with_writing (p.channel c)) p
request c disable_writing p = update c (without_writing (p.channel c)) p
request c disable_all p = update c (with_none (p.channel c)) p
request c remove p = after_remove c (remove_channel c p)

-- ===== src/Net/Poller/Poll/Agreed.antt =====
-- What `EPollPoller::poll` of net/src/poller.cpp leaves of the channels, of the list of the active
-- ones and of the map.
use qinyunserver.Base.{
  ℕ, ◌≤◌, ◌<◌, ◌≡◌, refl, sym, ap, ◌∙◌, Option, none, some, List, [], ◌∷◌, ◌++◌, map, append-nil,
  append_assoc, length, ◌==◌, if◌then◌else◌, arith, Bool-cases, inl, inr,
}
use qinyunserver.Net.Channel.{Channel, Events}
use qinyunserver.Net.Poller.{Poller}
use qinyunserver.Net.Poller.Agrees.{Agrees, expected}
use qinyunserver.Net.Poller.Poll.{
  Report, Wait, error, entries, EpollPoller, set_revent, fill_active_channels, poll,
}

abbrev pub reports : Wait → List Report
reports (error interrupted) = []
reports (entries rs) = rs

-- What the last entry of a channel says.
abbrev later : Option Events → ℕ → ℕ → Events → Option Events
later (some e) r c here = some e
later none r c here = if c == r then some here else none

abbrev pub last_report : List Report → ℕ → Option Events
last_report [] c = none
last_report (r ∷ rs) c = later (last_report rs c) r.ptr c r.events

abbrev pub happened : Option Events → Channel → Channel
happened none ch = ch
happened (some e) ch = record ch { revents = e }

happened-later :
    (o : Option Events) (r c : ℕ) (e : Events) (ch : Channel)
    → happened o (if c == r then record ch { revents = e } else ch) ≡ happened (later o r c e) ch
happened-later none r c e ch = elim (Bool-cases (c == r)) [
  | inl hit ↦ rw hit refl
  | inr miss ↦ rw miss refl
]
happened-later (some f) r c e ch = elim (Bool-cases (c == r)) [
  | inl hit ↦ rw hit refl
  | inr miss ↦ rw miss refl
]

set_revent_at :
    (r : ℕ) (e : Events) (p : Poller) (c : ℕ)
    → (set_revent r e p).channel c
      ≡ (if c == r then record (p.channel c) { revents = e } else p.channel c)
set_revent_at r e p c = elim (Bool-cases (c == r)) [
  | inl hit ↦ rw hit (ap (λ d. record (p.channel d) { revents = e }) (sym (ground arith)))
  | inr miss ↦ rw miss refl
]

fill-channel :
    (rs : List Report) (p : Poller) (active : List ℕ) (c : ℕ)
    → (fill_active_channels rs p active).0.channel c ≡ happened (last_report rs c) (p.channel c)
unfolding fill_active_channels
fill-channel [] p active c = refl
fill-channel (r ∷ rs) p active c =
    fill-channel rs (set_revent r.ptr r.events p) (active ++ (r.ptr ∷ [])) c
    ∙ ap (happened (last_report rs c)) (set_revent_at r.ptr r.events p c)
    ∙ happened-later (last_report rs c) r.ptr c r.events (p.channel c)

fill-active :
    (rs : List Report) (p : Poller) (active : List ℕ)
    → (fill_active_channels rs p active).1 ≡ active ++ map (λ r. r.ptr) rs
unfolding fill_active_channels
fill-active [] p active = sym (append-nil active)
fill-active (r ∷ rs) p active =
    fill-active rs (set_revent r.ptr r.events p) (active ++ (r.ptr ∷ []))
    ∙ append_assoc active (r.ptr ∷ []) (map (λ r. r.ptr) rs)

module _ (r : ℕ) (e : Events) (p : Poller) where
  set_revent-fd : (c : ℕ) → ((set_revent r e p).channel c).fd ≡ (p.channel c).fd
  set_revent-fd c = elim (Bool-cases (c == r)) [
    | inl hit ↦ rw hit (ap (λ d. (p.channel d).fd) (sym (ground arith)))
    | inr miss ↦ rw miss refl
  ]

  set_revent-index : (c : ℕ) → ((set_revent r e p).channel c).index ≡ (p.channel c).index
  set_revent-index c = elim (Bool-cases (c == r)) [
    | inl hit ↦ rw hit (ap (λ d. (p.channel d).index) (sym (ground arith)))
    | inr miss ↦ rw miss refl
  ]

  set_revent-events : (c : ℕ) → ((set_revent r e p).channel c).events ≡ (p.channel c).events
  set_revent-events c = elim (Bool-cases (c == r)) [
    | inl hit ↦ rw hit (ap (λ d. (p.channel d).events) (sym (ground arith)))
    | inr miss ↦ rw miss refl
  ]

  set_revent-expected :
      (o : Option ℕ) → expected p.channel o ≡ expected (set_revent r e p).channel o
  set_revent-expected none = refl
  set_revent-expected (some c) = rw (set_revent-index c, set_revent-events c) refl

  set_revent-Agrees : Agrees p → Agrees (set_revent r e p)
  set_revent-Agrees a = record {
    named = λ fd c h. set_revent-fd c ∙ a.named fd c h;
    known = λ c h. ap p.channels (set_revent-fd c) ∙ a.known c (λ i. h (set_revent-index c ∙ i));
    old = λ fd c h i. a.old fd c h (sym (set_revent-index c) ∙ i);
    kernel = λ fd. a.kernel fd ∙ set_revent-expected (p.channels fd);
    legal = a.legal;
  }

fill-Agrees :
    (rs : List Report) (p : Poller) (active : List ℕ)
    → Agrees p
    → Agrees (fill_active_channels rs p active).0
unfolding fill_active_channels
fill-Agrees [] p active a = a
fill-Agrees (r ∷ rs) p active a =
    fill-Agrees rs (set_revent r.ptr r.events p) (active ++ (r.ptr ∷ []))
      (set_revent-Agrees r.ptr r.events p a)

-- A call of `poll`, in a state where the poller's map and the kernel's interest list agree, and where
-- epoll_wait returns no more entries than an array of at least one has room for: the map and the
-- interest list still agree, the channels of the entries stand behind the active channels so far,
-- in their order, every channel is as it was but for what its last entry says has happened, and
-- the array has room for more than was returned.
pub poll_lem :
    (w : Wait) (p : EpollPoller) (active : List ℕ)
    → Agrees p.base
    → 0 < p.size
    → length (reports w) ≤ p.size
    → Agrees (poll w p active).poller.base
      × ((poll w p active).active ≡ active ++ map (λ r. r.ptr) (reports w))
      × ((c : ℕ)
          → (poll w p active).poller.base.channel c
            ≡ happened (last_report (reports w) c) (p.base.channel c))
      × (length (reports w) < (poll w p active).poller.size)
unfolding poll
poll_lem (error interrupted) p active a h k = (a, sym (append-nil active), λ c. refl, h)
poll_lem (entries []) p active a h k = (a, sym (append-nil active), λ c. refl, h)
poll_lem (entries (r ∷ rs)) p active a h k = (
  fill-Agrees (r ∷ rs) p.base active a,
  fill-active (r ∷ rs) p.base active,
  fill-channel (r ∷ rs) p.base active,
  ground arith,
)

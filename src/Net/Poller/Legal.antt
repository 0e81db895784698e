-- ===== src/Net/Poller/Legal.antt =====
-- The map of net/src/poller.cpp and the interest list of the kernel agree after any requests.
use qinyunserver.Base.{
  ℕ, ◌≡◌, refl, ap, subst, true, false, Option, none, some, List, [], ◌∷◌, ◌==◌, if◌then◌else◌,
  arith, Option-cases, inl, inr,
}
use qinyunserver.Net.Channel.{
  Index, new, added, deleted, fresh, with_reading, without_reading, with_writing, without_writing,
  with_none,
}
use qinyunserver.Net.Poller.{
  Poller, Request, enable_reading, disable_reading, enable_writing, disable_writing, disable_all,
  remove, remove_channel, request, update_at, holds, set_index, del_if_added, not_added,
  after_remove,
}
use mathlib.Core.Option.{some-injective}
use qinyunserver.Net.Poller.Interest.{interest, IsLegal}
use qinyunserver.Net.Poller.Agrees.{expected, Agrees, Changed, Changed-Agrees}
use qinyunserver.Net.Poller.Changes.{after_if, update-Agrees}

module _ (c : ℕ) (p : Poller) (a : Agrees p) where
  del-IsLegal :
      (i : Index)
      → (p.channel c).index ≡ i
      → p.channels (p.channel c).fd ≡ some c
      → IsLegal (del_if_added i c p).calls
  del-IsLegal new e h = a.legal
  del-IsLegal deleted e h = a.legal
  del-IsLegal added e h = (λ k. ground (arith, a.kernel (p.channel c).fd), a.legal)

  del_interest :
      (i : Index) (fd : ℕ)
      → (p.channel c).index ≡ i
      → p.channels (p.channel c).fd ≡ some c
      → interest fd (del_if_added i c p).calls
        ≡ (if fd == (p.channel c).fd then none else interest fd p.calls)
  del_interest added fd e h = refl
  del_interest new fd e h = ground (arith, a.kernel (p.channel c).fd)
  del_interest deleted fd e h = ground (arith, a.kernel (p.channel c).fd)

  del_channel : (i : Index) → (del_if_added i c p).channel ≡ p.channel
  del_channel new = refl
  del_channel added = refl
  del_channel deleted = refl

  del_channels : (i : Index) → (del_if_added i c p).channels ≡ p.channels
  del_channels new = refl
  del_channels added = refl
  del_channels deleted = refl

  removed : Poller
  removed = not_added c (
      set_index c new (record (del_if_added (p.channel c).index c p) {
        channels = update_at p.channels (p.channel c).fd none;
      }))

  removed-Changed :
      holds (p.channels (p.channel c).fd) c ≡ true
      → Changed p removed c (record (p.channel c) { index = new; added_to_loop = false })
  unfolding removed
  removed-Changed t = record {
    same_fd = refl;
    owned = λ d k. ground arith;
    channel_at = λ d. ground (
      arith,
      ap (λ f. f d) (del_channel (p.channel c).index),
      ap (λ f. f c) (del_channel (p.channel c).index),
    );
    channels_at = λ fd. refl;
    interest_at = λ fd. del_interest (p.channel c).index fd refl (ground arith);
    legal = del-IsLegal (p.channel c).index refl (ground arith);
  }

  removed-Agrees : {q : Poller} → after_remove c (remove_channel c p) ≡ some q → Agrees q
  unfolding remove_channel removed
  removed-Agrees h =
      let (t, x) = after_if c _ _ h in subst Agrees x (Changed-Agrees c _ a (removed-Changed t))

-- Every request that fails no assertion keeps the agreement.
pub request-Agrees :
    (c : ℕ) (r : Request) (p : Poller) {q : Poller} → Agrees p → request c r p ≡ some q → Agrees q
unfolding request
request-Agrees c enable_reading p a h = update-Agrees c (with_reading (p.channel c)) p refl refl a h
request-Agrees c disable_reading p a h =
    update-Agrees c (without_reading (p.channel c)) p refl refl a h
request-Agrees c enable_writing p a h = update-Agrees c (with_writing (p.channel c)) p refl refl a h
request-Agrees c disable_writing p a h =
    update-Agrees c (without_writing (p.channel c)) p refl refl a h
request-Agrees c disable_all p a h = update-Agrees c (with_none (p.channel c)) p refl refl a h
request-Agrees c remove p a h = removed-Agrees c p a h

-- Requests of channels, one after the other.
abbrev pub requests : List (ℕ × Request) → Poller → Option Poller
requests [] p = some p
requests ((c, r) ∷ rs) p = elim (request c r p) [ none ↦ none | some q ↦ requests rs q ]

-- A poller without channels; each channel that may come has its descriptor.
abbrev pub initial : (ℕ → ℕ) → Poller
initial fd_of = record { channel = λ c. fresh (fd_of c); channels = λ fd. none; calls = [] }

pub initial-Agrees : (fd_of : ℕ → ℕ) → Agrees (initial fd_of)
unfolding fresh
initial-Agrees fd_of = record {
  named = λ fd c h. cc;
  known = λ c h. absurd (h refl);
  old = λ fd c h. cc;
  kernel = λ fd. refl;
  legal = tt;
}

pub requests-Agrees :
    (rs : List (ℕ × Request)) (p q : Poller) → Agrees p → requests rs p ≡ some q → Agrees q
requests-Agrees [] p q a h = subst Agrees (some-injective _ _ h) a
requests-Agrees ((c, r) ∷ rs) p q a h = elim (Option-cases (request c r p)) [
  | inl e ↦ absurd (none≢some (rw (e, requests) at h))
  | inr (p₁, e) ↦ requests-Agrees rs p₁ q (request-Agrees c r p a e) (rw (e, requests) at h)
]
  where
    none≢some : none ≡ some q → ⊥
    none≢some e = cc

-- After any sequence of requests that meets no failed assertion the kernel watches a descriptor
-- exactly where the map leads to a channel in the state `added`, under that channel's mask, and no
-- call of epoll_ctl has registered a descriptor twice or changed one that was not registered.
pub requests-IsLegal :
    (fd_of : ℕ → ℕ) (rs : List (ℕ × Request)) (q : Poller)
    → requests rs (initial fd_of) ≡ some q
    → ((fd : ℕ) → interest fd q.calls ≡ expected q.channel (q.channels fd)) × IsLegal q.calls
requests-IsLegal fd_of rs q h =
    let a = requests-Agrees rs (initial fd_of) q (initial-Agrees fd_of) h in (a.kernel, a.legal)

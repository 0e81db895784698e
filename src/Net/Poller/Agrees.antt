-- ===== src/Net/Poller/Agrees.antt =====
-- When the map of net/src/poller.cpp and the interest list of the kernel agree, and which changes
-- of the two keep it so.
use qinyunserver.Base.{
  ℕ, ◌≡◌, ◌≢◌, refl, sym, ap, ◌∙◌, Option, none, some, ◌==◌, if◌then◌else◌, arith, Bool-cases, inl,
  inr,
}
use qinyunserver.Net.Channel.{Channel, Events, Index, new, added, deleted}
use qinyunserver.Net.Poller.{Poller}
use qinyunserver.Net.Poller.Interest.{interest, IsLegal}

-- The mask that the kernel should hold for a channel in some state.
abbrev pub watched : Index → Events → Option Events
watched added e = some e
watched _ e = none

-- What the kernel should hold for a descriptor, by the poller's map.
abbrev pub expected : (ℕ → Channel) → Option ℕ → Option Events
expected channel none = none
expected channel (some c) = watched (channel c).index (channel c).events

-- The map leads from a descriptor to a channel of that descriptor that is not new, every channel
-- that is not new is in the map, and the kernel watches what the map says.
pub record Agrees (p : Poller) : Type 0 where
  pub named : (fd c : ℕ) → p.channels fd ≡ some c → (p.channel c).fd ≡ fd
  pub known : (c : ℕ) → (p.channel c).index ≢ new → p.channels (p.channel c).fd ≡ some c
  pub old : (fd c : ℕ) → p.channels fd ≡ some c → (p.channel c).index ≢ new
  pub kernel : (fd : ℕ) → interest fd p.calls ≡ expected p.channel (p.channels fd)
  pub legal : IsLegal p.calls

-- What a request leaves: the channel `c` is `ch`, and the map and the kernel know of it as its
-- state says.
abbrev pub entry : Index → ℕ → Option ℕ
entry new c = none
entry _ c = some c

pub record Changed (p q : Poller) (c : ℕ) (ch : Channel) : Type 0 where
  pub same_fd : ch.fd ≡ (p.channel c).fd
  pub owned : (d : ℕ) → p.channels ch.fd ≡ some d → d ≡ c
  pub channel_at : (d : ℕ) → q.channel d ≡ (if d == c then ch else p.channel d)
  pub channels_at :
      (fd : ℕ) → q.channels fd ≡ (if fd == ch.fd then entry ch.index c else p.channels fd)
  pub interest_at :
      (fd : ℕ)
      → interest fd q.calls
        ≡ (if fd == ch.fd then watched ch.index ch.events else interest fd p.calls)
  pub legal : IsLegal q.calls

entry-some : (i : Index) (c d : ℕ) → entry i c ≡ some d → (d ≡ c) × (i ≢ new)
entry-some new c d h = absurd (none≢some h)
  where
    none≢some : none ≡ some d → ⊥
    none≢some e = cc
entry-some added c d h = (ground arith, λ e. cc)
entry-some deleted c d h = (ground arith, λ e. cc)

entry_of_ne : (i : Index) (c : ℕ) → i ≢ new → entry i c ≡ some c
entry_of_ne new c h = absurd (h refl)
entry_of_ne added c h = refl
entry_of_ne deleted c h = refl

watched-entry :
    (i : Index) (e : Events) (channel : ℕ → Channel) (c : ℕ)
    → (channel c).index ≡ i
    → (channel c).events ≡ e
    → watched i e ≡ expected channel (entry i c)
watched-entry new e channel c h k = refl
watched-entry added e channel c h k = rw (h, k) refl
watched-entry deleted e channel c h k = rw h refl

module _ {p q : Poller} {c : ℕ} {ch : Channel} (a : Agrees p) (g : Changed p q c ch) where
  same_elsewhere :
      (o : Option ℕ) → ((d : ℕ) → o ≡ some d → d ≢ c) → expected q.channel o ≡ expected p.channel o
  same_elsewhere none h = refl
  same_elsewhere (some d) h = ground (arith, g.channel_at d, h d)

  Changed-kernel : (fd : ℕ) → interest fd q.calls ≡ expected q.channel (q.channels fd)
  Changed-kernel fd = elim (Bool-cases (fd == ch.fd)) [
    | inl hit ↦
        g.interest_at fd
        ∙ rw hit (
            watched-entry ch.index ch.events q.channel c (ground (arith, g.channel_at c))
              (ground (arith, g.channel_at c))
            ∙ ap (expected q.channel) (sym (g.channels_at fd ∙ rw hit refl)))
    | inr miss ↦
        g.interest_at fd
        ∙ rw miss (
            a.kernel fd
            ∙ sym (same_elsewhere (p.channels fd) (λ d h. ground (arith, a.named fd d, g.same_fd)))
            ∙ ap (expected q.channel) (sym (g.channels_at fd ∙ rw miss refl)))
  ]

pub Changed-Agrees : {p q : Poller} (c : ℕ) (ch : Channel) → Agrees p → Changed p q c ch → Agrees q
Changed-Agrees {p} {q} c ch a g = record {
  named = λ fd d h. elim (Bool-cases (fd == ch.fd)) [
    | inl hit ↦ ground (arith, g.channels_at fd, entry-some ch.index c d, g.channel_at d)
    | inr miss ↦ ground (arith, g.channels_at fd, a.named fd d, g.channel_at d, g.same_fd)
  ];
  known = λ d h. elim (Bool-cases (d == c)) [
    | inl hit ↦
        ground (arith, g.channel_at d, g.channels_at (q.channel d).fd, entry_of_ne ch.index c)
    | inr miss ↦
        ground (arith, g.channel_at d, a.known d, g.channels_at (q.channel d).fd, g.owned d)
  ];
  old = λ fd d h. elim (Bool-cases (fd == ch.fd)) [
    | inl hit ↦ ground (arith, g.channels_at fd, entry-some ch.index c d, g.channel_at d)
    | inr miss ↦
        ground (arith, g.channels_at fd, a.old fd d, a.named fd d, g.channel_at d, g.same_fd)
  ];
  kernel = Changed-kernel a g;
  legal = g.legal;
}

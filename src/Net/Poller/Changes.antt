-- ===== src/Net/Poller/Changes.antt =====
-- The change of a mask in net/src/poller.cpp, as `updateChannel` and `removeChannel` carry it out, keeps
-- the map and the interest list of the kernel in agreement.
use qinyunserver.Base.{
  ℕ, ◌≡◌, ◌≢◌, refl, sym, ap, subst, ◌∙◌, Bool, true, false, none, some, ◌==◌, if◌then◌else◌, arith,
  inl, inr, ◌⊎◌,
}
use qinyunserver.Net.Channel.{Channel, Index, new, added, deleted, none_event, same_events}
use qinyunserver.Net.Poller.{
  Poller, update_channel, update, update_at, is_free, set_index, control, not_added, after_remove,
  ctl_add, ctl_mod, ctl_del, update_by,
}
use mathlib.Core.Option.{some-injective}
use qinyunserver.Net.Poller.Interest.{interest, IsLegal}
use qinyunserver.Net.Poller.Agrees.{watched, expected, Agrees, Changed, Changed-Agrees}

-- `p₁` is `p` with another channel at `c`, which differs only in what it watches.
record Prepared (p p₁ : Poller) (c : ℕ) (ch : Channel) : Type 0 where
  same_fd : ch.fd ≡ (p.channel c).fd
  same_index : ch.index ≡ (p.channel c).index
  channel_at : (d : ℕ) → p₁.channel d ≡ (if d == c then ch else p.channel d)
  same_channels : p₁.channels ≡ p.channels
  same_calls : p₁.calls ≡ p.calls

if_some {ℓ} :
    {A : Type ℓ} (t : Bool) (x q : A) → (if t then some x else none) ≡ some q → (t ≡ true) × (x ≡ q)
if_some true x q h = (refl, some-injective _ _ h)
if_some false x q h = cc

if_either {ℓ} :
    {A : Type ℓ} (t : Bool) (x y q : A)
    → (if t then some x else some y) ≡ some q
    → (x ≡ q) ⊎ (y ≡ q)
if_either true x y q h = inl (some-injective _ _ h)
if_either false x y q h = inr (some-injective _ _ h)

module _ {p p₁ : Poller} {c : ℕ} {ch : Channel} (a : Agrees p) (r : Prepared p p₁ c ch) where
  at_c : p₁.channel c ≡ ch
  at_c = ground (arith, r.channel_at c)

  still-IsLegal : IsLegal p₁.calls
  still-IsLegal = subst IsLegal (sym r.same_calls) a.legal

  held : interest (p₁.channel c).fd p₁.calls ≡ expected p.channel (p.channels ch.fd)
  held = rw (r.same_calls, at_c) (a.kernel ch.fd)

  index_held :
      p.channels ch.fd ≡ some c
      → interest (p₁.channel c).fd p₁.calls ≡ watched ch.index (p.channel c).events
  index_held h = held ∙ rw (h, r.same_index) refl

  -- A channel that is not new is in the map.
  in_map : ch.index ≢ new → p.channels ch.fd ≡ some c
  in_map h = ground (arith, a.known c, r.same_fd, r.same_index)

  owned_by : p.channels ch.fd ≡ some c → (d : ℕ) → p.channels ch.fd ≡ some d → d ≡ c
  owned_by h d k = ground arith

  -- A new channel enters the map and the kernel.
  added_new :
      ch.index ≡ new
      → is_free (p₁.channels (p₁.channel c).fd) ≡ true
      → Changed p
          (set_index c added (
            control ctl_add c
              (record p₁ { channels = update_at p₁.channels (p₁.channel c).fd (some c) })))
          c
          (record ch { index = added })
  added_new e t = record {
    same_fd = r.same_fd;
    owned = λ d k. ground (arith, at_c, r.same_channels);
    channel_at = λ d. ground (arith, r.channel_at d, at_c);
    channels_at = λ fd. ground (arith, at_c, ap (λ f. f fd) r.same_channels);
    interest_at = λ fd. ground (arith, at_c, ap (interest fd) r.same_calls);
    legal = (held ∙ unused, still-IsLegal);
  }
    where
      unused : expected p.channel (p.channels ch.fd) ≡ none
      unused = ground (arith, at_c, r.same_channels)

  -- One whose registration was taken back enters the kernel again.
  added_deleted :
      ch.index ≡ deleted
      → Changed p (set_index c added (control ctl_add c p₁)) c (record ch { index = added })
  added_deleted e =
      let h : p.channels ch.fd ≡ some c = in_map (ground arith) in
      record {
        same_fd = r.same_fd;
        owned = owned_by h;
        channel_at = λ d. ground (arith, r.channel_at d, at_c);
        channels_at = λ fd. ground (arith, ap (λ f. f fd) r.same_channels);
        interest_at = λ fd. ground (arith, at_c, ap (interest fd) r.same_calls);
        legal = (index_held h ∙ rw e refl, still-IsLegal);
      }

  -- One that is in the kernel is changed there.
  modified : ch.index ≡ added → Changed p (control ctl_mod c p₁) c ch
  modified e =
      let h : p.channels ch.fd ≡ some c = in_map (ground arith) in
      record {
        same_fd = r.same_fd;
        owned = owned_by h;
        channel_at = λ d. ground (arith, r.channel_at d);
        channels_at = λ fd. ground (arith, ap (λ f. f fd) r.same_channels);
        interest_at = λ fd. ground (arith, at_c, ap (interest fd) r.same_calls);
        legal = (λ k. ground (arith, index_held h), still-IsLegal);
      }

  -- One that watches nothing leaves the kernel and stays in the map.
  taken_back :
      ch.index ≡ added
      → Changed p (set_index c deleted (control ctl_del c p₁)) c (record ch { index = deleted })
  taken_back e =
      let h : p.channels ch.fd ≡ some c = in_map (ground arith) in
      record {
        same_fd = r.same_fd;
        owned = owned_by h;
        channel_at = λ d. ground (arith, r.channel_at d, at_c);
        channels_at = λ fd. ground (arith, ap (λ f. f fd) r.same_channels);
        interest_at = λ fd. ground (arith, at_c, ap (interest fd) r.same_calls);
        legal = (λ k. ground (arith, index_held h), still-IsLegal);
      }

  -- Whatever the state of the channel, an update that fails no assertion keeps the agreement.
  update_by-Agrees : (i : Index) {q : Poller} → ch.index ≡ i → update_by i c p₁ ≡ some q → Agrees q
  unfolding update_by
  update_by-Agrees new e h =
      let (t, x) = if_some _ _ _ h in subst Agrees x (Changed-Agrees c _ a (added_new e t))
  update_by-Agrees deleted e h =
      let (t, x) = if_some _ _ _ h in subst Agrees x (Changed-Agrees c _ a (added_deleted e))
  update_by-Agrees added e h =
      elim (if_either (same_events (p₁.channel c).events none_event) _ _ _ h) [
        | inl x ↦ subst Agrees x (Changed-Agrees c _ a (taken_back e))
        | inr x ↦ subst Agrees x (Changed-Agrees c _ a (modified e))
      ]

pub after_if :
    (c : ℕ) (t : Bool) (x : Poller) {q : Poller}
    → after_remove c (if t then some x else none) ≡ some q
    → (t ≡ true) × (not_added c x ≡ q)
after_if c true x h = (refl, some-injective _ _ h)
after_if c false x h = cc

pub update-Agrees :
    (c : ℕ) (ch : Channel) (p : Poller) {q : Poller}
    → ch.fd ≡ (p.channel c).fd
    → ch.index ≡ (p.channel c).index
    → Agrees p
    → update c ch p ≡ some q
    → Agrees q
unfolding update_channel
update-Agrees c ch p same_fd same_index a h = update_by-Agrees a prepared _ (ground arith) h
  where
    ch₁ : Channel
    ch₁ = record ch { added_to_loop = true }

    prepared : Prepared p (record p { channel = update_at p.channel c ch₁ }) c ch₁
    prepared = record {
      same_fd = same_fd;
      same_index = same_index;
      channel_at = λ d. refl;
      same_channels = refl;
      same_calls = refl;
    }

-- ===== src/Net/Server/Events.antt =====
-- What happens at the channel of a connection of net/src/tcpserver.cpp takes it from one phase to the next.
use qinyunserver.Base.{
  ℕ, ◌<◌, ◌≡◌, refl, ap, ◌∙◌, subst, true, false, not, some, List, [], ◌∷◌, ◌++◌, arith, inl, inr,
  All, append-nil,
}
use qinyunserver.Net.Outcome.{Post, gives, Post->>=}
use qinyunserver.Net.Poller.{update_at}
use qinyunserver.Net.Channel.{none_event, is_none_event}
use qinyunserver.Net.Connection.{
  Connection, disconnected, Effect, updates_channel, removes_channel, ties_channel,
  calls_on_connection, calls_on_message, calls_on_close, queues_force_close, logs_error,
}
use qinyunserver.Net.Connection.Ends.{
  IsHarmless, IsReading, Ends, handle_close-Ends, handle_error-Ends, handle_read-Ends,
  handle_write-Ends, send_in_loop-Ends,
}
use qinyunserver.Net.Server.{
  remove_in_loop, System, queue, apply_effect, apply_effects, on_connection, Event, reads, writes,
  closes, errs, sends, handle,
}
use qinyunserver.Net.Server.Phases.{
  tasks_of, status, Phase, unborn, starting, running, closing, leaving, gone, Phase-same,
  tasks_of-append,
}
use qinyunserver.Net.Server.Standing.{IsSound, IsSoundBut-IsSound, same}

handle-Ends : (e : Event) (c : Connection) → IsReading c → Post Ends (handle e c)
unfolding handle
handle-Ends (reads readv on_message) c h = handle_read-Ends readv on_message c h
handle-Ends (writes write) c h = handle_write-Ends write c h
handle-Ends closes c h = handle_close-Ends c h
handle-Ends errs c h = handle_error-Ends c h
handle-Ends (sends write src) c h = send_in_loop-Ends write src c h

-- Harmless effects leave everything as it is.
apply_effects-harmless :
    (id : ℕ) (fxs : List Effect) (s : System)
    → All IsHarmless fxs
    → s.registered id ≡ true
    → s.is_new id ≡ false
    → apply_effects id fxs s ≡ some s
unfolding apply_effects
apply_effects-harmless id [] s h r f = refl
apply_effects-harmless id (updates_channel ∷ fxs) s h r f =
    rw (f, r) (apply_effects-harmless id fxs s h.1 r f)
apply_effects-harmless id (calls_on_message ∷ fxs) s h r f = apply_effects-harmless id fxs s h.1 r f
apply_effects-harmless id (logs_error ∷ fxs) s h r f = apply_effects-harmless id fxs s h.1 r f
apply_effects-harmless id (removes_channel ∷ fxs) s h r f = absurd h.0
apply_effects-harmless id (ties_channel ∷ fxs) s h r f = absurd h.0
apply_effects-harmless id (calls_on_connection state ∷ fxs) s h r f = absurd h.0
apply_effects-harmless id (calls_on_close ∷ fxs) s h r f = absurd h.0
apply_effects-harmless id (queues_force_close ∷ fxs) s h r f = absurd h.0

-- A channel that a poller has and that watches something is that of a connection that is open.
record IsRunning (id : ℕ) (c : Connection) (s : System) : Type 0 where
  old : id < s.server.next_conn_id
  reading : IsReading c
  view : status s id ≡ record { object = some c; registered = true; listed = true; pending = [] }

module _ (id : ℕ) (c : Connection) (s : System) (o : s.object id ≡ some c) where
  watched :
      s.registered id ≡ true
      → is_none_event c.channel ≡ false
      → Phase s.server.next_conn_id id (status s id)
      → IsRunning id c s
  unfolding is_none_event
  watched r w (unborn l o' r' m p) = absurd (cc)
  watched r w (starting c' l st o' r' m p) = absurd (cc)
  watched r w (running c' l st e o' r' m p) =
      let same_object : c' ≡ c = ground (arith, o, o') in
      record {
        old = l;
        reading = subst IsReading same_object (st, e);
        view = ground (arith, o, r', m, p);
      }
  watched r w (closing c' l st e o' r' m p) =
      let same_object : c' ≡ c = ground (arith, o, o') in absurd (ground (arith, same_object, e))
  watched r w (leaving c' l st e o' r' m p) =
      let same_object : c' ≡ c = ground (arith, o, o') in absurd (ground (arith, same_object, e))
  watched r w (gone l o' r' m p) = absurd (cc)

module _ (id : ℕ) (c c' : Connection) (s : System) (v : IsSound s) (h : IsRunning id c s) where
  stays-IsSound : IsReading c' → IsSound (record s { object = update_at s.object id (some c') })
  stays-IsSound k =
      IsSoundBut-IsSound id
        (record {
          valid = v.valid;
          known = v.known;
          phase = λ j miss. Phase-same (rw miss refl) (v.phase j);
        })
        (running c' h.old k.0 k.1 (rw (same id) refl) (ap (λ x. x.registered) h.view)
          (ap (λ x. x.listed) h.view) (ap (λ x. x.pending) h.view))

  closed-IsSound :
      c'.state ≡ disconnected
      → c'.channel.events ≡ none_event
      → IsSound (queue (remove_in_loop id) (record s { object = update_at s.object id (some c') }))
  closed-IsSound st w =
      IsSoundBut-IsSound id
        (record {
          valid = v.valid;
          known = v.known;
          phase = λ j miss.
              Phase-same
                (ground (
                  arith,
                  tasks_of-append j s.tasks (remove_in_loop id ∷ []),
                  append-nil (tasks_of j s.tasks),
                ))
                (v.phase j);
        })
        (closing c' h.old st w (rw (same id) refl) (ap (λ x. x.registered) h.view)
          (ap (λ x. x.listed) h.view)
          (tasks_of-append id s.tasks (remove_in_loop id ∷ [])
            ∙ ap (λ ts. ts ++ tasks_of id (remove_in_loop id ∷ [])) (ap (λ x. x.pending) h.view)
            ∙ rw (same id) refl))

  registered : s.registered id ≡ true
  registered = ap (λ x. x.registered) h.view

  not_new : s.is_new id ≡ false
  not_new = v.known id ∙ ap not registered

  effects-IsSound :
      (fxs : List Effect)
      → Ends (c', fxs)
      → Post IsSound (apply_effects id fxs (record s { object = update_at s.object id (some c') }))
  effects-IsSound fxs (inl (st, w, harmless)) =
      rw
        (apply_effects-harmless id fxs (record s { object = update_at s.object id (some c') })
          harmless registered not_new)
        (gives (stays-IsSound (st, w)))
  effects-IsSound fxs (inr (st, w, e)) = rw e (
      unfold apply_effects in
      unfold apply_effect in rw (not_new, registered) (gives (closed-IsSound st w)))

pub happens-IsSound :
    (id : ℕ) (e : Event) (c : Connection) (s : System)
    → IsSound s
    → s.object id ≡ some c
    → s.registered id ≡ true
    → is_none_event c.channel ≡ false
    → Post IsSound (on_connection id (handle e) s)
happens-IsSound id e c s v o r w =
    let h = watched id c s o r w (v.phase id) in
    rw o (
      Post->>= (handle e c) (handle-Ends e c h.reading)
        λ (c', fxs) ends. effects-IsSound id c c' s v h fxs ends)

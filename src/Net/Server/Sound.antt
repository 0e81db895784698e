-- ===== src/Net/Server/Sound.antt =====
-- Each step of net/src/tcpserver.cpp takes a connection from one phase to the next.
use qinyunserver.Base.{
  ℕ, ◌+◌, ◌≤◌, ◌≡◌, refl, sym, ap, ◌∙◌, subst, true, false, not, none, some, List, [], ◌∷◌, ◌++◌,
  arith, append-nil,
}
use qinyunserver.Net.Poller.{update_at}
use qinyunserver.Net.Channel.{with_reading}
use qinyunserver.Net.Connection.{
  Connection, connected, connect_established, connect_destroyed, create,
}
use qinyunserver.Net.Pool.{TcpServer, remove_connection_in_loop}
use qinyunserver.Net.Pool.Connections.{
  IsValid, on_new_connection-IsValid, remove_connection_in_loop-IsValid,
}
use qinyunserver.Net.Server.{
  Task, established, remove_in_loop, destroyed, System, queue, accept, apply_effects,
  remove_connection, release, run_task,
}
use qinyunserver.Net.Server.Phases.{
  tasks_of, has_id, Status, status, Phase, unborn, starting, running, closing, leaving, gone,
  Phase-same, Phase-next, tasks_of-append, has_id-erase_id,
}
use qinyunserver.Net.Server.Standing.{
  IsSound, IsSoundBut, IsSoundBut-IsSound, same, Due, taken, due, taken-IsSoundBut, known-change,
}

abbrev watching : Connection → Connection
watching c = record c {
  state = connected;
  channel = with_reading (record c.channel { tied = true });
}

run_established :
    (id : ℕ) (s : System)
    → Due (established id) s
    → IsSoundBut id s
    → (s' : System) × (run_task (established id) s ≡ some s') × IsSound s'
unfolding run_task apply_effects connect_established
run_established id s (c, l, st, v) b =
    let o : s.object id ≡ some c = ap (λ x. x.object) v in
    let r : s.registered id ≡ false = ap (λ x. x.registered) v in
    let f : s.is_new id ≡ true = b.known id ∙ ap not r in
    let s' : System = record s {
      object = update_at s.object id (some (watching c));
      registered = update_at s.registered id true;
      is_new = update_at s.is_new id false;
    } in
    (
      s',
      rw (o, st, f, r) refl,
      IsSoundBut-IsSound id
          (record {
            valid = b.valid;
            known = known-change id true s b.known;
            phase = λ j miss. Phase-same (rw miss refl) (b.phase j miss);
          })
          (running (watching c) l refl (ground arith) (rw (same id) refl) (rw (same id) refl)
            (ap (λ x. x.listed) v) (ap (λ x. x.pending) v)),
    )

run_remove_in_loop :
    (id : ℕ) (s : System)
    → Due (remove_in_loop id) s
    → IsSoundBut id s
    → (s' : System) × (run_task (remove_in_loop id) s ≡ some s') × IsSound s'
unfolding run_task remove_connection remove_connection_in_loop
run_remove_in_loop id s (c, l, st, w, v) b =
    let o : s.object id ≡ some c = ap (λ x. x.object) v in
    let s' : System =
      queue (destroyed id) (record s { server = remove_connection_in_loop id s.server }) in
    (
      s',
      rw o refl,
      IsSoundBut-IsSound id
          (record {
            valid = remove_connection_in_loop-IsValid id s.server b.valid;
            known = b.known;
            phase = λ j miss.
                Phase-same
                  (ground (
                    arith,
                    has_id-erase_id id j s.server.connections,
                    tasks_of-append j s.tasks (destroyed id ∷ []),
                    append-nil (tasks_of j s.tasks),
                  ))
                  (b.phase j miss);
          })
          (leaving c l st w o (ap (λ x. x.registered) v)
            (has_id-erase_id id id s.server.connections ∙ rw (same id) refl)
            (tasks_of-append id s.tasks (destroyed id ∷ [])
              ∙ ap (λ ts. ts ++ tasks_of id (destroyed id ∷ [])) (ap (λ x. x.pending) v)
              ∙ rw (same id) refl)),
    )

run_destroyed :
    (id : ℕ) (s : System)
    → Due (destroyed id) s
    → IsSoundBut id s
    → (s' : System) × (run_task (destroyed id) s ≡ some s') × IsSound s'
unfolding run_task apply_effects connect_destroyed release
run_destroyed id s (c, l, st, v) b =
    let o : s.object id ≡ some c = ap (λ x. x.object) v in
    let r : s.registered id ≡ true = ap (λ x. x.registered) v in
    let s' : System = record s {
      object = update_at (update_at s.object id (some c)) id none;
      registered = update_at s.registered id false;
      is_new = update_at s.is_new id true;
    } in
    (
      s',
      rw (o, st, r, same id) refl,
      IsSoundBut-IsSound id
          (record {
            valid = b.valid;
            known = known-change id false s b.known;
            phase = λ j miss. Phase-same (rw miss refl) (b.phase j miss);
          })
          (gone l (rw (same id) refl) (rw (same id) refl) (ap (λ x. x.listed) v)
            (ap (λ x. x.pending) v)),
    )

pub run_task-IsSound :
    (t : Task) (s : System) (before after : List Task)
    → IsSound s
    → s.tasks ≡ before ++ t ∷ after
    → (s' : System) × (run_task t (record s { tasks = before ++ after }) ≡ some s') × IsSound s'
run_task-IsSound (established id) s before after v e =
    run_established id (taken _ s before after e) (due _ s before after e (v.phase id))
      (taken-IsSoundBut _ s before after e v)
run_task-IsSound (remove_in_loop id) s before after v e =
    run_remove_in_loop id (taken _ s before after e) (due _ s before after e (v.phase id))
      (taken-IsSoundBut _ s before after e v)
run_task-IsSound (destroyed id) s before after v e =
    run_destroyed id (taken _ s before after e) (due _ s before after e (v.phase id))
      (taken-IsSoundBut _ s before after e v)

-- Nothing is there yet of a connection to come.
Phase-unborn :
    {next id : ℕ} (v : Status)
    → next ≤ id
    → Phase next id v
    → v ≡ record { object = none; registered = false; listed = false; pending = [] }
Phase-unborn v h (unborn l o r m p) = ground (arith, o, r, m, p)
Phase-unborn v h (starting c l st o r m p) = absurd (omega arith)
Phase-unborn v h (running c l st w o r m p) = absurd (omega arith)
Phase-unborn v h (closing c l st w o r m p) = absurd (omega arith)
Phase-unborn v h (leaving c l st w o r m p) = absurd (omega arith)
Phase-unborn v h (gone l o r m p) = absurd (omega arith)

accepted-IsSound :
    (fd loop : ℕ) (s : System) (server : TcpServer)
    → IsSound s
    → IsValid server
    → server.next_conn_id ≡ s.server.next_conn_id + 1
    → server.connections ≡ record { id = s.server.next_conn_id; loop = loop } ∷ s.server.connections
    → IsSound (
        queue (established s.server.next_conn_id) (record s {
          server = server;
          object =
              update_at s.object s.server.next_conn_id (some (create fd s.server.next_conn_id));
        }))
unfolding create
accepted-IsSound fd loop s server v valid next more =
    let id : ℕ = s.server.next_conn_id in
    let s' : System =
      queue (established id)
        (record s { server = server; object = update_at s.object id (some (create fd id)) }) in
    let none_yet = Phase-unborn (status s id) (omega arith) (v.phase id) in
    IsSoundBut-IsSound id
      (record {
        valid = valid;
        known = v.known;
        phase = λ j miss.
            subst (λ n. Phase n j (status s' j)) (sym next)
              (Phase-next miss (
                Phase-same
                  (ground (
                    arith,
                    ap (has_id j) more,
                    tasks_of-append j s.tasks (established id ∷ []),
                    append-nil (tasks_of j s.tasks),
                  ))
                  (v.phase j)));
      })
      (starting (create fd id) (omega arith) refl (rw (same id) refl)
        (ap (λ x. x.registered) none_yet) (ap (has_id id) more ∙ rw (same id) refl)
        (tasks_of-append id s.tasks (established id ∷ [])
          ∙ ap (λ ts. ts ++ tasks_of id (established id ∷ [])) (ap (λ x. x.pending) none_yet)
          ∙ rw (same id) refl))

pub accept-IsSound :
    (fd : ℕ) (s : System) → IsSound s → (s' : System) × (accept fd s ≡ some s') × IsSound s'
unfolding accept
accept-IsSound fd s v =
    let (server, loop, came, valid, next, more) = on_new_connection-IsValid s.server v.valid in
    (_, rw came refl, accepted-IsSound fd loop s server v valid next more)

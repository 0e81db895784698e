-- ===== src/Net/Server/Lifecycle.antt =====
-- The life of the connections of net/src/tcpserver.cpp, in every order of the loops' threads.
use qinyunserver.Base.{
  ℕ, ◌≡◌, refl, sym, ap, ◌∙◌, subst, ◌==◌, map, append_assoc, ◌⊎◌, true, false, not, Option, none,
  some, List, [], ◌∷◌, ◌++◌, arith, Bool-cases, inl, inr, ltb,
}
use qinyunserver.Net.Outcome.{Post, Post-some}
use qinyunserver.Net.Connection.{Connection, connected, connect_destroyed}
use qinyunserver.Net.Pool.{TcpServer, Member}
use qinyunserver.Net.Pool.Connections.{IsValid}
use qinyunserver.Net.Server.{
  Task, destroyed, System, run_task, accept, destroy_server, apply_effects, release, Step, accepts,
  happens, runs, new_system, Reach, start, later,
}
use qinyunserver.Net.Server.Phases.{
  has_id, status, Status, Phase, unborn, starting, running, closing, leaving, gone,
}
use qinyunserver.Net.Server.Standing.{IsSound, same}
use qinyunserver.Net.Server.Sound.{run_task-IsSound, accept-IsSound}
use qinyunserver.Net.Server.Events.{happens-IsSound}

some-same : {a b : System} {m : Option System} → m ≡ some a → m ≡ some b → a ≡ b
some-same p q = cc

Step-IsSound : {s s' : System} → IsSound s → Step s s' → IsSound s'
Step-IsSound {s} v (accepts fd small e) =
    let (s₁, e₁, v₁) = accept-IsSound fd s v in subst IsSound (some-same e₁ e) v₁
Step-IsSound {s} v (happens id ev c o r w e) =
    Post-some (subst (Post IsSound) e (happens-IsSound id ev c s v o r w))
Step-IsSound {s} v (runs t before after waits e) =
    let (s₁, e₁, v₁) = run_task-IsSound t s before after v waits in
    subst IsSound (some-same e₁ e) v₁

new_system-IsSound :
    (server : TcpServer) → IsValid server → server.connections ≡ [] → IsSound (new_system server)
new_system-IsSound server v empty = record {
  valid = v;
  known = λ id. refl;
  phase = λ id. elim (Bool-cases (ltb id server.next_conn_id)) [
    | inl old ↦ gone (ground arith) refl refl (rw empty refl) refl
    | inr new ↦ unborn (ground arith) refl refl (rw empty refl) refl
  ];
}

Reach-IsSound :
    {server : TcpServer} {s : System}
    → IsValid server
    → server.connections ≡ []
    → Reach server s
    → IsSound s
Reach-IsSound {server} v empty start = new_system-IsSound server v empty
Reach-IsSound v empty (later r step) = Step-IsSound (Reach-IsSound v empty r) step

-- No task fails an assertion on the state of its connection, nor one of the poller on a channel, which its
-- map has exactly where the index of the channel is not KNew, and no connection or channel is destroyed
-- before its end, in whatever order the threads of the loops take turns: in a state that a server without
-- connections reaches, with a pool that can give loops, each task that waits runs to its end, and the
-- acceptor can give one more connection. The connections are closed by `handelClose` and not by
-- `forceClose`, nothing is sent on one that is closed, fewer than 2 ^ 31 of them come, and the server lives
-- on.
pub Reach-runs :
    {server : TcpServer} {s : System} (fd : ℕ) (t : Task) (before after : List Task)
    → IsValid server
    → server.connections ≡ []
    → Reach server s
    → s.tasks ≡ before ++ t ∷ after
    → ((s' : System) × (run_task t (record s { tasks = before ++ after }) ≡ some s'))
      × ((s' : System) × (accept fd s ≡ some s'))
Reach-runs {s} fd t before after v empty r e =
    let sound = Reach-IsSound v empty r in
    let (s₁, ran, v₁) = run_task-IsSound t s before after sound e in
    let (s₂, came, v₂) = accept-IsSound fd s sound in ((s₁, ran), (s₂, came))

-- What is left of a connection: nothing at all, or an open connection that is in the map and in the
-- poller of its loop.
abbrev pub IsSettled : System → ℕ → Type 0
IsSettled s id =
    ((s.object id ≡ none) × (s.registered id ≡ false) × (has_id id s.server.connections ≡ false))
    ⊎ ((c : Connection) × (s.object id ≡ some c)
        × (c.state ≡ connected)
        × (c.channel.events.readable ≡ true)
        × (s.registered id ≡ true)
        × (has_id id s.server.connections ≡ true))

settled : {next id : ℕ} (s : System) → s.tasks ≡ [] → Phase next id (status s id) → IsSettled s id
settled s e (unborn l o r m p) = inl (o, r, m)
settled s e (starting c l st o r m p) = absurd (ground (arith, p, e))
settled s e (running c l st w o r m p) = inr (c, o, st, w, r, m)
settled s e (closing c l st w o r m p) = absurd (ground (arith, p, e))
settled s e (leaving c l st w o r m p) = absurd (ground (arith, p, e))
settled s e (gone l o r m p) = inl (o, r, m)

-- No connection leaks: in a state that a server without connections reaches and in which no task
-- waits, each connection is either open, in the map of the server and in the poller of its loop, or its
-- object is destroyed and neither the map nor a poller has it.
pub Reach-IsSettled :
    {server : TcpServer} {s : System}
    → IsValid server
    → server.connections ≡ []
    → Reach server s
    → s.tasks ≡ []
    → (id : ℕ) → IsSettled s id
Reach-IsSettled {s} v empty r e id = settled s e ((Reach-IsSound v empty r).phase id)

destroyed-map :
    (id : ℕ) (ms : List Member)
    → has_id id ms ≡ true
    → (before after : List Task) × (map (λ m. destroyed m.id) ms ≡ before ++ destroyed id ∷ after)
destroyed-map id [] h = absurd (cc)
destroyed-map id (m ∷ ms) h = elim (Bool-cases (m.id == id)) [
  | inl hit ↦ (
    [],
    map (λ k. destroyed k.id) ms,
    ap (λ i. destroyed i ∷ map (λ k. destroyed k.id) ms) (ground arith),
  )
  | inr miss ↦
      let (before, after, e) = destroyed-map id ms (ground arith) in
      (destroyed m.id ∷ before, after, ap (λ ts. destroyed m.id ∷ ts) e)
]

run_task-connected :
    (id : ℕ) (c : Connection) (s : System)
    → s.object id ≡ some c
    → s.registered id ≡ true
    → s.is_new id ≡ false
    → c.state ≡ connected
    → run_task (destroyed id) s ≡ none
unfolding run_task apply_effects connect_destroyed release
run_task-connected id c s o r f st = rw (o, st, f, r, r, same id) refl

listed_open :
    {next id : ℕ} (c : Connection) (v : Status)
    → v.object ≡ some c
    → c.state ≡ connected
    → Phase next id v
    → (v.registered ≡ true) × (v.listed ≡ true)
listed_open c v o st (unborn l o' r m p) = absurd (cc)
listed_open c v o st (starting c' l st' o' r m p) = absurd (ground (arith, o, o', st, st'))
listed_open c v o st (running c' l st' w o' r m p) = (r, m)
listed_open c v o st (closing c' l st' w o' r m p) = absurd (ground (arith, o, o', st, st'))
listed_open c v o st (leaving c' l st' w o' r m p) = absurd (ground (arith, o, o', st, st'))
listed_open c v o st (gone l o' r m p) = absurd (cc)

-- The destructor of the server ends the process where a client is connected: in a state that a server
-- without connections reaches it queues a task that destroys each open connection, and that task
-- fails an assertion.
pub destroy_server-fails :
    {server : TcpServer} {s : System} (id : ℕ) (c : Connection)
    → IsValid server
    → server.connections ≡ []
    → Reach server s
    → s.object id ≡ some c
    → c.state ≡ connected
    → (before after : List Task) × ((destroy_server s).tasks ≡ before ++ destroyed id ∷ after)
      × (run_task (destroyed id) (record (destroy_server s) { tasks = before ++ after }) ≡ none)
unfolding destroy_server
destroy_server-fails {s} id c v empty r o st =
    let sound = Reach-IsSound v empty r in
    let (reg, listed) = listed_open c (status s id) o st (sound.phase id) in
    let not_new : s.is_new id ≡ false = sound.known id ∙ ap not reg in
    let (before, after, e) = destroyed-map id s.server.connections listed in
    (
      s.tasks ++ before,
      after,
      ap (λ ts. s.tasks ++ ts) e ∙ sym (append_assoc s.tasks before (destroyed id ∷ after)),
      run_task-connected id c _ o reg not_new st,
    )

-- ===== src/Net/Server/Standing.antt =====
-- Where all the connections of net/src/tcpserver.cpp stand, and a task that is taken out of those that
-- wait.
use qinyunserver.Base.{
  ℕ, ◌<◌, ◌≡◌, refl, sym, ap, ◌∙◌, subst, Bool, true, false, not, some, List, [], ◌∷◌, ◌++◌, ◌==◌,
  arith, Bool-cases, inl, inr, eq→==,
}
use qinyunserver.Net.Poller.{update_at}
use qinyunserver.Net.Channel.{none_event}
use qinyunserver.Net.Connection.{Connection, connecting, disconnected}
use qinyunserver.Net.Pool.Connections.{IsValid}
use qinyunserver.Net.Server.{Task, established, remove_in_loop, destroyed, System}
use qinyunserver.Net.Server.Phases.{
  id_of, tasks_of, status, Phase, unborn, starting, running, closing, leaving, gone, Phase-same,
  tasks_of-append, tasks_of-taken, tasks_of-other,
}

-- The server's map is valid, and each connection stands in some phase.
pub record IsSound (s : System) : Type 0 where
  pub valid : IsValid s.server
  pub known : (id : ℕ) → s.is_new id ≡ not (s.registered id)
  pub phase : (id : ℕ) → Phase s.server.next_conn_id id (status s id)

-- The same but for one connection.
pub record IsSoundBut (id : ℕ) (s : System) : Type 0 where
  pub valid : IsValid s.server
  pub known : (j : ℕ) → s.is_new j ≡ not (s.registered j)
  pub phase : (j : ℕ) → (j == id) ≡ false → Phase s.server.next_conn_id j (status s j)

pub IsSoundBut-IsSound :
    {s : System} (id : ℕ)
    → IsSoundBut id s
    → Phase s.server.next_conn_id id (status s id)
    → IsSound s
IsSoundBut-IsSound {s} id v p = record {
  valid = v.valid;
  known = v.known;
  phase = λ j. elim (Bool-cases (j == id)) [
    | inl hit ↦ subst (λ k. Phase s.server.next_conn_id k (status s k)) (ground arith) p
    | inr miss ↦ v.phase j miss
  ];
}

pub same : (id : ℕ) → (id == id) ≡ true
same id = eq→== id id refl

-- A channel is put into a poller or taken out of it, and its index changes with that.
pub known-change :
    (id : ℕ) (b : Bool) (s : System)
    → ((j : ℕ) → s.is_new j ≡ not (s.registered j))
    → (j : ℕ) → update_at s.is_new id (not b) j ≡ not (update_at s.registered id b j)
known-change id b s h j = elim (Bool-cases (j == id)) [
  | inl hit ↦ rw hit refl
  | inr miss ↦ rw miss (h j)
]

-- What a task finds when it is run.
abbrev pub Due : Task → System → Type 0
Due (established id) s =
    (c : Connection) × (id < s.server.next_conn_id)
    × (c.state ≡ connecting)
    × (status s id ≡ record { object = some c; registered = false; listed = true; pending = [] })
Due (remove_in_loop id) s =
    (c : Connection) × (id < s.server.next_conn_id)
    × (c.state ≡ disconnected)
    × (c.channel.events ≡ none_event)
    × (status s id ≡ record { object = some c; registered = true; listed = true; pending = [] })
Due (destroyed id) s =
    (c : Connection) × (id < s.server.next_conn_id)
    × (c.state ≡ disconnected)
    × (status s id ≡ record { object = some c; registered = true; listed = false; pending = [] })

module _ (t : Task) (s : System) (before after : List Task)
    (e : s.tasks ≡ before ++ t ∷ after) where
  abbrev pub taken : System
  taken = record s { tasks = before ++ after }

  not_idle : tasks_of (id_of t) s.tasks ≡ [] → ⊥
  not_idle h = ground (
    arith,
    ap (tasks_of (id_of t)) e,
    tasks_of-append (id_of t) before (t ∷ after),
    same (id_of t),
    ends (tasks_of (id_of t) before) (tasks_of (id_of t) after),
  )
    where
      ends : (xs ys : List Task) → xs ++ t ∷ ys ≡ [] → ⊥
      ends [] ys k = cc
      ends (x ∷ xs) ys k = cc

  sole_task :
      (u : Task)
      → tasks_of (id_of t) s.tasks ≡ u ∷ []
      → (t ≡ u) × (tasks_of (id_of t) (before ++ after) ≡ [])
  sole_task u p =
      tasks_of-taken (id_of t) t u before after refl (sym (ap (tasks_of (id_of t)) e) ∙ p)

  pub due : Phase s.server.next_conn_id (id_of t) (status s (id_of t)) → Due t taken
  due (unborn l o r m p) = absurd (not_idle p)
  due (starting c l st o r m p) =
      let (u, rest) = sole_task (established (id_of t)) p in
      subst (λ x. Due x taken) (sym u) (c, l, st, ground (arith, o, r, m, rest))
  due (running c l st w o r m p) = absurd (not_idle p)
  due (closing c l st w o r m p) =
      let (u, rest) = sole_task (remove_in_loop (id_of t)) p in
      subst (λ x. Due x taken) (sym u) (c, l, st, w, ground (arith, o, r, m, rest))
  due (leaving c l st w o r m p) =
      let (u, rest) = sole_task (destroyed (id_of t)) p in
      subst (λ x. Due x taken) (sym u) (c, l, st, ground (arith, o, r, m, rest))
  due (gone l o r m p) = absurd (not_idle p)

  pub taken-IsSoundBut : IsSound s → IsSoundBut (id_of t) taken
  taken-IsSoundBut v = record {
    valid = v.valid;
    known = v.known;
    phase = λ j miss.
        Phase-same (ground (arith, ap (tasks_of j) e, tasks_of-other j t before after)) (v.phase j);
  }

-- ===== src/Net/Server/Phases.antt =====
-- Where a connection of net/src/tcpserver.cpp stands between its acceptance and its end.
use qinyunserver.Base.{
  ℕ, ◌+◌, ◌≤◌, ◌<◌, ◌≡◌, refl, sym, ◌∙◌, subst, Bool, true, false, ◌||◌, Option, none, some, List,
  [], ◌∷◌, ◌++◌, ◌==◌, if◌then◌else◌, arith,
}
use qinyunserver.Net.Channel.{none_event}
use qinyunserver.Net.Connection.{Connection, connecting, connected, disconnected}
use qinyunserver.Net.Pool.{Member, erase_id}
use qinyunserver.Net.Server.{Task, established, remove_in_loop, destroyed, System}

abbrev pub id_of : Task → ℕ
id_of (established id) = id
id_of (remove_in_loop id) = id
id_of (destroyed id) = id

abbrev pub tasks_of : ℕ → List Task → List Task
tasks_of id [] = []
tasks_of id (t ∷ ts) = let rest = tasks_of id ts in if id_of t == id then t ∷ rest else rest

abbrev pub has_id : ℕ → List Member → Bool
has_id id [] = false
has_id id (m ∷ ms) = m.id == id || has_id id ms

-- What the program holds of one connection.
pub record Status : Type 0 where
  pub object : Option Connection
  pub registered : Bool
  pub listed : Bool
  pub pending : List Task

abbrev pub status : System → ℕ → Status
status s id = record {
  object = s.object id;
  registered = s.registered id;
  listed = has_id id s.server.connections;
  pending = tasks_of id s.tasks;
}

-- Not yet accepted; accepted, with the task that establishes it; open; closed, with the task that takes
-- it out of the map; out of the map, with the task that destroys it; and destroyed.
pub data Phase (next id : ℕ) (v : Status) : Type 0 where
  unborn :
      next ≤ id
      → v.object ≡ none
      → v.registered ≡ false
      → v.listed ≡ false
      → v.pending ≡ []
      → Phase next id v
  starting :
      (c : Connection)
      → id < next
      → c.state ≡ connecting
      → v.object ≡ some c
      → v.registered ≡ false
      → v.listed ≡ true
      → v.pending ≡ established id ∷ []
      → Phase next id v
  running :
      (c : Connection)
      → id < next
      → c.state ≡ connected
      → c.channel.events.readable ≡ true
      → v.object ≡ some c
      → v.registered ≡ true
      → v.listed ≡ true
      → v.pending ≡ []
      → Phase next id v
  closing :
      (c : Connection)
      → id < next
      → c.state ≡ disconnected
      → c.channel.events ≡ none_event
      → v.object ≡ some c
      → v.registered ≡ true
      → v.listed ≡ true
      → v.pending ≡ remove_in_loop id ∷ []
      → Phase next id v
  leaving :
      (c : Connection)
      → id < next
      → c.state ≡ disconnected
      → c.channel.events ≡ none_event
      → v.object ≡ some c
      → v.registered ≡ true
      → v.listed ≡ false
      → v.pending ≡ destroyed id ∷ []
      → Phase next id v
  gone :
      id < next
      → v.object ≡ none
      → v.registered ≡ false
      → v.listed ≡ false
      → v.pending ≡ []
      → Phase next id v

-- A step that concerns another connection.
pub Phase-same : {next id : ℕ} {v v' : Status} → v' ≡ v → Phase next id v → Phase next id v'
Phase-same {next} {id} e p = subst (Phase next id) (sym e) p

-- The id that is given next goes up.
pub Phase-next :
    {next id : ℕ} {v : Status} → (id == next) ≡ false → Phase next id v → Phase (next + 1) id v
Phase-next h (unborn l o r m p) = unborn (ground arith) o r m p
Phase-next h (starting c l s o r m p) = starting c (omega arith) s o r m p
Phase-next h (running c l s w o r m p) = running c (omega arith) s w o r m p
Phase-next h (closing c l s w o r m p) = closing c (omega arith) s w o r m p
Phase-next h (leaving c l s w o r m p) = leaving c (omega arith) s w o r m p
Phase-next h (gone l o r m p) = gone (omega arith) o r m p

pub tasks_of-append :
    (id : ℕ) (ts us : List Task) → tasks_of id (ts ++ us) ≡ tasks_of id ts ++ tasks_of id us
tasks_of-append id [] us = refl
tasks_of-append id (t ∷ ts) us = ground (arith, tasks_of-append id ts us)

pub has_id-erase_id :
    (id j : ℕ) (ms : List Member)
    → has_id j (erase_id id ms) ≡ (if j == id then false else has_id j ms)
has_id-erase_id id j [] = ground arith
has_id-erase_id id j (m ∷ ms) = ground (arith, has_id-erase_id id j ms)

-- The only task of a connection is taken.
sole : (ts us : List Task) (t u : Task) → ts ++ t ∷ us ≡ u ∷ [] → (t ≡ u) × (ts ++ us ≡ [])
sole [] us t u h = (cc, cc)
sole (x ∷ []) us t u h = absurd (cc)
sole (x ∷ y ∷ ts) us t u h = absurd (cc)

pub tasks_of-taken :
    (id : ℕ) (t u : Task) (before after : List Task)
    → id_of t ≡ id
    → tasks_of id (before ++ t ∷ after) ≡ u ∷ []
    → (t ≡ u) × (tasks_of id (before ++ after) ≡ [])
tasks_of-taken id t u before after mine h =
    let (e, f) =
      sole (tasks_of id before) (tasks_of id after) t u
        (ground (arith, tasks_of-append id before (t ∷ after))) in
    (e, tasks_of-append id before after ∙ f)

pub tasks_of-other :
    (id : ℕ) (t : Task) (before after : List Task)
    → (id_of t == id) ≡ false
    → tasks_of id (before ++ t ∷ after) ≡ tasks_of id (before ++ after)
tasks_of-other id t before after other =
    ground (arith, tasks_of-append id before (t ∷ after), tasks_of-append id before after)

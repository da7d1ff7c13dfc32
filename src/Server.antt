-- ===== src/Server.antt =====
-- src/EventLoopPool.cc, and src/TcpServer.cc with include/TcpServer.h: which loop a new connection
-- goes to, and the table of connections. Loops are numbers. A connection is what the table needs
-- of it; the jobs that the server hands to the connections' loops are listed in order, and the
-- removals that other threads have queued in the server's own loop are tasks. What `string_printf`
-- makes of a number is a parameter.
pub mod Pool
pub mod Names
pub mod Table
pub mod Tests
use annety.Prelude.{
  ℕ, zero, suc, ◌+◌, ◌%◌, Bool, true, false, ◌&&◌, List, [], ◌∷◌, ◌++◌, ◌==◌, leb, if◌then◌else◌,
  length, get_or, map,
}

pub record EventLoopPool : Type 0 where
  pub owner_loop : ℕ
  pub loops : List ℕ
  pub next : ℕ

-- The loop, and the pool that answers the next call.
pub get_next_loop : EventLoopPool → ℕ × EventLoopPool
get_next_loop p = if length p.loops == 0 then (p.owner_loop, p) else (
  get_or p.loops p.next p.owner_loop,
  record p { next = if leb (length p.loops) (suc p.next) then 0 else suc p.next },
)

pub get_loop_with_hashcode : ℕ → EventLoopPool → ℕ
get_loop_with_hashcode hashcode p =
    if length p.loops == 0
    then p.owner_loop
    else get_or p.loops (hashcode % length p.loops) p.owner_loop

pub get_all_loops : EventLoopPool → List ℕ
get_all_loops p = if length p.loops == 0 then p.owner_loop ∷ [] else p.loops

-- `id` is the number in the name.
pub record Connection : Type 0 where
  pub id : ℕ
  pub name : List ℕ
  pub owner_loop : ℕ

-- `connect_established` and `connect_destroyed`.
pub data Job : Type 0 where
  established destroyed : Connection → Job

pub record TcpServer : Type 0 where
  pub workers : EventLoopPool
  pub next_conn_id : ℕ
  pub connections : List (List ℕ × Connection)
  pub tasks : List Connection
  pub jobs : List Job

abbrev pub same_name : List ℕ → List ℕ → Bool
same_name [] [] = true
same_name [] (y ∷ ys) = false
same_name (x ∷ xs) [] = false
same_name (x ∷ xs) (y ∷ ys) = (x == y) && same_name xs ys

-- `connections_[name] = conn` and `connections_.erase(name)`; the order of the map is left open.
pub put : List ℕ → Connection → List (List ℕ × Connection) → List (List ℕ × Connection)
put name conn [] = (name, conn) ∷ []
put name conn (e ∷ es) =
    let rest = put name conn es in if same_name name e.0 then (name, conn) ∷ es else e ∷ rest

pub erase : List ℕ → List (List ℕ × Connection) → List (List ℕ × Connection)
erase name [] = []
erase name (e ∷ es) = let rest = erase name es in if same_name name e.0 then rest else e ∷ rest

-- A step of the server: a peer is accepted, a connection finishes in the server's own thread or
-- another one's, the own loop runs its next task.
pub data Step : Type 0 where
  accepts : Step
  finishes : Bool → Connection → Step
  runs_task : Step

pub make : EventLoopPool → TcpServer
make workers = record {
  workers = workers;
  next_conn_id = 1;
  connections = [];
  tasks = [];
  jobs = [];
}

pub remove_connection_in_loop : Connection → TcpServer → TcpServer
unfolding erase
remove_connection_in_loop conn s = record s {
  connections = erase conn.name s.connections;
  jobs = s.jobs ++ (destroyed conn ∷ []);
}

pub remove_connection : Bool → Connection → TcpServer → TcpServer
unfolding remove_connection_in_loop
remove_connection is_in_own_loop conn s =
    if is_in_own_loop
    then remove_connection_in_loop conn s
    else record s { tasks = s.tasks ++ (conn ∷ []) }

abbrev pub destroy_all : List (List ℕ × Connection) → List Job
destroy_all [] = []
destroy_all (e ∷ es) = destroyed e.1 ∷ destroy_all es

-- `~TcpServer`.
pub close : TcpServer → TcpServer
close s = record s { jobs = s.jobs ++ destroy_all s.connections }

pub next_task : List Connection → TcpServer → TcpServer
unfolding remove_connection_in_loop
next_task [] s = s
next_task (c ∷ cs) s = remove_connection_in_loop c (record s { tasks = cs })

module _ (name_ ip_port : List ℕ) (print : ℕ → List ℕ) where
  -- `name_ + string_printf("#%s#%d", ...)`.
  pub conn_name : ℕ → List ℕ
  conn_name id = name_ ++ (35 ∷ (ip_port ++ (35 ∷ print id)))

  pub new_connection : TcpServer → TcpServer
  unfolding get_next_loop conn_name put
  new_connection s =
      let (worker, workers) = get_next_loop s.workers in
      let name = conn_name s.next_conn_id in
      let conn : Connection = record { id = s.next_conn_id; name = name; owner_loop = worker } in
      record s {
        workers = workers;
        next_conn_id = suc s.next_conn_id;
        connections = put name conn s.connections;
        jobs = s.jobs ++ (established conn ∷ []);
      }

  pub step : TcpServer → Step → TcpServer
  unfolding new_connection remove_connection next_task
  step s accepts = new_connection s
  step s (finishes own conn) = remove_connection own conn s
  step s runs_task = next_task s.tasks s

  pub steps : TcpServer → List Step → TcpServer
  unfolding step
  steps s [] = s
  steps s (x ∷ xs) = steps (step s x) xs

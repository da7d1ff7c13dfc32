-- ===== src/Server/Table.antt =====
-- The table of connections in src/TcpServer.cc against a list of numbers.
use annety.Prelude.{
  ℕ, suc, ◌<◌, ◌≡◌, refl, sym, ap, ◌∙◌, subst, true, false, List, [], ◌∷◌, ◌++◌, ◌==◌, All,
  if◌then◌else◌, arith, Bool-cases, inl, inr,
}
use annety.Server.{
  EventLoopPool, Connection, TcpServer, Step, accepts, finishes, runs_task, same_name, put, erase,
  make, conn_name, new_connection, remove_connection, remove_connection_in_loop, next_task, step,
  steps, get_next_loop,
}
use annety.Server.Names.{same_conn_name}

-- The connections that a server has and those whose removal is a task, by their numbers.
pub record Book : Type 0 where
  pub next : ℕ
  pub live : List ℕ
  pub leaving : List ℕ

abbrev pub without : ℕ → List ℕ → List ℕ
without i [] = []
without i (j ∷ js) = let rest = without i js in if i == j then rest else j ∷ rest

abbrev pub leave : List ℕ → Book → Book
leave [] b = b
leave (i ∷ is) b = record b { live = without i b.live; leaving = is }

abbrev pub book_step : Book → Step → Book
book_step b accepts = record b { next = suc b.next; live = b.live ++ (b.next ∷ []) }
book_step b (finishes true conn) = record b { live = without conn.id b.live }
book_step b (finishes false conn) = record b { leaving = b.leaving ++ (conn.id ∷ []) }
book_step b runs_task = leave b.leaving b

abbrev pub book_steps : Book → List Step → Book
book_steps b [] = b
book_steps b (x ∷ xs) = book_steps (book_step b x) xs

abbrev pub ids : List (List ℕ × Connection) → List ℕ
ids [] = []
ids (e ∷ es) = e.1.id ∷ ids es

abbrev pub task_ids : List Connection → List ℕ
task_ids [] = []
task_ids (c ∷ cs) = c.id ∷ task_ids cs

abbrev pub book : TcpServer → Book
book s = record { next = s.next_conn_id; live = ids s.connections; leaving = task_ids s.tasks }

task_ids-append :
    (cs : List Connection) (c : Connection) → task_ids (cs ++ (c ∷ [])) ≡ task_ids cs ++ (c.id ∷ [])
task_ids-append [] c = refl
task_ids-append (d ∷ cs) c = ap (λ l. d.id ∷ l) (task_ids-append cs c)

module _ (name_ ip_port : List ℕ) (print : ℕ → List ℕ)
    (printed : (m n : ℕ) → print m ≡ print n → m ≡ n) where
  -- A connection that the server has named.
  abbrev pub IsNamed : Connection → Type 0
  IsNamed c = c.name ≡ conn_name name_ ip_port print c.id

  abbrev IsEntry : ℕ → List ℕ × Connection → Type 0
  IsEntry n e = (e.0 ≡ conn_name name_ ip_port print e.1.id) × (e.1.id < n)

  record IsHeld (s : TcpServer) : Type 0 where
    entries : All (IsEntry s.next_conn_id) s.connections
    named : All IsNamed s.tasks

  -- Only the server's own connections finish.
  abbrev pub IsOurs : Step → Type 0
  IsOurs accepts = Unit {0}
  IsOurs (finishes own conn) = IsNamed conn
  IsOurs runs_task = Unit {0}

  entry_same :
      (i n : ℕ) (e : List ℕ × Connection)
      → IsEntry n e
      → same_name (conn_name name_ ip_port print i) e.0 ≡ (i == e.1.id)
  entry_same i n e h =
      ap (same_name (conn_name name_ ip_port print i)) h.0
      ∙ same_conn_name name_ ip_port print printed i e.1.id

  put_new :
      (n : ℕ) (c : Connection) (es : List (List ℕ × Connection))
      → c.id ≡ n
      → All (IsEntry n) es
      → (ids (put (conn_name name_ ip_port print n) c es) ≡ ids es ++ (n ∷ []))
        × All (IsEntry (suc n)) (put (conn_name name_ ip_port print n) c es)
  unfolding put
  put_new n c [] e h =
      (ap (λ i. i ∷ []) e, ((ap (conn_name name_ ip_port print) (sym e), omega (arith, e)), tt))
  put_new n c (x ∷ xs) e h =
      let rest = put_new n c xs e h.1 in
      let other : same_name (conn_name name_ ip_port print n) x.0 ≡ false =
        entry_same n n x h.0 ∙ ground (arith, h.0.1) in
      simp (other) (ap (λ l. x.1.id ∷ l) rest.0, ((h.0.0, omega (arith, h.0.1)), rest.1))

  erased :
      (n i : ℕ) (es : List (List ℕ × Connection))
      → All (IsEntry n) es
      → (ids (erase (conn_name name_ ip_port print i) es) ≡ without i (ids es))
        × All (IsEntry n) (erase (conn_name name_ ip_port print i) es)
  unfolding erase
  erased n i [] h = (refl, tt)
  erased n i (x ∷ xs) h =
      let rest = erased n i xs h.1 in
      let same = entry_same i n x h.0 in
      elim (Bool-cases (i == x.1.id)) [
        | inl equal ↦ simp (same, equal) rest
        | inr other ↦ simp (same, other) (ap (λ l. x.1.id ∷ l) rest.0, (h.0, rest.1))
      ]

  abbrev Follows : TcpServer → Book → Type 0
  Follows s b = (book s ≡ b) × IsHeld s

  new_connection-Follows :
      (s : TcpServer)
      → IsHeld s
      → Follows (new_connection name_ ip_port print s) (book_step (book s) accepts)
  unfolding new_connection
  new_connection-Follows s h =
      let loop = (get_next_loop s.workers).0 in
      let conn : Connection = record {
        id = s.next_conn_id;
        name = conn_name name_ ip_port print s.next_conn_id;
        owner_loop = loop;
      } in
      let made = put_new s.next_conn_id conn s.connections refl h.entries in
      (
        ap
            (λ (l : List ℕ). record {
              next = suc s.next_conn_id;
              live = l;
              leaving = task_ids s.tasks;
            })
            made.0,
        record { entries = made.1; named = h.named },
      )

  remove-Follows :
      (c : Connection) (s : TcpServer)
      → IsNamed c
      → IsHeld s
      → Follows
          (remove_connection_in_loop c s)
          (record (book s) { live = without c.id (ids s.connections) })
  unfolding remove_connection_in_loop
  remove-Follows c s k h =
      let gone = erased s.next_conn_id c.id s.connections h.entries in
      let here =
        subst
          (λ name.
            (ids (erase name s.connections) ≡ without c.id (ids s.connections))
            × All (IsEntry s.next_conn_id) (erase name s.connections))
          (sym k) gone in
      (
        ap (λ (l : List ℕ). record { next = s.next_conn_id; live = l; leaving = task_ids s.tasks })
            here.0,
        record { entries = here.1; named = h.named },
      )

  next_task-Follows :
      (cs : List Connection) (s : TcpServer)
      → s.tasks ≡ cs
      → All IsNamed cs
      → IsHeld s
      → Follows (next_task cs s) (leave (task_ids cs) (book s))
  unfolding next_task
  next_task-Follows [] s e n h = (refl, h)
  next_task-Follows (c ∷ cs) s e n h =
      remove-Follows c (record s { tasks = cs }) n.0 (record { entries = h.entries; named = n.1 })

  All-append :
      (cs : List Connection) (c : Connection)
      → All IsNamed cs
      → IsNamed c
      → All IsNamed (cs ++ (c ∷ []))
  All-append [] c h k = (k, tt)
  All-append (d ∷ cs) c h k = (h.0, All-append cs c h.1 k)

  step-Follows :
      (s : TcpServer) (x : Step)
      → IsOurs x
      → IsHeld s
      → Follows (step name_ ip_port print s x) (book_step (book s) x)
  unfolding step remove_connection
  step-Follows s accepts k h = new_connection-Follows s h
  step-Follows s (finishes true conn) k h = remove-Follows conn s k h
  step-Follows s (finishes false conn) k h = (
    ap (λ (l : List ℕ). record { next = s.next_conn_id; live = ids s.connections; leaving = l })
        (task_ids-append s.tasks conn),
    record { entries = h.entries; named = All-append s.tasks conn h.named k },
  )
  step-Follows s runs_task k h = next_task-Follows s.tasks s refl h.named h

  run-Follows :
      (xs : List Step) (s : TcpServer)
      → All IsOurs xs
      → IsHeld s
      → book (steps name_ ip_port print s xs) ≡ book_steps (book s) xs
  unfolding steps
  run-Follows [] s k h = refl
  run-Follows (x ∷ xs) s k h =
      let one = step-Follows s x k.0 h in
      run-Follows xs (step name_ ip_port print s x) k.1 one.1 ∙ ap (λ b. book_steps b xs) one.0

  make-Held : (workers : EventLoopPool) → IsHeld (make workers)
  unfolding make
  make-Held workers = record { entries = tt; named = tt }

  -- Where numbers print differently and only connections that the server has named finish: a new
  -- server's table of names does what a list of numbers does, to which every accepted peer adds
  -- the next number and from which a removal, at once or as a task, takes one number. No
  -- connection ever takes the place of another one.
  pub steps-book :
      (workers : EventLoopPool) (xs : List Step)
      → All IsOurs xs
      → book (steps name_ ip_port print (make workers) xs) ≡ book_steps (book (make workers)) xs
  steps-book workers xs k = run-Follows xs (make workers) k (make-Held workers)

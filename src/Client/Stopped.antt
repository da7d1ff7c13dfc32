-- ===== src/Client/Stopped.antt =====
-- What `stop` of src/TcpClient.cc ends, and the retry that outlasts it.
use annety.Prelude.{
  ℕ, suc, ◌≡◌, refl, sym, ap, subst, ◌∙◌, Bool, true, false, ◌&&◌, List, [], ◌∷◌, ◌++◌, All, drop,
  drop-all, length, if_true, if_false, arith,
}
use annety.Connector.{Connector, Told}
use annety.Connector.Stopped.{IsSilent, step-Silent, stop-Silent, start_running, retry_again}
use annety.Connector
use annety.Client.{
  TcpClient, Step, connects, disconnects, stops, sets_retry, runs_task, fires, writable, fails,
  retries, finishes, disconnect, stop, remove_connection, deliver, connector_step, run_retry, step,
  steps,
}

-- Not to connect, with no retry waiting, a silent connector, and this many connections made.
record IsStopped (told : List Told) (n : ℕ) (c : TcpClient) : Type 0 where
  off : c.connect_ ≡ false
  quiet : c.retries ≡ 0
  silent : IsSilent told c.connector
  count : c.next_conn_id ≡ n

-- Any step but `connect`.
abbrev pub IsOff : Step → Type 0
IsOff (connects own errno) = true ≡ false
IsOff disconnects = Unit {0}
IsOff (stops own) = Unit {0}
IsOff (sets_retry b) = Unit {0}
IsOff (runs_task errno) = Unit {0}
IsOff (fires n errno) = Unit {0}
IsOff (writable err unique) = Unit {0}
IsOff (fails err unique) = Unit {0}
IsOff retries = Unit {0}
IsOff (finishes errno i) = Unit {0}

module _ (told : List Told) (n : ℕ) where
  deliver-Stopped :
      (unique : Bool) (ts : List Told) (c : TcpClient)
      → ts ≡ []
      → IsStopped told n c
      → IsStopped told n (deliver unique ts c)
  unfolding deliver
  deliver-Stopped unique [] c e h = h
  deliver-Stopped unique (t ∷ ts) c e h = absurd (cc)

  connector_step-Stopped :
      (unique : Bool) (s : Connector.Step) (c : TcpClient)
      → Connector.Stopped.IsOff s
      → IsStopped told n c
      → IsStopped told n (connector_step unique s c)
  unfolding connector_step
  connector_step-Stopped unique s c q h =
      let next = Connector.step c.connector s in
      let silent = step-Silent told c.connector s q h.silent in
      let nothing : drop (length c.connector.told) next.told ≡ [] =
        drop-all (length c.connector.told) next.told
          (omega (arith, ap length silent.same, ap length h.silent.same)) in
      deliver-Stopped unique (drop (length c.connector.told) next.told)
        (record c { connector = next }) nothing
        (record { off = h.off; quiet = h.quiet; silent = silent; count = h.count })

  remove_connection-Stopped :
      (errno i : ℕ) (c : TcpClient)
      → IsStopped told n c
      → IsStopped told n (remove_connection errno i c)
  unfolding remove_connection
  remove_connection-Stopped errno i c h =
      if_false (IsStopped told n) (c.retry_ && c.connect_) _ _
        (ap (λ b. c.retry_ && b) h.off ∙ ground arith)
        (record { off = h.off; quiet = h.quiet; silent = h.silent; count = h.count })

  step-Stopped :
      (c : TcpClient) (s : Step) → IsOff s → IsStopped told n c → IsStopped told n (step c s)
  unfolding step disconnect stop run_retry
  step-Stopped c (connects own errno) q h = absurd (cc)
  step-Stopped c disconnects q h = if_false (IsStopped told n) c.connect_ _ _ h.off h
  step-Stopped c (stops own) q h = if_false (IsStopped told n) c.connect_ _ _ h.off h
  step-Stopped c (sets_retry b) q h = record {
    off = h.off;
    quiet = h.quiet;
    silent = h.silent;
    count = h.count;
  }
  step-Stopped c (runs_task errno) q h =
      connector_step-Stopped false (Connector.runs_task errno) c tt h
  step-Stopped c (fires m errno) q h = connector_step-Stopped false (Connector.fires m errno) c tt h
  step-Stopped c (writable err unique) q h =
      connector_step-Stopped unique (Connector.writable err) c tt h
  step-Stopped c (fails err unique) q h = connector_step-Stopped unique (Connector.fails err) c tt h
  step-Stopped c retries q h = subst (λ k. IsStopped told n (run_retry k c)) (sym h.quiet) h
  step-Stopped c (finishes errno i) q h = remove_connection-Stopped errno i c h

  run-Stopped :
      (ss : List Step) (c : TcpClient)
      → All IsOff ss
      → IsStopped told n c
      → IsStopped told n (steps c ss)
  unfolding steps
  run-Stopped [] c q h = h
  run-Stopped (s ∷ ss) c q h = run-Stopped ss (step c s) q.1 (step-Stopped c s q.0 h)

stop-Stopped :
    (c : TcpClient)
    → c.connect_ ≡ true
    → c.connector.connect_ ≡ true
    → c.retries ≡ 0
    → IsStopped c.connector.told c.next_conn_id (stop true c)
unfolding stop
stop-Stopped c h k z =
    if_true (IsStopped c.connector.told c.next_conn_id) c.connect_ _ _ h
      (record { off = refl; quiet = z; silent = stop-Silent c.connector k; count = refl })

-- After the loop's own thread has stopped a client that was to connect, while no retry waited in
-- the loop, the client makes no connection any more, whatever tasks, timers, events and ends of
-- connections follow, until a thread calls `connect` again.
pub stop_ends :
    (c : TcpClient) (ss : List Step)
    → c.connect_ ≡ true
    → c.connector.connect_ ≡ true
    → c.retries ≡ 0
    → All IsOff ss
    → (steps (stop true c) ss).next_conn_id ≡ c.next_conn_id
stop_ends c ss h k z q =
    (run-Stopped c.connector.told c.next_conn_id ss (stop true c) q (stop-Stopped c h k z)).count

stop_kept :
    (c : TcpClient) (n : ℕ) → c.retries ≡ suc n → c.connect_ ≡ true → (stop true c).retries ≡ suc n
unfolding stop
stop_kept c n z h = if_true (λ (d : TcpClient). d.retries ≡ suc n) c.connect_ _ _ h z

-- Where a retry waits in the loop, as after an attempt that failed, it sets the connector
-- to connect again and gives it one more delay, though the client has been stopped before.
pub stop_retries :
    (c : TcpClient) (n : ℕ)
    → c.retries ≡ suc n
    → c.connect_ ≡ true
    → let s = stop true c in
      let r = step s retries in
      (r.connector.connect_ ≡ true)
      × (r.connector.delays ≡ s.connector.delays ++ (s.connector.retry_delay_ms ∷ []))
unfolding step run_retry
stop_retries c n z h =
    let s = stop true c in
    subst
      (λ k.
        ((run_retry k s).connector.connect_ ≡ true)
        × ((run_retry k s).connector.delays
            ≡ s.connector.delays ++ (s.connector.retry_delay_ms ∷ [])))
      (sym (stop_kept c n z h)) (retry_again s.connector)

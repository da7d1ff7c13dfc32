-- ===== src/Connector/Tests.antt =====
-- Runs of src/Connector.cc.
use annety.Prelude.{◌≡◌, refl, true, false, List, [], ◌∷◌, length}
use annety.Connector.{
  Connector, make, Step, starts, retries, runs_task, fires, writable, steps, start, stop,
  new_connect, error_connect,
}
use annety.Connector.Backoff.{backoff, delay_at, steps-backoff}
use annety.Connector.Stopped.{start-stop}

-- Refused twice, then begun, failed, retried, and connected.
abbrev tried : List Step
tried =
    starts true 111
    ∷ fires 0 101
    ∷ fires 1 115
    ∷ writable 111
    ∷ runs_task 0
    ∷ retries false
    ∷ runs_task 0
    ∷ fires 2 115
    ∷ writable 0
    ∷ []

abbrev end_ : Connector
end_ = steps make tried

delays_test : end_.delays ≡ 500 ∷ 1000 ∷ 2000 ∷ []
unfolding steps make
delays_test = refl

told_test : end_.told ≡ error_connect ∷ new_connect ∷ []
unfolding steps make
told_test = refl

steps-backoff_example :
    (end_.delays ≡ backoff (length end_.delays))
    × (end_.retry_delay_ms ≡ delay_at (length end_.delays))
steps-backoff_example = steps-backoff tried (tt, (tt, (tt, (tt, (tt, (tt, (tt, (tt, (tt, tt)))))))))

-- An attempt is going on.
abbrev begun : Connector
begun = steps make (starts true 115 ∷ [])

start-stop_example : (start true 115 (stop true begun)).aborted ≡ true
unfolding steps make
start-stop_example = start-stop begun true 115 refl refl refl

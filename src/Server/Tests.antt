-- ===== src/Server/Tests.antt =====
-- Runs of src/TcpServer.cc and src/EventLoopPool.cc.
use annety.Prelude.{ℕ, ◌%◌, ◌≡◌, refl, ap, true, false, List, [], ◌∷◌, get_or, arith}
use annety.Server.{
  EventLoopPool, Connection, Step, accepts, finishes, runs_task, make, conn_name, steps,
  get_next_loop, get_loop_with_hashcode,
}
use annety.Server.Pool.{after, get_next_loop-after}
use annety.Server.Table.{book, book_steps, steps-book}

abbrev workers : EventLoopPool
workers = record { owner_loop = 1; loops = 4 ∷ 5 ∷ 6 ∷ []; next = 0 }

get_next_loop-after_example :
    (get_next_loop (after 7 workers)).0 ≡ get_or (4 ∷ 5 ∷ 6 ∷ []) (7 % 3) 1
get_next_loop-after_example = get_next_loop-after workers 7 refl (omega arith)

hashcode_test : get_loop_with_hashcode 11 workers ≡ 6
unfolding get_loop_with_hashcode
hashcode_test = refl

-- Numbers printed in unary.
abbrev print : ℕ → List ℕ
print n = n ∷ []

printed : (m n : ℕ) → print m ≡ print n → m ≡ n
printed m n e = ap (λ (l : List ℕ). get_or l 0 0) e

abbrev second : Connection
second = record { id = 2; name = 97 ∷ 35 ∷ 98 ∷ 35 ∷ 2 ∷ []; owner_loop = 5 }

abbrev first : Connection
first = record { id = 1; name = 97 ∷ 35 ∷ 98 ∷ 35 ∷ 1 ∷ []; owner_loop = 4 }

abbrev run : List Step
run = accepts ∷ accepts ∷ finishes false second ∷ accepts ∷ finishes true first ∷ runs_task ∷ []

steps-book_example :
    book (steps (97 ∷ []) (98 ∷ []) print (make workers) run) ≡ book_steps (book (make workers)) run
unfolding conn_name
steps-book_example =
    steps-book (97 ∷ []) (98 ∷ []) print printed workers run
      (tt, (tt, (refl, (tt, (refl, (tt, tt))))))

live_test : (book (steps (97 ∷ []) (98 ∷ []) print (make workers) run)).live ≡ 3 ∷ []
unfolding steps make
live_test = refl

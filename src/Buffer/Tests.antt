-- ===== src/Buffer/Tests.antt =====
-- A ByteBuffer of include/ByteBuffer.h with three bytes, and one with a limit.
use annety.Prelude.{ℕ, ◌≡◌, List, [], ◌∷◌, arith}
use annety.Prelude.Int.{pos, negsuc}
use annety.Buffer.{ByteBuffer, un_limit_size, make}
use annety.Buffer.Refine.{
  Call, appends, reads, takes, shrinks, Shows, make-Shows, run, queue_run, run-refines,
}

abbrev blank : ByteBuffer
blank = make un_limit_size 2

blank-Shows : Shows blank []
blank-Shows = make-Shows 2

abbrev three : List ℕ
three = 1 ∷ 2 ∷ 3 ∷ []

abbrev calls : List Call
calls = appends three ∷ reads 1 ∷ shrinks ∷ takes (pos 1) ∷ takes (negsuc 0) ∷ []

run-refines_example :
    Shows (run blank calls).0 (queue_run [] calls).0
    × ((run blank calls).1 ≡ (queue_run [] calls).1)
run-refines_example =
    run-refines blank [] calls blank-Shows (tt, (tt, (tt, (omega arith, (tt, tt)))))

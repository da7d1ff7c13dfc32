-- ===== src/Loop/Tests.antt =====
-- Runs of the loop of src/EventLoop.cc.
use annety.Prelude.{ℕ, suc, ◌≡◌, refl, Bool, true, false, List, [], ◌∷◌, ◌++◌, map, ltb, arith}
use annety.Loop.{
  polling, handling, calling, EventLoop, make, queues, quits, Step, other, wakes, sets_up, reads,
  advances, steps,
}
use annety.Loop.Wakeup.{Served, Stops, steps-Woken}
use annety.Loop.Order.{InOrder, steps-InOrder}
use annety.Loop.Round.{round_called}

-- An eventfd that counts.
abbrev add_one : ℕ → ℕ
add_one n = suc n

abbrev clear : ℕ → ℕ
clear n = 0

abbrev readable : ℕ → Bool
readable n = ltb 0 n

written : (n : ℕ) → readable (add_one n) ≡ true
written n = ground arith

-- Another thread queues a call while the loop polls; the call queues one more.
abbrev posted : List Step
posted =
    advances []
    ∷ advances []
    ∷ other (queues 7)
    ∷ wakes
    ∷ advances []
    ∷ reads
    ∷ advances []
    ∷ advances (queues 8 ∷ [])
    ∷ advances []
    ∷ advances []
    ∷ []

abbrev end_ : EventLoop ℕ
end_ = steps add_one clear (make 0) posted

steps-InOrder_example : InOrder end_
steps-InOrder_example = steps-InOrder add_one clear 0 posted

steps-Woken_example :
    Served add_one clear readable written end_ × Stops add_one clear readable written end_
unfolding steps make
steps-Woken_example =
    steps-Woken add_one clear readable written 0 posted
      (tt, (tt, (tt, (tt, (tt, (tt, (tt, (tt, (tt, (tt, tt)))))))))) refl

end_test : end_.wakeup_functors ≡ 8 ∷ []
unfolding steps make
end_test = refl

abbrev returned : EventLoop ℕ
returned = record {
  phase = handling;
  wakeup_functors = 7 ∷ 9 ∷ [];
  calling_wakeup_functors = false;
  wakeup_socket = 0;
  quit_ = false;
  posting = 0;
  queued = 5 ∷ 7 ∷ 9 ∷ [];
  called = 5 ∷ [];
  direct = [];
}

round_called_example :
    let r =
      steps add_one clear returned
        (advances [] ∷ map advances ((queues 8 ∷ []) ∷ (quits ∷ []) ∷ [])) in
    (r.called ≡ returned.called ++ returned.wakeup_functors)
    × (r.wakeup_functors ≡ 8 ∷ [])
    × (r.phase ≡ calling [])
round_called_example =
    round_called add_one clear ((queues 8 ∷ []) ∷ (quits ∷ []) ∷ []) returned refl refl

-- A call queued by the own thread before `loop` waits in `poll`, with nothing to wake it.
abbrev early : EventLoop ℕ
early = steps add_one clear (make 0) (sets_up (queues 7) ∷ advances [] ∷ advances [] ∷ [])

early_phase_test : early.phase ≡ polling
unfolding steps make
early_phase_test = refl

early_queue_test : early.wakeup_functors ≡ 7 ∷ []
unfolding steps make
early_queue_test = refl

early_socket_test : readable early.wakeup_socket ≡ false
unfolding steps make
early_socket_test = refl

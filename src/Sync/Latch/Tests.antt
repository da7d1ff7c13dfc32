-- ===== src/Sync/Latch/Tests.antt =====
-- A short run of src/CountDownLatch.cc.
use annety.Prelude.{◌≡◌, ◌⊎◌, true, false, [], ◌∷◌, arith}
use annety.Sync.Latch.{make, is_positive, counts_down, waits, resumes, steps}
use annety.Sync.Latch.Release.{steps-released}

steps-released_example :
    ((is_positive (steps (make 1) (waits ∷ counts_down ∷ resumes ∷ [])).count ≡ true)
      × ((steps (make 1) (waits ∷ counts_down ∷ resumes ∷ [])).released ≡ 0))
    ⊎ ((is_positive (steps (make 1) (waits ∷ counts_down ∷ resumes ∷ [])).count ≡ false)
        × ((steps (make 1) (waits ∷ counts_down ∷ resumes ∷ [])).waiting ≡ 0))
steps-released_example = steps-released 1 (waits ∷ counts_down ∷ resumes ∷ []) (omega arith)

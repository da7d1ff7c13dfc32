-- ===== src/Server/Pool.antt =====
-- The loops of src/EventLoopPool.cc take turns.
use annety.Prelude.{
  ℕ, zero, suc, ◌%◌, ◌<◌, ◌≡◌, refl, sym, ap, ◌∙◌, false, ◌==◌, leb, if◌then◌else◌, if_case,
  if_false, length, get_or, arith,
}
use native.Mathlib.Nat.{suc-mod, mod-lt, mod-eq_of_lt, mod_self}
use annety.Server.{EventLoopPool, get_next_loop}

-- The pool after `k` calls.
abbrev pub after : ℕ → EventLoopPool → EventLoopPool
after zero p = p
after (suc k) p = (get_next_loop (after k p)).1

turn : (n r : ℕ) → r < n → (if leb n (suc r) then 0 else suc r) ≡ suc r % n
turn n r l =
    if_case (λ (x : ℕ). x ≡ suc r % n) (leb n (suc r)) _ _
      (λ e. let same : suc r ≡ n = ground (arith, e, l) in sym (ap (λ m. m % n) same ∙ mod_self n))
      (λ e. sym (mod-eq_of_lt (ground (arith, e))))

-- The loops stay, and the next one is the number of calls, modulo the number of loops.
abbrev Turns : EventLoopPool → ℕ → EventLoopPool → Type 0
Turns p k q = (q.owner_loop ≡ p.owner_loop) × ((q.loops ≡ p.loops) × (q.next ≡ k % length p.loops))

get_next_loop-Turns :
    (p q : EventLoopPool) (k : ℕ)
    → 0 < length p.loops
    → Turns p k q
    → Turns p (suc k) (get_next_loop q).1
unfolding get_next_loop
get_next_loop-Turns p q k l h =
    let n = length p.loops in
    let some_loop : (length q.loops == 0) ≡ false =
      ap (λ ls. length ls == 0) h.1.0 ∙ ground (arith, l) in
    let turned = turn n (k % n) (mod-lt k l) ∙ sym (suc-mod k n) in
    if_false (λ (r : ℕ × EventLoopPool). Turns p (suc k) r.1) (length q.loops == 0) _ _ some_loop
      (
        h.0,
        (
          h.1.0,
          ap (λ ls. if leb (length ls) (suc q.next) then 0 else suc q.next) h.1.0
              ∙ ap (λ m. if leb n (suc m) then 0 else suc m) h.1.1
              ∙ turned,
        ),
      )

after-Turns : (p : EventLoopPool) (k : ℕ) → p.next ≡ 0 → 0 < length p.loops → Turns p k (after k p)
after-Turns p zero e l = (refl, (refl, e ∙ sym (mod-eq_of_lt l)))
after-Turns p (suc k) e l = get_next_loop-Turns p (after k p) k l (after-Turns p k e l)

-- In a pool that has loops and starts with the first, the call after `k` others answers with the
-- loop at `k` modulo the number of loops, whatever that number is.
pub get_next_loop-after :
    (p : EventLoopPool) (k : ℕ)
    → p.next ≡ 0
    → 0 < length p.loops
    → (get_next_loop (after k p)).0 ≡ get_or p.loops (k % length p.loops) p.owner_loop
unfolding get_next_loop
get_next_loop-after p k e l =
    let q = after k p in
    let h = after-Turns p k e l in
    let some_loop : (length q.loops == 0) ≡ false =
      ap (λ ls. length ls == 0) h.1.0 ∙ ground (arith, l) in
    if_false (λ (r : ℕ × EventLoopPool). r.0 ≡ get_or p.loops (k % length p.loops) p.owner_loop)
      (length q.loops == 0) _ _ some_loop
      (ap (λ ls. get_or ls q.next q.owner_loop) h.1.0
        ∙ ap (λ m. get_or p.loops m q.owner_loop) h.1.1
        ∙ ap (get_or p.loops (k % length p.loops)) h.0)

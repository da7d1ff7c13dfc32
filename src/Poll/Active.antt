-- ===== src/Poll/Active.antt =====
-- The reported channels: `fill_active_channels` of src/PollPoller.cc.
use annety.Prelude.{
  ℕ, zero, suc, ◌-◌, ◌≡◌, refl, sym, ap, ◌∙◌, inl, inr, true, false, List, [], ◌∷◌, map, All,
  length, Option, some, ltb, ◌==◌, if◌then◌else◌, Bool-cases, arith,
}
use annety.Poll.{Pollfd, fill_active_channels}

-- The entries that `poll` marked; it returns how many they are.
abbrev pub marked : List Pollfd → List Pollfd
marked [] = []
marked (e ∷ es) = if ltb 0 e.revents then e ∷ marked es else marked es

nothing_left : (channels : ℕ → Option ℕ) (l : List Pollfd) → fill_active_channels channels 0 l ≡ []
unfolding fill_active_channels
nothing_left channels [] = refl
nothing_left channels (e ∷ es) = refl

fill_hit :
    (channels : ℕ → Option ℕ) (n a : ℕ) (e : Pollfd) (es : List Pollfd)
    → ltb 0 e.revents ≡ true
    → channels e.fd ≡ some a
    → fill_active_channels channels (suc n) (e ∷ es)
      ≡ (a, e.revents) ∷ fill_active_channels channels n es
unfolding fill_active_channels
fill_hit channels n a e es hit here =
    let positive : (suc n == 0) ≡ false = ground arith in
    let less : suc n - 1 ≡ n = omega arith in simp (positive, hit, here, less) refl

fill_miss :
    (channels : ℕ → Option ℕ) (n : ℕ) (e : Pollfd) (es : List Pollfd)
    → ltb 0 e.revents ≡ false
    → fill_active_channels channels n (e ∷ es) ≡ fill_active_channels channels n es
unfolding fill_active_channels
fill_miss channels zero e es miss = sym (nothing_left channels es)
fill_miss channels (suc n) e es miss =
    let positive : (suc n == 0) ≡ false = ground arith in simp (positive, miss) refl

-- For the count that `poll` returns, over entries whose descriptors all have a channel, exactly the
-- marked entries are reported, in their order, each as its channel and what happened to it.
pub fill_active_channels-marked :
    (channels : ℕ → Option ℕ) (address : ℕ → ℕ) (l : List Pollfd)
    → All (λ e. channels e.fd ≡ some (address e.fd)) l
    → fill_active_channels channels (length (marked l)) l
      ≡ map (λ e. (address e.fd, e.revents)) (marked l)
fill_active_channels-marked channels address [] h = nothing_left channels []
fill_active_channels-marked channels address (e ∷ es) h =
    let ih = fill_active_channels-marked channels address es h.1 in
    elim (Bool-cases (ltb 0 e.revents)) [
      | inl hit ↦ rw hit (
          fill_hit channels (length (marked es)) (address e.fd) e es hit h.0
          ∙ ap (◌∷◌ (address e.fd, e.revents)) ih)
      | inr miss ↦ rw miss (fill_miss channels (length (marked es)) e es miss ∙ ih)
    ]

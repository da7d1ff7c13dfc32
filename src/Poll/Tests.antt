-- ===== src/Poll/Tests.antt =====
-- Two channels on both pollers of src/PollPoller.cc and src/EPollPoller.cc.
use annety.Prelude.{
  ℕ, ◌+◌, ◌≡◌, refl, Bool, true, false, not, ltb, if◌then◌else◌, Bool-cases, inl, inr, arith, List,
  [], ◌∷◌, some, ◌==◌, ==_iff,
}
use annety.Poll.{
  Op, add, del, mod_, set, Pollfd, update_poll_events, update_epoll_events, has_channel, init,
}
use annety.Poll.Events.{Epoll, asked_events}
use annety.Poll.Calls.{Call, asks, leaves, asked, steps}
use annety.Poll.Agree.{
  poll_start, epoll_start, epoll_events, kernel_grants, pollers_agree, never_fatal,
}

-- A kernel that keeps one list of events for each descriptor, and takes those below 64 only.
abbrev table_ctl : (ℕ → List ℕ) → Op → ℕ → ℕ → (ℕ → List ℕ) × Bool
table_ctl s add fd events = if ltb fd 64 then (set s fd (events ∷ []), true) else (s, false)
table_ctl s mod_ fd events = (set s fd (events ∷ []), true)
table_ctl s del fd events = (set s fd [], true)

here : (s : ℕ → List ℕ) (fd : ℕ) (l : List ℕ) → set s fd l fd ≡ l
here s fd l = rw ((==_iff fd fd).1 refl) refl

there :
    (s : ℕ → List ℕ) (op : Op) (fd events other : ℕ)
    → (other == fd) ≡ false
    → (table_ctl s op fd events).0 other ≡ s other
there s add fd events other h = elim (Bool-cases (ltb fd 64)) [
  | inl low ↦ simp (low, h) refl
  | inr high ↦ simp (high) refl
]
there s mod_ fd events other h = rw h refl
there s del fd events other h = rw h refl

entered :
    (s : ℕ → List ℕ) (fd events : ℕ)
    → not (ltb fd 64) ≡ false
    → ((table_ctl s add fd events).1 ≡ true) × ((table_ctl s add fd events).0 fd ≡ events ∷ [])
entered s fd events g =
    let low : ltb fd 64 ≡ true = ground (arith, g) in simp (low) (refl, here s fd (events ∷ []))

abbrev refuses_high : Op → ℕ → Bool
refuses_high add fd = not (ltb fd 64)
refuses_high mod_ fd = false
refuses_high del fd = false

abbrev table : Epoll table_ctl
table = record {
  refuses = λ s op fd events. refuses_high op fd;
  interest = λ s fd. s fd;
  epoll_create = λ fd. [];
  created = λ fd. refl;
  added_ = λ s fd events g h. entered s fd events g;
  modified = λ s fd events x g h. (refl, here s fd (events ∷ []));
  deleted_ = λ s fd events x h. here s fd [];
  kept = there;
}

abbrev address : ℕ → ℕ
address fd = 100 + fd

-- Channel 3 asks for reading and writing in turn, 4 asks for nothing and leaves.
abbrev calls : List Call
calls = asks 3 1 ∷ asks 4 4 ∷ asks 3 5 ∷ asks 4 0 ∷ leaves 4 ∷ asks 3 0 ∷ asks 3 4 ∷ []

granted_calls : kernel_grants table_ctl table address calls ≡ true
unfolding steps update_epoll_events
granted_calls = refl

pollers_agree_example :
    (asked_events
        (steps update_poll_events (poll_start table_ctl table address) calls).poller.listen_events
        3
      ≡ asked ((steps update_poll_events (poll_start table_ctl table address) calls).channels 3))
    × (epoll_events table_ctl table
          (steps
            (update_epoll_events table_ctl)
            (epoll_start table_ctl table address)
            calls).poller.listen_events
          3
        ≡ asked_events
            (steps update_poll_events
              (poll_start table_ctl table address)
              calls).poller.listen_events
            3)
    × ((steps
            (update_epoll_events table_ctl)
            (epoll_start table_ctl table address)
            calls).poller.channels
          3
        ≡ (steps update_poll_events (poll_start table_ctl table address) calls).poller.channels 3)
    × ((steps (update_epoll_events table_ctl) (epoll_start table_ctl table address) calls).channels
          3
        ≡ (steps update_poll_events (poll_start table_ctl table address) calls).channels 3)
pollers_agree_example = pollers_agree table_ctl table address calls 3 granted_calls

never_fatal_example :
    (steps
      (update_epoll_events table_ctl)
      (epoll_start table_ctl table address)
      calls).poller.listen_events.fatal
    ≡ false
never_fatal_example = never_fatal table_ctl table address calls granted_calls

abbrev polled : List Pollfd
polled =
    record { fd = 3; events = 1; revents = 1 }
    ∷ record { fd = 4; events = 4; revents = 0 }
    ∷ record { fd = 5; events = 5; revents = 4 }
    ∷ []

-- A channel at another address under the same descriptor is not the registered one.
has_channel_test :
    has_channel
      (record { channels = λ fd. some (address fd); listen_events = polled })
      (record { address = 7; fd = 3; events = 0; status = init })
    ≡ false
unfolding has_channel
has_channel_test = refl

-- ===== src/Poll/Agree.antt =====
-- The two pollers agree: src/PollPoller.cc and src/EPollPoller.cc watch the same events.
use annety.Prelude.{
  ℕ, ◌≡◌, refl, sym, ap, ap₂, ◌∙◌, inl, inr, Bool, true, false, not, ◌&&◌, arith, List, [], ◌∷◌,
  none, ◌==◌, Bool-cases,
}
use annety.Poll.{
  Status, init, added, deleted, Op, PolledChannel, Poller, set, update_by, update_channel,
  remove_by, remove_channel, Pollfd, update_poll_events, EPolled, update_epoll_events,
}
use annety.Poll.Events.{asked_events, asked_events-Interest, Epoll, epoll-Interest}
use annety.Poll.Calls.{
  World, Call, granted_by, granted, all_granted, asks, leaves, asked, asked_by, registered,
  nothing_watched, step, steps,
}
use annety.Poll.Sync.{Known, Synced, step-Synced, steps-Synced, unused-Synced}

-- The status of a channel after a call does not depend on the poller.
module _ {L M : Type 0} (f : L → Op → PolledChannel → L) (g : M → Op → PolledChannel → M) where
  update_by_same :
      (s : Status) (p : Poller L) (q : Poller M) (c : PolledChannel)
      → (update_by f s p c).1 ≡ (update_by g s q c).1
  unfolding update_by
  update_by_same init p q c = refl
  update_by_same deleted p q c = refl
  update_by_same added p q c = elim (Bool-cases (c.events == 0)) [
    | inl nothing ↦ simp (nothing) refl
    | inr something ↦ simp (something) refl
  ]

  step_same :
      (w : World L) (v : World M) (c : Call)
      → w.channels ≡ v.channels
      → (step f w c).channels ≡ (step g v c).channels
  unfolding step update_channel remove_channel
  step_same w v (asks fd events) e =
      ap₂ (λ h c. set h fd c) e
        (update_by_same (w.channels fd).status w.poller v.poller
            (record (w.channels fd) { events = events })
          ∙ ap (λ h. (update_by g (h fd).status v.poller (record (h fd) { events = events })).1) e)
  step_same w v (leaves fd) e = ap (λ h. set h fd (record (h fd) { status = init })) e

  pub steps_same :
      (w : World L) (v : World M) (cs : List Call)
      → w.channels ≡ v.channels
      → (steps f w cs).channels ≡ (steps g v cs).channels
  unfolding steps
  steps_same w v [] e = e
  steps_same w v (c ∷ cs) e = steps_same (step f w c) (step g v c) cs (step_same w v c e)

module _ {S : Type 0} (epoll_ctl : S → Op → ℕ → ℕ → S × Bool) (k : Epoll epoll_ctl) where
  abbrev pub epoll_events : EPolled S → ℕ → List ℕ
  epoll_events l fd = k.interest l.epollfd fd

  abbrev pub poll_start : (ℕ → ℕ) → World (List Pollfd)
  poll_start address = nothing_watched [] address

  abbrev pub epoll_start : (ℕ → ℕ) → World (EPolled S)
  epoll_start address = nothing_watched (record { epollfd = k.epoll_create; fatal = false }) address

  abbrev always : List Pollfd → Op → ℕ → ℕ → Bool
  always l op fd events = true

  abbrev pub epoll_grants : EPolled S → Op → ℕ → ℕ → Bool
  epoll_grants l op fd events = not (k.refuses l.epollfd op fd events)

  -- Whether the kernel grants what a run enters in its list.
  abbrev pub kernel_grants : (ℕ → ℕ) → List Call → Bool
  kernel_grants address cs =
      all_granted (update_epoll_events epoll_ctl) epoll_grants (epoll_start address) cs

  poll_grants :
      (w : World (List Pollfd)) (cs : List Call) → all_granted update_poll_events always w cs ≡ true
  poll_grants w [] = refl
  poll_grants w (asks fd events ∷ cs) =
      let rest = poll_grants (step update_poll_events w (asks fd events)) cs in
      entered (w.channels fd).status rest
    where
      entered :
          (s : Status)
          → all_granted update_poll_events always (step update_poll_events w (asks fd events)) cs
            ≡ true
          → granted_by update_poll_events always s w.poller.listen_events (w.channels fd).fd events
              && all_granted update_poll_events always
                  (step update_poll_events w (asks fd events))
                  cs
            ≡ true
      entered init rest = rest
      entered deleted rest = rest
      entered added rest = ground (arith, rest)
  poll_grants w (leaves fd ∷ cs) = poll_grants (step update_poll_events w (leaves fd)) cs

  poll_Synced :
      (address : ℕ → ℕ) (cs : List Call)
      → Synced asked_events-Interest (steps update_poll_events (poll_start address) cs)
  poll_Synced address cs =
      steps-Synced asked_events-Interest (poll_start address) cs
        (poll_grants (poll_start address) cs)
        (unused-Synced asked_events-Interest [] address (λ fd. refl))

  epoll_Synced :
      (address : ℕ → ℕ) (cs : List Call)
      → kernel_grants address cs ≡ true
      → Synced (epoll-Interest k) (steps (update_epoll_events epoll_ctl) (epoll_start address) cs)
  epoll_Synced address cs g = steps-Synced (epoll-Interest k) (epoll_start address) cs g (
      unused-Synced (epoll-Interest k) (record { epollfd = k.epoll_create; fatal = false }) address
        k.created)

  -- After any calls of any channels, from new pollers, over a kernel that keeps the documented
  -- interest list and refuses none of these calls for want of memory or of watches or for the kind
  -- of the descriptor (ENOMEM, ENOSPC, EPERM): `PollPoller` and `EPollPoller` watch the same descriptors for the same events,
  -- and for a channel that they have added these are exactly the events that it asks for, for any
  -- other channel none; and they have the same channels registered.
  pub pollers_agree :
      (address : ℕ → ℕ) (cs : List Call) (fd : ℕ)
      → kernel_grants address cs ≡ true
      → let w = steps update_poll_events (poll_start address) cs in
        let v = steps (update_epoll_events epoll_ctl) (epoll_start address) cs in
        (asked_events w.poller.listen_events fd ≡ asked (w.channels fd))
        × (epoll_events v.poller.listen_events fd ≡ asked_events w.poller.listen_events fd)
        × (v.poller.channels fd ≡ w.poller.channels fd)
        × (v.channels fd ≡ w.channels fd)
  pollers_agree address cs fd g =
      let w = steps update_poll_events (poll_start address) cs in
      let v = steps (update_epoll_events epoll_ctl) (epoll_start address) cs in
      let same : w.channels ≡ v.channels =
        steps_same update_poll_events (update_epoll_events epoll_ctl) (poll_start address)
          (epoll_start address) cs refl in
      let s = poll_Synced address cs in
      let t = epoll_Synced address cs g in
      let here : asked_events w.poller.listen_events fd ≡ asked (w.channels fd) =
        ap (asked_events w.poller.listen_events) (sym (s.own fd)) ∙ (s.known fd).asks_for in
      let there : epoll_events v.poller.listen_events fd ≡ asked (v.channels fd) =
        ap (epoll_events v.poller.listen_events) (sym (t.own fd)) ∙ (t.known fd).asks_for in
      (
        here,
        there ∙ ap (λ h. asked (h fd)) (sym same) ∙ sym here,
        ap v.poller.channels (sym (t.own fd))
            ∙ (t.known fd).stands
            ∙ ap (λ h. registered (h fd)) (sym same)
            ∙ sym (ap w.poller.channels (sym (s.own fd)) ∙ (s.known fd).stands),
        ap (λ h. h fd) (sym same),
      )

  abbrev Quiet : World (EPolled S) → Type 0
  Quiet w = w.poller.listen_events.fatal ≡ false

  update_by-Quiet :
      (s : Status) (p : Poller (EPolled S)) (c : PolledChannel) (events : ℕ)
      → c.status ≡ s
      → granted_by (update_epoll_events epoll_ctl) epoll_grants s p.listen_events c.fd events ≡ true
      → Known epoll_events p c
      → p.listen_events.fatal ≡ false
      → (update_by
          (update_epoll_events epoll_ctl)
          s
          p
          (record c { events = events })).0.listen_events.fatal
        ≡ false
  unfolding update_by update_epoll_events
  update_by-Quiet init p c events e g n quiet =
      rw
        (k.added_ p.listen_events.epollfd c.fd events (ground (arith, g))
          (n.asks_for ∙ ap (λ s. asked_by s c.events) e)).0
        quiet
  update_by-Quiet deleted p c events e g n quiet =
      rw
        (k.added_ p.listen_events.epollfd c.fd events (ground (arith, g))
          (n.asks_for ∙ ap (λ s. asked_by s c.events) e)).0
        quiet
  update_by-Quiet added p c events e g n quiet = elim (Bool-cases (events == 0)) [
    | inl nothing ↦ simp (nothing) quiet
    | inr something ↦
        let good =
          (k.modified p.listen_events.epollfd c.fd events c.events (ground (arith, g, something))
            (n.asks_for ∙ ap (λ s. asked_by s c.events) e)).0 in
        simp (something, good) quiet
  ]

  step-Quiet :
      (w : World (EPolled S)) (c : Call)
      → granted (update_epoll_events epoll_ctl) epoll_grants w c ≡ true
      → Synced (epoll-Interest k) w
      → Quiet w
      → Quiet (step (update_epoll_events epoll_ctl) w c)
  unfolding step update_channel update_epoll_events
  step-Quiet w (asks fd events) g s quiet =
      update_by-Quiet (w.channels fd).status w.poller (w.channels fd) events refl g (s.known fd)
        quiet
  step-Quiet w (leaves fd) g s quiet = removed (w.channels fd).status
    where
      removed :
          (s : Status)
          → (remove_by
              (update_epoll_events epoll_ctl)
              s
              (record w.poller { channels = set w.poller.channels (w.channels fd).fd none })
              (w.channels fd)).listen_events.fatal
            ≡ false
      removed init = quiet
      removed added = quiet
      removed deleted = quiet

  steps-Quiet :
      (w : World (EPolled S)) (cs : List Call)
      → all_granted (update_epoll_events epoll_ctl) epoll_grants w cs ≡ true
      → Synced (epoll-Interest k) w
      → Quiet w
      → Quiet (steps (update_epoll_events epoll_ctl) w cs)
  unfolding steps
  steps-Quiet w [] g s quiet = quiet
  steps-Quiet w (c ∷ cs) g s quiet =
      steps-Quiet (step (update_epoll_events epoll_ctl) w c) cs (ground (arith, g))
        (step-Synced (epoll-Interest k) w c (ground (arith, g)) s)
        (step-Quiet w c (ground (arith, g)) s quiet)

  -- Whatever the calls are, as long as the kernel refuses none of them for want of memory or of
  -- watches or for the kind of the descriptor (ENOMEM, ENOSPC, EPERM), `epoll_ctl` does not fail
  -- where the program logs a failure as fatal: nothing is added that is in the interest list, and
  -- nothing is changed that is not.
  pub never_fatal :
      (address : ℕ → ℕ) (cs : List Call)
      → kernel_grants address cs ≡ true
      → (steps (update_epoll_events epoll_ctl) (epoll_start address) cs).poller.listen_events.fatal
        ≡ false
  never_fatal address cs g =
      steps-Quiet (epoll_start address) cs g
        (unused-Synced (epoll-Interest k) (record { epollfd = k.epoll_create; fatal = false })
          address k.created)
        refl

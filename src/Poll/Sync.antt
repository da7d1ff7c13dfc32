-- ===== src/Poll/Sync.antt =====
-- The pollers of src/PollPoller.cc and src/EPollPoller.cc know of every channel what it asks for.
use annety.Prelude.{
  ℕ, ◌≡◌, refl, sym, ap, ◌∙◌, inl, inr, Bool, true, false, arith, List, [], ◌∷◌, none, some, ◌==◌,
  ==_iff, Bool-cases,
}
use annety.Poll.{
  Status, init, added, deleted, Op, add, del, mod_, PolledChannel, Poller, set, update_by,
  update_channel, remove_by, remove_channel,
}
use annety.Poll.Calls.{
  World, Call, asked_by, registered_by, asked, registered, nothing_watched, step, steps, granted_by,
  granted, all_granted, asks, leaves,
}
use annety.Poll.Events.{Interest}

-- The poller has of a channel what its status says.
pub record Known {L : Type 0} (watched : L → ℕ → List ℕ) (p : Poller L) (c : PolledChannel)
    : Type 0 where
  pub asks_for : watched p.listen_events c.fd ≡ asked c
  pub stands : p.channels c.fd ≡ registered c

set_here : {A : Type 0} (f : ℕ → A) (k : ℕ) (a : A) → set f k a k ≡ a
set_here f k a = rw ((==_iff k k).1 refl) refl

module _ {L : Type 0} {control : L → Op → PolledChannel → L} {watched : L → ℕ → List ℕ}
    {grants : L → Op → ℕ → ℕ → Bool} (i : Interest control watched grants) where
  update_by-Known :
      (s : Status) (p : Poller L) (c : PolledChannel) (events : ℕ)
      → c.status ≡ s
      → granted_by control grants s p.listen_events c.fd events ≡ true
      → Known watched p c
      → let r = update_by control s p (record c { events = events }) in Known watched r.0 r.1
  unfolding update_by
  update_by-Known init p c events e g k = record {
    asks_for =
        i.adds p.listen_events (record c { events = events; status = added }) g
          (k.asks_for ∙ ap (λ s. asked_by s c.events) e);
    stands = set_here p.channels c.fd (some c.address);
  }
  update_by-Known deleted p c events e g k = record {
    asks_for =
        i.adds p.listen_events (record c { events = events; status = added }) g
          (k.asks_for ∙ ap (λ s. asked_by s c.events) e);
    stands = k.stands ∙ ap (λ s. registered_by s c.address) e;
  }
  update_by-Known added p c events e g k =
      let one : watched p.listen_events c.fd ≡ c.events ∷ [] =
        k.asks_for ∙ ap (λ s. asked_by s c.events) e in
      elim (Bool-cases (events == 0)) [
        | inl nothing ↦ simp (nothing) (record {
          asks_for = i.deletes p.listen_events (record c { events = events }) c.events one;
          stands = k.stands ∙ ap (λ s. registered_by s c.address) e;
        })
        | inr something ↦ simp (something) (record {
          asks_for =
              i.modifies p.listen_events (record c { events = events }) c.events
                (ground (arith, g, something)) one
              ∙ ap (λ s. asked_by s events) (sym e);
          stands = k.stands;
        })
      ]

  update_by-fd :
      (s : Status) (p : Poller L) (c : PolledChannel) → (update_by control s p c).1.fd ≡ c.fd
  unfolding update_by
  update_by-fd init p c = refl
  update_by-fd deleted p c = refl
  update_by-fd added p c = elim (Bool-cases (c.events == 0)) [
    | inl nothing ↦ simp (nothing) refl
    | inr something ↦ simp (something) refl
  ]

  -- The other channels are not touched.
  update_by_others :
      (s : Status) (p : Poller L) (c : PolledChannel) (fd : ℕ)
      → (fd == c.fd) ≡ false
      → let r = update_by control s p c in
        (watched r.0.listen_events fd ≡ watched p.listen_events fd)
        × (r.0.channels fd ≡ p.channels fd)
  unfolding update_by
  update_by_others init p c fd other =
      (i.others p.listen_events add (record c { status = added }) fd other, rw other refl)
  update_by_others deleted p c fd other =
      (i.others p.listen_events add (record c { status = added }) fd other, refl)
  update_by_others added p c fd other = elim (Bool-cases (c.events == 0)) [
    | inl nothing ↦ simp (nothing) (i.others p.listen_events del c fd other, refl)
    | inr something ↦ simp (something) (i.others p.listen_events mod_ c fd other, refl)
  ]

  remove_by-Known :
      (s : Status) (p : Poller L) (c : PolledChannel)
      → c.status ≡ s
      → Known watched p c
      → let r = remove_by control s (record p { channels = set p.channels c.fd none }) c in
        Known watched r (record c { status = init })
  unfolding remove_by
  remove_by-Known init p c e k = record {
    asks_for = k.asks_for ∙ ap (λ s. asked_by s c.events) e;
    stands = set_here p.channels c.fd none;
  }
  remove_by-Known deleted p c e k = record {
    asks_for = k.asks_for ∙ ap (λ s. asked_by s c.events) e;
    stands = set_here p.channels c.fd none;
  }
  remove_by-Known added p c e k = record {
    asks_for = i.deletes p.listen_events c c.events (k.asks_for ∙ ap (λ s. asked_by s c.events) e);
    stands = set_here p.channels c.fd none;
  }

  remove_by_others :
      (s : Status) (p : Poller L) (c : PolledChannel) (fd : ℕ)
      → (fd == c.fd) ≡ false
      → let r = remove_by control s (record p { channels = set p.channels c.fd none }) c in
        (watched r.listen_events fd ≡ watched p.listen_events fd) × (r.channels fd ≡ p.channels fd)
  unfolding remove_by
  remove_by_others init p c fd other = (refl, rw other refl)
  remove_by_others deleted p c fd other = (refl, rw other refl)
  remove_by_others added p c fd other = (i.others p.listen_events del c fd other, rw other refl)

  -- Every channel stands under its own descriptor, and the poller knows it.
  pub record Synced (w : World L) : Type 0 where
    pub own : (fd : ℕ) → (w.channels fd).fd ≡ fd
    pub known : (fd : ℕ) → Known watched w.poller (w.channels fd)

  moved :
      (p p' : Poller L) (c : PolledChannel)
      → watched p'.listen_events c.fd ≡ watched p.listen_events c.fd
      → p'.channels c.fd ≡ p.channels c.fd
      → Known watched p c
      → Known watched p' c
  moved p p' c l m k = record { asks_for = l ∙ k.asks_for; stands = m ∙ k.stands }

  -- One channel is exchanged for the one that a call leaves, and the others stay.
  exchanged :
      (w : World L) (p : Poller L) (k : ℕ) (c : PolledChannel)
      → Synced w
      → c.fd ≡ k
      → Known watched p c
      → ((fd : ℕ)
          → (fd == k) ≡ false
          → (watched p.listen_events fd ≡ watched w.poller.listen_events fd)
            × (p.channels fd ≡ w.poller.channels fd))
      → Synced (record { poller = p; channels = set w.channels k c })
  exchanged w p k c s own_fd here others = record {
    own = λ fd. elim (Bool-cases (fd == k)) [
      | inl mine ↦ simp (mine) (own_fd ∙ sym ((==_iff fd k).0 mine))
      | inr other ↦ simp (other) (s.own fd)
    ];
    known = λ fd. elim (Bool-cases (fd == k)) [
      | inl mine ↦ simp (mine) here
      | inr other ↦
          let o = others (w.channels fd).fd (ap (λ n. n == k) (s.own fd) ∙ other) in
          simp (other) (moved w.poller p (w.channels fd) o.0 o.1 (s.known fd))
    ];
  }

  pub step-Synced :
      (w : World L) (c : Call)
      → granted control grants w c ≡ true
      → Synced w
      → Synced (step control w c)
  unfolding step update_channel remove_channel
  step-Synced w (asks fd events) g s =
      let c : PolledChannel = w.channels fd in
      let r = update_by control c.status w.poller (record c { events = events }) in
      let o = update_by_others c.status w.poller (record c { events = events }) in
      exchanged w r.0 fd r.1 s
        (update_by-fd c.status w.poller (record c { events = events }) ∙ s.own fd)
        (update_by-Known c.status w.poller c events refl g (s.known fd))
        (λ n other. o n (ap (λ k. n == k) (s.own fd) ∙ other))
  step-Synced w (leaves fd) g s =
      let c : PolledChannel = w.channels fd in
      exchanged w _ fd (record c { status = init }) s (s.own fd)
        (remove_by-Known c.status w.poller c refl (s.known fd))
        (λ n other. remove_by_others c.status w.poller c n (ap (λ k. n == k) (s.own fd) ∙ other))

  pub steps-Synced :
      (w : World L) (cs : List Call)
      → all_granted control grants w cs ≡ true
      → Synced w
      → Synced (steps control w cs)
  unfolding steps
  steps-Synced w [] g s = s
  steps-Synced w (c ∷ cs) g s =
      steps-Synced (step control w c) cs (ground (arith, g)) (step-Synced w c (ground (arith, g)) s)

  pub unused-Synced :
      (l : L) (address : ℕ → ℕ)
      → ((fd : ℕ) → watched l fd ≡ [])
      → Synced (nothing_watched l address)
  unused-Synced l address none_ = record {
    own = λ fd. refl;
    known = λ fd. record { asks_for = none_ fd; stands = refl };
  }

-- ===== src/Poll/Events.antt =====
-- The lists of events of src/PollPoller.cc and src/EPollPoller.cc, behind one interface.
use annety.Prelude.{
  append-nil, ℕ, ◌≡◌, refl, ap, ◌∙◌, inl, inr, Bool, true, false, not, List, [], ◌∷◌, ◌++◌, ◌==◌,
  ==_iff, if◌then◌else◌, Bool-cases, arith,
}
use annety.Poll.{
  Op, add, del, mod_, PolledChannel, Pollfd, erase_events, modify_events, update_poll_events,
  update_epoll_events,
}

-- What a poller asks of its list: `watched` is the events asked for a descriptor, if any. The list
-- may refuse an entry that it does not grant.
pub record Interest {L : Type 0} (control : L → Op → PolledChannel → L) (watched : L → ℕ → List ℕ)
    (grants : L → Op → ℕ → ℕ → Bool) : Type 0 where
  pub adds :
      (l : L) (c : PolledChannel)
      → grants l add c.fd c.events ≡ true
      → watched l c.fd ≡ []
      → watched (control l add c) c.fd ≡ c.events ∷ []
  pub modifies :
      (l : L) (c : PolledChannel) (x : ℕ)
      → grants l mod_ c.fd c.events ≡ true
      → watched l c.fd ≡ x ∷ []
      → watched (control l mod_ c) c.fd ≡ c.events ∷ []
  pub deletes :
      (l : L) (c : PolledChannel) (x : ℕ)
      → watched l c.fd ≡ x ∷ []
      → watched (control l del c) c.fd ≡ []
  pub others :
      (l : L) (op : Op) (c : PolledChannel) (fd : ℕ)
      → (fd == c.fd) ≡ false
      → watched (control l op c) fd ≡ watched l fd

abbrev pub asked_events : List Pollfd → ℕ → List ℕ
asked_events [] fd = []
asked_events (e ∷ es) fd = if e.fd == fd then e.events ∷ asked_events es fd else asked_events es fd

asked_events-append :
    (l : List Pollfd) (e : Pollfd) (fd : ℕ)
    → asked_events (l ++ (e ∷ [])) fd
      ≡ asked_events l fd ++ (if e.fd == fd then e.events ∷ [] else [])
asked_events-append [] e fd = refl
asked_events-append (d ∷ ds) e fd = elim (Bool-cases (d.fd == fd)) [
  | inl here ↦ rw here (ap (◌∷◌ d.events) (asked_events-append ds e fd))
  | inr there ↦ rw there (asked_events-append ds e fd)
]

abbrev tail_of : List ℕ → List ℕ
tail_of [] = []
tail_of (x ∷ xs) = xs

asked_events-erase_events :
    (l : List Pollfd) (fd : ℕ) → asked_events (erase_events fd l) fd ≡ tail_of (asked_events l fd)
unfolding erase_events
asked_events-erase_events [] fd = refl
asked_events-erase_events (d ∷ ds) fd = elim (Bool-cases (d.fd == fd)) [
  | inl here ↦ rw here refl
  | inr there ↦ simp (there) (asked_events-erase_events ds fd)
]

abbrev first_of : ℕ → List ℕ → List ℕ
first_of events [] = []
first_of events (x ∷ xs) = events ∷ xs

asked_events-modify_events :
    (l : List Pollfd) (fd events : ℕ)
    → asked_events (modify_events fd events l) fd ≡ first_of events (asked_events l fd)
unfolding modify_events
asked_events-modify_events [] fd events = refl
asked_events-modify_events (d ∷ ds) fd events = elim (Bool-cases (d.fd == fd)) [
  | inl here ↦ simp (here) refl
  | inr there ↦ simp (there) (asked_events-modify_events ds fd events)
]

differs : (a b c : ℕ) → (a == b) ≡ true → (c == b) ≡ false → (a == c) ≡ false
differs a b c e d = ground (arith, e, d)

same : (a b : ℕ) → a ≡ b → (a == b) ≡ true
same a b e = (==_iff a b).1 e

asked_events_others :
    (l : List Pollfd) (op : Op) (c : PolledChannel) (fd : ℕ)
    → (fd == c.fd) ≡ false
    → asked_events (update_poll_events l op c) fd ≡ asked_events l fd
unfolding update_poll_events erase_events modify_events
asked_events_others l add c fd other =
    asked_events-append l (record { fd = c.fd; events = c.events; revents = 0 }) fd
    ∙ ap (λ b. asked_events l fd ++ (if b then c.events ∷ [] else []))
        (differs c.fd c.fd fd (same c.fd c.fd refl) other)
    ∙ append-nil (asked_events l fd)
asked_events_others [] del c fd other = refl
asked_events_others (d ∷ ds) del c fd other =
    let ih = asked_events_others ds del c fd other in
    elim (Bool-cases (d.fd == c.fd)) [
      | inl here ↦ let off = differs d.fd c.fd fd here other in simp (here, off) refl
      | inr there ↦ elim (Bool-cases (d.fd == fd)) [
        | inl mine ↦ simp (there, mine) (ap (◌∷◌ d.events) ih)
        | inr not_mine ↦ simp (there, not_mine) ih
      ]
    ]
asked_events_others [] mod_ c fd other = refl
asked_events_others (d ∷ ds) mod_ c fd other =
    let ih = asked_events_others ds mod_ c fd other in
    elim (Bool-cases (d.fd == c.fd)) [
      | inl here ↦ let off = differs d.fd c.fd fd here other in simp (here, off) refl
      | inr there ↦ elim (Bool-cases (d.fd == fd)) [
        | inl mine ↦ simp (there, mine) (ap (◌∷◌ d.events) ih)
        | inr not_mine ↦ simp (there, not_mine) ih
      ]
    ]

-- The list of `PollPoller` is such a list.
pub asked_events-Interest : Interest update_poll_events asked_events (λ l op fd events. true)
unfolding update_poll_events
asked_events-Interest = record {
  adds = λ l c granted none_.
      asked_events-append l (record { fd = c.fd; events = c.events; revents = 0 }) c.fd
      ∙ ap (λ b. asked_events l c.fd ++ (if b then c.events ∷ [] else [])) (same c.fd c.fd refl)
      ∙ ap (λ t. t ++ (c.events ∷ [])) none_;
  modifies =
      λ l c x granted one. asked_events-modify_events l c.fd c.events ∙ ap (first_of c.events) one;
  deletes = λ l c x one. asked_events-erase_events l c.fd ∙ ap tail_of one;
  others = asked_events_others;
}

-- What the kernel documents of `epoll_ctl`: a descriptor that is not in the interest list can be
-- added and one that is can be changed, unless the kernel `refuses` for another reason than the
-- list (ENOSPC, ENOMEM or EPERM); one that is can be deleted; and the other descriptors keep their
-- events.
pub record Epoll {S : Type 0} (epoll_ctl : S → Op → ℕ → ℕ → S × Bool) : Type 0 where
  pub refuses : S → Op → ℕ → ℕ → Bool
  pub interest : S → ℕ → List ℕ
  pub epoll_create : S
  pub created : (fd : ℕ) → interest epoll_create fd ≡ []
  pub added_ :
      (s : S) (fd events : ℕ)
      → refuses s add fd events ≡ false
      → interest s fd ≡ []
      → ((epoll_ctl s add fd events).1 ≡ true)
        × (interest (epoll_ctl s add fd events).0 fd ≡ events ∷ [])
  pub modified :
      (s : S) (fd events x : ℕ)
      → refuses s mod_ fd events ≡ false
      → interest s fd ≡ x ∷ []
      → ((epoll_ctl s mod_ fd events).1 ≡ true)
        × (interest (epoll_ctl s mod_ fd events).0 fd ≡ events ∷ [])
  pub deleted_ :
      (s : S) (fd events x : ℕ)
      → interest s fd ≡ x ∷ []
      → interest (epoll_ctl s del fd events).0 fd ≡ []
  pub kept :
      (s : S) (op : Op) (fd events other : ℕ)
      → (other == fd) ≡ false
      → interest (epoll_ctl s op fd events).0 other ≡ interest s other

-- So the list of `EPollPoller` is one too.
pub epoll-Interest :
    {S : Type 0} {epoll_ctl : S → Op → ℕ → ℕ → S × Bool} (k : Epoll epoll_ctl)
    → Interest
        (update_epoll_events epoll_ctl)
        (λ l fd. k.interest l.epollfd fd)
        (λ l op fd events. not (k.refuses l.epollfd op fd events))
unfolding update_epoll_events
epoll-Interest k = record {
  adds = λ l c granted none_. (k.added_ l.epollfd c.fd c.events (ground (arith, granted)) none_).1;
  modifies =
      λ l c x granted one. (k.modified l.epollfd c.fd c.events x (ground (arith, granted)) one).1;
  deletes = λ l c x one. k.deleted_ l.epollfd c.fd c.events x one;
  others = λ l op c fd other. k.kept l.epollfd op c.fd c.events fd other;
}

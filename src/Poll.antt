-- ===== src/Poll.antt =====
-- src/Poller.h, src/Poller.cc, src/PollPoller.cc and src/EPollPoller.cc: which channels a loop
-- watches. The two pollers have the same text but for `update_poll_events`, so what they share
-- takes it as a parameter. `channels_` is a function from descriptors to the addresses of
-- channels; a channel is what the pollers read and write of it. Their DCHECKs, and the CHECK of
-- `remove_channel` that the channel is registered, are not part of the functions.
pub mod Events
pub mod Calls
pub mod Sync
pub mod Agree
pub mod Active
pub mod Tests
use annety.Prelude.{
  ℕ, ◌+◌, ◌-◌, Bool, true, false, ◌&&◌, List, [], ◌∷◌, ◌++◌, Option, none, some, ◌==◌, ltb,
  if◌then◌else◌, length,
}

-- `kChannelPollInit`, `kChannelPollAdded` and `kChannelPollDeleted`.
pub data Status : Type 0 where
  init added deleted : Status

-- `kPollCtlAdd`, `kPollCtlDel` and `kPollCtlMod`.
pub data Op : Type 0 where
  add del mod_ : Op

pub record PolledChannel : Type 0 where
  pub address : ℕ
  pub fd : ℕ
  pub events : ℕ
  pub status : Status

pub record Poller (L : Type 0) : Type 0 where
  pub channels : ℕ → Option ℕ
  pub listen_events : L

abbrev pub set {ℓ} : {A : Type ℓ} → (ℕ → A) → ℕ → A → ℕ → A
set f k a n = if n == k then a else f n

module _ {L : Type 0} (update_poll_events : L → Op → PolledChannel → L) where
  abbrev pub controls : Poller L → Op → PolledChannel → Poller L
  controls p op c = record p { listen_events = update_poll_events p.listen_events op c }

  abbrev pub with_status : PolledChannel → Status → PolledChannel
  with_status c s = record c { status = s }

  pub update_by : Status → Poller L → PolledChannel → Poller L × PolledChannel
  update_by init p c =
      let registered = record p { channels = set p.channels c.fd (some c.address) } in
      (controls registered add (with_status c added), with_status c added)
  update_by deleted p c = (controls p add (with_status c added), with_status c added)
  update_by added p c =
      if c.events == 0 then (controls p del c, with_status c deleted) else (controls p mod_ c, c)

  pub update_channel : Poller L → PolledChannel → Poller L × PolledChannel
  unfolding update_by
  update_channel p c = update_by c.status p c

  pub remove_by : Status → Poller L → PolledChannel → Poller L
  remove_by added p c = controls p del c
  remove_by init p c = p
  remove_by deleted p c = p

  pub remove_channel : Poller L → PolledChannel → Poller L × PolledChannel
  unfolding remove_by
  remove_channel p c =
      let erased = record p { channels = set p.channels c.fd none } in
      (remove_by c.status erased c, with_status c init)

pub has_channel : {L : Type 0} → Poller L → PolledChannel → Bool
has_channel p c = elim (p.channels c.fd) [ none ↦ false | some a ↦ a == c.address ]

-- `struct pollfd`.
pub record Pollfd : Type 0 where
  pub fd : ℕ
  pub events : ℕ
  pub revents : ℕ

-- `listen_events_.erase(it)` and the assignment to `*it`, for the first entry of the descriptor
-- that `find_poll_events` finds.
pub erase_events : ℕ → List Pollfd → List Pollfd
erase_events fd [] = []
erase_events fd (e ∷ es) = let rest = erase_events fd es in if e.fd == fd then es else e ∷ rest

pub modify_events : ℕ → ℕ → List Pollfd → List Pollfd
modify_events fd events [] = []
modify_events fd events (e ∷ es) =
    let rest = modify_events fd events es in
    if e.fd == fd then record e { events = events; revents = 0 } ∷ es else e ∷ rest

-- `PollPoller::update_poll_events`.
pub update_poll_events : List Pollfd → Op → PolledChannel → List Pollfd
unfolding erase_events modify_events
update_poll_events l add c = l ++ (record { fd = c.fd; events = c.events; revents = 0 } ∷ [])
update_poll_events l del c = erase_events c.fd l
update_poll_events l mod_ c = modify_events c.fd c.events l

-- What `epoll_ctl` and `epoll_wait` keep: the interest list of the kernel, and whether a call
-- failed that the program logs as fatal.
pub record EPolled (S : Type 0) : Type 0 where
  pub epollfd : S
  pub fatal : Bool

-- `EPollPoller::update_poll_events`, over `epoll_ctl`: a failure to delete is only logged.
pub update_epoll_events :
    {S : Type 0} → (S → Op → ℕ → ℕ → S × Bool) → EPolled S → Op → PolledChannel → EPolled S
update_epoll_events epoll_ctl l op c =
    let (s, good) = epoll_ctl l.epollfd op c.fd c.events in
    record {
      epollfd = s;
      fatal = elim op [
        | del ↦ l.fatal
        | add ↦ if good then l.fatal else true
        | mod_ ↦ if good then l.fatal else true
      ];
    }

-- `PollPoller::fill_active_channels`: the entries that `poll` marked, until `num` of them are
-- found, each as the channel that `channels_` has for it and what was reported.
pub fill_active_channels : (ℕ → Option ℕ) → ℕ → List Pollfd → List (ℕ × ℕ)
fill_active_channels channels num [] = []
fill_active_channels channels num (e ∷ es) =
    let skipped = fill_active_channels channels num es in
    let rest = fill_active_channels channels (num - 1) es in
    if num == 0
    then []
    else (if ltb 0 e.revents
        then elim (channels e.fd) [ none ↦ rest | some a ↦ (a, e.revents) ∷ rest ]
        else skipped)

-- ===== src/Poll/Calls.antt =====
-- Channels that ask and leave, in any order, through `update_channel` and `remove_channel` of
-- src/PollPoller.cc and src/EPollPoller.cc.
use annety.Prelude.{ℕ, Bool, true, ◌&&◌, ◌||◌, List, [], ◌∷◌, Option, none, some, ◌==◌}
use annety.Poll.{
  Status, init, added, deleted, Op, add, mod_, PolledChannel, Poller, set, update_channel,
  remove_channel,
}

-- The poller, and the channel of each descriptor.
pub record World (L : Type 0) : Type 0 where
  pub poller : Poller L
  pub channels : ℕ → PolledChannel

-- A channel sets the events that it asks for and calls `update`, or it calls `remove`.
pub data Call : Type 0 where
  asks : ℕ → ℕ → Call
  leaves : ℕ → Call

-- What a channel asks for by its status, and what `channels_` has for it.
abbrev pub asked_by : Status → ℕ → List ℕ
asked_by init events = []
asked_by added events = events ∷ []
asked_by deleted events = []

abbrev pub registered_by : Status → ℕ → Option ℕ
registered_by init address = none
registered_by added address = some address
registered_by deleted address = some address

abbrev pub asked : PolledChannel → List ℕ
asked c = asked_by c.status c.events

abbrev pub registered : PolledChannel → Option ℕ
registered c = registered_by c.status c.address

-- New channels, by the address of each descriptor's.
abbrev pub unused : (ℕ → ℕ) → ℕ → PolledChannel
unused address fd = record { address = address fd; fd = fd; events = 0; status = init }

abbrev pub nothing_watched : {L : Type 0} → L → (ℕ → ℕ) → World L
nothing_watched l address = record {
  poller = record { channels = λ fd. none; listen_events = l };
  channels = unused address;
}

module _ {L : Type 0} (control : L → Op → PolledChannel → L) where
  unfoldable pub step : World L → Call → World L
  unfolding update_channel remove_channel
  step w (asks fd events) =
      let r = update_channel control w.poller (record (w.channels fd) { events = events }) in
      record { poller = r.0; channels = set w.channels fd r.1 }
  step w (leaves fd) =
      let r = remove_channel control w.poller (w.channels fd) in
      record { poller = r.0; channels = set w.channels fd r.1 }

  unfoldable pub steps : World L → List Call → World L
  unfolding step
  steps w [] = w
  steps w (c ∷ cs) = steps (step w c) cs

module _ {L : Type 0} (control : L → Op → PolledChannel → L) (grants : L → Op → ℕ → ℕ → Bool) where
  -- Whether the list grants what a call enters, and what all calls of a run enter.
  abbrev pub granted_by : Status → L → ℕ → ℕ → Bool
  granted_by init l fd events = grants l add fd events
  granted_by deleted l fd events = grants l add fd events
  granted_by added l fd events = (events == 0) || grants l mod_ fd events

  abbrev pub granted : World L → Call → Bool
  granted w (asks fd events) =
      let c = w.channels fd in granted_by c.status w.poller.listen_events c.fd events
  granted w (leaves fd) = true

  abbrev pub all_granted : World L → List Call → Bool
  all_granted w [] = true
  all_granted w (c ∷ cs) = granted w c && all_granted (step control w c) cs

-- ===== src/Channel.antt =====
-- src/Channel.h and src/Channel.cc: the events a descriptor asks for, and the dispatch of those
-- that the poller reports. POLLIN and POLLPRI are asked for together, so the two flags are the
-- whole `events_`; the callbacks are functions on the state of the channel's user.
use annety.Prelude.{Bool, true, false, not, ◌&&◌, ◌||◌, if◌then◌else◌}

pub record Channel : Type 0 where
  pub read_event : Bool
  pub write_event : Bool
  pub added_to_loop : Bool

-- `Channel(loop, sfd)`.
unfoldable pub fresh : Channel
fresh = record { read_event = false; write_event = false; added_to_loop = false }

abbrev pub is_none_event : Channel → Bool
is_none_event c = not (c.read_event || c.write_event)

abbrev pub update : Channel → Channel
update c = record c { added_to_loop = true }

abbrev pub disable_all_event : Channel → Channel
disable_all_event c = update (record c { read_event = false; write_event = false })

abbrev pub enable_read_event : Channel → Channel
enable_read_event c = update (record c { read_event = true })

abbrev pub disable_read_event : Channel → Channel
disable_read_event c = update (record c { read_event = false })

abbrev pub enable_write_event : Channel → Channel
enable_write_event c = update (record c { write_event = true })

abbrev pub disable_write_event : Channel → Channel
disable_write_event c = update (record c { write_event = false })

-- `remove`, behind its DCHECK that no event is asked for.
abbrev pub remove : Channel → Channel
remove c = record c { added_to_loop = false }

-- `revents_`.
pub record Revents : Type 0 where
  pub hup : Bool
  pub err : Bool
  pub nval : Bool
  pub in_ : Bool
  pub pri : Bool
  pub out : Bool

abbrev when : {S : Type 0} → Bool → (S → S) → S → S
when b f s = if b then f s else s

abbrev pub handle_event :
    {S : Type 0} (close_cb error_cb read_cb write_cb : S → S) → Revents → S → S
handle_event close_cb error_cb read_cb write_cb r s =
    let s1 = when (r.hup && not r.in_) close_cb s in
    let s2 = when (r.err || r.nval) error_cb s1 in
    let s3 = when (r.in_ || r.pri) read_cb s2 in when r.out write_cb s3

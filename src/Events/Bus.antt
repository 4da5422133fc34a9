-- ===== src/Events/Bus.antt =====
-- internal/events/bus.go: the subscribers of a bus. The channel that Subscribe makes is numbered by
-- `next_id`; a subscription to a closed bus has a channel of its own, closed and under no key.
pub mod Safety
use mcsm.Common.{
  ℕ, ◌+◌, Bool, true, false, Option, none, some, String, List, [], ◌∷◌, if◌then◌else◌, ◌==◌,
}
use mcsm.Channels.{Channel, Store, put, make, close, send_all, close_all, delete, member}

-- The tags of an event, and its other fields in one text.
pub record Event : Type 0 where
  pub kind : String
  pub at : ℕ
  pub fields : String

pub record Bus : Type 0 where
  pub subs : List ℕ
  pub next_id : ℕ
  pub is_closed : Bool
  pub chans : Store Event

abbrev pub sub_buffer : ℕ
sub_buffer = 32

unfoldable pub new_bus : Bus
new_bus = record { subs = []; next_id = 0; is_closed = false; chans = λ i. make 0 }

unfoldable pub subscribe : Bus → Bus
subscribe b = if b.is_closed then b else record b {
  subs = b.next_id ∷ b.subs;
  next_id = b.next_id + 1;
  chans = put b.next_id (make sub_buffer) b.chans;
}

-- The function that Subscribe returns for channel `id`.
unfoldable pub cancel : ℕ → Bus → Option Bus
cancel id b =
    if member id b.subs
    then (elim (close (b.chans id)) [
      | none ↦ none
      | some c ↦ some (record b { subs = delete id b.subs; chans = put id c b.chans })
    ])
    else some b

stamped : ℕ → Event → Event
stamped now e = record e { at = if e.at == 0 then now else e.at }

with_chans : Bus → Option (Store Event) → Option Bus
with_chans b none = none
with_chans b (some s) = some (record b { chans = s })

unfoldable pub publish : ℕ → Event → Bus → Option Bus
unfolding stamped with_chans
publish now e b = with_chans b (send_all (stamped now e) b.subs b.chans)

all_closed : Bus → Option (Store Event) → Option Bus
all_closed b none = none
all_closed b (some s) = some (record b { is_closed = true; subs = []; chans = s })

unfoldable pub close_bus : Bus → Option Bus
unfolding all_closed
close_bus b = if b.is_closed then some b else all_closed b (close_all b.subs b.chans)

-- The calls on a bus; each runs under the bus's mutex.
pub data Call : Type 0 where
  subscribe_call close_call : Call
  cancel_call : ℕ → Call
  publish_call : ℕ → Event → Call

unfoldable pub call : Call → Bus → Option Bus
unfolding subscribe cancel publish close_bus
call subscribe_call b = some (subscribe b)
call close_call b = close_bus b
call (cancel_call id) b = cancel id b
call (publish_call now e) b = publish now e b

pub calls : List Call → Bus → Option Bus
calls [] b = some b
calls (c ∷ cs) b = elim (call c b) [ none ↦ none | some b' ↦ calls cs b' ]

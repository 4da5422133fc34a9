-- ===== src/Logtail/Broadcaster.antt =====
-- internal/logtail/broadcaster.go: the subscribers of a log. A channel is numbered when it is made.
pub mod Safety
use mcsm.Common.{
  ℕ, ◌+◌, ◌<◌, Bool, Option, none, some, List, [], ◌∷◌, if◌then◌else◌, ltb, length, ℤ, pos, negsuc,
}
use mcsm.Channels.{Channel, Store, put, make, close, send_all, close_all, delete, member}

-- `next` is the number of the channel that is made next.
pub record Broadcaster {ℓ} (A : Type ℓ) : Type ℓ where
  pub subscribers : List ℕ
  pub next : ℕ
  pub chans : Store A

unfoldable pub new_broadcaster {ℓ} : {A : Type ℓ} → Broadcaster A
new_broadcaster = record { subscribers = []; next = 0; chans = λ i. make 0 }

-- A buffer below one is one.
buffer_size : ℤ → ℕ
buffer_size (pos n) = if ltb n 1 then 1 else n
buffer_size (negsuc n) = 1

-- The channel, and the broadcaster.
unfoldable pub subscribe {ℓ} : {A : Type ℓ} → ℤ → Broadcaster A → ℕ × Broadcaster A
unfolding buffer_size
subscribe buf b = (
  b.next,
  record b {
    subscribers = b.next ∷ b.subscribers;
    next = b.next + 1;
    chans = put b.next (make (buffer_size buf)) b.chans;
  },
)

unfoldable pub unsubscribe {ℓ} : {A : Type ℓ} → ℕ → Broadcaster A → Option (Broadcaster A)
unsubscribe ch b =
    if member ch b.subscribers
    then (elim (close (b.chans ch)) [
      | none ↦ none
      | some c ↦ some (record b { subscribers = delete ch b.subscribers; chans = put ch c b.chans })
    ])
    else some b

with_chans {ℓ} : {A : Type ℓ} → Broadcaster A → Option (Store A) → Option (Broadcaster A)
with_chans b none = none
with_chans b (some s) = some (record b { chans = s })

unfoldable pub publish {ℓ} : {A : Type ℓ} → A → Broadcaster A → Option (Broadcaster A)
unfolding with_chans
publish e b = with_chans b (send_all e b.subscribers b.chans)

emptied {ℓ} : {A : Type ℓ} → Broadcaster A → Option (Store A) → Option (Broadcaster A)
emptied b none = none
emptied b (some s) = some (record b { subscribers = []; chans = s })

unfoldable pub close_broadcaster {ℓ} : {A : Type ℓ} → Broadcaster A → Option (Broadcaster A)
unfolding emptied
close_broadcaster b = emptied b (close_all b.subscribers b.chans)

unfoldable pub count {ℓ} : {A : Type ℓ} → Broadcaster A → ℕ
count b = length b.subscribers

-- The calls; each holds the broadcaster's mutex.
pub data Call {ℓ} (A : Type ℓ) : Type ℓ where
  subscribe_call : ℤ → Call A
  unsubscribe_call : ℕ → Call A
  publish_call : A → Call A
  close_call : Call A

unfoldable pub call {ℓ} : {A : Type ℓ} → Call A → Broadcaster A → Option (Broadcaster A)
unfolding subscribe unsubscribe publish close_broadcaster
call (subscribe_call buf) b = some (subscribe buf b).1
call (unsubscribe_call ch) b = unsubscribe ch b
call (publish_call e) b = publish e b
call close_call b = close_broadcaster b

unfoldable pub calls {ℓ} : {A : Type ℓ} → List (Call A) → Broadcaster A → Option (Broadcaster A)
calls [] b = some b
calls (c ∷ cs) b = elim (call c b) [ none ↦ none | some b' ↦ calls cs b' ]

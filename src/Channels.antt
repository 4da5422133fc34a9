-- ===== src/Channels.antt =====
-- Go's buffered channels as internal/events/bus.go and internal/logtail/broadcaster.go use them: a
-- send that does not wait, and a close. `none` is the panic of a send on a closed channel and of a
-- second close.
pub mod Laws
pub mod Keys
use mcsm.Common.{
  ℕ, suc, Bool, true, false, Option, none, some, List, [], ◌∷◌, ◌++◌, ltb, ◌==◌, if◌then◌else◌,
  length,
}

pub record Channel {ℓ} (A : Type ℓ) : Type ℓ where
  pub buffer : List A
  pub room : ℕ
  pub is_closed : Bool

-- The channels by their number.
abbrev pub Store {ℓ} : Type ℓ → Type ℓ
Store A = ℕ → Channel A

abbrev pub put {ℓ} : {A : Type ℓ} → ℕ → Channel A → Store A → Store A
put i c s j = if i == j then c else s j

abbrev pub make {ℓ} : {A : Type ℓ} → ℕ → Channel A
make n = record { buffer = []; room = n; is_closed = false }

-- `select { case c <- e: default: }` on an open channel.
unfoldable pub sent {ℓ} : {A : Type ℓ} → A → Channel A → Channel A
sent e c = record c {
  buffer = if ltb (length c.buffer) c.room then c.buffer ++ e ∷ [] else c.buffer;
}

send {ℓ} : {A : Type ℓ} → A → Channel A → Option (Channel A)
send e c = if c.is_closed then none else some (sent e c)

-- `close(c)`
unfoldable pub close {ℓ} : {A : Type ℓ} → Channel A → Option (Channel A)
close c = if c.is_closed then none else some (record c { is_closed = true })

-- The step on the channels of a list, one after the other, until one panics.
each {ℓ} : {A : Type ℓ} → (Channel A → Option (Channel A)) → List ℕ → Store A → Option (Store A)
each f [] s = some s
each f (i ∷ is) s = elim (f (s i)) [ none ↦ none | some c ↦ each f is (put i c s) ]

unfoldable pub send_all {ℓ} : {A : Type ℓ} → A → List ℕ → Store A → Option (Store A)
unfolding each send
send_all e = each (send e)

unfoldable pub close_all {ℓ} : {A : Type ℓ} → List ℕ → Store A → Option (Store A)
unfolding each close
close_all = each close

-- A key is taken out of a map.
unfoldable pub delete : ℕ → List ℕ → List ℕ
delete i [] = []
delete i (j ∷ js) = let rest = delete i js in if i == j then rest else j ∷ rest

unfoldable pub member : ℕ → List ℕ → Bool
member i [] = false
member i (j ∷ js) = if i == j then true else member i js

-- ===== src/Logtail/Broadcaster/Safety.antt =====
-- No sequence of calls makes a broadcaster panic.
use mcsm.Common.{ℕ, ◌≡◌, refl, ap, Bool-cases, inl, inr, some, List, [], ◌∷◌}
use mcsm.Channels.{member}
use mcsm.Channels.Keys.{
  IsTidy, IsTidy-add, IsTidy-remove, IsTidy-send_all, IsTidy-close_all, IsTidy-new,
}
use mcsm.Logtail.Broadcaster.{
  Broadcaster, new_broadcaster, subscribe, unsubscribe, with_chans, publish, emptied,
  close_broadcaster, Call, subscribe_call, unsubscribe_call, publish_call, close_call, call, calls,
  buffer_size,
}

module _ {ℓ} {A : Type ℓ} where
  -- The keys are in order.
  abbrev pub IsSound : Broadcaster A → Type 0
  IsSound b = IsTidy b.subscribers b.next b.chans

  unsubscribe-IsSound :
      (ch : ℕ) (b : Broadcaster A)
      → IsSound b
      → (b' : Broadcaster A) × (unsubscribe ch b ≡ some b') × IsSound b'
  unfolding unsubscribe
  unsubscribe-IsSound ch b h = elim (Bool-cases (member ch b.subscribers)) [
    | inr f ↦ (b, rw f refl, h)
    | inl t ↦
        let (c, p, k) = IsTidy-remove b.subscribers b.next b.chans h ch t in (_, rw (t, p) refl, k)
  ]

  pub publish-IsSound :
      (e : A) (b : Broadcaster A)
      → IsSound b
      → (b' : Broadcaster A) × (publish e b ≡ some b') × IsSound b'
  unfolding publish
  publish-IsSound e b h =
      let (s, p, k) = IsTidy-send_all b.subscribers b.next b.chans h e in
      (_, ap (with_chans b) p, k)

  pub new_broadcaster-IsSound : IsSound new_broadcaster
  unfolding new_broadcaster
  new_broadcaster-IsSound = IsTidy-new _

  call-IsSound :
      (c : Call A) (b : Broadcaster A)
      → IsSound b
      → (b' : Broadcaster A) × (call c b ≡ some b') × IsSound b'
  unfolding call subscribe close_broadcaster
  call-IsSound (subscribe_call buf) b h =
      (_, refl, IsTidy-add b.subscribers b.next b.chans h (buffer_size buf))
  call-IsSound (unsubscribe_call ch) b h = unsubscribe-IsSound ch b h
  call-IsSound (publish_call e) b h = publish-IsSound e b h
  call-IsSound close_call b h =
      let (s, p, k) = IsTidy-close_all b.subscribers b.next b.chans h in (_, ap (emptied b) p, k)

  IsSound-calls :
      (cs : List (Call A)) (b : Broadcaster A)
      → IsSound b
      → (b' : Broadcaster A) × (calls cs b ≡ some b') × IsSound b'
  unfolding calls
  IsSound-calls [] b h = (b, refl, h)
  IsSound-calls (c ∷ cs) b h =
      let (b1, p, h1) = call-IsSound c b h in
      let (b2, q, h2) = IsSound-calls cs b1 h1 in (b2, rw (p, calls) q, h2)

  -- No sequence of calls on a new broadcaster sends on a closed channel or closes one twice, which
  -- would panic. Afterwards the subscribers' channels are open, and every other channel that was
  -- made is closed.
  pub broadcaster_calls-IsSound :
      (cs : List (Call A)) → (b : Broadcaster A) × (calls cs new_broadcaster ≡ some b) × IsSound b
  broadcaster_calls-IsSound cs = IsSound-calls cs new_broadcaster new_broadcaster-IsSound

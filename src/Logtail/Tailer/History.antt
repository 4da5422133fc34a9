-- ===== src/Logtail/Tailer/History.antt =====
-- The history holds the newest entries.
use mcsm.Common.{
  ℕ, zero, suc, ◌-◌, ◌<◌, ◌≡◌, refl, sym, ap, ◌∙◌, Bool-cases, inl, inr, some, List, [], ◌∷◌, ◌++◌,
  append_assoc, append-nil, map, Bytes, ltb, arith, length, drop-nil, last_n, push_last,
  push_last-last_n, ℤ, pos, negsuc,
}
use mcsm.Logtail.Parser.{LogEntry, parse}
use mcsm.Logtail.Broadcaster.Safety.{IsSound, publish-IsSound, new_broadcaster-IsSound}
use mcsm.Logtail.Tailer.{Tailer, new_tailer, positive_or, recent, emit, emit_lines}

emit_lines-history :
    (ls : List Bytes) (now : ℕ) (t : Tailer) (before : List LogEntry)
    → 0 < t.history_n
    → IsSound t.bcast
    → t.history ≡ last_n t.history_n before
    → (t' : Tailer) × (emit_lines now ls t ≡ some t')
      × (t'.history ≡ last_n t.history_n (before ++ map (λ (l : Bytes). parse l now) ls))
unfolding emit_lines emit
emit_lines-history [] now t before p s h =
    (t, refl, h ∙ ap (last_n t.history_n) (sym (append-nil before)))
emit_lines-history (l ∷ ls) now t before p s h =
    let (b, e, k) = publish-IsSound (parse l now) t.bcast s in
    let t1 : Tailer = record t {
      history = push_last t.history_n t.history (parse l now);
      bcast = b;
    } in
    let (t', q, r) = emit_lines-history ls now t1 (before ++ parse l now ∷ []) p k (
      ap (λ x. push_last t.history_n x (parse l now)) h
      ∙ push_last-last_n t.history_n before (parse l now) p) in
    (
      t',
      rw (e, emit_lines) q,
      r ∙ ap (last_n t.history_n) (append_assoc before (parse l now ∷ []) _),
    )

positive : (n : ℤ) → 0 < positive_or 5000 n
unfolding positive_or
positive (pos zero) = omega arith
positive (pos (suc n)) = omega arith
positive (negsuc n) = omega arith

recent-last_n :
    (m : ℤ) (t : Tailer) → recent m t ≡ last_n (positive_or (length t.history) m) t.history
unfolding recent
recent-last_n m t = elim (Bool-cases (ltb (length t.history) (positive_or (length t.history) m))) [
  | inl over ↦
      let all : length t.history - positive_or (length t.history) m ≡ 0 = ground (arith, over) in
      rw (over, all) refl
  | inr f ↦ rw f refl
]

-- A new tailer that has emitted the parsed lines holds the newest of them, as many as its history
-- has room for, in order, and the broadcaster has not panicked; Recent then gives the newest of
-- these, as many as it is asked for.
pub emit_lines-recent :
    (n m : ℤ) (ls : List Bytes) (now : ℕ)
    → (t : Tailer) × (emit_lines now ls (new_tailer n) ≡ some t)
      × (t.history ≡ last_n (positive_or 5000 n) (map (λ (l : Bytes). parse l now) ls))
      × (recent m t ≡ last_n (positive_or (length t.history) m) t.history)
unfolding new_tailer
emit_lines-recent n m ls now =
    let (t, e, h) =
      emit_lines-history ls now (new_tailer n) [] (positive n) new_broadcaster-IsSound
        (sym (drop-nil (0 - positive_or 5000 n))) in
    (t, e, h, recent-last_n m t)

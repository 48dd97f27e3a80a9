-- ===== src/Ring/Recent.antt =====
-- internal/service/metrics_buffer.go and restart_tracker.go: what the readers return after any
-- sequence of pushes.
use mathlib.Core.List.{append-nil, append_assoc}
use nrcc.Base.{
  ℕ, ◌+◌, ◌-◌, ◌<◌, ◌≡◌, refl, ◌∙◌, ap, none, some, false, List, [], ◌∷◌, ◌++◌, min, arith, ltb,
  ◌==◌, if◌then◌else◌, length, drop, length-append, get_elem?-append_length,
}
use nrcc.Ring.{Buffer, new_buffer, recent, restart_events, last, push_all}
use nrcc.Ring.Contents.{Holds, new_buffer-Holds, push-Holds, entry_at-Holds, collect-Holds}

module _ {ℓ} {A : Type ℓ} where
  recent-Holds :
      (b : Buffer A) (xs : List A) (n : ℕ)
      → Holds b xs
      → recent b n ≡ some (drop (length xs - min n b.capacity) xs)
  unfolding recent
  recent-Holds b xs n h =
      let m = if ltb b.count n then b.count else n in
      let cut : length xs - m + 0 ≡ length xs - min n b.capacity = ground (arith, h.counted) in
      collect-Holds b xs m 0 m h (ground arith) (omega arith) ∙ ap (λ k. some (drop k xs)) cut

  push_all-Holds :
      (as' : List A) (b : Buffer A) (xs : List A)
      → Holds b xs
      → (b' : Buffer A) × (push_all as' b ≡ some b')
        × (b'.capacity ≡ b.capacity)
        × Holds b' (xs ++ as')
  unfolding push_all
  push_all-Holds [] b xs h = (b, refl, refl, rw append-nil h)
  push_all-Holds (a ∷ rest) b xs h =
      let (b', did, same, h') = push-Holds a b xs h in
      let (b'', all, same', h'') = push_all-Holds rest b' (xs ++ a ∷ []) h' in
      (b'', rw (did, all), same' ∙ same, rw append_assoc at h'')

  -- Pushing any list into a new ring of positive capacity never panics, and `Recent n` is then the
  -- last n entries of that list, oldest first, or the last `capacity` of them if n is more.
  pub recent-push_all :
      (zero_value : A) (capacity n : ℕ) (xs : List A)
      → 0 < capacity
      → (b : Buffer A) × (push_all xs (new_buffer zero_value capacity) ≡ some b)
        × (recent b n ≡ some (drop (length xs - min n capacity) xs))
  unfolding new_buffer
  recent-push_all z c n xs h =
      let (b, did, same, kept) = push_all-Holds xs (new_buffer z c) [] (new_buffer-Holds z c h) in
      (b, did, recent-Holds b xs n kept ∙ ap (λ k. some (drop (length xs - min n k) xs)) same)

  last-Holds :
      (b : Buffer A) (xs : List A) (a : A) → Holds b (xs ++ a ∷ []) → last b ≡ some (some a)
  unfolding last
  last-Holds b xs a h =
      let longer = length-append xs (a ∷ []) in
      let filled : (b.count == 0) ≡ false = ground (arith, h.counted, h.room, longer) in
      let index : length (xs ++ a ∷ []) - 1 + 0 ≡ length xs = omega (arith, longer) in
      let at_end =
        entry_at-Holds b (xs ++ a ∷ []) 1 0 h (omega (arith, h.counted, h.room, longer))
          (omega arith) in
      rw (filled, last, at_end, index, get_elem?-append_length xs a)

  restart_events-Holds :
      (b : Buffer A) (xs : List A) → Holds b xs → restart_events b ≡ recent b b.capacity
  unfolding restart_events recent
  restart_events-Holds b xs h =
      let whole : (if ltb b.count b.capacity then b.count else b.capacity) ≡ b.count =
        ground (arith, h.counted) in
      rw whole

  -- After a last push of `a`, `Last` is `a`, and `restartEvents` is `Recent` of the whole
  -- capacity; before any push, `Last` is nothing.
  pub last-push_all :
      (zero_value a : A) (capacity : ℕ) (xs : List A)
      → 0 < capacity
      → (b : Buffer A) × (push_all (xs ++ a ∷ []) (new_buffer zero_value capacity) ≡ some b)
        × (last b ≡ some (some a))
        × (restart_events b ≡ recent b capacity)
        × (last (new_buffer zero_value capacity) ≡ some none)
  unfolding new_buffer last
  last-push_all z a c xs h =
      let ys = xs ++ a ∷ [] in
      let (b, did, same, kept) = push_all-Holds ys (new_buffer z c) [] (new_buffer-Holds z c h) in
      (b, did, last-Holds b xs a kept, restart_events-Holds b ys kept ∙ ap (recent b) same, refl)

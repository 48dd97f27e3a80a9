-- ===== src/Ring/Contents.antt =====
-- internal/service/metrics_buffer.go and restart_tracker.go: the ring is the list of all that was
-- pushed, cut to its last `capacity` entries.
use native.Mathlib.Decide.{dec_lt, ℕ_discrete}
use native.Mathlib.Nat.{zero-mod, mod-lt, mod-eq_of_lt, mod-add-mod, add-mod_right, mod-eq-sub-mod}
use nrcc.Base.{
  ℕ, zero, suc, ◌+◌, ◌-◌, ◌%◌, ◌≤◌, ◌<◌, ◌≡◌, ◌≢◌, refl, sym, ◌∙◌, ap, some, true, false, List, [],
  ◌∷◌, ◌++◌, min, arith, ltb, ◌==◌, if◌then◌else◌, length, get_elem?, set, drop, length-append,
  length-replicate, length-set, get_elem?-set_self, get_elem?-set_ne, get_elem?-append_left,
  get_elem?-append_length, get_elem?-drop, drop-length,
}
use nrcc.Ring.{Buffer, new_buffer, push, entry_at, collect}

wrap : (r d c : ℕ) → r < c → d < c → (r + d) % c ≡ (if ltb (r + d) c then r + d else r + d - c)
wrap r d c hr hd = elim (dec_lt (r + d) c) [
  | yes small ↦ rw (mod-eq_of_lt small) (ground arith)
  | no big ↦
      rw (mod-eq-sub-mod {n = r + d} {m = c} (omega arith))
        (rw (mod-eq_of_lt {n = r + d - c} {m = c} (omega arith)) (ground arith))
]

mod_apart : (j l c : ℕ) → j < l → l < j + c → l % c ≢ j % c
mod_apart j l c h k e =
    let split : l ≡ j + (l - j) = omega arith in
    let moved = mod-add-mod j c (l - j) in
    let small = mod-lt j {m = c} (omega arith) in
    let stepped = wrap (j % c) (l - j) c small (omega arith) in
    ground (arith, moved, stepped, ap (λ n. n % c) split)

module _ {ℓ} {A : Type ℓ} where
  -- The last `capacity` of `xs` stand in the ring, each at its index modulo the capacity.
  pub record Holds (b : Buffer A) (xs : List A) : Type ℓ where
    pub room : 0 < b.capacity
    pub full_length : length b.entries ≡ b.capacity
    pub next : b.head ≡ length xs % b.capacity
    pub counted : b.count ≡ min (length xs) b.capacity
    pub kept :
        (j : ℕ)
        → j < length xs
        → length xs ≤ j + b.capacity
        → get_elem? b.entries (j % b.capacity) ≡ get_elem? xs j

  pub new_buffer-Holds : (z : A) (c : ℕ) → 0 < c → Holds (new_buffer z c) []
  unfolding new_buffer
  new_buffer-Holds z c h = record {
    room = h;
    full_length = length-replicate c z;
    next = sym (zero-mod c);
    counted = omega arith;
    kept = λ j lt _. elim lt [ ];
  }

  pushed_kept :
      (a : A) (b : Buffer A) (xs : List A) (j : ℕ)
      → Holds b xs
      → j < suc (length xs)
      → suc (length xs) ≤ j + b.capacity
      → get_elem? (set b.entries b.head a) (j % b.capacity) ≡ get_elem? (xs ++ a ∷ []) j
  pushed_kept a b xs j h lt le = elim (ℕ_discrete j (length xs)) [
    | yes e ↦
        rw (e, h.next, get_elem?-append_length xs a)
          (get_elem?-set_self b.entries (length xs % b.capacity) a
            (omega (arith, h.full_length, mod-lt (length xs) h.room)))
    | no ne ↦
        let apart = mod_apart j (length xs) b.capacity (omega arith) (omega arith) in
        rw (get_elem?-append_left xs (a ∷ []) j (omega arith), h.next)
          (get_elem?-set_ne b.entries (length xs % b.capacity) (j % b.capacity) a apart
            ∙ h.kept j (omega arith) (omega arith))
  ]

  pushed :
      (a : A) (b : Buffer A) (xs : List A)
      → Holds b xs
      → Holds
          (record {
            entries = set b.entries b.head a;
            head = (b.head + 1) % b.capacity;
            count = if ltb b.count b.capacity then b.count + 1 else b.count;
            capacity = b.capacity;
          })
          (xs ++ a ∷ [])
  pushed a b xs h =
      let longer = length-append xs (a ∷ []) in
      record {
        room = h.room;
        full_length = length-set b.entries b.head a ∙ h.full_length;
        next = rw (h.next, longer) (mod-add-mod (length xs) b.capacity 1);
        counted = ground (arith, h.counted, longer);
        kept = λ j lt le. pushed_kept a b xs j h (omega (arith, longer)) (omega (arith, longer));
      }

  pub push-Holds :
      (a : A) (b : Buffer A) (xs : List A)
      → Holds b xs
      → (b' : Buffer A) × (push a b ≡ some b')
        × (b'.capacity ≡ b.capacity)
        × Holds b' (xs ++ a ∷ [])
  unfolding push
  push-Holds a b xs h =
      let b' : Buffer A = record {
        entries = set b.entries b.head a;
        head = (b.head + 1) % b.capacity;
        count = if ltb b.count b.capacity then b.count + 1 else b.count;
        capacity = b.capacity;
      } in
      let inside = mod-lt (length xs) h.room in
      let within : ltb b.head (length b.entries) ≡ true = ground (arith, h, inside) in
      let nonzero : (b.capacity == 0) ≡ false = ground (arith, h.room) in
      (b', rw (within, nonzero, push), refl, pushed a b xs h)

  pub entry_at-Holds :
      (b : Buffer A) (xs : List A) (n i : ℕ)
      → Holds b xs
      → n ≤ b.count
      → i < n
      → entry_at b n i ≡ get_elem? xs (length xs - n + i)
  unfolding entry_at
  entry_at-Holds b xs n i h le lt =
      let c = b.capacity in
      let l = length xs in
      let nonzero : (c == 0) ≡ false = ground (arith, h.room) in
      let j = l - n + i in
      let regroup : l % c + c + i - n ≡ l % c + (c + i - n) = omega (arith, h.counted) in
      let shift : l + (c + i - n) ≡ l - n + i + c = omega (arith, h.counted) in
      let index : (b.head + c + i - n) % c ≡ j % c =
        rw (h.next, regroup)
          (mod-add-mod l c (c + i - n) ∙ ap (λ m. m % c) shift ∙ add-mod_right j c) in
      rw (nonzero, entry_at, index) (h.kept j (omega (arith, h.counted)) (omega (arith, h.counted)))

  pub collect-Holds :
      (b : Buffer A) (xs : List A) (n i k : ℕ)
      → Holds b xs
      → n ≤ b.count
      → i + k ≡ n
      → collect b n i k ≡ some (drop (length xs - n + i) xs)
  unfolding collect
  collect-Holds b xs n i zero h le e =
      let whole : length xs - n + i ≡ length xs = omega (arith, h.counted) in
      rw (whole, drop-length xs)
  collect-Holds b xs n i (suc k) h le e =
      let (x, at_j, cut) = get_elem?-drop xs (length xs - n + i) (omega (arith, h.counted)) in
      let next : length xs - n + (i + 1) ≡ suc (length xs - n + i) = omega arith in
      rw (
        entry_at-Holds b xs n i h le (omega arith),
        at_j,
        collect-Holds b xs n (i + 1) k h le (omega arith),
        next,
        cut,
      )

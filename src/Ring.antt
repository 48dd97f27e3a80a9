-- ===== src/Ring.antt =====
-- internal/service/metrics_buffer.go and restart_tracker.go: the two bounded histories, which are
-- one ring over different entries. `none` is a panic: an index out of range, or `%` by zero.
pub mod Contents
pub mod Recent
pub mod Tests
use mathlib.Core.Option
use nrcc.Base.{
  ℕ, zero, suc, ◌+◌, ◌-◌, ◌%◌, Option, none, some, List, [], ◌∷◌, ltb, ◌==◌, if◌then◌else◌, length,
  get_elem?, set, replicate,
}

-- `MetricsBuffer` over snapshots, `restartTracker` over restart events.
pub record Buffer {ℓ} (A : Type ℓ) : Type ℓ where
  pub entries : List A
  pub head : ℕ
  pub count : ℕ
  pub capacity : ℕ

infixl 5 ◌>>=◌
abbrev pub ◌>>=◌ {ℓ κ} : {A : Type ℓ} {B : Type κ} → Option A → (A → Option B) → Option B
none >>= f = none
some a >>= f = f a

module _ {ℓ} {A : Type ℓ} where
  -- `NewMetricsBuffer`, `newRestartTracker`: `make` fills with the zero value.
  unfoldable pub new_buffer : A → ℕ → Buffer A
  new_buffer zero_value capacity = record {
    entries = replicate capacity zero_value;
    head = 0;
    count = 0;
    capacity = capacity;
  }

  -- `Push`, `push`
  unfoldable pub push : A → Buffer A → Option (Buffer A)
  push a b =
      if ltb b.head (length b.entries)
      then (if b.capacity == 0
          then none
          else some (record {
            entries = set b.entries b.head a;
            head = (b.head + 1) % b.capacity;
            count = if ltb b.count b.capacity then b.count + 1 else b.count;
            capacity = b.capacity;
          }))
      else none

  -- The entry that is `n - i` pushes back. The source adds the capacity last; the sum is the same,
  -- since `n` is at most the capacity.
  unfoldable pub entry_at : Buffer A → ℕ → ℕ → Option A
  entry_at b n i =
      if b.capacity == 0
      then none
      else get_elem? b.entries ((b.head + b.capacity + i - n) % b.capacity)

  -- The loop of `Recent` and `restartEvents`, from index `i` with `k` rounds left.
  unfoldable pub collect : Buffer A → ℕ → ℕ → ℕ → Option (List A)
  collect b n i zero = some []
  collect b n i (suc k) = do x ← entry_at b n i; rest ← collect b n (i + 1) k; some (x ∷ rest)

  -- `Recent`
  unfoldable pub recent : Buffer A → ℕ → Option (List A)
  unfolding collect entry_at
  recent b n = let m = if ltb b.count n then b.count else n in collect b m 0 m

  -- `restartEvents`
  unfoldable pub restart_events : Buffer A → Option (List A)
  unfolding collect entry_at
  restart_events b = collect b b.count 0 b.count

  -- `Last`: nothing in an empty buffer.
  unfoldable pub last : Buffer A → Option (Option A)
  unfolding entry_at
  last b = if b.count == 0 then some none else Option.map some (entry_at b 1 0)

  unfoldable pub push_all : List A → Buffer A → Option (Buffer A)
  unfolding push
  push_all [] b = some b
  push_all (a ∷ rest) b = do b' ← push a b; push_all rest b'

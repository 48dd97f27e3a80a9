-- ===== src/Throttle.antt =====
-- internal/middleware/throttle.go: the in-memory counter that sheds volume per client address.
-- Times and the period are nanoseconds; `-` stops at 0 where the clock ran backwards.
pub mod Window
pub mod Tests
use nrcc.Base.{
  ℕ, ◌+◌, ◌-◌, String, Bool, true, false, Option, none, some, List, [], ◌∷◌, ltb, leb,
  if◌then◌else◌,
}
use nrcc.Base.Assoc.{lookup, insert}

pub record HitWindow : Type 0 where
  pub count : ℕ
  pub start : ℕ

pub record Throttle : Type 0 where
  pub hits : List (String × HitWindow)
  pub limit : ℕ
  pub period : ℕ

-- The sweep at the head of `allow`.
unfoldable pub sweep : ℕ → ℕ → List (String × HitWindow) → List (String × HitWindow)
sweep period now [] = []
sweep period now ((k, win) ∷ hits) =
    let rest = sweep period now hits in
    if leb period (now - win.start) then rest else (k, win) ∷ rest

abbrev pub first_hit : ℕ → HitWindow
first_hit now = record { count = 1; start = now }

abbrev pub one_more : HitWindow → HitWindow
one_more win = record win { count = win.count + 1 }

-- `allow`: whether the request is blocked, and for how long.
unfoldable pub allow : Throttle → String → ℕ → Throttle × Bool × ℕ
allow t ip now =
    let swept = record t { hits = sweep t.period now t.hits } in
    elim (lookup ip swept.hits) [
      | none ↦ (record swept { hits = insert ip (first_hit now) swept.hits }, false, 0)
      | some win ↦
          let t' = record swept { hits = insert ip (one_more win) swept.hits } in
          if ltb t.limit (win.count + 1)
          then (t', true, t.period - (now - win.start))
          else (t', false, 0)
    ]

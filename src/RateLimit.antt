-- ===== src/RateLimit.antt =====
-- internal/middleware/ratelimit.go: the lockout that guards credentials. Times are nanoseconds
-- since Go's zero time, which is 0 here; a call reads the clock once, and `-` stops at 0 where the
-- source's difference is negative, which no comparison below tells apart. The subtractions of a
-- returned delay do not go below 0. Each of `check`, `record_attempt` and `reset` is one region under
-- the lock.
pub mod Window
pub mod Keys
pub mod Tests
use nrcc.Base.{
  ℕ, ◌+◌, ◌-◌, ◌*◌, String, Bool, true, false, not, ◌&&◌, ◌||◌, Option, none, some, List, [], ◌∷◌,
  ltb, leb, ◌==◌, if◌then◌else◌, str_eq,
}
use nrcc.Base.Assoc.{lookup, insert, erase}

abbrev pub max_attempts : ℕ
max_attempts = 6

abbrev pub window_duration : ℕ
window_duration = 15 * 60 * 1000000000

pub record Attempt : Type 0 where
  pub count : ℕ
  pub first_at : ℕ
  pub locked_until : ℕ

abbrev pub Attempts : Type 0
Attempts = List (String × Attempt)

-- `saved` is the text of ratelimit.json, if the file is there.
pub record RateLimiter : Type 0 where
  pub attempts : Attempts
  pub data_dir : String
  pub saved : Option String

-- What os.WriteFile did: the file holds the whole text, or it stays as it was, or it was truncated
-- and holds what was written until the failure.
pub data WriteAnswer : Type 0 where
  written : WriteAnswer
  refused : WriteAnswer
  cut_short : String → WriteAnswer

-- What the library and the disk do at one call of `persist`: json.Marshal, where it succeeds, and
-- the write.
pub record Saving : Type 0 where
  pub marshal : Attempts → Option String
  pub answer : WriteAnswer

-- The file after the write of a text.
abbrev pub file_after : WriteAnswer → String → Option String → Option String
file_after written text old = some text
file_after refused text old = old
file_after (cut_short left) text old = some left

-- `persist`: no directory, no file; a failure is ignored.
unfoldable pub persist : Saving → RateLimiter → RateLimiter
persist saving rl = if str_eq rl.data_dir "" then rl else elim (saving.marshal rl.attempts) [
  | none ↦ rl
  | some text ↦ record rl { saved = file_after saving.answer text rl.saved }
]

-- `load` into the empty table: json.Unmarshal is a parameter, with the table that it leaves where it
-- fails too. A file with a null, which it turns into a nil map or a nil entry, is left out.
abbrev pub load : (String → Attempts) → Option String → Attempts
load unmarshal none = []
load unmarshal (some text) = unmarshal text

-- `NewRateLimiter`
unfoldable pub new_rate_limiter : (String → Attempts) → String → Option String → RateLimiter
new_rate_limiter unmarshal data_dir saved = record {
  attempts = if str_eq data_dir "" then [] else load unmarshal saved;
  data_dir = data_dir;
  saved = saved;
}

abbrev pub lapsed : ℕ → Attempt → Bool
lapsed now a = ltb window_duration (now - a.first_at)

abbrev pub locked : Attempt → Attempt
locked a = record a { locked_until = a.first_at + window_duration }

-- `Check`: whether the key is blocked, and for how long.
check_found : Saving → RateLimiter → String → ℕ → Attempt → RateLimiter × Bool × ℕ
unfolding persist
check_found saving rl key now a =
    if not (a.locked_until == 0) && ltb now a.locked_until
    then (rl, true, a.locked_until - now)
    else if lapsed now a
    then (record rl { attempts = erase key rl.attempts }, false, 0)
    else if leb max_attempts a.count
    then (
      persist saving (record rl { attempts = insert key (locked a) rl.attempts }),
      true,
      a.first_at + window_duration - now,
    )
    else (rl, false, 0)

unfoldable pub check : Saving → RateLimiter → String → ℕ → RateLimiter × Bool × ℕ
unfolding check_found
check saving rl key now = elim (lookup key rl.attempts) [
  | none ↦ (rl, false, 0)
  | some a ↦ check_found saving rl key now a
]

abbrev pub first_attempt : ℕ → Attempt
first_attempt now = record { count = 1; first_at = now; locked_until = 0 }

abbrev pub counted : Attempt → Attempt
counted a =
    let b = record a { count = a.count + 1 } in
    if leb max_attempts (a.count + 1) then locked b else b

abbrev pub next_attempt : Option Attempt → ℕ → Attempt
next_attempt none now = first_attempt now
next_attempt (some a) now = if lapsed now a then first_attempt now else counted a

-- `Record`: one more failed attempt.
unfoldable pub record_attempt : Saving → RateLimiter → String → ℕ → RateLimiter
unfolding persist
record_attempt saving rl key now =
    persist saving
      (record rl { attempts = insert key (next_attempt (lookup key rl.attempts) now) rl.attempts })

-- `Reset`
unfoldable pub reset : Saving → RateLimiter → String → RateLimiter
unfolding persist
reset saving rl key = persist saving (record rl { attempts = erase key rl.attempts })

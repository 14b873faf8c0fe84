-- ===== src/Auth/RateLimit.antt =====
-- src/server/auth/rate-limit.ts: the attempts of a client are counted in windows of ten minutes. A
-- time is a number of milliseconds, which the texts of the table write exactly. The hash of a key is a
-- parameter, and an attempt runs without interference.
pub mod Limited
use sozan.Common.{
  ℕ, ◌+◌, ◌-◌, ◌*◌, String, Bool, true, false, ◌||◌, Option, none, some, List, [], ◌∷◌, ltb, leb,
  str_eq, if◌then◌else◌,
}
use sozan.Common.Results.{Result, ok, err, auth_rate_limited}

abbrev pub window_ms : ℕ
window_ms = 600000

abbrev pub block_ms : ℕ
block_ms = 900000

abbrev pub max_attempts : ℕ
max_attempts = 10

-- A row of core_auth_rate_limits.
pub record Bucket : Type 0 where
  pub window_started_at : ℕ
  pub attempts : ℕ
  pub blocked_until : Option ℕ

abbrev pub is_after : Option ℕ → ℕ → Bool
is_after none now = false
is_after (some time) now = ltb now time

abbrev pub is_blocked : Option Bucket → ℕ → Bool
is_blocked none now = false
is_blocked (some row) now = is_after row.blocked_until now

-- `!row || now - windowStartedAt >= WINDOW_MS`; a window that starts later than now has not expired.
abbrev pub window_expired : Option Bucket → ℕ → Bool
window_expired none now = true
window_expired (some row) now = leb window_ms (now - row.window_started_at)

-- The row of one attempt more.
abbrev pub counted : ℕ → ℕ → ℕ → Bucket
counted started attempts now = record {
  window_started_at = started;
  attempts = attempts;
  blocked_until = if ltb max_attempts attempts then some (now + block_ms) else none;
}

abbrev pub next_row : Option Bucket → ℕ → Bucket
next_row none now = counted now 1 now
next_row (some row) now =
    if window_expired (some row) now
    then counted now 1 now
    else counted row.window_started_at (row.attempts + 1) now

abbrev pub refuses : Option ℕ → Bool
refuses none = false
refuses (some time) = true

abbrev pub stored : Bucket → Result (Unit {0}) × Option Bucket
stored row = (if refuses row.blocked_until then err auth_rate_limited else ok tt, some row)

-- An attempt on the row of its key.
unfoldable pub consume : ℕ → Option Bucket → Result (Unit {0}) × Option Bucket
consume now row =
    if is_blocked row now then (err auth_rate_limited, row) else stored (next_row row now)

unfoldable pub consume_auth_attempt :
    (String → String → String)
    → String
    → String
    → ℕ
    → (String → Option Bucket)
    → Result (Unit {0}) × (String → Option Bucket)
consume_auth_attempt key_of kind client now table =
    let key = key_of kind client in
    let out = consume now (table key) in (out.0, λ k. if str_eq k key then out.1 else table k)

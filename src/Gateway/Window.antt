-- ===== src/Gateway/Window.antt =====
-- app/gateway/limiter.py, `SlidingWindowCounter`: the times of the requests that were let through
-- within the window, oldest first.
pub mod Quota
use agent_learn.Base.{
  ℕ, ◌+◌, Bool, true, false, List, [], ◌∷◌, ◌++◌, ltb, leb, if◌then◌else◌, length,
}

pub record Counter : Type 0 where
  pub limit : ℕ
  pub window_ms : ℕ
  pub marks : List ℕ
  pub rejected : ℕ

unfoldable pub new : ℕ → ℕ → Counter
new limit window_ms = record { limit = limit; window_ms = window_ms; marks = []; rejected = 0 }

-- The `while` loop: marks at or before `now_ms - window_ms` leave on the left.
unfoldable pub evict : ℕ → ℕ → List ℕ → List ℕ
evict window_ms now_ms [] = []
evict window_ms now_ms (m ∷ ms) =
    let rest = evict window_ms now_ms ms in if leb (m + window_ms) now_ms then rest else m ∷ ms

unfoldable pub allow : Counter → ℕ → Counter × Bool
allow c now_ms =
    let kept = evict c.window_ms now_ms c.marks in
    if ltb (length kept) c.limit
    then (record c { marks = kept ++ now_ms ∷ [] }, true)
    else (record c { marks = kept; rejected = c.rejected + 1 }, false)

unfoldable pub used : Counter → ℕ
used c = length c.marks

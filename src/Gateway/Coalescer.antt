-- ===== src/Gateway/Coalescer.antt =====
-- app/gateway/coalescer.py: one flight for each key, and the requests that wait for it. The
-- dictionary `_inflight` is an association list in the order in which the keys came.
pub mod Riders
use agent_learn.Base.{
  ℕ, ◌+◌, Bool, true, false, Option, none, some, List, [], ◌∷◌, ◌++◌, length, lookup, insert, erase,
  if◌then◌else◌, not,
}
use agent_learn.Gateway.Request.{Request}

pub record Flight : Type 0 where
  pub key : ℕ
  pub leader : Request
  pub started_ms : ℕ
  pub waiters : List Request

pub record Coalescer : Type 0 where
  pub inflight : List (ℕ × Flight)
  pub flights : ℕ
  pub joined : ℕ
  pub abandoned : ℕ

unfoldable pub new : Coalescer
new = record { inflight = []; flights = 0; joined = 0; abandoned = 0 }

unfoldable pub board : Coalescer → Request → Option Flight → Coalescer × Bool
board c req none = (c, false)
board c req (some f) = (
  record c {
    inflight = insert req.cache_key (record f { waiters = f.waiters ++ req ∷ [] }) c.inflight;
    joined = c.joined + 1;
  },
  true,
)

unfoldable pub join : Coalescer → Request → Coalescer × Bool
join c req = if req.coalescable then board c req (lookup req.cache_key c.inflight) else (c, false)

unfoldable pub start : Coalescer → Request → ℕ → Coalescer
start c req now_ms = record c {
  inflight =
      insert req.cache_key
        (record { key = req.cache_key; leader = req; started_ms = now_ms; waiters = [] })
        c.inflight;
  flights = c.flights + 1;
}

abbrev pub waiters_of : Option Flight → List Request
waiters_of none = []
waiters_of (some f) = f.waiters

unfoldable pub complete : Coalescer → ℕ → Coalescer × List Request
complete c key = (record c { inflight = erase key c.inflight }, waiters_of (lookup key c.inflight))

unfoldable pub abandon : Coalescer → ℕ → Coalescer × List Request
abandon c key =
    let ws = waiters_of (lookup key c.inflight) in
    (record c { inflight = erase key c.inflight; abandoned = c.abandoned + length ws }, ws)

unfoldable pub drop_waiters_of : Coalescer → Request → Coalescer × List Request
drop_waiters_of c req = abandon c req.cache_key

unfoldable pub orphans : List (ℕ × Flight) → List Request
orphans [] = []
orphans (f ∷ fs) = f.1.waiters ++ orphans fs

unfoldable pub drain_all : Coalescer → Coalescer × List Request
drain_all c = (record c { inflight = [] }, orphans c.inflight)

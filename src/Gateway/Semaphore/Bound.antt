-- ===== src/Gateway/Semaphore/Bound.antt =====
-- The bound of the semaphore over any sequence of calls.
use agent_learn.Base.{ℕ, suc, ◌+◌, ◌≤◌, ◌≡◌, List, [], ◌∷◌, arith, max}
use agent_learn.Gateway.Semaphore.{Semaphore, new, try_acquire, release, set_limit}

pub data Call : Type 0 where
  acquires releases : Call
  limits : ℕ → Call

abbrev pub step : Semaphore → Call → Semaphore
step s acquires = (try_acquire s).0
step s releases = release s
step s (limits n) = set_limit s n

pub run : Semaphore → List Call → Semaphore
run s [] = s
run s (c ∷ cs) = run (step s c) cs

-- The largest limit that was in force.
abbrev pub highest : ℕ → List Call → ℕ
highest n [] = n
highest n (limits m ∷ cs) = max n (highest (max 1 m) cs)
highest n (acquires ∷ cs) = highest n cs
highest n (releases ∷ cs) = highest n cs

abbrev pub count_releases : List Call → ℕ
count_releases [] = 0
count_releases (releases ∷ cs) = suc (count_releases cs)
count_releases (acquires ∷ cs) = count_releases cs
count_releases (limits n ∷ cs) = count_releases cs

highest-le : (n : ℕ) (cs : List Call) → n ≤ highest n cs
highest-le n [] = omega arith
highest-le n (limits m ∷ cs) = omega arith
highest-le n (acquires ∷ cs) = highest-le n cs
highest-le n (releases ∷ cs) = highest-le n cs

try_acquire-limit : (s : Semaphore) → (try_acquire s).0.limit ≡ s.limit
unfolding try_acquire
try_acquire-limit s = ground arith

release-limit : (s : Semaphore) → (release s).limit ≡ s.limit
unfolding release
release-limit s = ground arith

try_acquire-bounded :
    (s : Semaphore) (top : ℕ) → s.inflight ≤ top → s.limit ≤ top → (try_acquire s).0.inflight ≤ top
unfolding try_acquire
try_acquire-bounded s top h k = ground arith

release-bounded : (s : Semaphore) (top : ℕ) → s.inflight ≤ top → (release s).inflight ≤ top
unfolding release
release-bounded s top h = ground arith

run-bounded :
    (s : Semaphore) (cs : List Call) (top : ℕ)
    → s.inflight ≤ top
    → highest s.limit cs ≤ top
    → (run s cs).inflight ≤ top
unfolding run set_limit
run-bounded s [] top h k = h
run-bounded s (acquires ∷ cs) top h k =
    let first = highest-le s.limit cs in
    run-bounded (try_acquire s).0 cs top (try_acquire-bounded s top h (omega arith))
      (rw (try_acquire-limit s) k)
run-bounded s (releases ∷ cs) top h k =
    run-bounded (release s) cs top (release-bounded s top h) (rw (release-limit s) k)
run-bounded s (limits m ∷ cs) top h k = run-bounded (set_limit s m) cs top h (omega arith)

try_acquire-balance :
    (s : Semaphore) (freed : ℕ)
    → s.acquired_total ≤ s.inflight + freed
    → (try_acquire s).0.acquired_total ≤ (try_acquire s).0.inflight + freed
unfolding try_acquire
try_acquire-balance s freed h = ground arith

release-balance :
    (s : Semaphore) (freed : ℕ)
    → s.acquired_total ≤ s.inflight + freed
    → (release s).acquired_total ≤ (release s).inflight + (freed + 1)
unfolding release
release-balance s freed h = ground arith

run-balance :
    (s : Semaphore) (cs : List Call) (freed : ℕ)
    → s.acquired_total ≤ s.inflight + freed
    → (run s cs).acquired_total ≤ (run s cs).inflight + (freed + count_releases cs)
unfolding run set_limit
run-balance s [] freed h = omega arith
run-balance s (acquires ∷ cs) freed h =
    run-balance (try_acquire s).0 cs freed (try_acquire-balance s freed h)
run-balance s (releases ∷ cs) freed h =
    let rest = run-balance (release s) cs (freed + 1) (release-balance s freed h) in omega arith
run-balance s (limits m ∷ cs) freed h = run-balance (set_limit s m) cs freed h

-- Whatever the sequence of acquisitions, releases and changes of the limit, a new semaphore
-- never holds more calls in flight than the largest limit in force, and every acquisition it has
-- counted is still in flight or was given back by one of the releases.
pub semaphore_bound :
    (limit : ℕ) (cs : List Call)
    → ((run (new limit) cs).inflight ≤ highest limit cs)
      × ((run (new limit) cs).acquired_total ≤ (run (new limit) cs).inflight + count_releases cs)
unfolding new
semaphore_bound limit cs =
    let balance = run-balance (new limit) cs 0 (omega arith) in
    (run-bounded (new limit) cs (highest limit cs) (omega arith) (omega arith), omega arith)

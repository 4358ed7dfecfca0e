-- ===== src/Gateway/Breaker/Probes.antt =====
-- The probes of a breaker that is half open.
use agent_learn.Base.{
  ℕ, zero, suc, ◌+◌, ◌≤◌, ◌<◌, ◌≡◌, refl, ap, subst, length, Bool, true, false, some, List, [], ◌∷◌,
  arith, leb, All,
}
use native.Mathlib.Numerals.{add-one}
use agent_learn.Gateway.Request.{closed, open_state, half_open}
use agent_learn.Gateway.Breaker.{
  Config, Breaker, allow, allow_in, probe, trip, record_probe, record_in, record_result,
}

-- `n` probes that succeed, at the time `t`.
pub succeed : Config → Breaker → ℕ → ℕ → Breaker
succeed c b t zero = b
succeed c b t (suc n) = record_result c (succeed c b t n) true t

-- `n` requests that ask one after the other, all at the time `t`, with no result in between.
pub ask : Config → Breaker → ℕ → ℕ → Breaker × List Bool
ask c b t zero = (b, [])
ask c b t (suc n) = let rest = ask c (allow c b t).0 t n in (rest.0, (allow c b t).1 ∷ rest.1)

ltb_leb : (m n : ℕ) → n < m → leb m n ≡ false
ltb_leb m n h = ground arith

-- Half open, with `n` probes recorded since the breaker opened.
abbrev pub Probed : ℕ → Breaker → Type 0
Probed n b = (b.state ≡ half_open) × (b.half_open_probes ≡ n)

record_result-Probed :
    (c : Config) (b : Breaker) (n t : ℕ)
    → c.breaker_enabled ≡ true
    → Probed n b
    → n + 1 < c.breaker_half_open_probes
    → Probed (n + 1) (record_result c b true t)
unfolding record_result record_in record_probe
record_result-Probed c b n t on (h, p) more =
    rw (on, h, p, ltb_leb c.breaker_half_open_probes (n + 1) more) (refl, refl)

succeed-Probed :
    (c : Config) (b : Breaker) (n t : ℕ)
    → c.breaker_enabled ≡ true
    → Probed 0 b
    → n < c.breaker_half_open_probes
    → Probed n (succeed c b t n)
unfolding succeed
succeed-Probed c b zero t on h more = h
succeed-Probed c b (suc n) t on h more =
    subst (λ m. Probed m (succeed c b t (suc n))) (add-one n)
      (record_result-Probed c (succeed c b t n) n t on (succeed-Probed c b n t on h (omega arith))
        (omega arith))

record_result-closes :
    (c : Config) (b : Breaker) (n t : ℕ)
    → c.breaker_enabled ≡ true
    → Probed n b
    → c.breaker_half_open_probes ≡ n + 1
    → (record_result c b true t).state ≡ closed
unfolding record_result record_in record_probe
record_result-closes c b n t on (h, p) last = rw (on, h, p, enough) refl
  where
    enough : leb c.breaker_half_open_probes (n + 1) ≡ true
    enough = ground arith

record_result-reopens :
    (c : Config) (b : Breaker) (n t : ℕ)
    → c.breaker_enabled ≡ true
    → Probed n b
    → ((record_result c b false t).state ≡ open_state)
      × ((record_result c b false t).opened_ms ≡ some t)
unfolding record_result record_in record_probe trip
record_result-reopens c b n t on (h, p) = rw (on, h) (refl, refl)

-- Of an enabled breaker that has just become half open, with a positive number of probes asked for:
-- as long as fewer results have come in, all of them successes, it stays half open, and the next
-- failure opens it again, with a new cooldown; the success that completes the number closes it.
pub probes-settle :
    (c : Config) (b : Breaker) (n t : ℕ)
    → c.breaker_enabled ≡ true
    → Probed 0 b
    → n < c.breaker_half_open_probes
    → Probed n (succeed c b t n)
      × ((record_result c (succeed c b t n) false t).state ≡ open_state)
      × ((record_result c (succeed c b t n) false t).opened_ms ≡ some t)
      × (c.breaker_half_open_probes ≡ n + 1
          → (record_result c (succeed c b t n) true t).state ≡ closed)
probes-settle c b n t on h more =
    let here = succeed-Probed c b n t on h more in
    let failed = record_result-reopens c (succeed c b t n) n t on here in
    (here, failed.0, failed.1, record_result-closes c (succeed c b t n) n t on here)

allow-probes :
    (c : Config) (b : Breaker) (t : ℕ)
    → c.breaker_enabled ≡ true
    → Probed 0 b
    → 1 ≤ c.breaker_half_open_probes
    → allow c b t ≡ (b, true)
unfolding allow allow_in probe
allow-probes c b t on (h, p) some_probe =
    rw (on, h, p, ltb_leb c.breaker_half_open_probes 0 (omega arith)) refl

-- The number of probes bounds the results that are recorded, not the requests that are let
-- through: until the first result comes in, an enabled half-open breaker lets every request pass.
pub ask-unbounded :
    (c : Config) (b : Breaker) (t n : ℕ)
    → c.breaker_enabled ≡ true
    → Probed 0 b
    → 1 ≤ c.breaker_half_open_probes
    → ((ask c b t n).0 ≡ b)
      × All (λ answer. answer ≡ true) (ask c b t n).1
      × (length (ask c b t n).1 ≡ n)
unfolding ask
ask-unbounded c b t zero on h one = (refl, tt, refl)
ask-unbounded c b t (suc n) on h one =
    let rest = ask-unbounded c b t n on h one in
    rw (allow-probes c b t on h one) (rest.0, (refl, rest.1), ap suc rest.2)

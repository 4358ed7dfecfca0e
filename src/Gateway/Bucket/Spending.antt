-- ===== src/Gateway/Bucket/Spending.antt =====
-- How much a token bucket lets through.
use native.Mathlib.Nat.{add-mul, zero-add}
use agent_learn.Base.{
  ℕ, ◌+◌, ◌-◌, ◌*◌, ◌≤◌, ◌≡◌, refl, sym, ap, subst, ◌∙◌, inl, inr, Bool, some, List, [], ◌∷◌, arith,
  leb, if◌then◌else◌, Bool-cases, leb→le,
}
use agent_learn.Gateway.Bucket.{Bucket, new, refill, refill_since, take, try_acquire}

-- A list of calls, each at a time for a number of tokens: the bucket afterwards, and the sum of what
-- was granted.
pub run : Bucket → List (ℕ × ℕ) → Bucket × ℕ
run b [] = (b, 0)
run b ((now_ms, tokens) ∷ calls) =
    let (b', granted) = try_acquire b now_ms tokens in
    let (b'', spent) = run b' calls in (b'', if granted then tokens + spent else spent)

-- What one call does to a bucket that was last filled at `t`.
record Paid (b : Bucket) (t : ℕ) (b' : Bucket) (spent : ℕ) : Type 0 where
  until : ℕ
  seen : b'.last_ms ≡ some until
  later : t ≤ until
  same_rate : b'.rate_per_ms ≡ b.rate_per_ms
  same_burst : b'.burst ≡ b.burst
  capped : b'.tokens ≤ b'.burst
  paid : spent + b'.tokens ≤ b.tokens + (until - t) * b.rate_per_ms

refill-Paid :
    (b : Bucket) (t now_ms : ℕ)
    → b.last_ms ≡ some t
    → b.tokens ≤ b.burst
    → Paid b t (refill_since b t now_ms) 0
unfolding refill_since
refill-Paid b t now_ms e full = elim (Bool-cases (leb now_ms t)) [
  | inl early ↦ rw early (record {
    until = t;
    seen = e;
    later = omega arith;
    same_rate = refl;
    same_burst = refl;
    capped = full;
    paid = omega arith;
  })
  | inr late ↦ rw late (record {
    until = now_ms;
    seen = refl;
    later = ground arith;
    same_rate = refl;
    same_burst = refl;
    capped = omega arith;
    paid = omega arith;
  })
]

take-Paid :
    (b : Bucket) (t tokens : ℕ)
    → b.last_ms ≡ some t
    → b.tokens ≤ b.burst
    → Paid b t (take b tokens).0 (if (take b tokens).1 then tokens else 0)
unfolding take
take-Paid b t tokens e full = elim (Bool-cases (leb tokens b.tokens)) [
  | inl enough ↦
      let h = leb→le tokens b.tokens enough in
      rw enough (record {
        until = t;
        seen = e;
        later = omega arith;
        same_rate = refl;
        same_burst = refl;
        capped = omega arith;
        paid = omega arith;
      })
  | inr short ↦ rw short (record {
    until = t;
    seen = e;
    later = omega arith;
    same_rate = refl;
    same_burst = refl;
    capped = full;
    paid = omega arith;
  })
]

if_add : (b : Bool) (m n : ℕ) → (if b then m else 0) + n ≡ (if b then m + n else n)
if_add b m n = ground arith

span_add : (t u v r : ℕ) → t ≤ u → u ≤ v → (u - t) * r + (v - u) * r ≡ (v - t) * r
span_add t u v r h k = sym (add-mul (u - t) (v - u) r) ∙ ap (λ n. n * r) (omega arith)

Paid-trans :
    (b b' b'' : Bucket) (t s s' : ℕ) (p : Paid b t b' s)
    → Paid b' p.until b'' s'
    → Paid b t b'' (s + s')
Paid-trans b b' b'' t s s' p q = record {
  until = q.until;
  seen = q.seen;
  later = omega arith;
  same_rate = q.same_rate ∙ p.same_rate;
  same_burst = q.same_burst ∙ p.same_burst;
  capped = q.capped;
  paid = omega (
    arith,
    span_add t p.until q.until b.rate_per_ms p.later q.later,
    ap (λ r. (q.until - p.until) * r) p.same_rate,
  );
}

refill-some :
    (b : Bucket) (t now_ms : ℕ) → b.last_ms ≡ some t → refill b now_ms ≡ refill_since b t now_ms
unfolding refill
refill-some b t now_ms e = ground arith

try_acquire-Paid :
    (b : Bucket) (t now_ms tokens : ℕ)
    → b.last_ms ≡ some t
    → b.tokens ≤ b.burst
    → let r = try_acquire b now_ms tokens in Paid b t r.0 (if r.1 then tokens else 0)
unfolding try_acquire
try_acquire-Paid b t now_ms tokens e full =
    let p = refill-Paid b t now_ms e full in
    let filled = refill_since b t now_ms in
    rw (refill-some b t now_ms e) (
      subst (Paid b t (take filled tokens).0)
        (zero-add (if (take filled tokens).1 then tokens else 0))
        (Paid-trans b filled (take filled tokens).0 t 0
          (if (take filled tokens).1 then tokens else 0) p
          (take-Paid filled p.until tokens p.seen p.capped)))

run-Paid :
    (b : Bucket) (t : ℕ) (calls : List (ℕ × ℕ))
    → b.last_ms ≡ some t
    → b.tokens ≤ b.burst
    → Paid b t (run b calls).0 (run b calls).1
unfolding run
run-Paid b t [] e full = record {
  until = t;
  seen = e;
  later = omega arith;
  same_rate = refl;
  same_burst = refl;
  capped = full;
  paid = omega arith;
}
run-Paid b t ((now_ms, tokens) ∷ calls) e full =
    let r = try_acquire b now_ms tokens in
    let p = try_acquire-Paid b t now_ms tokens e full in
    subst (Paid b t (run r.0 calls).0) (if_add r.1 tokens (run r.0 calls).1) (
      Paid-trans b r.0 (run r.0 calls).0 t (if r.1 then tokens else 0) (run r.0 calls).1 p
        (run-Paid r.0 p.until calls p.seen p.capped))

-- A new bucket at its first call.
abbrev first_seen : ℕ → ℕ → ℕ → Bucket
first_seen rate burst t = record (new rate burst) { last_ms = some t }

refill-first : (rate burst t : ℕ) → refill (first_seen rate burst t) t ≡ refill (new rate burst) t
unfolding refill refill_since new
refill-first rate burst t = ground arith

run-first :
    (rate burst t tokens : ℕ) (calls : List (ℕ × ℕ))
    → run (first_seen rate burst t) ((t, tokens) ∷ calls)
      ≡ run (new rate burst) ((t, tokens) ∷ calls)
unfolding run try_acquire
run-first rate burst t tokens calls = rw (refill-first rate burst t)

-- Over any calls, in whatever order their times come, a new bucket lets through no more than its
-- burst and what its rate gives between the first call and the latest time seen; and it never holds
-- more than its burst.
pub run_bound :
    (rate burst t tokens : ℕ) (calls : List (ℕ × ℕ))
    → let (b, spent) = run (new rate burst) ((t, tokens) ∷ calls) in
      (until : ℕ) × (b.last_ms ≡ some until)
      × (t ≤ until)
      × (spent ≤ 1000 * burst + (until - t) * rate)
      × (b.tokens ≤ 1000 * burst)
unfolding new
run_bound rate burst t tokens calls =
    let started = first_seen rate burst t in
    let all : List (ℕ × ℕ) = (t, tokens) ∷ calls in
    let p = run-Paid started t all refl (omega arith) in
    let same = run-first rate burst t tokens calls in
    subst
      (λ r.
        (until : ℕ) × (r.0.last_ms ≡ some until)
        × (t ≤ until)
        × (r.1 ≤ 1000 * burst + (until - t) * rate)
        × (r.0.tokens ≤ 1000 * burst))
      same (p.until, p.seen, p.later, omega (arith, p.paid), omega (arith, p.capped, p.same_burst))

-- ===== src/Gateway/Limiter/Isolation.antt =====
-- What a request does to the buckets of others.
use agent_learn.Base.{
  ℕ, ◌≡◌, refl, ◌∙◌, ◌≢◌, ◌↔◌, inl, inr, Bool, true, false, Option, none, some, arith, ◌==◌,
  if◌then◌else◌, Bool-cases, Option-cases, lookup, lookup-insert,
}
use agent_learn.Gateway.Bucket.{Bucket, try_acquire}
use agent_learn.Gateway.Request.{Request, tenant_quota_exceeded}
use agent_learn.Gateway.Limiter.{Config, Limiters, tenant_bucket, check_tenant, check}

check_tenant-other :
    (c : Config) (l : Limiters) (tenant now_ms other : ℕ)
    → other ≢ tenant
    → lookup other (check_tenant c l tenant now_ms).0.tenant_buckets ≡ lookup other l.tenant_buckets
unfolding check_tenant
check_tenant-other c l tenant now_ms other ne = elim (Option-cases (tenant_bucket c l tenant)) [
  | inl e ↦ rw (e, check_tenant)
  | inr (b, e) ↦
      rw (e, check_tenant)
        (lookup-insert tenant other (try_acquire b now_ms 1000).0 l.tenant_buckets
          ∙ rw (different tenant other ne))
]
  where
    different : (a b : ℕ) → b ≢ a → (a == b) ≡ false
    different a b h = ground arith

answered : (ok : Bool) → ((if ok then none else some tenant_quota_exceeded) ≡ none) ↔ (ok ≡ true)
answered ok = elim (Bool-cases ok) [
  | inl e ↦ rw e ((λ _. refl), (λ _. refl))
  | inr e ↦ rw e (ground arith)
]

-- What the tenant's bucket answers: no bucket lets every request pass.
abbrev pub Grants : Option Bucket → ℕ → Type 0
Grants none now_ms = Unit
Grants (some b) now_ms = (try_acquire b now_ms 1000).1 ≡ true

check_tenant-passes :
    (c : Config) (l : Limiters) (tenant now_ms : ℕ)
    → ((check_tenant c l tenant now_ms).1 ≡ none) ↔ Grants (tenant_bucket c l tenant) now_ms
unfolding check_tenant
check_tenant-passes c l tenant now_ms = elim (Option-cases (tenant_bucket c l tenant)) [
  | inl e ↦ rw (e, check_tenant) ((λ _. tt), (λ _. refl))
  | inr (b, e) ↦ rw (e, check_tenant) (answered (try_acquire b now_ms 1000).1)
]

-- A request passes the limiters exactly when the bucket of the gateway has a token and then the
-- bucket of its tenant has one too, or the tenant has no rate. Whatever the answer, the bucket of
-- every other tenant is as before.
pub check-isolated :
    (c : Config) (l : Limiters) (req : Request) (now_ms : ℕ)
    → (((check c l req now_ms).1 ≡ none) ↔ (
        ((try_acquire l.edge now_ms 1000).1 ≡ true)
        × Grants (tenant_bucket c l req.tenant_id) now_ms))
      × ((other : ℕ)
          → other ≢ req.tenant_id
          → lookup other (check c l req now_ms).0.tenant_buckets ≡ lookup other l.tenant_buckets)
unfolding check tenant_bucket
check-isolated c l req now_ms =
    let l' = record l { edge = (try_acquire l.edge now_ms 1000).0 } in
    let inner = check_tenant-passes c l' req.tenant_id now_ms in
    elim (Bool-cases (try_acquire l.edge now_ms 1000).1) [
      | inl e ↦ rw e (
        ((λ h. (refl, inner.0 h)), (λ p. inner.1 p.1)),
        λ other ne. check_tenant-other c l' req.tenant_id now_ms other ne,
      )
      | inr e ↦ rw e (ground arith, λ other ne. refl)
    ]

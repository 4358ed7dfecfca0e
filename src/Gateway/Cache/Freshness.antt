-- ===== src/Gateway/Cache/Freshness.antt =====
-- What the cache may answer, and how long.
use agent_learn.Base.{
  ℕ, ◌+◌, ◌<◌, ◌≡◌, refl, ◌≢◌, ◌↔◌, ◌/◌, ◌⊎◌, inl, inr, true, none, some, arith, ◌==◌, leb,
  Bool-cases, Option-cases, lookup, lookup-erase, lookup-insert_self,
}
use agent_learn.Gateway.Request.{Request}
use agent_learn.Gateway.Lru.{Entry, Tier}
use agent_learn.Gateway.Lru
use agent_learn.Gateway.Cache.{
  Config, Cache, seek, lookup_representative, lookup_semantic, lookup_second, lookup_tiers,
  negative_hit, store_negative,
}

-- A tier holds, under the key, an entry that has not expired.
abbrev Fresh : Tier → ℕ → ℕ → Type 0
Fresh t key now_ms = (e : Entry) × (lookup key t.items ≡ some e) × (now_ms < e.expires_ms)

get-Fresh :
    (t : Tier) (key now_ms : ℕ) (e : Entry) → (Lru.get t key now_ms).1 ≡ some e → Fresh t key now_ms
unfolding Lru.get
get-Fresh t key now_ms e hit = elim (Option-cases (lookup key t.items)) [
  | inl miss ↦ absurd (ground arith)
  | inr (f, found) ↦ (f, found, ground arith)
]

-- A miss takes at most the entry of its own key away.
get-miss :
    (t : Tier) (key now_ms other : ℕ) (e : Entry)
    → (Lru.get t key now_ms).1 ≡ none
    → lookup other (Lru.get t key now_ms).0.items ≡ some e
    → lookup other t.items ≡ some e
unfolding Lru.get
get-miss t key now_ms other e miss found = elim (Option-cases (lookup key t.items)) [
  | inl absent ↦ rw (absent, Lru.get) at found
  | inr (f, present) ↦ elim (Bool-cases (leb f.expires_ms now_ms)) [
    | inl old ↦
        let left = rw (present, Lru.get, old, lookup-erase key other t.items) at found in
        ground arith
    | inr fresh ↦ absurd (ground arith)
  ]
]

-- Some key under which the request may be answered: its own, or the one indexed for its intent.
abbrev Stands : Cache → Request → ℕ → Type 0
Stands c req key = (key ≡ req.cache_key) ⊎ (lookup req.semantic_key c.semantic ≡ some key)

abbrev pub Held : Cache → Request → ℕ → Type 0
Held c req now_ms = (key : ℕ) × Stands c req key × (Fresh c.l1 key now_ms ⊎ Fresh c.l2 key now_ms)

representative-Held :
    (c : Cache) (req : Request) (representative now_ms : ℕ)
    → lookup req.semantic_key c.semantic ≡ some representative
    → (lookup_representative c req.semantic_key representative now_ms).1 ≢ none
    → Held c req now_ms
unfolding lookup_representative seek
representative-Held c req representative now_ms stands served =
    elim (Option-cases (Lru.get c.l1 representative now_ms).1) [
      | inr (e, hit) ↦
          (representative, inr stands, inl (get-Fresh c.l1 representative now_ms e hit))
      | inl miss ↦ elim (Option-cases (Lru.get c.l2 representative now_ms).1) [
        | inr (e, hit) ↦
            (representative, inr stands, inr (get-Fresh c.l2 representative now_ms e hit))
        | inl missed ↦ absurd (served (rw (miss, seek, missed, lookup_representative) refl))
      ]
    ]

semantic-Held :
    (config : Config) (c : Cache) (req : Request) (now_ms : ℕ)
    → (lookup_semantic config c req now_ms).1 ≢ none
    → Held c req now_ms
unfolding lookup_semantic
semantic-Held config c req now_ms served = elim (Bool-cases config.semantic_cache_enabled) [
  | inr off ↦ absurd (served (rw (off) refl))
  | inl on ↦ elim (Option-cases (lookup req.semantic_key c.semantic)) [
    | inl absent ↦ absurd (served (rw (on, absent) refl))
    | inr (representative, stands) ↦ elim (Bool-cases (representative == req.cache_key)) [
      | inl own ↦ absurd (served (rw (on, stands, own) refl))
      | inr other ↦
          representative-Held c req representative now_ms stands (rw (on, stands, other) at served)
    ]
  ]
]

-- What a tier holds after a read that missed, it held before.
Fresh-miss :
    (t : Tier) (key now_ms other : ℕ)
    → (Lru.get t key now_ms).1 ≡ none
    → Fresh (Lru.get t key now_ms).0 other now_ms
    → Fresh t other now_ms
Fresh-miss t key now_ms other miss (e, found, fresh) =
    (e, get-miss t key now_ms other e miss found, fresh)

second-Held :
    (config : Config) (c : Cache) (req : Request) (now_ms : ℕ)
    → (lookup_second config c req now_ms).1 ≢ none
    → Held c req now_ms
unfolding lookup_second
second-Held config c req now_ms served = elim (Option-cases (Lru.get c.l2 req.cache_key now_ms).1) [
  | inr (e, hit) ↦ (req.cache_key, inl refl, inr (get-Fresh c.l2 req.cache_key now_ms e hit))
  | inl miss ↦
      let c' = record c { l2 = (Lru.get c.l2 req.cache_key now_ms).0 } in
      let (key, stands, held) =
        semantic-Held config c' req now_ms (rw (miss, lookup_second) at served) in
      (
        key,
        stands,
        elim held [
          | inl first ↦ inl first
          | inr second ↦ inr (Fresh-miss c.l2 req.cache_key now_ms key miss second)
        ],
      )
]

-- The cache never serves what has expired: when `lookup` answers with a layer, one of the two tiers
-- holds an entry that has not expired yet, under the key of the request or under the key that is
-- indexed for its intent.
pub lookup-fresh :
    (config : Config) (c : Cache) (req : Request) (now_ms : ℕ)
    → (lookup_tiers config c req now_ms).1 ≢ none
    → Held c req now_ms
unfolding lookup_tiers
lookup-fresh config c req now_ms served =
    elim (Option-cases (Lru.get c.l1 req.cache_key now_ms).1) [
      | inr (e, hit) ↦ (req.cache_key, inl refl, inl (get-Fresh c.l1 req.cache_key now_ms e hit))
      | inl miss ↦
          let c' = record c { l1 = (Lru.get c.l1 req.cache_key now_ms).0 } in
          let (key, stands, held) =
            second-Held config c' req now_ms (rw (miss, lookup_tiers) at served) in
          (
            key,
            stands,
            elim held [
              | inl first ↦ inl (Fresh-miss c.l1 req.cache_key now_ms key miss first)
              | inr second ↦ inr second
            ],
          )
    ]

-- A failure is remembered until a twentieth of the time to live is over, and no longer.
pub negative_hit-store_negative :
    (config : Config) (c : Cache) (req : Request) (now_ms later_ms : ℕ)
    → ((negative_hit (store_negative config c req now_ms) req later_ms).1 ≡ true)
      ↔ (later_ms < now_ms + config.cache_ttl_ms / 20)
unfolding negative_hit store_negative
negative_hit-store_negative config c req now_ms later_ms =
    let until = now_ms + config.cache_ttl_ms / 20 in
    rw (lookup-insert_self req.cache_key until c.negative, negative_hit) (ground arith)

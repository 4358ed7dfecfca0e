-- ===== src/Gateway/Cache.antt =====
-- app/gateway/cache.py, `TieredCache`: two tiers, an index from an intent to the key last stored
-- for it, and the keys that failed lately. `drawn` is what `rng.uniform` returns, in thousandths.
pub mod Freshness
use agent_learn.Base.{
  ℕ, ◌+◌, ◌*◌, ◌/◌, Bool, true, false, not, ◌||◌, Option, none, some, List, [], ◌∷◌, leb, ltb, ◌==◌,
  max, lookup, insert, erase, if◌then◌else◌,
}
use agent_learn.Gateway.Request.{Request, ServedBy, cache_l1, cache_l2, cache_semantic}
use agent_learn.Gateway.Lru.{Entry, Tier}
use agent_learn.Gateway.Lru

-- What the cache reads of `GatewayConfig`.
pub record Config : Type 0 where
  pub l1_capacity : ℕ
  pub l2_capacity : ℕ
  pub cache_ttl_ms : ℕ
  pub cache_ttl_jitter : ℕ
  pub semantic_cache_enabled : Bool

pub record Cache : Type 0 where
  pub l1 : Tier
  pub l2 : Tier
  pub semantic : List (ℕ × ℕ)
  pub semantic_hits : ℕ
  pub semantic_stores : ℕ
  pub negative : List (ℕ × ℕ)
  pub negative_hits : ℕ

unfoldable pub new : Config → Cache
new c = record {
  l1 = Lru.new c.l1_capacity;
  l2 = Lru.new c.l2_capacity;
  semantic = [];
  semantic_hits = 0;
  semantic_stores = 0;
  negative = [];
  negative_hits = 0;
}

-- The semantic layer once there is a representative other than the request's own key: the first
-- tier is asked, and the second one only if the first has nothing.
unfoldable pub seek : Cache → ℕ → ℕ → Cache × Option Entry
seek c key now_ms =
    let first = Lru.get c.l1 key now_ms in
    let second = Lru.get c.l2 key now_ms in
    elim first.1 [
      | some e ↦ (record c { l1 = first.0 }, some e)
      | none ↦ (record c { l1 = first.0; l2 = second.0 }, second.1)
    ]

unfoldable pub lookup_representative : Cache → ℕ → ℕ → ℕ → Cache × Option ServedBy
lookup_representative c semantic_key representative now_ms =
    let sought = seek c representative now_ms in
    elim sought.1 [
      | some e ↦
          (record sought.0 { semantic_hits = sought.0.semantic_hits + 1 }, some cache_semantic)
      | none ↦ (record sought.0 { semantic = erase semantic_key sought.0.semantic }, none)
    ]

unfoldable pub lookup_semantic : Config → Cache → Request → ℕ → Cache × Option ServedBy
lookup_semantic config c req now_ms =
    if not config.semantic_cache_enabled
    then (c, none)
    else elim (lookup req.semantic_key c.semantic) [
      | none ↦ (c, none)
      | some representative ↦
          if representative == req.cache_key
          then (c, none)
          else lookup_representative c req.semantic_key representative now_ms
    ]

unfoldable pub backfill_l1 : Cache → Entry → Cache
backfill_l1 c entry = record c { l1 = Lru.put c.l1 entry }

-- A hit in the second tier is put into the first one.
unfoldable pub lookup_second : Config → Cache → Request → ℕ → Cache × Option ServedBy
lookup_second config c req now_ms =
    let second = Lru.get c.l2 req.cache_key now_ms in
    elim second.1 [
      | some e ↦ (backfill_l1 (record c { l2 = second.0 }) e, some cache_l2)
      | none ↦ lookup_semantic config (record c { l2 = second.0 }) req now_ms
    ]

-- `lookup`.
unfoldable pub lookup_tiers : Config → Cache → Request → ℕ → Cache × Option ServedBy
lookup_tiers config c req now_ms =
    let first = Lru.get c.l1 req.cache_key now_ms in
    elim first.1 [
      | some e ↦ (record c { l1 = first.0 }, some cache_l1)
      | none ↦ lookup_second config (record c { l1 = first.0 }) req now_ms
    ]

unfoldable pub negative_hit : Cache → Request → ℕ → Cache × Bool
negative_hit c req now_ms = elim (lookup req.cache_key c.negative) [
  | none ↦ (c, false)
  | some until ↦
      if leb until now_ms
      then (record c { negative = erase req.cache_key c.negative }, false)
      else (record c { negative_hits = c.negative_hits + 1 }, true)
]

-- `_ttl_ms`.
unfoldable pub ttl_ms : Config → ℕ → ℕ
ttl_ms config drawn =
    if leb config.cache_ttl_jitter 0
    then config.cache_ttl_ms
    else max 1 (config.cache_ttl_ms * drawn / 1000)

unfoldable pub index : Config → Cache → Request → Cache
index config c req =
    if config.semantic_cache_enabled
    then record c {
      semantic = insert req.semantic_key req.cache_key c.semantic;
      semantic_stores = c.semantic_stores + 1;
    }
    else c

unfoldable pub store : Config → Cache → Request → ℕ → ℕ → Cache
store config c req now_ms drawn =
    let entry : Entry = record {
      key = req.cache_key;
      semantic_key = req.semantic_key;
      expires_ms = now_ms + ttl_ms config drawn;
    } in
    index config (record c { l1 = Lru.put c.l1 entry; l2 = Lru.put c.l2 entry }) req

unfoldable pub store_negative : Config → Cache → Request → ℕ → Cache
store_negative config c req now_ms = record c {
  negative = insert req.cache_key (now_ms + config.cache_ttl_ms / 20) c.negative;
}

unfoldable pub enabled : Config → Bool
enabled config = ltb 0 config.l1_capacity || ltb 0 config.l2_capacity

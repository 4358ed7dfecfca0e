-- ===== src/Gateway/Examples/Caching.antt =====
-- The cache at concrete entries.
use agent_learn.Base.{◌≤◌, ◌≡◌, refl, ◌≢◌, true, none, some, List, [], ◌∷◌, arith, lookup}
use agent_learn.Gateway.Request.{cache_l1}
use agent_learn.Gateway.Lru.{Entry, size}
use agent_learn.Gateway.Lru
use agent_learn.Gateway.Lru.Recency.{puts, read-survives}
use agent_learn.Gateway.Lru.Capacity.{reads, writes, drops, tier_capacity}
use agent_learn.Gateway.Lru.Capacity
use agent_learn.Gateway.Cache.{Cache, lookup_tiers, negative_hit, store_negative}
use agent_learn.Gateway.Cache
use agent_learn.Gateway.Cache.Freshness.{Held, lookup-fresh}
use agent_learn.Gateway.Examples.{request}

abbrev answer_entry : Entry
answer_entry = record { key = 77; semantic_key = 7; expires_ms = 9000 }

abbrev tier : Lru.Tier
tier = record {
  capacity = 3;
  items = (77, answer_entry) ∷ [];
  hits = 0;
  misses = 0;
  inserts = 1;
  evictions = 0;
  expired = 0;
}

abbrev others : List Entry
others = record answer_entry { key = 78 } ∷ record answer_entry { key = 79 } ∷ []

read-survives_example :
    (Lru.get (puts (Lru.get tier 77 100).0 others) 77 8999).1 ≡ some answer_entry
unfolding Lru.get lookup
read-survives_example =
    read-survives tier 77 100 answer_entry others 8999 refl
      ((λ h. absurd (omega arith)), ((λ h. absurd (omega arith)), tt)) (omega arith) (omega arith)

abbrev tier_calls : List Lru.Capacity.Call
tier_calls = writes answer_entry ∷ reads 77 100 ∷ drops 77 ∷ []

tier_capacity_example :
    (size (Lru.Capacity.run (Lru.new 3) tier_calls) ≤ 3)
    × ((Lru.Capacity.run (Lru.new 3) tier_calls).capacity ≡ 3)
tier_capacity_example = tier_capacity 3 tier_calls

abbrev cache_config : Cache.Config
cache_config = record {
  l1_capacity = 3;
  l2_capacity = 3;
  cache_ttl_ms = 60000;
  cache_ttl_jitter = 250;
  semantic_cache_enabled = true;
}

abbrev cache : Cache
cache = record {
  l1 = tier;
  l2 = tier;
  semantic = (7, 77) ∷ [];
  semantic_hits = 0;
  semantic_stores = 1;
  negative = [];
  negative_hits = 0;
}

lookup-fresh_example : Held cache (request 1) 100
unfolding lookup_tiers Lru.get lookup
lookup-fresh_example = lookup-fresh cache_config cache (request 1) 100 λ h. absurd (served h)
  where
    served : some cache_l1 ≢ none
    served h = absurd (ground arith)

-- ===== src/Gateway/Lru.antt =====
-- app/gateway/cache.py, `_LruTier`: the entries by their key, the least recently used first. What
-- an entry counts about itself (`hits`, `origin_variant`, `inserted_ms`) is never read back and is
-- left out.
pub mod Recency
pub mod Capacity
use agent_learn.Base.{
  ℕ, ◌+◌, Bool, true, false, Option, none, some, List, [], ◌∷◌, ◌++◌, leb, length, lookup, erase,
  if◌then◌else◌,
}

-- `CacheEntry`.
pub record Entry : Type 0 where
  pub key : ℕ
  pub semantic_key : ℕ
  pub expires_ms : ℕ

pub record Tier : Type 0 where
  pub capacity : ℕ
  pub items : List (ℕ × Entry)
  pub hits : ℕ
  pub misses : ℕ
  pub inserts : ℕ
  pub evictions : ℕ
  pub expired : ℕ

unfoldable pub new : ℕ → Tier
new capacity = record {
  capacity = capacity;
  items = [];
  hits = 0;
  misses = 0;
  inserts = 0;
  evictions = 0;
  expired = 0;
}

-- `move_to_end` together with the value that then stands under the key.
unfoldable pub to_end : ℕ → Entry → List (ℕ × Entry) → List (ℕ × Entry)
to_end key entry items = erase key items ++ (key, entry) ∷ []

unfoldable pub get : Tier → ℕ → ℕ → Tier × Option Entry
get t key now_ms = elim (lookup key t.items) [
  | none ↦ (record t { misses = t.misses + 1 }, none)
  | some entry ↦
      if leb entry.expires_ms now_ms
      then (
        record t { items = erase key t.items; expired = t.expired + 1; misses = t.misses + 1 },
        none,
      )
      else (record t { items = to_end key entry t.items; hits = t.hits + 1 }, some entry)
]

-- The `while` loop of `put`: the items that are left, and how many were evicted.
unfoldable pub trim : ℕ → List (ℕ × Entry) → List (ℕ × Entry) × ℕ
trim capacity [] = ([], 0)
trim capacity (x ∷ items) =
    let rest = trim capacity items in
    if leb capacity (length (x ∷ items)) then (rest.0, rest.1 + 1) else (x ∷ items, 0)

unfoldable pub put_new : Tier → Entry → Tier
put_new t entry =
    let left = trim t.capacity t.items in
    record t {
      items = left.0 ++ (entry.key, entry) ∷ [];
      evictions = t.evictions + left.1;
      inserts = t.inserts + 1;
    }

unfoldable pub put : Tier → Entry → Tier
put t entry = if leb t.capacity 0 then t else elim (lookup entry.key t.items) [
  | some old ↦ record t { items = to_end entry.key entry t.items }
  | none ↦ put_new t entry
]

unfoldable pub invalidate : Tier → ℕ → Tier
invalidate t key = record t { items = erase key t.items }

unfoldable pub size : Tier → ℕ
size t = length t.items

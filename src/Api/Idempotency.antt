-- ===== src/Api/Idempotency.antt =====
-- app/infrastructure/caching/idempotency.py: the store in memory, `_InMemoryIdempotencyStore`. Its
-- methods run under a lock; times are in seconds.
use cire_rag.Base.{
  ltb, if◌then◌else◌, Option-cases, All, ℕ, ◌+◌, ◌≤◌, String, ◌≡◌, refl, inl, inr, false, Option,
  none, some, List, [], ◌∷◌, arith, ◌==◌, eq_iff, eq_refl,
}
use cire_rag.Base.Value.{Fields}

-- `_cache`: the time of the last use and the payload, by key.
pub data Cache : Type 0 where
  empty : Cache
  entry : String → ℕ → Fields → Cache → Cache

-- `_cache.get(key)`
unfoldable pub find : String → Cache → Option (ℕ × Fields)
find k empty = none
find k (entry j t v c) = if j == k then some (t, v) else find k c

-- `_cache[key] = (now, payload)`
unfoldable pub store : String → ℕ → Fields → Cache → Cache
store k now v empty = entry k now v empty
store k now v (entry j t w c) = if j == k then entry j now v c else entry j t w (store k now v c)

-- `_prune`: the keys not used for more than `ttl` seconds go.
unfoldable pub prune : ℕ → ℕ → Cache → Cache
prune ttl now empty = empty
prune ttl now (entry k t v c) =
    let rest = prune ttl now c in if ltb (t + ttl) now then rest else entry k t v rest

-- `get`: the payload, whose time is renewed.
unfoldable pub get_payload : ℕ → String → ℕ → Cache → Option Fields × Cache
get_payload ttl k now c =
    let kept = prune ttl now c in
    elim (find k kept) [ none ↦ (none, kept) | some (t, v) ↦ (some v, store k now v kept) ]

-- `set`
unfoldable pub set_payload : ℕ → String → Fields → ℕ → Cache → Cache
set_payload ttl k v now c = store k now v (prune ttl now c)

find-store :
    (k j : String) (now : ℕ) (v : Fields) (c : Cache)
    → find j (store k now v c) ≡ (if k == j then some (now, v) else find j c)
unfolding find store
find-store k j now v empty = refl
find-store k j now v (entry i t w c) =
    ground (arith, eq_iff k j, eq_iff i k, eq_iff i j, find-store k j now v c)

-- A payload used within the time to live outlasts a pruning.
find-prune :
    (ttl now t : ℕ) (k : String) (v : Fields) (c : Cache)
    → find k c ≡ some (t, v)
    → now ≤ t + ttl
    → find k (prune ttl now c) ≡ some (t, v)
unfolding find prune
find-prune ttl now t k v empty h young = absurd (ground arith)
find-prune ttl now t k v (entry j u w c) h young = ground (arith, find-prune ttl now t k v c)

-- The calls of other requests: `get` and `set` with a key and a time.
pub data Call : Type 0 where
  get_call : String → ℕ → Call
  set_call : String → Fields → ℕ → Call

abbrev pub key_of : Call → String
key_of (get_call k t) = k
key_of (set_call k v t) = k

abbrev pub time_of : Call → ℕ
time_of (get_call k t) = t
time_of (set_call k v t) = t

abbrev pub call : ℕ → Call → Cache → Cache
call ttl (get_call k t) c = (get_payload ttl k t c).1
call ttl (set_call k v t) c = set_payload ttl k v t c

abbrev pub calls : ℕ → List Call → Cache → Cache
calls ttl [] c = c
calls ttl (o ∷ os) c = calls ttl os (call ttl o c)

call_keeps :
    (ttl t : ℕ) (k : String) (v : Fields) (o : Call) (c : Cache)
    → find k c ≡ some (t, v)
    → (key_of o == k) ≡ false
    → time_of o ≤ t + ttl
    → find k (call ttl o c) ≡ some (t, v)
unfolding get_payload set_payload
call_keeps ttl t k v (get_call j now) c h other young =
    let kept = find-prune ttl now t k v c h young in
    elim (Option-cases (find j (prune ttl now c))) [
      | inl e ↦ ground arith
      | inr ((u, w), e) ↦ ground (arith, find-store j k now w (prune ttl now c))
    ]
call_keeps ttl t k v (set_call j w now) c h other young =
    ground (arith, find-store j k now w (prune ttl now c), find-prune ttl now t k v c h young)

calls_keep :
    (ttl t : ℕ) (k : String) (v : Fields) (os : List Call) (c : Cache)
    → find k c ≡ some (t, v)
    → All (λ o. ((key_of o == k) ≡ false) × (time_of o ≤ t + ttl)) os
    → find k (calls ttl os c) ≡ some (t, v)
calls_keep ttl t k v [] c h others = h
calls_keep ttl t k v (o ∷ os) c h others =
    calls_keep ttl t k v os (call ttl o c) (call_keeps ttl t k v o c h others.0.0 others.0.1)
      others.1

-- A payload that was stored is answered to a request with its key within the time to live,
-- whatever requests with other keys come in between in that time.
stored_payload_found :
    (ttl t now : ℕ) (k : String) (v : Fields) (os : List Call) (c : Cache)
    → All (λ o. ((key_of o == k) ≡ false) × (time_of o ≤ t + ttl)) os
    → now ≤ t + ttl
    → (get_payload ttl k now (calls ttl os (set_payload ttl k v t c))).0 ≡ some v
unfolding get_payload set_payload
stored_payload_found ttl t now k v os c others young =
    let stored = store k t v (prune ttl t c) in
    let there : find k stored ≡ some (t, v) =
      ground (arith, find-store k k t v (prune ttl t c), eq_refl k) in
    let kept = calls_keep ttl t k v os stored there others in
    ground (arith, find-prune ttl now t k v (calls ttl os stored) kept young)

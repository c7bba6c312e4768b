-- ===== src/Auth/Sessions.antt =====
-- pkg/repository's SessionStore, and infra/redis/session_store.go, which keeps it in Redis. A key set
-- with a time to live is gone when the time has passed.
use truth_market.Base.{ℕ, ◌+◌, ◌<◌, ◌≤◌, ◌≡◌, Bool, true, false, Option, none, some, ◌++◌}
use truth_market.Base.Texts.{Text, codes, same_text}

-- The time is the first argument of `get` and `set`, and the time to live the last of `set` before
-- the state. A delete can fail: it answers whether it succeeded, with the state that it leaves.
pub record SessionStore (S : Type 0) : Type 0 where
  pub get : ℕ → Text → S → Option Text
  pub set : ℕ → Text → Text → ℕ → S → S
  pub delete : Text → S → Bool × S

-- What a session store promises.
pub record IsSessionStore {S : Type 0} (store : SessionStore S) : Type 0 where
  pub get_set :
      (now later ttl : ℕ) (k v : Text) (s : S)
      → later < now + ttl
      → store.get later k (store.set now k v ttl s) ≡ some v
  pub get_expired :
      (now later ttl : ℕ) (k v : Text) (s : S)
      → now + ttl ≤ later
      → store.get later k (store.set now k v ttl s) ≡ none
  pub get_set_other :
      (now later ttl : ℕ) (k j v : Text) (s : S)
      → same_text j k ≡ false
      → store.get later j (store.set now k v ttl s) ≡ store.get later j s
  pub get_delete :
      (later : ℕ) (k : Text) (s : S)
      → (store.delete k s).0 ≡ true
      → store.get later k (store.delete k s).1 ≡ none
  pub get_delete_other :
      (later : ℕ) (k j : Text) (s : S)
      → same_text j k ≡ false
      → store.get later j (store.delete k s).1 ≡ store.get later j s
  pub get_delete_none :
      (later : ℕ) (k j : Text) (s : S)
      → store.get later j s ≡ none
      → store.get later j (store.delete k s).1 ≡ none

abbrev pub session_key : Text → Text
session_key token = codes "session:" ++ token

-- The store of a Redis client, which is a store itself: SET with a time to live, GET and DEL.
unfoldable pub redis_sessions : {S : Type 0} → SessionStore S → SessionStore S
redis_sessions client = record {
  get = λ now token s. client.get now (session_key token) s;
  set = λ now token user ttl s. client.set now (session_key token) user ttl s;
  delete = λ token s. client.delete (session_key token) s;
}

same_text-session_key :
    (j k : Text) → same_text j k ≡ false → same_text (session_key j) (session_key k) ≡ false
same_text-session_key j k h = h

-- On a Redis client that keeps the promises of a store, the session store keeps them too: the prefix
-- keeps different tokens apart.
pub redis_sessions-IsSessionStore :
    {S : Type 0} (client : SessionStore S)
    → IsSessionStore client
    → IsSessionStore (redis_sessions client)
unfolding redis_sessions
redis_sessions-IsSessionStore client v = record {
  get_set = λ now later ttl k w s h. v.get_set now later ttl (session_key k) w s h;
  get_expired = λ now later ttl k w s h. v.get_expired now later ttl (session_key k) w s h;
  get_set_other = λ now later ttl k j w s h.
      v.get_set_other now later ttl (session_key k) (session_key j) w s
        (same_text-session_key j k h);
  get_delete = λ later k s h. v.get_delete later (session_key k) s h;
  get_delete_none = λ later k j s h. v.get_delete_none later (session_key k) (session_key j) s h;
  get_delete_other = λ later k j s h.
      v.get_delete_other later (session_key k) (session_key j) s (same_text-session_key j k h);
}

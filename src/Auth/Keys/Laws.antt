-- ===== src/Auth/Keys/Laws.antt =====
-- The life of an API key, and what a revocation touches.
use truth_market.Base.{
  ◌≡◌, refl, subst, Bool, true, false, ◌&&◌, Option, none, some, List, [], ◌∷◌, ◌==◌, if◌then◌else◌,
  take, ok, err, inl, inr, ==→eq, ==_refl, All, ◌⊎◌,
}
use truth_market.Base.Maps.{lookup}
use truth_market.Base.Texts.{Text, same_text, same_text_refl, same_text→eq}
use truth_market.Domain.{Ident, User}
use truth_market.Errors.{app_error, unauthorized, forbidden}
use truth_market.Auth.Keys.{
  ApiKey, with_hash, with_id, deactivated, revoke_in, key_of, raw_key_of, new_key, generate_api_key,
  validate_api_key, revoke_api_key, revoke_found,
}

-- The life of an API key. A key generated for a user of the table, with a hash and an identifier that
-- no other key has, validates as that user; when its owner has then revoked a key by its prefix, it is
-- the one that is inactive, and it is refused as unauthorized.
pub generate_api_key-life :
    (hash : Text → Text) (draw : Text) (i u : Ident) (user : User) (keys : List ApiKey)
    (users : List (Ident × User))
    → with_hash (hash (raw_key_of draw)) keys ≡ none
    → with_id i keys ≡ none
    → lookup u users ≡ some user
    → (generate_api_key hash draw i u keys
        ≡ (ok (raw_key_of draw, new_key hash draw i u), new_key hash draw i u ∷ keys))
      × (validate_api_key hash (raw_key_of draw) (new_key hash draw i u ∷ keys) users ≡ ok user)
      × (revoke_api_key u (take 10 (raw_key_of draw)) (new_key hash draw i u ∷ keys)
          ≡ (ok tt, deactivated (new_key hash draw i u) ∷ keys))
      × (validate_api_key hash (raw_key_of draw) (deactivated (new_key hash draw i u) ∷ keys) users
          ≡ err (app_error unauthorized))
unfolding generate_api_key validate_api_key revoke_api_key
generate_api_key-life hash draw i u user keys users a b known = (
  rw (a, b) refl,
  rw (same_text_refl (hash (raw_key_of draw))) (rw known refl),
  rw (==_refl u, same_text_refl (take 10 (raw_key_of draw))) (rw (==_refl i) refl),
  rw (same_text_refl (hash (raw_key_of draw))) refl,
)

-- The rows after a revocation by a user and a prefix: one key, of that user and prefix, is inactive
-- and the others are as before.
abbrev pub RevokesOwn : Ident → Text → List ApiKey → List ApiKey → Type 0
RevokesOwn u prefix [] ys = ⊥
RevokesOwn u prefix (x ∷ xs) [] = ⊥
RevokesOwn u prefix (x ∷ xs) (y ∷ ys) =
    ((y ≡ x) × RevokesOwn u prefix xs ys)
    ⊎ ((y ≡ deactivated x) × (x.user_id ≡ u) × (x.key_prefix ≡ prefix) × (ys ≡ xs))

abbrev pub UniqueIds : List ApiKey → Type 0
UniqueIds [] = Unit
UniqueIds (x ∷ xs) = All (λ (y : ApiKey). (x.id == y.id) ≡ false) xs × UniqueIds xs

same_key : (y z : ApiKey) → some y ≡ some z → y ≡ z
same_key y z q = cc

key_of-All :
    (P : ApiKey → Type 0) (u : Ident) (prefix : Text) (keys : List ApiKey) (k : ApiKey)
    → All P keys
    → key_of u prefix keys ≡ some k
    → P k
key_of-All P u prefix [] k a e = absurd cc
key_of-All P u prefix (x ∷ xs) k a e =
    by_head ((x.user_id == u) && same_text x.key_prefix prefix) e (key_of-All P u prefix xs k a.1)
  where
    by_head :
        (b : Bool)
        → (if b then some x else key_of u prefix xs) ≡ some k
        → (key_of u prefix xs ≡ some k → P k)
        → P k
    by_head true q f = subst P (same_key x k q) a.0
    by_head false q f = f q

and_split : (a b : Bool) → (a && b) ≡ true → (a ≡ true) × (b ≡ true)
and_split true b e = (refl, e)
and_split false b e = absurd cc

revoke_in-RevokesOwn :
    (u : Ident) (prefix : Text) (keys : List ApiKey) (k : ApiKey)
    → UniqueIds keys
    → key_of u prefix keys ≡ some k
    → RevokesOwn u prefix keys (revoke_in k.id keys)
revoke_in-RevokesOwn u prefix [] k v e = absurd cc
revoke_in-RevokesOwn u prefix (x ∷ xs) k v e =
    by_head ((x.user_id == u) && same_text x.key_prefix prefix) refl e
      (revoke_in-RevokesOwn u prefix xs k v.1)
  where
    by_head :
        (b : Bool)
        → ((x.user_id == u) && same_text x.key_prefix prefix) ≡ b
        → (if b then some x else key_of u prefix xs) ≡ some k
        → (key_of u prefix xs ≡ some k → RevokesOwn u prefix xs (revoke_in k.id xs))
        → RevokesOwn u prefix (x ∷ xs) (revoke_in k.id (x ∷ xs))
    by_head true t q f =
        let (a, b) = and_split (x.user_id == u) (same_text x.key_prefix prefix) t in
        subst (λ (j : ApiKey). RevokesOwn u prefix (x ∷ xs) (revoke_in j.id (x ∷ xs)))
          (same_key x k q)
          (rw (==_refl x.id)
            (inr (refl, ==→eq x.user_id u a, same_text→eq x.key_prefix prefix b, refl)))
    by_head false t q f =
        rw (key_of-All (λ (y : ApiKey). (x.id == y.id) ≡ false) u prefix xs k v.0 q)
          (inl (refl, f q))

-- RevokeAPIKey touches no key of another user: if it succeeds, one key of the user who asks, with the
-- prefix, is inactive and every other row is as before; if it fails, the rows are as before. The
-- identifiers of the rows are unique.
pub revoke_api_key-RevokesOwn :
    (u : Ident) (prefix : Text) (keys : List ApiKey)
    → UniqueIds keys
    → ((revoke_api_key u prefix keys).0 ≡ ok tt)
        × RevokesOwn u prefix keys (revoke_api_key u prefix keys).1
      ⊎ (revoke_api_key u prefix keys ≡ (err (app_error forbidden), keys))
unfolding revoke_api_key
revoke_api_key-RevokesOwn u prefix keys v = by_key (key_of u prefix keys) refl
  where
    by_key :
        (o : Option ApiKey)
        → key_of u prefix keys ≡ o
        → ((revoke_found keys o).0 ≡ ok tt) × RevokesOwn u prefix keys (revoke_found keys o).1
          ⊎ (revoke_found keys o ≡ (err (app_error forbidden), keys))
    by_key none e = inr refl
    by_key (some k) e = inl (refl, revoke_in-RevokesOwn u prefix keys k v e)

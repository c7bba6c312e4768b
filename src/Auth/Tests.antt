-- ===== src/Auth/Tests.antt =====
-- A concrete codec and store, runs of the authentication service, and its theorems at inputs that
-- exercise them.
use truth_market.Base.{
  ℕ, ◌+◌, ◌-◌, ◌≡◌, refl, ap, ◌∙◌, Bool-cases, inl, inr, true, false, Option, none, some, List, [],
  ◌∷◌, ◌++◌, map, ltb, if◌then◌else◌, take, ok, err, arith, ◌⊎◌,
}
use truth_market.Base.Int.{pos}
use truth_market.Base.Maps.{lookup}
use truth_market.Base.Texts.{Text, codes, same_text, same_text_refl, has_byte, split_once}
use truth_market.Domain.{Ident, User, human, money_of}
use truth_market.Errors.{app_error, unauthorized, forbidden, is_code, code_from_error}
use truth_market.Auth.Tokens.{
  JsonValue, json_number, json_string, Codec, jwt_header, day, generate_jwt, split_token, check_sub,
  check_claims, check_parts, validate_token,
}
use truth_market.Auth.{AuthState, nonce_key, generate_nonce, sign_in, verify_siwe}
use truth_market.Auth.Messages.{trim_left, trim_right, split_all, nonce_in, extract_nonce}
use truth_market.Auth.Users.{user_by_id, user_by_wallet, new_user}
use truth_market.Auth.Sessions.{
  SessionStore, IsSessionStore, redis_sessions, redis_sessions-IsSessionStore,
}
use truth_market.Auth.Laws.{IsCodec, validate_token-generate_jwt}
use truth_market.Auth.Genuine.{IsGenuine, validate_token-IsGenuine}
use truth_market.Auth.Nonces.{message_with}
use truth_market.Auth.SignIn.{wallet_user, users_after, verify_siwe-generate_nonce}
use truth_market.Auth.Replay.{
  AuthCall, asks, verifies, others, make_calls, verify_siwe-once, verify_siwe-replayed,
}
use truth_market.Auth.Keys.{
  ApiKey, raw_key_of, new_key, deactivated, create_key, get_by_hash, generate_api_key,
  validate_api_key, revoke_api_key,
}
use truth_market.Auth.Keys.Laws.{generate_api_key-life, RevokesOwn, revoke_api_key-RevokesOwn}

-- What the tests run.
program : Unit {0}
unfolding trim_left trim_right split_all nonce_in extract_nonce user_by_id user_by_wallet jwt_header
    generate_jwt split_token check_sub check_claims check_parts validate_token generate_nonce
    sign_in verify_siwe create_key get_by_hash generate_api_key validate_api_key revoke_api_key
    redis_sessions split_once is_code code_from_error
program = tt

-- Characters moved past the dot, and payloads as the list of their parts.
abbrev shifted : Text → Text
shifted s = map (λ x. x + 47) s

abbrev shifted_back : Text → Text
shifted_back s = map (λ x. x - 47) s

abbrev object_of : ℕ → Text → Text → Option JsonValue
object_of e sub key =
    if same_text key (codes "exp")
    then some (json_number (pos e))
    else if same_text key (codes "sub")
    then some (json_string sub)
    else none

abbrev parsed : Text → Option (Text → Option JsonValue)
parsed (e ∷ i ∷ sub) = some (object_of e sub)
parsed _ = none

abbrev ident_of : Text → Ident
ident_of [] = 0
ident_of (x ∷ xs) = x

abbrev codec : Codec
codec = record {
  encode = shifted;
  decode = λ s. some (shifted_back s);
  mac = λ secret input. secret ++ input;
  marshal = λ claims. claims.exp ∷ claims.iat ∷ claims.sub;
  unmarshal = parsed;
  name_of = λ i. i ∷ [];
  ident_of = ident_of;
}

shifted_back-shifted : (x : Text) → shifted_back (shifted x) ≡ x
shifted_back-shifted [] = refl
shifted_back-shifted (x ∷ xs) = ground (arith, shifted_back-shifted xs)

shifted_dotless : (x : Text) → has_byte b'.' (shifted x) ≡ false
shifted_dotless [] = refl
shifted_dotless (x ∷ xs) = ground (arith, shifted_dotless xs)

codec-IsCodec : IsCodec codec
codec-IsCodec = record {
  decode_encode = λ x. ap some (shifted_back-shifted x);
  encode_dotless = shifted_dotless;
  unmarshal_marshal = λ claims h. (object_of claims.exp claims.sub, refl, refl, refl);
  ident_of_name = λ i. refl;
  name_filled = λ i. (i, [], refl);
}

-- A store as a function from keys to values with the time at which they go.
abbrev Table : Type 0
Table = Text → Option (Text × ℕ)

abbrev live : ℕ → Option (Text × ℕ) → Option Text
live now none = none
live now (some e) = if ltb now e.1 then some e.0 else none

abbrev put : Text → Option (Text × ℕ) → Table → Table
put k v s j = if same_text j k then v else s j

abbrev redis : SessionStore Table
redis = record {
  get = λ now k s. live now (s k);
  set = λ now k v ttl s. put k (some (v, now + ttl)) s;
  delete = λ k s. (true, put k none s);
}

put_same : (k : Text) (v : Option (Text × ℕ)) (s : Table) → put k v s k ≡ v
put_same k v s = ap (λ b. if b then v else s k) (same_text_refl k)

put_other :
    (j k : Text) (v : Option (Text × ℕ)) (s : Table) → same_text j k ≡ false → put k v s j ≡ s j
put_other j k v s h = ap (λ b. if b then v else s j) h

put-none :
    (j k : Text) (later : ℕ) (s : Table)
    → (same_text j k ≡ true) ⊎ (same_text j k ≡ false)
    → live later (s j) ≡ none
    → live later (put k none s j) ≡ none
put-none j k later s (inl e) h = ap (λ b. live later (if b then none else s j)) e
put-none j k later s (inr e) h = ap (λ b. live later (if b then none else s j)) e ∙ h

redis-IsSessionStore : IsSessionStore redis
redis-IsSessionStore = record {
  get_set = λ now later ttl k v s h.
      ap (live later) (put_same k (some (v, now + ttl)) s) ∙ ground (arith, h);
  get_expired = λ now later ttl k v s h.
      ap (live later) (put_same k (some (v, now + ttl)) s) ∙ ground (arith, h);
  get_set_other =
      λ now later ttl k j v s h. ap (live later) (put_other j k (some (v, now + ttl)) s h);
  get_delete = λ later k s h. ap (live later) (put_same k none s);
  get_delete_none = λ later k j s h. put-none j k later s (Bool-cases (same_text j k)) h;
  get_delete_other = λ later k j s h. ap (live later) (put_other j k none s h);
}

abbrev store : SessionStore Table
store = redis_sessions redis

store-IsSessionStore : IsSessionStore store
store-IsSessionStore = redis_sessions-IsSessionStore redis redis-IsSessionStore

abbrev user : User
user = record {
  id = 5;
  wallet_address = 50;
  user_type = human;
  balance = money_of (pos 7);
  locked_balance = pos 0;
  is_admin = false;
}

abbrev users : List (Ident × User)
users = (5, user) ∷ []

abbrev secret : Text
secret = codes "secret"

validate_token-generate_jwt_example :
    validate_token codec secret 900 (generate_jwt codec secret 100 5) users
    ≡ (if ltb (100 + day) 900 then err (app_error unauthorized) else ok user)
validate_token-generate_jwt_example =
    validate_token-generate_jwt codec secret 100 900 user users codec-IsCodec (omega arith) refl

validate_token-IsGenuine_example :
    (name : Text) × IsGenuine codec secret 900 (generate_jwt codec secret 100 5) name
    × (lookup (ident_of name) users ≡ some user)
unfolding program
validate_token-IsGenuine_example =
    validate_token-IsGenuine codec secret 900 (generate_jwt codec secret 100 5) users user refl

abbrev start : AuthState Table
start = record { sessions = λ k. none; users = users }

abbrev message : Text
message = message_with [] (codes "abc") []

abbrev given : AuthState Table
given = (generate_nonce store codec secret 10 (codes "abc") start).1

-- A request for another nonce, a sign-in with that nonce, and a change of the users.
abbrev in_between : List AuthCall
in_between =
    asks 21 (codes "xyz")
    ∷ verifies 22 9 (message_with [] (codes "xyz") []) (codes "sig") 70
    ∷ others []
    ∷ []

verify_siwe-once_example :
    verify_siwe store codec secret 30 8 message (codes "sig") 60 (
      make_calls store codec secret in_between
        (verify_siwe store codec secret 20 7 message (codes "x_bad") 50 given).1)
    ≡ (
      err (app_error unauthorized),
      make_calls store codec secret in_between
          (verify_siwe store codec secret 20 7 message (codes "x_bad") 50 given).1,
    )
unfolding program
verify_siwe-once_example =
    verify_siwe-once store codec secret 20 30 7 8 message message (codes "x_bad") (codes "sig")
      (codes "abc") (codes "pending") 50 60 in_between given store-IsSessionStore refl refl refl
      refl (refl, (tt, (tt, tt)))

-- A store that has lost its connection when it is to delete.
abbrev cut_off : SessionStore Table
cut_off = record { get = store.get; set = store.set; delete = λ k s. (false, s) }

abbrev given_cut_off : AuthState Table
given_cut_off = (generate_nonce cut_off codec secret 10 (codes "abc") start).1

verify_siwe-replayed_example :
    (verify_siwe cut_off codec secret 30 9 message
      (codes "sig")
      60
      (verify_siwe cut_off codec secret 20 8 message (codes "sig") 60 given_cut_off).1).0
    ≡ ok (
      wallet_user 9 60 (users_after 8 60 users),
      generate_jwt codec secret 30 (wallet_user 9 60 (users_after 8 60 users)).id,
    )
unfolding program
verify_siwe-replayed_example =
    verify_siwe-replayed cut_off codec secret 20 30 8 9 message (codes "sig") (codes "abc")
      (codes "pending") (codes "pending") 60 given_cut_off refl refl refl refl refl refl refl

verify_siwe-generate_nonce_example :
    verify_siwe store codec secret 20 8
      (message_with [] (codes "abc") [])
      (codes "sig")
      60
      (generate_nonce store codec secret 10 (codes "abc") start).1
    ≡ (
      ok (wallet_user 8 60 users, generate_jwt codec secret 20 (wallet_user 8 60 users).id),
      record {
        sessions =
            (store.delete
              (nonce_key (codes "abc"))
              (generate_nonce store codec secret 10 (codes "abc") start).1.sessions).1;
        users = users_after 8 60 users;
      },
    )
unfolding program
verify_siwe-generate_nonce_example =
    verify_siwe-generate_nonce store codec secret 10 20 8 [] b'a' (codes "bc") [] (codes "sig") 60
      start (redis_sessions-IsSessionStore redis redis-IsSessionStore) tt (refl, (refl, (refl, tt)))
      (omega arith) refl refl

a_new_wallet_gets_a_user : users_after 8 60 users ≡ (5, user) ∷ (8, new_user 8 60) ∷ []
a_new_wallet_gets_a_user = refl

abbrev draw : Text
draw = codes "0123456789abcdef0123456789abcdef0123456789abcdef"

generate_api_key-life_example :
    (generate_api_key shifted draw 3 5 []
      ≡ (ok (raw_key_of draw, new_key shifted draw 3 5), new_key shifted draw 3 5 ∷ []))
    × (validate_api_key shifted (raw_key_of draw) (new_key shifted draw 3 5 ∷ []) users ≡ ok user)
    × (revoke_api_key 5 (take 10 (raw_key_of draw)) (new_key shifted draw 3 5 ∷ [])
        ≡ (ok tt, deactivated (new_key shifted draw 3 5) ∷ []))
    × (validate_api_key shifted
          (raw_key_of draw)
          (deactivated (new_key shifted draw 3 5) ∷ [])
          users
        ≡ err (app_error unauthorized))
generate_api_key-life_example = generate_api_key-life shifted draw 3 5 user [] users refl refl refl

-- A key of user 5 and one of user 6, newest first.
abbrev two_keys : List ApiKey
two_keys =
    new_key shifted draw 4 6
    ∷ new_key shifted (codes "fedcba9876543210fedcba9876543210fedcba9876543210") 3 5
    ∷ []

revoke_api_key-RevokesOwn_example :
    ((revoke_api_key 5 (codes "tm_fedcba9") two_keys).0 ≡ ok tt)
      × RevokesOwn 5
          (codes "tm_fedcba9")
          two_keys
          (revoke_api_key 5 (codes "tm_fedcba9") two_keys).1
    ⊎ (revoke_api_key 5 (codes "tm_fedcba9") two_keys ≡ (err (app_error forbidden), two_keys))
revoke_api_key-RevokesOwn_example =
    revoke_api_key-RevokesOwn 5 (codes "tm_fedcba9") two_keys ((refl, tt), (tt, tt))

-- ===== src/Auth.antt =====
-- Sessions of the API service (services/auth_service.py, deps.py and the repositories of users and
-- tokens in services/api/src/grosh_api). Hashes, bcrypt, hexadecimal texts and the coding of JWTs are
-- parameters, as are the random bytes and ids of a call. Instants are microseconds.
pub mod Refreshed
pub mod Rotation
pub mod Kept
pub mod Revocation
mod Examples
use grosh.Prelude.{
  ℕ, ◌+◌, String, Bool, true, false, not, ◌&&◌, ◌||◌, Option, none, some, List, [], ◌∷◌, ◌++◌, map,
  filter, any, if◌then◌else◌, ◌==◌, ltb, str_eq,
}

-- The columns of `users` that a session depends on.
pub record UserRecord : Type 0 where
  pub id : ℕ
  pub email : String
  pub password_hash : String
  pub is_active : Bool
  pub last_active_at : Option ℕ

pub record TokenRecord : Type 0 where
  pub id : ℕ
  pub user_id : ℕ
  pub token_hash : String
  pub expires_at : ℕ

pub record RevokedToken : Type 0 where
  pub jti : ℕ
  pub expires_at : ℕ

pub record Tables : Type 0 where
  pub users : List UserRecord
  pub refresh_tokens : List TokenRecord
  pub revoked_tokens : List RevokedToken

-- The claims of an access token; none is a claim that is missing or malformed.
pub record Claims : Type 0 where
  pub sub : Option ℕ
  pub jti : Option ℕ
  pub exp : Option ℕ

-- `B` are byte strings. A text of an email is compared without case (`citext`).
pub record Crypto (B : Type 0) : Type 0 where
  pub from_hex : String → Option B
  pub to_hex : B → String
  pub sha256 : B → String
  pub checkpw : String → String → Bool
  pub encode_jwt : Claims → String
  pub decode_jwt : ℕ → String → Option Claims
  pub same_email : String → String → Bool

-- The time of a call and what is random in it.
pub record Call (B : Type 0) : Type 0 where
  pub now : ℕ
  pub token_bytes : B
  pub token_id : ℕ
  pub jti : ℕ

pub data AuthError : Type 0 where
  invalid_credentials session_expired invalid_access_token not_authenticated unique_violation :
      AuthError

pub data Answer (A : Type 0) : Type 0 where
  raised : AuthError → Answer A
  returned : A → Answer A

-- Fifteen minutes, and thirty days.
abbrev pub access_token_ttl : ℕ
access_token_ttl = 900_000_000

abbrev pub refresh_token_ttl : ℕ
refresh_token_ttl = 2_592_000_000_000

unfoldable pub get_by_id : List UserRecord → ℕ → Option UserRecord
get_by_id [] user_id = none
get_by_id (u ∷ users) user_id =
    let rest = get_by_id users user_id in if u.id == user_id then some u else rest

unfoldable pub touch_last_active_at : ℕ → List UserRecord → ℕ → List UserRecord
touch_last_active_at now users user_id =
    map (λ u. if u.id == user_id then record u { last_active_at = some now } else u) users

unfoldable pub get_by_hash : List TokenRecord → String → Option TokenRecord
get_by_hash [] token_hash = none
get_by_hash (t ∷ tokens) token_hash =
    let rest = get_by_hash tokens token_hash in
    if str_eq t.token_hash token_hash then some t else rest

unfoldable pub delete_token : List TokenRecord → ℕ → List TokenRecord
delete_token tokens token_id = filter (λ t. not (t.id == token_id)) tokens

unfoldable pub delete_by_user : List TokenRecord → ℕ → List TokenRecord
delete_by_user tokens user_id = filter (λ t. not (t.user_id == user_id)) tokens

unfoldable pub is_revoked : List RevokedToken → ℕ → Bool
is_revoked revoked jti = any (λ r. r.jti == jti) revoked

-- `ON CONFLICT (jti) DO NOTHING`
unfoldable pub insert_revoked : List RevokedToken → ℕ → ℕ → List RevokedToken
unfolding is_revoked
insert_revoked revoked jti expires_at =
    if is_revoked revoked jti
    then revoked
    else revoked ++ record { jti = jti; expires_at = expires_at } ∷ []

module _ {B : Type 0} (crypto : Crypto B) where
  unfoldable pub get_by_email : List UserRecord → String → Option UserRecord
  get_by_email [] email = none
  get_by_email (u ∷ users) email =
      let rest = get_by_email users email in
      if crypto.same_email u.email email then some u else rest

  unfoldable pub encode_access_token : Call B → ℕ → String
  encode_access_token call user_id =
      crypto.encode_jwt (record {
        sub = some user_id;
        jti = some call.jti;
        exp = some (call.now + access_token_ttl);
      })

  abbrev pub new_token : Call B → ℕ → TokenRecord
  new_token call user_id = record {
    id = call.token_id;
    user_id = user_id;
    token_hash = crypto.sha256 call.token_bytes;
    expires_at = call.now + refresh_token_ttl;
  }

  -- `_create_refresh_token`: the raw token and the table; the hash is unique.
  unfoldable pub create_refresh_token :
      Call B → List TokenRecord → ℕ → Answer (String × List TokenRecord)
  create_refresh_token call tokens user_id =
      if any (λ t. str_eq t.token_hash (crypto.sha256 call.token_bytes)) tokens
      then raised unique_violation
      else returned (crypto.to_hex call.token_bytes, tokens ++ new_token call user_id ∷ [])

  abbrev pub session_of :
      Call B → Tables → ℕ → Answer (String × List TokenRecord) → Answer ((String × String) × Tables)
  session_of call db user_id (raised e) = raised e
  session_of call db user_id (returned (raw_token, tokens)) = returned (
    (encode_access_token call user_id, raw_token),
    record db { users = touch_last_active_at call.now db.users user_id; refresh_tokens = tokens },
  )

  -- The tokens of a session of the user, over the refresh tokens that are left.
  abbrev pub open_session :
      Call B → Tables → List TokenRecord → ℕ → Answer ((String × String) × Tables)
  open_session call db tokens user_id =
      session_of call db user_id (create_refresh_token call tokens user_id)

  abbrev pub login_as :
      Call B → Tables → String → Option UserRecord → Answer ((String × String) × Tables)
  login_as call db password none = raised invalid_credentials
  login_as call db password (some user) =
      if crypto.checkpw password user.password_hash && user.is_active
      then open_session call db db.refresh_tokens user.id
      else raised invalid_credentials

  -- Access token and refresh token; an exception leaves the tables.
  unfoldable pub login : Call B → Tables → String → String → Answer ((String × String) × Tables)
  unfolding get_by_email create_refresh_token encode_access_token touch_last_active_at
  login call db email password = login_as call db password (get_by_email db.users email)

  abbrev pub refresh_for :
      Call B → Tables → TokenRecord → Option UserRecord → Answer ((String × String) × Tables)
  refresh_for call db token none = raised session_expired
  refresh_for call db token (some user) =
      if user.is_active
      then open_session call db (delete_token db.refresh_tokens token.id) user.id
      else raised session_expired

  abbrev pub refresh_with :
      Call B → Tables → Option TokenRecord → Answer ((String × String) × Tables)
  refresh_with call db none = raised session_expired
  refresh_with call db (some token) =
      if ltb token.expires_at call.now
      then raised session_expired
      else refresh_for call db token (get_by_id db.users token.user_id)

  abbrev pub looked_up : List TokenRecord → Option B → Option TokenRecord
  looked_up tokens none = none
  looked_up tokens (some bytes) = get_by_hash tokens (crypto.sha256 bytes)

  -- The token that a raw text names.
  abbrev pub find_token : Tables → String → Option TokenRecord
  find_token db raw_token = looked_up db.refresh_tokens (crypto.from_hex raw_token)

  unfoldable pub refresh : Call B → Tables → String → Answer ((String × String) × Tables)
  unfolding get_by_hash get_by_id delete_token create_refresh_token encode_access_token
      touch_last_active_at
  refresh call db raw_token = refresh_with call db (find_token db raw_token)

  abbrev pub revoke_jti : Tables → Option ℕ → Option ℕ → Tables
  revoke_jti db (some jti) (some exp) = record db {
    revoked_tokens = insert_revoked db.revoked_tokens jti exp;
  }
  revoke_jti db _ _ = db

  abbrev pub revoke_claims : Tables → Option Claims → Tables
  revoke_claims db none = db
  revoke_claims db (some claims) = revoke_jti db claims.jti claims.exp

  -- `_revoke_access_token`; the empty text is no token.
  unfoldable pub revoke_access_token : ℕ → Tables → Option String → Tables
  unfolding insert_revoked
  revoke_access_token now db none = db
  revoke_access_token now db (some access_token) =
      if str_eq access_token "" then db else revoke_claims db (crypto.decode_jwt now access_token)

  abbrev pub drop_token : Tables → Option TokenRecord → Tables
  drop_token db none = db
  drop_token db (some token) = record db {
    refresh_tokens = delete_token db.refresh_tokens token.id;
  }

  unfoldable pub logout : ℕ → Tables → String → Option String → Tables
  unfolding get_by_hash delete_token revoke_access_token
  logout now db raw_refresh_token access_token =
      revoke_access_token now (drop_token db (find_token db raw_refresh_token)) access_token

  unfoldable pub logout_all : ℕ → Tables → ℕ → Option String → Tables
  unfolding delete_by_user revoke_access_token
  logout_all now db user_id access_token =
      revoke_access_token now
        (record db { refresh_tokens = delete_by_user db.refresh_tokens user_id }) access_token

  abbrev pub jti_revoked : Tables → Option ℕ → Bool
  jti_revoked db none = false
  jti_revoked db (some jti) = is_revoked db.revoked_tokens jti

  abbrev pub active_user : Option UserRecord → Answer UserRecord
  active_user none = raised not_authenticated
  active_user (some user) = if user.is_active then returned user else raised not_authenticated

  abbrev pub user_of : Tables → Option ℕ → Answer UserRecord
  user_of db none = raised not_authenticated
  user_of db (some user_id) = active_user (get_by_id db.users user_id)

  abbrev pub user_of_claims : Tables → Option Claims → Answer UserRecord
  user_of_claims db none = raised invalid_access_token
  user_of_claims db (some claims) =
      if jti_revoked db claims.jti then raised not_authenticated else user_of db claims.sub

  -- `get_current_user`, for the token of a bearer header.
  unfoldable pub get_current_user : ℕ → Tables → String → Answer UserRecord
  unfolding is_revoked get_by_id
  get_current_user now db token = user_of_claims db (crypto.decode_jwt now token)

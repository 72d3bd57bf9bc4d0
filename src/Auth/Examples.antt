-- ===== src/Auth/Examples.antt =====
-- A refresh and a log-out over one user with one refresh token.
use grosh.Prelude.{
  ℕ, String, true, none, some, [], ◌∷◌, ◌≡◌, ◌≢◌, ◌∙◌, sym, false, ◌⊎◌, inl, inr, refl, Member,
  str_eq, str_eq_iff, ltb,
}
use grosh.Auth.{
  UserRecord, TokenRecord, Tables, Claims, Crypto, Call, AuthError, session_expired,
  invalid_credentials, raised, returned, get_by_id, login, refresh, logout, logout_all, find_token,
  new_token, get_by_email, get_by_hash, delete_token, create_refresh_token, encode_access_token,
  touch_last_active_at, get_current_user,
}
use grosh.Auth.Kept.{Reach}
use grosh.Auth.Rotation.{HasKey, refresh-rotates}
use grosh.Auth.Revocation.{logout-refused}

abbrev claims : Claims
claims = record { sub = some 1; jti = some 70; exp = some 900_000_000 }

-- Texts are their own bytes and hashes, and every access token has the same claims.
abbrev plain : Crypto String
plain = record {
  from_hex = λ text. some text;
  to_hex = λ bytes. bytes;
  sha256 = λ bytes. bytes;
  checkpw = str_eq;
  encode_jwt = λ c. "access";
  decode_jwt = λ now text. some claims;
  same_email = str_eq;
}

abbrev user : UserRecord
user = record {
  id = 1;
  email = "ana@example.org";
  password_hash = "secret";
  is_active = true;
  last_active_at = none;
}

abbrev old_token : TokenRecord
old_token = record { id = 7; user_id = 1; token_hash = "old"; expires_at = 1_000 }

abbrev tables : Tables
tables = record { users = user ∷ []; refresh_tokens = old_token ∷ []; revoked_tokens = [] }

abbrev call : Call String
call = record { now = 500; token_bytes = "new"; token_id = 8; jti = 71 }

abbrev refreshed : Tables
refreshed = record {
  users = record user { last_active_at = some 500 } ∷ [];
  refresh_tokens = new_token plain call 1 ∷ [];
  revoked_tokens = [];
}

refreshes : refresh plain call tables "old" ≡ returned (("access", "new"), refreshed)
unfolding refresh get_by_hash get_by_id delete_token create_refresh_token encode_access_token
    touch_last_active_at
refreshes = refl

wrong_password : login plain call tables "ana@example.org" "guess" ≡ raised invalid_credentials
unfolding login get_by_email
wrong_password = refl

one_of : {a : TokenRecord} → Member a tables.refresh_tokens → a ≡ old_token
one_of (inl e) = sym e
one_of (inr n) = elim n [ ]

tables-HasKey : HasKey tables.refresh_tokens
tables-HasKey a b m n h = one_of m ∙ sym (one_of n)

some-injective : {a b : String} → some a ≡ some b → a ≡ b
some-injective h = cc

abbrev old_text : String
old_text = "old"

abbrev new_text : String
new_text = "new"

texts_differ : old_text ≢ new_text
texts_differ e = different ((str_eq_iff old_text new_text).1 e)
  where
    different : str_eq old_text new_text ≡ true → ⊥
    different h = cc

new_hash :
    (b : String) → plain.from_hex "old" ≡ some b → plain.sha256 b ≢ plain.sha256 call.token_bytes
new_hash b h e = texts_differ (rw (some-injective h) e)

refresh-rotates_example :
    ((later : Call String) → refresh plain later refreshed "old" ≡ raised session_expired)
    × (u : UserRecord) × (t : TokenRecord) × (find_token plain tables "old" ≡ some t)
    × (ltb t.expires_at call.now ≡ false)
    × (get_by_id tables.users t.user_id ≡ some u)
    × (u.is_active ≡ true)
    × (find_token plain refreshed "new" ≡ some (new_token plain call u.id))
refresh-rotates_example =
    refresh-rotates plain call tables "old" tables-HasKey (λ b. refl) new_hash refreshes

claims_stable :
    (later : ℕ)
    → (plain.decode_jwt later "access" ≡ none) ⊎ (plain.decode_jwt later "access" ≡ some claims)
claims_stable later = inr refl

logout-refused_example :
    ((db : Tables)
      → Reach plain (logout plain 600 refreshed "new" (some "access")) db
      → (later : ℕ) → (e : AuthError) × (get_current_user plain later db "access" ≡ raised e))
    × ((db : Tables)
        → Reach plain (logout_all plain 600 refreshed 1 (some "access")) db
        → (later : ℕ) → (e : AuthError) × (get_current_user plain later db "access" ≡ raised e))
    × ((raw : String) (token : TokenRecord)
        → find_token plain (logout_all plain 600 refreshed 1 (some "access")) raw ≡ some token
        → token.user_id ≢ 1)
logout-refused_example =
    logout-refused plain "access" claims 70 900_000_000 refl refl refl 600 refreshed "new" 1 refl
      claims_stable

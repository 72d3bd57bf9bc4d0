-- ===== src/Auth/Revocation.antt =====
-- An access token that was revoked stays revoked.
use grosh.Prelude.{
  ℕ, String, true, false, none, some, ◌≡◌, ◌≢◌, ◌∙◌, ◌⊎◌, inl, inr, refl, ap, subst, str_eq, Member,
}
use grosh.Auth.{
  TokenRecord, Tables, Claims, Crypto, AuthError, not_authenticated, invalid_access_token, raised,
  is_revoked, find_token, delete_by_user, revoke_access_token, drop_token, logout, logout_all,
  user_of_claims, get_current_user,
}
use grosh.Auth.Kept.{
  inserted_revoked, revoke_access_token-tokens, looked_up-Member, left, Reach, Reach-keeps,
}

module _ {B : Type 0} (crypto : Crypto B) where
  module _ (access_token : String) (claims : Claims) (jti exp : ℕ) (has_jti : claims.jti ≡ some jti)
      (has_exp : claims.exp ≡ some exp) (nonempty : str_eq access_token "" ≡ false) where
    revoke-revoked :
        (now : ℕ) (db : Tables)
        → crypto.decode_jwt now access_token ≡ some claims
        → is_revoked (revoke_access_token crypto now db (some access_token)).revoked_tokens jti
          ≡ true
    unfolding revoke_access_token
    revoke-revoked now db d =
        rw (nonempty, d, has_jti, has_exp) (inserted_revoked db.revoked_tokens jti exp)

    -- The token is refused at any time where its jti is revoked.
    refused :
        (later : ℕ) (db : Tables)
        → is_revoked db.revoked_tokens jti ≡ true
        → (crypto.decode_jwt later access_token ≡ none)
          ⊎ (crypto.decode_jwt later access_token ≡ some claims)
        → (e : AuthError) × (get_current_user crypto later db access_token ≡ raised e)
    unfolding get_current_user
    refused later db h (inl d) = (invalid_access_token, ap (user_of_claims crypto db) d)
    refused later db h (inr d) =
        (not_authenticated, ap (user_of_claims crypto db) d ∙ (rw (has_jti, h) refl))

    -- A log-out, of one session or of all sessions of a user, with a valid access token that has an
    -- id and an expiry, where the decoding of the token depends on the time only in that it fails:
    -- whatever log-ins, refreshes and log-outs follow, the token is refused from then on. After a
    -- log-out of all sessions no refresh token that is found belongs to the user.
    pub logout-refused :
        (now : ℕ) (db : Tables) (raw_token : String) (user_id : ℕ)
        → crypto.decode_jwt now access_token ≡ some claims
        → ((later : ℕ)
            → (crypto.decode_jwt later access_token ≡ none)
              ⊎ (crypto.decode_jwt later access_token ≡ some claims))
        → ((db' : Tables)
            → Reach crypto (logout crypto now db raw_token (some access_token)) db'
            → (later : ℕ)
            → (e : AuthError) × (get_current_user crypto later db' access_token ≡ raised e))
          × ((db' : Tables)
              → Reach crypto (logout_all crypto now db user_id (some access_token)) db'
              → (later : ℕ)
              → (e : AuthError) × (get_current_user crypto later db' access_token ≡ raised e))
          × ((raw : String) (token : TokenRecord)
              → find_token crypto (logout_all crypto now db user_id (some access_token)) raw
                ≡ some token
              → token.user_id ≢ user_id)
    unfolding logout logout_all
    logout-refused now db raw_token user_id d stable = (
      λ db' r later.
          refused later db'
            (Reach-keeps crypto r jti
              (revoke-revoked now (drop_token crypto db (find_token crypto db raw_token)) d))
            (stable later),
      λ db' r later.
          refused later db' (Reach-keeps crypto r jti (revoke-revoked now _ d)) (stable later),
      λ raw token found. others raw token found,
    )
      where
        others :
            (raw : String) (token : TokenRecord)
            → find_token crypto (logout_all crypto now db user_id (some access_token)) raw
              ≡ some token
            → token.user_id ≢ user_id
        others raw token found = left crypto db user_id token (
            subst (Member token)
              (revoke_access_token-tokens crypto now
                (record db { refresh_tokens = delete_by_user db.refresh_tokens user_id })
                (some access_token))
              (looked_up-Member crypto _ (crypto.from_hex raw) token found))

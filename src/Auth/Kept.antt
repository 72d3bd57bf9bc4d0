-- ===== src/Auth/Kept.antt =====
-- What a session service that runs never forgets: the tokens it has revoked.
use grosh.Prelude.{
  ℕ, String, Bool, true, false, not, Option, none, some, List, [], ◌∷◌, ◌++◌, ◌≡◌, ◌≢◌, ◌∙◌, inl,
  inr, refl, sym, ap, arith, any, if◌then◌else◌, ◌==◌, ltb, str_eq, Bool-cases, Member,
  Member-filter,
}
use grosh.Auth.Refreshed.{returned-injective, get_by_hash-Member}
use grosh.Auth.{
  UserRecord, TokenRecord, RevokedToken, Tables, Claims, Crypto, Call, AuthError, Answer, raised,
  returned, get_by_id, is_revoked, insert_revoked, session_of, login, login_as, refresh,
  refresh_for, refresh_with, looked_up, find_token, delete_by_user, revoke_access_token,
  revoke_claims, revoke_jti, drop_token, logout, logout_all,
}

-- Every token that is revoked first is revoked then.
abbrev pub KeepsRevoked : Tables → Tables → Type 0
KeepsRevoked db db' =
    (jti : ℕ) → is_revoked db.revoked_tokens jti ≡ true → is_revoked db'.revoked_tokens jti ≡ true

inserted_keeps :
    (revoked : List RevokedToken) (jti exp i : ℕ)
    → is_revoked revoked i ≡ true
    → is_revoked (insert_revoked revoked jti exp) i ≡ true
unfolding is_revoked insert_revoked
inserted_keeps revoked jti exp i h = elim (Bool-cases (is_revoked revoked jti)) [
  | inl e ↦ ground (arith, e, h)
  | inr e ↦ ground (arith, e, appended revoked h)
]
  where
    appended :
        (rs : List RevokedToken)
        → any (λ r. r.jti == i) rs ≡ true
        → any (λ r. r.jti == i) (rs ++ record { jti = jti; expires_at = exp } ∷ []) ≡ true
    appended [] h = absurd (ground arith)
    appended (r ∷ rs) h = ground (arith, appended rs)

pub inserted_revoked :
    (revoked : List RevokedToken) (jti exp : ℕ)
    → is_revoked (insert_revoked revoked jti exp) jti ≡ true
unfolding is_revoked insert_revoked
inserted_revoked revoked jti exp = elim (Bool-cases (is_revoked revoked jti)) [
  | inl e ↦ ground (arith, e)
  | inr e ↦ ground (arith, e, appended revoked)
]
  where
    appended :
        (rs : List RevokedToken)
        → any (λ r. r.jti == jti) (rs ++ record { jti = jti; expires_at = exp } ∷ []) ≡ true
    appended [] = ground arith
    appended (r ∷ rs) = ground (arith, appended rs)

module _ {B : Type 0} (crypto : Crypto B) where
  revoke_jti-keeps :
      (db : Tables) (jti exp : Option ℕ) → KeepsRevoked db (revoke_jti crypto db jti exp)
  revoke_jti-keeps db none exp i h = h
  revoke_jti-keeps db (some jti) none i h = h
  revoke_jti-keeps db (some jti) (some exp) i h = inserted_keeps db.revoked_tokens jti exp i h

  revoke_claims-keeps :
      (db : Tables) (claims : Option Claims) → KeepsRevoked db (revoke_claims crypto db claims)
  revoke_claims-keeps db none i h = h
  revoke_claims-keeps db (some claims) i h = revoke_jti-keeps db claims.jti claims.exp i h

  revoke_access_token-keeps :
      (now : ℕ) (db : Tables) (token : Option String)
      → KeepsRevoked db (revoke_access_token crypto now db token)
  unfolding revoke_access_token
  revoke_access_token-keeps now db none i h = h
  revoke_access_token-keeps now db (some token) i h = elim (Bool-cases (str_eq token "")) [
    | inl e ↦ rw e h
    | inr e ↦ rw e (revoke_claims-keeps db (crypto.decode_jwt now token) i h)
  ]

  revoke_claims-tokens :
      (db : Tables) (claims : Option Claims)
      → (revoke_claims crypto db claims).refresh_tokens ≡ db.refresh_tokens
  revoke_claims-tokens db none = refl
  revoke_claims-tokens db (some claims) = jti_tokens claims.jti claims.exp
    where
      jti_tokens :
          (jti exp : Option ℕ) → (revoke_jti crypto db jti exp).refresh_tokens ≡ db.refresh_tokens
      jti_tokens none exp = refl
      jti_tokens (some jti) none = refl
      jti_tokens (some jti) (some exp) = refl

  pub revoke_access_token-tokens :
      (now : ℕ) (db : Tables) (token : Option String)
      → (revoke_access_token crypto now db token).refresh_tokens ≡ db.refresh_tokens
  unfolding revoke_access_token
  revoke_access_token-tokens now db none = refl
  revoke_access_token-tokens now db (some token) = elim (Bool-cases (str_eq token "")) [
    | inl e ↦ rw e refl
    | inr e ↦ rw e (revoke_claims-tokens db (crypto.decode_jwt now token))
  ]

  pub looked_up-Member :
      (tokens : List TokenRecord) (bytes : Option B) (t : TokenRecord)
      → looked_up crypto tokens bytes ≡ some t
      → Member t tokens
  looked_up-Member tokens none t h = absurd cc
  looked_up-Member tokens (some bytes) t h = (get_by_hash-Member tokens (crypto.sha256 bytes) t h).0

  pub left :
      (db : Tables) (user_id : ℕ) (t : TokenRecord)
      → Member t (delete_by_user db.refresh_tokens user_id)
      → t.user_id ≢ user_id
  unfolding delete_by_user
  left db user_id t m e =
      let (_, h) = Member-filter t (λ t. not (t.user_id == user_id)) db.refresh_tokens m in
      ground (arith, h, e)

  drop_token-revoked :
      (db : Tables) (t : Option TokenRecord)
      → (drop_token crypto db t).revoked_tokens ≡ db.revoked_tokens
  drop_token-revoked db none = refl
  drop_token-revoked db (some t) = refl

  -- A session that is opened revokes nothing and forgets nothing.
  session_of-revoked :
      (call : Call B) (db : Tables) (user_id : ℕ) (c : Answer (String × List TokenRecord))
      (s : String × String) (db' : Tables)
      → session_of crypto call db user_id c ≡ returned (s, db')
      → db'.revoked_tokens ≡ db.revoked_tokens
  session_of-revoked call db user_id (raised e) s db' h = absurd cc
  session_of-revoked call db user_id (returned (raw, tokens)) s db' h =
      sym (ap (λ p. p.1.revoked_tokens) (returned-injective h))

  -- A test that must pass, before a session is opened.
  opened_if :
      (b : Bool) (e : AuthError) (opened : Answer ((String × String) × Tables))
      (s : String × String) (db' : Tables)
      → (if b then opened else raised e) ≡ returned (s, db')
      → opened ≡ returned (s, db')
  opened_if true e opened s db' h = h
  opened_if false e opened s db' h = absurd cc

  login_as-revoked :
      (call : Call B) (db : Tables) (password : String) (u : Option UserRecord)
      (s : String × String) (db' : Tables)
      → login_as crypto call db password u ≡ returned (s, db')
      → db'.revoked_tokens ≡ db.revoked_tokens
  login_as-revoked call db password none s db' h = absurd cc
  login_as-revoked call db password (some user) s db' h =
      session_of-revoked call db user.id _ s db' (opened_if _ _ _ s db' h)

  refresh_for-revoked :
      (call : Call B) (db : Tables) (t : TokenRecord) (u : Option UserRecord) (s : String × String)
      (db' : Tables)
      → refresh_for crypto call db t u ≡ returned (s, db')
      → db'.revoked_tokens ≡ db.revoked_tokens
  refresh_for-revoked call db t none s db' h = absurd cc
  refresh_for-revoked call db t (some user) s db' h =
      session_of-revoked call db user.id _ s db' (opened_if _ _ _ s db' h)

  refresh_with-revoked :
      (call : Call B) (db : Tables) (t : Option TokenRecord) (s : String × String) (db' : Tables)
      → refresh_with crypto call db t ≡ returned (s, db')
      → db'.revoked_tokens ≡ db.revoked_tokens
  refresh_with-revoked call db none s db' h = absurd cc
  refresh_with-revoked call db (some t) s db' h = elim (Bool-cases (ltb t.expires_at call.now)) [
    | inl e ↦ absurd (late e h)
    | inr e ↦ refresh_for-revoked call db t _ s db' (in_time e h)
  ]
    where
      late :
          ltb t.expires_at call.now ≡ true
          → refresh_with crypto call db (some t) ≡ returned (s, db')
          → ⊥
      late e h = ground (arith, e, h)

      in_time :
          ltb t.expires_at call.now ≡ false
          → refresh_with crypto call db (some t) ≡ returned (s, db')
          → refresh_for crypto call db t (get_by_id db.users t.user_id) ≡ returned (s, db')
      in_time e h = ground (arith, e, h)

  -- One call of the service that returns.
  pub data Step (db : Tables) (db' : Tables) : Type 0 where
    logs_in :
        (call : Call B) (email password : String) (s : String × String)
        → login crypto call db email password ≡ returned (s, db')
        → Step db db'
    refreshes :
        (call : Call B) (raw_token : String) (s : String × String)
        → refresh crypto call db raw_token ≡ returned (s, db')
        → Step db db'
    logs_out :
        (now : ℕ) (raw_token : String) (access_token : Option String)
        → db' ≡ logout crypto now db raw_token access_token
        → Step db db'
    logs_out_all :
        (now user_id : ℕ) (access_token : Option String)
        → db' ≡ logout_all crypto now db user_id access_token
        → Step db db'

  pub data Reach (db : Tables) : Tables → Type 0 where
    here : Reach db db
    next : {db₁ db₂ : Tables} → Reach db db₁ → Step db₁ db₂ → Reach db db₂

  logout-keeps :
      (now : ℕ) (db : Tables) (raw_token : String) (access_token : Option String)
      → KeepsRevoked db (logout crypto now db raw_token access_token)
  unfolding logout
  logout-keeps now db raw_token access_token i h =
      revoke_access_token-keeps now (drop_token crypto db (find_token crypto db raw_token))
        access_token i
        (ap (λ r. is_revoked r i) (drop_token-revoked db (find_token crypto db raw_token)) ∙ h)

  logout_all-keeps :
      (now : ℕ) (db : Tables) (user_id : ℕ) (access_token : Option String)
      → KeepsRevoked db (logout_all crypto now db user_id access_token)
  unfolding logout_all
  logout_all-keeps now db user_id access_token i h =
      revoke_access_token-keeps now _ access_token i h

  Step-keeps : {db db' : Tables} → Step db db' → KeepsRevoked db db'
  unfolding login refresh
  Step-keeps {db} {db'} (logs_in call email password s e) i h =
      ap (λ r. is_revoked r i) (login_as-revoked call db password _ s db' e) ∙ h
  Step-keeps {db} {db'} (refreshes call raw_token s e) i h =
      ap (λ r. is_revoked r i) (refresh_with-revoked call db _ s db' e) ∙ h
  Step-keeps {db} {db'} (logs_out now raw_token access_token e) i h =
      rw e (logout-keeps now db raw_token access_token i h)
  Step-keeps {db} {db'} (logs_out_all now user_id access_token e) i h =
      rw e (logout_all-keeps now db user_id access_token i h)

  pub Reach-keeps : {db db' : Tables} → Reach db db' → KeepsRevoked db db'
  Reach-keeps here i h = h
  Reach-keeps (next r st) i h = Step-keeps st i (Reach-keeps r i h)

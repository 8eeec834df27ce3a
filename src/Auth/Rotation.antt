-- ===== src/Auth/Rotation.antt =====
-- Rotation: a refresh token is exchanged at most once.
use node_js_nest_course_proj.Base.{
  ℕ, String, ◌≡◌, refl, sym, ap, subst, ◌∙◌, inl, inr, Bool, true, ◌||◌, some, List, [], ◌∷◌, arith,
  eq_iff, str_eq, Bool-cases, is_some,
}
use mathlib.Core.Option.{some-injective}
use node_js_nest_course_proj.Auth.{
  AuthUser, AuthDb, RefreshRow, NewPair, TokenPair, granted, refused, invalid_refresh_token, issue,
  refresh, find_token, mark_used,
}
use node_js_nest_course_proj.Auth.Rows.{Grows, Grows-append, find_token-Grows, mark_used-used}
use node_js_nest_course_proj.Auth.History.{AuthOp, history, history-Grows, refresh-cases}

-- The hash finds a token that was used or revoked.
abbrev pub IsSpent : String → List RefreshRow → Type 0
IsSpent h rs =
    (r : RefreshRow) × (find_token h rs ≡ some r)
    × (is_some r.used_at || is_some r.revoked_at ≡ true)

IsSpent-Grows :
    (h : String) (rs rs' : List RefreshRow) → Grows rs rs' → IsSpent h rs → IsSpent h rs'
IsSpent-Grows h rs rs' g (r, found, spent) =
    let (r', found', later) = find_token-Grows h rs rs' r g found in
    (r', found', ground (arith, later.still_used, later.still_revoked))

found_hash :
    (h : String) (rs : List RefreshRow) (r : RefreshRow)
    → find_token h rs ≡ some r
    → r.token_hash ≡ h
found_hash h [] r e = absurd (cc)
found_hash h (x ∷ xs) r e = elim (Bool-cases (str_eq x.token_hash h)) [
  | inl hit ↦
      let same : x ≡ r = some-injective _ _ (rw hit at e) in
      subst (λ y. y.token_hash ≡ h) same ((eq_iff x.token_hash h).0 hit)
  | inr miss ↦ found_hash h xs r (rw miss at e)
]

module _ (hash : String → String) (sign : AuthUser → String) (access_ttl refresh_ttl : ℕ)
    (scrypt_matches : String → String → String → Bool) (dummy : List String) where
  refresh-spent :
      (raw : String) (pair : NewPair) (now : ℕ) (db : AuthDb)
      → IsSpent (hash raw) db.refresh_tokens
      → (refresh hash sign access_ttl refresh_ttl raw pair now db).0 ≡ refused invalid_refresh_token
  refresh-spent raw pair now db (r, found, spent) =
      refresh-cases hash sign access_ttl refresh_ttl scrypt_matches dummy
        (λ x. x.0 ≡ refused invalid_refresh_token) raw pair now db refl (λ _ _ _. refl)
        λ row user e unused live.
          let same : row ≡ r = some-injective _ _ (sym e ∙ found) in
          absurd
            (ground (arith, ap (λ x. is_some x.used_at) same, ap (λ x. is_some x.revoked_at) same))

  refresh-granted :
      (raw : String) (pair : NewPair) (now : ℕ) (db : AuthDb) (p : TokenPair)
      → (refresh hash sign access_ttl refresh_ttl raw pair now db).0 ≡ granted p
      → IsSpent
          (hash raw)
          (refresh hash sign access_ttl refresh_ttl raw pair now db).1.refresh_tokens
  unfolding issue
  refresh-granted raw pair now db p =
      refresh-cases hash sign access_ttl refresh_ttl scrypt_matches dummy
        (λ x. x.0 ≡ granted p → IsSpent (hash raw) x.1.refresh_tokens) raw pair now db
        (λ h. absurd (cc)) (λ _ _ _ h. absurd (cc))
        λ row user e unused live _.
          let named = found_hash (hash raw) db.refresh_tokens row e in
          let (r', found, used) = mark_used-used now (hash raw) db.refresh_tokens row e in
          IsSpent-Grows (hash raw) (mark_used now row.token_hash db.refresh_tokens) _
            (Grows-append (mark_used now row.token_hash db.refresh_tokens) _)
            (r', rw named found, ground (arith, used))

  -- After a refresh token was exchanged, it is refused for good: whatever logins, refreshes, logouts
  -- and purges follow, whatever is drawn in them and at whatever times, a second exchange is refused.
  pub refresh_once :
      (raw : String) (pair again : NewPair) (now later : ℕ) (db : AuthDb) (p : TokenPair)
      (ops : List AuthOp)
      → (refresh hash sign access_ttl refresh_ttl raw pair now db).0 ≡ granted p
      → (refresh hash sign access_ttl refresh_ttl raw again later (
          history hash sign access_ttl refresh_ttl scrypt_matches dummy ops
            (refresh hash sign access_ttl refresh_ttl raw pair now db).1)).0
        ≡ refused invalid_refresh_token
  refresh_once raw pair again now later db p ops h =
      let db' = (refresh hash sign access_ttl refresh_ttl raw pair now db).1 in
      refresh-spent raw again later _ (
        IsSpent-Grows (hash raw) db'.refresh_tokens _
          (history-Grows hash sign access_ttl refresh_ttl scrypt_matches dummy ops db')
          (refresh-granted raw pair now db p h))

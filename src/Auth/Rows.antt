-- ===== src/Auth/Rows.antt =====
-- How the refresh tokens change over time: rows are added behind, and a row only gains marks.
use mathlib.Core.Option.{some-injective}
use node_js_nest_course_proj.Base.{
  ℕ, String, ◌≡◌, refl, subst, ◌∙◌, inl, inr, true, false, not, ◌&&◌, some, List, [], ◌∷◌, ◌++◌,
  str_eq, Bool-cases, if_elim, is_some,
}
use node_js_nest_course_proj.Auth.{RefreshRow, find_token, revoke_row, revoke_family, mark_used}

pub record IsLater (r r' : RefreshRow) : Type 0 where
  pub same_hash : r'.token_hash ≡ r.token_hash
  pub same_family : r'.family_id ≡ r.family_id
  pub still_used : is_some r.used_at ≡ true → is_some r'.used_at ≡ true
  pub still_revoked : is_some r.revoked_at ≡ true → is_some r'.revoked_at ≡ true

abbrev pub Grows : List RefreshRow → List RefreshRow → Type 0
Grows [] rs' = Unit
Grows (r ∷ rs) [] = ⊥
Grows (r ∷ rs) (r' ∷ rs') = IsLater r r' × Grows rs rs'

IsLater-refl : (r : RefreshRow) → IsLater r r
IsLater-refl r = record {
  same_hash = refl;
  same_family = refl;
  still_used = λ h. h;
  still_revoked = λ h. h;
}

IsLater-trans : (a b c : RefreshRow) → IsLater a b → IsLater b c → IsLater a c
IsLater-trans a b c h k = record {
  same_hash = k.same_hash ∙ h.same_hash;
  same_family = k.same_family ∙ h.same_family;
  still_used = λ u. k.still_used (h.still_used u);
  still_revoked = λ u. k.still_revoked (h.still_revoked u);
}

pub Grows-refl : (rs : List RefreshRow) → Grows rs rs
Grows-refl [] = tt
Grows-refl (r ∷ rs) = (IsLater-refl r, Grows-refl rs)

pub Grows-trans : (xs ys zs : List RefreshRow) → Grows xs ys → Grows ys zs → Grows xs zs
Grows-trans [] ys zs h k = tt
Grows-trans (a ∷ xs) [] zs h k = elim h [ ]
Grows-trans (a ∷ xs) (b ∷ ys) [] h k = elim k [ ]
Grows-trans (a ∷ xs) (b ∷ ys) (c ∷ zs) h k =
    (IsLater-trans a b c h.0 k.0, Grows-trans xs ys zs h.1 k.1)

pub Grows-append : (rs more : List RefreshRow) → Grows rs (rs ++ more)
Grows-append [] more = tt
Grows-append (r ∷ rs) more = (IsLater-refl r, Grows-append rs more)

revoke_row-IsLater :
    (now : ℕ) (family : String) (r : RefreshRow) → IsLater r (revoke_row now family r)
revoke_row-IsLater now family r =
    if_elim (IsLater r) (str_eq r.family_id family && not (is_some r.revoked_at))
      (λ _. record {
        same_hash = refl;
        same_family = refl;
        still_used = λ h. h;
        still_revoked = λ _. refl;
      })
      (λ _. IsLater-refl r)

pub revoke_family-Grows :
    (now : ℕ) (family : String) (rs : List RefreshRow) → Grows rs (revoke_family now family rs)
unfolding revoke_family
revoke_family-Grows now family [] = tt
revoke_family-Grows now family (r ∷ rs) =
    (revoke_row-IsLater now family r, revoke_family-Grows now family rs)

pub mark_used-Grows :
    (now : ℕ) (token_hash : String) (rs : List RefreshRow) → Grows rs (mark_used now token_hash rs)
unfolding mark_used
mark_used-Grows now h [] = tt
mark_used-Grows now h (r ∷ rs) =
    if_elim (Grows (r ∷ rs)) (str_eq r.token_hash h)
      (λ _. (
        record {
          same_hash = refl;
          same_family = refl;
          still_used = λ _. refl;
          still_revoked = λ k. k;
        },
        Grows-refl rs,
      ))
      (λ _. (IsLater-refl r, mark_used-Grows now h rs))

-- The row that a hash finds stays the row that it finds.
pub find_token-Grows :
    (h : String) (rs rs' : List RefreshRow) (r : RefreshRow)
    → Grows rs rs'
    → find_token h rs ≡ some r
    → (r' : RefreshRow) × (find_token h rs' ≡ some r') × IsLater r r'
find_token-Grows h [] rs' r g e = absurd (cc)
find_token-Grows h (x ∷ xs) [] r g e = elim g [ ]
find_token-Grows h (x ∷ xs) (x' ∷ xs') r g e = elim (Bool-cases (str_eq x.token_hash h)) [
  | inl hit ↦
      let same : x ≡ r = some-injective _ _ (rw hit at e) in
      let hit' : str_eq x'.token_hash h ≡ true = rw g.0.same_hash hit in
      (x', rw hit' refl, subst (λ y. IsLater y x') same g.0)
  | inr miss ↦
      let miss' : str_eq x'.token_hash h ≡ false = rw g.0.same_hash miss in
      let (r', found, later) = find_token-Grows h xs xs' r g.1 (rw miss at e) in
      (r', rw miss' found, later)
]

-- Marking finds the row that the hash finds, and leaves a mark on it.
pub mark_used-used :
    (now : ℕ) (h : String) (rs : List RefreshRow) (r : RefreshRow)
    → find_token h rs ≡ some r
    → (r' : RefreshRow) × (find_token h (mark_used now h rs) ≡ some r')
      × (is_some r'.used_at ≡ true)
unfolding mark_used
mark_used-used now h [] r e = absurd (cc)
mark_used-used now h (x ∷ xs) r e = elim (Bool-cases (str_eq x.token_hash h)) [
  | inl hit ↦ (record x { used_at = some now }, rw hit (rw hit refl), refl)
  | inr miss ↦
      let (r', found, used) = mark_used-used now h xs r (rw miss at e) in
      (r', rw miss (rw miss found), used)
]

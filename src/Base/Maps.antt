-- ===== src/Base/Maps.antt =====
-- A map as the list of its entries: the first entry of a key counts.
use Prim.Native.String.{String}
use mathlib.Core.Path.{◌≡◌, subst}
use mathlib.Core.Bool.{false}
use mathlib.Core.Logic.{inl, inr}
use mathlib.Core.Option.{Option, none, some, some-injective}
use mathlib.Core.List.{List, [], ◌∷◌}
use native.Mathlib.Omega.{arith}
use text.Mathlib.TextEquality.{eq_iff}
use node_js_nest_course_proj.Base.Tests.{str_eq, str_eq_self, if◌then◌else◌, if_elim, Bool-cases}
use node_js_nest_course_proj.Base.Lists.{All}

module _ {ℓ} {A : Type ℓ} where
  -- `map.get(key)`
  abbrev pub get : String → List (String × A) → Option A
  get key [] = none
  get key (entry ∷ entries) = if str_eq entry.0 key then some entry.1 else get key entries

  -- `map.set(key, value)`
  abbrev pub set : String → A → List (String × A) → List (String × A)
  set key value [] = (key, value) ∷ []
  set key value (entry ∷ entries) =
      let rest = set key value entries in
      if str_eq entry.0 key then (key, value) ∷ entries else entry ∷ rest

  pub get-set_same :
      (key : String) (value : A) (m : List (String × A)) → get key (set key value m) ≡ some value
  get-set_same key value [] = ground (arith, str_eq_self key)
  get-set_same key value (entry ∷ m) = ground (arith, str_eq_self key, get-set_same key value m)

  pub get-set_other :
      (key other : String) (value : A) (m : List (String × A))
      → str_eq key other ≡ false
      → get other (set key value m) ≡ get other m
  get-set_other key other value [] h = ground arith
  get-set_other key other value (entry ∷ m) h =
      let ih = get-set_other key other value m h in
      let hit = (eq_iff entry.0 key).0 in ground (arith)

  -- `map.delete(key)`
  abbrev pub remove : String → List (String × A) → List (String × A)
  remove key [] = []
  remove key (entry ∷ entries) =
      let rest = remove key entries in if str_eq entry.0 key then entries else entry ∷ rest

module _ {ℓ κ} {A : Type ℓ} where
  pub get-All :
      (P : String → A → Type κ) (key : String) (m : List (String × A)) {a : A}
      → All (λ e. P e.0 e.1) m
      → get key m ≡ some a
      → P key a
  get-All P key [] h e = absurd (cc)
  get-All P key (entry ∷ m) {a} h e = elim (Bool-cases (str_eq entry.0 key)) [
    | inl hit ↦
        subst (λ k. P k a) ((eq_iff entry.0 key).0 hit)
          (subst (P entry.0) (some-injective _ _ (rw hit at e)) h.0)
    | inr miss ↦ get-All P key m h.1 (rw miss at e)
  ]

  pub All-set :
      (P : String → A → Type κ) (key : String) (a : A) (m : List (String × A))
      → P key a
      → All (λ e. P e.0 e.1) m
      → All (λ e. P e.0 e.1) (set key a m)
  All-set P key a [] p h = (p, tt)
  All-set P key a (entry ∷ m) p h =
      let ih = All-set P key a m p h.1 in
      if_elim (λ (es : List (String × A)). All (λ e. P e.0 e.1) es) (str_eq entry.0 key)
        (λ hit. (p, h.1)) (λ miss. (h.0, ih))

  pub All-remove :
      (P : String → A → Type κ) (key : String) (m : List (String × A))
      → All (λ e. P e.0 e.1) m
      → All (λ e. P e.0 e.1) (remove key m)
  All-remove P key [] h = tt
  All-remove P key (entry ∷ m) h =
      let ih = All-remove P key m h.1 in
      if_elim (λ (es : List (String × A)). All (λ e. P e.0 e.1) es) (str_eq entry.0 key)
        (λ hit. h.1) (λ miss. (h.0, ih))

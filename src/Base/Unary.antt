-- ===== src/Base/Unary.antt =====
-- Numbers written in unary: texts for the tests in which a number is printed and read.
use Prim.Native.Nat.{ℕ, zero, suc}
use Prim.Native.String.{String}
use Prim.Native.Char.{Char}
use mathlib.Core.Path.{◌≡◌, refl, sym, ap, ◌∙◌}
use mathlib.Core.Logic.{inl, inr}
use mathlib.Core.Bool.{false}
use mathlib.Core.Option.{Option, none, some, some-injective}
use mathlib.Core.List.{List, [], ◌∷◌}
use native.Mathlib.Omega.{arith}
use text.Mathlib.TextEquality.{eq_iff}
use text.Mathlib.TextBridge.{to_list, of_list, to_list-of_list}
use node_js_nest_course_proj.Base.Tests.{str_eq, Bool-cases}
use node_js_nest_course_proj.Base.Lists.{length}

abbrev pub marks : ℕ → List Char
marks zero = "1" ∷ []
marks (suc n) = "1" ∷ marks n

abbrev pub encode : ℕ → String
encode n = of_list (marks n)

abbrev tally : List Char → Option ℕ
tally [] = none
tally (c ∷ cs) = some (length cs)

abbrev pub decode : String → Option ℕ
decode cursor = tally (to_list cursor)

length-marks : (n : ℕ) → length (marks n) ≡ suc n
length-marks zero = refl
length-marks (suc n) = omega (arith, length-marks n)

tally-marks : (n : ℕ) → tally (marks n) ≡ some n
tally-marks zero = refl
tally-marks (suc n) = ap some (length-marks n)

pub round_trip : (n : ℕ) → decode (encode n) ≡ some n
round_trip n = ap tally (to_list-of_list (marks n)) ∙ tally-marks n

pub not_empty : (n : ℕ) → str_eq (encode n) "" ≡ false
not_empty n = elim (Bool-cases (str_eq (encode n) "")) [
  | inl hit ↦
      let same : some n ≡ none =
        sym (round_trip n)
        ∙ ap decode ((eq_iff (encode n) "").0 hit)
        ∙ ap tally (to_list-of_list []) in
      absurd (cc)
  | inr miss ↦ miss
]

pub encode-injective : (m n : ℕ) → encode m ≡ encode n → m ≡ n
encode-injective m n h = some-injective _ _ (sym (round_trip m) ∙ ap decode h ∙ round_trip n)

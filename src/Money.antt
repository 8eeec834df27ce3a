-- ===== src/Money.antt =====
-- Amounts of money. A column numeric(12,2) is a number of cents. A number of JavaScript is a double: one
-- that was read from such a column is exact, and the product of a price and a quantity lies beside the
-- product of the cents, by less than half a cent while the result fits a column. How far off it is, in
-- hairs of 10^-17 cents, as the digits that JavaScript prints say, is drawn with each product.
use node_js_nest_course_proj.Base.{ℕ, ◌+◌, ◌*◌}

-- Nothing, or one more hair than the number says.
pub data Slip : Type 0 where
  even : Slip
  above below : ℕ → Slip

pub record Amount : Type 0 where
  pub cents : ℕ
  pub slip : Slip

-- `Number(column)`
abbrev pub exact : ℕ → Amount
exact cents = record { cents = cents; slip = even }

-- `price * quantity`, for doubles
abbrev pub multiply : Slip → ℕ → ℕ → Amount
multiply slip price quantity = record { cents = price * quantity; slip = slip }

abbrev pub excess : Slip → ℕ
excess even = 0
excess (above hairs) = 1
excess (below hairs) = 0

-- The least whole number of cents that is not less, which is what `column >= $1` asks of a column.
abbrev pub ceil_cents : Amount → ℕ
ceil_cents a = a.cents + excess a.slip

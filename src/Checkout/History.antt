-- ===== src/Checkout/History.antt =====
-- Checkouts one after another on the same tables, each with its own draw and its own faults.
use node_js_nest_course_proj.Money.{Amount}
use node_js_nest_course_proj.Base.{ℕ, String, Bool, List, [], ◌∷◌}
use node_js_nest_course_proj.Shop.{Db}
use node_js_nest_course_proj.Checkout.{CheckoutParams, Draw, Stage, checkout}
use node_js_nest_course_proj.Checkout.Course.{Writes}
use node_js_nest_course_proj.Checkout.Exits.{checkout-cases}

pub record Call : Type 0 where
  pub params : CheckoutParams
  pub draw : Draw
  pub faults : Stage → Bool

module _ (sha1 : String → List ℕ) (print_id : ℕ → String) where
  unfoldable pub after : Call → Db → Db
  after c db = (checkout sha1 print_id c.faults c.params c.draw db).1

  unfoldable pub run : List Call → Db → Db
  unfolding after
  run [] db = db
  run (c ∷ cs) db = run cs (after c db)

  -- What each committed checkout keeps, a history keeps.
  pub run-keeps {ℓ} :
      (P : Db → Type ℓ)
      → ((c : Call) (total : Amount) (db db' : Db)
          → P db
          → Writes sha1 print_id c.faults c.params c.draw total db db'
          → P db')
      → (cs : List Call) (db : Db) → P db
      → P (run cs db)
  unfolding run after
  run-keeps P keeps [] db h = h
  run-keeps P keeps (c ∷ cs) db h = run-keeps P keeps cs _ (
      checkout-cases sha1 print_id c.faults c.params c.draw P db h
        λ total db' w. keeps c total db db' h w)

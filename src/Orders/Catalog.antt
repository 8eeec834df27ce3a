-- ===== src/Orders/Catalog.antt =====
-- The catalogue in memory (src/products/products.service.ts).
use node_js_nest_course_proj.Base.{
  ℕ, suc, String, Option, none, some, List, [], ◌∷◌, ◌++◌, str_eq, keep, find, any,
}
use Prim.Native.String
use node_js_nest_course_proj.Pages.{Page, paginate}
use node_js_nest_course_proj.Orders.{Answer, ok, refused, not_found, bad_cursor}

pub record Product : Type 0 where
  pub id : String
  pub name : String
  pub price_cents : ℕ

-- The module's variables PRODUCTS and nextId.
pub record Catalog : Type 0 where
  pub products : List Product
  pub next_id : ℕ

abbrev pub seed_products : Catalog
seed_products = record {
  products =
      record { id = "p1"; name = "Клавіатура механічна"; price_cents = 129900 }
      ∷ record { id = "p2"; name = "Мишка бездротова"; price_cents = 45900 }
      ∷ record { id = "p3"; name = "Килимок для миші"; price_cents = 12900 }
      ∷ record { id = "p4"; name = "Монітор 27\""; price_cents = 899900 }
      ∷ record { id = "p5"; name = "Навушники"; price_cents = 219900 }
      ∷ [];
  next_id = 6;
}

abbrev pub or_bad_cursor : {A : Type 0} → Option (Page A) → Answer (Page A)
or_bad_cursor none = refused bad_cursor
or_bad_cursor (some page) = ok page

abbrev pub or_not_found : {A : Type 0} → Option A → Answer A
or_not_found none = refused not_found
or_not_found (some a) = ok a

unfoldable pub list_products :
    (ℕ → String) → (String → Option ℕ) → ℕ → Option String → Catalog → Answer (Page Product)
list_products encode_cursor decode_cursor limit cursor c =
    or_bad_cursor (paginate encode_cursor decode_cursor c.products limit cursor)

unfoldable pub product_by_id : String → Catalog → Answer Product
product_by_id id c = or_not_found (find (λ p. str_eq p.id id) c.products)

unfoldable pub find_by_ids : List String → Catalog → List Product
find_by_ids ids c = keep (λ p. any (λ id. str_eq id p.id) ids) c.products

unfoldable pub create_product : (ℕ → String) → String → ℕ → Catalog → Product × Catalog
create_product print name price_cents c =
    let product : Product = record {
      id = String.◌++◌ "p" (print c.next_id);
      name = name;
      price_cents = price_cents;
    } in
    (product, record { products = c.products ++ (product ∷ []); next_id = suc c.next_id })

-- ===== src/Pages.antt =====
-- Pages of a sorted list behind an opaque cursor (src/common/cursor.ts). The two directions of the
-- cursor's text are parameters; `none` is a text that is no offset.
pub mod Walk
mod Tests
use node_js_nest_course_proj.Base.{
  ℕ, zero, suc, ◌+◌, ◌-◌, ◌*◌, ◌/◌, ◌%◌, ◌^◌, ◌≤◌, ◌<◌, min, max, String, ◌≡◌, refl, sym, ap, subst,
  ◌∙◌, fun_ext, ◌≢◌, ◌↔◌, ◌⊎◌, inl, inr, Bool, true, false, not, ◌&&◌, ◌||◌, Option, none, some,
  List, [], ◌∷◌, ◌++◌, map, append-nil, append_assoc, map-append, arith, eq_iff, ltb, leb, ◌==◌,
  str_eq, if◌then◌else◌, ==_iff, str_eq_self, Bool-cases, if_elim, Option-cases, is_some, get_or,
  length, take, drop, head?, keep, find, sum_of, count, any, length-append, sum_of-append,
  find-append, any-find, find-none_of_any, any-append, length-take, length-take_eq, length-drop,
  take-append-drop, All, All-append, All-imp, find-All, any-All, All-keep, All-and, All-take,
  Distinct, length-map,
}

pub record Page {ℓ} (A : Type ℓ) : Type ℓ where
  pub items : List A
  pub next_cursor : Option String

module _ (encode_cursor : ℕ → String) (decode_cursor : String → Option ℕ) where
  abbrev pub offset_of : Option String → Option ℕ
  offset_of none = some 0
  offset_of (some cursor) = if str_eq cursor "" then some 0 else decode_cursor cursor

  abbrev pub page_at {ℓ} : {A : Type ℓ} → List A → ℕ → ℕ → Page A
  page_at all limit offset =
      let items = take limit (drop offset all) in
      let next_offset = offset + length items in
      record {
        items = items;
        next_cursor =
            if ltb next_offset (length all) then some (encode_cursor next_offset) else none;
      }

  -- `none` is the answer bad-cursor.
  abbrev pub paged {ℓ} : {A : Type ℓ} → List A → ℕ → Option ℕ → Option (Page A)
  paged all limit none = none
  paged all limit (some offset) = some (page_at all limit offset)

  unfoldable pub paginate {ℓ} : {A : Type ℓ} → List A → ℕ → Option String → Option (Page A)
  paginate all limit cursor = paged all limit (offset_of cursor)

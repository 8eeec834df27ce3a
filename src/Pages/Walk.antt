-- ===== src/Pages/Walk.antt =====
-- A client that follows the cursors sees every item once and in order.
use node_js_nest_course_proj.Base.{
  ℕ, zero, suc, ◌+◌, ◌≤◌, ◌<◌, String, ◌≡◌, refl, sym, ap, subst, ◌∙◌, false, Option, none, some,
  List, ◌++◌, arith, ltb, str_eq, if_elim, length, take, drop, length-take_eq, length-drop,
  take-append-drop, take-all, drop-drop,
}
use node_js_nest_course_proj.Pages.{Page, offset_of, page_at, paginate, paged}

module _ (encode_cursor : ℕ → String) (decode_cursor : String → Option ℕ) where
  -- What a client does: it asks with each cursor that it was given, until there is none.
  abbrev pub after_page {ℓ} :
      {A : Type ℓ} → (String → Option (List A)) → Option (Page A) → Option (List A)
  after_page again none = none
  after_page again (some page) = elim page.next_cursor [
    | none ↦ some page.items
    | some cursor ↦ elim (again cursor) [ none ↦ none | some rest ↦ some (page.items ++ rest) ]
  ]

  unfoldable pub walk {ℓ} : {A : Type ℓ} → List A → ℕ → ℕ → Option String → Option (List A)
  walk all limit zero cursor = none
  walk all limit (suc fuel) cursor =
      after_page (λ next. walk all limit fuel (some next))
        (paginate encode_cursor decode_cursor all limit cursor)

  page-step {ℓ} :
      {A : Type ℓ} (again : String → Option (List A)) (all : List A) (limit offset : ℕ)
      → offset ≤ length all
      → (let next = offset + length (take limit (drop offset all)) in
          next < length all → again (encode_cursor next) ≡ some (drop next all))
      → after_page again (some (page_at encode_cursor decode_cursor all limit offset))
        ≡ some (drop offset all)
  page-step again all limit offset l ih =
      let items = take limit (drop offset all) in
      let next = offset + length items in
      let size = length-take_eq limit (drop offset all) in
      let left = length-drop offset all in
      if_elim
        (λ (c : Option String).
          elim c [
            | none ↦ some items
            | some cursor ↦ elim (again cursor) [ none ↦ none | some rest ↦ some (items ++ rest) ]
          ]
          ≡ some (drop offset all))
        (ltb next (length all))
        (λ more.
          let whole : length items ≡ limit = ground (arith, size, left) in
          subst
            (λ o.
              elim o [ none ↦ none | some rest ↦ some (items ++ rest) ] ≡ some (drop offset all))
            (sym (ih (ground arith)))
            (ap some (
              ap (λ n. items ++ drop (offset + n) all) whole
              ∙ ap (λ rest. items ++ rest) (sym (drop-drop offset limit all))
              ∙ take-append-drop limit (drop offset all))))
        (λ last. ap some (take-all limit (drop offset all) (ground (arith, size, left))))

  module _ (round_trip : (n : ℕ) → decode_cursor (encode_cursor n) ≡ some n)
      (not_empty : (n : ℕ) → str_eq (encode_cursor n) "" ≡ false) where
    walk-from {ℓ} :
        {A : Type ℓ} (all : List A) (limit fuel offset : ℕ) (cursor : Option String)
        → 0 < limit
        → offset_of encode_cursor decode_cursor cursor ≡ some offset
        → offset ≤ length all
        → length all < offset + fuel
        → walk all limit fuel cursor ≡ some (drop offset all)
    unfolding walk paginate
    walk-from all limit zero offset cursor pos at l f = absurd (omega arith)
    walk-from all limit (suc fuel) offset cursor pos at l f =
        subst
          (λ o.
            after_page (λ c. walk all limit fuel (some c))
              (paged encode_cursor decode_cursor all limit o)
            ≡ some (drop offset all))
          (sym at)
          (page-step (λ c. walk all limit fuel (some c)) all limit offset l
            λ more.
              let size = length-take_eq limit (drop offset all) in
              let left = length-drop offset all in
              walk-from all limit fuel _
                (some (encode_cursor (offset + length (take limit (drop offset all))))) pos
                (ground (
                  arith,
                  not_empty (offset + length (take limit (drop offset all))),
                  round_trip (offset + length (take limit (drop offset all))),
                ))
                (omega (arith, more)) (ground (arith, size, left, more)))

    -- With a positive limit, following the cursors from the start gives the whole list: no item is
    -- lost, repeated or moved, and the walk ends. Of the cursor's text it is assumed that reading
    -- gives back the offset that was written, and that it is not empty.
    pub walk-all {ℓ} :
        {A : Type ℓ} (all : List A) (limit : ℕ)
        → 0 < limit
        → walk all limit (suc (length all)) none ≡ some all
    walk-all all limit pos =
        walk-from all limit (suc (length all)) 0 none pos refl (omega arith) (omega arith)

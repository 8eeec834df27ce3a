-- ===== src/Files/Sorted.antt =====
-- The parts in the order of their numbers, as the storage is told them (src/files/files.service.ts).
use node_js_nest_course_proj.Base.{
  ◌≤◌, ◌≡◌, refl, Bool, List, [], ◌∷◌, arith, ltb, if_elim, count, All, All-imp,
}
use node_js_nest_course_proj.Files.{Part}
use node_js_nest_course_proj.Files.Service.{insert_part, sort_parts}

-- No part has a lower number than one before it.
abbrev pub IsAscending : List Part → Type 0
IsAscending [] = Unit
IsAscending (p ∷ ps) = All (λ q. p.part_number ≤ q.part_number) ps × IsAscending ps

insert_part-All :
    (P : Part → Type 0) (p : Part) (ps : List Part) → P p → All P ps → All P (insert_part p ps)
unfolding insert_part
insert_part-All P p [] h hs = (h, tt)
insert_part-All P p (q ∷ qs) h hs =
    if_elim (All P) (ltb q.part_number p.part_number)
      (λ later. (hs.0, insert_part-All P p qs h hs.1)) (λ here. (h, hs))

insert_part-IsAscending :
    (p : Part) (ps : List Part) → IsAscending ps → IsAscending (insert_part p ps)
unfolding insert_part
insert_part-IsAscending p [] h = (tt, tt)
insert_part-IsAscending p (q ∷ qs) h =
    if_elim IsAscending (ltb q.part_number p.part_number)
      (λ later. (
        insert_part-All (λ r. q.part_number ≤ r.part_number) p qs (ground (arith, later)) h.0,
        insert_part-IsAscending p qs h.1,
      ))
      (λ here.
        let first : p.part_number ≤ q.part_number = ground (arith, here) in
        ((first, All-imp (λ r l. omega (arith, l, first)) qs h.0), h))

pub sort_parts-IsAscending : (ps : List Part) → IsAscending (sort_parts ps)
unfolding sort_parts
sort_parts-IsAscending [] = tt
sort_parts-IsAscending (p ∷ ps) =
    insert_part-IsAscending p (sort_parts ps) (sort_parts-IsAscending ps)

count-insert_part :
    (f : Part → Bool) (p : Part) (ps : List Part) → count f (insert_part p ps) ≡ count f (p ∷ ps)
unfolding insert_part
count-insert_part f p [] = refl
count-insert_part f p (q ∷ qs) = ground (arith, count-insert_part f p qs)

-- Sorting keeps the parts, each as often as it was there.
pub count-sort_parts : (f : Part → Bool) (ps : List Part) → count f (sort_parts ps) ≡ count f ps
unfolding sort_parts
count-sort_parts f [] = refl
count-sort_parts f (p ∷ ps) =
    ground (arith, count-insert_part f p (sort_parts ps), count-sort_parts f ps)

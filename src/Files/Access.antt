-- ===== src/Files/Access.antt =====
-- The lengths of the parts that an upload is told.
use node_js_nest_course_proj.Base.{
  ℕ, zero, suc, ◌+◌, ◌<◌, String, ◌≡◌, refl, ap, ◌∙◌, List, [], ◌∷◌, map, sum_of,
}
use node_js_nest_course_proj.Storage.{part_count, part_length, lengths}
use node_js_nest_course_proj.Storage.Limits.{lengths-cover}
use node_js_nest_course_proj.Files.{FileRow, PartInfo, Presigner, part_infos}

part_infos-lengths :
    (p : Presigner) (row : FileRow) (upload_id : String) (part_size n total : ℕ)
    → map (λ i. i.length) (part_infos p row upload_id part_size n total)
      ≡ lengths row.size part_size n total
unfolding part_infos
part_infos-lengths p row upload_id part_size n zero = refl
part_infos-lengths p row upload_id part_size n (suc total) =
    ap (λ ls. part_length row.size part_size n ∷ ls)
      (part_infos-lengths p row upload_id part_size (suc n) total)

sum_of-map : (f : PartInfo → ℕ) (is : List PartInfo) → sum_of f is ≡ sum_of (λ x. x) (map f is)
sum_of-map f [] = refl
sum_of-map f (i ∷ is) = ap (λ n. f i + n) (sum_of-map f is)

-- The parts that the client is told to upload add up to the file's size.
pub part_infos-cover :
    (p : Presigner) (row : FileRow) (upload_id : String) (part_size : ℕ)
    → 0 < part_size
    → 0 < row.size
    → sum_of
        (λ i. i.length)
        (part_infos p row upload_id part_size 1 (part_count row.size part_size))
      ≡ row.size
part_infos-cover p row upload_id part_size pos nonempty =
    sum_of-map (λ i. i.length)
      (part_infos p row upload_id part_size 1 (part_count row.size part_size))
    ∙ ap (sum_of (λ x. x))
        (part_infos-lengths p row upload_id part_size 1 (part_count row.size part_size))
    ∙ lengths-cover row.size part_size pos nonempty

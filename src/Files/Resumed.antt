-- ===== src/Files/Resumed.antt =====
-- A client that resumes (src/files/client-mpu.ts) leaves nothing missing for the commit.
use node_js_nest_course_proj.Base.{
  ℕ, suc, ◌+◌, ◌-◌, ◌*◌, ◌≤◌, ◌<◌, String, ◌≡◌, refl, sym, ap, subst, inl, inr, Bool, true, none,
  some, List, [], ◌∷◌, map, arith, ◌==◌, Bool-cases, keep, count,
}
use node_js_nest_course_proj.Auth.{AuthUser}
use node_js_nest_course_proj.Storage.{max_object, compute_part_size, part_count}
use node_js_nest_course_proj.Storage.Limits.{mul_le, compute_part_size-limits, part_count-covers}
use node_js_nest_course_proj.Files.{
  FileRow, Part, Bucket, Presigner, fine, owned, list_all_parts, is_whole, has_part, missing_parts,
}
use node_js_nest_course_proj.Files.Service.{
  parts, missing_info, good_parts, is_pending, assemble, sort_parts, tolerate,
}
use node_js_nest_course_proj.Files.Client.{IsStored, resume_client, put_part_of}
use node_js_nest_course_proj.Files.Sorted.{IsAscending, sort_parts-IsAscending, count-sort_parts}
use node_js_nest_course_proj.Files.Whole.{
  put_of, Starts, missing_parts-All, missing_parts-empty, good_parts-listed, missing-put, put-whole,
  stays-whole,
}

module _ (size part_size : ℕ) where
  resumed-whole :
      (before after : List Part) (total n : ℕ)
      → ((k : ℕ) → k < 1 + total → (Starts size part_size) k)
      → IsStored before
          (map
            (put_of size part_size)
            (missing_parts (good_parts size part_size [] before) 1 total))
          after
      → 1 ≤ n
      → n < 1 + total
      → has_part (keep (is_whole size part_size) after) n ≡ true
  resumed-whole before after total n starts (held, stayed) a b =
      let good = good_parts size part_size [] before in
      let ns = missing_parts good 1 total in
      let again =
        put-whole size part_size after ns n
          (missing_parts-All (Starts size part_size) good 1 total starts) held in
      elim (Bool-cases (has_part good n)) [
        | inl there ↦ elim (good_parts-listed size part_size [] before n there) [
          | inl nothing ↦ absurd (cc)
          | inr listed ↦
              elim (stays-whole size part_size before after (map (put_of size part_size) ns) n
                stayed listed) [ inl put ↦ again put | inr whole ↦ whole ]
        ]
        | inr gone ↦ again (missing-put size part_size good 1 total n gone a b)
      ]

  Starts-part_count :
      0 < part_size
      → 0 < size
      → (n : ℕ) → n < 1 + part_count size part_size
      → (Starts size part_size) n
  Starts-part_count p s n l =
      let covers = part_count-covers size part_size p in
      let below : (n - 1) * part_size ≤ size = elim (Bool-cases (n == 0)) [
        | inl zeroth ↦
            let none : n ≡ 0 = ground arith in
            subst (λ k. (k - 1) * part_size ≤ size) (sym none) (omega arith)
        | inr later ↦
            let most : suc (n - 1) ≤ part_count size part_size = ground arith in
            omega (arith, covers.1, mul_le (suc (n - 1)) (part_count size part_size) part_size most)
      ] in
      ground (arith, below)

puts-missing :
    (p : Presigner) (row : FileRow) (upload_id : String) (part_size : ℕ) (ns : List ℕ)
    → map put_part_of (map (missing_info p row upload_id part_size) ns)
      ≡ map (put_of row.size part_size) ns
puts-missing p row upload_id part_size [] = refl
puts-missing p row upload_id part_size (n ∷ ns) =
    ap (λ puts. put_of row.size part_size n ∷ puts) (puts-missing p row upload_id part_size ns)

parts-fine :
    (s3 : Bucket) (p : Presigner) (fuel : ℕ) (user : AuthUser) (id upload_id : String)
    (files : List FileRow) (row : FileRow) (part_size : ℕ) (before : List Part)
    → owned user id files ≡ fine row
    → row.upload_id ≡ some upload_id
    → is_pending row ≡ true
    → compute_part_size row.size ≡ some part_size
    → list_all_parts (s3.list_parts upload_id) fuel none ≡ some before
    → resume_client (parts s3 p fuel user id files)
      ≡ map (put_of row.size part_size) (
          missing_parts (good_parts row.size part_size [] before) 1 (part_count row.size part_size))
unfolding resume_client parts
parts-fine s3 p fuel user id upload_id files row part_size before own multi open_ sized listed =
    rw (own, multi, open_, sized, listed) (puts-missing p row upload_id part_size _)

-- A client that resumes a broken upload completes it. Whatever parts the storage lists when it comes
-- back, too short ones and repeated ones among them: when the client has put what the service calls
-- missing and the storage has kept that and the rest, the commit finds no part missing, and hands the
-- parts of full length to the storage, each as often as it is listed, in the order of their numbers.
pub resume_completes :
    (s3 later : Bucket) (p : Presigner) (fuel more : ℕ) (user : AuthUser) (id upload_id : String)
    (files : List FileRow) (row : FileRow) (before after : List Part)
    → owned user id files ≡ fine row
    → row.upload_id ≡ some upload_id
    → is_pending row ≡ true
    → 0 < row.size
    → row.size ≤ max_object
    → list_all_parts (s3.list_parts upload_id) fuel none ≡ some before
    → list_all_parts (later.list_parts upload_id) more none ≡ some after
    → IsStored before (resume_client (parts s3 p fuel user id files)) after
    → (part_size : ℕ) × (compute_part_size row.size ≡ some part_size)
      × (sorted : List Part) × (assemble later more row (some upload_id)
          ≡ tolerate (later.complete upload_id sorted))
      × IsAscending sorted
      × ((f : Part → Bool) → count f sorted ≡ count f (keep (is_whole row.size part_size) after))
unfolding assemble
resume_completes s3 later p fuel more user id upload_id files row before after own multi pend s m
      listed relisted stored =
    let (part_size, sized, low, high, whole_mib, some_part, few) =
      compute_part_size-limits row.size s m in
    let puts =
      parts-fine s3 p fuel user id upload_id files row part_size before own multi pend sized
        listed in
    let pos : 0 < part_size = omega (arith, low) in
    let starts = Starts-part_count row.size part_size pos s in
    let complete =
      missing_parts-empty (keep (is_whole row.size part_size) after) 1
        (part_count row.size part_size)
        (λ n a b.
          resumed-whole row.size part_size before after (part_count row.size part_size) n starts
            (subst (λ ps. IsStored before ps after) puts stored) a b) in
    let whole = keep (is_whole row.size part_size) after in
    (
      part_size,
      sized,
      sort_parts whole,
      rw sized (rw relisted (rw complete refl)),
      sort_parts-IsAscending whole,
      λ f. count-sort_parts f whole,
    )

-- ===== src/Files/Service.antt =====
-- The operations of FilesService on a row that exists: parts, commit and the download URL.
use node_js_nest_course_proj.Base.{
  ℕ, String, Bool, true, false, Option, none, some, List, [], ◌∷◌, map, ltb, ◌==◌, if◌then◌else◌,
  length, keep,
}
use node_js_nest_course_proj.Auth.{AuthUser}
use node_js_nest_course_proj.Storage.{compute_part_size, part_count, part_length}
use node_js_nest_course_proj.Files.{
  FileRow, pending, completed, file_by_id, complete_file, not_multipart, already_completed,
  object_missing, size_mismatch, not_completed, storage_threw, database_threw, too_large, endless,
  parts_missing, Exit, fine, fails, ◌>>=◌, or_fail, Part, Completed, assembled, no_such_upload,
  complete_threw, Head, found, not_found, head_threw, Bucket, Presigner, PartInfo, FileView, view,
  owned, list_all_parts, is_whole, missing_parts,
}

pub record UploadedPart : Type 0 where
  pub part_number : ℕ
  pub size : ℕ

pub record PartsView : Type 0 where
  pub id : String
  pub part_size : ℕ
  pub part_count : ℕ
  pub uploaded : List UploadedPart
  pub missing : List PartInfo
  pub expires_in : ℕ

abbrev pub is_pending : FileRow → Bool
is_pending row = elim row.status [ pending ↦ true | completed ↦ false ]

-- The uploaded parts that have their full length, the last answer for a number counting.
abbrev pub put_part : Part → List Part → List Part
put_part p [] = p ∷ []
put_part p (q ∷ qs) =
    let rest = put_part p qs in if q.part_number == p.part_number then p ∷ qs else q ∷ rest

abbrev pub good_parts : ℕ → ℕ → List Part → List Part → List Part
good_parts size part_size acc [] = acc
good_parts size part_size acc (p ∷ ps) =
    good_parts size part_size (if is_whole size part_size p then put_part p acc else acc) ps

abbrev pub missing_info : Presigner → FileRow → String → ℕ → ℕ → PartInfo
missing_info p row upload_id part_size n = record {
  part_number = n;
  length = part_length row.size part_size n;
  url = p.presign_part row.key upload_id n;
}

-- `parts`, for resuming.
unfoldable pub parts : Bucket → Presigner → ℕ → AuthUser → String → List FileRow → Exit PartsView
parts s3 p fuel user id files = do
  row ← owned user id files
  upload_id ← or_fail not_multipart row.upload_id
  part_size ←
      if is_pending row
      then or_fail too_large (compute_part_size row.size)
      else fails already_completed
  uploaded ← or_fail endless (list_all_parts (s3.list_parts upload_id) fuel none)
  let total = part_count row.size part_size
  let good = good_parts row.size part_size [] uploaded
  fine (record {
    id = row.id;
    part_size = part_size;
    part_count = total;
    uploaded = map (λ g. record { part_number = g.part_number; size = g.size }) good;
    missing = map (missing_info p row upload_id part_size) (missing_parts good 1 total);
    expires_in = p.part_expires;
  })

unfoldable pub insert_part : Part → List Part → List Part
insert_part p [] = p ∷ []
insert_part p (q ∷ qs) =
    let rest = insert_part p qs in if ltb q.part_number p.part_number then q ∷ rest else p ∷ q ∷ qs

-- The stable sort by part number.
unfoldable pub sort_parts : List Part → List Part
unfolding insert_part
sort_parts [] = []
sort_parts (p ∷ ps) = insert_part p (sort_parts ps)

abbrev pub tolerate : Completed → Exit (Unit {0})
tolerate assembled = fine tt
tolerate no_such_upload = fine tt
tolerate complete_threw = fails storage_threw

abbrev pub all_there : List ℕ → Exit (Unit {0})
all_there [] = fine tt
all_there (n ∷ ns) = fails (parts_missing (n ∷ ns))

-- The multipart half of `commit`.
unfoldable pub assemble : Bucket → ℕ → FileRow → Option String → Exit (Unit {0})
unfolding sort_parts
assemble s3 fuel row none = fine tt
assemble s3 fuel row (some upload_id) = do
  part_size ← or_fail too_large (compute_part_size row.size)
  listed ← or_fail endless (list_all_parts (s3.list_parts upload_id) fuel none)
  let have = keep (is_whole row.size part_size) listed
  there ← all_there (missing_parts have 1 (part_count row.size part_size))
  tolerate (s3.complete upload_id (sort_parts have))

-- The object must be there, in its full size; the result is its tag.
abbrev pub check_head : ℕ → Head → Exit (Option String)
check_head size (found length etag) = if length == size then fine etag else fails size_mismatch
check_head size not_found = fails object_missing
check_head size head_threw = fails storage_threw

unfoldable pub verify_object : Bucket → ℕ → FileRow → Exit (Option String)
verify_object s3 fuel row = do
  done ← assemble s3 fuel row row.upload_id
  check_head row.size (s3.head row.key)

abbrev pub conclude : FileRow → List FileRow → Exit (Option String) → Exit FileView × List FileRow
conclude row files (fails e) = (fails e, files)
conclude row files (fine etag) =
    let files' = complete_file row.id etag files in
    (or_fail database_threw (file_by_id row.id files') >>= λ r. fine (view r), files')

abbrev pub commit_row : Bucket → ℕ → List FileRow → Exit FileRow → Exit FileView × List FileRow
commit_row s3 fuel files (fails e) = (fails e, files)
commit_row s3 fuel files (fine row) =
    if is_pending row
    then conclude row files (verify_object s3 fuel row)
    else (fine (view row), files)

unfoldable pub commit : Bucket → ℕ → AuthUser → String → List FileRow → Exit FileView × List FileRow
commit s3 fuel user id files = commit_row s3 fuel files (owned user id files)

unfoldable pub download_url : Presigner → AuthUser → String → List FileRow → Exit String
download_url p user id files = do
  row ← owned user id files
  if is_pending row then fails not_completed else fine (p.presign_get row.key)

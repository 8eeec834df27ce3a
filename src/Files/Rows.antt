-- ===== src/Files/Rows.antt =====
-- The table files, and the types of content that uploads may have (src/files/files.types.ts).
use node_js_nest_course_proj.Base.{
  ℕ, String, Bool, false, ◌&&◌, Option, none, some, List, [], ◌∷◌, ◌==◌, str_eq, if◌then◌else◌,
  find,
}

pub data FileStatus : Type 0 where
  pending completed : FileStatus

pub record FileRow : Type 0 where
  pub id : String
  pub key : String
  pub owner_id : ℕ
  pub status : FileStatus
  pub content_type : String
  pub size : ℕ
  pub upload_id : Option String
  pub etag : Option String
  pub idempotency_key : Option String

-- CONTENT_TYPES
unfoldable pub extension : String → Option String
extension content_type =
    if str_eq content_type "image/jpeg"
    then some "jpg"
    else if str_eq content_type "image/png"
    then some "png"
    else if str_eq content_type "image/webp"
    then some "webp"
    else if str_eq content_type "application/pdf"
    then some "pdf"
    else if str_eq content_type "application/octet-stream"
    then some "bin"
    else none

abbrev pub file_by_id : String → List FileRow → Option FileRow
file_by_id id = find (λ r. str_eq r.id id)

abbrev pub has_key : ℕ → String → FileRow → Bool
has_key owner key r =
    r.owner_id == owner && elim r.idempotency_key [ none ↦ false | some k ↦ str_eq k key ]

-- SELECT * FROM files WHERE owner_id = $1 AND idempotency_key = $2
abbrev pub file_by_key : ℕ → String → List FileRow → Option FileRow
file_by_key owner key = find (has_key owner key)

-- UPDATE files SET status = 'COMPLETED', etag = $2 WHERE id = $1 RETURNING *
abbrev pub completed_row : Option String → FileRow → FileRow
completed_row etag r = record r { status = completed; etag = etag }

unfoldable pub complete_file : String → Option String → List FileRow → List FileRow
complete_file id etag [] = []
complete_file id etag (r ∷ rs) =
    let rest = complete_file id etag rs in
    if str_eq r.id id then completed_row etag r ∷ rs else r ∷ rest

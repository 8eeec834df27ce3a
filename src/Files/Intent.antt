-- ===== src/Files/Intent.antt =====
-- The intent of an upload: its body, its row with the server's key, and its idempotency key.
use node_js_nest_course_proj.Base.{
  ℕ, String, Bool, false, ◌&&◌, ◌||◌, Option, none, some, List, [], ◌∷◌, ◌++◌, ltb, leb, str_eq,
  if◌then◌else◌, any,
}
use Prim.Native.String
use node_js_nest_course_proj.Auth.{AuthUser}
use node_js_nest_course_proj.Storage.{max_object}
use node_js_nest_course_proj.Files.{
  FileRow, pending, extension, file_by_key, has_key, invalid_intent, storage_threw, database_threw,
  Exit, fine, fails, ◌>>=◌, or_fail, UploadDescriptor, Presigner, describe,
}

-- The body of an intent; a field that is not of its type is none. Only the length of the name counts.
pub record RawIntent : Type 0 where
  pub filename_length : Option ℕ
  pub content_type : Option String
  pub size : Option ℕ

pub record Intent : Type 0 where
  pub content_type : String
  pub extension : String
  pub size : ℕ

abbrev pub in_range : ℕ → ℕ → ℕ → Bool
in_range low high n = leb low n && leb n high

abbrev pub require : Bool → Exit (Unit {0})
require b = if b then fine tt else fails invalid_intent

unfoldable pub parse_intent : RawIntent → Exit Intent
parse_intent body = do
  name ← or_fail invalid_intent body.filename_length
  content_type ← or_fail invalid_intent body.content_type
  size ← or_fail invalid_intent body.size
  ext ← or_fail invalid_intent (extension content_type)
  ok ← require (in_range 1 255 name && in_range 1 max_object size)
  fine (record { content_type = content_type; extension = ext; size = size })

-- What happens round an intent: the identifier that is drawn, the upload that S3 opens (none when it
-- throws), the rows that other requests commit before the insert, and an insert that throws.
pub record Luck : Type 0 where
  pub id : String
  pub upload_id : Option String
  pub others : List FileRow
  pub insert_throws : Bool

abbrev pub truthy : Option String → Option String
truthy none = none
truthy (some s) = if str_eq s "" then none else some s

abbrev pub key_of : (ℕ → String) → AuthUser → String → String → String
key_of print user id ext =
    String.◌++◌ "uploads/"
      (String.◌++◌ (print user.id) (String.◌++◌ "/" (String.◌++◌ id (String.◌++◌ "." ext))))

abbrev pub is_taken : FileRow → FileRow → Bool
is_taken row r =
    str_eq r.id row.id
    || str_eq r.key row.key
    || elim row.idempotency_key [ none ↦ false | some key ↦ has_key row.owner_id key r ]

-- INSERT INTO files …: `none` when a unique index refuses the row.
unfoldable pub insert_file : FileRow → List FileRow → Option (List FileRow)
insert_file row files = if any (is_taken row) files then none else some (files ++ row ∷ [])

abbrev pub by_key : AuthUser → Option String → List FileRow → Option FileRow
by_key user none files = none
by_key user (some key) files = file_by_key user.id key files

-- The `catch` of a violated index: the row of the winner, or the error again.
abbrev pub or_winner : Presigner → Option FileRow → Exit UploadDescriptor
or_winner p none = fails database_threw
or_winner p (some row) = describe p row

-- The upload for a size over the threshold.
abbrev pub open_upload : ℕ → ℕ → Option String → Exit (Option String)
open_upload threshold size drawn =
    if ltb threshold size
    then elim drawn [ none ↦ fails storage_threw | some id ↦ fine (some id) ]
    else fine none

abbrev pub row_of :
    (ℕ → String) → AuthUser → Intent → Option String → String → Option String → FileRow
row_of print user i key id upload_id = record {
  id = id;
  key = key_of print user id i.extension;
  owner_id = user.id;
  status = pending;
  content_type = i.content_type;
  size = i.size;
  upload_id = upload_id;
  etag = none;
  idempotency_key = key;
}

-- What the INSERT gives: the new table, or none for a violated index.
abbrev pub inserted :
    Presigner
    → AuthUser
    → Option String
    → FileRow
    → List FileRow
    → Option (List FileRow)
    → Exit UploadDescriptor × List FileRow
inserted p user key row files none = (or_winner p (by_key user (truthy key) files), files)
inserted p user key row files (some files') = (describe p row, files')

abbrev pub store :
    Presigner
    → AuthUser
    → Option String
    → Bool
    → FileRow
    → List FileRow
    → Exit UploadDescriptor × List FileRow
store p user key throws row files =
    if throws
    then (fails database_threw, files)
    else inserted p user key row files (insert_file row files)

abbrev pub create_with :
    (ℕ → String)
    → Presigner
    → AuthUser
    → Intent
    → Option String
    → Luck
    → List FileRow
    → Exit (Option String)
    → Exit UploadDescriptor × List FileRow
create_with print p user i key luck files (fails e) = (fails e, files)
create_with print p user i key luck files (fine upload_id) =
    store p user key luck.insert_throws (row_of print user i key luck.id upload_id)
      (files ++ luck.others)

abbrev pub create :
    (ℕ → String)
    → Presigner
    → ℕ
    → AuthUser
    → Intent
    → Option String
    → Luck
    → List FileRow
    → Exit UploadDescriptor × List FileRow
create print p threshold user i key luck files =
    create_with print p user i key luck files (open_upload threshold i.size luck.upload_id)

abbrev pub found_or_create :
    (ℕ → String)
    → Presigner
    → ℕ
    → AuthUser
    → Intent
    → Option String
    → Luck
    → List FileRow
    → Option FileRow
    → Exit UploadDescriptor × List FileRow
found_or_create print p threshold user i key luck files (some row) = (describe p row, files)
found_or_create print p threshold user i key luck files none =
    create print p threshold user i key luck files

abbrev pub intent_parsed :
    (ℕ → String)
    → Presigner
    → ℕ
    → AuthUser
    → Option String
    → Luck
    → List FileRow
    → Exit Intent
    → Exit UploadDescriptor × List FileRow
intent_parsed print p threshold user key luck files (fails e) = (fails e, files)
intent_parsed print p threshold user key luck files (fine i) =
    found_or_create print p threshold user i key luck files (by_key user (truthy key) files)

unfoldable pub intent :
    (ℕ → String)
    → Presigner
    → ℕ
    → AuthUser
    → RawIntent
    → Option String
    → Luck
    → List FileRow
    → Exit UploadDescriptor × List FileRow
intent print p threshold user body key luck files =
    intent_parsed print p threshold user key luck files (parse_intent body)

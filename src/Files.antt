-- ===== src/Files.antt =====
-- Uploads to the object storage (src/files/files.service.ts, src/files/files.types.ts). S3 is a
-- parameter: what it answers to each command. A presigned URL is a text that the presigner makes of
-- the key; signing is local and does not fail. An id that is no UUID equals the id of no row, so the
-- pattern that `owned` tests first and the row that is missing give the same answer.
pub mod Rows
pub mod Intent
pub mod Service
pub mod Listing
pub mod Client
pub mod Whole
pub mod Sorted
pub mod Resumed
pub mod Access
pub mod Commit
pub mod Once
mod Tests
unfoldable pub use Rows.*
use node_js_nest_course_proj.Base.{
  ℕ, zero, suc, ◌+◌, ◌-◌, ◌*◌, ◌/◌, ◌%◌, ◌^◌, ◌≤◌, ◌<◌, min, max, String, ◌≡◌, refl, sym, ap, subst,
  ◌∙◌, fun_ext, ◌≢◌, ◌↔◌, ◌⊎◌, inl, inr, Bool, true, false, not, ◌&&◌, ◌||◌, Option, none, some,
  List, [], ◌∷◌, ◌++◌, map, append-nil, append_assoc, map-append, arith, eq_iff, ltb, leb, ◌==◌,
  str_eq, if◌then◌else◌, ==_iff, str_eq_self, Bool-cases, if_elim, Option-cases, is_some, get_or,
  length, take, drop, head?, keep, find, sum_of, count, any, length-append, sum_of-append,
  find-append, any-find, find-none_of_any, any-append, length-take, length-take_eq, length-drop,
  take-append-drop, All, All-append, All-imp, find-All, any-All, All-keep, All-and, All-take,
  Distinct, length-map,
}
use node_js_nest_course_proj.Auth.{AuthUser, Role, admin}
use node_js_nest_course_proj.Auth.Guard.{role_eq}
use node_js_nest_course_proj.Storage.{compute_part_size, part_count, part_length}

pub data FilesError : Type 0 where
  invalid_intent file_not_found not_owner not_multipart already_completed object_missing
        size_mismatch not_completed storage_threw database_threw too_large endless :
      FilesError
  parts_missing : List ℕ → FilesError

pub data Exit (A : Type 0) : Type 0 where
  fine : A → Exit A
  fails : FilesError → Exit A

infixl 5 ◌>>=◌
abbrev pub ◌>>=◌ : {A B : Type 0} → Exit A → (A → Exit B) → Exit B
fine a >>= k = k a
fails e >>= k = fails e

abbrev pub or_fail : {A : Type 0} → FilesError → Option A → Exit A
or_fail e none = fails e
or_fail e (some a) = fine a

-- A part that S3 holds.
pub record Part : Type 0 where
  pub part_number : ℕ
  pub size : ℕ
  pub etag : String

-- One answer to ListParts.
pub record Page : Type 0 where
  pub parts : List Part
  pub is_truncated : Bool
  pub next_part_number_marker : ℕ

pub data Completed : Type 0 where
  assembled no_such_upload complete_threw : Completed

pub data Head : Type 0 where
  found : (content_length : ℕ) → (etag : Option String) → Head
  not_found head_threw : Head

-- What S3 does at each command: the listing of an upload behind a marker, the completion of an upload
-- with its sorted parts, and the head of an object.
pub record Bucket : Type 0 where
  pub list_parts : String → Option ℕ → Page
  pub complete : String → List Part → Completed
  pub head : String → Head

pub record PartInfo : Type 0 where
  pub part_number : ℕ
  pub length : ℕ
  pub url : String

pub record Multipart : Type 0 where
  pub upload_id : String
  pub part_size : ℕ
  pub part_count : ℕ
  pub parts : List PartInfo

pub data Method : Type 0 where
  put_url : (url content_type : String) → Method
  multipart : Multipart → Method

pub record UploadDescriptor : Type 0 where
  pub id : String
  pub key : String
  pub status : FileStatus
  pub expires_in : ℕ
  pub method : Method

pub record Presigner : Type 0 where
  pub presign_put : String → String → String
  pub presign_part : String → String → ℕ → String
  pub presign_get : String → String
  pub put_expires : ℕ
  pub part_expires : ℕ

pub record FileView : Type 0 where
  pub id : String
  pub key : String
  pub status : FileStatus
  pub size : ℕ
  pub etag : Option String

abbrev pub view : FileRow → FileView
view row = record {
  id = row.id;
  key = row.key;
  status = row.status;
  size = row.size;
  etag = row.etag;
}

abbrev pub may_see : AuthUser → FileRow → Bool
may_see user row = row.owner_id == user.id || role_eq user.role admin

abbrev pub check_owner : AuthUser → FileRow → Exit FileRow
check_owner user row = if may_see user row then fine row else fails not_owner

unfoldable pub owned : AuthUser → String → List FileRow → Exit FileRow
owned user id files = do row ← or_fail file_not_found (file_by_id id files); check_owner user row

-- The parts from the n-th on, `count` of them, as `describe` presents them.
unfoldable pub part_infos : Presigner → FileRow → String → ℕ → ℕ → ℕ → List PartInfo
part_infos p row upload_id part_size n zero = []
part_infos p row upload_id part_size n (suc count) =
    record {
      part_number = n;
      length = part_length row.size part_size n;
      url = p.presign_part row.key upload_id n;
    }
    ∷ part_infos p row upload_id part_size (suc n) count

abbrev pub describe_parts : Presigner → FileRow → String → Exit Method
describe_parts p row upload_id = do
  part_size ← or_fail too_large (compute_part_size row.size)
  let total = part_count row.size part_size
  fine (
      multipart (record {
        upload_id = upload_id;
        part_size = part_size;
        part_count = total;
        parts = part_infos p row upload_id part_size 1 total;
      }))

abbrev pub method_of : Presigner → FileRow → Option String → Exit Method
method_of p row none = fine (put_url (p.presign_put row.key row.content_type) row.content_type)
method_of p row (some upload_id) = describe_parts p row upload_id

abbrev pub expires_of : Presigner → Option String → ℕ
expires_of p none = p.put_expires
expires_of p (some upload_id) = p.part_expires

unfoldable pub describe : Presigner → FileRow → Exit UploadDescriptor
unfolding part_infos
describe p row = do
  method ← method_of p row row.upload_id
  fine (record {
    id = row.id;
    key = row.key;
    status = row.status;
    expires_in = expires_of p row.upload_id;
    method = method;
  })

-- `listAllParts`: the pages behind each marker until one is not truncated.
unfoldable pub list_all_parts : (Option ℕ → Page) → ℕ → Option ℕ → Option (List Part)
list_all_parts list zero marker = none
list_all_parts list (suc fuel) marker =
    let page = list marker in
    let rest = list_all_parts list fuel (some page.next_part_number_marker) in
    if page.is_truncated
    then elim rest [ none ↦ none | some more ↦ some (page.parts ++ more) ]
    else some page.parts

-- `p.Size === partLength(…)`: behind the end of the file the length would be negative, and no size is.
abbrev pub is_whole : ℕ → ℕ → Part → Bool
is_whole size part_size p =
    leb ((p.part_number - 1) * part_size) size && p.size == part_length size part_size p.part_number

abbrev pub has_part : List Part → ℕ → Bool
has_part have n = any (λ p. p.part_number == n) have

-- The numbers from n on, `count` of them, that no part has.
unfoldable pub missing_parts : List Part → ℕ → ℕ → List ℕ
missing_parts have n zero = []
missing_parts have n (suc count) =
    let rest = missing_parts have (suc n) count in if has_part have n then rest else n ∷ rest

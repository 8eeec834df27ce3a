-- ===== src/Files/Commit.antt =====
-- A commit believes the storage, not the client, and a second commit changes nothing.
use node_js_nest_course_proj.Base.{
  ℕ, String, ◌≡◌, refl, sym, ap, subst, ◌⊎◌, inl, inr, true, false, Option, none, some, List, [],
  ◌∷◌, arith, eq_iff, ◌==◌, str_eq, ==_iff, Bool-cases, if_elim, Option-cases, length, keep,
}
use mathlib.Core.Option.{some-injective}
use node_js_nest_course_proj.Auth.{AuthUser}
use node_js_nest_course_proj.Storage.{compute_part_size, part_count}
use node_js_nest_course_proj.Files.{
  FileRow, completed, complete_file, file_by_id, owned, FilesError, Exit, fine, fails, or_fail,
  ◌>>=◌, Part, Bucket, Head, found, not_found, head_threw, list_all_parts, is_whole, missing_parts,
  FileView, view, database_threw,
}
use node_js_nest_course_proj.Files.Service.{
  is_pending, all_there, assemble, check_head, verify_object, conclude, commit_row, commit,
}

bind-fine :
    {A B : Type 0} (m : Exit A) (k : A → Exit B) {b : B}
    → (m >>= k) ≡ fine b
    → (a : A) × (m ≡ fine a) × (k a ≡ fine b)
bind-fine (fine a) k e = (a, refl, e)
bind-fine (fails x) k e = absurd (cc)

head-found :
    (size : ℕ) (h : Head) (etag : Option String)
    → check_head size h ≡ fine etag
    → h ≡ found size etag
head-found size (found length e) etag k = elim (Bool-cases (length == size)) [
  | inl same ↦ ground (arith, ==_iff length size)
  | inr other ↦ absurd (ground arith)
]
head-found size not_found etag k = absurd (cc)
head-found size head_threw etag k = absurd (cc)

-- What a multipart upload has shown before it is assembled: each of its parts, in its exact length.
abbrev pub IsUploaded : Bucket → ℕ → FileRow → Option String → Type 0
IsUploaded s3 fuel row none = Unit
IsUploaded s3 fuel row (some upload_id) =
    (part_size : ℕ) × (listed : List Part) × (compute_part_size row.size ≡ some part_size)
    × (list_all_parts (s3.list_parts upload_id) fuel none ≡ some listed)
    × (missing_parts (keep (is_whole row.size part_size) listed) 1 (part_count row.size part_size)
        ≡ [])

all_there-none : (ns : List ℕ) {u : Unit {0}} → all_there ns ≡ fine u → ns ≡ []
all_there-none [] h = refl
all_there-none (n ∷ ns) h = absurd (cc)

or_fail-fine :
    {A : Type 0} (e : FilesError) (o : Option A) {a : A} → or_fail e o ≡ fine a → o ≡ some a
or_fail-fine e none h = absurd (cc)
or_fail-fine e (some x) h = ground arith

assemble-IsUploaded :
    (s3 : Bucket) (fuel : ℕ) (row : FileRow) (u : Option String) {x : Unit {0}}
    → assemble s3 fuel row u ≡ fine x
    → IsUploaded s3 fuel row u
unfolding assemble
assemble-IsUploaded s3 fuel row none h = tt
assemble-IsUploaded s3 fuel row (some upload_id) h =
    let (part_size, sized, h₁) = bind-fine _ _ h in
    let (listed, ended, h₂) = bind-fine _ _ h₁ in
    let (there, complete, h₃) = bind-fine _ _ h₂ in
    (part_size, listed, or_fail-fine _ _ sized, or_fail-fine _ _ ended, all_there-none _ complete)

-- What a successful commit of a pending file has seen.
abbrev pub Verified : Bucket → ℕ → FileRow → Option String → Type 0
Verified s3 fuel row etag =
    (s3.head row.key ≡ found row.size etag) × IsUploaded s3 fuel row row.upload_id

verify_object-Verified :
    (s3 : Bucket) (fuel : ℕ) (row : FileRow) (etag : Option String)
    → verify_object s3 fuel row ≡ fine etag
    → Verified s3 fuel row etag
unfolding verify_object
verify_object-Verified s3 fuel row etag h =
    let (u, built, headed) = bind-fine _ _ h in
    (
      head-found row.size (s3.head row.key) etag headed,
      assemble-IsUploaded s3 fuel row row.upload_id built,
    )

owned-found :
    (user : AuthUser) (id : String) (files : List FileRow) (row : FileRow)
    → owned user id files ≡ fine row
    → file_by_id id files ≡ some row
unfolding owned
owned-found user id files row h = elim (Option-cases (file_by_id id files)) [
  | inl gone ↦ absurd (ground arith)
  | inr (r, is_r) ↦ ground arith
]

file_by_id-id :
    (id : String) (files : List FileRow) (row : FileRow)
    → file_by_id id files ≡ some row
    → str_eq row.id id ≡ true
file_by_id-id id [] row h = absurd (cc)
file_by_id-id id (r ∷ rs) row h = elim (Bool-cases (str_eq r.id id)) [
  | inl hit ↦
      let same : r ≡ row = some-injective _ _ (rw hit at h) in
      subst (λ x. str_eq x.id id ≡ true) same hit
  | inr miss ↦ file_by_id-id id rs row (rw miss at h)
]

complete_file-found :
    (id : String) (etag : Option String) (files : List FileRow) (row : FileRow)
    → file_by_id id files ≡ some row
    → file_by_id id (complete_file id etag files)
      ≡ some (record row { status = completed; etag = etag })
unfolding complete_file
complete_file-found id etag [] row h = absurd (cc)
complete_file-found id etag (r ∷ rs) row h = elim (Bool-cases (str_eq r.id id)) [
  | inl hit ↦
      let same : r ≡ row = some-injective _ _ (rw hit at h) in
      rw hit
        (rw hit (ap {A = FileRow} (λ x. some (record x { status = completed; etag = etag })) same))
  | inr miss ↦ rw miss (rw miss (complete_file-found id etag rs row (rw miss at h)))
]

complete_file-other :
    (id j : String) (etag : Option String) (files : List FileRow)
    → str_eq id j ≡ false
    → file_by_id j (complete_file id etag files) ≡ file_by_id j files
unfolding complete_file
complete_file-other id j etag [] h = refl
complete_file-other id j etag (r ∷ rs) h = elim (Bool-cases (str_eq r.id id)) [
  | inl hit ↦
      let away : str_eq r.id j ≡ false =
        subst (λ x. str_eq x j ≡ false) (sym ((eq_iff r.id id).0 hit)) h in
      rw hit (rw away refl)
  | inr miss ↦ let ih = complete_file-other id j etag rs h in rw miss (rw ih refl)
]

-- The row of the id is completed, in its status and its tag alone, and no other row is touched.
pub record Completes (row : FileRow) (etag : Option String) (files files' : List FileRow)
    : Type 0 where
  pub done : file_by_id row.id files' ≡ some (record row { status = completed; etag = etag })
  pub others : (j : String) → str_eq row.id j ≡ false → file_by_id j files' ≡ file_by_id j files

-- How a commit ends.
abbrev pub Committed :
    Bucket → ℕ → AuthUser → String → List FileRow → Exit FileView × List FileRow → Type 0
Committed s3 fuel user id files (fails e, files') = files' ≡ files
Committed s3 fuel user id files (fine v, files') =
    (row : FileRow) × (owned user id files ≡ fine row)
    × (((is_pending row ≡ false) × (v ≡ view row) × (files' ≡ files))
        ⊎ ((etag : Option String) × (is_pending row ≡ true)
            × Verified s3 fuel row etag
            × (v ≡ view (record row { status = completed; etag = etag }))
            × Completes row etag files files'))

commit_row-Committed :
    (s3 : Bucket) (fuel : ℕ) (user : AuthUser) (id : String) (files : List FileRow)
    (o : Exit FileRow)
    → owned user id files ≡ o
    → Committed s3 fuel user id files (commit_row s3 fuel files o)
commit_row-Committed s3 fuel user id files (fails e) h = refl
commit_row-Committed s3 fuel user id files (fine row) h =
    if_elim (Committed s3 fuel user id files) (is_pending row)
      (λ waits. seen (verify_object s3 fuel row) waits refl)
      (λ closed. (row, h, inl (closed, refl, refl)))
  where
    stands : file_by_id row.id files ≡ some row
    stands =
        let found = owned-found user id files row h in
        subst (λ x. file_by_id x files ≡ some row)
          (sym ((eq_iff row.id id).0 (file_by_id-id id files row found))) found

    told :
        (etag : Option String)
        → is_pending row ≡ true
        → verify_object s3 fuel row ≡ fine etag
        → Committed s3 fuel user id files (
          or_fail database_threw (file_by_id row.id (complete_file row.id etag files)) >>= λ r.
              fine (view r),
          complete_file row.id etag files,
        )
    told etag waits v =
        let done = complete_file-found row.id etag files row stands in
        subst
          (λ o.
            Committed s3 fuel user id files
              (or_fail database_threw o >>= λ r. fine (view r), complete_file row.id etag files))
          (sym done)
          (
            row,
            h,
            inr (
              etag,
              waits,
              verify_object-Verified s3 fuel row etag v,
              refl,
              record {
                done = done;
                others = λ j away. complete_file-other row.id j etag files away;
              },
            ),
          )

    seen :
        (x : Exit (Option String))
        → is_pending row ≡ true
        → verify_object s3 fuel row ≡ x
        → Committed s3 fuel user id files (conclude row files x)
    seen (fails e) waits v = refl
    seen (fine etag) waits v = told etag waits v

-- A commit that succeeds found a row that the user may see. Either the row was completed before, and
-- the answer is its view and nothing changes; or every part of the upload had its exact length, the
-- object in the storage has the file's size, and only then the row gets the status COMPLETED and the
-- object's tag, no other row is touched, and the answer is the view of the completed row. A commit
-- that fails leaves the table as it was.
pub commit-Committed :
    (s3 : Bucket) (fuel : ℕ) (user : AuthUser) (id : String) (files : List FileRow)
    → Committed s3 fuel user id files (commit s3 fuel user id files)
unfolding commit
commit-Committed s3 fuel user id files =
    commit_row-Committed s3 fuel user id files (owned user id files) refl

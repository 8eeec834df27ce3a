-- ===== src/Files/Once.antt =====
-- An intent with an idempotency key stands for one file.
use node_js_nest_course_proj.Base.{
  ℕ, String, ◌≡◌, refl, sym, ap, subst, ◌∙◌, inl, inr, Bool, true, false, Option, none, some, List,
  [], ◌∷◌, ◌++◌, arith, str_eq, if◌then◌else◌, str_eq_self, Bool-cases, if_elim, find, any,
  find-append,
}
use node_js_nest_course_proj.Auth.{AuthUser}
use node_js_nest_course_proj.Files.{
  FileRow, has_key, file_by_key, Exit, fine, fails, UploadDescriptor, Presigner, describe,
}
use node_js_nest_course_proj.Files.Intent.{
  RawIntent, Intent, Luck, truthy, parse_intent, row_of, is_taken, insert_file, by_key, or_winner,
  open_upload, inserted, store, create_with, found_or_create, intent_parsed, intent,
}

-- The key finds a row that is described so.
abbrev Stands : Presigner → AuthUser → String → UploadDescriptor → List FileRow → Type 0
Stands p user key d files =
    (row : FileRow) × (file_by_key user.id key files ≡ some row) × (describe p row ≡ fine d)

untaken-find :
    (row : FileRow) (key : String) (files : List FileRow)
    → row.idempotency_key ≡ some key
    → any (is_taken row) files ≡ false
    → file_by_key row.owner_id key files ≡ none
untaken-find row key [] e h = refl
untaken-find row key (r ∷ rs) e h = elim (Bool-cases (has_key row.owner_id key r)) [
  | inl hit ↦
      let taken : elim row.idempotency_key [ none ↦ false | some k ↦ has_key row.owner_id k r ]
          ≡ true =
        subst (λ o. elim o [ none ↦ false | some k ↦ has_key row.owner_id k r ] ≡ true) (sym e)
          hit in
      absurd (ground (arith, taken))
  | inr miss ↦ rw miss (untaken-find row key rs e (ground arith))
]

find-last :
    (user : AuthUser) (key : String) (row : FileRow) (files : List FileRow)
    → file_by_key user.id key files ≡ none
    → has_key user.id key row ≡ true
    → file_by_key user.id key (files ++ row ∷ []) ≡ some row
find-last user key row [] e h = rw h refl
find-last user key row (r ∷ rs) e h = elim (Bool-cases (has_key user.id key r)) [
  | inl hit ↦ absurd (ground arith)
  | inr miss ↦ rw miss (find-last user key row rs (rw miss at e) h)
]

winner-Stands :
    (p : Presigner) (user : AuthUser) (key : String) (d : UploadDescriptor) (files : List FileRow)
    (o : Option FileRow)
    → file_by_key user.id key files ≡ o
    → or_winner p o ≡ fine d
    → Stands p user key d files
winner-Stands p user key d files none e h = absurd (cc)
winner-Stands p user key d files (some row) e h = (row, e, h)

store-Stands :
    (p : Presigner) (user : AuthUser) (key : String) (throws : Bool) (row : FileRow)
    (files : List FileRow) (d : UploadDescriptor)
    → str_eq key "" ≡ false
    → row.owner_id ≡ user.id
    → row.idempotency_key ≡ some key
    → has_key user.id key row ≡ true
    → (let r = store p user (some key) throws row files in r.0 ≡ fine d → Stands p user key d r.1)
unfolding insert_file
store-Stands p user key throws row files d ne o k own =
    if_elim (λ (r : Exit UploadDescriptor × List FileRow). r.0 ≡ fine d → Stands p user key d r.1)
      throws (λ threw h. absurd (cc))
      (λ worked.
        if_elim
          (λ (new : Option (List FileRow)).
            (inserted p user (some key) row files new).0 ≡ fine d
            → Stands p user key d (inserted p user (some key) row files new).1)
          (any (is_taken row) files)
          (λ taken h.
            winner-Stands p user key d files (file_by_key user.id key files) refl (
              sym (ap (λ b. or_winner p (by_key user (if b then none else some key) files)) ne)
              ∙ h))
          (λ free h. (
            row,
            find-last user key row files
                (subst (λ i. file_by_key i key files ≡ none) o (untaken-find row key files k free))
                own,
            h,
          )))

create-Stands :
    (print : ℕ → String) (p : Presigner) (user : AuthUser) (i : Intent) (key : String) (luck : Luck)
    (files : List FileRow) (opened : Exit (Option String)) (d : UploadDescriptor)
    → str_eq key "" ≡ false
    → (let r = create_with print p user i (some key) luck files opened in
        r.0 ≡ fine d → Stands p user key d r.1)
create-Stands print p user i key luck files (fails e) d ne h = absurd (cc)
create-Stands print p user i key luck files (fine upload_id) d ne h =
    store-Stands p user key luck.insert_throws (row_of print user i (some key) luck.id upload_id)
      (files ++ luck.others) d ne refl refl (ground (arith, str_eq_self key)) h

found-Stands :
    (print : ℕ → String) (p : Presigner) (threshold : ℕ) (user : AuthUser) (i : Intent)
    (key : String) (luck : Luck) (files : List FileRow) (found : Option FileRow)
    (d : UploadDescriptor)
    → str_eq key "" ≡ false
    → file_by_key user.id key files ≡ found
    → (let r = found_or_create print p threshold user i (some key) luck files found in
        r.0 ≡ fine d → Stands p user key d r.1)
found-Stands print p threshold user i key luck files (some row) d ne e h = (row, e, h)
found-Stands print p threshold user i key luck files none d ne e h =
    create-Stands print p user i key luck files (open_upload threshold i.size luck.upload_id) d ne h

truthy-key : (key : String) → str_eq key "" ≡ false → truthy (some key) ≡ some key
truthy-key key ne = ap (λ b. if b then none else some key) ne

parsed-Stands :
    (print : ℕ → String) (p : Presigner) (threshold : ℕ) (user : AuthUser) (key : String)
    (luck : Luck) (files : List FileRow) (parsed : Exit Intent) (d : UploadDescriptor)
    → str_eq key "" ≡ false
    → (let r = intent_parsed print p threshold user (some key) luck files parsed in
        r.0 ≡ fine d → Stands p user key d r.1)
parsed-Stands print p threshold user key luck files (fails e) d ne h = absurd (cc)
parsed-Stands print p threshold user key luck files (fine i) d ne h =
    subst
      (λ o.
        (found_or_create print p threshold user i (some key) luck files (by_key user o files)).0
          ≡ fine d
        → Stands p user key d
            (found_or_create print p threshold user i (some key) luck files
              (by_key user o files)).1)
      (sym (truthy-key key ne))
      (found-Stands print p threshold user i key luck files (file_by_key user.id key files) d ne
        refl)
      h

Stands-append :
    (p : Presigner) (user : AuthUser) (key : String) (d : UploadDescriptor)
    (files more : List FileRow)
    → Stands p user key d files
    → Stands p user key d (files ++ more)
Stands-append p user key d files more (row, e, h) = (
  row,
  find-append (has_key user.id key) files more
      ∙ ap (λ o. elim o [ none ↦ find (has_key user.id key) more | some x ↦ some x ]) e,
  h,
)

Stands-again :
    (print : ℕ → String) (p : Presigner) (threshold : ℕ) (user : AuthUser) (key : String)
    (luck : Luck) (files : List FileRow) (i : Intent) (d : UploadDescriptor)
    → str_eq key "" ≡ false
    → Stands p user key d files
    → intent_parsed print p threshold user (some key) luck files (fine i) ≡ (fine d, files)
Stands-again print p threshold user key luck files i d ne (row, e, h) =
    ap (λ o. found_or_create print p threshold user i (some key) luck files (by_key user o files))
      (truthy-key key ne)
    ∙ ap (found_or_create print p threshold user i (some key) luck files) e
    ∙ ap (λ x. (x, files)) h

-- An intent with a key that was answered stands for one file: whatever rows other requests add
-- behind it, and whatever is drawn, an intent of the same user with the same key and any valid body
-- is answered by the same file and the same upload, and adds no row.
pub intent_once :
    (print : ℕ → String) (p : Presigner) (threshold : ℕ) (user : AuthUser) (key : String)
    (first again : RawIntent) (luck luck2 : Luck) (files more : List FileRow) (d : UploadDescriptor)
    (valid : Intent)
    → str_eq key "" ≡ false
    → (intent print p threshold user first (some key) luck files).0 ≡ fine d
    → parse_intent again ≡ fine valid
    → (let later = (intent print p threshold user first (some key) luck files).1 ++ more in
        intent print p threshold user again (some key) luck2 later ≡ (fine d, later))
unfolding intent
intent_once print p threshold user key first again luck luck2 files more d valid ne answered
      parses =
    let after = (intent print p threshold user first (some key) luck files).1 in
    ap (intent_parsed print p threshold user (some key) luck2 (after ++ more)) parses
    ∙ Stands-again print p threshold user key luck2 (after ++ more) valid d ne (
        Stands-append p user key d after more
          (parsed-Stands print p threshold user key luck files (parse_intent first) d ne answered))

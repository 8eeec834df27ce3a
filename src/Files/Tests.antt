-- ===== src/Files/Tests.antt =====
-- An upload of 12 MiB in parts of 5 MiB, and each theorem of the files at it.
use node_js_nest_course_proj.Base.{
  ℕ, ◌*◌, String, ◌≡◌, refl, sym, subst, inl, inr, Bool, true, false, Option, none, some, List, [],
  ◌∷◌, ◌++◌, arith, is_some, keep, sum_of, count,
}
use node_js_nest_course_proj.Auth.{customer, AuthUser}
use node_js_nest_course_proj.Storage.{mib, part_count, part_length, compute_part_size}
use node_js_nest_course_proj.Files.{
  FileRow, pending, Part, Page, assembled, found, Bucket, Presigner, part_infos, list_all_parts,
}
use node_js_nest_course_proj.Files.{
  owned, not_found, is_whole, missing_parts, UploadDescriptor, put_url, fine, describe,
}
use node_js_nest_course_proj.Files.Rows.{extension}
use node_js_nest_course_proj.Files.Intent.{RawIntent, Luck, intent, parse_intent, insert_file}
use node_js_nest_course_proj.Files.Once.{intent_once}
use node_js_nest_course_proj.Files.Service.{assemble, tolerate, parts, commit}
use node_js_nest_course_proj.Files.Access.{part_infos-cover}
use node_js_nest_course_proj.Files.Listing.{IsPaged, list_all_parts-total}
use node_js_nest_course_proj.Files.Client.{start_client, resume_client, IsStored}
use node_js_nest_course_proj.Files.Sorted.{IsAscending}
use node_js_nest_course_proj.Files.Resumed.{resume_completes}
use node_js_nest_course_proj.Files.Commit.{Committed, commit-Committed}

abbrev big : FileRow
big = record {
  id = "i";
  key = "uploads/9/i.bin";
  owner_id = 9;
  status = pending;
  content_type = "application/octet-stream";
  size = 12 * mib;
  upload_id = some "u";
  etag = none;
  idempotency_key = none;
}

abbrev part : ℕ → ℕ → Part
part n size = record { part_number = n; size = size; etag = "t" }

-- Two pages of the listing.
abbrev pages : Option ℕ → Page
pages none = record {
  parts = part 1 (5 * mib) ∷ part 2 (5 * mib) ∷ [];
  is_truncated = true;
  next_part_number_marker = 2;
}
pages (some _) = record {
  parts = part 3 (2 * mib) ∷ [];
  is_truncated = false;
  next_part_number_marker = 0;
}

pages-IsPaged : IsPaged 2 pages
pages-IsPaged none h = (omega arith, omega arith)
pages-IsPaged (some m) h = absurd (cc)

abbrev bucket : Bucket
bucket = record {
  list_parts = λ upload_id. pages;
  complete = λ upload_id ps. assembled;
  head = λ key. found (12 * mib) (some "e");
}

abbrev owner : AuthUser
owner = record { id = 9; role = customer; jti = "j"; exp = 9; fid = "f" }

abbrev other : AuthUser
other = record { id = 8; role = customer; jti = "j"; exp = 9; fid = "f" }

abbrev presigner : Presigner
presigner = record {
  presign_put = λ key type. key;
  presign_part = λ key upload_id n. key;
  presign_get = λ key. key;
  put_expires = 60;
  part_expires = 600;
}

list_all_parts-total_example : is_some (list_all_parts pages 3 none) ≡ true
list_all_parts-total_example = list_all_parts-total 2 pages pages-IsPaged

commit-Committed_example :
    Committed bucket 3 owner "i" (big ∷ []) (commit bucket 3 owner "i" (big ∷ []))
commit-Committed_example = commit-Committed bucket 3 owner "i" (big ∷ [])

part_infos-cover_example :
    sum_of
      (λ i. i.length)
      (part_infos presigner big "u" (5 * mib) 1 (part_count (12 * mib) (5 * mib)))
    ≡ 12 * mib
part_infos-cover_example = part_infos-cover presigner big "u" (5 * mib) (omega arith) (omega arith)

-- The client dies after its second part, of which the storage has only the beginning.
dies :
    start_client 2 (part_infos presigner big "u" (5 * mib) 1 3)
    ≡ record { part_number = 1; length = 5 * mib }
      ∷ record { part_number = 2; length = 5 * mib }
      ∷ []
unfolding start_client part_infos part_length
dies = refl

abbrev broken_parts : List Part
broken_parts = part 1 (5 * mib) ∷ part 2 mib ∷ []

abbrev broken : Bucket
broken = record {
  list_parts = λ upload_id marker. record {
    parts = broken_parts;
    is_truncated = false;
    next_part_number_marker = 0;
  };
  complete = λ upload_id ps. assembled;
  head = λ key. not_found;
}

abbrev whole_parts : List Part
whole_parts = part 1 (5 * mib) ∷ part 2 (5 * mib) ∷ part 3 (2 * mib) ∷ []

resumes :
    resume_client (parts broken presigner 1 owner "i" (big ∷ []))
    ≡ record { part_number = 2; length = 5 * mib }
      ∷ record { part_number = 3; length = 2 * mib }
      ∷ []
unfolding resume_client parts owned list_all_parts compute_part_size part_count part_length
    missing_parts
resumes = refl

stored :
    IsStored broken_parts
      (resume_client (parts broken presigner 1 owner "i" (big ∷ [])))
      whole_parts
stored =
    subst (λ puts. IsStored broken_parts puts whole_parts) (sym resumes)
      ((refl, (refl, tt)), (inr refl, (inl refl, tt)))

broken-listed : list_all_parts (broken.list_parts "u") 1 none ≡ some broken_parts
unfolding list_all_parts
broken-listed = refl

whole-listed : list_all_parts (bucket.list_parts "u") 3 none ≡ some whole_parts
unfolding list_all_parts
whole-listed = refl

own-big : owned owner "i" (big ∷ []) ≡ fine big
unfolding owned
own-big = refl

resume_completes_example :
    (part_size : ℕ) × (compute_part_size (12 * mib) ≡ some part_size)
    × (sorted : List Part) × (assemble bucket 3 big (some "u")
        ≡ tolerate (bucket.complete "u" sorted))
    × IsAscending sorted
    × ((f : Part → Bool)
        → count f sorted ≡ count f (keep (is_whole (12 * mib) part_size) whole_parts))
resume_completes_example =
    resume_completes broken bucket presigner 1 3 owner "i" "u" (big ∷ []) big broken_parts
      whole_parts own-big refl refl (omega arith) (omega arith) broken-listed whole-listed stored

abbrev picture : RawIntent
picture = record { filename_length = some 5; content_type = some "image/png"; size = some 100 }

abbrev luck_of : String → Luck
luck_of id = record { id = id; upload_id = none; others = []; insert_throws = false }

abbrev user_text : ℕ → String
user_text id = "u"

abbrev described : UploadDescriptor
described = record {
  id = "a";
  key = "uploads/u/a.png";
  status = pending;
  expires_in = 60;
  method = put_url "uploads/u/a.png" "image/png";
}

abbrev with_picture : List FileRow
with_picture = (intent user_text presigner 1000 owner picture (some "k") (luck_of "a") []).1

intent_once_example :
    intent user_text presigner 1000 owner picture
      (some "k")
      (luck_of "b")
      (with_picture ++ big ∷ [])
    ≡ (fine described, with_picture ++ big ∷ [])
unfolding intent parse_intent insert_file describe extension
intent_once_example =
    intent_once user_text presigner 1000 owner "k" picture picture (luck_of "a") (luck_of "b") []
      (big ∷ []) described (record { content_type = "image/png"; extension = "png"; size = 100 })
      refl refl refl

-- ===== src/Edge/Assets.antt =====
-- Names of public assets (src/cdn/assets.ts): the hash of the content stands in the name, so that
-- another content has another address. The hexadecimal SHA-256 of a content is a parameter.
use node_js_nest_course_proj.Base.{
  ℕ, suc, String, ◌≡◌, refl, ap, ◌≢◌, Bool, Option, none, some, List, [], ◌∷◌, eq_iff, ltb, str_eq,
  if◌then◌else◌, str_eq_self, if_elim, take, drop,
}
use Prim.Native.String
use Prim.Native.Char.{Char}
use text.Mathlib.TextBridge.{to_list, of_list}
use text.Mathlib.TextLemmas.{append_cancel_left, append_cancel_right}
use node_js_nest_course_proj.Edge.{asset_prefix, immutable, StoredObject, OriginAnswer, object}

-- `lastIndexOf`, of the characters that pass a test.
unfoldable pub last_index : (Char → Bool) → List Char → Option ℕ
last_index p [] = none
last_index p (c ∷ cs) = elim (last_index p cs) [
  | some i ↦ some (suc i)
  | none ↦ if p c then some 0 else none
]

-- The name before its last dot and from it on; a name that begins with its last dot is not split.
abbrev pub split_at : List Char → Option ℕ → List Char × List Char
split_at name none = (name, [])
split_at name (some dot) = if ltb 0 dot then (take dot name, drop dot name) else (name, [])

abbrev pub is_dot : Char → Bool
is_dot c = str_eq (of_list (c ∷ [])) "."

unfoldable pub split_name : String → String × String
unfolding last_index
split_name name =
    let (stem, ext) = split_at (to_list name) (last_index is_dot (to_list name)) in
    (of_list stem, of_list ext)

module _ (sha256 : String → String) where
  unfoldable pub short_hash : String → String
  short_hash body = String.slice (sha256 body) 0 8

  unfoldable pub hashed_key : String → String → String
  unfolding split_name short_hash
  hashed_key name body =
      let (stem, ext) = split_name name in
      String.◌++◌ asset_prefix
        (String.◌++◌ stem (String.◌++◌ "." (String.◌++◌ (short_hash body) ext)))

  -- What is put into the storage is what it answers from then on, with the tag that it gives.
  unfoldable pub publish_asset :
      Option String
      → String
      → String
      → String
      → (String → OriginAnswer)
      → String × (String → OriginAnswer)
  unfolding hashed_key
  publish_asset etag name body content_type storage =
      let key = hashed_key name body in
      let o : StoredObject = record {
        body = body;
        content_type = some content_type;
        etag = etag;
        cache_control = some immutable;
      } in
      (key, λ asked. if str_eq asked key then object o else storage asked)

  same_key :
      (name one two : String)
      → hashed_key name one ≡ hashed_key name two
      → short_hash one ≡ short_hash two
  unfolding hashed_key
  same_key name one two h =
      let parts = split_name name in
      append_cancel_right (short_hash one) (short_hash two) parts.1 (
        append_cancel_left "." _ _
          (append_cancel_left parts.0 _ _ (append_cancel_left asset_prefix _ _ h)))

  -- Publishing another content under the same name, with another short hash, leaves the storage's
  -- answer at the old address as it was, and answers the new content at the new one: there is
  -- nothing to invalidate.
  pub publish-keeps :
      (name old new content_type : String) (etag : Option String) (storage : String → OriginAnswer)
      → short_hash old ≢ short_hash new
      → (let published = publish_asset etag name new content_type storage in
          (published.1 (hashed_key name old) ≡ storage (hashed_key name old))
          × (published.1 published.0
              ≡ object (record {
                body = new;
                content_type = some content_type;
                etag = etag;
                cache_control = some immutable;
              })))
  unfolding publish_asset
  publish-keeps name old new content_type etag storage differ =
      let key = hashed_key name new in
      let o : StoredObject = record {
        body = new;
        content_type = some content_type;
        etag = etag;
        cache_control = some immutable;
      } in
      (
        if_elim (λ (a : OriginAnswer). a ≡ storage (hashed_key name old))
            (str_eq (hashed_key name old) key)
            (λ same.
              absurd (differ (same_key name old new ((eq_iff (hashed_key name old) key).0 same))))
            (λ other. refl),
        ap (λ b. if b then object o else storage key) (str_eq_self key),
      )

-- ===== src/Edge.antt =====
-- The cache in front of the closed storage (src/cdn/edge.ts). What the two regular expressions find in
-- a header is a parameter, and so is the storage. A time is in milliseconds. The key is that of the
-- decoded path.
pub mod Assets
pub mod Fresh
mod Tests
use node_js_nest_course_proj.Base.{
  ℕ, zero, suc, ◌+◌, ◌-◌, ◌*◌, ◌/◌, ◌%◌, ◌^◌, ◌≤◌, ◌<◌, min, max, String, ◌≡◌, refl, sym, ap, subst,
  ◌∙◌, fun_ext, ◌≢◌, ◌↔◌, ◌⊎◌, inl, inr, Bool, true, false, not, ◌&&◌, ◌||◌, Option, none, some,
  List, [], ◌∷◌, ◌++◌, map, append-nil, append_assoc, map-append, arith, eq_iff, ltb, leb, ◌==◌,
  str_eq, if◌then◌else◌, ==_iff, str_eq_self, Bool-cases, if_elim, Option-cases, is_some, get_or,
  length, take, drop, head?, keep, find, sum_of, count, any, length-append, sum_of-append,
  find-append, any-find, find-none_of_any, any-append, length-take, length-take_eq, length-drop,
  take-append-drop, All, All-append, All-imp, find-All, any-All, All-keep, All-and, All-take,
  Distinct, length-map, get, set, get-set_same, get-set_other, remove, get-All, All-set, All-remove,
  take-all, drop-nil, drop-drop, drop-append, drop-all, keep-append,
}
use text.Mathlib.Text.{starts_with, find?}

abbrev pub asset_prefix : String
asset_prefix = "assets/"

abbrev pub immutable : String
immutable = "public, max-age=31536000, immutable"

-- What the storage has under a key.
pub record StoredObject : Type 0 where
  pub body : String
  pub content_type : Option String
  pub etag : Option String
  pub cache_control : Option String

pub record Entry : Type 0 where
  pub body : String
  pub type : String
  pub etag : Option String
  pub cc : String
  pub expires : ℕ

-- What the regular expressions find in a Cache-Control: one of `no-store`, `no-cache` and `private`;
-- the digits behind `s-maxage=` and those behind `max-age=`.
pub record Directives : Type 0 where
  pub forbids : Bool
  pub s_maxage : Option ℕ
  pub max_age : Option ℕ

abbrev pub found_ttl : Option ℕ → Option ℕ → ℕ
found_ttl none none = 0
found_ttl none (some seconds) = seconds
found_ttl (some seconds) _ = seconds

unfoldable pub ttl_sec : (String → Directives) → String → ℕ
ttl_sec directives cc =
    let d = directives cc in if d.forbids then 0 else found_ttl d.s_maxage d.max_age

pub data OriginAnswer : Type 0 where
  object : StoredObject → OriginAnswer
  failed : (name : String) → (status : ℕ) → OriginAnswer

pub data XCache : Type 0 where
  hit miss : XCache

pub data EdgeResponse : Type 0 where
  served : Entry → XCache → EdgeResponse
  status_only : ℕ → EdgeResponse

pub record Edge : Type 0 where
  pub cache : List (String × Entry)
  pub origin_requests : ℕ

abbrev pub empty_edge : Edge
empty_edge = record { cache = []; origin_requests = 0 }

-- A request at `now`; if the storage is asked, it answers at `arrived`.
pub record EdgeRequest : Type 0 where
  pub method : String
  pub key : String
  pub now : ℕ
  pub arrived : ℕ

abbrev pub includes : String → String → Bool
includes text part = is_some (find? text part)

abbrev pub is_public : EdgeRequest → Bool
is_public req = not (
    not (str_eq req.method "GET")
    || not (starts_with req.key asset_prefix)
    || includes req.key "..")

-- An entry that has expired is deleted and counts as none.
abbrev pub if_alive :
    ℕ → String → List (String × Entry) → Option Entry → Option Entry × List (String × Entry)
if_alive now key cache none = (none, cache)
if_alive now key cache (some e) =
    if leb e.expires now then (none, remove key cache) else (some e, cache)

unfoldable pub look_up : ℕ → String → List (String × Entry) → Option Entry × List (String × Entry)
look_up now key cache = if_alive now key cache (get key cache)

module _ (directives : String → Directives) where
  unfoldable pub entry_of : ℕ → StoredObject → Entry
  unfolding ttl_sec
  entry_of arrived o = record {
    body = o.body;
    type = get_or o.content_type "application/octet-stream";
    etag = o.etag;
    cc = get_or o.cache_control "";
    expires = arrived + ttl_sec directives (get_or o.cache_control "") * 1000;
  }

  unfoldable pub store_if : String → Entry → List (String × Entry) → List (String × Entry)
  unfolding ttl_sec
  store_if key e cache = if ltb 0 (ttl_sec directives e.cc) then set key e cache else cache

  abbrev pub after_origin : EdgeRequest → OriginAnswer → Edge → EdgeResponse × Edge
  after_origin req (object o) e =
      let entry = entry_of req.arrived o in
      (
        served entry miss,
        record { cache = store_if req.key entry e.cache; origin_requests = e.origin_requests },
      )
  after_origin req (failed name status) e =
      (status_only (if str_eq name "NoSuchKey" || status == 404 then 404 else 502), e)

  abbrev pub serve_found :
      (String → OriginAnswer)
      → EdgeRequest
      → ℕ
      → Option Entry × List (String × Entry)
      → EdgeResponse × Edge
  serve_found origin req asked (some entry, cache) =
      (served entry hit, record { cache = cache; origin_requests = asked })
  serve_found origin req asked (none, cache) =
      after_origin req (origin req.key) (record { cache = cache; origin_requests = suc asked })

  -- `origin` is the storage at the moment at which it answers.
  unfoldable pub handle : (String → OriginAnswer) → EdgeRequest → Edge → EdgeResponse × Edge
  unfolding look_up entry_of store_if
  handle origin req e =
      if is_public req
      then serve_found origin req e.origin_requests (look_up req.now req.key e.cache)
      else (status_only 403, e)

-- ===== src/Edge/Tests.antt =====
-- A storage with one asset and one private upload, and each theorem of the edge at some requests.
use node_js_nest_course_proj.Base.{
  ℕ, ◌+◌, String, ◌≡◌, refl, false, none, some, List, [], ◌∷◌, map, eq_iff, str_eq, if◌then◌else◌,
}
use node_js_nest_course_proj.Edge.{
  StoredObject, Directives, ttl_sec, OriginAnswer, object, failed, EdgeRequest, empty_edge, handle,
  entry_of, look_up, store_if,
}
use node_js_nest_course_proj.Edge.Fresh.{run, seen, as_miss, direct, run-direct}
use node_js_nest_course_proj.Edge.Assets.{hashed_key, publish_asset, publish-keeps, short_hash}

-- The one header of these tests allows ten seconds.
abbrev reads : String → Directives
reads cc = record {
  forbids = false;
  s_maxage = none;
  max_age = if str_eq cc "max-age=10" then some 10 else none;
}

abbrev style : StoredObject
style = record {
  body = "a{}";
  content_type = some "text/css";
  etag = none;
  cache_control = some "max-age=10";
}

abbrev storage : String → OriginAnswer
storage key =
    if str_eq key "assets/a.css"
    then object style
    else if str_eq key "uploads/u"
    then object style
    else failed "NoSuchKey" 404

abbrev ask : String → ℕ → EdgeRequest
ask key now = record { method = "GET"; key = key; now = now; arrived = now + 1 }

abbrev requests : List EdgeRequest
requests =
    ask "assets/a.css" 0
    ∷ ask "assets/a.css" 5000
    ∷ ask "uploads/u" 6000
    ∷ ask "assets/b" 7000
    ∷ ask "assets/a.css" 20000
    ∷ []

asked_thrice : (run reads (λ t. storage) requests empty_edge).1.origin_requests ≡ 3
unfolding run handle entry_of look_up store_if ttl_sec
asked_thrice = refl

run-direct_example :
    map (λ a. as_miss (seen a.1)) (run reads (λ t. storage) requests empty_edge).0
    ≡ map (direct storage) requests
run-direct_example = run-direct reads storage requests

-- A digest that is the content itself.
abbrev digest : String → String
digest body = body

publish-keeps_example :
    (let published = publish_asset digest none "app.css" "BBBB" "text/css" storage in
      (published.1 (hashed_key digest "app.css" "AAAA")
        ≡ storage (hashed_key digest "app.css" "AAAA"))
      × (published.1 published.0
          ≡ object (record {
            body = "BBBB";
            content_type = some "text/css";
            etag = none;
            cache_control = some "public, max-age=31536000, immutable";
          })))
unfolding short_hash
publish-keeps_example =
    publish-keeps digest "app.css" "AAAA" "BBBB" "text/css" none storage
      (λ same. let equal = (eq_iff "AAAA" "BBBB").1 same in absurd (cc))

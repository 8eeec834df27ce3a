-- ===== src/Edge/Fresh.antt =====
-- What the cache serves is what the storage had, and not too long ago.
use node_js_nest_course_proj.Base.{
  ℕ, suc, ◌<◌, String, ◌≡◌, refl, sym, ap, ◌∙◌, ◌⊎◌, inl, inr, true, false, ◌||◌, Option, none,
  some, List, [], ◌∷◌, map, arith, ltb, leb, ◌==◌, str_eq, if◌then◌else◌, if_elim, get_or, All, get,
  get-All, All-set, All-remove,
}
use node_js_nest_course_proj.Edge.{
  StoredObject, Entry, Directives, ttl_sec, OriginAnswer, object, failed, XCache, hit, miss,
  EdgeResponse, served, status_only, Edge, empty_edge, EdgeRequest, is_public, entry_of, if_alive,
  look_up, store_if, serve_found, after_origin, handle,
}

-- The storage, with what it answers under each key at each moment.
module _ (directives : String → Directives) (origin : ℕ → String → OriginAnswer) where
  unfoldable pub run : List EdgeRequest → Edge → List (EdgeRequest × EdgeResponse) × Edge
  unfolding handle
  run [] e = ([], e)
  run (req ∷ reqs) e =
      let done = handle directives (origin req.arrived) req e in
      let rest = run reqs done.1 in ((req, done.0) ∷ rest.0, rest.1)

  -- An entry is what the storage answered at some moment, with a time to live from then on.
  abbrev pub IsCopy : String → Entry → Type 0
  IsCopy key entry =
      (t : ℕ) × (o : StoredObject) × (origin t key ≡ object o) × (entry ≡ entry_of directives t o)

  abbrev pub Copies : List (String × Entry) → Type 0
  Copies cache = All (λ c. IsCopy c.0 c.1 × (0 < ttl_sec directives (c.1).cc)) cache

  abbrev pub IsSound : Edge → Type 0
  IsSound e = Copies e.cache

  abbrev pub failure_status : String → ℕ → ℕ
  failure_status name status = if str_eq name "NoSuchKey" || status == 404 then 404 else 502

  abbrev pub IsTrue : EdgeRequest → EdgeResponse → Type 0
  IsTrue req (served entry hit) =
      (is_public req ≡ true)
      × IsCopy req.key entry
      × (req.now < entry.expires)
      × (0 < ttl_sec directives entry.cc)
  IsTrue req (served entry miss) =
      (is_public req ≡ true)
      × (o : StoredObject) × (origin req.arrived req.key ≡ object o)
      × (entry ≡ entry_of directives req.arrived o)
  IsTrue req (status_only status) =
      ((is_public req ≡ false) × (status ≡ 403))
      ⊎ ((is_public req ≡ true)
          × (name : String) × (s : ℕ) × (origin req.arrived req.key ≡ failed name s)
          × (status ≡ failure_status name s))

  Found : EdgeRequest → Option Entry × List (String × Entry) → Type 0
  Found req (none, cache) = Copies cache
  Found req (some entry, cache) =
      IsCopy req.key entry
      × (0 < ttl_sec directives entry.cc)
      × (req.now < entry.expires)
      × Copies cache

  if_alive-Found :
      (req : EdgeRequest) (cache : List (String × Entry)) (there : Option Entry)
      → get req.key cache ≡ there
      → Copies cache
      → Found req (if_alive req.now req.key cache there)
  unfolding Found
  if_alive-Found req cache none missing h = h
  if_alive-Found req cache (some e) there h =
      let copy =
        get-All (λ k a. IsCopy k a × (0 < ttl_sec directives a.cc)) req.key cache h there in
      if_elim (λ (r : Option Entry × List (String × Entry)). Found req r) (leb e.expires req.now)
        (λ old. All-remove (λ k a. IsCopy k a × (0 < ttl_sec directives a.cc)) req.key cache h)
        (λ young. (copy.0, copy.1, ground (arith, young), h))

  after_origin-IsTrue :
      (req : EdgeRequest) (a : OriginAnswer) (e : Edge)
      → is_public req ≡ true
      → origin req.arrived req.key ≡ a
      → IsSound e
      → (let done = after_origin directives req a e in IsTrue req done.0 × IsSound done.1)
  unfolding store_if
  after_origin-IsTrue req (failed name status) e open_to said h =
      (inr (open_to, name, status, said, refl), h)
  after_origin-IsTrue req (object o) e open_to said h =
      let entry = entry_of directives req.arrived o in
      (
        (open_to, o, said, refl),
        if_elim (λ (cache : List (String × Entry)). Copies cache)
            (ltb 0 (ttl_sec directives entry.cc))
            (λ lives.
              All-set (λ k a. IsCopy k a × (0 < ttl_sec directives a.cc)) req.key entry e.cache
                ((req.arrived, o, said, refl), ground (arith, lives)) h)
            (λ dead. h),
      )

  serve_found-IsTrue :
      (req : EdgeRequest) (asked : ℕ) (found : Option Entry × List (String × Entry))
      → is_public req ≡ true
      → Found req found
      → (let done = serve_found directives (origin req.arrived) req asked found in
          IsTrue req done.0 × IsSound done.1)
  unfolding Found
  serve_found-IsTrue req asked (some entry, cache) open_to (copy, lives, young, h) =
      ((open_to, copy, young, lives), h)
  serve_found-IsTrue req asked (none, cache) open_to h =
      after_origin-IsTrue req (origin req.arrived req.key)
        (record { cache = cache; origin_requests = suc asked }) open_to refl h

  handle-IsTrue :
      (req : EdgeRequest) (e : Edge)
      → IsSound e
      → (let done = handle directives (origin req.arrived) req e in
          IsTrue req done.0 × IsSound done.1)
  unfolding handle look_up
  handle-IsTrue req e h =
      if_elim (λ (r : EdgeResponse × Edge). IsTrue req r.0 × IsSound r.1) (is_public req)
        (λ open_to.
          serve_found-IsTrue req e.origin_requests (look_up req.now req.key e.cache) open_to
            (if_alive-Found req e.cache (get req.key e.cache) refl h))
        (λ closed. (inl (closed, refl), h))

  pub run-IsTrue :
      (reqs : List EdgeRequest) (e : Edge) → IsSound e → All (λ a. IsTrue a.0 a.1) (run reqs e).0
  unfolding run
  run-IsTrue [] e h = tt
  run-IsTrue (req ∷ reqs) e h =
      let step = handle-IsTrue req e h in
      (step.0, run-IsTrue reqs (handle directives (origin req.arrived) req e).1 step.1)

-- What a client sees: the body and the headers, or a status.
pub data Seen : Type 0 where
  page : (body type : String) → (etag : Option String) → (cc : String) → XCache → Seen
  error : ℕ → Seen

abbrev pub seen : EdgeResponse → Seen
seen (served entry x_cache) = page entry.body entry.type entry.etag entry.cc x_cache
seen (status_only status) = error status

-- The same with the header X-Cache of a miss.
abbrev pub as_miss : Seen → Seen
as_miss (page body type etag cc x_cache) = page body type etag cc miss
as_miss (error status) = error status

-- The edge without its cache: every request goes to the storage.
abbrev pub direct_answer : OriginAnswer → Seen
direct_answer (object o) =
    page o.body (get_or o.content_type "application/octet-stream") o.etag
      (get_or o.cache_control "") miss
direct_answer (failed name status) =
    error (if str_eq name "NoSuchKey" || status == 404 then 404 else 502)

abbrev pub direct : (String → OriginAnswer) → EdgeRequest → Seen
direct storage req = if is_public req then direct_answer (storage req.key) else error 403

module _ (directives : String → Directives) (storage : String → OriginAnswer) where
  direct-public :
      (req : EdgeRequest) (a : OriginAnswer)
      → is_public req ≡ true
      → storage req.key ≡ a
      → direct storage req ≡ direct_answer a
  direct-public req a open_to said =
      ap (λ b. if b then direct_answer (storage req.key) else error 403) open_to
      ∙ ap direct_answer said

  IsTrue-direct :
      (req : EdgeRequest) (res : EdgeResponse)
      → IsTrue directives (λ t. storage) req res
      → as_miss (seen res) ≡ direct storage req
  unfolding entry_of
  IsTrue-direct req (served entry hit) (open_to, (t, o, said, same), young, lives) =
      ap (λ e. as_miss (seen (served e hit))) same ∙ sym (direct-public req (object o) open_to said)
  IsTrue-direct req (served entry miss) (open_to, o, said, same) =
      ap (λ e. as_miss (seen (served e miss))) same
      ∙ sym (direct-public req (object o) open_to said)
  IsTrue-direct req (status_only status) (inl (closed, same)) =
      ap error same
      ∙ sym (ap (λ b. if b then direct_answer (storage req.key) else error 403) closed)
  IsTrue-direct req (status_only status) (inr (open_to, name, s, said, same)) =
      ap error same ∙ sym (direct-public req (failed name s) open_to said)

  seen-direct :
      (answers : List (EdgeRequest × EdgeResponse))
      → All (λ a. IsTrue directives (λ t. storage) a.0 a.1) answers
      → map (λ a. as_miss (seen a.1)) answers ≡ map (λ a. direct storage a.0) answers
  seen-direct [] h = refl
  seen-direct (a ∷ answers) h =
      ap (λ s. s ∷ map (λ b. as_miss (seen b.1)) answers) (IsTrue-direct a.0 a.1 h.0)
      ∙ ap (λ ss. direct storage a.0 ∷ ss) (seen-direct answers h.1)

  asked :
      (reqs : List EdgeRequest) (e : Edge)
      → map (λ a. direct storage a.0) (run directives (λ t. storage) reqs e).0
        ≡ map (direct storage) reqs
  unfolding run
  asked [] e = refl
  asked (req ∷ reqs) e =
      ap (λ ss. direct storage req ∷ ss) (asked reqs (handle directives storage req e).1)

  -- As long as the storage answers the same under each key, which is what names that carry the hash
  -- of their content are for, a client can tell the edge from the storage behind the rule of public
  -- keys by the header X-Cache alone: every request in a row gets the same body, other headers and
  -- status as without a cache, where that header always says MISS.
  pub run-direct :
      (reqs : List EdgeRequest)
      → map (λ a. as_miss (seen a.1)) (run directives (λ t. storage) reqs empty_edge).0
        ≡ map (direct storage) reqs
  run-direct reqs =
      seen-direct (run directives (λ t. storage) reqs empty_edge).0
        (run-IsTrue directives (λ t. storage) reqs empty_edge tt)
      ∙ asked reqs empty_edge

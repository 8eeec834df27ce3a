-- ===== src/Files/Whole.antt =====
-- The parts that are whole and those that are missing (src/files/files.service.ts), and what a client
-- puts of them.
use node_js_nest_course_proj.Base.{
  ℕ, zero, suc, ◌+◌, ◌-◌, ◌*◌, ◌≤◌, ◌<◌, ◌≡◌, refl, subst, ◌⊎◌, inl, inr, true, false, ◌&&◌, List,
  [], ◌∷◌, map, arith, leb, ◌==◌, ==_iff, Bool-cases, if_elim, keep, All,
}
use node_js_nest_course_proj.Storage.{part_length}
use node_js_nest_course_proj.Files.{Part, is_whole, has_part, missing_parts}
use node_js_nest_course_proj.Files.Service.{put_part, good_parts}
use node_js_nest_course_proj.Files.Client.{Put, holds_put, is_put}

has_part-before :
    (p : Part) (acc : List Part) (n : ℕ)
    → (p.part_number == n) ≡ false
    → has_part (put_part p acc) n ≡ true
    → has_part acc n ≡ true
has_part-before p [] n away h = absurd (ground (arith, away, h))
has_part-before p (q ∷ qs) n away h = elim (Bool-cases (q.part_number == p.part_number)) [
  | inl same ↦ ground (arith, away, h, same)
  | inr miss ↦ elim (Bool-cases (q.part_number == n)) [
    | inl here ↦ ground (arith, here)
    | inr gone ↦
        let head : has_part (q ∷ put_part p qs) n ≡ true = rw miss at h in
        let rest : has_part (put_part p qs) n ≡ true = rw gone at head in
        ground (arith, has_part-before p qs n away rest)
  ]
]

pub missing_parts-All :
    (P : ℕ → Type 0) (have : List Part) (from total : ℕ)
    → ((n : ℕ) → n < from + total → P n)
    → All P (missing_parts have from total)
unfolding missing_parts
missing_parts-All P have from zero h = tt
missing_parts-All P have from (suc total) h =
    let rest = missing_parts-All P have (suc from) total (λ n l. h n (omega arith)) in
    if_elim (All P) (has_part have from) (λ there. rest) (λ gone. (h from (omega arith), rest))

pub missing_parts-empty :
    (have : List Part) (from total : ℕ)
    → ((n : ℕ) → from ≤ n → n < from + total → has_part have n ≡ true)
    → missing_parts have from total ≡ []
unfolding missing_parts
missing_parts-empty have from zero h = refl
missing_parts-empty have from (suc total) h =
    let there = h from (omega arith) (omega arith) in
    rw there (missing_parts-empty have (suc from) total (λ n a b. h n (omega arith) (omega arith)))

module _ (size part_size : ℕ) where
  abbrev pub put_of : ℕ → Put
  put_of n = record { part_number = n; length = part_length size part_size n }

  abbrev pub Starts : ℕ → Type 0
  Starts n = leb ((n - 1) * part_size) size ≡ true

  -- What counts as uploaded was listed, in its full length.
  pub good_parts-listed :
      (acc listed : List Part) (n : ℕ)
      → has_part (good_parts size part_size acc listed) n ≡ true
      → (has_part acc n ≡ true) ⊎ (has_part (keep (is_whole size part_size) listed) n ≡ true)
  good_parts-listed acc [] n h = inl h
  good_parts-listed acc (p ∷ ps) n h = elim (Bool-cases (is_whole size part_size p)) [
    | inl whole ↦ elim (good_parts-listed (put_part p acc) ps n (rw whole at h)) [
      | inl a ↦ elim (Bool-cases (p.part_number == n)) [
        | inl same ↦ inr (ground (arith, whole, same))
        | inr away ↦ inl (has_part-before p acc n away a)
      ]
      | inr later ↦ inr (ground (arith, whole, later))
    ]
    | inr part ↦ elim (good_parts-listed acc ps n (rw part at h)) [
      | inl a ↦ inl a
      | inr later ↦ inr (ground (arith, part, later))
    ]
  ]

  holds_put-whole :
      (after : List Part) (n len : ℕ)
      → (leb ((n - 1) * part_size) size && len == part_length size part_size n) ≡ true
      → holds_put after (record { part_number = n; length = len }) ≡ true
      → has_part (keep (is_whole size part_size) after) n ≡ true
  holds_put-whole [] n len w h = absurd (cc)
  holds_put-whole (q ∷ qs) n len w h = elim (Bool-cases (q.part_number == n && q.size == len)) [
    | inl here ↦
        let same : q.part_number ≡ n = ground arith in
        let sized : q.size ≡ len = ground arith in
        let whole : is_whole size part_size q ≡ true = rw (same, sized) w in
        ground (arith, whole, same)
    | inr miss ↦
        let ih = holds_put-whole qs n len w (rw miss at h) in
        if_elim (λ (ps : List Part). has_part ps n ≡ true) (is_whole size part_size q)
          (λ whole. ground (arith, ih)) (λ part. ih)
  ]

  pub missing-put :
      (have : List Part) (from total n : ℕ)
      → has_part have n ≡ false
      → from ≤ n
      → n < from + total
      → is_put (map put_of (missing_parts have from total)) n ≡ true
  unfolding missing_parts
  missing-put have from zero n h a b = absurd (omega arith)
  missing-put have from (suc total) n h a b = elim (Bool-cases (from == n)) [
    | inl same ↦
        let gone : has_part have from ≡ false = rw ((==_iff from n).0 same) h in
        rw gone (ground (arith, same))
    | inr later ↦
        let ih = missing-put have (suc from) total n h (ground arith) (omega arith) in
        if_elim (λ (ns : List ℕ). is_put (map put_of ns) n ≡ true) (has_part have from)
          (λ there. ih) (λ gone. ground (arith, ih))
  ]

  pub put-whole :
      (after : List Part) (ns : List ℕ) (n : ℕ)
      → All Starts ns
      → All (λ put. holds_put after put ≡ true) (map put_of ns)
      → is_put (map put_of ns) n ≡ true
      → has_part (keep (is_whole size part_size) after) n ≡ true
  put-whole after [] n s held h = absurd (cc)
  put-whole after (m ∷ ns) n s held h = elim (Bool-cases (m == n)) [
    | inl same ↦
        let here =
          holds_put-whole after m (part_length size part_size m) (ground (arith, s.0)) held.0 in
        subst (λ k. has_part (keep (is_whole size part_size) after) k ≡ true) ((==_iff m n).0 same)
          here
    | inr away ↦ put-whole after ns n s.1 held.1 (rw away at h)
  ]

  -- A part that was whole and is not put again stays whole.
  pub stays-whole :
      (before after : List Part) (puts : List Put) (n : ℕ)
      → All
          (λ p.
            (is_put puts p.part_number ≡ true)
            ⊎ (holds_put after (record { part_number = p.part_number; length = p.size }) ≡ true))
          before
      → has_part (keep (is_whole size part_size) before) n ≡ true
      → (is_put puts n ≡ true) ⊎ (has_part (keep (is_whole size part_size) after) n ≡ true)
  stays-whole [] after puts n held h = absurd (cc)
  stays-whole (p ∷ ps) after puts n held h = elim (Bool-cases (is_whole size part_size p)) [
    | inl whole ↦ elim (Bool-cases (p.part_number == n)) [
      | inl same ↦
          subst
            (λ k.
              (is_put puts k ≡ true) ⊎ (has_part (keep (is_whole size part_size) after) k ≡ true))
            ((==_iff p.part_number n).0 same)
            (elim held.0 [
              | inl again ↦ inl again
              | inr there ↦ inr (holds_put-whole after p.part_number p.size whole there)
            ])
      | inr away ↦
          let head : has_part (p ∷ keep (is_whole size part_size) ps) n ≡ true = rw whole at h in
          stays-whole ps after puts n held.1 (rw away at head)
    ]
    | inr part ↦ stays-whole ps after puts n held.1 (rw part at h)
  ]

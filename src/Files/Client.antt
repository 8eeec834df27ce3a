-- ===== src/Files/Client.antt =====
-- The client of a multipart upload without keys (src/files/client-mpu.ts): the parts that it puts, and
-- what the storage makes of them. A request that fails ends it; what it put before is in the storage.
use node_js_nest_course_proj.Base.{
  ℕ, ◌≡◌, ◌⊎◌, Bool, true, ◌&&◌, List, [], ◌∷◌, map, leb, ◌==◌, if◌then◌else◌, any, All,
}
use node_js_nest_course_proj.Files.{Part, PartInfo, Exit, fine, fails}
use node_js_nest_course_proj.Files.Service.{PartsView}

-- `putPart`, a PUT of a body of the given length.
pub record Put : Type 0 where
  pub part_number : ℕ
  pub length : ℕ

-- `putPart(p.url, p.part_number, p.length)`
abbrev pub put_part_of : PartInfo → Put
put_part_of p = record { part_number = p.part_number; length = p.length }

-- `start`: the parts that are put by a client that kills itself after the part `die_after`.
unfoldable pub start_client : ℕ → List PartInfo → List Put
start_client die_after [] = []
start_client die_after (p ∷ ps) =
    let rest = start_client die_after ps in
    if leb die_after p.part_number then put_part_of p ∷ [] else put_part_of p ∷ rest

-- `resume`: every part that the service calls missing, with the length that it says; without an answer
-- none.
unfoldable pub resume_client : Exit PartsView → List Put
resume_client (fails e) = []
resume_client (fine v) = map put_part_of v.missing

abbrev pub holds_put : List Part → Put → Bool
holds_put ps put = any (λ q. q.part_number == put.part_number && q.size == put.length) ps

abbrev pub is_put : List Put → ℕ → Bool
is_put puts n = any (λ put. put.part_number == n) puts

-- What S3 documents of parts: a part that was put is listed, and one whose number was not put again
-- stays.
abbrev pub IsStored : List Part → List Put → List Part → Type 0
IsStored before puts after =
    All (λ put. holds_put after put ≡ true) puts
    × All
        (λ p.
          (is_put puts p.part_number ≡ true)
          ⊎ (holds_put after (record { part_number = p.part_number; length = p.size }) ≡ true))
        before

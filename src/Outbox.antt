-- ===== src/Outbox.antt =====
-- The relay of the transactional outbox (src/outbox/relay.ts). A pass runs in one transaction: it
-- selects unpublished rows that nobody else has locked, publishes them one by one until one fails,
-- marks what was confirmed, and commits. Messages that were published stay with the broker whatever
-- becomes of the transaction.
mod Select
pub mod Publishing
pub mod Delivered
pub mod Pending
pub mod Drain
pub mod Emptied
pub mod Rows
pub mod Sample
mod Tests
unfoldable pub use Select.*
use node_js_nest_course_proj.Base.{
  ℕ, zero, suc, ◌+◌, ◌-◌, ◌*◌, ◌/◌, ◌%◌, ◌^◌, ◌≤◌, ◌<◌, min, max, String, ◌≡◌, refl, sym, ap, subst,
  ◌∙◌, fun_ext, ◌≢◌, ◌↔◌, ◌⊎◌, inl, inr, Bool, true, false, not, ◌&&◌, ◌||◌, Option, none, some,
  List, [], ◌∷◌, ◌++◌, map, append-nil, append_assoc, map-append, arith, eq_iff, ltb, leb, ◌==◌,
  str_eq, if◌then◌else◌, ==_iff, str_eq_self, Bool-cases, if_elim, Option-cases, is_some, get_or,
  length, take, drop, head?, keep, find, sum_of, count, any, length-append, sum_of-append,
  find-append, any-find, find-none_of_any, any-append, length-take, length-take_eq, length-drop,
  take-append-drop, All, All-append, All-imp, find-All, any-All, All-keep, All-and, All-take,
  Distinct, length-map, get, set, get-set_same, get-set_other, remove, get-All, All-set, All-remove,
  take-all, drop-nil, drop-drop, drop-append, drop-all, keep-append,
}
use node_js_nest_course_proj.Events.{OrderPlacedEvent}
use node_js_nest_course_proj.Shop.{OutboxRow}
use node_js_nest_course_proj.Messaging.{Answer, Channel, publish_raw, Props}

pub record RelayPass : Type 0 where
  pub claimed : ℕ
  pub published : ℕ
  -- the row whose publication threw
  pub error : Option ℕ

-- What surrounds one pass: the batch size, the locks of other transactions, the broker's answers,
-- the time of the transaction, and what throws.
pub record Around : Type 0 where
  pub batch_size : ℕ
  pub locked : ℕ → Bool
  pub answer : OutboxRow → Answer
  pub now : ℕ
  pub hook_throws : OutboxRow → Bool
  pub select_throws : Bool
  pub mark_throws : Bool
  pub commit_throws : Bool

-- The outbox and the publisher.
pub record World : Type 0 where
  pub outbox : List OutboxRow
  pub channel : Channel

-- How the loop over the batch ended.
pub record Loop : Type 0 where
  pub done : List ℕ
  pub failed : Option ℕ
  pub hook_threw : Bool
  pub channel : Channel

pub data RelayOutcome : Type 0 where
  passed : RelayPass → RelayOutcome
  threw : RelayOutcome

-- UPDATE outbox SET published_at = now(), attempts = attempts + 1 WHERE id = ANY(done)
unfoldable pub mark_done : ℕ → List ℕ → List OutboxRow → List OutboxRow
mark_done now done [] = []
mark_done now done (r ∷ rs) =
    (if any (λ id. id == r.id) done
      then record r { published_at = some now; attempts = r.attempts + 1 }
      else r)
    ∷ mark_done now done rs

-- UPDATE outbox SET attempts = attempts + 1 WHERE id = failedId
unfoldable pub mark_failed : Option ℕ → List OutboxRow → List OutboxRow
mark_failed none rs = rs
mark_failed (some id) [] = []
mark_failed (some id) (r ∷ rs) =
    (if r.id == id then record r { attempts = r.attempts + 1 } else r) ∷ mark_failed (some id) rs

abbrev pub settle : Around → List OutboxRow → World → Loop → RelayOutcome × World
settle env rows w l =
    if l.hook_threw || env.mark_throws || env.commit_throws
    then (threw, record w { channel = l.channel })
    else (
      passed (record { claimed = length rows; published = length l.done; error = l.failed }),
      record {
        outbox = mark_failed l.failed (mark_done env.now l.done w.outbox);
        channel = l.channel;
      },
    )

abbrev pub props_of : OutboxRow → Props
props_of row = record {
  message_id = row.payload.event_id;
  type = row.type;
  throw_if_unroutable = true;
}

-- One round of the loop of `relayUntilEmpty`, after its pass.
abbrev pub after_round :
    ℕ → (ℕ → World → Option (Option ℕ × World)) → RelayOutcome × World → Option (Option ℕ × World)
after_round total again (threw, w) = some (none, w)
after_round total again (passed pass, w) = elim pass.error [
  | some _ ↦ some (none, w)
  | none ↦ elim (pass.claimed == 0) [
    | true ↦ some (some (total + pass.published), w)
    | false ↦ again (total + pass.published) w
  ]
]

module _ (stringify : OrderPlacedEvent → String) where
  unfoldable pub publish_row : Around → OutboxRow → Channel → Bool × Channel
  publish_row env row ch =
      publish_raw row.type (stringify row.payload) (props_of row) (env.answer row) ch

  abbrev pub done_before : ℕ → Loop → Loop
  done_before id l = record l { done = id ∷ l.done }

  -- the `for` over the batch: `break` at the first publication that throws
  unfoldable pub publish_rows : Around → List OutboxRow → Channel → Loop
  unfolding publish_row
  publish_rows env [] ch = record { done = []; failed = none; hook_threw = false; channel = ch }
  publish_rows env (row ∷ rows) ch =
      let (sent, ch') = publish_row env row ch in
      let rest = publish_rows env rows ch' in
      if sent
      then (if env.hook_throws row
          then record { done = row.id ∷ []; failed = none; hook_threw = true; channel = ch' }
          else done_before row.id rest)
      else record { done = []; failed = some row.id; hook_threw = false; channel = ch' }

  unfoldable pub relay_once : Around → World → RelayOutcome × World
  relay_once env w =
      let rows = select_batch env.locked env.batch_size w.outbox in
      if env.select_throws then (threw, w) else settle env rows w (publish_rows env rows w.channel)

  -- `relayUntilEmpty`: the passes' surroundings are a function of the pass number. `none` means that
  -- the fuel ran out, and the result is the total or an exception.
  unfoldable pub relay_until_empty : ℕ → (ℕ → Around) → ℕ → ℕ → World → Option (Option ℕ × World)
  relay_until_empty zero envs k total w = none
  relay_until_empty (suc fuel) envs k total w =
      after_round total (λ t w'. relay_until_empty fuel envs (suc k) t w') (relay_once (envs k) w)

  -- A turn of the loop of `startRelay` is idle, and then waits, unless its pass has claimed rows and
  -- none of them failed.
  abbrev pub is_idle : RelayOutcome → Bool
  is_idle threw = true
  is_idle (passed pass) = pass.claimed == 0 || is_some pass.error

  -- The turns of the loop until it is stopped, each with its surroundings; a turn that fails does not
  -- end it. The result says which turns were idle.
  unfoldable pub start_relay : List Around → World → List Bool × World
  unfolding relay_once
  start_relay [] w = ([], w)
  start_relay (env ∷ envs) w =
      let turn = relay_once env w in
      let rest = start_relay envs turn.1 in (is_idle turn.0 ∷ rest.0, rest.1)

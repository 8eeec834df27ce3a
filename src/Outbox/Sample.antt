-- ===== src/Outbox/Sample.antt =====
-- The surroundings of a pass for the tests: batches of ten, no locks, and the broker's given answers.
use node_js_nest_course_proj.Base.{refl, true, false, arith}
use node_js_nest_course_proj.Shop.{OutboxRow}
use node_js_nest_course_proj.Messaging.{Answer}
use node_js_nest_course_proj.Outbox.{Around}
use node_js_nest_course_proj.Outbox.Drain.{IsSmooth}

abbrev pub confirms : Answer
confirms = record { routed = true; returns = 0; confirmed = true }

abbrev pub around : (OutboxRow → Answer) → Around
around answer = record {
  batch_size = 10;
  locked = λ id. false;
  answer = answer;
  now = 99;
  hook_throws = λ r. false;
  select_throws = false;
  mark_throws = false;
  commit_throws = false;
}

pub around-IsSmooth : IsSmooth (around (λ r. confirms))
around-IsSmooth = record {
  some_rows = omega arith;
  unlocked = λ id. refl;
  confirmed = λ r. refl;
  unreturned = λ r. refl;
  hooks = λ r. refl;
  selects = refl;
  marks = refl;
  commits = refl;
}

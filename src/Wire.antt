-- ===== src/Wire.antt =====
-- What the operations answer: one constructor for each dict that a service returns. The
-- idempotency table keeps an answer as JSON and gives it back, so answers are one type.
use atmcp.Base.{ℕ, String, Bool, true, false, Option, List}
use atmcp.Schema.{TaskStatus, DirectiveStatus}

pub data Reply : Type 0 where
  -- tasks.py
  goal_created : (goal_id : String) (event_id : ℕ) → Reply
  task_created : (task_id : String) (event_id : ℕ) → Reply
  unknown_task : Reply
  not_open : TaskStatus → (taken_by : Option String) → Reply
  deps_unmet : (pending_deps : List String) → Reply
  race_lost : (taken_by : Option String) → Reply
  claimed : (task_id : String) (fencing_token lease_expires_at lease_ttl_s : ℕ) → Reply
  nothing_open : Reply
  stale_token : (current_fencing_token : ℕ) → Reply
  stale_holder : (current_fencing_token : ℕ) (current_assignee : Option String) → Reply
  progressed : (task_id : String) → TaskStatus → (lease_expires_at : ℕ) → Reply
  completed : (task_id : String) (event_id : ℕ) (eligible_unblocked : List String) → Reply
  failed : (task_id : String) (requeued dead : Bool) (attempts : ℕ) → Reply
  released : (task_id : String) → Reply
  -- memory.py
  conflict :
      (key : String) (current_value : Option String) (current_version : ℕ)
      (current_writer : Option String)
      → Reply
  memory_set : (key : String) (version lclock : ℕ) → Reply
  -- directives.py
  unknown_agent : (to_agent : String) → Reply
  directive_sent :
      (directive_id to_agent : String) (session_id : Option String) (event_id : ℕ) → Reply
  unknown_directive : Reply
  not_yours : Reply
  not_pending : DirectiveStatus → Reply
  directive_race_lost : Reply
  directive_claimed : (directive_id : String) → Reply
  bad_status : Reply
  already_final : DirectiveStatus → Reply
  directive_reported : (directive_id : String) → DirectiveStatus → Reply
  directive_canceled : (directive_id : String) → Reply
  -- knowledge.py
  knowledge_posted :
      (content_id : String) (event_id : ℕ) (deduped : Bool) (contributor_count : ℕ) → Reply
  unknown_content_id : Reply
  knowledge_retracted : (content_id : String) (event_id : ℕ) → Reply

-- `result.get("ok")`, as a truth value.
abbrev pub is_ok : Reply → Bool
is_ok (goal_created g e) = true
is_ok (task_created t e) = true
is_ok (claimed t f l s) = true
is_ok (progressed t s l) = true
is_ok (completed t e l) = true
is_ok (failed t r d a) = true
is_ok (released t) = true
is_ok (memory_set k v l) = true
is_ok (directive_sent d a s e) = true
is_ok (directive_claimed d) = true
is_ok (directive_reported d s) = true
is_ok (directive_canceled d) = true
is_ok (knowledge_retracted c e) = true
is_ok _ = false

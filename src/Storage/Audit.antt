-- ===== src/Storage/Audit.antt =====
-- memory.py: the audit log.
use coreline_auth_module.Common.{
  ℕ, String, Bool, true, not, Option, none, some, List, [], ◌∷◌, ◌++◌, reverse, take, drop, leb,
  select, is_text, ◌==◌, if◌then◌else◌,
}
use coreline_auth_module.Models.{AuditEvent}
use coreline_auth_module.Storage.State.{Storage}

unfoldable pub record_audit_event : AuditEvent → Storage → Storage
record_audit_event event s = record s { audit_events = s.audit_events ++ event ∷ [] }

-- The arguments of `list_audit_events`.
pub record EventQuery : Type 0 where
  pub action : Option String
  pub actor_user_id : Option String
  pub target_user_id : Option String
  pub since : Option ℕ
  pub until : Option ℕ
  pub limit : ℕ
  pub offset : ℕ

-- A filter that is missing or empty lets every event pass.
abbrev pub passes_text : Option String → Option String → Bool
passes_text none actual = true
passes_text (some wanted) none = not (is_text wanted)
passes_text (some wanted) (some actual) = if is_text wanted then actual == wanted else true

abbrev pub passes_since : Option ℕ → ℕ → Bool
passes_since none t = true
passes_since (some since) t = leb since t

abbrev pub passes_until : Option ℕ → ℕ → Bool
passes_until none t = true
passes_until (some until) t = leb t until

unfoldable pub list_audit_events : EventQuery → Storage → List AuditEvent
list_audit_events q s =
    let events = reverse s.audit_events in
    let by_action = select (λ (e : AuditEvent). passes_text q.action (some e.action)) events in
    let by_actor =
      select (λ (e : AuditEvent). passes_text q.actor_user_id e.actor_user_id) by_action in
    let by_target =
      select (λ (e : AuditEvent). passes_text q.target_user_id e.target_user_id) by_actor in
    let after = select (λ (e : AuditEvent). passes_since q.since e.created_at) by_target in
    let before = select (λ (e : AuditEvent). passes_until q.until e.created_at) after in
    take q.limit (drop q.offset before)

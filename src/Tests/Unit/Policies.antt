-- ===== src/Tests/Unit/Policies.antt =====
-- src/retention.rs, the tests of `evaluate` on one candidate.
use rig_memory_policy.Prelude.{Bool, true, ◌&&◌, ◌≡◌, refl, Option, none, some, find, filter}
use rig_memory_policy.Text.{Text, codes, split, trim, join, text_eq}
use rig_memory_policy.Metadata.{FrameKind, FrameMetadata}
use rig_memory_policy.Scope
use rig_memory_policy.Retention.Candidate
use rig_memory_policy.Retention.Candidate.{RetentionCandidate}
use rig_memory_policy.Retention.Rule
use rig_memory_policy.Retention.Rule.{RetentionDecision, keep, drop, invalidate, defer, decision_eq}
use rig_memory_policy.Retention.Policy
use rig_memory_policy.Retention.Policy.{RetentionPolicy}
use rig_memory_policy.Retention.Policy.Builder
use rig_memory_policy.Tests.Retention.{whole_floats}

-- `fn metadata`.
abbrev pub metadata : FrameKind → Option Text → FrameMetadata
metadata kind scope = record {
  schema_version = 1;
  kind = kind;
  conversation_id = codes "conv";
  chat_role = codes "assistant";
  dedup_key = codes "key";
  scope = scope;
}

-- A fresh candidate, as the tests make it.
abbrev pub candidate : FrameKind → Option Text → RetentionCandidate whole_floats
candidate kind scope = Candidate.new whole_floats (metadata kind scope)

abbrev pub message : RetentionCandidate whole_floats
message = candidate FrameKind.demoted_message none

abbrev decides : RetentionPolicy → RetentionCandidate whole_floats → RetentionDecision → Bool
decides p c d = decision_eq (Policy.evaluate p c) d

abbrev keep_rule_wins_before_later_drop_rule : Bool
keep_rule_wins_before_later_drop_rule =
    decides (Builder.drop_written_before (Builder.keep_summaries Policy.new) 200)
      (Candidate.with_written_at_unix_ms
        (candidate FrameKind.compaction_summary (some (codes "tenant-a"))) 100)
      keep

abbrev drop_rule_wins_before_later_keep_rule : Bool
drop_rule_wins_before_later_keep_rule =
    decides (Builder.keep_summaries (Builder.drop_written_before Policy.new 200))
      (Candidate.with_written_at_unix_ms
        (candidate FrameKind.compaction_summary (some (codes "tenant-a"))) 100)
      drop

abbrev recent_rule_keeps_at_or_above_min_sequence : Bool
recent_rule_keeps_at_or_above_min_sequence =
    let policy = Policy.default_decision (Builder.keep_recent Policy.new 10) drop in
    let given = candidate FrameKind.demoted_message (some (codes "tenant-a")) in
    decides policy (Candidate.with_sequence given 10) keep
    && decides policy (Candidate.with_sequence given 9) drop

abbrev ttl_like_rule_drops_old_written_frames : Bool
ttl_like_rule_drops_old_written_frames =
    let policy = Builder.drop_written_before Policy.new 1000 in
    decides policy (Candidate.with_written_at_unix_ms message 999) drop
    && decides policy (Candidate.with_written_at_unix_ms message 1000) defer

abbrev missing_optional_fields_do_not_match_field_dependent_rules : Bool
missing_optional_fields_do_not_match_field_dependent_rules =
    decides
      (Builder.drop_last_accessed_before
        (Builder.drop_written_before (Builder.keep_recent Policy.new 10) 1000) 1000)
      message defer

abbrev scope_guard_drops_candidates_outside_exact_scope : Bool
scope_guard_drops_candidates_outside_exact_scope =
    let policy = Builder.drop_outside_scope Policy.new (some (Scope.new (codes "tenant-a"))) in
    decides policy (candidate FrameKind.demoted_message (some (codes "tenant-a"))) defer
    && decides policy (candidate FrameKind.demoted_message (some (codes "tenant-b"))) drop
    && decides policy message drop

abbrev label_rules_are_string_backed : Bool
label_rules_are_string_backed =
    let policy = Builder.keep_label Policy.new (codes "legal_hold") in
    decides policy (Candidate.with_retention_label message (codes "legal_hold")) keep
    && decides policy (Candidate.with_retention_label message (codes "ephemeral")) defer

abbrev invalidate_expired_marks_candidates_whose_valid_time_ended : Bool
invalidate_expired_marks_candidates_whose_valid_time_ended =
    let policy = Builder.invalidate_expired Policy.new 1000 in
    decides policy (Candidate.with_valid_to_unix_ms message 999) invalidate
    && decides policy (Candidate.with_valid_to_unix_ms message 1000) invalidate
    && decides policy (Candidate.with_valid_to_unix_ms message 1001) defer
    && decides policy message defer

abbrev invalidate_superseded_marks_candidates_with_a_supersedes_ref : Bool
invalidate_superseded_marks_candidates_with_a_supersedes_ref =
    let policy = Builder.invalidate_superseded Policy.new in
    let given = candidate FrameKind.compaction_summary none in
    decides policy (Candidate.with_supersedes given (codes "ep-older")) invalidate
    && decides policy given defer

policies_pass :
    (keep_rule_wins_before_later_drop_rule && drop_rule_wins_before_later_keep_rule
      && recent_rule_keeps_at_or_above_min_sequence && ttl_like_rule_drops_old_written_frames
      && missing_optional_fields_do_not_match_field_dependent_rules && label_rules_are_string_backed
      && invalidate_expired_marks_candidates_whose_valid_time_ended
      && invalidate_superseded_marks_candidates_with_a_supersedes_ref)
    ≡ true
unfolding Policy.evaluate Policy.new Policy.rule Policy.default_decision Rule.evaluate find
    Builder.keep_summaries Builder.drop_written_before Builder.keep_recent
    Builder.drop_last_accessed_before Builder.keep_label Builder.invalidate_expired
    Builder.invalidate_superseded Candidate.new Candidate.with_written_at_unix_ms
    Candidate.with_sequence Candidate.with_retention_label Candidate.with_valid_to_unix_ms
    Candidate.with_supersedes text_eq
policies_pass = refl

scoped_policy_passes : scope_guard_drops_candidates_outside_exact_scope ≡ true
unfolding Policy.evaluate Policy.new Policy.rule Rule.evaluate find Builder.drop_outside_scope
    Candidate.new Scope.new Scope.scope_matches Scope.matches Scope.normalize_scope split trim join
    text_eq filter
scoped_policy_passes = refl

-- ===== src/Retention/Policy/Builder.antt =====
-- src/retention.rs, the builder methods of `RetentionPolicy`: each pushes one rule.
use rig_memory_policy.Prelude.{ℕ, Option}
use rig_memory_policy.Text.{Text}
use rig_memory_policy.Metadata.{FrameKind}
use rig_memory_policy.Scope.{Scope}
use rig_memory_policy.Retention.Rule.{RetentionRule}
use rig_memory_policy.Retention.Policy.{RetentionPolicy, rule}

unfoldable pub keep_summaries : RetentionPolicy → RetentionPolicy
unfolding rule
keep_summaries p = rule p (RetentionRule.keep_frame_kind FrameKind.compaction_summary)

unfoldable pub keep_demoted_messages : RetentionPolicy → RetentionPolicy
unfolding rule
keep_demoted_messages p = rule p (RetentionRule.keep_frame_kind FrameKind.demoted_message)

unfoldable pub keep_scope : RetentionPolicy → Scope → RetentionPolicy
unfolding rule
keep_scope p scope = rule p (RetentionRule.keep_scope scope)

unfoldable pub keep_most_recent : RetentionPolicy → ℕ → RetentionPolicy
unfolding rule
keep_most_recent p count = rule p (RetentionRule.keep_most_recent count)

unfoldable pub keep_top_by_salience : RetentionPolicy → ℕ → ℕ → ℕ → RetentionPolicy
unfolding rule
keep_top_by_salience p count half_life_ms as_of_unix_ms =
    rule p (RetentionRule.keep_top_by_salience count half_life_ms as_of_unix_ms)

unfoldable pub invalidate_expired : RetentionPolicy → ℕ → RetentionPolicy
unfolding rule
invalidate_expired p as_of_unix_ms = rule p (RetentionRule.invalidate_expired as_of_unix_ms)

unfoldable pub invalidate_superseded : RetentionPolicy → RetentionPolicy
unfolding rule
invalidate_superseded p = rule p RetentionRule.invalidate_superseded

unfoldable pub keep_recent : RetentionPolicy → ℕ → RetentionPolicy
unfolding rule
keep_recent p min_sequence = rule p (RetentionRule.keep_recent min_sequence)

unfoldable pub drop_written_before : RetentionPolicy → ℕ → RetentionPolicy
unfolding rule
drop_written_before p older_than_unix_ms =
    rule p (RetentionRule.drop_written_before older_than_unix_ms)

unfoldable pub drop_last_accessed_before : RetentionPolicy → ℕ → RetentionPolicy
unfolding rule
drop_last_accessed_before p older_than_unix_ms =
    rule p (RetentionRule.drop_last_accessed_before older_than_unix_ms)

unfoldable pub drop_outside_scope : RetentionPolicy → Option Scope → RetentionPolicy
unfolding rule
drop_outside_scope p required = rule p (RetentionRule.drop_outside_scope required)

unfoldable pub keep_label : RetentionPolicy → Text → RetentionPolicy
unfolding rule
keep_label p label = rule p (RetentionRule.keep_label label)

unfoldable pub drop_label : RetentionPolicy → Text → RetentionPolicy
unfolding rule
drop_label p label = rule p (RetentionRule.drop_label label)

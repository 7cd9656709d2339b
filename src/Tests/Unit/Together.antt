-- ===== src/Tests/Unit/Together.antt =====
-- The second test of tests/policy_pipeline.rs, with importance in thousandths, whole numbers of
-- billionths for the scores, and a stand-in for the hash.
use rig_memory_policy.Prelude.{
  ◌==◌, Bool, true, ◌&&◌, List, [], ◌∷◌, ◌≡◌, refl, none, length, any, take,
}
use rig_memory_policy.Sort.{sort_by}
use rig_memory_policy.HashSet.{member, add, collect}
use rig_memory_policy.Text.{Text, codes, text_eq}
use rig_memory_policy.Text.Utf8.{as_bytes, utf8}
use rig_memory_policy.Metadata.{FrameKind}
use rig_memory_policy.Dedup.Hex.{hex_encode, hex_encode_key, nibble_to_hex}
use rig_memory_policy.Reconcile
use rig_memory_policy.Retention.Candidate
use rig_memory_policy.Retention.Candidate.{RetentionCandidate, salience}
use rig_memory_policy.Retention.Rule
use rig_memory_policy.Retention.Rule.{RetentionDecision}
use rig_memory_policy.Retention.Policy
use rig_memory_policy.Retention.Policy.{RetentionPolicy}
use rig_memory_policy.Retention.Policy.Builder
use rig_memory_policy.Retention.Batch.{evaluate_batch, run, flush, step, by_salience}
use rig_memory_policy.Retention.Batch.Report.{push}
use rig_memory_policy.Fusion.{see_item, see_list, see_lists, slots, reciprocal_rank_fusion}
use rig_memory_policy.Tests.Retention.{whole_floats}
use rig_memory_policy.Tests.Unit.Keys.{is_noop, is_add, first_bytes}
use rig_memory_policy.Tests.Unit.Lists.{fused, nth_is}

-- The last call, `observe`, is left out: nothing is asked of the resolver after it.
abbrev reconciles : Bool
reconciles =
    let resolver =
      Reconcile.new first_bytes (codes "user prefers python" ∷ codes "uses rig library" ∷ []) in
    is_noop (Reconcile.reconcile first_bytes resolver (codes "user prefers python"))
    && is_add (Reconcile.reconcile first_bytes resolver (codes "wants to learn rust"))

abbrev keyed : Text → RetentionCandidate whole_floats
keyed key = Candidate.new whole_floats (record {
  schema_version = 1;
  kind = FrameKind.demoted_message;
  conversation_id = codes "c1";
  chat_role = codes "user";
  dedup_key = key;
  scope = none;
})

abbrev batch : List (RetentionCandidate whole_floats)
batch =
    Candidate.with_importance (Candidate.with_valid_to_unix_ms (keyed (codes "k1")) 90000) 900
    ∷ Candidate.with_importance
        (Candidate.with_supersedes (keyed (codes "k2")) (codes "some_older_id")) 800
    ∷ Candidate.with_importance (Candidate.with_valid_from_unix_ms (keyed (codes "k3")) 80000) 1000
    ∷ Candidate.with_importance (Candidate.with_valid_from_unix_ms (keyed (codes "k4")) 10000) 500
    ∷ []

abbrev mixed : RetentionPolicy
mixed =
    Policy.default_decision
      (Builder.keep_top_by_salience
        (Builder.invalidate_superseded (Builder.invalidate_expired Policy.new 100000)) 1 10000
        100000)
      RetentionDecision.drop

abbrev has_key : Text → List (RetentionCandidate whole_floats) → Bool
has_key key = any (λ c. text_eq c.metadata.dedup_key key)

abbrev routes : Bool
routes =
    let report = evaluate_batch mixed batch in
    (length report.invalidate == 2)
    && has_key (codes "k1") report.invalidate
    && has_key (codes "k2") report.invalidate
    && (length report.keep == 1)
    && has_key (codes "k3") report.keep
    && (length report.drop == 1)
    && has_key (codes "k4") report.drop

abbrev fuses : Bool
fuses =
    let result = fused (
      (codes "doc1" ∷ codes "doc2" ∷ codes "doc3" ∷ [])
      ∷ (codes "doc3" ∷ codes "doc1" ∷ codes "doc4" ∷ [])
      ∷ []) in
    nth_is 0 (codes "doc1") result && nth_is 1 (codes "doc3") result && (length result == 4)

abbrev sota_memory_pipeline_integration : Bool
sota_memory_pipeline_integration = reconciles && routes && fuses

together_pass : sota_memory_pipeline_integration ≡ true
unfolding Reconcile.new Reconcile.reconcile Reconcile.content_hash hex_encode_key hex_encode
    nibble_to_hex as_bytes utf8 text_eq take member add collect evaluate_batch run flush step
    by_salience sort_by push salience Policy.new Policy.rule Policy.default_decision Rule.evaluate
    Builder.invalidate_expired Builder.invalidate_superseded Builder.keep_top_by_salience
    Candidate.new Candidate.with_valid_to_unix_ms Candidate.with_valid_from_unix_ms
    Candidate.with_supersedes Candidate.with_importance reciprocal_rank_fusion see_lists see_list
    see_item slots
together_pass = refl

-- ===== src/Tests/Pipeline.antt =====
-- The first test of tests/policy_pipeline.rs on its own texts, with the letters and case of ASCII, a
-- hasher and a deserialiser written out, and whole numbers for the floats.
use rig_memory_policy.Prelude.{true, false, ◌≡◌, refl, arith, [], ◌∷◌, filter}
use rig_memory_policy.Text.{
  codes, split, trim, trim_matches, trim_start_matches, trim_end_matches, is_whitespace, text_eq,
}
use rig_memory_policy.Text.Tokens.{split_whitespace, split_by}
use rig_memory_policy.HashSet.{member, add, collect}
use rig_memory_policy.Scope.{scope_path}
use rig_memory_policy.Errors.{ok}
use rig_memory_policy.Retention.Rule.{RetentionDecision}
use rig_memory_policy.InMem.{storage_key, normalized_tokens, common}
use rig_memory_policy.InMem.Retrieval.{hit_of}
use rig_memory_policy.Pipeline.{Input, test_episode, entry_key, entry_metadata, pipeline}
use rig_memory_policy.Pipeline.Passing.{pipeline_lem}
use rig_memory_policy.Tests.Retention.{whole_floats}
use rig_memory_policy.Tests.InMem.{whole_floats-IsRatio}
use rig_memory_policy.Tests.SimHash.{ascii}
use rig_memory_policy.Tests.Dedup.{flat_hash}
use rig_memory_policy.Tests.Metadata.{by_name, by_name-IsDerived}

abbrev outage : Input
outage = record {
  scope = codes "/tenant-a/project-1/";
  conversation_id = codes "conv-1";
  chat_role = codes "assistant";
  text = codes "assistant summarized the tenant-a outage timeline";
  required = codes "tenant-a/project-1";
  query = codes "outage timeline";
}

same_path : scope_path outage.scope ≡ scope_path outage.required
unfolding scope_path split trim trim_matches trim_start_matches trim_end_matches is_whitespace
    filter
same_path = refl

two_shared : common (normalized_tokens ascii outage.query) (normalized_tokens ascii outage.text) ≡ 2
unfolding normalized_tokens split_whitespace split_by is_whitespace trim_matches trim_start_matches
    trim_end_matches filter collect add member text_eq
two_shared = refl

pipeline_lem_example : pipeline flat_hash by_name whole_floats ascii outage ≡ record {
  before = ok false;
  inserted = ok tt;
  after = ok true;
  decoded = ok (entry_metadata outage (entry_key flat_hash outage));
  decision = ok RetentionDecision.keep;
  stored_key = ok (storage_key 1);
  hits = ok (
      hit_of whole_floats ascii test_episode outage.query
        (storage_key 1, record { summary = outage.text })
      ∷ []);
}
pipeline_lem_example =
    pipeline_lem flat_hash by_name whole_floats ascii outage by_name-IsDerived whole_floats-IsRatio
      same_path (omega (arith, two_shared))

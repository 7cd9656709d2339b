-- ===== src/Pipeline.antt =====
-- tests/policy_pipeline.rs, its first test: a client of the crate, from the key of an entry to the
-- hits of a query, for any texts in place of those of the test.
pub mod Passing
use rig_memory_policy.Prelude.{ℕ, Bool, some, ◌≡◌, List}
use rig_memory_policy.Text.{Text}
use rig_memory_policy.Text.Tokens.{Unicode}
use rig_memory_policy.Metadata.{FrameKind, FrameMetadata, kind_as_str}
use rig_memory_policy.Metadata.Map.{Serde, into_map, try_from_map}
use rig_memory_policy.Scope
use rig_memory_policy.Scope.{Scope}
use rig_memory_policy.Floats.{Floats}
use rig_memory_policy.Errors.{Result, ok, err}
use rig_memory_policy.Dedup.Key.{Blake3, compute_key}
use rig_memory_policy.Dedup.Hex.{DedupKey, hex_encode_key}
use rig_memory_policy.Dedup.Seen
use rig_memory_policy.Retention.Candidate
use rig_memory_policy.Retention.Rule.{RetentionDecision}
use rig_memory_policy.Retention.Policy
use rig_memory_policy.InMem
use rig_memory_policy.InMem.{Episode, InMemoryHit, retrieve_similar}
use rig_memory_policy.Example.{scoped_summaries}

-- `struct TestEpisode`, and its `Episode` implementation.
pub record TestEpisode : Type 0 where
  pub summary : Text

unfoldable pub test_episode : Episode TestEpisode
test_episode = record { summary = λ e. e.summary }

-- The texts of a run: those of the entry, the scope that the policy requires, and the query.
pub record Input : Type 0 where
  pub scope : Text
  pub conversation_id : Text
  pub chat_role : Text
  pub text : Text
  pub required : Text
  pub query : Text

-- What the test asserts about.
pub record Observed (f : Floats) : Type 0 where
  pub before : Result Bool
  pub inserted : Result (Unit {0})
  pub after : Result Bool
  pub decoded : Result FrameMetadata
  pub decision : Result RetentionDecision
  pub stored_key : Result Text
  pub hits : Result (List (InMemoryHit f TestEpisode))

unfoldable pub entry_key : Blake3 → Input → DedupKey
unfolding compute_key kind_as_str Scope.new
entry_key b i =
    compute_key b (kind_as_str FrameKind.compaction_summary) i.conversation_id i.chat_role
      (some (Scope.as_str (Scope.new i.scope))) i.text

unfoldable pub entry_metadata : Input → DedupKey → FrameMetadata
unfolding hex_encode_key Scope.new
entry_metadata i key = record {
  schema_version = 1;
  kind = FrameKind.compaction_summary;
  conversation_id = i.conversation_id;
  chat_role = i.chat_role;
  dedup_key = hex_encode_key key;
  scope = some (Scope.as_str (Scope.new i.scope));
}

-- The decision on the metadata that was decoded; the test builds the policy of the example.
unfoldable pub decide_on : Floats → Text → Result FrameMetadata → Result RetentionDecision
unfolding scoped_summaries Policy.evaluate Candidate.new Candidate.with_sequence
decide_on f required (err e) = err e
decide_on f required (ok md) =
    ok (
      Policy.evaluate (scoped_summaries required) (Candidate.with_sequence (Candidate.new f md) 42))

-- The calls of the test, in their order, each with its result.
unfoldable pub pipeline : Blake3 → Serde → (f : Floats) → Unicode → Input → Observed f
unfolding entry_key entry_metadata decide_on Seen.new Seen.contains Seen.insert into_map
    try_from_map InMem.new InMem.append retrieve_similar test_episode
pipeline b d f u i =
    let key = entry_key b i in
    let inserted = Seen.insert Seen.new key in
    let decoded = try_from_map d (into_map (entry_metadata i key)) in
    let stored = InMem.append InMem.new (record { summary = i.text }) in
    record {
      before = Seen.contains Seen.new key;
      inserted = inserted.1;
      after = Seen.contains inserted.0 key;
      decoded = decoded;
      decision = decide_on f i.required decoded;
      stored_key = stored.1;
      hits = retrieve_similar f u test_episode stored.0 i.query 5;
    }

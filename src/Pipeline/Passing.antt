-- ===== src/Pipeline/Passing.antt =====
-- What the pipeline of the test observes, for all texts.
use rig_memory_policy.Prelude.{
  ℕ, ltb, ◌<◌, true, false, [], ◌∷◌, ◌≡◌, ◌∙◌, refl, ap, arith, filter, take,
}
use rig_memory_policy.Sort.{sort_by}
use rig_memory_policy.Text.{Text, text_eq_refl}
use rig_memory_policy.Text.Tokens.{Unicode}
use rig_memory_policy.HashSet.{member, add}
use rig_memory_policy.Metadata.Map.{Serde}
use rig_memory_policy.Metadata.RoundTrip.{IsDerived, try_from_map-into_map}
use rig_memory_policy.Scope
use rig_memory_policy.Scope.{scope_path}
use rig_memory_policy.Scope.Normal.{scope_path-normalize_scope}
use rig_memory_policy.Floats.{Floats}
use rig_memory_policy.Errors.{ok}
use rig_memory_policy.Dedup.Key.{Blake3}
use rig_memory_policy.Dedup.Hex.{DedupKey}
use rig_memory_policy.Dedup.Seen
use rig_memory_policy.Retention.Candidate
use rig_memory_policy.Retention.Rule.{RetentionDecision}
use rig_memory_policy.InMem
use rig_memory_policy.InMem.{
  InMemoryStore, storage_key, retrieve_similar, normalized_tokens, common,
}
use rig_memory_policy.InMem.Retrieval.{IsRatio, hit_of, retrieve_similar_lem}
use rig_memory_policy.Example.Summaries.{scoped_summaries_iff}
use rig_memory_policy.Pipeline.{
  TestEpisode, test_episode, Input, entry_key, entry_metadata, decide_on, pipeline,
}

ltb-of_lt : (n : ℕ) → 0 < n → ltb 0 n ≡ true
ltb-of_lt n h = ground arith

seen_after : (key : DedupKey) → Seen.contains (Seen.insert Seen.new key).0 key ≡ ok true
unfolding Seen.contains Seen.insert Seen.new add member
seen_after key = rw (text_eq_refl key) refl

decide_on-keep :
    (f : Floats) (b : Blake3) (i : Input)
    → scope_path i.scope ≡ scope_path i.required
    → decide_on f i.required (ok (entry_metadata i (entry_key b i))) ≡ ok RetentionDecision.keep
unfolding decide_on entry_metadata Candidate.new Candidate.with_sequence Scope.new
decide_on-keep f b i same_path =
    ap ok (
      (scoped_summaries_iff i.required _).0.1
        (refl, scope_path-normalize_scope i.scope ∙ same_path))

-- The only stored episode, if it shares a token with the query, is the only hit.
retrieve_only :
    (f : Floats) (u : Unicode) (query key : Text) (e : TestEpisode) (s : InMemoryStore TestEpisode)
    → IsRatio f
    → s.poisoned ≡ false
    → s.episodes ≡ (key, e) ∷ []
    → 0 < common (normalized_tokens u query) (normalized_tokens u e.summary)
    → retrieve_similar f u test_episode s query 5 ≡ ok (hit_of f u test_episode query (key, e) ∷ [])
unfolding test_episode filter sort_by take
retrieve_only f u query key e s r sound only meets =
    retrieve_similar_lem f u test_episode query r s 5 sound ∙ rw (only, ltb-of_lt _ meets) refl

-- If the required scope has the path of the scope of the entry, the text shares a token with the
-- query, the deserialiser is as `IsDerived` says and the ratios of counts are as `IsRatio` says, the
-- key is new before the insertion and seen after it, the metadata comes back from the map, the
-- decision is to keep, and the entry is the only hit, under the key that the store gave it.
pub pipeline_lem :
    (b : Blake3) (d : Serde) (f : Floats) (u : Unicode) (i : Input)
    → IsDerived d
    → IsRatio f
    → scope_path i.scope ≡ scope_path i.required
    → 0 < common (normalized_tokens u i.query) (normalized_tokens u i.text)
    → pipeline b d f u i ≡ record {
      before = ok false;
      inserted = ok tt;
      after = ok true;
      decoded = ok (entry_metadata i (entry_key b i));
      decision = ok RetentionDecision.keep;
      stored_key = ok (storage_key 1);
      hits = ok (hit_of f u test_episode i.query (storage_key 1, record { summary = i.text }) ∷ []);
    }
unfolding pipeline entry_metadata Seen.new Seen.contains Seen.insert member add InMem.new
    InMem.append
pipeline_lem b d f u i derived r same_path meets =
    let key = entry_key b i in
    let returned = try_from_map-into_map d (entry_metadata i key) derived (omega arith) in
    let kept = ap (decide_on f i.required) returned ∙ decide_on-keep f b i same_path in
    let found =
      retrieve_only f u i.query (storage_key 1) (record { summary = i.text })
        (InMem.append InMem.new (record { summary = i.text })).0 r refl refl meets in
    λ j. record {
      before = ok false;
      inserted = ok tt;
      after = seen_after key j;
      decoded = returned j;
      decision = kept j;
      stored_key = ok (storage_key 1);
      hits = found j;
    }

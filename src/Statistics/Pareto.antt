-- ===== src/Statistics/Pareto.antt =====
-- `pareto_nondominated_ids` of src/prompt_performance_engine/frontier_statistics.py.
use prompt_performance_engin.Prelude.{
  List, none, some, String, Bool, [], map, select, any, is_empty, not, ◌&&◌, str_eq, ◌∷◌, ltb,
  length,
}
use prompt_performance_engin.Prelude.Result.{
  Result, ok, err, ◌>>=◌, ◌>>◌, ensure, raise_if, traverse,
}
use prompt_performance_engin.Statistics.Floats.{
  Error, Floats, bad_metrics, no_candidates, unit_number, from_nought, too_many_candidates,
  bad_candidate_id,
}
use prompt_performance_engin.Prelude.Value.{end, Fields, Value, get, obj, field, keys}
use prompt_performance_engin.Prelude.Dict.{same_set}
use prompt_performance_engin.Prelude.Text.{is_blank}
use prompt_performance_engin.Prelude.Sort.{sort_by}

-- An entry of `normalized`, with its key.
pub record Candidate (f : Floats) : Type 0 where
  pub id : String
  pub quality : f.Number
  pub cost : f.Number
  pub latency : f.Number

abbrev pub entries : Fields → List (String × Value)
entries end = []
entries (field k v fs) = (k, v) ∷ entries fs

abbrev pub entry_key : String × Value → String
entry_key e = e.0

unfoldable pub number_at :
    {A : Type 0} → (Value → Result Error A) → String → Fields → Result Error A
number_at read name fs = elim (get name fs) [ none ↦ err bad_metrics | some v ↦ read v ]

unfoldable pub read_candidate : (f : Floats) → String × Value → Result Error (Candidate f)
read_candidate f (id, obj fs) = do
  ensure (same_set (keys fs) ("quality" ∷ "cost" ∷ "p95_latency_ms" ∷ [])) bad_metrics
  quality ← number_at (unit_number f) "quality" fs
  cost ← number_at (from_nought f) "cost" fs
  latency ← number_at (from_nought f) "p95_latency_ms" fs
  ok (record { id = id; quality = quality; cost = cost; latency = latency })
read_candidate f (id, value) = err bad_metrics

-- The candidates in the order of their ids; keys are texts.
unfoldable pub read_candidates : (f : Floats) → Value → Result Error (List (Candidate f))
read_candidates f (obj fs) = do
  raise_if (is_empty (keys fs)) no_candidates
  raise_if (ltb 1000 (length (keys fs))) too_many_candidates
  raise_if (any is_blank (keys fs)) bad_candidate_id
  traverse (read_candidate f) (sort_by entry_key (entries fs))
read_candidates f value = err no_candidates

module _ (f : Floats) where
  abbrev pub number_same : f.Number → f.Number → Bool
  number_same a b = f.is_le a b && f.is_le b a

  unfoldable pub dominates : Candidate f → Candidate f → Bool
  dominates left right =
      f.is_le right.quality left.quality
      && f.is_le left.cost right.cost
      && f.is_le left.latency right.latency
      && not (
          number_same left.quality right.quality
          && number_same left.cost right.cost
          && number_same left.latency right.latency)

  unfoldable pub is_dominated : List (Candidate f) → Candidate f → Bool
  is_dominated all_ c = any (λ (o : Candidate f). not (str_eq o.id c.id) && dominates o c) all_

  unfoldable pub front : List (Candidate f) → List (Candidate f)
  front cs = select (λ (c : Candidate f). not (is_dominated cs c)) cs

  unfoldable pub pareto_nondominated_ids : Value → Result Error (List String)
  pareto_nondominated_ids v = do
    cs ← read_candidates f v
    ok (map (λ (c : Candidate f). c.id) (front cs))

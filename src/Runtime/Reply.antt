-- ===== src/Runtime/Reply.antt =====
-- What `_select_candidate` of src/prompt_performance_engine/runtime.py reads in the selector's reply.
use prompt_performance_engin.Prelude.{
  String, ℕ, ◌-◌, [], ◌∷◌, Option, none, some, leb, ◌&&◌, if◌then◌else◌, ◌≡◌, ◌<◌, arith,
}
use prompt_performance_engin.Prelude.Value.{Value, ℤ, Fields, keys, get}
use prompt_performance_engin.Prelude.Dict.{same_set}
use prompt_performance_engin.Prelude.Result.{
  Result, ok, err, ◌>>=◌, ◌>>◌, ensure, returned_by, last_of_two,
}
use prompt_performance_engin.Runtime.Parser.{StrictJson}
use prompt_performance_engin.Runtime.Adapter.{
  Error, selected_out_of_range, selector_fields, selector_not_json, selected_not_integer,
}

unfoldable pub decode_selection : StrictJson → String → Result Error Fields
decode_selection parse text = elim (parse text) [
  | none ↦ err selector_not_json
  | some data_ ↦ ok data_
]

-- The position, from 0 on, of the candidate whose number, from 1 on, was given.
unfoldable pub selected_position : ℕ → Option Value → Result Error ℕ
selected_position count (some (Value.int (ℤ.pos n))) =
    if leb 1 n && leb n count then ok (n - 1) else err selected_out_of_range
selected_position count (some (Value.int (ℤ.negsuc n))) = err selected_out_of_range
selected_position count value = err selected_not_integer

unfoldable pub selection_of : StrictJson → ℕ → String → Result Error ℕ
selection_of parse count text = do
  fields ← decode_selection parse text
  ensure (same_set (keys fields) ("selected_index" ∷ [])) selector_fields
  selected_position count (get "selected_index" fields)

selected_position-bounds :
    (count position : ℕ) (v : Option Value)
    → selected_position count v ≡ ok position
    → position < count
unfolding selected_position
selected_position-bounds count position (some (Value.int (ℤ.pos n))) h = ground arith
selected_position-bounds count position _ h = cc

-- A selection is the position of one of the candidates.
pub selection_of-bounds :
    (parse : StrictJson) (count position : ℕ) (text : String)
    → selection_of parse count text ≡ ok position
    → position < count
unfolding selection_of
selection_of-bounds parse count position text h =
    let (fields, h1, decoded) = returned_by (decode_selection parse text) _ position h in
    let (h2, t, alone) =
      last_of_two (ensure (same_set (keys fields) ("selected_index" ∷ [])) selector_fields) _
        position h1 in
    selected_position-bounds count position (get "selected_index" fields) h2

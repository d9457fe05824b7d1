-- ===== src/Runtime/Parser.antt =====
-- `extract_optimized_prompt` of src/prompt_performance_engine/parser.py. The strict JSON decoder,
-- which ends in Python's `json`, is given to the model.
use prompt_performance_engin.Prelude.{
  if◌then◌else◌, List, [], ◌∷◌, String, contains, Option, none, some, ◌≡◌, false, true, arith, ◌↔◌,
}
use prompt_performance_engin.Prelude.Result.{
  Result, ok, err, ◌>>=◌, ◌>>◌, raise_if, ensure, last_of_two, returned_by, raise_if-ok, ensure-ok,
}
use prompt_performance_engin.Prelude.Value.{Value, Fields, keys, get}
use prompt_performance_engin.Prelude.Dict.{same_set}
use prompt_performance_engin.Prelude.Text.{is_blank}

-- The reasons of a `PromptParseError`.
pub data ParseError : Type 0 where
  empty_response unsupported_output_format invalid_json : ParseError
  other_fields empty_prompt : ParseError

abbrev pub supported_output_formats : List String
supported_output_formats = "prompt_only" ∷ "standard" ∷ "evaluation_package" ∷ []

-- `parse_strict_json_object`, whose failures are all the same to this program.
abbrev pub StrictJson : Type 0
StrictJson = String → Option Fields

unfoldable pub decode_transport : StrictJson → String → Result ParseError Fields
decode_transport parse response = elim (parse response) [
  | none ↦ err invalid_json
  | some transport ↦ ok transport
]

unfoldable pub prompt_field : Option Value → Result ParseError String
prompt_field (some (Value.str prompt)) = if is_blank prompt then err empty_prompt else ok prompt
prompt_field value = err empty_prompt

unfoldable pub extract_optimized_prompt : StrictJson → String → String → Result ParseError String
extract_optimized_prompt parse response output_format = do
  raise_if (is_blank response) empty_response
  ensure (contains output_format supported_output_formats) unsupported_output_format
  transport ← decode_transport parse response
  ensure (same_set (keys transport) ("optimized_prompt" ∷ [])) other_fields
  prompt_field (get "optimized_prompt" transport)

prompt_field-ok :
    (v : Option Value) (prompt : String)
    → prompt_field v ≡ ok prompt
    → (v ≡ some (Value.str prompt)) × (is_blank prompt ≡ false)
unfolding prompt_field
prompt_field-ok (some (Value.str s)) prompt h = ground (arith, h)
prompt_field-ok _ prompt h = cc

decode_transport-ok :
    (parse : StrictJson) (response : String) (fs : Fields)
    → decode_transport parse response ≡ ok fs
    → parse response ≡ some fs
unfolding decode_transport
decode_transport-ok parse response fs h = ground arith

decode_transport_of_some :
    (parse : StrictJson) (response : String) (fs : Fields)
    → parse response ≡ some fs
    → decode_transport parse response ≡ ok fs
unfolding decode_transport
decode_transport_of_some parse response fs h = rw (h, decode_transport)

prompt_field_of_str :
    (prompt : String) → is_blank prompt ≡ false → prompt_field (some (Value.str prompt)) ≡ ok prompt
unfolding prompt_field
prompt_field_of_str prompt h = rw h

-- A response is read exactly when it is not blank, the format is supported, and it decodes to an
-- object whose one field is `optimized_prompt`, a text that is not blank: that text is returned.
pub extract_optimized_prompt_iff :
    (parse : StrictJson) (response output_format prompt : String)
    → extract_optimized_prompt parse response output_format ≡ ok prompt ↔ (
        (is_blank response ≡ false)
        × (contains output_format supported_output_formats ≡ true)
        × (fs : Fields) × (parse response ≡ some fs)
        × (same_set (keys fs) ("optimized_prompt" ∷ []) ≡ true)
        × (get "optimized_prompt" fs ≡ some (Value.str prompt))
        × (is_blank prompt ≡ false))
unfolding extract_optimized_prompt
extract_optimized_prompt_iff parse response output_format prompt = (
  (λ h.
      let (h1, t1, filled) = last_of_two (raise_if (is_blank response) empty_response) _ prompt h in
      let (h2, t2, supported) =
        last_of_two
          (ensure (contains output_format supported_output_formats) unsupported_output_format) _
          prompt h1 in
      let (fs, h3, decoded) = returned_by (decode_transport parse response) _ prompt h2 in
      let (h4, t3, alone) =
        last_of_two (ensure (same_set (keys fs) ("optimized_prompt" ∷ [])) other_fields) _ prompt
          h3 in
      let (found, not_blank) = prompt_field-ok (get "optimized_prompt" fs) prompt h4 in
      (
        raise_if-ok _ filled,
        ensure-ok _ supported,
        fs,
        decode_transport-ok parse response fs decoded,
        ensure-ok _ alone,
        found,
        not_blank,
      )),
  (λ h.
      let (filled, supported, fs, decoded, alone, found, not_blank) = h in
      rw (
        filled,
        supported,
        decode_transport_of_some parse response fs decoded,
        alone,
        found,
        prompt_field_of_str prompt not_blank,
      )),
)

-- ===== src/Contracts/Request.antt =====
-- `OptimizationRequest` of src/prompt_performance_engine/contracts.py: `validate`, `from_dict` and
-- `to_dict`. The scalar fields hold any value until `validate` has seen them; a tuple of texts is a
-- list of texts, which `from_dict` makes sure of. Keys are texts.
use prompt_performance_engin.Prelude.{
  Bool, ◌&&◌, not, List, [], ◌∷◌, none, some, String, contains, leb, ◌==◌, if◌then◌else◌, ◌%◌, ◌/◌,
  ◌^◌, ◌*◌, str_eq,
}
use prompt_performance_engin.Prelude.Result.{Result, ok, err, ◌>>=◌, ◌>>◌, ensure, traverse}
use prompt_performance_engin.Prelude.Value.{
  Value, ℤ, Items, Fields, field, end, get, keys, elements, obj, arr, nil, cons,
}
use prompt_performance_engin.Prelude.Dict.{subset}
use prompt_performance_engin.Prelude.Text.{is_blank}

pub data Error : Type 0 where
  schema_not_string unsupported_schema source_not_string empty_source : Error
  mode_not_string unsupported_mode format_not_string unsupported_format : Error
  domain_not_string audience_not_string target_model_not_string : Error
  surface_not_string unsupported_surface : Error
  count_not_integer count_out_of_range : Error
  not_an_object unknown_field missing_field not_an_array item_not_string : Error

pub record OptimizationRequest : Type 0 where
  pub schema_version : Value
  pub source_prompt : Value
  pub mode : Value
  pub output_format : Value
  pub domain : Value
  pub audience : Value
  pub target_model : Value
  pub target_surface : Value
  pub required_behaviors : List String
  pub forbidden_changes : List String
  pub candidate_count : Value

abbrev pub artifact_schema_version : String
artifact_schema_version = "2.0.0"

abbrev pub modes : List String
modes = "balanced" ∷ "maximum_quality" ∷ "concise" ∷ []

abbrev pub output_formats : List String
output_formats = "prompt_only" ∷ "standard" ∷ "evaluation_package" ∷ []

abbrev pub target_surfaces : List String
target_surfaces = "chat" ∷ "api" ∷ "agent" ∷ "coding_agent" ∷ "image_model" ∷ "other" ∷ []

-- `isinstance(value, str)`, and then a test of the text.
unfoldable pub require_text : Error → (String → Bool) → Error → Value → Result Error Unit
require_text no_string test refused (Value.str s) = ensure (test s) refused
require_text no_string test refused value = err no_string

-- `_validate_optional_string`
unfoldable pub validate_optional_string : Error → Value → Result Error Unit
validate_optional_string no_string Value.null = ok tt
validate_optional_string no_string (Value.str s) = ok tt
validate_optional_string no_string value = err no_string

unfoldable pub validate_count : Value → Result Error Unit
validate_count (Value.int (ℤ.pos n)) = ensure (leb 1 n && leb n 5) count_out_of_range
validate_count (Value.int (ℤ.negsuc n)) = err count_out_of_range
validate_count value = err count_not_integer

-- `OptimizationRequest.validate`. The two calls of `_validate_string_tuple` pass, since
-- `required_behaviors` and `forbidden_changes` are lists of texts here.
unfoldable pub validate : OptimizationRequest → Result Error Unit
validate r = do
  require_text schema_not_string (λ s. str_eq s artifact_schema_version) unsupported_schema
      r.schema_version
  require_text source_not_string (λ s. not (is_blank s)) empty_source r.source_prompt
  require_text mode_not_string (λ s. contains s modes) unsupported_mode r.mode
  require_text format_not_string (λ s. contains s output_formats) unsupported_format r.output_format
  validate_optional_string domain_not_string r.domain
  validate_optional_string audience_not_string r.audience
  validate_optional_string target_model_not_string r.target_model
  require_text surface_not_string (λ s. contains s target_surfaces) unsupported_surface
      r.target_surface
  validate_count r.candidate_count

-- `OPTIMIZATION_REQUEST_FIELDS`
abbrev pub request_fields : List String
request_fields =
    "schema_version" ∷ "source_prompt" ∷ "mode" ∷ "output_format" ∷ "domain" ∷ "audience"
    ∷ "target_model" ∷ "target_surface" ∷ "required_behaviors" ∷ "forbidden_changes"
    ∷ "candidate_count" ∷ []

-- `OPTIMIZATION_REQUEST_REQUIRED_FIELDS`
abbrev pub required_fields : List String
required_fields = "schema_version" ∷ "source_prompt" ∷ "mode" ∷ "output_format" ∷ []

-- `data.get(name, default)`
unfoldable pub get_or : String → Value → Fields → Value
get_or name default fs = elim (get name fs) [ none ↦ default | some v ↦ v ]

unfoldable pub text_item : Value → Result Error String
text_item (Value.str s) = ok s
text_item value = err item_not_string

unfoldable pub text_array : Value → Result Error (List String)
unfolding text_item
text_array (arr items) = traverse text_item (elements items)
text_array value = err not_an_array

-- A finite number between 1 and 5 that is whole becomes an `int`; any other value stays.
unfoldable pub normalize_count : Value → Value
normalize_count (Value.real (ℤ.pos c) k) =
    if leb (10 ^ k) c && leb c (5 * 10 ^ k) && c % (10 ^ k) == 0
    then Value.int (ℤ.pos (c / 10 ^ k))
    else Value.real (ℤ.pos c) k
normalize_count value = value

unfoldable pub request_of : Fields → Value → Result Error OptimizationRequest
request_of fs surface_default = do
  required ← text_array (get_or "required_behaviors" (arr nil) fs)
  forbidden ← text_array (get_or "forbidden_changes" (arr nil) fs)
  ok (record {
    schema_version = get_or "schema_version" Value.null fs;
    source_prompt = get_or "source_prompt" Value.null fs;
    mode = get_or "mode" Value.null fs;
    output_format = get_or "output_format" Value.null fs;
    domain = get_or "domain" Value.null fs;
    audience = get_or "audience" Value.null fs;
    target_model = get_or "target_model" Value.null fs;
    target_surface = get_or "target_surface" surface_default fs;
    required_behaviors = required;
    forbidden_changes = forbidden;
    candidate_count = normalize_count (get_or "candidate_count" (Value.int (ℤ.pos 1)) fs);
  })

-- `from_dict`
unfoldable pub from_dict : Value → String → Result Error OptimizationRequest
from_dict (obj fs) target_surface_default = do
  ensure (subset (keys fs) request_fields) unknown_field
  ensure (subset required_fields (keys fs)) missing_field
  request ← request_of fs (Value.str target_surface_default)
  validate request
  ok request
from_dict value target_surface_default = err not_an_object

unfoldable pub text_items : List String → Items
text_items [] = nil
text_items (s ∷ ss) = cons (Value.str s) (text_items ss)

unfoldable pub fields_of : OptimizationRequest → Fields
unfolding text_items
fields_of r = field "schema_version" r.schema_version (
    field "source_prompt" r.source_prompt (
      field "mode" r.mode (
        field "output_format" r.output_format (
          field "domain" r.domain (
            field "audience" r.audience (
              field "target_model" r.target_model (
                field "target_surface" r.target_surface (
                  field "required_behaviors" (arr (text_items r.required_behaviors)) (
                    field "forbidden_changes" (arr (text_items r.forbidden_changes))
                      (field "candidate_count" r.candidate_count end))))))))))

-- `to_dict`
unfoldable pub to_dict : OptimizationRequest → Result Error Value
unfolding fields_of
to_dict r = do validate r; ok (obj (fields_of r))

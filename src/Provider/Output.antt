-- ===== src/Provider/Output.antt =====
-- `_extract_output_text` and `_usage` of src/prompt_performance_engine/adapters.py.
use prompt_performance_engin.Prelude.{
  String, Bool, List, [], ◌∷◌, ◌++◌, Option, none, some, str_eq, if◌then◌else◌, ◌≡◌, false, arith,
  Bool-cases, inl, inr,
}
use prompt_performance_engin.Prelude.Value.{Value, Fields, field, end, get, elements}
use prompt_performance_engin.Prelude.Result.{Result, ok, err, ◌>>=◌, returned_by}
use prompt_performance_engin.Prelude.Text.{is_blank}

-- No text, or a value that Python cannot iterate over.
pub data OutputError : Type 0 where
  no_output_text not_iterable : OutputError

-- `isinstance(value, str) and value == text`
unfoldable pub is_exactly : String → Option Value → Bool
is_exactly text (some (Value.str s)) = str_eq s text
is_exactly text value = false

-- What a loop over `value`, or over nothing when the key is missing, meets; the characters of a text
-- and the keys of an object are no objects and would be passed over.
unfoldable pub iterate : Option Value → Result OutputError (List Value)
iterate none = ok []
iterate (some (Value.arr items)) = ok (elements items)
iterate (some (Value.str s)) = ok []
iterate (some (Value.obj fs)) = ok []
iterate (some value) = err not_iterable

unfoldable pub text_part : Option Value → List String
text_part (some (Value.str s)) = s ∷ []
text_part value = []

unfoldable pub content_parts : List Value → List String
content_parts [] = []
content_parts (Value.obj fs ∷ rest) =
    let others = content_parts rest in
    if is_exactly "output_text" (get "type" fs) then text_part (get "text" fs) ++ others else others
content_parts (value ∷ rest) = content_parts rest

unfoldable pub message_parts : Fields → Result OutputError (List String)
message_parts fs =
    if is_exactly "message" (get "type" fs)
    then (do contents ← iterate (get "content" fs); ok (content_parts contents))
    else ok []

unfoldable pub output_parts : List Value → Result OutputError (List String)
output_parts [] = ok []
output_parts (Value.obj fs ∷ rest) = do
  parts ← message_parts fs
  others ← output_parts rest
  ok (parts ++ others)
output_parts (value ∷ rest) = output_parts rest

-- `"".join(parts)`, when it is not blank.
unfoldable pub joined : (List String → String) → List String → Result OutputError String
joined join parts = if is_blank (join parts) then err no_output_text else ok (join parts)

unfoldable pub listed_text : (List String → String) → Fields → Result OutputError String
listed_text join fs = do
  items ← iterate (get "output" fs)
  parts ← output_parts items
  joined join parts

unfoldable pub convenience_or_listed :
    (List String → String) → Fields → Option Value → Result OutputError String
convenience_or_listed join fs (some (Value.str s)) =
    if is_blank s then listed_text join fs else ok s
convenience_or_listed join fs value = listed_text join fs

-- `_extract_output_text`, where `join` is `"".join`.
unfoldable pub extract_output_text : (List String → String) → Fields → Result OutputError String
extract_output_text join fs = convenience_or_listed join fs (get "output_text" fs)

-- `_usage` of an object, and of any other value.
unfoldable pub integer_fields : Fields → Fields
integer_fields end = end
integer_fields (field key (Value.int n) rest) = field key (Value.int n) (integer_fields rest)
integer_fields (field key value rest) = integer_fields rest

unfoldable pub usage : Option Value → Fields
usage (some (Value.obj fs)) = integer_fields fs
usage value = end

joined-not_blank :
    (join : List String → String) (parts : List String) (text : String)
    → joined join parts ≡ ok text
    → is_blank text ≡ false
unfolding joined
joined-not_blank join parts text h = ground arith

listed_text-not_blank :
    (join : List String → String) (fs : Fields) (text : String)
    → listed_text join fs ≡ ok text
    → is_blank text ≡ false
unfolding listed_text
listed_text-not_blank join fs text h =
    let (items, h1, iterated) = returned_by (iterate (get "output" fs)) _ text h in
    let (parts, h2, collected) = returned_by (output_parts items) _ text h1 in
    joined-not_blank join parts text h2

convenience_not_blank :
    (join : List String → String) (fs : Fields) (v : Option Value) (text : String)
    → convenience_or_listed join fs v ≡ ok text
    → is_blank text ≡ false
unfolding convenience_or_listed
convenience_not_blank join fs (some (Value.str s)) text h = elim (Bool-cases (is_blank s)) [
  | inl e ↦ listed_text-not_blank join fs text (ground (arith, h, e))
  | inr e ↦ ground (arith, h, e)
]
convenience_not_blank join fs _ text h = listed_text-not_blank join fs text h

pub extract_output_text_not_blank :
    (join : List String → String) (fs : Fields) (text : String)
    → extract_output_text join fs ≡ ok text
    → is_blank text ≡ false
unfolding extract_output_text
extract_output_text_not_blank join fs text h =
    convenience_not_blank join fs (get "output_text" fs) text h

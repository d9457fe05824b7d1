-- ===== src/Prelude/Text.antt =====
-- Python's `str`, as far as the program looks into one: code points, blanks, length, and the two
-- patterns for identifiers and digests.
use Prim.Native.Char.{code}
use prompt_performance_engin.Prelude.Tests.{ltb, leb, ◌==◌}
use prompt_performance_engin.Prelude.Lists.{length, all}
use Prim.Native.Nat.{ℕ, suc}
use mathlib.Core.Option
use mathlib.Core.Option.{Option, none, some}
use prompt_performance_engin.Prelude.Tests.{if◌then◌else◌}
use Prim.Native.String.{String}
use mathlib.Core.Bool.{Bool, false, ◌&&◌, ◌||◌, true}
use mathlib.Core.List.{List, [], ◌∷◌}
use prompt_performance_engin.Prelude.{Option}

abbrev pub codes : String → List ℕ
codes String.[] = []
codes (String.◌∷◌ c s) = code c ∷ codes s

-- `str.isspace` of one character, by code point.
unfoldable pub is_space : ℕ → Bool
is_space c =
    (leb 9 c && leb c 13)
    || (leb 28 c && leb c 32)
    || c == 0x85
    || c == 0xa0
    || c == 0x1680
    || (leb 0x2000 c && leb c 0x200a)
    || c == 0x2028
    || c == 0x2029
    || c == 0x202f
    || c == 0x205f
    || c == 0x3000

-- `not s.strip()`
unfoldable pub is_blank : String → Bool
unfolding is_space
is_blank s = all is_space (codes s)

-- `s.isascii()`
unfoldable pub is_ascii : String → Bool
is_ascii s = all (λ c. ltb c 128) (codes s)

-- `[A-Za-z0-9]`
unfoldable pub is_alphanumeric : ℕ → Bool
is_alphanumeric c =
    (leb b'A' c && leb c b'Z') || (leb b'a' c && leb c b'z') || (leb b'0' c && leb c b'9')

unfoldable pub is_lower_hex : ℕ → Bool
is_lower_hex c = (leb b'0' c && leb c b'9') || (leb b'a' c && leb c b'f')

-- `head` and then at most `limit` of `tail`: `^[head][tail]{0,limit}$` under `fullmatch`.
unfoldable pub matches_identifier : (ℕ → Bool) → (ℕ → Bool) → ℕ → List ℕ → Bool
matches_identifier head tail limit [] = false
matches_identifier head tail limit (c ∷ cs) = head c && leb (length cs) limit && all tail cs

-- `^[0-9a-f]{64}$` under `fullmatch`.
unfoldable pub is_sha256 : String → Bool
unfolding is_lower_hex
is_sha256 s = length (codes s) == 64 && all is_lower_hex (codes s)

-- `text.startswith(target)`, on code points.
unfoldable pub starts_with : List ℕ → List ℕ → Bool
starts_with [] text = true
starts_with (c ∷ cs) [] = false
starts_with (c ∷ cs) (d ∷ ds) = c == d && starts_with cs ds

-- `text.find(target)`: where the first occurrence begins.
unfoldable pub find_text : List ℕ → List ℕ → Option ℕ
unfolding starts_with
find_text target [] = if starts_with target [] then some 0 else none
find_text target (d ∷ ds) =
    let later = Option.map suc (find_text target ds) in
    if starts_with target (d ∷ ds) then some 0 else later

-- `target in text`
unfoldable pub occurs_in : List ℕ → List ℕ → Bool
unfolding find_text
occurs_in target text = elim (find_text target text) [ none ↦ false | some at ↦ true ]

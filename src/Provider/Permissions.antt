-- ===== src/Provider/Permissions.antt =====
-- `ToolPermissionManifest.validate` of src/prompt_performance_engine/adapters.py. A tuple is an
-- `arr`; `str.upper` is given to the model.
use prompt_performance_engin.Prelude.{
  String, Bool, true, false, not, ◌&&◌, ◌*◌, ◌^◌, ltb, leb, List, [], ◌∷◌, any, is_empty, ◌≡◌,
  if◌then◌else◌, ap, ◌⊎◌, inl, ◌∙◌, inr, refl, All, arith, ℕ, ◌≤◌, subst, sym, ◌||◌,
}
use prompt_performance_engin.Prelude.Value.{Value, ℤ, arr, elements, Items, cons, nil}
use prompt_performance_engin.Prelude.Result.{
  Result, ok, err, ◌>>=◌, ◌>>◌, ensure, raise_if, traverse, last_of_two, returned_by, raise_if-ok,
  ensure-ok, ok_eq, traverse_cons,
}
use prompt_performance_engin.Prelude.Text.{is_blank, codes, occurs_in}

pub data Error : Type 0 where
  bad_executables bad_environment bad_directory bad_timeout bad_permission : Error
  sensitive_environment : Error

-- `working_directory`: None, a `Path`, or something else.
pub data Directory : Type 0 where
  no_directory directory_path other_object : Directory

pub record ToolPermissionManifest : Type 0 where
  pub allowed_executables : Value
  pub allowed_environment : Value
  pub working_directory : Directory
  pub maximum_timeout_seconds : Value
  pub allow_sensitive_environment : Value

abbrev pub sensitive_env_markers : List String
sensitive_env_markers = "KEY" ∷ "TOKEN" ∷ "SECRET" ∷ "PASSWORD" ∷ "CREDENTIAL" ∷ []

unfoldable pub filled_text : Error → Value → Result Error String
filled_text e (Value.str s) = if is_blank s then err e else ok s
filled_text e value = err e

unfoldable pub filled_texts : Error → Value → Result Error (List String)
filled_texts e (arr items) = traverse (filled_text e) (elements items)
filled_texts e value = err e

unfoldable pub is_directory : Directory → Bool
is_directory other_object = false
is_directory _ = true

unfoldable pub is_timeout : Value → Bool
is_timeout (Value.int (ℤ.pos n)) = ltb 0 n && leb n 3600
is_timeout (Value.real (ℤ.pos c) k) = ltb 0 c && leb c (3600 * 10 ^ k)
is_timeout value = false

unfoldable pub permission : Value → Result Error Bool
permission (Value.bool b) = ok b
permission value = err bad_permission

-- `any(marker in name.upper() for marker in SENSITIVE_ENV_MARKERS)`
unfoldable pub is_sensitive : (String → String) → String → Bool
is_sensitive upper name =
    any (λ marker. occurs_in (codes marker) (codes (upper name))) sensitive_env_markers

unfoldable pub validate_permissions : (String → String) → ToolPermissionManifest → Result Error Unit
validate_permissions upper m = do
  executables ← filled_texts bad_executables m.allowed_executables
  raise_if (is_empty executables) bad_executables
  environment ← filled_texts bad_environment m.allowed_environment
  ensure (is_directory m.working_directory) bad_directory
  ensure (is_timeout m.maximum_timeout_seconds) bad_timeout
  allowed ← permission m.allow_sensitive_environment
  raise_if (not allowed && any (is_sensitive upper) environment) sensitive_environment

permission-ok : (v : Value) (b : Bool) → permission v ≡ ok b → v ≡ Value.bool b
unfolding permission
permission-ok (Value.bool b) c h = ap Value.bool (ok_eq h)
permission-ok _ c h = cc

no_any : (a b : Bool) → (not a && b) ≡ false → (a ≡ true) ⊎ ((a ≡ false) × (b ≡ false))
no_any true b h = inl refl
no_any false b h = inr (refl, h)

-- The items are the texts named, and none of them is blank.
pub data IsFilled : Items → List String → Type 0 where
  no_item : IsFilled nil []
  item :
      (s : String) (items : Items) (names : List String)
      → is_blank s ≡ false
      → IsFilled items names
      → IsFilled (cons (Value.str s) items) (s ∷ names)

-- More than 0 and at most 3600 seconds, as an integer or as the decimal c / 10 ^ k.
pub data IsTimeout : Value → Type 0 where
  whole : (n : ℕ) → 1 ≤ n → n ≤ 3600 → IsTimeout (Value.int (ℤ.pos n))
  decimal : (c k : ℕ) → 1 ≤ c → c ≤ 3600 * 10 ^ k → IsTimeout (Value.real (ℤ.pos c) k)

-- No sign of a secret occurs in the name in upper case.
abbrev pub HasNoMarker : (String → String) → String → Type 0
HasNoMarker upper name =
    All (λ marker. occurs_in (codes marker) (codes (upper name)) ≡ false) sensitive_env_markers

filled_of :
    (b : Bool) (e : Error) (t s : String)
    → ◌≡◌ {A = Result Error String} (if b then err e else ok t) (ok s)
    → (t ≡ s) × (b ≡ false)
filled_of true e t s h = cc
filled_of false e t s h = (ok_eq h, refl)

filled_text-ok :
    (e : Error) (v : Value) (s : String)
    → filled_text e v ≡ ok s
    → (v ≡ Value.str s) × (is_blank s ≡ false)
unfolding filled_text
filled_text-ok e (Value.str t) s h =
    let (same, filled) = filled_of (is_blank t) e t s h in
    (ap Value.str same, subst (λ x. is_blank x ≡ false) same filled)
filled_text-ok e _ s h = cc

items_filled :
    (e : Error) (items : Items) (names : List String)
    → traverse (filled_text e) (elements items) ≡ ok names
    → IsFilled items names
items_filled e nil names h = subst (IsFilled nil) (ok_eq h) no_item
items_filled e (cons v items) names h =
    let (s, rest, first, others, same) = traverse_cons (filled_text e) v (elements items) names h in
    let (is_text, filled) = filled_text-ok e v s first in
    subst (λ x. IsFilled (cons x items) names) (sym is_text)
      (subst (IsFilled (cons (Value.str s) items)) same
        (item s items rest filled (items_filled e items rest others)))

filled_texts-IsFilled :
    (e : Error) (v : Value) (names : List String)
    → filled_texts e v ≡ ok names
    → (items : Items) × (v ≡ arr items) × IsFilled items names
unfolding filled_texts
filled_texts-IsFilled e (arr items) names h = (items, refl, items_filled e items names h)
filled_texts-IsFilled e _ names h = cc

neither : (a b : Bool) → (a || b) ≡ false → (a ≡ false) × (b ≡ false)
neither false b h = (refl, h)
neither true b h = cc

none_of : {A : Type 0} (p : A → Bool) (xs : List A) → any p xs ≡ false → All (λ x. p x ≡ false) xs
none_of p [] h = tt
none_of p (x ∷ xs) h = let (first, rest) = neither (p x) (any p xs) h in (first, none_of p xs rest)

no_markers :
    (upper : String → String) (names : List String)
    → any (is_sensitive upper) names ≡ false
    → All (HasNoMarker upper) names
unfolding is_sensitive
no_markers upper [] h = tt
no_markers upper (s ∷ names) h =
    let (first, rest) = neither (is_sensitive upper s) (any (is_sensitive upper) names) h in
    (
      none_of (λ marker. occurs_in (codes marker) (codes (upper s))) sensitive_env_markers first,
      no_markers upper names rest,
    )

is_timeout-IsTimeout : (v : Value) → is_timeout v ≡ true → IsTimeout v
unfolding is_timeout
is_timeout-IsTimeout (Value.int (ℤ.pos n)) h = whole n (ground (arith, h)) (ground (arith, h))
is_timeout-IsTimeout (Value.real (ℤ.pos c) k) h =
    decimal c k (ground (arith, h)) (ground (arith, h))
is_timeout-IsTimeout _ h = cc

not_empty : (names : List String) → is_empty names ≡ false → ¬ (names ≡ [])
not_empty [] h k = cc
not_empty (s ∷ names) h k = cc

known_directory : (d : Directory) → is_directory d ≡ true → ¬ (d ≡ other_object)
unfolding is_directory
known_directory d h k = cc (sym (ap is_directory k) ∙ h)

-- A manifest that `validate` accepts allows at least one executable, names all its executables and
-- its environment by texts that are not blank, and has a timeout above 0 and up to 3600 seconds, a
-- working directory that is None or a path, and a Boolean flag; without the flag no sign of a secret
-- occurs in a name of its environment.
pub validate_permissions_lem :
    (upper : String → String) (m : ToolPermissionManifest)
    → validate_permissions upper m ≡ ok tt
    → ((executables : List String) × (items : Items) × (m.allowed_executables ≡ arr items)
        × IsFilled items executables
        × ¬ (executables ≡ []))
      × IsTimeout m.maximum_timeout_seconds
      × ¬ (m.working_directory ≡ other_object)
      × ((environment : List String) × (items : Items) × (m.allowed_environment ≡ arr items)
          × IsFilled items environment
          × ((m.allow_sensitive_environment ≡ Value.bool true)
              ⊎ ((m.allow_sensitive_environment ≡ Value.bool false)
                  × All (HasNoMarker upper) environment)))
unfolding validate_permissions
validate_permissions_lem upper m h =
    let (executables, h1, allowed) =
      returned_by (filled_texts bad_executables m.allowed_executables) _ tt h in
    let (h2, t1, present) = last_of_two (raise_if (is_empty executables) bad_executables) _ tt h1 in
    let (environment, h3, listed) =
      returned_by (filled_texts bad_environment m.allowed_environment) _ tt h2 in
    let (h4, t2, placed) =
      last_of_two (ensure (is_directory m.working_directory) bad_directory) _ tt h3 in
    let (h5, t3, timeout) =
      last_of_two (ensure (is_timeout m.maximum_timeout_seconds) bad_timeout) _ tt h4 in
    let (may, h6, permitted) = returned_by (permission m.allow_sensitive_environment) _ tt h5 in
    let (items, tuple_, filled) = filled_texts-IsFilled _ _ executables allowed in
    let (items', tuple', filled') = filled_texts-IsFilled _ _ environment listed in
    let flag = permission-ok m.allow_sensitive_environment may permitted in
    (
      (executables, items, tuple_, filled, not_empty executables (raise_if-ok _ present)),
      is_timeout-IsTimeout m.maximum_timeout_seconds (ensure-ok _ timeout),
      known_directory m.working_directory (ensure-ok _ placed),
      (
        environment,
        items',
        tuple',
        filled',
        elim (no_any may (any (is_sensitive upper) environment) (raise_if-ok _ h6)) [
          | inl e ↦ inl (flag ∙ ap Value.bool e)
          | inr (e, none_) ↦ inr (flag ∙ ap Value.bool e, no_markers upper environment none_)
        ],
      ),
    )

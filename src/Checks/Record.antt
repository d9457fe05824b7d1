-- ===== src/Checks/Record.antt =====
-- One entry of a list of checks. `authoritative` is `none` where the dict has no such key. The keys
-- `value`, `observed`, `detail` and `source`, which only report, are left out.
use prompt_performance_engin.Prelude.{Bool, true, Option, none, some, String, ◌||◌, not, List, all}

pub record Check : Type 0 where
  pub check : String
  pub passed : Bool
  pub authoritative : Option Bool

-- `check.get("authoritative", True)`
abbrev pub is_authoritative : Check → Bool
is_authoritative c = elim c.authoritative [ none ↦ true | some b ↦ b ]

-- `all(check["passed"] for check in checks if check.get("authoritative", True))`
unfoldable pub all_passed : List Check → Bool
all_passed = all (λ c. not (is_authoritative c) || c.passed)

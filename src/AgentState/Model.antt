-- ===== src/AgentState/Model.antt =====
-- internal/agentstate/detector.go, manifest.go: the types.
use aht.Prelude.{ℕ, ℤ, Bool, String, List}
use aht.Registry.Model.{Harness, Activity, ActivityDetail}

-- What a function returns: `(value, nil)`, or an error by its text.
pub data Outcome {ℓ} (V : Type ℓ) : Type ℓ where
  failed : (cause : String) → Outcome V
  done : (value : V) → Outcome V

-- `if err != nil { return err }`, and otherwise the rest of the function on the value.
infixl 5 ◌>>=◌
abbrev pub ◌>>=◌ {κ ℓ} : {V : Type κ} {W : Type ℓ} → Outcome V → (V → Outcome W) → Outcome W
done value >>= rest = rest value
failed cause >>= rest = failed cause

abbrev pub is_done {ℓ} : {V : Type ℓ} → Outcome V → Bool
is_done (done value) = Bool.true
is_done (failed cause) = Bool.false

-- A compiled regular expression, as its `MatchString`.
abbrev pub Regexp : Type 0
Regexp = String → Bool

-- What the package uses of Unicode's tables and of the package `regexp`: `strings.ToLower`, the
-- `%q` of `fmt`, `regexp.Compile`, and the removal of the matches of `ansiEscapePattern`.
pub record Tools : Type 0 where
  pub to_lower : String → String
  pub quote : String → String
  pub compile : String → Outcome Regexp
  pub without_ansi : String → String

pub record Rule : Type 0 where
  pub detail : ActivityDetail
  pub id : String
  pub state : String
  pub priority : ℤ
  pub region : String
  pub case_sensitive : Bool
  pub all : List String
  pub any : List String
  pub none : List String
  pub regex_all : List String
  pub regex_any : List String
  pub regex_none : List String
  pub title_any : List String
  pub title_regex_any : List String
  pub regex_all_compiled : List Regexp
  pub regex_any_compiled : List Regexp
  pub regex_none_compiled : List Regexp
  pub title_regex_any_compiled : List Regexp

pub record Manifest : Type 0 where
  pub version : ℤ
  pub agent : String
  pub rules : List Rule
  pub source : String
  pub warning : String

pub record Snapshot : Type 0 where
  pub lines : List String
  pub title : String

pub record RuleEvidence : Type 0 where
  pub rule_id : String
  pub matched : Bool

pub record Decision : Type 0 where
  pub activity : Activity
  pub detail : ActivityDetail
  pub reason : String
  pub rule_id : String
  pub manifest_source : String
  pub manifest_version : ℤ
  pub warning : String
  pub evidence : List RuleEvidence

pub record MatcherInspection : Type 0 where
  pub name : String
  pub passed : Bool
  pub details : String

pub record CandidateRule : Type 0 where
  pub id : String
  pub state : String
  pub priority : ℤ
  pub region : String
  pub matched : Bool
  pub winner : Bool
  pub reason : String
  pub matchers : List MatcherInspection

pub record Inspection : Type 0 where
  pub harness : Harness
  pub manifest_source : String
  pub manifest_version : ℤ
  pub warning : String
  pub lines_evaluated : ℕ
  pub title : String
  pub decision : Decision
  pub winning_rule : String
  pub candidates : List CandidateRule
  pub screen : String

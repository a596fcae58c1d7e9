-- ===== src/AgentState/Manifest.antt =====
-- internal/agentstate/manifest.go: the checks of a manifest and the compilation of its rules.
-- `decode` is the TOML decoder, with unknown fields refused.
pub mod Valid
pub mod Parsed
use Prim.Native.String.{◌++◌}
use aht.Prelude.{
  ℕ, ◌+◌, ◌^◌, pos, int_eq, Bool, true, false, not, ◌&&◌, ◌||◌, ◌==◌, Option, none, some, String,
  List, [], ◌∷◌, if◌then◌else◌, ltb,
}
use aht.Prelude.Text.{trim_space, itoa}
use aht.Prelude.Lists.{length, nonempty}
use aht.Registry.Model.{Activity, Harness}
use aht.Registry.Normalize.{normalize_activity, is_one_of}
use aht.Registry.Detail.{valid_for, detail_blank}
use aht.AgentState.Model.{Tools, Rule, Manifest, Regexp, Outcome, failed, done, ◌>>=◌}
use aht.AgentState.Region.{select_region}

-- What a function that returns only an error returns.
abbrev pub Checked : Type 0
Checked = Outcome (Unit {0})

infixl 5 ◌>>◌
abbrev pub ◌>>◌ {κ} : {W : Type κ} → Checked → Outcome W → Outcome W
failed cause >> rest = failed cause
done value >> rest = rest

-- `fmt.Errorf("%w: …", errManifestInvalid, …)`.
abbrev pub invalid {κ} : {V : Type κ} → String → Outcome V
invalid text = failed ("invalid detection manifest: " ++ text)

-- `if bad { return error }`.
abbrev pub refuse_if : Bool → String → Checked
refuse_if bad text = if bad then invalid text else done tt

-- The states that no rule may have.
unfoldable pub unsupported : Option Activity → Bool
unsupported none = true
unsupported (some Activity.unknown) = true
unsupported (some (Activity.other s)) = true
unsupported (some _) = false

-- `rule.Detail.ValidFor(activity)`, where the state is supported.
unfoldable pub detail_misplaced : Rule → Option Activity → Bool
unfolding valid_for
detail_misplaced rule none = false
detail_misplaced rule (some activity) =
    not (detail_blank rule.detail) && not (valid_for rule.detail activity)

-- `hasPositiveMatcher`.
unfoldable pub has_positive_matcher : Rule → Bool
has_positive_matcher rule = ltb 0 (
    length rule.all
    + length rule.any
    + length rule.regex_all
    + length rule.regex_any
    + length rule.title_any
    + length rule.title_regex_any)

-- The loop over one group of `validateMatchers`.
unfoldable pub validate_group : Tools → Rule → String → ℕ → List String → Checked
validate_group t rule name index [] = done tt
validate_group t rule name index (value ∷ values) =
    let rest = validate_group t rule name (index + 1) values in
    if trim_space value == ""
    then invalid (
        "rule "
        ++ (t.quote rule.id ++ (" " ++ (name ++ ("[" ++ (itoa (pos index) ++ "] is empty"))))))
    else rest

-- `validateMatchers`.
unfoldable pub validate_matchers : Tools → Rule → Checked
unfolding validate_group
validate_matchers t rule =
    validate_group t rule "all" 0 rule.all
    >> validate_group t rule "any" 0 rule.any
    >> validate_group t rule "none" 0 rule.none
    >> validate_group t rule "regex_all" 0 rule.regex_all
    >> validate_group t rule "regex_any" 0 rule.regex_any
    >> validate_group t rule "regex_none" 0 rule.regex_none
    >> validate_group t rule "title_any" 0 rule.title_any
    >> validate_group t rule "title_regex_any" 0 rule.title_regex_any

-- `fmt.Errorf("%w: rule %q: %w", errManifestInvalid, rule.ID, err)`.
abbrev pub region_checked : Tools → Rule → Outcome (List String) → Checked
region_checked t rule (done lines) = done tt
region_checked t rule (failed cause) = invalid ("rule " ++ (t.quote rule.id ++ (": " ++ cause)))

-- `Rule.validate`.
unfoldable pub validate_rule : Tools → Rule → Checked
unfolding unsupported detail_misplaced select_region has_positive_matcher validate_matchers
validate_rule t rule =
    let activity = normalize_activity t.to_lower rule.state in
    refuse_if (unsupported activity)
      ("rule " ++ (t.quote rule.id ++ (" has unsupported state " ++ t.quote rule.state)))
    >> refuse_if (detail_misplaced rule activity)
        ("rule " ++ (t.quote rule.id ++ " has invalid activity detail"))
    >> region_checked t rule (select_region t rule.region [])
    >> refuse_if (not (has_positive_matcher rule))
        ("rule " ++ (t.quote rule.id ++ " has no positive matcher"))
    >> validate_matchers t rule

-- The loop of `Manifest.validate`; `seen` holds the keys of the map.
unfoldable pub validate_rules : Tools → ℕ → List String → List Rule → Checked
unfolding validate_rule
validate_rules t index seen [] = done tt
validate_rules t index seen (rule ∷ rules) =
    refuse_if (trim_space rule.id == "") ("rules[" ++ (itoa (pos index) ++ "] has no id"))
    >> refuse_if (is_one_of rule.id seen) ("duplicate rule id " ++ t.quote rule.id)
    >> validate_rule t rule
    >> validate_rules t (index + 1) (rule.id ∷ seen) rules

-- `Manifest.validate`; `manifestSchemaVersion` is 1.
unfoldable pub validate : Tools → Manifest → Checked
unfolding validate_rules
validate t m =
    refuse_if (not (int_eq m.version (pos 1)) || not (nonempty m.rules))
      ("schema version " ++ (itoa m.version ++ " or empty rules"))
    >> validate_rules t 0 [] m.rules

-- `ruleRegexExpression`.
unfoldable pub rule_regex_expression : String → Bool → String
rule_regex_expression expression case_sensitive =
    if case_sensitive then expression else "(?i:" ++ (expression ++ ")")

abbrev compile_failure : Tools → String → Outcome Regexp → Outcome Regexp
compile_failure t expression (done pattern) = done pattern
compile_failure t expression (failed cause) =
    failed ("compiling regular expression " ++ (t.quote expression ++ (": " ++ cause)))

-- `compileRuleExpressions`.
unfoldable pub compile_rule_expressions : Tools → List String → Bool → Outcome (List Regexp)
unfolding rule_regex_expression
compile_rule_expressions t [] case_sensitive = done []
compile_rule_expressions t (expression ∷ expressions) case_sensitive =
    compile_failure t expression (t.compile (rule_regex_expression expression case_sensitive))
    >>= λ pattern. compile_rule_expressions t expressions case_sensitive >>= λ compiled.
        done (pattern ∷ compiled)

abbrev pub compiling : Tools → Rule → String → Outcome (List Regexp) → Outcome (List Regexp)
compiling t rule group (done compiled) = done compiled
compiling t rule group (failed cause) =
    invalid ("compiling rule " ++ (t.quote rule.id ++ (" " ++ (group ++ (": " ++ cause)))))

-- The body of the loop of `compileRules`.
unfoldable pub compile_rule : Tools → Rule → Outcome Rule
unfolding compile_rule_expressions
compile_rule t rule =
    compiling t rule "regex_all" (compile_rule_expressions t rule.regex_all rule.case_sensitive)
    >>= λ regex_all.
        compiling t rule "regex_any" (compile_rule_expressions t rule.regex_any rule.case_sensitive)
        >>= λ regex_any.
            compiling t rule "regex_none"
              (compile_rule_expressions t rule.regex_none rule.case_sensitive)
            >>= λ regex_none.
                compiling t rule "title_regex_any"
                  (compile_rule_expressions t rule.title_regex_any rule.case_sensitive)
                >>= λ title_regex_any. done (record rule {
                  regex_all_compiled = regex_all;
                  regex_any_compiled = regex_any;
                  regex_none_compiled = regex_none;
                  title_regex_any_compiled = title_regex_any;
                })

-- `compileRules`.
unfoldable pub compile_rules : Tools → List Rule → Outcome (List Rule)
unfolding compile_rule
compile_rules t [] = done []
compile_rules t (rule ∷ rules) =
    compile_rule t rule >>= λ compiled. compile_rules t rules >>= λ others. done (compiled ∷ others)

-- `ParseManifest`; `maxManifestBytes` is 2 ^ 20.
unfoldable pub max_manifest_bytes : ℕ
max_manifest_bytes = 2 ^ 20

abbrev pub too_large : String
too_large = "detection manifest exceeds 1 MiB"

abbrev pub parsing {κ} : {V : Type κ} → Outcome V → Outcome V
parsing (done m) = done m
parsing (failed cause) = invalid ("parsing TOML: " ++ cause)

unfoldable pub parse_manifest :
    Tools → (List ℕ → Outcome Manifest) → List ℕ → Harness → Outcome Manifest
unfolding validate compile_rules max_manifest_bytes
parse_manifest t decode bytes harness =
    (if ltb max_manifest_bytes (length bytes) then failed too_large else done tt)
    >> (parsing (decode bytes) >>= λ m.
        refuse_if (not (m.agent == harness))
          ("agent " ++ (t.quote m.agent ++ (" does not match " ++ t.quote harness)))
        >> validate t m
        >> (compile_rules t m.rules >>= λ rules. done (record m { rules = rules })))

-- ===== src/AgentState/Manifest/Parsed.antt =====
-- internal/agentstate/manifest.go: every manifest that is parsed has passed the checks.
use Prim.Native.String.{◌++◌}
use aht.Prelude.{
  ◌≡◌, refl, subst, ◌∙◌, ℕ, ◌+◌, Bool, true, false, not, ◌==◌, String, List, [], ◌∷◌, if◌then◌else◌,
  eq_iff, ltb,
}
use aht.Prelude.Lists.{nonempty, length}
use aht.Registry.Model.{Harness}
use aht.AgentState.Model.{Tools, Rule, Manifest, Regexp, Outcome, done, failed, ◌>>=◌}
use aht.AgentState.Manifest.{
  Checked, ◌>>◌, refuse_if, validate, validate_rules, validate_rule, compile_rule, compile_rules,
  parse_manifest, parsing, too_large, max_manifest_bytes, compiling, compile_rule_expressions,
}

-- The same rule but for its compiled expressions.
abbrev SameChecks : Tools → Rule → Rule → Type 0
SameChecks t compiled rule =
    (compiled.id ≡ rule.id) × (validate_rule t compiled ≡ validate_rule t rule)

compiled-SameChecks :
    (t : Tools) (rule compiled : Rule) (a b c d : Outcome (List Regexp))
    → (a >>= λ regex_all. b >>= λ regex_any. c >>= λ regex_none. d >>= λ title_regex_any.
        done (record rule {
          regex_all_compiled = regex_all;
          regex_any_compiled = regex_any;
          regex_none_compiled = regex_none;
          title_regex_any_compiled = title_regex_any;
        }))
      ≡ done compiled
    → SameChecks t compiled rule
unfolding validate_rule
compiled-SameChecks t rule compiled (done a) (done b) (done c) (done d) h =
    let made : Rule = record rule {
      regex_all_compiled = a;
      regex_any_compiled = b;
      regex_none_compiled = c;
      title_regex_any_compiled = d;
    } in
    let same : made ≡ compiled = cc (h) in subst (λ r. SameChecks t r rule) same (refl, refl)
compiled-SameChecks t rule compiled (failed e) b c d h = cc
compiled-SameChecks t rule compiled (done a) (failed e) c d h = cc
compiled-SameChecks t rule compiled (done a) (done b) (failed e) d h = cc
compiled-SameChecks t rule compiled (done a) (done b) (done c) (failed e) h = cc

compile_rule-SameChecks :
    (t : Tools) (rule compiled : Rule)
    → compile_rule t rule ≡ done compiled
    → SameChecks t compiled rule
unfolding compile_rule
compile_rule-SameChecks t rule compiled h =
    compiled-SameChecks t rule compiled
      (compiling t rule "regex_all" (compile_rule_expressions t rule.regex_all rule.case_sensitive))
      (compiling t rule "regex_any" (compile_rule_expressions t rule.regex_any rule.case_sensitive))
      (compiling t rule "regex_none"
        (compile_rule_expressions t rule.regex_none rule.case_sensitive))
      (compiling t rule "title_regex_any"
        (compile_rule_expressions t rule.title_regex_any rule.case_sensitive))
      h

-- A step that went well.
bind-done :
    {V W : Type 0} (o : Outcome V) (f : V → Outcome W) (w : W)
    → (o >>= f) ≡ done w
    → (v : V) × (o ≡ done v) × (f v ≡ done w)
bind-done (done v) f w h = (v, refl, h)
bind-done (failed cause) f w h = cc

compile_rules-checks :
    (t : Tools) (rules compiled : List Rule) (index : ℕ) (seen : List String)
    → compile_rules t rules ≡ done compiled
    → (validate_rules t index seen compiled ≡ validate_rules t index seen rules)
      × (nonempty compiled ≡ nonempty rules)
unfolding compile_rules validate_rules
compile_rules-checks t [] [] index seen h = (refl, refl)
compile_rules-checks t [] (r ∷ compiled) index seen h = cc
compile_rules-checks t (rule ∷ rules) compiled index seen h =
    let (r, made, rest) = bind-done (compile_rule t rule) _ compiled h in
    let (rs, others, end) = bind-done (compile_rules t rules) _ compiled rest in
    let (id, checks) = compile_rule-SameChecks t rule r made in
    let ih = compile_rules-checks t rules rs (index + 1) (rule.id ∷ seen) others in
    let split : r ∷ rs ≡ compiled = cc (end) in
    subst
      (λ l.
        (validate_rules t index seen l ≡ validate_rules t index seen (rule ∷ rules))
        × (nonempty l ≡ true))
      split (cc (id, checks, ih.0), refl)

-- What a manifest of the harness has passed.
abbrev pub HasPassed : Tools → Harness → Manifest → Type 0
HasPassed t h m = (m.agent ≡ h) × (validate t m ≡ done tt)

rules_compiled-HasPassed :
    (t : Tools) (h : Harness) (read m : Manifest)
    → (read.agent == h) ≡ true
    → validate t read ≡ done tt
    → (compile_rules t read.rules >>= λ rules. done (record read { rules = rules })) ≡ done m
    → HasPassed t h m
unfolding validate
rules_compiled-HasPassed t h read m agent valid e =
    let (rules, compiled, end) = bind-done (compile_rules t read.rules) _ m e in
    let (same, some_rule) = compile_rules-checks t read.rules rules 0 [] compiled in
    let made : Manifest = record read { rules = rules } in
    let same_m : made ≡ m = cc (end) in
    let checked : validate t made ≡ validate t read = cc (same, some_rule) in
    subst (HasPassed t h) same_m ((eq_iff read.agent h).0 agent, checked ∙ valid)

parsed-HasPassed :
    (t : Tools) (h : Harness) (m : Manifest) (size : Checked) (parsed : Outcome Manifest)
    → (size
        >> (parsed >>= λ read.
            refuse_if
              (not (read.agent == h))
              ("agent " ++ (t.quote read.agent ++ (" does not match " ++ t.quote h)))
            >> validate t read
            >> (compile_rules t read.rules >>= λ rules. done (record read { rules = rules }))))
      ≡ done m
    → HasPassed t h m
parsed-HasPassed t h m (failed cause) parsed e = cc
parsed-HasPassed t h m (done tt) (failed cause) e = cc
parsed-HasPassed t h m (done tt) (done read) e = go (read.agent == h) refl (validate t read) refl e
  where
    go :
        (b : Bool)
        → (read.agent == h) ≡ b
        → (v : Checked) → validate t read ≡ v
        → (refuse_if (not b) ("agent " ++ (t.quote read.agent ++ (" does not match " ++ t.quote h)))
            >> v
            >> (compile_rules t read.rules >>= λ rules. done (record read { rules = rules })))
          ≡ done m
        → HasPassed t h m
    go false f v g e = cc
    go true f (failed cause) g e = cc
    go true f (done tt) g e = rules_compiled-HasPassed t h read m f g e

pub parse_manifest-HasPassed :
    (t : Tools) (decode : List ℕ → Outcome Manifest) (b : List ℕ) (h : Harness) (m : Manifest)
    → parse_manifest t decode b h ≡ done m
    → HasPassed t h m
unfolding parse_manifest
parse_manifest-HasPassed t decode b h m e =
    parsed-HasPassed t h m (if ltb max_manifest_bytes (length b) then failed too_large else done tt)
      (parsing (decode b)) e

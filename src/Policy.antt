-- ===== src/Policy.antt =====
-- internal/policy: the policy engine (engine.go) and its filters (filter_keyword.go, filter_regex.go,
-- filter_pii.go). The text functions and regular expressions of the libraries are a parameter, and
-- so is what a WASM plugin answers. A range over the PII patterns has its order in the parameter.
pub mod Wasm
pub mod Plugin
pub mod Verdict
pub mod Sample
mod Tests
use Prim.Native.String.{◌++◌}
use aigateway.Prelude.{
  String, Bool, true, false, Option, none, some, List, [], ◌∷◌, map, keep, if◌then◌else◌,
}

pub data Action : Type 0 where
  block warn log : Action

abbrev pub is_block : Action → Bool
is_block block = true
is_block _ = false

pub record Violation : Type 0 where
  pub policy_name : String
  pub action : Action
  pub message : String

-- What the filters take from Go's libraries and from golang.org/x/text.
pub record TextLibrary : Type 0 where
  pub nfkc : String → String
  pub to_lower : String → String
  pub collapse_spaces : String → String
  pub trim_space : String → String
  pub contains : String → String → Bool
  -- A text with quotes around it: %q
  pub quoted : String → String
  pub compiles : String → Bool
  pub match_string : String → String → Bool
  -- piiPatterns: whether there is a pattern of a kind, what it matches; and the
  -- kinds of a map of them, each once, in the order of a range.
  pub pii_known : String → Bool
  pub pii_kinds : List String
  pub pii_match : String → String → Bool
  pub range_order : List String → List String

pub data Filter : Type 0 where
  keyword_filter regex_filter pii_filter : String → Action → List String → Filter
  wasm_filter : (String → Option Violation) → Filter

pub record Engine : Type 0 where
  pub input_filters : List Filter
  pub output_filters : List Filter

module _ (lib : TextLibrary) where
  unfoldable pub normalize_text : String → String
  normalize_text s = lib.trim_space (lib.collapse_spaces (lib.to_lower (lib.nfkc s)))

  unfoldable pub new_keyword_filter : String → Action → List String → Filter
  new_keyword_filter name action keywords = keyword_filter name action (map normalize_text keywords)

  -- Patterns that do not compile are dropped.
  unfoldable pub new_regex_filter : String → Action → List String → Filter
  new_regex_filter name action patterns = regex_filter name action (keep lib.compiles patterns)

  abbrev pub all_if_none : List String → List String
  all_if_none [] = lib.pii_kinds
  all_if_none (k ∷ ks) = k ∷ ks

  unfoldable pub new_pii_filter : String → Action → List String → Filter
  new_pii_filter name action kinds = pii_filter name action (all_if_none (keep lib.pii_known kinds))

  -- The loops of the filters: the first pattern that is met, and its message.
  pub first_met :
      (String → Bool) → (String → String) → String → Action → List String → Option Violation
  first_met met message name action [] = none
  first_met met message name action (p ∷ ps) =
      if met p
      then some (record { policy_name = name; action = action; message = message p })
      else first_met met message name action ps

  abbrev pub keyword_message : Action → String → String
  keyword_message block kw = "blocked keyword detected: " ++ lib.quoted kw
  keyword_message _ kw = "keyword detected: " ++ lib.quoted kw

  unfoldable pub check : String → Filter → Option Violation
  unfolding first_met
  check content (keyword_filter name action keywords) =
      first_met (lib.contains (normalize_text content)) (keyword_message action) name action
        keywords
  check content (regex_filter name action patterns) =
      first_met (λ p. lib.match_string p content) (λ p. "pattern matched: " ++ p) name action
        patterns
  check content (pii_filter name action kinds) =
      first_met (λ k. lib.pii_match k content) (λ k. "PII detected: " ++ k) name action
        (lib.range_order kinds)
  check content (wasm_filter run) = run content

  -- The loop of CheckInput and of CheckOutput: the first violation of any filter.
  unfoldable pub first_violation : String → List Filter → Option Violation
  first_violation content [] = none
  first_violation content (f ∷ fs) = elim (check content f) [
    | some v ↦ some v
    | none ↦ first_violation content fs
  ]

  abbrev pub check_input : String → Engine → Option Violation
  check_input content e = first_violation content e.input_filters

  abbrev pub check_output : String → Engine → Option Violation
  check_output content e = first_violation content e.output_filters

  -- internal/gateway/handler.go: a request is refused for its content.
  unfoldable pub refuses : String → Engine → Bool
  refuses content e = elim (check_input content e) [ none ↦ false | some v ↦ is_block v.action ]

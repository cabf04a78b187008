-- ===== src/Policy/Tests.antt =====
-- Runs of the filters of internal/policy, and the theorems at them. A text is matched as a whole here.
use aigateway.Prelude.{true, none, some, ◌↔◌, ◌≡◌, refl, false, [], ◌∷◌}
use aigateway.Policy.{
  block, warn, Violation, Filter, keyword_filter, regex_filter, Engine, check, refuses,
}
use aigateway.Policy.Wasm.{
  ok, failed, Module, WasmFilter, put, hand_over, ask, call_check, run_filter,
}
use aigateway.Policy.Plugin.{IsAccepted, AllOf, run_filter_passes}
use aigateway.Policy.Sample.{texts}
use aigateway.Policy.Verdict.{warning_hides_block}

abbrev watch : Filter
watch = regex_filter "watch" warn ("ignore previous instructions" ∷ [])

abbrev jailbreak : Filter
jailbreak = keyword_filter "jailbreak" block ("ignore previous instructions" ∷ [])

abbrev engine : Engine
engine = record { input_filters = watch ∷ jailbreak ∷ []; output_filters = [] }

abbrev warning : Violation
warning = record {
  policy_name = "watch";
  action = warn;
  message = "pattern matched: ignore previous instructions";
}

warning_hides_block_example : refuses texts "ignore previous instructions" engine ≡ false
unfolding check
warning_hides_block_example =
    warning_hides_block texts "ignore previous instructions" [] (jailbreak ∷ []) watch warning
      engine refl tt refl refl

-- A module that accepts every content.
abbrev accepting : Module (Unit {0})
accepting = record {
  alloc = λ n s. (ok 8, s);
  check = λ p n q k s. (ok 0, s);
  get_result_ptr = λ s. (ok 0, s);
  get_result_len = λ s. (ok 0, s);
  write = λ p bytes s. (true, s);
  read = λ p n s. none;
  parse_result = λ bytes. failed "no JSON";
}

abbrev plugin : WasmFilter
plugin = record { name = "toxicity"; action = block; on_error = "block" }

-- A module that traps in its check, under a filter that only warns.
abbrev trapping : Module Unit
trapping = record accepting { check = λ p l q k s. (failed "unreachable", s) }

trap_warns :
    (run_filter trapping (record plugin { action = warn }) (1 ∷ 2 ∷ []) [] tt).0
    ≡ some (record {
      policy_name = "toxicity";
      action = warn;
      message = "wasm plugin error: toxicity: calling check: unreachable";
    })
unfolding run_filter call_check hand_over ask put
trap_warns = refl

run_filter_passes_example :
    (((run_filter accepting plugin (1 ∷ 2 ∷ []) [] tt).0 ≡ none)
      ↔ IsAccepted accepting (1 ∷ 2 ∷ []) [] tt)
    × AllOf plugin (run_filter accepting plugin (1 ∷ 2 ∷ []) [] tt).0
run_filter_passes_example = run_filter_passes accepting plugin (1 ∷ 2 ∷ []) [] tt refl

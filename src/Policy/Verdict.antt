-- ===== src/Policy/Verdict.antt =====
-- internal/policy: which filter decides about a text.
use aigateway.Prelude.{
  ◌≡◌, refl, ap, sym, subst, String, false, Option, none, some, List, [], ◌∷◌, ◌++◌, arith, All,
  Option-cases, inl, inr,
}
use aigateway.Policy.{
  Violation, TextLibrary, Filter, Engine, check, first_violation, is_block, refuses,
}

module _ (lib : TextLibrary) where
  -- The filter that decides: those before it find nothing.
  pub record Decides (content : String) (fs : List Filter) (v : Violation) : Type 0 where
    pub before : List Filter
    pub filter : Filter
    pub after : List Filter
    pub split : fs ≡ before ++ filter ∷ after
    pub silent : All (λ f. check lib content f ≡ none) before
    pub finds : check lib content filter ≡ some v

  pub Verdict : String → List Filter → Option Violation → Type 0
  Verdict content fs none = All (λ f. check lib content f ≡ none) fs
  Verdict content fs (some v) = Decides content fs v

  later :
      (content : String) (f : Filter) (fs : List Filter) (found : Option Violation)
      → check lib content f ≡ none
      → Verdict content fs found
      → Verdict content (f ∷ fs) found
  unfolding Verdict
  later content f fs none silent h = (silent, h)
  later content f fs (some v) silent h = record {
    before = f ∷ h.before;
    filter = h.filter;
    after = h.after;
    split = ap (λ l. f ∷ l) h.split;
    silent = (silent, h.silent);
    finds = h.finds;
  }

  -- The engine reports the violation of the first filter that finds one, and nothing exactly if no
  -- filter finds any.
  pub first_violation_exact :
      (content : String) (fs : List Filter) → Verdict content fs (first_violation lib content fs)
  unfolding first_violation Verdict
  first_violation_exact content [] = tt
  first_violation_exact content (f ∷ fs) = elim (Option-cases (check lib content f)) [
    | inl e ↦
        let goes_on : first_violation lib content (f ∷ fs) ≡ first_violation lib content fs =
          ground (arith, e) in
        subst (Verdict content (f ∷ fs)) (sym goes_on)
          (later content f fs (first_violation lib content fs) e (first_violation_exact content fs))
    | inr (v, e) ↦
        let stops : first_violation lib content (f ∷ fs) ≡ some v = ground (arith, e) in
        subst (Verdict content (f ∷ fs)) (sym stops)
          (record { before = []; filter = f; after = fs; split = refl; silent = tt; finds = e })
  ]

  first_found :
      (content : String) (before after : List Filter) (f : Filter) (v : Violation)
      → All (λ g. check lib content g ≡ none) before
      → check lib content f ≡ some v
      → first_violation lib content (before ++ f ∷ after) ≡ some v
  unfolding first_violation
  first_found content [] after f v silent finds = ground (arith, finds)
  first_found content (g ∷ before) after f v silent finds =
      ground (arith, silent.0, first_found content before after f v silent.1 finds)

  -- A filter that only warns or logs hides the filters after it: if those before it find nothing
  -- and it finds something, the request is not refused, whatever the filters after it find.
  pub warning_hides_block :
      (content : String) (before after : List Filter) (f : Filter) (v : Violation) (e : Engine)
      → e.input_filters ≡ before ++ f ∷ after
      → All (λ g. check lib content g ≡ none) before
      → check lib content f ≡ some v
      → is_block v.action ≡ false
      → refuses lib content e ≡ false
  unfolding refuses
  warning_hides_block content before after f v e split silent finds only_warns = ground (
    arith,
    first_found content before after f v silent finds,
    ap (first_violation lib content) split,
    only_warns,
  )

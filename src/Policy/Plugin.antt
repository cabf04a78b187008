-- ===== src/Policy/Plugin.antt =====
-- internal/policy/wasmfilter.go: which contents a filter lets through.
use Prim.Native.String.{◌++◌}
use aigateway.Prelude.{
  str_eq, sym, subst, ℕ, ◌≡◌, ◌↔◌, refl, String, Option, none, some, List, ◌==◌, eq_iff, arith, ◌⊎◌,
  inl, inr, Bool-cases, Option-cases,
}
use aigateway.Policy.{Violation}
use aigateway.Policy.Wasm.{
  Attempt, ok, failed, Module, WasmFilter, uint32, fetch, parsed, read_violation, hand_over, ask,
  call_check, run_filter,
}

Attempt-cases :
    {A : Type 0} (a : Attempt A) → ((x : A) × (a ≡ ok x)) ⊎ ((e : String) × (a ≡ failed e))
Attempt-cases (ok x) = inl (x, refl)
Attempt-cases (failed e) = inr (e, refl)

-- A violation with the filter's name and action.
abbrev pub IsOf : WasmFilter → Violation → Type 0
IsOf f v = (v.policy_name ≡ f.name) × (v.action ≡ f.action)

abbrev pub AllOf : WasmFilter → Option Violation → Type 0
AllOf f none = Unit
AllOf f (some v) = IsOf f v

module _ {S : Type 0} (m : Module S) where
  -- A result that is not 0 is a violation of the filter, or an error.
  read_violation-some :
      (f : WasmFilter) (s : S) (v : Option Violation)
      → (read_violation m f s).0 ≡ ok v
      → (found : Violation) × (v ≡ some found) × IsOf f found
  unfolding read_violation fetch parsed
  read_violation-some f s v e =
      let ptr = m.get_result_ptr s in
      let len = m.get_result_len ptr.1 in
      elim (Attempt-cases ptr.0) [
        | inr (t, broke) ↦ ground (arith, broke)
        | inl (p, e1) ↦ elim (Attempt-cases len.0) [
          | inr (t, broke) ↦ ground (arith, e1, broke)
          | inl (l, e2) ↦ elim (Option-cases (m.read (uint32 p) (uint32 l) len.1)) [
            | inl unread ↦ ground (arith, e1, e2, unread)
            | inr (bytes, e3) ↦ elim (Attempt-cases (m.parse_result bytes)) [
              | inr (t, broke) ↦ ground (arith, e1, e2, e3, broke)
              | inl (message, e4) ↦ (
                record { policy_name = f.name; action = f.action; message = message },
                ground (arith, e1, e2, e3, e4),
                (refl, refl),
              )
            ]
          ]
        ]
      ]

  -- The module took the content and the metadata, and its check answered 0.
  pub IsAccepted : List ℕ → List ℕ → S → Type 0
  IsAccepted content meta s =
      (ptrs : ℕ × ℕ) × (result : ℕ) × ((hand_over m content meta s).0 ≡ ok ptrs)
      × ((ask m content meta ptrs (hand_over m content meta s).1).0 ≡ ok result)
      × (uint32 result ≡ 0)

  accepts :
      (f : WasmFilter) (content meta : List ℕ) (s : S)
      → (call_check m f content meta s).0 ≡ ok none
      → IsAccepted content meta s
  unfolding call_check IsAccepted
  accepts f content meta s e =
      let taken = hand_over m content meta s in
      elim (Attempt-cases taken.0) [
        | inr (t, broke) ↦ ground (arith, broke)
        | inl (ptrs, e1) ↦
            let answer = ask m content meta ptrs taken.1 in
            elim (Attempt-cases answer.0) [
              | inr (t, broke) ↦ ground (arith, e1, broke)
              | inl (result, e2) ↦ elim (Bool-cases (uint32 result == 0)) [
                | inl accepted ↦ (ptrs, result, e1, e2, ground (arith, accepted))
                | inr other ↦
                    let (found, is_some, _) =
                      read_violation-some f answer.1 none (ground (arith, e1, e2, other, e)) in
                    ground (arith, is_some)
              ]
            ]
      ]

  passes :
      (f : WasmFilter) (content meta : List ℕ) (s : S)
      → IsAccepted content meta s
      → (call_check m f content meta s).0 ≡ ok none
  unfolding call_check IsAccepted
  passes f content meta s (ptrs, result, e1, e2, e3) = ground (arith, e1, e2, e3)

  call_check-AllOf :
      (f : WasmFilter) (content meta : List ℕ) (s : S) (v : Option Violation)
      → (call_check m f content meta s).0 ≡ ok v
      → AllOf f v
  unfolding call_check
  call_check-AllOf f content meta s none e = tt
  call_check-AllOf f content meta s (some v) e =
      let taken = hand_over m content meta s in
      elim (Attempt-cases taken.0) [
        | inr (t, broke) ↦ ground (arith, broke)
        | inl (ptrs, e1) ↦
            let answer = ask m content meta ptrs taken.1 in
            elim (Attempt-cases answer.0) [
              | inr (t, broke) ↦ ground (arith, e1, broke)
              | inl (result, e2) ↦ elim (Bool-cases (uint32 result == 0)) [
                | inl accepted ↦ ground (arith, e1, e2, accepted)
                | inr other ↦
                    let (found, is_some, is_of) =
                      read_violation-some f answer.1 (some v) (ground (arith, e1, e2, other, e)) in
                    subst (AllOf f) (sym is_some) is_of
              ]
            ]
      ]

  run_filter-AllOf :
      (f : WasmFilter) (content meta : List ℕ) (s : S) → AllOf f (run_filter m f content meta s).0
  unfolding run_filter
  run_filter-AllOf f content meta s = elim (Attempt-cases (call_check m f content meta s).0) [
    | inl (v, found) ↦
        subst (AllOf f) (ground (arith, found)) (call_check-AllOf f content meta s v found)
    | inr (t, broke) ↦ elim (Bool-cases (str_eq f.on_error "block")) [
      | inl blocks ↦
          let v : Violation = record {
            policy_name = f.name;
            action = f.action;
            message = "wasm plugin error: " ++ (f.name ++ (": " ++ t));
          } in
          let refused : (run_filter m f content meta s).0 ≡ some v =
            ground (arith, broke, blocks) in
          subst (AllOf f) (sym refused) (refl, refl)
      | inr lets ↦
          let through : (run_filter m f content meta s).0 ≡ none = ground (arith, broke, lets) in
          subst (AllOf f) (sym through) tt
    ]
  ]

  -- A filter whose setting for errors is "block" finds no violation exactly if its module took the
  -- content and the metadata, and then answered 0 for them; so a call that comes back with an error, as
  -- from a trap, and a result that cannot be read are violations. Each violation has the filter's name
  -- and the filter's action, also one for an error, so that it refuses the request only if that action is
  -- to block.
  pub run_filter_passes :
      (f : WasmFilter) (content meta : List ℕ) (s : S)
      → f.on_error ≡ "block"
      → (((run_filter m f content meta s).0 ≡ none) ↔ IsAccepted content meta s)
        × AllOf f (run_filter m f content meta s).0
  unfolding run_filter
  run_filter_passes f content meta s blocks = (
    (
      λ e. accepts f content meta s (elim (Attempt-cases (call_check m f content meta s).0) [
        | inl (v, found) ↦ ground (arith, found)
        | inr (t, broke) ↦ ground (arith, broke, eq_iff f.on_error "block")
      ]),
      λ a. ground (arith, passes f content meta s a),
    ),
    run_filter-AllOf f content meta s,
  )

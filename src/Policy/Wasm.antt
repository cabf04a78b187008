-- ===== src/Policy/Wasm.antt =====
-- internal/policy/wasmfilter.go: a filter that asks a WASM module. The module, its memory and the runtime
-- (wazero) are a parameter: a state, and what each exported function and each access of the memory does
-- to it. A call may fail, as where the module traps. The timeout of `Check` is left out: the runtime is
-- made by wazero.NewRuntime, without the setting (WithCloseOnContextDone) by which the end of a context
-- would end a call, so the timeout stops nothing; a call that does not end is not modelled. Texts are
-- their bytes.
use Prim.Native.String.{◌++◌}
use aigateway.Prelude.{
  ℕ, ◌%◌, ◌^◌, String, Bool, Option, none, some, List, length, ◌==◌, str_eq, if◌then◌else◌,
}
use aigateway.Policy.{Action, Violation}

pub data Attempt (A : Type 0) : Type 0 where
  ok : A → Attempt A
  failed : String → Attempt A

-- A run on the module: what comes of it, and the module after it.
abbrev pub Run : Type 0 → Type 0 → Type 0
Run S A = S → Attempt A × S

infixl 5 ◌>>=◌ ◌>>◌
abbrev pub ◌>>=◌ : {S A B : Type 0} → Run S A → (A → Run S B) → Run S B
m >>= f = λ s. let (a, s') = m s in elim a [ ok x ↦ f x s' | failed e ↦ (failed e, s') ]

abbrev pub ◌>>◌ : {S B : Type 0} → Run S (Unit {0}) → Run S B → Run S B
m >> k = m >>= λ _. k

abbrev pub pure : {S A : Type 0} → A → Run S A
pure a = λ s. (ok a, s)

-- The exported functions, by their 64-bit results, and the memory.
pub record Module (S : Type 0) : Type 0 where
  pub alloc : ℕ → Run S ℕ
  pub check : ℕ → ℕ → ℕ → ℕ → Run S ℕ
  pub get_result_ptr : Run S ℕ
  pub get_result_len : Run S ℕ
  pub write : ℕ → List ℕ → S → Bool × S
  pub read : ℕ → ℕ → S → Option (List ℕ)
  -- json.Unmarshal of a result: its message.
  pub parse_result : List ℕ → Attempt String

pub record WasmFilter : Type 0 where
  pub name : String
  pub action : Action
  pub on_error : String

abbrev pub uint32 : ℕ → ℕ
uint32 n = n % 2 ^ 32

module _ {S : Type 0} (m : Module S) where
  -- An error of a call, with what was being done.
  abbrev pub wrapped : {A : Type 0} → String → Run S A → Run S A
  wrapped what run = λ s.
      let (a, s') = run s in
      elim a [ ok x ↦ (ok x, s') | failed e ↦ (failed (what ++ (": " ++ e)), s') ]

  -- Writing to and reading from the memory.
  unfoldable pub put : String → ℕ → List ℕ → Run S (Unit {0})
  put message ptr bytes s =
      let (done, s') = m.write ptr bytes s in if done then (ok tt, s') else (failed message, s')

  unfoldable pub fetch : ℕ → ℕ → Run S (List ℕ)
  fetch ptr len s = elim (m.read ptr len s) [
    | some bytes ↦ (ok bytes, s)
    | none ↦ (failed "reading result from wasm memory", s)
  ]

  unfoldable pub parsed : List ℕ → Run S String
  parsed bytes = wrapped "parsing wasm result JSON" (λ s. (m.parse_result bytes, s))

  -- What the module answers to a result that is not 0.
  unfoldable pub read_violation : WasmFilter → Run S (Option Violation)
  unfolding fetch parsed
  read_violation f = do
    ptr ← wrapped "calling get_result_ptr" m.get_result_ptr
    len ← wrapped "calling get_result_len" m.get_result_len
    bytes ← fetch (uint32 ptr) (uint32 len)
    message ← parsed bytes
    pure (some (record { policy_name = f.name; action = f.action; message = message }))

  -- The content and the metadata are handed over: where they stand in the memory.
  unfoldable pub hand_over : List ℕ → List ℕ → Run S (ℕ × ℕ)
  unfolding put
  hand_over content meta = do
    content_ptr ← wrapped "alloc for content" (m.alloc (length content))
    put "writing content to wasm memory" (uint32 content_ptr) content
    meta_ptr ← wrapped "alloc for metadata" (m.alloc (length meta))
    put "writing metadata to wasm memory" (uint32 meta_ptr) meta
    pure (uint32 content_ptr, uint32 meta_ptr)

  unfoldable pub ask : List ℕ → List ℕ → ℕ × ℕ → Run S ℕ
  ask content meta (content_ptr, meta_ptr) =
      wrapped "calling check" (m.check content_ptr (length content) meta_ptr (length meta))

  -- From the bytes of the content and of the metadata.
  unfoldable pub call_check : WasmFilter → List ℕ → List ℕ → Run S (Option Violation)
  unfolding hand_over ask read_violation
  call_check f content meta = do
    ptrs ← hand_over content meta
    result ← ask content meta ptrs
    if uint32 result == 0 then pure none else read_violation f

  -- WasmFilter.Check: an error blocks or lets the content through.
  unfoldable pub run_filter : WasmFilter → List ℕ → List ℕ → S → Option Violation × S
  unfolding call_check
  run_filter f content meta s =
      let (outcome, s') = call_check f content meta s in
      elim outcome [
        | ok v ↦ (v, s')
        | failed e ↦
            if str_eq f.on_error "block"
            then (
              some (record {
                policy_name = f.name;
                action = f.action;
                message = "wasm plugin error: " ++ (f.name ++ (": " ++ e));
              }),
              s',
            )
            else (none, s')
      ]

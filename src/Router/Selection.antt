-- ===== src/Router/Selection.antt =====
-- internal/router/strategy.go. A strategy is its name with the counter of the round robin, which
-- wraps at 2^64. `Select` returns the strategy with its new counter. The providers are of any type.
pub mod Fairness
use mathlib.Core.List.{perm_append_comm}
use mathlib.Core.List.Perm
use native.Mathlib.Nat.{mod-eq_of_lt, mod-lt}
use native.Mathlib.Nat.{add-zero}
use native.Mathlib.Decide.{dec_lt}
use mathlib.Core.Path.{◌∙◌}
use mathlib.Core.List.{append-nil, append_assoc}
use aigateway.Prelude.{
  ℕ, zero, suc, ◌+◌, ◌%◌, ◌^◌, ◌≤◌, ◌<◌, ◌≡◌, refl, sym, subst, ap, String, List, [], ◌∷◌, ◌++◌,
  Perm, arith, length, get_or, take, drop, take-append-drop, drop_step, take_step, drop_all,
  if◌then◌else◌, str_eq,
}

pub data Strategy : Type 0 where
  priority : Strategy
  round_robin : ℕ → Strategy

pub new_strategy : String → Strategy
new_strategy name = if str_eq name "round-robin" then round_robin 0 else priority

-- atomic.AddUint64(&s.counter, 1)
pub bump : ℕ → ℕ
bump counter = (counter + 1) % 2 ^ 64

index_front : (n idx i j : ℕ) → idx + i ≡ n + j → j < n → (idx + i) % n ≡ j
index_front n idx i j e h = grind arith

module _ {ℓ} {A : Type ℓ} where
  -- The loop of `Select`: the elements at (idx + i) % n, for i from `i` on, `left` of them.
  rotate : List A → A → ℕ → ℕ → ℕ → List A
  rotate xs d idx i zero = []
  rotate xs d idx i (suc left) = get_or xs ((idx + i) % length xs) d ∷ rotate xs d idx (i + 1) left

  unfoldable pub select : Strategy → List A → List A × Strategy
  unfolding rotate bump
  select priority xs = (xs, priority)
  select (round_robin counter) [] = ([], round_robin counter)
  select (round_robin counter) (x ∷ xs) =
      let n = length (x ∷ xs) in
      (rotate (x ∷ xs) x (bump counter % n) 0 n, round_robin (bump counter))

  -- Past the end the loop goes on from the front.
  rotate_front :
      (xs : List A) (d : A) (idx i left j : ℕ)
      → idx + i ≡ length xs + j
      → j + left ≤ length xs
      → take j xs ++ rotate xs d idx i left ≡ take (j + left) xs
  unfolding rotate
  rotate_front xs d idx i zero j e h = append-nil _ ∙ ap (λ k. take k xs) (sym (add-zero j))
  rotate_front xs d idx i (suc left) j e h =
      let x = get_or xs j d in
      let count : suc j + left ≡ j + suc left = omega arith in
      rw (index_front (length xs) idx i j e (omega arith)) (
        sym (append_assoc (take j xs) (x ∷ []) (rotate xs d idx (i + 1) left))
        ∙ (ap (λ l. l ++ rotate xs d idx (i + 1) left) (sym (take_step xs d j (omega arith)))
            ∙ (rotate_front xs d idx (i + 1) left (suc j) (omega arith) (omega arith)
                ∙ ap (λ k. take k xs) count)))

  -- The loop gives the elements from `idx` on, and then those before it.
  rotate_from :
      (xs : List A) (d : A) (idx i left : ℕ)
      → i + left ≡ length xs
      → idx + i ≤ length xs
      → rotate xs d idx i left ≡ drop (idx + i) xs ++ take idx xs
  unfolding rotate
  rotate_from xs d idx i zero e h =
      let start : idx ≡ 0 = omega arith in rw (start, drop_all xs (0 + i) (omega arith))
  rotate_from xs d idx i (suc left) e h = elim (dec_lt (idx + i) (length xs)) [
    | yes inside ↦
        let next : idx + (i + 1) ≡ suc (idx + i) = omega arith in
        rw (mod-eq_of_lt inside, drop_step xs d (idx + i) inside)
          (ap (λ l. get_or xs (idx + i) d ∷ l)
            (rotate_from xs d idx (i + 1) left (omega arith) (omega arith)
              ∙ ap (λ k. drop k xs ++ take idx xs) next))
    | no past ↦
        let whole : 0 + suc left ≡ idx = omega arith in
        rotate_front xs d idx i (suc left) 0 (omega arith) (omega arith)
        ∙ (ap (λ k. take k xs) whole
            ∙ ap (λ l. l ++ take idx xs) (sym (drop_all xs (idx + i) (omega arith))))
  ]

  -- The round robin puts the elements from the index on first, and then those before it.
  select-rotates :
      (counter : ℕ) (xs : List A)
      → 0 < length xs
      → let k = bump counter % length xs in
        (select (round_robin counter) xs).0 ≡ drop k xs ++ take k xs
  unfolding select
  select-rotates counter [] h = elim h [ ]
  select-rotates counter (x ∷ xs) h =
      let n = length (x ∷ xs) in
      let k = bump counter % n in
      let whole : k + 0 ≡ k = omega arith in
      rotate_from (x ∷ xs) x k 0 n (omega arith) (omega (arith, mod-lt (bump counter) h))
      ∙ ap (λ j. drop j (x ∷ xs) ++ take k (x ∷ xs)) whole

  -- Whatever the strategy and its counter, `Select` only puts the providers in another order.
  pub select-perm : (s : Strategy) (xs : List A) → Perm (select s xs).0 xs
  unfolding select
  select-perm priority xs = Perm.refl xs
  select-perm (round_robin counter) [] = Perm.refl []
  select-perm (round_robin counter) (x ∷ xs) =
      let k = bump counter % length (x ∷ xs) in
      subst (λ l. Perm l (x ∷ xs)) (sym (select-rotates counter (x ∷ xs) (omega arith)))
        (subst (Perm (drop k (x ∷ xs) ++ take k (x ∷ xs))) (take-append-drop k (x ∷ xs))
          (perm_append_comm (drop k (x ∷ xs)) (take k (x ∷ xs))))

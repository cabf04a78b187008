-- ===== src/Router/Selection/Fairness.antt =====
-- internal/router/strategy.go: the round robin over many calls of `Select`.
use native.Mathlib.Nat.{mod-add-mod, mod-eq_of_lt, mod-lt, mod-mod, add-zero, add-mod_right}
use mathlib.Core.Path.{◌∙◌}
use aigateway.Prelude.{
  ℕ, zero, suc, ◌+◌, ◌-◌, ◌%◌, ◌^◌, ◌<◌, ◌≡◌, refl, sym, ap, List, [], ◌∷◌, some, arith, length,
  get_or, get_elem?, leb, if◌then◌else◌, Bool-cases, inl, inr,
}
use aigateway.Router.Selection.{Strategy, round_robin, bump, select, rotate}

bump-eq : (c : ℕ) → c + 1 < 2 ^ 64 → bump c ≡ c + 1
unfolding bump
bump-eq c h = mod-eq_of_lt h

-- How many calls it takes from counter `c` until element `i` of `n` comes first.
wait : ℕ → ℕ → ℕ → ℕ
wait c n i = let r = (c + 1) % n in if leb r i then i - r else i + n - r

wait-lt : (c n i : ℕ) → i < n → wait c n i < n
unfolding wait
wait-lt c n i h = ground (arith, mod-lt (c + 1) {m = n})

wait-mod : (c n i : ℕ) → i < n → (c + wait c n i + 1) % n ≡ i
unfolding wait
wait-mod c n i h =
    let r = (c + 1) % n in
    let m = wait c n i in
    let regroup : c + m + 1 ≡ c + 1 + m = omega arith in
    ap (λ k. k % n) regroup
    ∙ (sym (mod-add-mod (c + 1) n m) ∙ elim (Bool-cases (leb r i)) [
      | inl le ↦ let sum : r + m ≡ i = ground arith in ap (λ k. k % n) sum ∙ mod-eq_of_lt h
      | inr gt ↦
          let sum : r + m ≡ i + n = ground (arith, mod-lt (c + 1) {m = n}) in
          ap (λ k. k % n) sum ∙ (add-mod_right i n ∙ mod-eq_of_lt h)
    ])

module _ {ℓ} {A : Type ℓ} where
  -- The strategy after `m` calls of `Select` on a list.
  pub selects : ℕ → Strategy → List A → Strategy
  selects zero s xs = s
  selects (suc m) s xs = selects m (select s xs).1 xs

  selects-round_robin :
      (m c : ℕ) (xs : List A)
      → 0 < length xs
      → c + m < 2 ^ 64
      → selects m (round_robin c) xs ≡ round_robin (c + m)
  unfolding selects select
  selects-round_robin zero c xs pos h = ap round_robin (omega arith)
  selects-round_robin (suc m) c [] pos h = elim pos [ ]
  selects-round_robin (suc m) c (x ∷ xs) pos h =
      rw (bump-eq c (omega arith))
        (selects-round_robin m (c + 1) (x ∷ xs) pos (omega arith) ∙ ap round_robin (omega arith))

  get_elem?-get_or :
      (xs : List A) (i : ℕ) (d : A) → i < length xs → some (get_or xs i d) ≡ get_elem? xs i
  get_elem?-get_or [] i d h = elim h [ ]
  get_elem?-get_or (x ∷ xs) zero d h = refl
  get_elem?-get_or (x ∷ xs) (suc i) d h = get_elem?-get_or xs i d (omega arith)

  -- The list begins with the element at the counter's next value, taken modulo the length.
  select_first :
      (c : ℕ) (xs : List A)
      → 0 < length xs
      → c + 1 < 2 ^ 64
      → get_elem? (select (round_robin c) xs).0 0 ≡ get_elem? xs ((c + 1) % length xs)
  unfolding select rotate
  select_first c [] pos h = elim pos [ ]
  select_first c (x ∷ xs) pos h =
      let n = length (x ∷ xs) in
      let same : (bump c % n + 0) % n ≡ (c + 1) % n =
        ap (λ k. k % n) (add-zero (bump c % n))
        ∙ (mod-mod (bump c) n ∙ ap (λ k. k % n) (bump-eq c h)) in
      ap (λ k. some (get_or (x ∷ xs) k x)) same
      ∙ get_elem?-get_or (x ∷ xs) ((c + 1) % n) x (mod-lt (c + 1) pos)

  -- Where the counter does not wrap, each element comes first in one of any `length xs` calls in
  -- a row.
  pub round_robin_fair :
      (c : ℕ) (xs : List A) (i : ℕ)
      → i < length xs
      → c + length xs < 2 ^ 64
      → (m : ℕ) × (m < length xs)
        × (get_elem? (select (selects m (round_robin c) xs) xs).0 0 ≡ get_elem? xs i)
  round_robin_fair c xs i h room =
      let m = wait c (length xs) i in
      let soon = wait-lt c (length xs) i h in
      (
        m,
        soon,
        ap (λ s. get_elem? (select s xs).0 0)
              (selects-round_robin m c xs (omega arith) (omega arith))
            ∙ (select_first (c + m) xs (omega arith) (omega arith)
                ∙ ap (get_elem? xs) (wait-mod c (length xs) i h)),
      )

-- ===== src/Prelude/Rings.antt =====
-- The slots of a ring buffer that is written at `pos`: the k-th latest entry of a buffer of size n
-- stands in slot (pos + n - 1 - k) % n.
use mathlib.Core.Path.{◌≡◌, ap, ◌∙◌}
use mathlib.Core.Logic.{◌≢◌, ◌⊎◌, inl, inr}
use native.Mathlib.Nat.{mod-eq_of_lt, add-mod_right}
use native.Mathlib.Decide.{dec_lt}
use native.Mathlib.Omega.{arith}
use Prim.Native.Nat.{ℕ, suc, ◌+◌, ◌-◌, ◌*◌, ◌%◌, ◌<◌}

-- A position modulo the size, short of twice the size.
mod_once : (a n : ℕ) → a < 2 * n → (a % n ≡ a) × (a < n) ⊎ (a % n + n ≡ a)
mod_once a n h = elim (dec_lt a n) [
  | yes small ↦ inl (mod-eq_of_lt small, small)
  | no big ↦
      let whole : a ≡ a - n + n = omega arith in
      let rest : a - n < n = omega arith in
      let back : a % n ≡ a - n =
        ap (λ k. k % n) whole ∙ (add-mod_right (a - n) n ∙ mod-eq_of_lt rest) in
      inr (omega arith)
]

-- The next position.
next_cases :
    (pos n : ℕ) → pos < n → ((pos + 1) % n ≡ pos + 1) ⊎ ((pos + 1 ≡ n) × ((pos + 1) % n ≡ 0))
next_cases pos n h = grind arith

-- The slot that `add` writes shows the new entry; the others show what they showed.
pub slot_first : (pos n : ℕ) → pos < n → ((pos + 1) % n + n - 1 - 0) % n ≡ pos
slot_first pos n h = ground (arith, next_cases pos n h, mod_once ((pos + 1) % n + n - 1 - 0) n)

pub slot_next :
    (pos n k : ℕ)
    → pos < n
    → suc k < n
    → ((pos + 1) % n + n - 1 - suc k) % n ≡ (pos + n - 1 - k) % n
slot_next pos n k h hk = ground (
  arith,
  next_cases pos n h,
  mod_once ((pos + 1) % n + n - 1 - suc k) n,
  mod_once (pos + n - 1 - k) n,
)

pub slot_away : (pos n k : ℕ) → pos < n → suc k < n → pos ≢ (pos + n - 1 - k) % n
slot_away pos n k h hk e = ground (arith, mod_once (pos + n - 1 - k) n)

-- The slot of the latest entry is that of no other.
pub slot_apart : (pos n k : ℕ) → pos < n → suc k < n → (pos + n - 1) % n ≢ (pos + n - 1 - suc k) % n
slot_apart pos n k h hk e =
    ground (arith, mod_once (pos + n - 1) n, mod_once (pos + n - 1 - suc k) n)

-- ===== src/Integer.antt =====
-- Integers over the native natural numbers.
use worker_template.Prelude.{ℕ, zero, suc, ◌≡◌, refl}

pub data ℤ : Type 0 where
  pos negsuc : ℕ → ℤ

-- `n + 1` and `n - 1`
unfoldable pub sucℤ : ℤ → ℤ
sucℤ (pos n) = pos (suc n)
sucℤ (negsuc zero) = pos zero
sucℤ (negsuc (suc n)) = negsuc n

unfoldable pub predℤ : ℤ → ℤ
predℤ (pos zero) = negsuc zero
predℤ (pos (suc n)) = pos n
predℤ (negsuc n) = negsuc (suc n)

pub predℤ-sucℤ : (i : ℤ) → predℤ (sucℤ i) ≡ i
unfolding predℤ sucℤ
predℤ-sucℤ (pos n) = refl
predℤ-sucℤ (negsuc zero) = refl
predℤ-sucℤ (negsuc (suc n)) = refl

-- ===== src/Numbers.antt =====
-- The integers of the program. `int` is ℤ (no computation of the sources comes near its ends, and a
-- signed overflow would be undefined); `unsigned int`, `unsigned long` and `DWORD` are natural
-- numbers below 2 ^ 32 with the wrap written out.
use v6chat.Base.{ℕ, zero, suc, ◌+◌, ◌-◌, ◌%◌, ◌^◌, ◌<◌, ◌≡◌, ◌↔◌, Bool, true, false, arith, ◌==◌}

-- `negsuc n` is -(n + 1).
pub data ℤ : Type 0 where
  pos : ℕ → ℤ
  negsuc : ℕ → ℤ

abbrev pub minus_one : ℤ
minus_one = negsuc 0

unfoldable pub int_eq : ℤ → ℤ → Bool
int_eq (pos a) (pos b) = a == b
int_eq (pos a) (negsuc b) = false
int_eq (negsuc a) (pos b) = false
int_eq (negsuc a) (negsuc b) = a == b

pub int_eq_iff : (a b : ℤ) → (int_eq a b ≡ true) ↔ (a ≡ b)
unfolding int_eq
int_eq_iff (pos a) (pos b) = ground arith
int_eq_iff (pos a) (negsuc b) = ground arith
int_eq_iff (negsuc a) (pos b) = ground arith
int_eq_iff (negsuc a) (negsuc b) = ground arith

-- `--x`
unfoldable pub decrement : ℤ → ℤ
decrement (pos zero) = negsuc 0
decrement (pos (suc n)) = pos n
decrement (negsuc n) = negsuc (suc n)

abbrev pub u32_mod : ℕ
u32_mod = 2 ^ 32

-- The conversion of an `int` to an `unsigned int`.
unfoldable pub to_unsigned : ℤ → ℕ
to_unsigned (pos n) = n % u32_mod
to_unsigned (negsuc n) = u32_mod - 1 - n % u32_mod

pub to_unsigned-pos : (n : ℕ) → n < u32_mod → to_unsigned (pos n) ≡ n
unfolding to_unsigned
to_unsigned-pos n h = omega arith

-- `x - y` on `unsigned long`.
abbrev pub sub_u32 : ℕ → ℕ → ℕ
sub_u32 a b = (a + u32_mod - b) % u32_mod

-- `x++` on `unsigned long`.
abbrev pub next_u32 : ℕ → ℕ
next_u32 a = (a + 1) % u32_mod

-- ===== src/Socket/Framing.antt =====
-- What arrives of what was sent with a length in front.
use Prim.Native.Nat.add
use native.Mathlib.Nat.{zero-add}
use v6chat.Base.{
  ℕ, zero, suc, ◌+◌, ◌-◌, ◌^◌, ◌≤◌, ◌<◌, ◌≡◌, refl, sym, ap, ◌∙◌, true, false, Option, some, List,
  [], ◌∷◌, arith, ◌==◌, length, take, drop, ◌++◌, min, length-take, length-drop, length-append,
  append_assoc, append-nil, take-append-drop,
}
use v6chat.Socket.Stream.{
  Reply, failed, moved, int_bytes, int_of, send_loop, send_binary_data, receive_loop,
  receive_binary_data, is_refused,
}
use v6chat.Text.{Text}

-- Every call moves at least one byte.
abbrev pub IsSteady : List Reply → Type 0
IsSteady [] = Unit {0}
IsSteady (failed ∷ script) = ⊥
IsSteady (moved k ∷ script) = (1 ≤ k) × IsSteady script

pub int_of-int_bytes : (n : ℕ) → n < 2 ^ 32 → int_of (int_bytes n) ≡ n
int_of-int_bytes n h = omega arith

pub take-all : (n : ℕ) (xs : Text) → length xs ≤ n → take n xs ≡ xs
take-all zero [] h = refl
take-all (suc n) [] h = refl
take-all zero (x ∷ xs) h = absurd (omega arith)
take-all (suc n) (x ∷ xs) h = ap (λ t. x ∷ t) (take-all n xs (omega arith))

pub take-exact : (xs ys : Text) → take (length xs) (xs ++ ys) ≡ xs
take-exact [] ys = refl
take-exact (x ∷ xs) ys = ap (λ t. x ∷ t) (take-exact xs ys)

pub drop-exact : (xs ys : Text) → drop (length xs) (xs ++ ys) ≡ ys
drop-exact [] ys = refl
drop-exact (x ∷ xs) ys = drop-exact xs ys

pub take-nil : (n : ℕ) → take {A = ℕ} n [] ≡ []
take-nil zero = refl
take-nil (suc n) = refl

pub drop-nil : (n : ℕ) → drop {A = ℕ} n [] ≡ []
drop-nil zero = refl
drop-nil (suc n) = refl

take-drop : (m n : ℕ) (xs : Text) → take m xs ++ take n (drop m xs) ≡ take (m + n) xs
take-drop zero n xs = rw zero-add
take-drop (suc m) n [] = rw add.suc (take-nil n)
take-drop (suc m) n (x ∷ xs) = rw add.suc (ap (λ t. x ∷ t) (take-drop m n xs))

drop-drop : (m n : ℕ) (xs : Text) → drop n (drop m xs) ≡ drop (m + n) xs
drop-drop zero n xs = rw zero-add
drop-drop (suc m) n [] = rw add.suc (drop-nil n)
drop-drop (suc m) n (x ∷ xs) = rw add.suc (drop-drop m n xs)

-- A part that one call takes, and the rest.
pub chunk :
    (k n : ℕ) (wire : Text)
    → k ≤ n
    → n ≤ length wire
    → (length (take k wire) ≡ k)
      × (take k wire ++ take (n - length (take k wire)) (drop k wire) ≡ take n wire)
      × (drop (n - length (take k wire)) (drop k wire) ≡ drop n wire)
chunk k n wire h l =
    let e : length (take k wire) ≡ k = omega (arith, length-take k wire) in
    let whole : k + (n - k) ≡ n = omega arith in
    (
      e,
      rw e (take-drop k (n - k) wire ∙ ap (λ m. take m wire) whole),
      rw e (drop-drop k (n - k) wire ∙ ap (λ m. drop m wire) whole),
    )

pub pair_path :
    {A B : Type 0} {a a' : A} {b b' : B}
    → a ≡ a'
    → b ≡ b'
    → ◌≡◌ {A = Option (A × B)} (some (a, b)) (some (a', b'))
pair_path p q = cc

pub send_loop_steady :
    (script : List Reply) (rest : Text) (sent : ℕ) (wire : Text)
    → IsSteady script
    → length rest ≤ length script
    → send_loop script rest sent wire ≡ some (sent + length rest, wire ++ rest)
unfolding send_loop
send_loop_steady [] [] sent wire st h = pair_path (omega arith) (sym (append-nil wire))
send_loop_steady (r ∷ script) [] sent wire st h = pair_path (omega arith) (sym (append-nil wire))
send_loop_steady [] (c ∷ cs) sent wire st h = absurd (omega arith)
send_loop_steady (failed ∷ script) (c ∷ cs) sent wire st h = absurd st
send_loop_steady (moved k ∷ script) (c ∷ cs) sent wire st h =
    send_loop_steady script (drop k (c ∷ cs)) (sent + min k (length (c ∷ cs)))
      (wire ++ take k (c ∷ cs)) st.1 (omega (arith, st.0, length-drop k (c ∷ cs)))
    ∙ pair_path (omega (arith, length-drop k (c ∷ cs))) (
        append_assoc wire (take k (c ∷ cs)) (drop k (c ∷ cs))
        ∙ ap (λ t. wire ++ t) (take-append-drop k (c ∷ cs)))

pub receive_loop_steady :
    (script : List Reply) (n : ℕ) (got wire : Text)
    → IsSteady script
    → n ≤ length script
    → n ≤ length wire
    → receive_loop script n got wire ≡ some (got ++ take n wire, drop n wire)
unfolding receive_loop
receive_loop_steady [] zero got wire st h l = pair_path (sym (append-nil got)) refl
receive_loop_steady (r ∷ script) zero got wire st h l = pair_path (sym (append-nil got)) refl
receive_loop_steady [] (suc n) got wire st h l = absurd (omega arith)
receive_loop_steady (failed ∷ script) (suc n) got wire st h l = absurd st
receive_loop_steady (moved k ∷ script) (suc n) got wire st h l =
    let k' = min k (suc n) in
    let (e, taken, left) = chunk k' (suc n) wire (omega arith) l in
    let some_bytes : (length (take k' wire) == 0) ≡ false = ground (arith, e, st.0) in
    let rest = suc n - length (take k' wire) in
    rw some_bytes (
      receive_loop_steady script rest (got ++ take k' wire) (drop k' wire) st.1
        (omega (arith, e, st.0)) (omega (arith, e, length-drop k' wire))
      ∙ pair_path
          (append_assoc got (take k' wire) (take rest (drop k' wire)) ∙ ap (λ t. got ++ t) taken)
          left)

received :
    (head bin later : Text) (rs : List Reply) (j binlen : ℕ)
    → length head ≡ 4
    → int_of head ≡ length bin
    → is_refused (length bin) binlen ≡ false
    → IsSteady rs
    → length bin ≤ length rs
    → 4 ≤ j
    → receive_binary_data true (moved j ∷ rs) binlen (head ++ (bin ++ later)) ≡ some (bin, later)
unfolding receive_binary_data
received head bin later rs j binlen four size fine r b hj =
    let m : min j 4 ≡ length head = omega arith in
    rw (m, take-exact head (bin ++ later), drop-exact head (bin ++ later), size, fine)
      (receive_loop_steady rs (length bin) [] (bin ++ later) r b
          (omega (arith, length-append bin later))
        ∙ pair_path (take-exact bin later) (drop-exact bin later))

pub send_binary_data-steady :
    (bin : Text) (ss : List Reply) (k : ℕ)
    → 0 < length bin
    → IsSteady ss
    → length bin ≤ length ss
    → 4 ≤ k
    → send_binary_data true (moved k ∷ ss) bin ≡ some (length bin, int_bytes (length bin) ++ bin)
unfolding send_binary_data
send_binary_data-steady bin ss k p s a hk =
    let some_bytes : (length bin == 0) ≡ false = ground arith in
    rw (some_bytes, take-all k (int_bytes (length bin)) hk)
      (send_loop_steady ss bin 0 (int_bytes (length bin)) s a ∙ pair_path (omega arith) refl)

-- Let every call on either side move at least one byte, the first one at least the four of the length,
-- and let each side make enough calls. Then data that is not empty, is shorter than 2 ^ 31 bytes and fits
-- the receiver's buffer is sent whole and received whole, and what stands on the wire behind it stays.
pub receive_binary_data-send_binary_data :
    (bin later : Text) (ss rs : List Reply) (k j binlen : ℕ)
    → 0 < length bin
    → length bin < 2 ^ 31
    → length bin ≤ binlen
    → IsSteady ss
    → IsSteady rs
    → length bin ≤ length ss
    → length bin ≤ length rs
    → 4 ≤ k
    → 4 ≤ j
    → (wire : Text) × (send_binary_data true (moved k ∷ ss) bin ≡ some (length bin, wire))
      × (receive_binary_data true (moved j ∷ rs) binlen (wire ++ later) ≡ some (bin, later))
unfolding is_refused
receive_binary_data-send_binary_data bin later ss rs k j binlen p q fits s r a b hk hj = (
  int_bytes (length bin) ++ bin,
  send_binary_data-steady bin ss k p s a hk,
  received (int_bytes (length bin)) bin later rs j binlen refl
      (int_of-int_bytes (length bin) (omega arith)) (ground arith) r b hj,
)

-- ===== src/Daemon/Server/Token.antt =====
-- The comparison of the bearer token in crates/daemon/src/server.rs is equality.
use Prim.Native.Nat.{bit_or, bit_xor, bit_or-bitwise, bit_xor-bitwise, digits, differ}
use recurse.Base.{
  ℕ, zero, suc, ◌/◌, ◌%◌, ◌≤◌, max, ◌≡◌, ◌↔◌, refl, sym, ap, ◌∙◌, inl, inr, true, Option, none,
  some, List, [], ◌∷◌, ◌++◌, arith, length, Text, codes, Option-cases,
}
use recurse.Base.Lines.{strip_prefix}
use recurse.Daemon.Server.{difference, constant_time_eq, given_token, behind_bearer, authorized}

differ_zero : (x y : ℕ) → differ x y ≡ 0 → x ≡ y
differ_zero zero y h = sym h
differ_zero (suc x) zero h = h
differ_zero (suc x) (suc y) h = ap suc (differ_zero x y h)

differ_self : (x : ℕ) → differ x x ≡ 0
differ_self zero = refl
differ_self (suc x) = differ_self x

xor_zero_from : (n a b : ℕ) → a ≤ n → digits (λ y. y) differ n a b ≡ 0 → a ≡ b
xor_zero_from zero a b h e = omega arith
xor_zero_from (suc n) zero b h e = sym e
xor_zero_from (suc n) (suc a) b h e =
    let low = differ_zero (suc a % 2) (b % 2) (omega arith) in
    let high = xor_zero_from n (suc a / 2) (b / 2) (omega arith) (omega arith) in omega arith

xor_self_from : (n a : ℕ) → a ≤ n → digits (λ y. y) differ n a a ≡ 0
xor_self_from zero a h = omega arith
xor_self_from (suc n) zero h = refl
xor_self_from (suc n) (suc a) h =
    omega (arith, differ_self (suc a % 2), xor_self_from n (suc a / 2) (omega arith))

or_zero_from : (n a b : ℕ) → a ≤ n → digits (λ y. y) max n a b ≡ 0 → (a ≡ 0) × (b ≡ 0)
or_zero_from zero a b h e = (omega arith, e)
or_zero_from (suc n) zero b h e = (refl, e)
or_zero_from (suc n) (suc a) b h e =
    let rest = or_zero_from n (suc a / 2) (b / 2) (omega arith) (omega arith) in omega arith

xor_zero : (a b : ℕ) → bit_xor a b ≡ 0 → a ≡ b
xor_zero a b h = xor_zero_from a a b (omega arith) (sym (bit_xor-bitwise a b) ∙ h)

xor_self : (a : ℕ) → bit_xor a a ≡ 0
xor_self a = bit_xor-bitwise a a ∙ xor_self_from a a (omega arith)

or_zero : (a b : ℕ) → bit_or a b ≡ 0 → (a ≡ 0) × (b ≡ 0)
or_zero a b h = or_zero_from a a b (omega arith) (sym (bit_or-bitwise a b) ∙ h)

difference_zero :
    (left right : List ℕ) (diff : ℕ)
    → length left ≡ length right
    → difference diff left right ≡ 0
    → (diff ≡ 0) × (left ≡ right)
unfolding difference
difference_zero [] [] diff e h = (h, refl)
difference_zero [] (b ∷ right) diff e h = cc
difference_zero (a ∷ left) [] diff e h = cc
difference_zero (a ∷ left) (b ∷ right) diff e h =
    let rest = difference_zero left right (bit_or diff (bit_xor a b)) (omega arith) h in
    let none_set = or_zero diff (bit_xor a b) rest.0 in
    let same = xor_zero a b none_set.1 in (none_set.0, rw same (ap (◌∷◌ b) rest.1))

difference_self : (left : List ℕ) → difference 0 left left ≡ 0
unfolding difference
difference_self [] = refl
difference_self (a ∷ left) = rw (xor_self a) (difference_self left)

constant_time_eq_iff : (left right : List ℕ) → (constant_time_eq left right ≡ true) ↔ (left ≡ right)
unfolding constant_time_eq
constant_time_eq_iff left right = (
  λ h. (difference_zero left right 0 (ground arith) (ground arith)).1,
  λ e. rw e (ground (arith, difference_self right)),
)

some_injective : {a b : List ℕ} → some a ≡ some b → a ≡ b
some_injective h = cc

strip_prefix_iff : (p s t : Text) → (strip_prefix p s ≡ some t) ↔ (s ≡ p ++ t)
unfolding strip_prefix
strip_prefix_iff [] s t = (λ h. ground arith, λ h. ap some h)
strip_prefix_iff (c ∷ p) [] t = (λ h. cc, λ h. cc)
strip_prefix_iff (c ∷ p) (d ∷ s) t =
    let ih = strip_prefix_iff p s t in (λ h. ground (arith, ih.0), λ h. ground (arith, ih.1))

behind_bearer_iff :
    (text : Option (List ℕ)) (token : List ℕ)
    → (given_token token (behind_bearer text) ≡ true) ↔ (text ≡ some (codes "Bearer " ++ token))
behind_bearer_iff none token = (λ h. cc, λ h. cc)
behind_bearer_iff (some text) token = elim (Option-cases (strip_prefix (codes "Bearer ") text)) [
  | inl n ↦ rw n (
    λ h. cc,
    λ e. let found = (strip_prefix_iff (codes "Bearer ") text token).1 (some_injective e) in cc,
  )
  | inr (given, s) ↦ rw s (
    λ h. ap some (
        (strip_prefix_iff (codes "Bearer ") text token).0
          (s ∙ ap some ((constant_time_eq_iff given token).0 h))),
    λ e.
        let found = (strip_prefix_iff (codes "Bearer ") text token).1 (some_injective e) in
        (constant_time_eq_iff given token).1 (ground arith),
  )
]

-- With a token set, a request is authorized exactly if its header can be read as text, and that text
-- is `Bearer ` and the token; without a header it is not.
pub authorized_iff :
    (to_str : List ℕ → Option (List ℕ)) (header : Option (List ℕ)) (token : List ℕ)
    → (authorized to_str header (some token) ≡ true) ↔ (
        (value : List ℕ) × (header ≡ some value) × (to_str value ≡ some (codes "Bearer " ++ token)))
unfolding authorized
authorized_iff to_str none token = (λ h. cc, λ (value, e, t). cc)
authorized_iff to_str (some header) token =
    let law = behind_bearer_iff (to_str header) token in
    (λ h. (header, refl, law.0 h), λ (value, e, t). law.1 (ap to_str (some_injective e) ∙ t))

-- ===== src/Base/BigEndian.antt =====
-- `to_be_bytes` and `from_be_bytes` of the fixed-width integers: `w` bytes, the highest first.
use Prim.Native.Nat.{ℕ, zero, suc, ◌+◌, ◌*◌, ◌/◌, ◌%◌, ◌^◌, ◌<◌}
use mathlib.Core.Path.{◌≡◌, refl, ap, ap₂, ◌∙◌}
use mathlib.Core.List.{List, [], ◌∷◌}
use native.Mathlib.Omega.{arith}
use native.Mathlib.Nat.{div-add-mod', mod-lt, pow-suc}
use atomic_blob_storage.Base.Lists.{length, All}

unfoldable pub to_be : ℕ → ℕ → List ℕ
to_be zero n = []
to_be (suc w) n = (n / 256 ^ w) ∷ to_be w (n % 256 ^ w)

unfoldable pub from_be : List ℕ → ℕ
from_be [] = 0
from_be (b ∷ bs) = b * 256 ^ length bs + from_be bs

pub length-to_be : (w n : ℕ) → length (to_be w n) ≡ w
unfolding to_be
length-to_be zero n = refl
length-to_be (suc w) n = ap suc (length-to_be w (n % 256 ^ w))

pow_pos : (w : ℕ) → 0 < 256 ^ w
pow_pos zero = omega arith
pow_pos (suc w) = rw (pow-suc 256 w) (omega (arith, pow_pos w))

pub from_be-to_be : (w n : ℕ) → n < 256 ^ w → from_be (to_be w n) ≡ n
unfolding to_be from_be
from_be-to_be zero n h = omega arith
from_be-to_be (suc w) n h =
    rw (length-to_be w (n % 256 ^ w), from_be-to_be w (n % 256 ^ w) (mod-lt n (pow_pos w)))
      (div-add-mod' n (256 ^ w))

pub from_be-lt : (bs : List ℕ) → All (λ b. b < 256) bs → from_be bs < 256 ^ length bs
unfolding from_be
from_be-lt [] h = omega arith
from_be-lt (b ∷ bs) h = rw (pow-suc 256 (length bs)) (grind (arith, from_be-lt bs h.1))

pub to_be-from_be : (bs : List ℕ) → All (λ b. b < 256) bs → to_be (length bs) (from_be bs) ≡ bs
unfolding to_be from_be
to_be-from_be [] h = refl
to_be-from_be (b ∷ bs) h =
    ap₂ ◌∷◌ (grind (arith, from_be-lt bs h.1))
      (ap (to_be (length bs)) (grind (arith, from_be-lt bs h.1)) ∙ to_be-from_be bs h.1)

pub to_be-bytes : (w n : ℕ) → n < 256 ^ w → All (λ b. b < 256) (to_be w n)
unfolding to_be
to_be-bytes zero n h = tt
to_be-bytes (suc w) n h =
    (grind (arith, pow-suc 256 w, pow_pos w), to_be-bytes w (n % 256 ^ w) (mod-lt n (pow_pos w)))

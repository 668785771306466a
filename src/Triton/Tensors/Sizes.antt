-- ===== src/Triton/Tensors/Sizes.antt =====
-- internal/adapter/triton/binary_tensor.go: tensorElementCount never overflows, and refuses no shape
-- that fits.
use native.Mathlib.Nat.{le-div_iff_mul-le, le-mul_of_pos_right, mul_assoc}
use variable_star_classifica.Prelude.{
  ℕ, ◌*◌, ◌/◌, ◌≤◌, ◌<◌, ◌≡◌, ◌∙◌, sym, subst, ◌↔◌, refl, ap, false, List, [], ◌∷◌, ℤ, pos,
  pos_part, leb_ℤ, ltb, All, arith,
}
use variable_star_classifica.Errors.{ok}
use variable_star_classifica.Triton.Tensors.{
  max_int, is_empty_shape, count_elements, tensor_element_count,
}

-- The number of elements without a bound, and the dimensions that a shape may have.
abbrev pub product : List ℤ → ℕ
product [] = 1
product (d ∷ ds) = pos_part d * product ds

abbrev pub IsPositive : ℤ → Type 0
IsPositive d = 0 < pos_part d

fits-step : (count d : ℕ) → 0 < d → ltb (max_int / d) count ≡ false → count * d ≤ max_int
fits-step count d h l = (le-div_iff_mul-le h).0 (ground arith)

count-elements :
    (ds : List ℤ) (count n : ℕ)
    → count ≤ max_int
    → count_elements count ds ≡ ok n
    → (n ≡ count * product ds) × (n ≤ max_int) × All IsPositive ds
unfolding count_elements
count-elements [] count n l h = (ground arith, ground arith, tt)
count-elements (d ∷ ds) count n l h =
    let positive : IsPositive d = ground arith in
    let fits : ltb (max_int / pos_part d) count ≡ false = ground arith in
    let rest : count_elements (count * pos_part d) ds ≡ ok n = ground arith in
    let (same, most, positives) =
      count-elements ds (count * pos_part d) n (fits-step count (pos_part d) positive fits) rest in
    (same ∙ mul_assoc count (pos_part d) (product ds), most, (positive, positives))

pub product-positive : (ds : List ℤ) → All IsPositive ds → 0 < product ds
product-positive [] h = omega arith
product-positive (d ∷ ds) h =
    omega (arith, le-mul_of_pos_right (pos_part d) (product-positive ds h.1), h.0)

elements-count :
    (ds : List ℤ) (count : ℕ)
    → All IsPositive ds
    → count * product ds ≤ max_int
    → count_elements count ds ≡ ok (count * product ds)
unfolding count_elements
elements-count [] count h l = ap ok (omega arith)
elements-count (d ∷ ds) count h l =
    let grown : count * pos_part d * product ds ≤ max_int =
      subst (λ n. n ≤ max_int) (sym (mul_assoc count (pos_part d) (product ds))) l in
    let small : count * pos_part d ≤ max_int =
      omega (arith, le-mul_of_pos_right (count * pos_part d) (product-positive ds h.1), grown) in
    let fits : ltb (max_int / pos_part d) count ≡ false =
      ground (arith, (le-div_iff_mul-le {x = count} {y = max_int} h.0).1 small) in
    rw (not_negative d h.0, fits)
      (elements-count ds (count * pos_part d) h.1 grown
        ∙ ap ok (mul_assoc count (pos_part d) (product ds)))
  where
    not_negative : (z : ℤ) → IsPositive z → leb_ℤ z (pos 0) ≡ false
    not_negative z h = ground arith

-- tensorElementCount returns n exactly for the shapes of at least one dimension, all of them positive,
-- whose product, taken without a bound, is n and no more than the greatest int: its product never wraps
-- around, and it refuses no shape that fits.
pub tensor_element_count-ok_iff :
    (shape : List ℤ) (n : ℕ)
    → (tensor_element_count shape ≡ ok n) ↔ (
        (is_empty_shape shape ≡ false) × All IsPositive shape × (n ≡ product shape) × (n ≤ max_int))
unfolding tensor_element_count
tensor_element_count-ok_iff [] n = (λ h. absurd (cc h), λ h. absurd (cc (h.0)))
tensor_element_count-ok_iff (d ∷ ds) n = (
  λ h.
      let (same, most, positives) = count-elements (d ∷ ds) 1 n (omega arith) h in
      (refl, positives, same ∙ one_times, most),
  λ h.
      let (_, positives, same, most) = h in
      elements-count (d ∷ ds) 1 positives (subst (λ k. k ≤ max_int) (same ∙ sym one_times) most)
      ∙ ap ok (one_times ∙ sym same),
)
  where
    one_times : 1 * product (d ∷ ds) ≡ product (d ∷ ds)
    one_times = omega arith

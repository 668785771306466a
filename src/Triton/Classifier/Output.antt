-- ===== src/Triton/Classifier/Output.antt =====
-- internal/adapter/triton/classifier.go: what mapClassificationOutput returns.
use variable_star_classifica.Prelude.{
  ℕ, ◌*◌, ◌/◌, ◌≡◌, ◌∙◌, refl, sym, ap, subst, inl, inr, Bool, Bool-cases, true, false, List, [],
  ◌∷◌, Text, ℤ, pos, eqb_text, eqb_ℤ_iff, length, arith,
}
use variable_star_classifica.Errors.{Result, Result-cases, ok}
use variable_star_classifica.Application.CoarseMode.{CoarseMode}
use variable_star_classifica.Application.Inputs.{ClassificationOutput}
use variable_star_classifica.Domain.Classification.{
  coarse_probability_count, conditional_fine_probability_count, leaf_probability_count, Float32,
}
use variable_star_classifica.Triton.Tensors.{
  TensorDataType, fp64, fp32, int32, boolean, other_type, same_type, BinaryTensor,
  tensor_element_size, tensor_element_count, expected_tensor_data_size, validate_binary_tensor,
  require_tensor_type,
}
use variable_star_classifica.Triton.Tensors.Sizes.{tensor_element_count-ok_iff}
use variable_star_classifica.Triton.Values.{words_of, decode_fp32_values, decode_bool_values}
use variable_star_classifica.Triton.Classifier.{
  are_probabilities, is_shape, require_output_tensor, decode_probability_tensor,
  BinaryInferResponse, first_bool, coarse_probs, fine_conditional_probs, leaf_probs, map_output,
  map_outputs, no_output, computes, same_bool, check_outputs, map_classification_output,
}

-- Arrays of the model's sizes whose values are probabilities.
pub record IsOutput (output : ClassificationOutput) : Type 0 where
  pub coarse_count : length output.coarse_probabilities ≡ coarse_probability_count
  pub fine_count : length output.conditional_fine_probabilities ≡ conditional_fine_probability_count
  pub leaf_count : length output.leaf_probabilities ≡ leaf_probability_count
  pub coarse : are_probabilities output.coarse_probabilities ≡ true
  pub fine : are_probabilities output.conditional_fine_probabilities ≡ true
  pub leaf : are_probabilities output.leaf_probabilities ≡ true

length-words_of : (b : Text) → length (words_of b) ≡ length b / 4
unfolding words_of
length-words_of (a ∷ (b ∷ (c ∷ (d ∷ rest)))) = omega (arith, length-words_of rest)
length-words_of [] = omega arith
length-words_of (a ∷ []) = omega arith
length-words_of (a ∷ (b ∷ [])) = omega arith
length-words_of (a ∷ (b ∷ (c ∷ []))) = omega arith

is_fp32 : (kind : TensorDataType) → same_type kind fp32 ≡ true → kind ≡ fp32
is_fp32 fp32 h = refl
is_fp32 fp64 h = absurd (cc h)
is_fp32 int32 h = absurd (cc h)
is_fp32 boolean h = absurd (cc h)
is_fp32 other_type h = absurd (cc h)

is_shape-one : (shape : List ℤ) (count : ℕ) → is_shape shape count ≡ true → shape ≡ pos count ∷ []
is_shape-one [] count h = absurd (cc h)
is_shape-one (d ∷ []) count h = ap (λ z. z ∷ []) ((eqb_ℤ_iff d (pos count)).0 h)
is_shape-one (d ∷ (e ∷ ds)) count h = absurd (cc h)

fp32-size : (count n : ℕ) → expected_tensor_data_size fp32 (pos count ∷ []) ≡ ok n → n ≡ count * 4
unfolding expected_tensor_data_size tensor_element_size
fp32-size count n h = elim (Result-cases (tensor_element_count (pos count ∷ []))) [
  | inr (e, q) ↦ absurd (ground arith)
  | inl (c, q) ↦
      let (_, _, same, _) = (tensor_element_count-ok_iff (pos count ∷ []) c).0 q in
      let is_product : n ≡ c * 4 = ground arith in omega (arith, same, is_product)
]

-- The bytes of a valid FP32 tensor with one dimension.
fp32-bytes :
    (t : BinaryTensor) (count : ℕ)
    → t.data_type ≡ fp32
    → t.shape ≡ pos count ∷ []
    → validate_binary_tensor t ≡ ok tt
    → length t.bytes ≡ count * 4
unfolding validate_binary_tensor
fp32-bytes t count typed shaped h =
    elim (Result-cases (expected_tensor_data_size t.data_type t.shape)) [
      | inr (e, p) ↦ absurd (ground arith)
      | inl (size, p) ↦
          let same : length t.bytes ≡ size = ground arith in
          same
          ∙ fp32-size count size (
              sym (ap (λ kind. expected_tensor_data_size kind (pos count ∷ [])) typed)
              ∙ sym (ap (expected_tensor_data_size t.data_type) shaped)
              ∙ p)
    ]

decode-words :
    (t : BinaryTensor) (vs : List Float32)
    → decode_fp32_values t ≡ ok vs
    → (validate_binary_tensor t ≡ ok tt) × (vs ≡ words_of t.bytes)
unfolding decode_fp32_values require_tensor_type
decode-words t vs h = elim (Result-cases (validate_binary_tensor t)) [
  | inr (e, p) ↦ absurd (ground arith)
  | inl (u, p) ↦ (p, ground arith)
]

-- The values of an output: as many as are expected, all of them probabilities.
decode_probability_tensor-lem :
    (t : BinaryTensor) (count : ℕ) (vs : List Float32)
    → decode_probability_tensor t count ≡ ok vs
    → (length vs ≡ count) × (are_probabilities vs ≡ true)
unfolding decode_probability_tensor require_output_tensor
decode_probability_tensor-lem t count vs h = elim (Result-cases (decode_fp32_values t)) [
  | inr (e, p) ↦ absurd (ground arith)
  | inl (values, p) ↦
      let same : vs ≡ values = ground arith in
      let (valid, words) = decode-words t values p in
      let typed = is_fp32 t.data_type (ground arith) in
      let shaped = is_shape-one t.shape count (ground arith) in
      let bytes = fp32-bytes t count typed shaped valid in
      let lengths : length vs ≡ length t.bytes / 4 =
        ap length (same ∙ words) ∙ length-words_of t.bytes in
      (omega (arith, lengths, bytes), ground arith)
]

no_output-IsOutput : IsOutput no_output
no_output-IsOutput = record {
  coarse_count = refl;
  fine_count = refl;
  leaf_count = refl;
  coarse = refl;
  fine = refl;
  leaf = refl;
}

map_output-IsOutput :
    (output mapped : ClassificationOutput) (t : BinaryTensor)
    → map_output output t ≡ ok mapped
    → IsOutput output
    → IsOutput mapped
unfolding map_output
map_output-IsOutput output mapped t h o = elim (Bool-cases (eqb_text t.name coarse_probs)) [
  | inl a ↦ elim (Result-cases (decode_probability_tensor t coarse_probability_count)) [
    | inr (e, p) ↦ absurd (ground arith)
    | inl (vs, p) ↦
        let facts = decode_probability_tensor-lem t coarse_probability_count vs p in
        let same : mapped ≡ record output { coarse_probabilities = vs } = ground arith in
        subst IsOutput (sym same) (record {
          coarse_count = facts.0;
          fine_count = o.fine_count;
          leaf_count = o.leaf_count;
          coarse = facts.1;
          fine = o.fine;
          leaf = o.leaf;
        })
  ]
  | inr a ↦ elim (Bool-cases (eqb_text t.name fine_conditional_probs)) [
    | inl b ↦ elim (Result-cases (decode_probability_tensor t conditional_fine_probability_count)) [
      | inr (e, p) ↦ absurd (ground arith)
      | inl (vs, p) ↦
          let facts = decode_probability_tensor-lem t conditional_fine_probability_count vs p in
          let same : mapped ≡ record output { conditional_fine_probabilities = vs } =
            ground arith in
          subst IsOutput (sym same) (record {
            coarse_count = o.coarse_count;
            fine_count = facts.0;
            leaf_count = o.leaf_count;
            coarse = o.coarse;
            fine = facts.1;
            leaf = o.leaf;
          })
    ]
    | inr b ↦ elim (Bool-cases (eqb_text t.name leaf_probs)) [
      | inl c ↦ elim (Result-cases (decode_probability_tensor t leaf_probability_count)) [
        | inr (e, p) ↦ absurd (ground arith)
        | inl (vs, p) ↦
            let facts = decode_probability_tensor-lem t leaf_probability_count vs p in
            let same : mapped ≡ record output { leaf_probabilities = vs } = ground arith in
            subst IsOutput (sym same) (record {
              coarse_count = o.coarse_count;
              fine_count = o.fine_count;
              leaf_count = facts.0;
              coarse = o.coarse;
              fine = o.fine;
              leaf = facts.1;
            })
      ]
      | inr c ↦ elim (Result-cases (decode_bool_values t)) [
        | inr (e, p) ↦ absurd (ground arith)
        | inl (vs, p) ↦
            let same : mapped ≡ record output { xgboost_executed = first_bool vs } = ground arith in
            subst IsOutput (sym same) (record {
              coarse_count = o.coarse_count;
              fine_count = o.fine_count;
              leaf_count = o.leaf_count;
              coarse = o.coarse;
              fine = o.fine;
              leaf = o.leaf;
            })
      ]
    ]
  ]
]

map_outputs-IsOutput :
    (tensors : List BinaryTensor) (seen names : List Text) (output mapped : ClassificationOutput)
    → map_outputs seen output tensors ≡ ok (names, mapped)
    → IsOutput output
    → IsOutput mapped
unfolding map_outputs
map_outputs-IsOutput [] seen names output mapped h o = subst IsOutput (same h) o
  where
    same :
        ◌≡◌ {A = Result (List Text × ClassificationOutput)} (ok (seen, output)) (ok (names, mapped))
        → output ≡ mapped
    same e = cc e
map_outputs-IsOutput (t ∷ tensors) seen names output mapped h o =
    elim (Result-cases (map_output output t)) [
      | inr (e, p) ↦ absurd (ground arith)
      | inl (next, p) ↦
          map_outputs-IsOutput tensors (t.name ∷ seen) names next mapped (ground arith)
            (map_output-IsOutput output next t p o)
    ]

check_outputs-executed :
    (mode : CoarseMode) (names : List Text) (mapped output : ClassificationOutput)
    → check_outputs mode (names, mapped) ≡ ok output
    → (mapped ≡ output) × (output.xgboost_executed ≡ computes mode)
unfolding check_outputs
check_outputs-executed mode names mapped output h =
    let same : mapped ≡ output = ground arith in
    let agrees : same_bool mapped.xgboost_executed (computes mode) ≡ true = ground arith in
    (same, sym (ap (λ (x : ClassificationOutput). x.xgboost_executed) same) ∙ agreed _ _ agrees)
  where
    agreed : (a b : Bool) → same_bool a b ≡ true → a ≡ b
    agreed true true h = refl
    agreed false false h = refl
    agreed true false h = absurd (cc h)
    agreed false true h = absurd (cc h)

-- What mapClassificationOutput returns has arrays of the model's sizes whose values are all finite and
-- between 0 and 1, and says that XGBoost was executed exactly in the modes that compute the coarse
-- probabilities, whatever tensors the server sends and in whatever order.
pub map_classification_output-IsOutput :
    (response : BinaryInferResponse) (name version : Text) (mode : CoarseMode)
    (output : ClassificationOutput)
    → map_classification_output response name version mode ≡ ok output
    → IsOutput output × (output.xgboost_executed ≡ computes mode)
unfolding map_classification_output
map_classification_output-IsOutput response name version mode output h =
    elim (Result-cases (map_outputs [] no_output response.outputs)) [
      | inr (e, p) ↦ absurd (ground arith)
      | inl ((names, mapped), p) ↦
          let (same, executed) = check_outputs-executed mode names mapped output (ground arith) in
          (
            subst IsOutput same (
                map_outputs-IsOutput response.outputs [] names no_output mapped p
                  no_output-IsOutput),
            executed,
          )
    ]

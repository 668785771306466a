-- ===== src/Triton/Classifier.antt =====
-- internal/adapter/triton/classifier.go: the tensors of a classification, and what is made of the
-- server's. The HTTP exchange between the two is not part of the model.
pub mod Output
use variable_star_classifica.Prelude.{
  ℕ, zero, suc, Bool, true, false, not, ◌&&◌, ◌||◌, List, [], ◌∷◌, Option, none, some, Text, codes,
  eqb_text, ℤ, pos, eqb_ℤ, ltb_ℤ, length, ◌==◌, if◌then◌else◌,
}
use variable_star_classifica.Errors.{
  GoError, because, invalid_classification_input, invalid_classification_output, Result, ok, err,
  ◌>>=◌, ◌>>◌, refuse_if,
}
use variable_star_classifica.Application.LightCurves.{is_finite32, order32}
use variable_star_classifica.Application.CoarseMode.{
  CoarseMode, unspecified_mode, compute_current, reuse_previous, compute_bootstrap,
}
use variable_star_classifica.Application.Inputs.{ClassificationInput, ClassificationOutput}
use variable_star_classifica.Domain.Classification.{
  Float32, coarse_probability_count, conditional_fine_probability_count, leaf_probability_count,
}
use variable_star_classifica.Triton.Tensors.{TensorDataType, fp32, boolean, same_type, BinaryTensor}
use variable_star_classifica.Triton.Values.{
  new_fp64_tensor, new_fp32_tensor, new_int32_tensor, decode_fp32_values, decode_bool_values,
}
use variable_star_classifica.Triton.Messages.{exists_name}

abbrev pub coarse_probs : Text
coarse_probs = codes "COARSE_PROBS"

abbrev pub fine_conditional_probs : Text
fine_conditional_probs = codes "FINE_CONDITIONAL_PROBS"

abbrev pub leaf_probs : Text
leaf_probs = codes "LEAF_PROBS"

abbrev pub xgboost_executed : Text
xgboost_executed = codes "XGBOOST_EXECUTED"

-- A finite float32 from 0 to 1.
abbrev pub is_probability : Float32 → Bool
is_probability p =
    is_finite32 p
    && (not (ltb_ℤ (order32 p) (order32 0)) && not (ltb_ℤ (order32 0x3f800000) (order32 p)))

abbrev pub are_probabilities : List Float32 → Bool
are_probabilities [] = true
are_probabilities (p ∷ ps) = is_probability p && are_probabilities ps

abbrev invalid_input : GoError
invalid_input = because invalid_classification_input "input"

-- The mode, CoarseMode.IsValid with it, and the reused probabilities.
unfoldable pub check_reused : CoarseMode → Option (List Float32) → Result (Unit {0})
check_reused unspecified_mode reused = err invalid_input
check_reused reuse_previous none = err invalid_input
check_reused reuse_previous (some ps) = refuse_if (not (are_probabilities ps)) invalid_input
check_reused compute_current none = ok tt
check_reused compute_current (some ps) = err invalid_input
check_reused compute_bootstrap none = ok tt
check_reused compute_bootstrap (some ps) = err invalid_input

unfoldable pub validate_classification_input : ClassificationInput → Result (Unit {0})
unfolding check_reused
validate_classification_input input =
    check_reused input.coarse_mode input.reused_coarse_probabilities

-- int32(input.CoarseMode)
abbrev pub mode_number : CoarseMode → ℤ
mode_number unspecified_mode = pos 0
mode_number compute_current = pos 1
mode_number reuse_previous = pos 2
mode_number compute_bootstrap = pos 3

-- An array of zeros, which the fields are before the loop.
abbrev pub zeros : ℕ → List Float32
zeros zero = []
zeros (suc n) = 0 ∷ zeros n

abbrev pub reused_or_zeros : Option (List Float32) → List Float32
reused_or_zeros none = zeros coarse_probability_count
reused_or_zeros (some ps) = ps

-- buildClassificationInputTensors
unfoldable pub build_classification_input_tensors : ClassificationInput → Result (List BinaryTensor)
unfolding new_fp64_tensor new_fp32_tensor new_int32_tensor
build_classification_input_tensors input = do
  let shape = pos (length input.time_mjd) ∷ []
  times ← new_fp64_tensor (codes "TIME_MJD") shape input.time_mjd
  magnitudes ← new_fp32_tensor (codes "MAGNITUDE") shape input.magnitude
  errors ← new_fp32_tensor (codes "MAGNITUDE_ERROR") shape input.magnitude_error
  mode ← new_int32_tensor (codes "COARSE_MODE") (pos 1 ∷ []) (mode_number input.coarse_mode ∷ [])
  reused ←
      new_fp32_tensor (codes "REUSED_COARSE_PROBS") (pos coarse_probability_count ∷ [])
        (reused_or_zeros input.reused_coarse_probabilities)
  ok (times ∷ magnitudes ∷ errors ∷ mode ∷ reused ∷ [])

abbrev invalid_output : GoError
invalid_output = because invalid_classification_output "output"

abbrev pub is_shape : List ℤ → ℕ → Bool
is_shape (d ∷ []) count = eqb_ℤ d (pos count)
is_shape _ count = false

-- requireOutputTensor
unfoldable pub require_output_tensor : BinaryTensor → TensorDataType → ℕ → Result (Unit {0})
require_output_tensor tensor expected_data_type expected_count = do
  refuse_if (not (same_type tensor.data_type expected_data_type)) invalid_output
  refuse_if (not (is_shape tensor.shape expected_count)) invalid_output

abbrev values_checked : {A : Type 0} → Result A → Result A
values_checked (ok vs) = ok vs
values_checked (err e) = err invalid_output

-- decodeProbabilityTensor
unfoldable pub decode_probability_tensor : BinaryTensor → ℕ → Result (List Float32)
decode_probability_tensor tensor expected_count = do
  require_output_tensor tensor fp32 expected_count
  values ← values_checked (decode_fp32_values tensor)
  refuse_if (not (are_probabilities values)) invalid_output
  ok values

-- BinaryInferResponse
pub record BinaryInferResponse : Type 0 where
  pub id : Text
  pub model_name : Text
  pub model_version : Text
  pub outputs : List BinaryTensor

-- values[0]; the shape has one element.
abbrev pub first_bool : List Bool → Bool
first_bool [] = false
first_bool (b ∷ bs) = b

-- The switch over the name of an output, which sets a field.
unfoldable pub map_output : ClassificationOutput → BinaryTensor → Result ClassificationOutput
map_output output tensor =
    if eqb_text tensor.name coarse_probs
    then (do
      values ← decode_probability_tensor tensor coarse_probability_count
      ok (record output { coarse_probabilities = values }))
    else if eqb_text tensor.name fine_conditional_probs
    then (do
      values ← decode_probability_tensor tensor conditional_fine_probability_count
      ok (record output { conditional_fine_probabilities = values }))
    else if eqb_text tensor.name leaf_probs
    then (do
      values ← decode_probability_tensor tensor leaf_probability_count
      ok (record output { leaf_probabilities = values }))
    else if eqb_text tensor.name xgboost_executed
    then (do
      require_output_tensor tensor boolean 1
      values ← values_checked (decode_bool_values tensor)
      ok (record output { xgboost_executed = first_bool values }))
    else err invalid_output

-- The loop over the outputs, with the names seen so far: the fields and the names in the end.
unfoldable pub map_outputs :
    List Text → ClassificationOutput → List BinaryTensor → Result (List Text × ClassificationOutput)
map_outputs seen output [] = ok (seen, output)
map_outputs seen output (tensor ∷ outputs) = do
  refuse_if (exists_name tensor.name seen) invalid_output
  mapped ← map_output output tensor
  map_outputs (tensor.name ∷ seen) mapped outputs

abbrev pub no_output : ClassificationOutput
no_output = record {
  coarse_probabilities = zeros coarse_probability_count;
  conditional_fine_probabilities = zeros conditional_fine_probability_count;
  leaf_probabilities = zeros leaf_probability_count;
  xgboost_executed = false;
}

abbrev pub computes : CoarseMode → Bool
computes compute_current = true
computes compute_bootstrap = true
computes _ = false

abbrev pub same_bool : Bool → Bool → Bool
same_bool true b = b
same_bool false b = not b

-- The tests behind the loop.
unfoldable pub check_outputs :
    CoarseMode → List Text × ClassificationOutput → Result ClassificationOutput
check_outputs mode (seen, output) = do
  refuse_if (not (exists_name coarse_probs seen)) invalid_output
  refuse_if (not (exists_name fine_conditional_probs seen)) invalid_output
  refuse_if (not (exists_name leaf_probs seen)) invalid_output
  refuse_if (not (exists_name xgboost_executed seen)) invalid_output
  refuse_if (not (same_bool output.xgboost_executed (computes mode))) invalid_output
  ok output

-- mapClassificationOutput
unfoldable pub map_classification_output :
    BinaryInferResponse → Text → Text → CoarseMode → Result ClassificationOutput
map_classification_output response expected_model_name expected_model_version mode = do
  refuse_if (not (eqb_text response.model_name expected_model_name)) invalid_output
  refuse_if (not (eqb_text response.model_version expected_model_version)) invalid_output
  refuse_if (not (length response.outputs == 4)) invalid_output
  mapped ← map_outputs [] no_output response.outputs
  check_outputs mode mapped

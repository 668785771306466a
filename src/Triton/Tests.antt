-- ===== src/Triton/Tests.antt =====
-- internal/adapter/triton: the theorems on small tensors and on an answer of the server.
use variable_star_classifica.Prelude.{
  ℕ, ◌≤◌, ◌≡◌, ◌↔◌, refl, true, false, List, [], ◌∷◌, map, Text, codes, ℤ, pos, negsuc, All, arith,
}
use variable_star_classifica.Errors.{ok}
use variable_star_classifica.Application.CoarseMode.{compute_current}
use variable_star_classifica.Application.Inputs.{ClassificationOutput}
use variable_star_classifica.Triton.Tensors.{
  max_int, fp32, int32, boolean, BinaryTensor, is_empty_shape, tensor_element_count, count_elements,
  tensor_element_size, expected_tensor_data_size, validate_binary_tensor, new_binary_tensor,
  require_tensor_type,
}
use variable_star_classifica.Triton.Tensors.Sizes.{product, IsPositive, tensor_element_count-ok_iff}
use variable_star_classifica.Triton.Values.{
  new_int32_tensor, put_words, words_of, decode_fp32_values, decode_bool_values,
}
use variable_star_classifica.Triton.Values.RoundTrip.{
  int32_values, new_tensor, decode_like, decode-new_tensor,
}
use variable_star_classifica.Triton.Messages.{
  InputHeader, encode_inputs, decode_outputs, request_body,
}
use variable_star_classifica.Triton.Messages.RoundTrip.{answer_header, decode_outputs-encode_inputs}
use variable_star_classifica.Triton.Classifier.{
  zeros, BinaryInferResponse, map_classification_output, map_outputs, map_output, check_outputs,
  decode_probability_tensor, require_output_tensor, computes,
}
use variable_star_classifica.Triton.Classifier.Output.{IsOutput, map_classification_output-IsOutput}

abbrev matrix : List ℤ
matrix = pos 2 ∷ pos 3 ∷ []

tensor_element_count-ok_iff_example : (tensor_element_count matrix ≡ ok 6) ↔ (
    (is_empty_shape matrix ≡ false) × All IsPositive matrix × (6 ≡ product matrix) × (6 ≤ max_int))
tensor_element_count-ok_iff_example = tensor_element_count-ok_iff matrix 6

-- Two int32 values, one of them negative.
abbrev two_values : List ℤ
two_values = pos 258 ∷ negsuc 0 ∷ []

abbrev two_tensor : BinaryTensor
two_tensor = record {
  name = codes "MODE";
  data_type = int32;
  shape = pos 2 ∷ [];
  bytes = 2 ∷ 1 ∷ 0 ∷ 0 ∷ 255 ∷ 255 ∷ 255 ∷ 255 ∷ [];
}

two_made : new_tensor (codes "MODE") (pos 2 ∷ []) (int32_values two_values) ≡ ok two_tensor
unfolding new_int32_tensor new_binary_tensor put_words validate_binary_tensor
    expected_tensor_data_size tensor_element_size tensor_element_count count_elements
two_made = refl

decode-new_tensor_example :
    decode_like (int32_values two_values) two_tensor ≡ ok (int32_values two_values)
decode-new_tensor_example =
    decode-new_tensor (codes "MODE") (pos 2 ∷ []) (int32_values two_values) two_tensor
      (omega arith, (omega arith, tt)) two_made

abbrev two_headers : List InputHeader
two_headers =
    record { name = codes "MODE"; shape = pos 2 ∷ []; data_type = int32; binary_data_size = 8 }
    ∷ record { name = codes "FLAG"; shape = pos 1 ∷ []; data_type = boolean; binary_data_size = 1 }
    ∷ []

abbrev flag_tensor : BinaryTensor
flag_tensor = record {
  name = codes "FLAG";
  data_type = boolean;
  shape = pos 1 ∷ [];
  bytes = 1 ∷ [];
}

abbrev two_inputs : List BinaryTensor
two_inputs = two_tensor ∷ flag_tensor ∷ []

two_encoded : encode_inputs [] 0 two_inputs ≡ ok two_headers
unfolding encode_inputs validate_binary_tensor expected_tensor_data_size tensor_element_size
    tensor_element_count count_elements
two_encoded = refl

decode_outputs-encode_inputs_example :
    decode_outputs (request_body (codes "{}") two_inputs) 2 (map answer_header two_headers)
    ≡ ok two_inputs
decode_outputs-encode_inputs_example =
    decode_outputs-encode_inputs (codes "{}") [] 0 two_inputs two_headers two_encoded

-- An answer with the flag first; 63 is the high byte of one half.
abbrev zero_bytes : List ℕ → Text
zero_bytes [] = []
zero_bytes (z ∷ zs) = 0 ∷ 0 ∷ 0 ∷ 0 ∷ zero_bytes zs

abbrev vector : Text → ℕ → Text → BinaryTensor
vector name count bytes = record {
  name = name;
  data_type = fp32;
  shape = pos count ∷ [];
  bytes = bytes;
}

abbrev answer : BinaryInferResponse
answer = record {
  id = codes "job-1";
  model_name = codes "stars";
  model_version = codes "1";
  outputs =
      record flag_tensor { name = codes "XGBOOST_EXECUTED" }
      ∷ vector (codes "LEAF_PROBS") 12 (zero_bytes (zeros 12))
      ∷ vector (codes "COARSE_PROBS") 7 (0 ∷ 0 ∷ 0 ∷ 63 ∷ zero_bytes (zeros 6))
      ∷ vector (codes "FINE_CONDITIONAL_PROBS") 10 (zero_bytes (zeros 10))
      ∷ [];
}

abbrev answered : ClassificationOutput
answered = record {
  coarse_probabilities = 0x3f000000 ∷ zeros 6;
  conditional_fine_probabilities = zeros 10;
  leaf_probabilities = zeros 12;
  xgboost_executed = true;
}

answer_is_mapped :
    map_classification_output answer (codes "stars") (codes "1") compute_current ≡ ok answered
unfolding map_classification_output map_outputs map_output check_outputs decode_probability_tensor
    require_output_tensor decode_fp32_values decode_bool_values require_tensor_type words_of
    validate_binary_tensor expected_tensor_data_size tensor_element_size tensor_element_count
    count_elements
answer_is_mapped = refl

map_classification_output-IsOutput_example :
    IsOutput answered × (answered.xgboost_executed ≡ computes compute_current)
map_classification_output-IsOutput_example =
    map_classification_output-IsOutput answer (codes "stars") (codes "1") compute_current answered
      answer_is_mapped

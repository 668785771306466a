-- ===== src/Triton/Messages.antt =====
-- internal/adapter/triton/binary_tensor.go: the tensors of a request, its body, and the tensors of a
-- response. The JSON text of a header is an argument; the header itself is a record.
pub mod RoundTrip
use variable_star_classifica.Prelude.{
  ℕ, zero, suc, ◌+◌, ◌-◌, Bool, true, false, not, ◌||◌, List, [], ◌∷◌, ◌++◌, Option, none, some,
  Text, eqb_text, ℤ, pos, negsuc, leb_ℤ, pos_part, ltb, ◌==◌, length, take, drop,
}
use variable_star_classifica.Errors.{
  GoError, because, wrap, invalid_binary_infer_request, invalid_binary_infer_response, Result, ok,
  err, ◌>>=◌, ◌>>◌, refuse_if,
}
use variable_star_classifica.Triton.Tensors.{
  max_int, TensorDataType, BinaryTensor, is_model_name, validate_binary_tensor,
}

-- binaryInferInputHeader
pub record InputHeader : Type 0 where
  pub name : Text
  pub shape : List ℤ
  pub data_type : TensorDataType
  pub binary_data_size : ℕ

-- binaryInferResponseOutputHeader
pub record OutputHeader : Type 0 where
  pub name : Text
  pub shape : List ℤ
  pub data_type : TensorDataType
  pub binary_data_size : Option ℤ

abbrev invalid_request : GoError
invalid_request = because invalid_binary_infer_request "input"

-- Whether a name is in the map of the names so far.
abbrev pub exists_name : Text → List Text → Bool
exists_name name [] = false
exists_name name (other ∷ names) = eqb_text name other || exists_name name names

abbrev input_checked : Result (Unit {0}) → Result (Unit {0})
input_checked (ok u) = ok u
input_checked (err e) = err (wrap "invalid Triton binary inference request: input" e)

-- The loop over the inputs, with the names and the size of the payload so far.
unfoldable pub encode_inputs : List Text → ℕ → List BinaryTensor → Result (List InputHeader)
encode_inputs names payload_size [] = ok []
encode_inputs names payload_size (tensor ∷ inputs) = do
  input_checked (validate_binary_tensor tensor)
  refuse_if (exists_name tensor.name names) invalid_request
  refuse_if (ltb (max_int - payload_size) (length tensor.bytes)) invalid_request
  headers ← encode_inputs (tensor.name ∷ names) (payload_size + length tensor.bytes) inputs
  ok (
      record {
        name = tensor.name;
        shape = tensor.shape;
        data_type = tensor.data_type;
        binary_data_size = length tensor.bytes;
      }
      ∷ headers)

-- The loop over the names of the outputs; each is requested as binary data.
unfoldable pub encode_outputs : List Text → List Text → Result (List Text)
encode_outputs names [] = ok []
encode_outputs names (name ∷ output_names) = do
  refuse_if (not (is_model_name name)) invalid_request
  refuse_if (exists_name name names) invalid_request
  headers ← encode_outputs (name ∷ names) output_names
  ok (name ∷ headers)

-- The body: the JSON header, then the data of the inputs in their order.
abbrev pub payload : List BinaryTensor → Text
payload [] = []
payload (tensor ∷ inputs) = tensor.bytes ++ payload inputs

abbrev pub request_body : Text → List BinaryTensor → Text
request_body json_header inputs = json_header ++ payload inputs

abbrev invalid_response : GoError
invalid_response = because invalid_binary_infer_response "output"

abbrev output_checked : Result (Unit {0}) → Result (Unit {0})
output_checked (ok u) = ok u
output_checked (err e) = err (wrap "invalid Triton binary inference response: output" e)

abbrev pub size_of : Option ℤ → Result ℕ
size_of none = err invalid_response
size_of (some (pos zero)) = err invalid_response
size_of (some (negsuc n)) = err invalid_response
size_of (some (pos (suc n))) = ok (suc n)

abbrev pub output_tensor : Text → ℕ → OutputHeader → ℕ → BinaryTensor
output_tensor body offset output size = record {
  name = output.name;
  data_type = output.data_type;
  shape = output.shape;
  bytes = take size (drop offset body);
}

-- The loop over the outputs of a response, from an offset into its body, and the test for bytes behind
-- the last one. A length less a size may be negative there, so the size is added on the other side.
unfoldable pub decode_outputs : Text → ℕ → List OutputHeader → Result (List BinaryTensor)
decode_outputs body offset [] = do refuse_if (not (offset == length body)) invalid_response; ok []
decode_outputs body offset (output ∷ outputs) = do
  refuse_if (not (is_model_name output.name)) invalid_response
  size ← size_of output.binary_data_size
  refuse_if (ltb max_int size || ltb (length body) (offset + size)) invalid_response
  output_checked (validate_binary_tensor (output_tensor body offset output size))
  rest ← decode_outputs body (offset + size) outputs
  ok (output_tensor body offset output size ∷ rest)

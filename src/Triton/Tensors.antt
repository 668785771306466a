-- ===== src/Triton/Tensors.antt =====
-- internal/adapter/triton/binary_tensor.go: tensors in Triton's binary format. A float is its bit
-- pattern, an int is a 64-bit one.
pub mod Sizes
use variable_star_classifica.Prelude.{
  ℕ, zero, suc, ◌+◌, ◌-◌, ◌*◌, ◌/◌, ◌%◌, ◌^◌, Bool, true, false, not, ◌&&◌, ◌||◌, List, [], ◌∷◌,
  ◌++◌, map, Text, eqb_text, ℤ, pos, negsuc, leb_ℤ, pos_part, ltb, leb, ◌==◌, length,
}
use variable_star_classifica.Errors.{
  GoError, message, because, invalid_binary_tensor, Result, ok, err, ◌>>=◌, ◌>>◌, refuse_if,
}

-- math.MaxInt
abbrev pub max_int : ℕ
max_int = 2 ^ 63 - 1

-- TensorDataType; any other string is `other_type`.
pub data TensorDataType : Type 0 where
  fp64 fp32 int32 boolean other_type : TensorDataType

abbrev pub same_type : TensorDataType → TensorDataType → Bool
same_type fp64 fp64 = true
same_type fp32 fp32 = true
same_type int32 int32 = true
same_type boolean boolean = true
same_type _ _ = false

pub record BinaryTensor : Type 0 where
  pub name : Text
  pub data_type : TensorDataType
  pub shape : List ℤ  -- int64
  pub bytes : Text

-- modelNamePattern: ^[A-Za-z0-9][A-Za-z0-9_.-]*$
abbrev pub is_alphanumeric : ℕ → Bool
is_alphanumeric c = (leb 48 c && leb c 57) || ((leb 65 c && leb c 90) || (leb 97 c && leb c 122))

abbrev pub are_name_characters : Text → Bool
are_name_characters [] = true
are_name_characters (c ∷ s) =
    (is_alphanumeric c || (c == 95 || (c == 46 || c == 45))) && are_name_characters s

abbrev pub is_model_name : Text → Bool
is_model_name [] = false
is_model_name (c ∷ s) = is_alphanumeric c && are_name_characters s

unfoldable pub tensor_element_size : TensorDataType → Result ℕ
tensor_element_size fp64 = ok 8
tensor_element_size fp32 = ok 4
tensor_element_size int32 = ok 4
tensor_element_size boolean = ok 1
tensor_element_size other_type = err (message "unsupported datatype")

-- The loop of tensorElementCount.
unfoldable pub count_elements : ℕ → List ℤ → Result ℕ
count_elements count [] = ok count
count_elements count (dimension ∷ rest) = do
  refuse_if (leb_ℤ dimension (pos 0)) (message "shape must be positive")
  refuse_if (ltb (max_int / pos_part dimension) count) (message "tensor element count overflow int")
  count_elements (count * pos_part dimension) rest

abbrev pub is_empty_shape : List ℤ → Bool
is_empty_shape [] = true
is_empty_shape (d ∷ ds) = false

unfoldable pub tensor_element_count : List ℤ → Result ℕ
unfolding count_elements
tensor_element_count shape = do
  refuse_if (is_empty_shape shape) (message "shape is empty")
  count_elements 1 shape

unfoldable pub expected_tensor_data_size : TensorDataType → List ℤ → Result ℕ
unfolding tensor_element_size tensor_element_count
expected_tensor_data_size data_type shape = do
  size ← tensor_element_size data_type
  count ← tensor_element_count shape
  refuse_if (ltb (max_int / size) count) (message "tensor byte size overflows int")
  ok (count * size)

abbrev pub tensor_checked : {A : Type 0} → Result A → Result A
tensor_checked (ok a) = ok a
tensor_checked (err e) = err (because invalid_binary_tensor "tensor")

-- The loop over the bytes of a BOOL tensor.
abbrev pub are_bool_bytes : Text → Bool
are_bool_bytes [] = true
are_bool_bytes (b ∷ bs) = (b == 0 || b == 1) && are_bool_bytes bs

unfoldable pub validate_binary_tensor : BinaryTensor → Result (Unit {0})
unfolding expected_tensor_data_size
validate_binary_tensor tensor = do
  refuse_if (not (is_model_name tensor.name)) (because invalid_binary_tensor "invalid name")
  size ← tensor_checked (expected_tensor_data_size tensor.data_type tensor.shape)
  refuse_if (not (length tensor.bytes == size)) (because invalid_binary_tensor "data size")
  refuse_if (same_type tensor.data_type boolean && not (are_bool_bytes tensor.bytes))
      (because invalid_binary_tensor "BOOL byte")

unfoldable pub new_binary_tensor : Text → TensorDataType → List ℤ → Text → Result BinaryTensor
unfolding validate_binary_tensor
new_binary_tensor name data_type shape bytes = do
  validate_binary_tensor
      (record { name = name; data_type = data_type; shape = shape; bytes = bytes })
  ok (record { name = name; data_type = data_type; shape = shape; bytes = bytes })

unfoldable pub require_tensor_type : BinaryTensor → TensorDataType → Result (Unit {0})
unfolding validate_binary_tensor
require_tensor_type tensor want = do
  validate_binary_tensor tensor
  refuse_if (not (same_type tensor.data_type want)) (because invalid_binary_tensor "datatype")

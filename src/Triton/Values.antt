-- ===== src/Triton/Values.antt =====
-- internal/adapter/triton/binary_tensor.go: the four kinds of values, little-endian.
pub mod RoundTrip
use variable_star_classifica.Prelude.{
  ℕ, ◌+◌, ◌-◌, ◌*◌, ◌/◌, ◌%◌, ◌^◌, Bool, true, false, List, [], ◌∷◌, ◌++◌, Text, ℤ, pos, negsuc,
  ltb, ◌==◌, if◌then◌else◌,
}
use variable_star_classifica.Errors.{Result, ok, ◌>>=◌, ◌>>◌}
use variable_star_classifica.Triton.Tensors.{
  TensorDataType, fp64, fp32, int32, boolean, BinaryTensor, new_binary_tensor, require_tensor_type,
}

-- binary.LittleEndian.PutUint32
abbrev pub put_word : ℕ → Text
put_word v = v % 256 ∷ v / 2 ^ 8 % 256 ∷ v / 2 ^ 16 % 256 ∷ v / 2 ^ 24 % 256 ∷ []

-- binary.LittleEndian.Uint32 on four bytes
abbrev pub word_of : ℕ → ℕ → ℕ → ℕ → ℕ
word_of a b c d = a + 2 ^ 8 * b + 2 ^ 16 * c + 2 ^ 24 * d

-- The loops of NewFP32Tensor and DecodeFP32Values.
unfoldable pub put_words : List ℕ → Text
put_words [] = []
put_words (v ∷ vs) = put_word v ++ put_words vs

unfoldable pub words_of : Text → List ℕ
words_of (a ∷ (b ∷ (c ∷ (d ∷ rest)))) = word_of a b c d ∷ words_of rest
words_of _ = []

-- Those of NewFP64Tensor and DecodeFP64Values: the low word comes first.
unfoldable pub put_long_words : List ℕ → Text
put_long_words [] = []
put_long_words (v ∷ vs) =
    put_word (v % 2 ^ 32) ++ (put_word (v / 2 ^ 32 % 2 ^ 32) ++ put_long_words vs)

unfoldable pub long_words_of : Text → List ℕ
long_words_of (a ∷ (b ∷ (c ∷ (d ∷ (e ∷ (f ∷ (g ∷ (h ∷ rest)))))))) =
    (word_of a b c d + 2 ^ 32 * word_of e f g h) ∷ long_words_of rest
long_words_of _ = []

-- The conversions uint32(v) of an int32 and int32(w) of a uint32.
abbrev pub uint32_of : ℤ → ℕ
uint32_of (pos n) = n % 2 ^ 32
uint32_of (negsuc n) = (2 ^ 32 - 1 - n) % 2 ^ 32

abbrev pub int32_of : ℕ → ℤ
int32_of w = if ltb w (2 ^ 31) then pos w else negsuc (2 ^ 32 - 1 - w)

abbrev pub uint32s_of : List ℤ → List ℕ
uint32s_of [] = []
uint32s_of (v ∷ vs) = uint32_of v ∷ uint32s_of vs

abbrev pub int32s_of : List ℕ → List ℤ
int32s_of [] = []
int32s_of (w ∷ ws) = int32_of w ∷ int32s_of ws

-- The loops of NewBOOLTensor and DecodeBOOLValues.
abbrev pub put_bools : List Bool → Text
put_bools [] = []
put_bools (true ∷ bs) = 1 ∷ put_bools bs
put_bools (false ∷ bs) = 0 ∷ put_bools bs

abbrev pub bools_of : Text → List Bool
bools_of [] = []
bools_of (b ∷ bs) = (b == 1) ∷ bools_of bs

unfoldable pub new_fp64_tensor : Text → List ℤ → List ℕ → Result BinaryTensor
unfolding new_binary_tensor put_long_words
new_fp64_tensor name shape values = new_binary_tensor name fp64 shape (put_long_words values)

unfoldable pub new_fp32_tensor : Text → List ℤ → List ℕ → Result BinaryTensor
unfolding new_binary_tensor put_words
new_fp32_tensor name shape values = new_binary_tensor name fp32 shape (put_words values)

unfoldable pub new_int32_tensor : Text → List ℤ → List ℤ → Result BinaryTensor
unfolding new_binary_tensor put_words
new_int32_tensor name shape values =
    new_binary_tensor name int32 shape (put_words (uint32s_of values))

unfoldable pub new_bool_tensor : Text → List ℤ → List Bool → Result BinaryTensor
unfolding new_binary_tensor
new_bool_tensor name shape values = new_binary_tensor name boolean shape (put_bools values)

unfoldable pub decode_fp64_values : BinaryTensor → Result (List ℕ)
unfolding require_tensor_type long_words_of
decode_fp64_values tensor = require_tensor_type tensor fp64 >> ok (long_words_of tensor.bytes)

unfoldable pub decode_fp32_values : BinaryTensor → Result (List ℕ)
unfolding require_tensor_type words_of
decode_fp32_values tensor = require_tensor_type tensor fp32 >> ok (words_of tensor.bytes)

unfoldable pub decode_int32_values : BinaryTensor → Result (List ℤ)
unfolding require_tensor_type words_of
decode_int32_values tensor =
    require_tensor_type tensor int32 >> ok (int32s_of (words_of tensor.bytes))

unfoldable pub decode_bool_values : BinaryTensor → Result (List Bool)
unfolding require_tensor_type
decode_bool_values tensor = require_tensor_type tensor boolean >> ok (bools_of tensor.bytes)

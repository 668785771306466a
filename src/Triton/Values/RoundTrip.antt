-- ===== src/Triton/Values/RoundTrip.antt =====
-- internal/adapter/triton/binary_tensor.go: the values of a tensor are read back.
use variable_star_classifica.Prelude.{
  ℕ, ◌+◌, ◌*◌, ◌/◌, ◌%◌, ◌^◌, ◌<◌, ◌≡◌, refl, inl, inr, Bool, true, false, List, [], ◌∷◌, Text, ℤ,
  pos, negsuc, All, arith,
}
use variable_star_classifica.Errors.{Result, Result-cases, ok, ◌>>=◌}
use variable_star_classifica.Triton.Tensors.{
  TensorDataType, fp64, fp32, int32, boolean, same_type, BinaryTensor, validate_binary_tensor,
  new_binary_tensor, require_tensor_type,
}
use variable_star_classifica.Triton.Values.{
  word_of, put_words, words_of, put_long_words, long_words_of, uint32_of, int32_of, uint32s_of,
  int32s_of, put_bools, bools_of, new_fp64_tensor, new_fp32_tensor, new_int32_tensor,
  new_bool_tensor, decode_fp64_values, decode_fp32_values, decode_int32_values, decode_bool_values,
}

abbrev pub IsUint64 : ℕ → Type 0
IsUint64 v = v < 2 ^ 64

abbrev pub IsUint32 : ℕ → Type 0
IsUint32 v = v < 2 ^ 32

abbrev pub IsInt32 : ℤ → Type 0
IsInt32 (pos n) = n < 2 ^ 31
IsInt32 (negsuc n) = n < 2 ^ 31

word-back :
    (u : ℕ)
    → u < 2 ^ 32
    → word_of (u % 256) (u / 2 ^ 8 % 256) (u / 2 ^ 16 % 256) (u / 2 ^ 24 % 256) ≡ u
word-back u l = omega arith

words-back : (vs : List ℕ) → All IsUint32 vs → words_of (put_words vs) ≡ vs
unfolding words_of put_words
words-back [] h = refl
words-back (v ∷ vs) h = rw (word-back v h.0, words-back vs h.1)

long_words-back : (vs : List ℕ) → All IsUint64 vs → long_words_of (put_long_words vs) ≡ vs
unfolding long_words_of put_long_words
long_words-back [] h = refl
long_words-back (v ∷ vs) h = rw (
  word-back (v % 2 ^ 32) (omega arith),
  word-back (v / 2 ^ 32 % 2 ^ 32) (omega arith),
  long_words-back vs h.1,
  halves v h.0,
)
  where
    halves : (u : ℕ) → u < 2 ^ 64 → u % 2 ^ 32 + 2 ^ 32 * (u / 2 ^ 32 % 2 ^ 32) ≡ u
    halves u l = omega arith

int32s-back : (vs : List ℤ) → All IsInt32 vs → int32s_of (uint32s_of vs) ≡ vs
int32s-back [] h = refl
int32s-back (v ∷ vs) h = rw (one v h.0, int32s-back vs h.1)
  where
    one : (z : ℤ) → IsInt32 z → int32_of (uint32_of z) ≡ z
    one (pos n) l = ground arith
    one (negsuc n) l = ground arith

uint32s-small : (vs : List ℤ) → All IsUint32 (uint32s_of vs)
uint32s-small [] = tt
uint32s-small (pos n ∷ vs) = (omega arith, uint32s-small vs)
uint32s-small (negsuc n ∷ vs) = (omega arith, uint32s-small vs)

bools-back : (bs : List Bool) → bools_of (put_bools bs) ≡ bs
bools-back [] = refl
bools-back (true ∷ bs) = rw (bools-back bs)
bools-back (false ∷ bs) = rw (bools-back bs)

module _ (name : Text) (kind : TensorDataType) (shape : List ℤ) (bytes : Text) where
  abbrev made : BinaryTensor
  made = record { name = name; data_type = kind; shape = shape; bytes = bytes }

  -- A tensor that was made is required at its own type.
  new-required :
      (t : BinaryTensor)
      → same_type kind kind ≡ true
      → new_binary_tensor name kind shape bytes ≡ ok t
      → (require_tensor_type t kind ≡ ok tt) × (t ≡ made)
  unfolding new_binary_tensor require_tensor_type
  new-required t same h = elim (Result-cases (validate_binary_tensor made)) [
    | inr (e, p) ↦ absurd (cc (h, p))
    | inl (u, p) ↦ let is_made : t ≡ made = ground arith in (rw (is_made, p, same) refl, is_made)
  ]

-- The values of a tensor of any of the four kinds.
pub data Values : Type 0 where
  fp64_values fp32_values : List ℕ → Values
  int32_values : List ℤ → Values
  bool_values : List Bool → Values

abbrev pub InRange : Values → Type 0
InRange (fp64_values vs) = All IsUint64 vs
InRange (fp32_values vs) = All IsUint32 vs
InRange (int32_values vs) = All IsInt32 vs
InRange (bool_values bs) = Unit {0}

abbrev pub new_tensor : Text → List ℤ → Values → Result BinaryTensor
new_tensor name shape (fp64_values vs) = new_fp64_tensor name shape vs
new_tensor name shape (fp32_values vs) = new_fp32_tensor name shape vs
new_tensor name shape (int32_values vs) = new_int32_tensor name shape vs
new_tensor name shape (bool_values bs) = new_bool_tensor name shape bs

-- The values that the decoder of their kind reads.
abbrev pub decode_like : Values → BinaryTensor → Result Values
decode_like (fp64_values vs) t = decode_fp64_values t >>= λ r. ok (fp64_values r)
decode_like (fp32_values vs) t = decode_fp32_values t >>= λ r. ok (fp32_values r)
decode_like (int32_values vs) t = decode_int32_values t >>= λ r. ok (int32_values r)
decode_like (bool_values bs) t = decode_bool_values t >>= λ r. ok (bool_values r)

-- The values of a tensor that was made, floats as bit patterns, 32-bit ints or bools, are read back by
-- the decoder of its type, whatever the shape that was accepted.
pub decode-new_tensor :
    (name : Text) (shape : List ℤ) (values : Values) (t : BinaryTensor)
    → InRange values
    → new_tensor name shape values ≡ ok t
    → decode_like values t ≡ ok values
unfolding new_fp64_tensor new_fp32_tensor new_int32_tensor new_bool_tensor decode_fp64_values
    decode_fp32_values decode_int32_values decode_bool_values
decode-new_tensor name shape (fp64_values vs) t h made =
    let (required, same) = new-required name fp64 shape (put_long_words vs) t refl made in
    rw (required, same, long_words-back vs h)
decode-new_tensor name shape (fp32_values vs) t h made =
    let (required, same) = new-required name fp32 shape (put_words vs) t refl made in
    rw (required, same, words-back vs h)
decode-new_tensor name shape (int32_values vs) t h made =
    let (required, same) = new-required name int32 shape (put_words (uint32s_of vs)) t refl made in
    rw (required, same, words-back (uint32s_of vs) (uint32s-small vs), int32s-back vs h)
decode-new_tensor name shape (bool_values bs) t h made =
    let (required, same) = new-required name boolean shape (put_bools bs) t refl made in
    rw (required, same, bools-back bs)

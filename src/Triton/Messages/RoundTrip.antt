-- ===== src/Triton/Messages/RoundTrip.antt =====
-- internal/adapter/triton/binary_tensor.go: the tensors that were encoded are decoded from the bytes
-- behind the header.
use native.Mathlib.Nat.{mul-pos}
use variable_star_classifica.Prelude.{
  ℕ, zero, suc, ◌+◌, ◌*◌, ◌<◌, ◌≡◌, refl, sym, ap, subst, inl, inr, true, false, List, [], ◌∷◌,
  ◌++◌, map, append_assoc, append-nil, some, Text, ℤ, pos, ltb, ◌==◌, length, length-append, take,
  drop, arith,
}
use variable_star_classifica.Errors.{Result-cases, ok}
use variable_star_classifica.Triton.Tensors.{
  max_int, TensorDataType, fp64, fp32, int32, boolean, other_type, BinaryTensor, is_model_name,
  tensor_element_size, tensor_element_count, expected_tensor_data_size, validate_binary_tensor,
}
use variable_star_classifica.Triton.Tensors.Sizes.{product-positive, tensor_element_count-ok_iff}
use variable_star_classifica.Triton.Messages.{
  InputHeader, OutputHeader, encode_inputs, payload, request_body, size_of, output_tensor,
  decode_outputs,
}

element_size-positive : (kind : TensorDataType) (n : ℕ) → tensor_element_size kind ≡ ok n → 0 < n
unfolding tensor_element_size
element_size-positive fp64 n h = ground arith
element_size-positive fp32 n h = ground arith
element_size-positive int32 n h = ground arith
element_size-positive boolean n h = ground arith
element_size-positive other_type n h = absurd (cc h)

data_size-positive :
    (kind : TensorDataType) (shape : List ℤ) (n : ℕ)
    → expected_tensor_data_size kind shape ≡ ok n
    → 0 < n
unfolding expected_tensor_data_size
data_size-positive kind shape n h = elim (Result-cases (tensor_element_size kind)) [
  | inr (e, p) ↦ absurd (ground arith)
  | inl (size, p) ↦ elim (Result-cases (tensor_element_count shape)) [
    | inr (e, q) ↦ absurd (ground arith)
    | inl (count, q) ↦
        let (_, positives, same, _) = (tensor_element_count-ok_iff shape count).0 q in
        let is_product : n ≡ count * size = ground arith in
        subst (λ k. 0 < k) (sym is_product)
          (mul-pos (subst (λ k. 0 < k) (sym same) (product-positive shape positives))
            (element_size-positive kind size p))
  ]
]

-- A valid tensor has a name and some bytes.
valid-facts :
    (t : BinaryTensor)
    → validate_binary_tensor t ≡ ok tt
    → (is_model_name t.name ≡ true) × (0 < length t.bytes)
unfolding validate_binary_tensor
valid-facts t h = elim (Result-cases (expected_tensor_data_size t.data_type t.shape)) [
  | inr (e, p) ↦ absurd (ground arith)
  | inl (size, p) ↦
      let same : length t.bytes ≡ size = ground arith in
      (ground arith, subst (λ k. 0 < k) (sym same) (data_size-positive t.data_type t.shape size p))
]

take-length : (b rest : Text) → take (length b) (b ++ rest) ≡ b
take-length [] rest = refl
take-length (x ∷ b) rest = rw (take-length b rest)

slice : (before b rest : Text) → take (length b) (drop (length before) (before ++ (b ++ rest))) ≡ b
slice [] b rest = take-length b rest
slice (x ∷ before) b rest = slice before b rest

-- The header with which a server sends a tensor.
abbrev pub answer_header : InputHeader → OutputHeader
answer_header h = record {
  name = h.name;
  shape = h.shape;
  data_type = h.data_type;
  binary_data_size = some (pos h.binary_data_size);
}

size_of-positive : (n : ℕ) → 0 < n → size_of (some (pos n)) ≡ ok n
size_of-positive zero h = absurd (omega arith)
size_of-positive (suc n) h = refl

abbrev header_of : BinaryTensor → InputHeader
header_of t = record {
  name = t.name;
  shape = t.shape;
  data_type = t.data_type;
  binary_data_size = length t.bytes;
}

-- One turn of the loop over the outputs.
module _ (json : Text) (t : BinaryTensor) (inputs : List BinaryTensor)
    (rest : List OutputHeader) where
  abbrev body : Text
  body = request_body json (t ∷ inputs)

  is_sent : output_tensor body (length json) (answer_header (header_of t)) (length t.bytes) ≡ t
  is_sent = ap (λ b. record t { bytes = b }) (slice json t.bytes (payload inputs))

  within : ltb (length body) (length json + length t.bytes) ≡ false
  within = ground (
    arith,
    length-append json (t.bytes ++ payload inputs),
    length-append t.bytes (payload inputs),
  )

  decode-first :
      is_model_name t.name ≡ true
      → 0 < length t.bytes
      → ltb max_int (length t.bytes) ≡ false
      → validate_binary_tensor t ≡ ok tt
      → decode_outputs (request_body (json ++ t.bytes) inputs) (length (json ++ t.bytes)) rest
        ≡ ok inputs
      → decode_outputs body (length json) (answer_header (header_of t) ∷ rest) ≡ ok (t ∷ inputs)
  unfolding decode_outputs
  decode-first named some_bytes small valid later =
      let behind : decode_outputs body (length json + length t.bytes) rest ≡ ok inputs =
        subst (λ n. decode_outputs body n rest ≡ ok inputs) (length-append json t.bytes)
          (subst (λ b. decode_outputs b (length (json ++ t.bytes)) rest ≡ ok inputs)
            (append_assoc json t.bytes (payload inputs)) later) in
      rw
        (named, size_of-positive (length t.bytes) some_bytes, small, within, is_sent, valid, behind)

-- The tensors that a request accepts can be sent back: from a body of the same data behind any header
-- text, with the names, types, shapes and sizes that were encoded, exactly these tensors are decoded, in
-- their order and without bytes left over.
pub decode_outputs-encode_inputs :
    (json_header : Text) (names : List Text) (size : ℕ) (inputs : List BinaryTensor)
    (headers : List InputHeader)
    → encode_inputs names size inputs ≡ ok headers
    → decode_outputs
        (request_body json_header inputs)
        (length json_header)
        (map answer_header headers)
      ≡ ok inputs
unfolding encode_inputs decode_outputs
decode_outputs-encode_inputs json names size [] headers h =
    let nothing : headers ≡ [] = ground arith in
    rw (nothing, append-nil json, same_length (length json)) refl
  where
    same_length : (n : ℕ) → (n == n) ≡ true
    same_length n = ground arith
decode_outputs-encode_inputs json names size (t ∷ inputs) headers h =
    elim (Result-cases (validate_binary_tensor t)) [
      | inr (e, p) ↦ absurd (ground arith)
      | inl (u, valid) ↦
          elim (Result-cases (encode_inputs (t.name ∷ names) (size + length t.bytes) inputs)) [
            | inr (e, p) ↦ absurd (ground arith)
            | inl (rest, encoded) ↦
                let are_headers : headers ≡ header_of t ∷ rest = ground arith in
                let small : ltb max_int (length t.bytes) ≡ false = ground arith in
                let (named, some_bytes) = valid-facts t valid in
                subst
                  (λ hs.
                    decode_outputs (request_body json (t ∷ inputs)) (length json)
                      (map answer_header hs)
                    ≡ ok (t ∷ inputs))
                  (sym are_headers)
                  (decode-first json t inputs (map answer_header rest) named some_bytes small valid
                    (decode_outputs-encode_inputs (json ++ t.bytes) (t.name ∷ names)
                      (size + length t.bytes) inputs rest encoded))
          ]
    ]

-- ===== src/Application/Probabilities.antt =====
-- internal/application/classification_result.go and classification_result_decode.go: the probabilities of
-- a run in its result message. An array of the run is a list, read as far as it is long.
use variable_star_classifica.Prelude.{ℕ, List, [], ◌∷◌, Option, none, some, get_elem?}
use variable_star_classifica.Application.Proto.{
  CoarseProbabilities, FineConditionalProbabilities, LeafProbabilities,
}
use variable_star_classifica.Domain.Classification.{Float32}

-- probabilities[i]
abbrev at_index : Option Float32 → Float32
at_index none = 0
at_index (some p) = p

abbrev pub probability : List Float32 → ℕ → Float32
probability ps i = at_index (get_elem? ps i)

abbrev pub map_coarse_probabilities : List Float32 → CoarseProbabilities
map_coarse_probabilities ps = record {
  rotating = probability ps 0;
  cataclysmic = probability ps 1;
  eclipsing_binary = probability ps 2;
  long_period = probability ps 3;
  pulsating = probability ps 4;
  rr_lyrae = probability ps 5;
  supernova = probability ps 6;
}

abbrev pub map_fine_probabilities : List Float32 → FineConditionalProbabilities
map_fine_probabilities ps = record {
  ew_given_eclipsing_binary = probability ps 0;
  ea_given_eclipsing_binary = probability ps 1;
  by_dra_given_rotating = probability ps 2;
  rs_cvn_given_rotating = probability ps 3;
  rrab_given_rr_lyrae = probability ps 4;
  rrc_given_rr_lyrae = probability ps 5;
  sr_given_long_period = probability ps 6;
  mira_given_long_period = probability ps 7;
  dsct_given_pulsating = probability ps 8;
  cep_given_pulsating = probability ps 9;
}

abbrev pub map_leaf_probabilities : List Float32 → LeafProbabilities
map_leaf_probabilities ps = record {
  ew = probability ps 0;
  ea = probability ps 1;
  by_dra = probability ps 2;
  rs_cvn = probability ps 3;
  rrab = probability ps 4;
  rrc = probability ps 5;
  sr = probability ps 6;
  mira = probability ps 7;
  dsct = probability ps 8;
  cep = probability ps 9;
  cataclysmic = probability ps 10;
  supernova = probability ps 11;
}

abbrev pub decode_result_coarse_probabilities : CoarseProbabilities → List Float32
decode_result_coarse_probabilities p =
    p.rotating ∷ p.cataclysmic ∷ p.eclipsing_binary ∷ p.long_period ∷ p.pulsating ∷ p.rr_lyrae
    ∷ p.supernova ∷ []

abbrev pub decode_result_fine_probabilities : FineConditionalProbabilities → List Float32
decode_result_fine_probabilities p =
    p.ew_given_eclipsing_binary ∷ p.ea_given_eclipsing_binary ∷ p.by_dra_given_rotating
    ∷ p.rs_cvn_given_rotating ∷ p.rrab_given_rr_lyrae ∷ p.rrc_given_rr_lyrae
    ∷ p.sr_given_long_period ∷ p.mira_given_long_period ∷ p.dsct_given_pulsating
    ∷ p.cep_given_pulsating ∷ []

abbrev pub decode_result_leaf_probabilities : LeafProbabilities → List Float32
decode_result_leaf_probabilities p =
    p.ew ∷ p.ea ∷ p.by_dra ∷ p.rs_cvn ∷ p.rrab ∷ p.rrc ∷ p.sr ∷ p.mira ∷ p.dsct ∷ p.cep
    ∷ p.cataclysmic ∷ p.supernova ∷ []

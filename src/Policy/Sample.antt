-- ===== src/Policy/Sample.antt =====
-- Text functions for the tests: a text is matched as a whole.
use aigateway.Prelude.{true, false, [], ◌∷◌, str_eq}
use aigateway.Policy.{TextLibrary}

abbrev pub texts : TextLibrary
texts = record {
  nfkc = λ s. s;
  to_lower = λ s. s;
  collapse_spaces = λ s. s;
  trim_space = λ s. s;
  contains = str_eq;
  quoted = λ s. s;
  compiles = λ p. true;
  match_string = str_eq;
  pii_known = λ k. true;
  pii_kinds = "email" ∷ [];
  pii_match = λ k s. false;
  range_order = λ ks. ks;
}

-- ===== src/Json.antt =====
-- The calls of the JSON library (include/json/json.hpp, not modelled) that the program makes, as a
-- parameter over an abstract type of values, and what that library documents of them.
use btrx.Prelude.{
  ℕ, ◌^◌, ◌<◌, ◌≡◌, Bool, true, false, ◌&&◌, ◌⊎◌, Option, none, some, List, [], ◌∷◌, map,
  if◌then◌else◌, ◌==◌, length,
}

pub record Json (J : Type 0) : Type 0 where
  -- The conversions of an unsigned integer, of a text, and of an array or vector of bytes.
  pub of_uint : ℕ → J
  pub of_string : List ℕ → J
  pub of_bytes : List ℕ → J
  -- `json{a, b, ...}`, and `{a, b, ...}` where a value is expected.
  pub init_list : List J → J
  -- `j.at(key)`; `none` is an exception, here and below.
  pub at : J → List ℕ → Option J
  -- `get_to` into an unsigned integer of the width given, a string, a vector of bytes, and an array of
  -- so many bytes.
  pub to_uint : ℕ → J → Option ℕ
  pub to_string : J → Option (List ℕ)
  pub to_bytes : J → Option (List ℕ)
  pub to_array : ℕ → J → Option (List ℕ)
  -- Whether a value is an array of two whose first is a string.
  pub is_pair : J → Bool
  pub to_bson : J → Option (List ℕ)
  pub from_bson : List ℕ → Option J

unfoldable pub key_eq : List ℕ → List ℕ → Bool
key_eq [] [] = true
key_eq [] (d ∷ ds) = false
key_eq (c ∷ cs) [] = false
key_eq (c ∷ cs) (d ∷ ds) = c == d && key_eq cs ds

unfoldable pub find_key {ℓ} : {V : Type ℓ} → List ℕ → List (List ℕ × V) → Option V
unfolding key_eq
find_key k [] = none
find_key k ((j, v) ∷ rest) = if key_eq j k then some v else find_key k rest

module _ {J : Type 0} (jl : Json J) where
  -- `{key, value}`.
  abbrev pub entry : List ℕ × J → J
  entry (k, v) = jl.init_list (jl.of_string k ∷ v ∷ [])

  abbrev pub HasNonPair : List J → Type 0
  HasNonPair [] = ⊥
  HasNonPair (j ∷ js) = (jl.is_pair j ≡ false) ⊎ HasNonPair js

  -- An initializer list of pairs is an object, any other an array, of which `at` with a key throws.
  pub record IsLawful : Type 0 where
    pub at_object :
        (kvs : List (List ℕ × J)) (k : List ℕ)
        → jl.at (jl.init_list (map entry kvs)) k ≡ find_key k kvs
    pub at_array : (js : List J) (k : List ℕ) → HasNonPair js → jl.at (jl.init_list js) k ≡ none
    pub single : (j : J) → jl.is_pair (jl.init_list (j ∷ [])) ≡ false
    pub uint : (w n : ℕ) → n < 2 ^ w → jl.to_uint w (jl.of_uint n) ≡ some n
    pub string : (s : List ℕ) → jl.to_string (jl.of_string s) ≡ some s
    pub bytes : (bs : List ℕ) → jl.to_bytes (jl.of_bytes bs) ≡ some bs
    pub array : (bs : List ℕ) → jl.to_array (length bs) (jl.of_bytes bs) ≡ some bs

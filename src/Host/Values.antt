-- ===== src/Host/Values.antt =====
-- A small JSON library for the examples.
use btrx.Prelude.{
  zero, suc, ◌++◌, ℕ, ◌+◌, ◌^◌, ◌≡◌, refl, Bool, true, false, Option, none, some, List, [], ◌∷◌,
  map, ltb, ◌==◌, if◌then◌else◌, length, arith, inl, inr,
}
use btrx.Json.{Json, find_key, entry, HasNonPair, IsLawful}

mutual
  pub data Value : Type 0 where
    num : ℕ → Value
    str : List ℕ → Value
    bin : List ℕ → Value
    arr : Values → Value

  pub data Values : Type 0 where
    vnil : Values
    vcons : Value → Values → Values

abbrev pub values : List Value → Values
values [] = vnil
values (v ∷ vs) = vcons v (values vs)

-- The key and the value of a pair.
abbrev pub as_pair : Value → Option (List ℕ × Value)
as_pair (arr (vcons (str k) (vcons v vnil))) = some (k, v)
as_pair v = none

abbrev pub is_pair : Value → Bool
is_pair v = elim (as_pair v) [ some _ ↦ true | none ↦ false ]

-- An array of pairs is taken for an object.
abbrev pub pairs : Values → Option (List (List ℕ × Value))
pairs vnil = some []
pairs (vcons v vs) = elim (as_pair v) [
  | none ↦ none
  | some kv ↦ elim (pairs vs) [ some kvs ↦ some (kv ∷ kvs) | none ↦ none ]
]

abbrev pub value_at : Value → List ℕ → Option Value
value_at (arr vs) k = elim (pairs vs) [ some kvs ↦ find_key k kvs | none ↦ none ]
value_at v k = none

abbrev pub as_uint : ℕ → Value → Option ℕ
as_uint w (num n) = if ltb n (2 ^ w) then some n else none
as_uint w v = none

abbrev pub as_string : Value → Option (List ℕ)
as_string (str s) = some s
as_string v = none

abbrev pub as_bytes : Value → Option (List ℕ)
as_bytes (bin bs) = some bs
as_bytes v = none

abbrev pub as_array : ℕ → Value → Option (List ℕ)
as_array n (bin bs) = if length bs == n then some bs else none
as_array n v = none

abbrev pub snoc : Values → Value → Values
snoc vnil w = vcons w vnil
snoc (vcons v vs) w = vcons v (snoc vs w)

abbrev pub append : Values → Values → Values
append vnil ws = ws
append (vcons v vs) ws = vcons v (append vs ws)

-- A value is written out as the steps that build it on a stack: 0 to 3 begin a value, 4 puts the value
-- on top into the array below it, and a larger one, five less,
-- is added to the value on top.
abbrev pub add_number : ℕ → ℕ
add_number n = suc (suc (suc (suc (suc n))))

abbrev pub numbers : List ℕ → List ℕ
numbers [] = []
numbers (n ∷ ns) = add_number n ∷ numbers ns

abbrev mutual
  pub steps : Value → List ℕ
  steps (num n) = 0 ∷ add_number n ∷ []
  steps (str s) = 1 ∷ numbers s
  steps (bin bs) = 2 ∷ numbers bs
  steps (arr vs) = 3 ∷ steps_all vs

  pub steps_all : Values → List ℕ
  steps_all vnil = []
  steps_all (vcons v vs) = steps v ++ 4 ∷ steps_all vs

abbrev pub grow : ℕ → Value → Value
grow n (num m) = num n
grow n (str s) = str (s ++ n ∷ [])
grow n (bin bs) = bin (bs ++ n ∷ [])
grow n (arr vs) = arr vs

abbrev pub put_in : List Value → List Value
put_in (v ∷ arr vs ∷ stack) = arr (snoc vs v) ∷ stack
put_in stack = stack

abbrev pub grow_top : ℕ → List Value → List Value
grow_top n (v ∷ stack) = grow n v ∷ stack
grow_top n [] = []

abbrev pub step : ℕ → List Value → List Value
step zero stack = num 0 ∷ stack
step (suc zero) stack = str [] ∷ stack
step (suc (suc zero)) stack = bin [] ∷ stack
step (suc (suc (suc zero))) stack = arr vnil ∷ stack
step (suc (suc (suc (suc zero)))) stack = put_in stack
step (suc (suc (suc (suc (suc n))))) stack = grow_top n stack

abbrev pub run : List ℕ → List Value → List Value
run [] stack = stack
run (n ∷ ns) stack = run ns (step n stack)

-- The length of a document, and its steps.
abbrev pub document : Value → List ℕ
document v = (length (steps v) + 4) ∷ 0 ∷ 0 ∷ 0 ∷ steps v

abbrev pub top : List Value → Option Value
top [] = none
top (v ∷ stack) = some v

abbrev pub as_document : List ℕ → Option Value
as_document (a ∷ b ∷ c ∷ d ∷ ns) = top (run ns [])
as_document _ = none

abbrev pub small : Json Value
small = record {
  of_uint = num;
  of_string = str;
  of_bytes = bin;
  init_list = λ js. arr (values js);
  at = value_at;
  to_uint = as_uint;
  to_string = as_string;
  to_bytes = as_bytes;
  to_array = as_array;
  is_pair = is_pair;
  to_bson = λ v. some (document v);
  from_bson = as_document;
}

pairs-entries : (kvs : List (List ℕ × Value)) → pairs (values (map (entry small) kvs)) ≡ some kvs
pairs-entries [] = refl
pairs-entries ((k, v) ∷ kvs) = rw (pairs-entries kvs) refl

pairs-none : (js : List Value) → HasNonPair small js → pairs (values js) ≡ none
pairs-none [] h = absurd h
pairs-none (j ∷ js) (inl h) = let e : as_pair j ≡ none = ground arith in rw (pairs, e) refl
pairs-none (j ∷ js) (inr h) = let e = pairs-none js h in ground arith

alone : (j : Value) → is_pair (arr (vcons j vnil)) ≡ false
alone (num n) = refl
alone (str s) = refl
alone (bin bs) = refl
alone (arr vs) = refl

pub small-IsLawful : IsLawful small
small-IsLawful = record {
  at_object = λ kvs k. rw (value_at, pairs-entries kvs) refl;
  at_array = λ js k h. rw (value_at, pairs-none js h) refl;
  single = alone;
  uint = λ w n h. ground arith;
  string = λ s. refl;
  bytes = λ bs. refl;
  array = λ bs. ground arith;
}

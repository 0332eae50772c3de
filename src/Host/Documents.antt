-- ===== src/Host/Documents.antt =====
-- The small JSON library of the examples reads its documents back.
use mathlib.Core.List.{append-nil, append_assoc}
use mathlib.Core.Option.{some_inj}
use btrx.Prelude.{
  ℕ, ◌<◌, ◌≡◌, refl, ◌∙◌, sym, ap, subst, some, List, [], ◌∷◌, ◌++◌, length, take, arith,
}
use btrx.Handler.{word_of}
use btrx.Handler.Loop.Framing.{IsBson}
use btrx.Host.Values.{
  Value, num, str, bin, arr, Values, vnil, vcons, small, snoc, append, numbers, steps, steps_all,
  run, top,
}

run-numbers_str :
    (s t rest : List ℕ) (stack : List Value)
    → run (numbers s ++ rest) (str t ∷ stack) ≡ run rest (str (t ++ s) ∷ stack)
run-numbers_str [] t rest stack = rw (append-nil t) refl
run-numbers_str (n ∷ s) t rest stack =
    run-numbers_str s (t ++ n ∷ []) rest stack
    ∙ ap (λ u. run rest (str u ∷ stack)) (append_assoc t (n ∷ []) s)

run-numbers_bin :
    (s t rest : List ℕ) (stack : List Value)
    → run (numbers s ++ rest) (bin t ∷ stack) ≡ run rest (bin (t ++ s) ∷ stack)
run-numbers_bin [] t rest stack = rw (append-nil t) refl
run-numbers_bin (n ∷ s) t rest stack =
    run-numbers_bin s (t ++ n ∷ []) rest stack
    ∙ ap (λ u. run rest (bin u ∷ stack)) (append_assoc t (n ∷ []) s)

append-vnil : (vs : Values) → append vs vnil ≡ vs
append-vnil vnil = refl
append-vnil (vcons v vs) = ap (vcons v) (append-vnil vs)

append-snoc : (vs ws : Values) (v : Value) → append (snoc vs v) ws ≡ append vs (vcons v ws)
append-snoc vnil ws v = refl
append-snoc (vcons u vs) ws v = ap (vcons u) (append-snoc vs ws v)

-- The steps build the value on top of the stack.
mutual
  run-steps :
      (v : Value) (rest : List ℕ) (stack : List Value)
      → run (steps v ++ rest) stack ≡ run rest (v ∷ stack)
  run-steps (num n) rest stack = refl
  run-steps (str s) rest stack = run-numbers_str s [] rest stack
  run-steps (bin bs) rest stack = run-numbers_bin bs [] rest stack
  run-steps (arr vs) rest stack = run-steps_all vs vnil rest stack

  run-steps_all :
      (vs us : Values) (rest : List ℕ) (stack : List Value)
      → run (steps_all vs ++ rest) (arr us ∷ stack) ≡ run rest (arr (append us vs) ∷ stack)
  run-steps_all vnil us rest stack = rw (append-vnil us) refl
  run-steps_all (vcons v vs) us rest stack =
      ap (λ ns. run ns (arr us ∷ stack)) (append_assoc (steps v) (4 ∷ steps_all vs) rest)
      ∙ run-steps v (4 ∷ (steps_all vs ++ rest)) (arr us ∷ stack)
      ∙ run-steps_all vs (snoc us v) rest stack
      ∙ ap (λ ws. run rest (arr ws ∷ stack)) (append-snoc us vs v)

steps_ne : (v : Value) → 0 < length (steps v)
steps_ne (num n) = omega arith
steps_ne (str s) = omega arith
steps_ne (bin bs) = omega arith
steps_ne (arr vs) = omega arith

pub small-IsBson : IsBson small
small-IsBson = record {
  longer = λ v bs e. subst (λ bs. 4 < length bs) (some_inj.0 e) (omega (arith, steps_ne v));
  sized = λ v bs e. subst (λ bs. word_of (take 4 bs) ≡ length bs) (some_inj.0 e) (omega arith);
  read = λ v bs e.
      subst (λ bs. small.from_bson bs ≡ some v) (some_inj.0 e)
        (ap (λ ns. top (run ns [])) (sym (append-nil (steps v))) ∙ ap top (run-steps v [] []));
}

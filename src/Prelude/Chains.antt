-- ===== src/Prelude/Chains.antt =====
-- Chains of steps of a relation.

pub data Chain {ℓ κ} {A : Type ℓ} (R : A → A → Type κ) (a : A) : A → Type (ℓ ⊔ κ) where
  stays : Chain R a a
  next : {b c : A} → Chain R a b → R b c → Chain R a c

module _ {ℓ κ} {A : Type ℓ} {R : A → A → Type κ} where
  pub one : {a b : A} → R a b → Chain R a b
  one r = next stays r

  pub chain_trans : {a b c : A} → Chain R a b → Chain R b c → Chain R a c
  chain_trans r stays = r
  chain_trans r (next s t) = next (chain_trans r s) t

  -- What every step keeps, a chain keeps.
  pub chain_keeps {μ} :
      (P : A → Type μ) → ((a b : A) → R a b → P a → P b) → {a b : A} → Chain R a b → P a → P b
  chain_keeps P keeps stays p = p
  chain_keeps P keeps (next r s) p = keeps _ _ s (chain_keeps P keeps r p)

-- Steps that one relation takes in one part of a state.
pub chain_map {ℓ κ μ ν} :
    {A : Type ℓ} {B : Type μ} {R : A → A → Type κ} {Q : B → B → Type ν} (f : A → B)
    → ((a b : A) → R a b → Q (f a) (f b))
    → {a b : A} → Chain R a b
    → Chain Q (f a) (f b)
chain_map f step stays = stays
chain_map f step (next r s) = next (chain_map f step r) (step _ _ s)

-- ===== src/ObjStore/Steps.antt =====
-- What one call does to the store of objstore/objstore.cpp, and its operations as chains of such calls.
-- A call of the field or of the cache is one step.
use btrx.Prelude.{
  stays, true, ◌==◌, if◌then◌else◌, undefined, length, ltb, none, ℕ, ◌≡◌, refl, Bool, some, List,
  ok, defined, ok_of_bind, ok_injective, subst, Bool-cases, inl, inr, Chain, next, one, arith,
  defined-some,
}
use btrx.Rwlock.{Rwlocks}
use btrx.Files.{Files}
use btrx.Bfield
use btrx.Bfield.{Bfield}
use btrx.Bfield.Steps.{FieldStep, looks, flips, Grows, Grows-refl, Grows-trans, Grows-FieldStep}
use btrx.Cache
use btrx.Cache.{Cache}
use btrx.Cache.Reachable as Life
use btrx.ObjStore.{ObjStore, add_piece, get_piece, exists, bfield_init, head_command}
use btrx.Cache.Capacity.{Fits}

module _ {L F : Type 0} (pt : Rwlocks L) where
  -- One call that returns.
  pub data StoreStep : ObjStore L F → ObjStore L F → Type 0 where
    fields :
        (o : ObjStore L F) (b b' : Bfield L)
        → o.bfield ≡ some b
        → FieldStep pt b b'
        → StoreStep o (record o { bfield = some b' })
    caches :
        (o : ObjStore L F) (c : Cache L F)
        → Life.Step pt o.cache c
        → StoreStep o (record o { cache = c })
    -- The field is made once.
    makes :
        (o : ObjStore L F) (junk : L) (hasfile : Bool) (b : Bfield L)
        → o.bfield ≡ none
        → Bfield.create_bfield pt junk hasfile true o.npcs ≡ ok b
        → StoreStep o (record o { bfield = some b })

  abbrev pub Leads : ObjStore L F → ObjStore L F → Type 0
  Leads o o' = Chain StoreStep o o'

module _ {L F : Type 0} (pt : Rwlocks L) (fs : Files F) where
  looks-Leads :
      (o : ObjStore L F) (field field' : Bfield L) (pcno : ℕ) (there : Bool)
      → defined o.bfield ≡ ok field
      → Bfield.exists pt field pcno ≡ ok (field', there)
      → Leads pt o (record o { bfield = some field' })
  looks-Leads o field field' pcno there at e =
      one (fields o field field' (defined-some o.bfield at) (looks field field' pcno there e))

  pub add_piece-Leads :
      (o : ObjStore L F) (pcno : ℕ) (bytes junk : List ℕ) {r : ObjStore L F × ℕ}
      → add_piece pt fs o pcno bytes junk ≡ ok r
      → Leads pt o r.0
  unfolding add_piece
  add_piece-Leads o pcno bytes junk {r} e =
      let (field, at, rest) = ok_of_bind (defined o.bfield) _ e in
      let ((field', there), looked, rest1) = ok_of_bind (Bfield.exists pt field pcno) _ rest in
      let first = looks-Leads o field field' pcno there at looked in
      let o1 = record o { bfield = some field' } in
      elim (Bool-cases there) [
        | inl old ↦
            let same : ok (o1, 0) ≡ ok r = ground (arith, old, rest1) in
            subst (λ (r : ObjStore L F × ℕ). Leads pt o r.0) (ok_injective same) first
        | inr new ↦
            let rest2 = rw new at rest1 in
            let (cache, stored, rest3) =
              ok_of_bind (Cache.put pt fs o.cache pcno bytes junk) _ rest2 in
            let (field'', flipped, rest4) = ok_of_bind (Bfield.flip pt field' pcno) _ rest3 in
            let o2 = record o1 { cache = cache } in
            let second =
              next first (caches o1 cache (Life.puts o.cache cache fs pcno bytes junk stored)) in
            subst (λ (r : ObjStore L F × ℕ). Leads pt o r.0) (ok_injective rest4)
              (next second (fields o2 field' field'' refl (flips field' field'' pcno flipped)))
      ]

  pub get_piece-Leads :
      (o : ObjStore L F) (pcno : ℕ) (buf junk : List ℕ) {r : ObjStore L F × ℕ × List ℕ}
      → get_piece pt fs o pcno buf junk ≡ ok r
      → Leads pt o r.0
  unfolding get_piece
  get_piece-Leads o pcno buf junk {r} e =
      let (field, at, rest) = ok_of_bind (defined o.bfield) _ e in
      let ((field', there), looked, rest1) = ok_of_bind (Bfield.exists pt field pcno) _ rest in
      let first = looks-Leads o field field' pcno there at looked in
      let o1 = record o { bfield = some field' } in
      elim (Bool-cases there) [
        | inl old ↦
            let rest2 = rw old at rest1 in
            let ((cache, buf'), read, rest3) =
              ok_of_bind (Cache.get pt fs o.cache pcno junk) _ rest2 in
            subst (λ (r : ObjStore L F × ℕ × List ℕ). Leads pt o r.0) (ok_injective rest3)
              (next first (caches o1 cache (Life.gets o.cache cache fs pcno buf' junk read)))
        | inr new ↦
            let same : ok (o1, 0, buf) ≡ ok r = ground (arith, new, rest1) in
            subst (λ (r : ObjStore L F × ℕ × List ℕ). Leads pt o r.0) (ok_injective same) first
      ]

  pub exists-Leads :
      (o : ObjStore L F) (pcno : ℕ) {r : ObjStore L F × Bool}
      → exists pt fs o pcno ≡ ok r
      → Leads pt o r.0
  unfolding exists
  exists-Leads o pcno e =
      let ((cache, ret), looked, rest) = ok_of_bind (Cache.exists pt fs o.cache pcno) _ e in
      subst (λ (r : ObjStore L F × Bool). Leads pt o r.0) (ok_injective rest)
        (one (caches o cache (Life.looks o.cache cache fs pcno ret looked)))

module _ {L F : Type 0} (pt : Rwlocks L) (fs : Files F) (system : List ℕ → Files F → Files F)
    (junk : L) where
  pub bfield_init-Leads :
      (o : ObjStore L F) (hasfile : Bool) {o' : ObjStore L F}
      → o.bfield ≡ none
      → bfield_init pt fs system junk o hasfile ≡ ok o'
      → Leads pt o o'
  unfolding bfield_init
  bfield_init-Leads o hasfile {o'} null e =
      let (field, made, rest) = ok_of_bind (Bfield.create_bfield pt junk hasfile true o.npcs) _ e in
      let cmd = head_command o.fsz o.fname in
      let (fs', _, rest1) =
        ok_of_bind
          (if hasfile
            then ok fs
            else (if ltb (length cmd) 512 then ok (system cmd fs) else undefined))
          _ rest in
      let (cache, opened) = Cache.file_open pt fs' o.cache o.fname in
      let o1 = record o { bfield = some field } in
      let last : Leads pt o (record o1 { cache = cache }) =
        next (one (makes o junk hasfile field null made))
          (caches o1 cache (Life.opens o.cache fs' o.fname)) in
      elim (Bool-cases (opened == 0)) [
        | inl failed ↦ absurd (ground (arith, failed, rest1))
        | inr there ↦
            let same : ok (record o1 { cache = cache }) ≡ ok o' = ground (arith, there, rest1) in
            subst (Leads pt o) (ok_injective same) last
      ]

-- What the store keeps: room in its cache, and a field, once it is made, with all that it held.
pub record Retains {L F : Type 0} (o o' : ObjStore L F) : Type 0 where
  pub fits : (n : ℕ) → Fits n o.cache → Fits n o'.cache
  pub held :
      (b : Bfield L)
      → o.bfield ≡ some b
      → (b' : Bfield L) × (o'.bfield ≡ some b') × Grows b.bfield b'.bfield

module _ {L F : Type 0} where
  pub Retains-trans : {a b c : ObjStore L F} → Retains a b → Retains b c → Retains a c
  Retains-trans f g = record {
    fits = λ n h. g.fits n (f.fits n h);
    held = λ b at.
        let (b1, at1, grown) = f.held b at in
        let (b2, at2, grown') = g.held b1 at1 in (b2, at2, Grows-trans grown grown');
  }

module _ {L F : Type 0} (pt : Rwlocks L) where
  Retains-StoreStep : {o o' : ObjStore L F} → StoreStep pt o o' → Retains o o'
  Retains-StoreStep (fields o b b' at step) = record {
    fits = λ n h. h;
    held = λ x there.
        let same : b ≡ x = ground (arith, at, there) in
        (
          b',
          refl,
          subst (λ (t : Bfield L). Grows t.bfield b'.bfield) same (Grows-FieldStep pt step),
        );
  }
  Retains-StoreStep (caches o c step) = record {
    fits = λ n h. Life.Fits-Step pt step h;
    held = λ x there. (x, there, Grows-refl x.bfield);
  }
  Retains-StoreStep (makes o junk hasfile b null made) = record {
    fits = λ n h. h;
    held = λ x there. absurd (ground (arith, null, there));
  }

  pub Retains-Leads : {o o' : ObjStore L F} → Leads pt o o' → Retains o o'
  Retains-Leads {o} stays = record { fits = λ n h. h; held = λ b at. (b, at, Grows-refl b.bfield) }
  Retains-Leads (next r step) = Retains-trans (Retains-Leads r) (Retains-StoreStep step)

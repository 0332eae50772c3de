-- ===== src/Cache/Reachable.antt =====
-- The life of a cache of objstore/cache.cpp, as a sequence of calls that return.
use btrx.Prelude.{
  ℕ, ◌/◌, ◌≤◌, ◌<◌, ◌≡◌, subst, Bool, List, ok, ◌==◌, length, arith, Option-cases, Bool-cases, inl,
  inr, ok_of_bind, ok_injective,
}
use native.Mathlib.Nat.{div-add-mod', mod-lt}
use btrx.Rwlock.{Rwlocks}
use btrx.Files.{Files}
use btrx.Cache.{cachesz, Cache, create_cache, rd_lock, un_lock, file_open, get, put, exists}
use btrx.Cache.Capacity.{Fits, Fits-put, Fits-get, Fits-rd_lock, Fits-un_lock}

quotient_pos : (a b : ℕ) → 0 < b → b ≤ a → 0 < a / b
quotient_pos a b pos h =
    let whole = div-add-mod' a b in
    let below = mod-lt a {m = b} pos in
    elim (Bool-cases (a / b == 0)) [
      | inl none_whole ↦ absurd (grind arith)
      | inr some_whole ↦ ground (arith, some_whole)
    ]

module _ {L F : Type 0} (pt : Rwlocks L) where
  -- One call.
  pub data Step : Cache L F → Cache L F → Type 0 where
    puts :
        (c c' : Cache L F) (fs : Files F) (pcno : ℕ) (piece junk : List ℕ)
        → put pt fs c pcno piece junk ≡ ok c'
        → Step c c'
    gets :
        (c c' : Cache L F) (fs : Files F) (pcno : ℕ) (buf junk : List ℕ)
        → get pt fs c pcno junk ≡ ok (c', buf)
        → Step c c'
    opens : (c : Cache L F) (fs : Files F) (fname : List ℕ) → Step c (file_open pt fs c fname).0
    looks :
        (c c' : Cache L F) (fs : Files F) (pcno : ℕ) (ret : Bool)
        → exists pt fs c pcno ≡ ok (c', ret)
        → Step c c'

  pub data Reach (c : Cache L F) : Cache L F → Type 0 where
    start : Reach c c
    next : {c1 c2 : Cache L F} → Reach c c1 → Step c1 c2 → Reach c c2

  Fits-file_open :
      {n : ℕ} (c : Cache L F) (fs : Files F) (fname : List ℕ)
      → Fits n c
      → Fits n (file_open pt fs c fname).0
  unfolding file_open
  Fits-file_open c fs fname fits = elim (Option-cases (fs.open_rdwr fname)) [
    | inl none_there ↦ rw (file_open, none_there) fits
    | inr (fd, there) ↦ rw (file_open, there) fits
  ]

  Fits-exists :
      {n : ℕ} (c : Cache L F) (fs : Files F) (pcno : ℕ) {r : Cache L F × Bool}
      → Fits n c
      → exists pt fs c pcno ≡ ok r
      → Fits n r.0
  unfolding exists
  Fits-exists {n} c fs pcno fits e =
      let (c1, read, rest) = ok_of_bind (rd_lock pt fs c) _ e in
      let (c2, unlocked, rest1) = ok_of_bind (un_lock pt fs c1) _ rest in
      subst (λ r. Fits n r.0) (ok_injective rest1)
        (Fits-un_lock pt fs c1 c2 (Fits-rd_lock pt fs c c1 fits read) unlocked)

  pub Fits-Step : {n : ℕ} {c c' : Cache L F} → Step c c' → Fits n c → Fits n c'
  Fits-Step (puts c c' fs pcno piece junk e) fits = Fits-put pt fs c c' pcno piece junk fits e
  Fits-Step (gets c c' fs pcno buf junk e) fits = Fits-get pt fs c pcno junk {r = (c', buf)} fits e
  Fits-Step (opens c fs fname) fits = Fits-file_open c fs fname fits
  Fits-Step (looks c c' fs pcno ret e) fits = Fits-exists c fs pcno {r = (c', ret)} fits e

  Fits-Reach : {n : ℕ} {c c' : Cache L F} → Fits n c → Reach c c' → Fits n c'
  Fits-Reach fits start = fits
  Fits-Reach fits (next r step) = Fits-Step step (Fits-Reach fits r)

  pub create_cache-Fits :
      (fs : Files F) (junk : F) (pcsz npcs : ℕ) {c : Cache L F}
      → npcs ≤ cachesz
      → create_cache pt fs junk pcsz npcs ≡ ok c
      → Fits (cachesz / npcs) c
  unfolding create_cache
  create_cache-Fits fs junk pcsz npcs h e = elim (Bool-cases (npcs == 0)) [
    | inl no_pieces ↦ absurd (ground (arith, e, no_pieces))
    | inr some_pieces ↦
        let pos : 0 < cachesz / npcs = quotient_pos cachesz npcs (ground (arith, some_pieces)) h in
        elim (Bool-cases ((pt.init pt.initializer).0 == 0)) [
          | inl done ↦
              (pos, ground (arith, e, some_pieces, done), ground (arith, e, some_pieces, done))
          | inr failed ↦ absurd (ground (arith, e, some_pieces, failed))
        ]
  ]

  -- A cache that was made for at least one piece and for no more of them than `cachesz` never holds
  -- more than `cachesz` entries over the number of pieces, after any sequence of calls that return,
  -- whatever the locks and the files do; the size of a piece has no part in it.
  reachable-Fits :
      (fs : Files F) (junk : F) (pcsz npcs : ℕ) {c c' : Cache L F}
      → npcs ≤ cachesz
      → create_cache pt fs junk pcsz npcs ≡ ok c
      → Reach c c'
      → length c'.cvec ≤ cachesz / npcs
  reachable-Fits fs junk pcsz npcs h e r =
      (Fits-Reach (create_cache-Fits fs junk pcsz npcs h e) r).2

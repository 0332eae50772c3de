-- ===== src/NbrMap/Timers.antt =====
-- The two threads that a map starts, and its destructor, which waits for them (nbrmap/nbrmap.cpp).
-- `others n` is what the other threads make of the map during the n-th sleep.
mod Examples
pub mod Idle
pub mod Finish
use btrx.Prelude.{
  ℕ, zero, suc, ◌+◌, Bool, true, false, ◌&&◌, Option, none, some, List, [], ◌∷◌, Outcome, ok, exits,
  throws, undefined, ◌>>=◌, if◌then◌else◌,
}
use btrx.Rwlock.{Rwlocks, checked}
use btrx.Mutex.{Mutexes}
use btrx.Bfield
use btrx.NbrMap.{Handler, NbrMap, opt_unchoke, select_unchoked}

module _ {L M : Type 0} (others : ℕ → NbrMap L M → NbrMap L M) where
  -- The map when the thread ends; `none` means that it has not ended after so many rounds, or that
  -- a call of `opt_unchoke` has not after `turns` draws, of which the n-th call makes `draws n`.
  pub opt_unchoke_handler : ℕ → ℕ → (ℕ → ℕ → ℕ) → ℕ → NbrMap L M → Option (Outcome (NbrMap L M))
  opt_unchoke_handler zero turns draws n m = none
  opt_unchoke_handler (suc rounds) turns draws n m =
      elim (opt_unchoke turns (draws n) (others n m)) [
        | none ↦ none
        | some r ↦ elim r [
          | ok (m', go_on) ↦ elim go_on [
            | true ↦ opt_unchoke_handler rounds turns draws (n + 1) m'
            | false ↦ some (ok m')
          ]
          | exits k ↦ some (exits k)
          | throws ↦ some throws
          | undefined ↦ some undefined
        ]
      ]

  pub unchoke_handler : ℕ → ℕ → ℕ → NbrMap L M → Option (Outcome (NbrMap L M))
  unchoke_handler zero n_pref_peers n m = none
  unchoke_handler (suc rounds) n_pref_peers n m = elim (select_unchoked n_pref_peers (others n m)) [
    | ok (m', go_on) ↦ elim go_on [
      | true ↦ unchoke_handler rounds n_pref_peers (n + 1) m'
      | false ↦ some (ok m')
    ]
    | exits k ↦ some (exits k)
    | throws ↦ some throws
    | undefined ↦ some undefined
  ]

-- Whether every `join` returns: `ends` tells which threads end.
pub join_all : (Handler → Bool) → List Handler → Bool
join_all ends [] = true
join_all ends (thr ∷ handlers) = ends thr && join_all ends handlers

-- The destructor, with that of the field behind it; `none` where it waits for ever.
unfoldable pub destroy :
    {L M : Type 0}
    → Rwlocks L
    → Mutexes M
    → (Handler → Bool)
    → NbrMap L M
    → Option (Outcome (NbrMap L M))
unfolding join_all
destroy pt mx ends m =
    let closing = (do
      mut ← checked (mx.destroy m.mut)
      field ← Bfield.destroy pt m.bfield
      ok (record m { mut = mut; bfield = field })) in
    if join_all ends m.handlers then some closing else none

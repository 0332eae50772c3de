-- ===== src/NbrMap/Registry.antt =====
-- `register_cli` of nbrmap/nbrmap.cpp and the look-up of a neighbour: the registry stays
-- well-formed, and a known peer has a neighbour.
use btrx.Prelude.{
  subst, ok_injective, ok_of_bind, ℕ, suc, ◌+◌, ◌-◌, ◌%◌, ◌^◌, ◌<◌, ◌≡◌, ◌≢◌, refl, false, Option,
  none, some, List, [], ◌∷◌, ◌++◌, ok, undefined, ◌==◌, get_elem?, get_or, length, arith,
  Bool-cases, Option-cases, inl, inr, ◌⊎◌, get_elem?_of_lt, length-append, get_elem?-append_length,
  ==_self,
}
use btrx.Prelude.Assoc.{find, insert, find-insert}
use btrx.Rwlock.{checked}
use btrx.Mutex.{Mutexes, IsOpen}
use btrx.NbrMap.{Nbr, NbrMap, neighbour, subscript, register_cli}

-- Every peer has an entry, and every entry points to a neighbour.
abbrev pub AllKnown : List (ℕ × Option ℕ) → List ℕ → Type 0
AllKnown info [] = Unit {0}
AllKnown info (k ∷ ks) = (find k info ≢ none) × AllKnown info ks

abbrev pub AllPoint : ℕ → List (ℕ × Option ℕ) → Type 0
AllPoint n [] = Unit {0}
AllPoint n ((_, ptr) ∷ info) = ((p : ℕ) × (ptr ≡ some p) × (p < n)) × AllPoint n info

pub record IsValid {L M : Type 0} (m : NbrMap L M) : Type 0 where
  pub known : AllKnown m.peerinfo m.peers
  pub entries : AllPoint (length m.heap) m.peerinfo

pub AllKnown-insert :
    (info : List (ℕ × Option ℕ)) (k : ℕ) (ptr : Option ℕ) (ks : List ℕ)
    → AllKnown info ks
    → AllKnown (insert k ptr info) (ks ++ k ∷ [])
AllKnown-insert info k ptr [] all = (λ e. ground (arith, find-insert k k ptr info, ==_self k), tt)
AllKnown-insert info k ptr (j ∷ ks) all =
    (λ e. all.0 (ground (arith, find-insert j k ptr info)), AllKnown-insert info k ptr ks all.1)

AllPoint-suc : (n : ℕ) (info : List (ℕ × Option ℕ)) → AllPoint n info → AllPoint (suc n) info
AllPoint-suc n [] all = tt
AllPoint-suc n ((j, v) ∷ info) all =
    let (p, at, below) = all.0 in ((p, at, omega arith), AllPoint-suc n info all.1)

pub AllPoint-insert :
    (n k p : ℕ) (info : List (ℕ × Option ℕ))
    → AllPoint n info
    → p < suc n
    → AllPoint (suc n) (insert k (some p) info)
unfolding insert
AllPoint-insert n k p [] all h = ((p, refl, h), tt)
AllPoint-insert n k p ((j, v) ∷ info) all h =
    let (p', at, below) = all.0 in
    elim (Bool-cases (j == k)) [
      | inl here ↦ rw here ((p', at, omega arith), AllPoint-suc n info all.1)
      | inr there ↦ rw there ((p', at, omega arith), AllPoint-insert n k p info all.1 h)
    ]

AllPoint-find :
    (n k : ℕ) (ptr : Option ℕ) (info : List (ℕ × Option ℕ))
    → AllPoint n info
    → find k info ≡ some ptr
    → (p : ℕ) × (ptr ≡ some p) × (p < n)
unfolding find
AllPoint-find n k ptr [] all e = cc
AllPoint-find n k ptr ((j, v) ∷ info) all e = elim (Bool-cases (j == k)) [
  | inl here ↦ let (p, at, below) = all.0 in (p, ground arith, below)
  | inr there ↦ AllPoint-find n k ptr info all.1 (ground arith)
]

-- What `register_cli` allocates.
abbrev pub fresh : Nbr
fresh = record { choked = false; done = false; interested = false; requests = 0 }

module _ {L M : Type 0} (mx : Mutexes M) (m : NbrMap L M) where
  -- With an unlocked mutex, registering a peer returns and keeps the registry well-formed; its neighbour is new, neither choked nor done.
  register_cli-IsValid :
      (peerid : ℕ)
      → IsOpen mx m.mut
      → IsValid m
      → (m' : NbrMap L M) × (ptr : ℕ) × (register_cli mx m peerid ≡ ok (m', ptr))
        × IsValid m'
        × (get_elem? m'.heap ptr ≡ some fresh)
  unfolding register_cli
  register_cli-IsValid peerid open_mut v = (
    record m {
      heap = m.heap ++ fresh ∷ [];
      peers = m.peers ++ peerid ∷ [];
      peerinfo = insert peerid (some (length m.heap)) m.peerinfo;
      npeers = (m.npeers + 2 ^ 32 - 1) % 2 ^ 32;
    },
    length m.heap,
    rw (open_mut.lock_ok, open_mut.unlock_ok) refl,
    record {
      known = AllKnown-insert m.peerinfo peerid (some (length m.heap)) m.peers v.known;
      entries = rw (grown) (
          AllPoint-insert (length m.heap) peerid (length m.heap) m.peerinfo v.entries
            (omega arith));
    },
    get_elem?-append_length m.heap [] fresh,
  )
    where
      grown : length (m.heap ++ fresh ∷ []) ≡ suc (length m.heap)
      grown = omega (arith, length-append m.heap (fresh ∷ []))

-- Where a registration returns, the pointer is to a new neighbour.
pub register_cli-fresh :
    {L M : Type 0} (mx : Mutexes M) (m : NbrMap L M) (peerid p : ℕ) {m' : NbrMap L M}
    → register_cli mx m peerid ≡ ok (m', p)
    → get_elem? m'.heap p ≡ some fresh
unfolding register_cli
register_cli-fresh mx m peerid p e =
    let (l, _, rest) = ok_of_bind (checked (mx.lock m.mut)) _ e in
    let (u, _, rest1) = ok_of_bind (checked (mx.unlock l)) _ rest in
    subst (λ (r : NbrMap _ _ × ℕ). get_elem? r.0.heap r.1 ≡ some fresh) (ok_injective rest1)
      (get_elem?-append_length m.heap [] fresh)

-- A peer that is known has a neighbour.
module _ {L M : Type 0} (m : NbrMap L M) where
  pub neighbour_known :
      (k : ℕ)
      → IsValid m
      → find k m.peerinfo ≢ none
      → (p : ℕ) × (nbr : Nbr) × (get_elem? m.heap p ≡ some nbr) × (neighbour m k ≡ ok (m, p, nbr))
  unfolding neighbour subscript
  neighbour_known k v known = elim (Option-cases (find k m.peerinfo)) [
    | inl missing ↦ absurd (known missing)
    | inr (ptr, e) ↦
        let (p, at, below) = AllPoint-find (length m.heap) k ptr m.peerinfo v.entries e in
        let there = get_elem?_of_lt m.heap p fresh below in
        (p, get_or m.heap p fresh, there, rw (e, neighbour, subscript, at, there))
  ]

  -- A look-up leaves the neighbours alone, and is undefined where there is none to find.
  pub neighbour_cases :
      (k : ℕ)
      → ((m' : NbrMap L M) × (p : ℕ) × (nbr : Nbr) × (neighbour m k ≡ ok (m', p, nbr))
          × (m'.heap ≡ m.heap)
          × (m'.peers ≡ m.peers)
          × (get_elem? m.heap p ≡ some nbr))
        ⊎ (neighbour m k ≡ undefined)
  unfolding neighbour
  neighbour_cases k = elim (Option-cases (subscript k m.peerinfo).1) [
    | inl null ↦ inr (rw null)
    | inr (p, found) ↦ elim (Option-cases (get_elem? m.heap p)) [
      | inl dangling ↦ inr (rw (found, dangling))
      | inr (nbr, there) ↦ inl (
        record m { peerinfo = (subscript k m.peerinfo).0 },
        p,
        nbr,
        rw (found, there),
        refl,
        refl,
        there,
      )
    ]
  ]

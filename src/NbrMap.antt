-- ===== src/NbrMap.antt =====
-- nbrmap/nbrmap.cpp and include/nbrmap/nbrmap.h: the neighbours of a node, who of them is choked,
-- and which pieces some connection has already asked for.
-- A pointer to a `Nbr` is its place in `heap`, which is never freed; `none` is the null pointer.
pub mod Claims
mod Examples
pub mod Registry
pub mod Unchoking
pub mod Choking
pub mod OptUnchoking
pub mod Timers
pub mod Ranking
pub mod Earmark
pub mod Interleaved
pub mod Steps
use btrx.Prelude.{
  ℕ, zero, suc, ◌+◌, ◌-◌, ◌%◌, ◌^◌, bit_and, bit_xor, Bool, true, false, not, ◌&&◌, Option, none,
  some, List, [], ◌∷◌, ◌++◌, Outcome, ok, undefined, ◌>>=◌, defined, ◌==◌, ltb, if◌then◌else◌,
  get_elem?, set, length,
}
use btrx.Prelude.Assoc.{find, insert}
use btrx.Prelude.Bits.{bit_mask}
use btrx.Rwlock.{Rwlocks, checked}
use btrx.Mutex.{Mutexes}
use btrx.Bfield
use btrx.Bfield.{Bfield}

pub record Nbr : Type 0 where
  pub choked : Bool
  pub done : Bool
  pub interested : Bool
  pub requests : ℕ

-- The two threads that the constructor starts.
pub data Handler : Type 0 where
  opt_unchoking : ℕ → Handler
  unchoking : ℕ → ℕ → Handler

pub record NbrMap (L M : Type 0) : Type 0 where
  pub mut : M
  pub npeers : ℕ
  pub peers : List ℕ
  pub peerinfo : List (ℕ × Option ℕ)
  pub handlers : List Handler
  pub bfield : Bfield L
  pub heap : List Nbr

-- `peerinfo[k]`: a missing key is entered with the null pointer.
pub subscript : ℕ → List (ℕ × Option ℕ) → List (ℕ × Option ℕ) × Option ℕ
unfolding find insert
subscript k info = elim (find k info) [ some ptr ↦ (info, ptr) | none ↦ (insert k none info, none) ]

-- `map<uint32_t, Nbr *, greater<uint32_t>>::insert`: keys fall, and a key that is there stays.
pub insert_desc : ℕ → ℕ → List (ℕ × ℕ) → List (ℕ × ℕ)
insert_desc k ptr [] = (k, ptr) ∷ []
insert_desc k ptr ((j, p) ∷ rest) =
    if j == k
    then (j, p) ∷ rest
    else (if ltb j k then (k, ptr) ∷ (j, p) ∷ rest else (j, p) ∷ insert_desc k ptr rest)

module _ {L M : Type 0} where
  -- `*this->peerinfo[k]`.
  pub neighbour : NbrMap L M → ℕ → Outcome (NbrMap L M × ℕ × Nbr)
  unfolding subscript
  neighbour m k = do
    let (info, ptr) = subscript k m.peerinfo
    p ← defined ptr
    nbr ← defined (get_elem? m.heap p)
    ok (record m { peerinfo = info }, p, nbr)

  -- The loop of `opt_unchoke`: `draw n` is what the n-th call of `rand` returns, and `none` means
  -- that the loop has not ended after so many rounds.
  pub opt_unchoke_loop : ℕ → (ℕ → ℕ) → ℕ → NbrMap L M → Option (Outcome (NbrMap L M × Bool))
  unfolding neighbour
  opt_unchoke_loop zero draw n m = none
  opt_unchoke_loop (suc rounds) draw n m = elim (length m.peers == 0) [
    | true ↦ some undefined
    | false ↦ elim (neighbour m (draw n % length m.peers)) [
      | ok (m', p, nbr) ↦ elim (nbr.choked && nbr.interested && not nbr.done) [
        | true ↦
            some (ok (record m' { heap = set m'.heap p (record nbr { choked = false }) }, true))
        | false ↦ opt_unchoke_loop rounds draw (n + 1) m'
      ]
      | _ ↦ some undefined
    ]
  ]

  pub opt_unchoke : ℕ → (ℕ → ℕ) → NbrMap L M → Option (Outcome (NbrMap L M × Bool))
  unfolding opt_unchoke_loop
  opt_unchoke rounds draw m =
      if not (m.npeers == 0) then some (ok (m, true)) else opt_unchoke_loop rounds draw 0 m

  -- The first loop of `select_unchoked`.
  pub collect : NbrMap L M → List ℕ → List (ℕ × ℕ) → Outcome (NbrMap L M × List (ℕ × ℕ))
  unfolding neighbour insert_desc
  collect m [] requests = ok (m, requests)
  collect m (peer ∷ peers) requests = do
    (m', p, nbr) ← neighbour m peer
    collect m' peers (if not nbr.done then insert_desc nbr.requests p requests else requests)

-- The test of the second loop of `select_unchoked`.
pub is_waiting : Nbr → Bool
is_waiting nbr = nbr.choked && nbr.interested

-- The second loop of `select_unchoked`; `j` counts the neighbours that it has unchoked.
pub unchoke_loop : ℕ → List (ℕ × ℕ) → ℕ → List Nbr → Outcome (List Nbr)
unfolding is_waiting
unchoke_loop n_pref [] j heap = ok heap
unchoke_loop n_pref ((_, p) ∷ requests) j heap = do
  nbr ← defined (get_elem? heap p)
  let hit = is_waiting nbr
  let heap' = if hit then set heap p (record nbr { choked = false }) else heap
  let j' = if hit then j + 1 else j
  let rest = unchoke_loop n_pref requests j' heap'
  if j' == n_pref then ok heap' else rest

module _ {L M : Type 0} where
  pub select_unchoked : ℕ → NbrMap L M → Outcome (NbrMap L M × Bool)
  unfolding collect unchoke_loop
  select_unchoked n_pref m = if not (m.npeers == 0) then ok (m, true) else (do
    (m', requests) ← collect m m.peers []
    let served = unchoke_loop n_pref requests 0 m'.heap
    elim requests [
      | [] ↦ ok (m', false)
      | _ ∷ _ ↦ do heap ← served; ok (record m' { heap = heap }, true)
    ])

module _ {L M : Type 0} (pt : Rwlocks L) (mx : Mutexes M) where
  -- The constructor. The field is assigned from a temporary, which is destroyed at once.
  unfoldable pub create_nbrmap : L → ℕ → ℕ → ℕ → ℕ → ℕ → Outcome (NbrMap L M)
  create_nbrmap junk npeers npcs opuchoke_ival uchoke_ival n_pref_peers = do
    field ← Bfield.zeroed_bfield pt junk true npcs
    _ ← Bfield.destroy pt field
    mut ← checked (mx.init mx.initializer)
    ok (record {
      mut = mut;
      npeers = npeers;
      peers = [];
      peerinfo = [];
      handlers = opt_unchoking opuchoke_ival ∷ unchoking uchoke_ival n_pref_peers ∷ [];
      bfield = field;
      heap = [];
    })

-- `Lock` and `Unlock`, on the mutex alone.
abbrev pub lock : {M : Type 0} → Mutexes M → M → Outcome M
lock mx mut = checked (mx.lock mut)

abbrev pub unlock : {M : Type 0} → Mutexes M → M → Outcome M
unlock mx mut = checked (mx.unlock mut)

module _ {L M : Type 0} (mx : Mutexes M) where
  -- The object, and the pointer to the new neighbour.
  pub register_cli : NbrMap L M → ℕ → Outcome (NbrMap L M × ℕ)
  register_cli m peerid = do
    let nbr : Nbr = record { choked = false; done = false; interested = false; requests = 0 }
    let ptr = length m.heap
    locked ← lock mx m.mut
    unlocked ← unlock mx locked
    ok (
      record m {
        mut = unlocked;
        heap = m.heap ++ nbr ∷ [];
        peers = m.peers ++ peerid ∷ [];
        peerinfo = insert peerid (some ptr) m.peerinfo;
        npeers = (m.npeers + 2 ^ 32 - 1) % 2 ^ 32;
      },
      ptr,
    )

module _ {L : Type 0} (pt : Rwlocks L) where
  -- The inner loop of `earmark`, with the rounds left: the field, `diff[i]` and `ret`.
  unfoldable pub earmark_bits : ℕ → ℕ → ℕ → ℕ → Bfield L → Bool → Outcome (Bfield L × ℕ × Bool)
  earmark_bits zero i j byte field ret = ok (field, byte, ret)
  earmark_bits (suc rounds) i j byte field ret = elim (bit_and byte (bit_mask j) == bit_mask j) [
    | true ↦ do
      (field', ret') ← Bfield.flip_at pt field i j
      earmark_bits rounds i (j + 1) (if ret' then byte else bit_xor byte (bit_mask j) % 256) field'
          ret'
    | false ↦ earmark_bits rounds i (j + 1) byte field ret
  ]

  -- The outer loop, over the bytes of `diff` from index `i`.
  unfoldable pub earmark_bytes : ℕ → List ℕ → Bfield L → Bool → Outcome (Bfield L × List ℕ × Bool)
  unfolding earmark_bits
  earmark_bytes i [] field ret = ok (field, [], ret)
  earmark_bytes i (byte ∷ bytes) field ret = do
    (field', byte', ret') ← earmark_bits 8 i 0 byte field ret
    (field'', bytes', ret'') ← earmark_bytes (i + 1) bytes field' ret'
    ok (field'', byte' ∷ bytes', ret'')

  -- The map, the node's field, `diff` and the result.
  unfoldable pub earmark :
      {M : Type 0}
      → NbrMap L M
      → Bfield L
      → List ℕ
      → List ℕ
      → Outcome (NbrMap L M × Bfield L × List ℕ × Bool)
  unfolding earmark_bytes
  earmark m node peer diff = do
    (node', wanted) ← Bfield.diff pt node peer diff
    (field, diff', ret) ← earmark_bytes 0 wanted m.bfield false
    ok (record m { bfield = field }, node', diff', ret)

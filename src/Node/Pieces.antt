-- ===== src/Node/Pieces.antt =====
-- The count of pieces that the constructor of node/node.cpp makes.
use btrx.Prelude.{
  ℕ, ◌+◌, ◌*◌, ◌/◌, ◌%◌, ◌≤◌, ◌<◌, ◌≡◌, refl, Bool-cases, inl, inr, ok, ◌==◌, arith, true, sym, ◌∙◌,
  ◌^◌, ltb, ok_injective,
}
use native.Mathlib.Nat.{div-add-mod', mod-lt, mul-le-mul_left, mul_comm}
use btrx.Cache.{Cache, get_pos}
use btrx.Node.{num_pieces}

-- Where a piece has more than no bytes, the pieces that are counted hold the whole file, and one
-- fewer would not: they exceed it by less than a piece.
num_pieces_covers :
    (fsz pcsz : ℕ)
    → 0 < pcsz
    → (npcs : ℕ) × (num_pieces fsz pcsz ≡ ok npcs)
      × (fsz ≤ npcs * pcsz)
      × (npcs * pcsz < fsz + pcsz)
unfolding num_pieces
num_pieces_covers fsz pcsz h =
    let whole = div-add-mod' fsz pcsz in
    let below = mod-lt fsz h in
    elim (Bool-cases (fsz % pcsz == 0)) [
      | inl even ↦ (fsz / pcsz, ground arith, ground arith, ground arith)
      | inr odd ↦ (fsz / pcsz + 1, ground arith, grind arith, grind arith)
    ]

-- For a file of fewer than 2 ^ 31 bytes, the position of a piece that was counted is computed
-- without overflow and lies inside the file.
pub get_pos-num_pieces :
    {L F : Type 0} (fsz npcs pcno : ℕ) (c : Cache L F)
    → fsz < 2 ^ 31
    → num_pieces fsz c.pcsz ≡ ok npcs
    → pcno < npcs
    → (pos : ℕ) × (get_pos c pcno ≡ ok pos) × (pos < fsz)
unfolding get_pos num_pieces
get_pos-num_pieces fsz npcs pcno c small counted below = elim (Bool-cases (c.pcsz == 0)) [
  | inl empty ↦ absurd (ground (arith, counted, empty))
  | inr some_bytes ↦
      let (npcs', counted', _, short) = num_pieces_covers fsz c.pcsz (ground (arith, some_bytes)) in
      let same : npcs ≡ npcs' = ok_injective (sym counted ∙ counted') in
      let next : c.pcsz * (pcno + 1) ≤ c.pcsz * npcs' = mul-le-mul_left c.pcsz (omega arith) in
      let turned = mul_comm npcs' c.pcsz in
      let inside : c.pcsz * pcno < fsz = grind arith in
      let fits : ltb (c.pcsz * pcno) (2 ^ 31) ≡ true = ground arith in
      (c.pcsz * pcno, rw (get_pos, fits) refl, inside)
]

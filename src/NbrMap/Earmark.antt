-- ===== src/NbrMap/Earmark.antt =====
-- `NbrMap::earmark` of nbrmap/nbrmap.cpp: which pieces a connection may ask for, and which pieces
-- the node has spoken for afterwards.
use btrx.Prelude.{
  ℕ, ◌+◌, ◌*◌, ◌/◌, ◌%◌, ◌≤◌, ◌<◌, ◌≡◌, refl, ap, ◌∙◌, Bool, true, false, not, ◌&&◌, ◌||◌, List, [],
  ok, length, arith,
}
use btrx.Rwlock.{Rwlocks}
use btrx.Bfield.{Bfield}
use btrx.Bfield.Has.{has, missing, has-missing, length-missing}
use btrx.Bfield.Locked.{IsIdle}
use btrx.Bfield.Members.{diff-missing}
use btrx.NbrMap.{NbrMap, earmark}
use btrx.NbrMap.Claims.Ret.{ret_last_bytes}
use btrx.NbrMap.Claims.Bytes.{
  digit_at, claim_bytes, AllClaimed, has-claim_bytes, digit_at-claim_bytes,
  earmark_bytes-claim_bytes,
}

module _ {L M : Type 0} (pt : Rwlocks L) (m : NbrMap L M) (node : Bfield L) (peer : List ℕ) where
  -- What the connection wants.
  abbrev pub wanted : List ℕ
  wanted = missing node.bfield peer

  -- What the connection wants and what `earmark` makes of it.
  abbrev pub outcome : AllClaimed
  outcome = claim_bytes 0 wanted m.bfield.bfield false

  pub earmark-outcome :
      IsIdle pt m.bfield
      → IsIdle pt node
      → length node.bfield ≤ length peer
      → length node.bfield ≤ length m.bfield.bfield
      → earmark pt m node peer []
        ≡ ok (
          record m { bfield = record m.bfield { bfield = outcome.field } },
          node,
          outcome.bytes,
          outcome.ret,
        )
  unfolding earmark
  earmark-outcome idle idle' short wide =
      rw
        (
          diff-missing pt node peer [] idle' short,
          earmark_bytes-claim_bytes pt 0 (missing node.bfield peer) m.bfield.bfield false m.bfield
              idle (omega (arith, length-missing node.bfield peer short)),
        )
        refl

  after : NbrMap L M
  after = record m { bfield = record m.bfield { bfield = outcome.field } }

  module _ (p : ℕ) (short : length node.bfield ≤ length peer)
      (wide : length node.bfield ≤ length m.bfield.bfield)
      (below : p / 8 < length node.bfield) where
    has-outcome_bytes :
        has outcome.bytes p ≡ (has peer p && not (has node.bfield p)) && not (has m.bfield.bfield p)
    has-outcome_bytes =
        let e : (0 + p / 8) * 8 + p % 8 ≡ p = omega arith in
        ground (
          arith,
          ap (has m.bfield.bfield) e,
          has-missing node.bfield peer p short below,
          digit_at-claim_bytes 0 (p / 8) (p % 8) wanted m.bfield.bfield false
              (omega (arith, length-missing node.bfield peer short)) (omega arith),
        )

    has-outcome_field :
        has outcome.field p ≡ (has peer p && not (has node.bfield p)) || has m.bfield.bfield p
    has-outcome_field = ground (
      arith,
      has-missing node.bfield peer p short below,
      has-claim_bytes 0 p wanted m.bfield.bfield false
          (omega (arith, length-missing node.bfield peer short)),
    )

  -- On an idle map and field, with an empty `diff` and with the peer's and the map's fields at least
  -- as long as the node's, `earmark` returns. Of the pieces in the node's field, the connection keeps
  -- those that the peer has, the node lacks and nobody has spoken for; afterwards those that the peer
  -- has and the node lacks are spoken for, and what was spoken for stays so.
  pub earmark_grants :
      (p : ℕ)
      → IsIdle pt m.bfield
      → IsIdle pt node
      → length node.bfield ≤ length peer
      → length node.bfield ≤ length m.bfield.bfield
      → p / 8 < length node.bfield
      → (m' : NbrMap L M) × (diff : List ℕ) × (ret : Bool) × (earmark pt m node peer []
          ≡ ok (m', node, diff, ret))
        × (has diff p ≡ (has peer p && not (has node.bfield p)) && not (has m.bfield.bfield p))
        × (has m'.bfield.bfield p
            ≡ (has peer p && not (has node.bfield p)) || has m.bfield.bfield p)
  unfolding after
  earmark_grants p idle idle' short wide below = (
    after,
    outcome.bytes,
    outcome.ret,
    earmark-outcome idle idle' short wide,
    has-outcome_bytes p short wide below,
    has-outcome_field p short wide below,
  )

  -- `p` is the highest piece that the connection wants.
  abbrev pub IsHighest : ℕ → Type 0
  IsHighest p =
      (has wanted p ≡ true) × ((w k : ℕ) → k < 8 → p < w * 8 + k → digit_at wanted w k ≡ false)

  -- On an idle map and field, with an empty `diff` and with the peer's and the map's fields at least
  -- as long as the node's, if the highest wanted piece is spoken for, `earmark` reports that there is
  -- nothing to ask for; yet every other wanted piece of the node's field that was free is now spoken
  -- for, and stands in `diff`.
  pub earmark_forgets :
      (p q : ℕ)
      → IsIdle pt m.bfield
      → IsIdle pt node
      → length node.bfield ≤ length peer
      → length node.bfield ≤ length m.bfield.bfield
      → IsHighest p
      → has m.bfield.bfield p ≡ true
      → q / 8 < length node.bfield
      → has peer q ≡ true
      → has node.bfield q ≡ false
      → has m.bfield.bfield q ≡ false
      → (m' : NbrMap L M) × (diff : List ℕ) × (earmark pt m node peer []
          ≡ ok (m', node, diff, false))
        × (has diff q ≡ true)
        × (has m'.bfield.bfield q ≡ true)
  unfolding after
  earmark_forgets p q idle idle' short wide highest taken below has_q lacks_q free = (
    after,
    outcome.bytes,
    earmark-outcome idle idle' short wide ∙ ap (λ r. ok (after, node, outcome.bytes, r)) none_left,
    has-outcome_bytes q short wide below ∙ (rw (has_q, lacks_q, free)),
    has-outcome_field q short wide below ∙ (rw (has_q, lacks_q)),
  )
    where
      same_piece : (0 + p / 8) * 8 + p % 8 ≡ p
      same_piece = omega arith

      none_left : outcome.ret ≡ false
      none_left =
          ret_last_bytes 0 (p / 8) (p % 8) wanted m.bfield.bfield false
            (omega (arith, length-missing node.bfield peer short)) (omega arith) highest.0
            (λ w k small above. highest.1 w k small (omega arith))
          ∙ ap not (ap (has m.bfield.bfield) same_piece ∙ taken)

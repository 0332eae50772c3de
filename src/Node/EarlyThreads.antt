-- ===== src/Node/EarlyThreads.antt =====
-- The threads that node/node.cpp starts for the peers before it, ahead of the set-up of its field.
use btrx.Prelude.{ℕ, ◌≡◌, none, List, [], ◌∷◌, ok, arith, Option-cases, Bool-cases, inl, inr}
use btrx.Rwlock.{Rwlocks}
use btrx.Files.{Files}
use btrx.Sockets.{Sockets}
use btrx.Json.{Json}
use btrx.Net.{Net}
use btrx.Bfield
use btrx.Bfield.{Bfield}
use btrx.NbrMap.{NbrMap}
use btrx.ObjStore.{ObjStore, create_objstore}
use btrx.Node.{Node, Peers, make_thread, connect_any, connect_peer}

pub create_objstore-bfield :
    {L F : Type 0} (pt : Rwlocks L) (fs : Files F) (junk : F) (fsz pcsz npcs : ℕ) (fname : List ℕ)
    {o : ObjStore L F}
    → create_objstore pt fs junk fsz pcsz npcs fname ≡ ok o
    → o.bfield ≡ none
unfolding create_objstore
create_objstore-bfield pt fs junk fsz pcsz npcs fname e = ground arith

-- Connecting leaves what the threads share.
abbrev pub Kept : {S L F M : Type 0} → Node S L F M → Node S L F M → Type 0
Kept n n' = (n'.ostore ≡ n.ostore) × (n'.nbrmap ≡ n.nbrmap)

module _ {W S A L F M : Type 0} (net : Net W S A) where
  pub make_thread-Kept :
      (w w' : W) (n n' : Node S L F M) (sock : S) (peer : ℕ)
      → make_thread net w n sock peer ≡ ok (w', n')
      → Kept n n'
  unfolding make_thread
  make_thread-Kept w w' n n' sock peer e = (ground arith, ground arith)

  connect_any-Kept :
      (res : List A) (w w' : W) (n n' : Node S L F M) (peer : ℕ)
      → connect_any net w n peer res ≡ ok (w', n')
      → Kept n n'
  unfolding connect_any
  connect_any-Kept [] w w' n n' peer e = (ground arith, ground arith)
  connect_any-Kept (a ∷ res) w w' n n' peer e =
      let w1 = (net.socket_for w a).0 in
      elim (Option-cases (net.socket_for w a).1) [
        | inl closed ↦ absurd (ground (arith, closed))
        | inr (s, opened) ↦ elim (Bool-cases (net.connect w1 s a).1) [
          | inl up ↦
              make_thread-Kept (net.connect w1 s a).0 w' n n' s peer (ground (arith, opened, up))
          | inr down ↦
              connect_any-Kept res (net.close (net.connect w1 s a).0 s) w' n n' peer
                (ground (arith, opened, down))
        ]
      ]

  pub connect_peer-Kept :
      (w w' : W) (n n' : Node S L F M) (peers : Peers) (peer i : ℕ)
      → connect_peer net w n peers peer i ≡ ok (w', n')
      → Kept n n'
  unfolding connect_peer
  connect_peer-Kept w w' n n' peers peer i e = grind (arith, connect_any-Kept)

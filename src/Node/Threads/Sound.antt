-- ===== src/Node/Threads/Sound.antt =====
-- What the threads of a node keep true of their connections (handler/handler.cpp), however their rounds
-- are interleaved.
use btrx.Prelude.{
  ℕ, zero, suc, ◌≡◌, refl, ◌∙◌, sym, subst, Bool, true, false, some, List, [], ◌∷◌, ◌++◌, arith,
  inl, inr, get_elem?, set, erase_idx, Chain, stays, next,
}
use mathlib.Core.Option.{some_inj}
use btrx.Rwlock.{Rwlocks}
use btrx.Mutex.{Mutexes}
use btrx.Sockets.{Sockets}
use btrx.Json.{Json}
use btrx.NbrMap.{Nbr}
use btrx.NbrMap.Steps.{IsCalm}
use btrx.NbrMap.Steps.Progress.{StayDone}
use btrx.Handler.Loop.{Conn}
use btrx.Handler.Loop.Shared.{Shared, share, Acts}
use btrx.Handler.Loop.Shared.Rounds.{turn-Acts}
use btrx.Node.Threads.{IsCalm-Calls, Onward-Calls}
use btrx.Node.Threads.Process.{
  Process, sees, opened, Move, accepts, dials, goes_on, ends, sets_up, unchokes, opt_unchokes,
  Move-Calls, moves-Calls,
}

module _ {S L F M : Type 0} where
  -- The neighbour of a connection is there, and its `choked_peer` is false.
  pub record IsSound (heap : List Nbr) (c : Conn S L F M) : Type 0 where
    pub points : (p : ℕ) → c.nbr ≡ some p → (nbr : Nbr) × (get_elem? heap p ≡ some nbr)
    pub unchoked : c.choked_peer ≡ false

  abbrev pub AllSound : List Nbr → List (Conn S L F M) → Type 0
  AllSound heap [] = Unit {0}
  AllSound heap (c ∷ conns) = IsSound heap c × AllSound heap conns

  IsSound-StayDone :
      (heap heap' : List Nbr) (c : Conn S L F M)
      → StayDone heap heap'
      → IsSound heap c
      → IsSound heap' c
  IsSound-StayDone heap heap' c stay sound = record {
    points = λ p at.
        let (nbr, there) = sound.points p at in
        let (nbr', there', _) = stay p nbr there in (nbr', there');
    unchoked = sound.unchoked;
  }

  AllSound-StayDone :
      (heap heap' : List Nbr) (conns : List (Conn S L F M))
      → StayDone heap heap'
      → AllSound heap conns
      → AllSound heap' conns
  AllSound-StayDone heap heap' [] stay all = tt
  AllSound-StayDone heap heap' (c ∷ conns) stay all =
      (IsSound-StayDone heap heap' c stay all.0, AllSound-StayDone heap heap' conns stay all.1)

  AllSound-append :
      (heap : List Nbr) (conns : List (Conn S L F M)) (c : Conn S L F M)
      → AllSound heap conns
      → IsSound heap c
      → AllSound heap (conns ++ c ∷ [])
  AllSound-append heap [] c all sound = (sound, tt)
  AllSound-append heap (a ∷ conns) c all sound = (all.0, AllSound-append heap conns c all.1 sound)

  AllSound-set :
      (heap : List Nbr) (conns : List (Conn S L F M)) (i : ℕ) (c : Conn S L F M)
      → AllSound heap conns
      → IsSound heap c
      → AllSound heap (set conns i c)
  AllSound-set heap [] i c all sound = tt
  AllSound-set heap (a ∷ conns) zero c all sound = (sound, all.1)
  AllSound-set heap (a ∷ conns) (suc i) c all sound =
      (all.0, AllSound-set heap conns i c all.1 sound)

  AllSound-erase_idx :
      (heap : List Nbr) (conns : List (Conn S L F M)) (i : ℕ)
      → AllSound heap conns
      → AllSound heap (erase_idx conns i)
  AllSound-erase_idx heap [] i all = tt
  AllSound-erase_idx heap (a ∷ conns) zero all = all.1
  AllSound-erase_idx heap (a ∷ conns) (suc i) all = (all.0, AllSound-erase_idx heap conns i all.1)

  pub AllSound-get_elem? :
      (heap : List Nbr) (conns : List (Conn S L F M)) (i : ℕ) {c : Conn S L F M}
      → AllSound heap conns
      → get_elem? conns i ≡ some c
      → IsSound heap c
  AllSound-get_elem? heap [] i all e = absurd (ground arith)
  AllSound-get_elem? heap (a ∷ conns) zero all e = subst (IsSound heap) (some_inj.0 e) all.0
  AllSound-get_elem? heap (a ∷ conns) (suc i) all e = AllSound-get_elem? heap conns i all.1 e

  opened-IsSound :
      (heap : List Nbr) (sock : S) (client : Bool) (s : Shared L F M)
      → IsSound heap (opened sock client s)
  opened-IsSound heap sock client s = record {
    points = λ p at. absurd (ground arith);
    unchoked = refl;
  }

  Acts-IsSound :
      (pt : Rwlocks L) (mx : Mutexes M) (c c' : Conn S L F M)
      → Acts pt mx c c'
      → StayDone c.nmap.heap c'.nmap.heap
      → IsSound c.nmap.heap c
      → IsSound c'.nmap.heap c'
  Acts-IsSound pt mx c c' acts stay sound = record {
    points = λ p at. elim acts.points [
      | inl same ↦
          let (nbr, there) = sound.points p (sym same ∙ at) in
          let (nbr', there', _) = stay p nbr there in (nbr', there')
      | inr (q, nbr, at', there) ↦ (
        nbr,
        subst (λ (p : ℕ). get_elem? c'.nmap.heap p ≡ some nbr) (some_inj.0 (sym at' ∙ at)) there,
      )
    ];
    unchoked = acts.unchoked ∙ sound.unchoked;
  }

module _ {S J L F M : Type 0} (so : Sockets S) (jl : Json J) (pt : Rwlocks L) (mx : Mutexes M) where
  Move-AllSound :
      {p p' : Process S L F M}
      → Move so jl pt mx p p'
      → StayDone p.state.nmap.heap p'.state.nmap.heap
      → AllSound p.state.nmap.heap p.conns
      → AllSound p'.state.nmap.heap p'.conns
  Move-AllSound (accepts p sock) stay all =
      AllSound-append p.state.nmap.heap p.conns (opened sock true p.state) all
        (opened-IsSound p.state.nmap.heap sock true p.state)
  Move-AllSound (dials p fs peerid_self sock sock' sock'' o said sent) stay all =
      AllSound-append p.state.nmap.heap p.conns (opened sock'' false (share o p.state.nmap)) all
        (opened-IsSound p.state.nmap.heap sock'' false (share o p.state.nmap))
  Move-AllSound (goes_on p i c c' fs junk peerid_self pkt0 at e) stay all =
      let acts =
        turn-Acts so jl pt fs mx junk peerid_self pkt0 (sees c p.state) {r = (true, c')} e in
      let sound = AllSound-get_elem? p.state.nmap.heap p.conns i all at in
      let before : IsSound p.state.nmap.heap (sees c p.state) = record {
        points = sound.points;
        unchoked = sound.unchoked;
      } in
      AllSound-set c'.nmap.heap p.conns i c'
        (AllSound-StayDone p.state.nmap.heap c'.nmap.heap p.conns stay all)
        (Acts-IsSound pt mx (sees c p.state) c' acts stay before)
  Move-AllSound (ends p i c c' c'' fs junk peerid_self pkt0 at e left) stay all =
      AllSound-erase_idx c''.nmap.heap p.conns i
        (AllSound-StayDone p.state.nmap.heap c''.nmap.heap p.conns stay all)
  Move-AllSound (sets_up p fs system junk hasfile o null e) stay all = all
  Move-AllSound (unchokes p n_pref m b e) stay all =
      AllSound-StayDone p.state.nmap.heap m.heap p.conns stay all
  Move-AllSound (opt_unchokes p rounds draw m b e) stay all =
      AllSound-StayDone p.state.nmap.heap m.heap p.conns stay all

  pub moves-AllSound :
      {p p' : Process S L F M}
      → Chain (Move so jl pt mx) p p'
      → IsCalm p.state.nmap
      → AllSound p.state.nmap.heap p.conns
      → AllSound p'.state.nmap.heap p'.conns
  moves-AllSound stays calm all = all
  moves-AllSound (next r move) calm all =
      let calm' = IsCalm-Calls pt mx (moves-Calls so jl pt mx r) calm in
      let on = Onward-Calls pt mx (Move-Calls so jl pt mx move) calm' in
      Move-AllSound move on.map.done (moves-AllSound r calm all)

-- ===== src/Node/Threads/Exclusive.antt =====
-- What the threads of a node (handler/handler.cpp, nbrmap/nbrmap.cpp) ask their peers for, however their
-- rounds are interleaved.
mod Examples
use btrx.Prelude.{
  ℕ, zero, suc, ◌+◌, ◌≡◌, ◌≢◌, refl, ap, ◌∙◌, sym, subst, Bool, true, false, none, some, List, [],
  ◌∷◌, ◌++◌, ok, ok_of_bind, arith, inl, inr, ◌⊎◌, Option-cases, get_elem?, set, erase_idx, Chain,
  stays, next,
}
use btrx.Prelude.Places.{
  past, past_injective, get_elem?-erase_idx, get_elem?-set_cases, get_elem?-append_cases,
}
use btrx.Prelude.Assoc.{find}
use btrx.Rwlock.{Rwlocks}
use btrx.Mutex.{Mutexes}
use btrx.Sockets.{Sockets}
use btrx.Json.{Json}
use btrx.Bfield.Has.{has}
use btrx.Bfield.Steps.{Grows, Grows-refl}
use btrx.ObjStore.{ObjStore}
use btrx.NbrMap.{NbrMap, create_nbrmap}
use btrx.NbrMap.Steps.{IsCalm}
use btrx.NbrMap.Steps.Grants.{Granted}
use btrx.Handler.Requests.{Asks}
use btrx.Handler.Loop.{Conn}
use btrx.Handler.Loop.Shared.{share}
use btrx.Handler.Loop.Shared.Rounds.{turn-Acts}
use btrx.Node.Threads.{made_map-IsCalm, IsCalm-Calls, Onward-Calls}
use btrx.Node.Threads.Process.{
  Process, sees, opened, Move, accepts, dials, goes_on, ends, sets_up, unchokes, opt_unchokes,
  Move-Calls, moves-Calls,
}

module _ {S L F M : Type 0} where
  -- What a connection asks for is spoken for, and no other asks for it.
  record IsExclusive (field : List ℕ) (conns : List (Conn S L F M)) : Type 0 where
    owned :
        (i q : ℕ) (c : Conn S L F M)
        → get_elem? conns i ≡ some c
        → Asks c.reqs q
        → has field q ≡ true
    apart :
        (i j q : ℕ) (c d : Conn S L F M)
        → get_elem? conns i ≡ some c
        → get_elem? conns j ≡ some d
        → Asks c.reqs q
        → Asks d.reqs q
        → i ≡ j

  nobody : (field : List ℕ) → IsExclusive field []
  nobody field = record {
    owned = λ i q c at asks. absurd (no_place i c at);
    apart = λ i j q c d at at' asks asks'. absurd (no_place i c at);
  }
    where
      no_place : (i : ℕ) (c : Conn S L F M) → ¬ (get_elem? [] i ≡ some c)
      no_place i c at = ground (arith, at)

  -- Where a request was at the place that `place` gives, or is of connection `i` for what was free.
  abbrev Origin : List ℕ → List ℕ → List (Conn S L F M) → List (Conn S L F M) → (ℕ → ℕ) → ℕ → Type 0
  Origin field field' conns conns' place i =
      (k q : ℕ) (d : Conn S L F M)
      → get_elem? conns' k ≡ some d
      → Asks d.reqs q
      → ((c : Conn S L F M) × (get_elem? conns (place k) ≡ some c) × Asks c.reqs q)
        ⊎ ((k ≡ i) × Granted field field' q)

  IsExclusive-Origin :
      (field field' : List ℕ) (conns conns' : List (Conn S L F M)) (place : ℕ → ℕ) (i : ℕ)
      → ((k l : ℕ) → place k ≡ place l → k ≡ l)
      → Origin field field' conns conns' place i
      → Grows field field'
      → IsExclusive field conns
      → IsExclusive field' conns'
  IsExclusive-Origin field field' conns conns' place i injective origin grown before = record {
    owned = λ k q d at asks. elim (origin k q d at asks) [
      | inl (c, at', asked) ↦ grown.held q (before.owned (place k) q c at' asked)
      | inr (_, granted) ↦ granted.1
    ];
    apart = λ k l q c d at at' asks asks'. elim (origin k q c at asks) [
      | inl (c0, was, asked) ↦ elim (origin l q d at' asks') [
        | inl (d0, was', asked') ↦
            injective k l (before.apart (place k) (place l) q c0 d0 was was' asked asked')
        | inr (_, granted) ↦
            let free = granted.0 in
            let owned = before.owned (place k) q c0 was asked in
            absurd (ground (arith, free, owned))
      ]
      | inr (here, granted) ↦
          let free = granted.0 in
          elim (origin l q d at' asks') [
            | inl (d0, was', asked') ↦
                let owned = before.owned (place l) q d0 was' asked' in
                absurd (ground (arith, free, owned))
            | inr (there, _) ↦ here ∙ sym there
          ]
    ];
  }

  -- The connections stay, or one without requests is new.
  IsExclusive-Grows :
      (field field' : List ℕ) (conns : List (Conn S L F M))
      → Grows field field'
      → IsExclusive field conns
      → IsExclusive field' conns
  IsExclusive-Grows field field' conns =
      IsExclusive-Origin field field' conns conns (λ k. k) 0 (λ k l e. e)
        (λ k q d at asks. inl (d, at, asks))

  IsExclusive-append :
      (field : List ℕ) (conns : List (Conn S L F M)) (c : Conn S L F M)
      → c.reqs ≡ []
      → IsExclusive field conns
      → IsExclusive field (conns ++ c ∷ [])
  unfolding find
  IsExclusive-append field conns c none_yet =
      IsExclusive-Origin field field conns (conns ++ c ∷ []) (λ k. k) 0 (λ k l e. e)
        (λ k q d at asks. elim (get_elem?-append_cases conns k c at) [
          | inl new ↦
              let (b, asked) =
                subst (λ reqs. Asks reqs q) (ap (λ c. c.reqs) (sym new) ∙ none_yet) asks in
              absurd (ground arith)
          | inr old ↦ inl (d, old, asks)
        ])
        (Grows-refl field)

  IsExclusive-erase_idx :
      (field field' : List ℕ) (conns : List (Conn S L F M)) (i : ℕ)
      → Grows field field'
      → IsExclusive field conns
      → IsExclusive field' (erase_idx conns i)
  IsExclusive-erase_idx field field' conns i =
      IsExclusive-Origin field field' conns (erase_idx conns i) (past i) 0 (past_injective i)
        (λ k q d at asks. inl (d, sym (get_elem?-erase_idx conns i k) ∙ at, asks))

  IsExclusive-set :
      (field field' : List ℕ) (conns : List (Conn S L F M)) (i : ℕ) (c c' : Conn S L F M)
      → get_elem? conns i ≡ some c
      → ((q : ℕ) → Asks c'.reqs q → Asks c.reqs q ⊎ Granted field field' q)
      → Grows field field'
      → IsExclusive field conns
      → IsExclusive field' (set conns i c')
  IsExclusive-set field field' conns i c c' here step =
      IsExclusive-Origin field field' conns (set conns i c') (λ k. k) i (λ k l e. e)
        (λ k q d at asks. elim (get_elem?-set_cases conns i k c' at) [
          | inl (same, new) ↦
              elim (step q (subst (λ (d : Conn S L F M). Asks d.reqs q) (sym new) asks)) [
                | inl asked ↦ inl (c, ap (λ k. get_elem? conns k) same ∙ here, asked)
                | inr granted ↦ inr (same, granted)
              ]
          | inr old ↦ inl (d, old, asks)
        ])

module _ {S J L F M : Type 0} (so : Sockets S) (jl : Json J) (pt : Rwlocks L) (mx : Mutexes M) where
  -- The pieces that the threads of a process have spoken for, and its connections.
  abbrev Exclusively : Process S L F M → Type 0
  Exclusively p = IsExclusive p.state.nmap.bfield.bfield p.conns

  Move-Exclusively :
      {p p' : Process S L F M}
      → Move so jl pt mx p p'
      → Grows p.state.nmap.bfield.bfield p'.state.nmap.bfield.bfield
      → Exclusively p
      → Exclusively p'
  Move-Exclusively (accepts p sock) grown =
      IsExclusive-append p.state.nmap.bfield.bfield p.conns (opened sock true p.state) refl
  Move-Exclusively (dials p fs peerid_self sock sock' sock'' o said sent) grown =
      IsExclusive-append p.state.nmap.bfield.bfield p.conns
        (opened sock'' false (share o p.state.nmap)) refl
  Move-Exclusively (goes_on p i c c' fs junk peerid_self pkt0 at e) grown =
      let acts =
        turn-Acts so jl pt fs mx junk peerid_self pkt0 (sees c p.state) {r = (true, c')} e in
      IsExclusive-set p.state.nmap.bfield.bfield c'.nmap.bfield.bfield p.conns i c c' at acts.asks
        grown
  Move-Exclusively (ends p i c c' c'' fs junk peerid_self pkt0 at e left) grown =
      IsExclusive-erase_idx p.state.nmap.bfield.bfield c''.nmap.bfield.bfield p.conns i grown
  Move-Exclusively (sets_up p fs system junk hasfile o null e) grown = λ before. before
  Move-Exclusively (unchokes p n_pref m b e) grown =
      IsExclusive-Grows p.state.nmap.bfield.bfield m.bfield.bfield p.conns grown
  Move-Exclusively (opt_unchokes p rounds draw m b e) grown =
      IsExclusive-Grows p.state.nmap.bfield.bfield m.bfield.bfield p.conns grown

  moves-Exclusively :
      {p p' : Process S L F M}
      → Chain (Move so jl pt mx) p p'
      → IsCalm p.state.nmap
      → Exclusively p
      → Exclusively p'
  moves-Exclusively stays calm before = before
  moves-Exclusively (next r move) calm before =
      let calm' = IsCalm-Calls pt mx (moves-Calls so jl pt mx r) calm in
      let on = Onward-Calls pt mx (Move-Calls so jl pt mx move) calm' in
      Move-Exclusively move on.map.spoken (moves-Exclusively r calm before)

  -- From a map as the constructor makes it, any store and no connections, after any rounds of any
  -- connections, in any order, between the timers and the set-up of the field: a piece that one
  -- connection asks its peer for is spoken for in the map, and no other connection asks for it.
  pub no_request_twice :
      (junk : L) (npeers npcs opuchoke_ival uchoke_ival n_pref_peers : ℕ) (o : ObjStore L F)
      (m : NbrMap L M) (p : Process S L F M) (i j q : ℕ) (c d : Conn S L F M) (b : Bool)
      → create_nbrmap pt mx junk npeers npcs opuchoke_ival uchoke_ival n_pref_peers ≡ ok m
      → Chain (Move so jl pt mx) (record { conns = []; state = share o m }) p
      → get_elem? p.conns i ≡ some c
      → get_elem? p.conns j ≡ some d
      → i ≢ j
      → find q c.reqs ≡ some b
      → (find q d.reqs ≡ none) × (has p.state.nmap.bfield.bfield q ≡ true)
  no_request_twice junk npeers npcs opuchoke_ival uchoke_ival n_pref_peers o m p i j q c d b made
        moves at at' other asked =
      let start =
        made_map-IsCalm pt mx junk npeers npcs opuchoke_ival uchoke_ival n_pref_peers made in
      let all = moves-Exclusively moves start (nobody m.bfield.bfield) in
      (
        elim (Option-cases (find q d.reqs)) [
          | inl none_there ↦ none_there
          | inr (b', asked') ↦ absurd (other (all.apart i j q c d at at' (b, asked) (b', asked')))
        ],
        all.owned i q c at (b, asked),
      )

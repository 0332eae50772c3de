-- ===== src/Handler/Loop/Shared/Cases.antt =====
-- The cases of the `switch` of `cli_handler` (handler/handler.cpp), as chains of calls on what the threads
-- share.
use btrx.Prelude.{
  ℕ, ◌+◌, ◌%◌, ◌^◌, ◌≡◌, refl, Bool, true, false, some, List, ok, defined, ok_of_bind, ok_injective,
  subst, Bool-cases, inl, inr, stays, one, chain_trans, arith, if◌then◌else◌, defined-some,
  get_elem?,
}
use btrx.Rwlock.{Rwlocks}
use btrx.Mutex.{Mutexes}
use btrx.Files.{Files}
use btrx.Sockets.{Sockets}
use btrx.Json.{Json}
use btrx.ObjStore.{ObjStore}
use btrx.NbrMap.{Nbr, register_cli}
use btrx.NbrMap.Steps.{registers, interests, counts}
use btrx.Pkts.{PktMsg}
use btrx.Handler.{send_handshake, send_requests, send_piece, handle_have, handle_piece}
use btrx.Handler.Stores.{handle_piece-Leads, handle_piece-reqs, send_piece-Leads}
use btrx.Handler.Loop.{
  Conn, deref_nbr, set_nbr, on_interested, on_handshake, on_un_choke, on_have, on_request, on_piece,
  dispatch,
}
use btrx.Handler.Requests.{Asks, Asks-erase}
use btrx.Handler.Loop.Shared.{share, shared, maps, Calls, store_calls, Acts}
use btrx.NbrMap.Registry.{fresh, register_cli-fresh}
use btrx.Handler.Loop.Shared.Claims.{on_bit_field-Acts}

module _ {S L F M : Type 0} (c : Conn S L F M) where
  pub deref_nbr_ok :
      {p : ℕ} {nbr : Nbr} → deref_nbr c ≡ ok (p, nbr) → get_elem? c.nmap.heap p ≡ some nbr
  unfolding deref_nbr
  deref_nbr_ok {p} {nbr} e =
      let (q, at, rest) = ok_of_bind (defined c.nbr) _ e in
      let (x, there, rest1) = ok_of_bind (defined (get_elem? c.nmap.heap q)) _ rest in
      subst (λ (r : ℕ × Nbr). get_elem? c.nmap.heap r.0 ≡ some r.1) (ok_injective rest1)
        (defined-some (get_elem? c.nmap.heap q) there)

  pub deref_nbr_there :
      {p : ℕ} {nbr : Nbr}
      → c.nbr ≡ some p
      → get_elem? c.nmap.heap p ≡ some nbr
      → deref_nbr c ≡ ok (p, nbr)
  unfolding deref_nbr
  deref_nbr_there at there = rw (deref_nbr, at, there) refl

module _ {S L F M : Type 0} (pt : Rwlocks L) (mx : Mutexes M) (c : Conn S L F M) where
  on_interested-Acts : (b : Bool) {c' : Conn S L F M} → on_interested b c ≡ ok c' → Acts pt mx c c'
  unfolding on_interested set_nbr
  on_interested-Acts b e =
      let ((p, nbr), at, rest) = ok_of_bind (deref_nbr c) _ e in
      subst (Acts pt mx c) (ok_injective rest) (record {
        calls = one (maps (shared c) _ (interests c.nmap p nbr b (deref_nbr_ok c at)));
        unchoked = refl;
        points = inl refl;
        asks = λ q h. inl h;
      })

module _ {S J L F M : Type 0} (so : Sockets S) (jl : Json J) (pt : Rwlocks L) (fs : Files F)
    (mx : Mutexes M) (junk : ℕ → List ℕ) (peerid_self : ℕ) (c : Conn S L F M) where
  on_handshake-Acts :
      (pkt : PktMsg) {c' : Conn S L F M}
      → on_handshake so jl pt fs mx junk peerid_self pkt c ≡ ok c'
      → Acts pt mx c c'
  unfolding on_handshake
  on_handshake-Acts pkt e =
      let (_, _, rest) =
        ok_of_bind (if c.client then send_handshake so jl c.sock peerid_self else ok c.sock) _ e in
      let ((nmap, p), done, rest1) = ok_of_bind (register_cli mx c.nmap pkt.hshake.peerid) _ rest in
      subst (Acts pt mx c) (ok_injective rest1) (record {
        calls = one (maps (shared c) nmap (registers c.nmap nmap pkt.hshake.peerid p done));
        unchoked = refl;
        points = inr (p, fresh, refl, register_cli-fresh mx c.nmap pkt.hshake.peerid p done);
        asks = λ q h. inl h;
      })

  on_un_choke-Acts :
      {c' : Conn S L F M} → on_un_choke so jl pt fs mx junk peerid_self c ≡ ok c' → Acts pt mx c c'
  unfolding on_un_choke
  on_un_choke-Acts e =
      let (_, _, rest) = ok_of_bind (send_requests so jl c.sock c.reqs) _ e in
      subst (Acts pt mx c) (ok_injective rest)
        (record { calls = stays; unchoked = refl; points = inl refl; asks = λ q h. inl h })

  on_have-Acts :
      (pkt : PktMsg) {c' : Conn S L F M}
      → on_have so jl pt fs mx junk peerid_self pkt c ≡ ok c'
      → Acts pt mx c c'
  unfolding on_have
  on_have-Acts pkt e =
      let (_, _, rest) = ok_of_bind (handle_have so jl c.sock pkt c.reqs) _ e in
      subst (Acts pt mx c) (ok_injective rest)
        (record { calls = stays; unchoked = refl; points = inl refl; asks = λ q h. inl h })

  on_piece-Acts :
      (pkt : PktMsg) {c' : Conn S L F M}
      → on_piece so jl pt fs mx junk peerid_self pkt c ≡ ok c'
      → Acts pt mx c c'
  unfolding on_piece
  on_piece-Acts pkt e =
      let ((ost, reqs), added, rest) =
        ok_of_bind (handle_piece pt fs pkt c.ost c.reqs (junk c.ost.pcsz) (junk c.ost.pcsz)) _ e in
      subst (Acts pt mx c) (ok_injective rest) (record {
        calls =
            store_calls pt mx c.nmap
              (handle_piece-Leads pt fs pkt c.ost c.reqs _ _ {r = (ost, reqs)} added);
        unchoked = refl;
        points = inl refl;
        asks = λ q h. inl (
            Asks-erase pkt.piece.pcno q c.reqs (
              subst (λ reqs. Asks reqs q)
                (handle_piece-reqs pt fs pkt c.ost c.reqs _ _ {r = (ost, reqs)} added) h));
      })

  on_request-Acts :
      (pkt : PktMsg) {c' : Conn S L F M}
      → on_request so jl pt fs mx junk peerid_self pkt c ≡ ok c'
      → Acts pt mx c c'
  unfolding on_request set_nbr
  on_request-Acts pkt e =
      let ((p, nbr), at, rest) = ok_of_bind (deref_nbr c) _ e in
      let nbr' = record nbr { requests = (nbr.requests + 1) % 2 ^ 32 } in
      let c1 = set_nbr c p nbr' in
      let first : Calls pt mx (shared c) (shared c1) =
        one (maps (shared c) _ (counts c.nmap p nbr (deref_nbr_ok c at))) in
      let ((sock, ost), sent, rest1) =
        ok_of_bind
          (if c.choked_peer
            then ok (c.sock, c.ost)
            else send_piece so jl pt fs c.sock pkt.req.pcno c.ost (junk c.ost.pcsz)
                (junk c.ost.pcsz))
          _ rest in
      let (_, _, rest2) =
        ok_of_bind (if c.choked_node then ok sock else send_requests so jl sock c.reqs) _ rest1 in
      let answered : Calls pt mx (shared c) (share ost c1.nmap) = elim (Bool-cases c.choked_peer) [
        | inl silent ↦
            let same : ok (c.sock, c.ost) ≡ ok (sock, ost) = ground (arith, silent, sent) in
            subst (λ (r : S × ObjStore L F). Calls pt mx (shared c) (share r.1 c1.nmap))
              (ok_injective same) first
        | inr speaks ↦
            let sent' : send_piece so jl pt fs c.sock pkt.req.pcno c.ost (junk c.ost.pcsz)
                  (junk c.ost.pcsz)
                ≡ ok (sock, ost) =
              ground (arith, speaks, sent) in
            chain_trans first (
              store_calls pt mx c1.nmap (
                send_piece-Leads so jl pt fs c.sock pkt.req.pcno c.ost _ _ {r = (sock, ost)} sent'))
      ] in
      subst (Acts pt mx c) (ok_injective rest2)
        (record { calls = answered; unchoked = refl; points = inl refl; asks = λ q h. inl h })

module _ {S J L F M : Type 0} (so : Sockets S) (jl : Json J) (pt : Rwlocks L) (fs : Files F)
    (mx : Mutexes M) (junk : ℕ → List ℕ) (peerid_self : ℕ) (c : Conn S L F M)
    {c' : Conn S L F M} where
  chokes-Acts : ok (record c { choked_node = true }) ≡ ok c' → Acts pt mx c c'
  chokes-Acts e =
      subst (Acts pt mx c) (ok_injective e)
        (record { calls = stays; unchoked = refl; points = inl refl; asks = λ q h. inl h })

  pub dispatch-Acts :
      (pkt : PktMsg) → dispatch so jl pt fs mx junk peerid_self pkt c ≡ ok c' → Acts pt mx c c'
  unfolding dispatch
  dispatch-Acts pkt e = ground (
    arith,
    on_handshake-Acts so jl pt fs mx junk peerid_self c pkt {c' = c'},
    chokes-Acts,
    on_un_choke-Acts so jl pt fs mx junk peerid_self c {c' = c'},
    on_interested-Acts pt mx c true {c' = c'},
    on_interested-Acts pt mx c false {c' = c'},
    on_have-Acts so jl pt fs mx junk peerid_self c pkt {c' = c'},
    on_bit_field-Acts so jl pt fs mx junk peerid_self c {c' = c'} pkt,
    on_request-Acts so jl pt fs mx junk peerid_self c pkt {c' = c'},
    on_piece-Acts so jl pt fs mx junk peerid_self c pkt {c' = c'},
  )

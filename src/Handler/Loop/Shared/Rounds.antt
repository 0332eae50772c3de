-- ===== src/Handler/Loop/Shared/Rounds.antt =====
-- The rounds of `cli_handler` (handler/handler.cpp), and a whole connection, as chains of calls on what
-- the threads share.
use btrx.Prelude.{
  ℕ, zero, suc, ◌+◌, ◌%◌, ◌^◌, ◌≡◌, refl, Bool, true, false, none, some, Option, List, [], ok,
  defined, or_throw, ok_of_bind, ok_injective, subst, Bool-cases, Outcome-cases, inl, inr, stays,
  one, chain_trans, arith, ◌==◌, if◌then◌else◌, Outcome, get_elem?, ◌>>=◌,
}
use btrx.Rwlock.{Rwlocks}
use btrx.Mutex.{Mutexes}
use btrx.Files.{Files}
use btrx.Sockets.{Sockets}
use btrx.Json.{Json}
use btrx.ObjStore.{ObjStore}
use btrx.NbrMap.{Nbr, NbrMap}
use btrx.NbrMap.Steps.{leaves}
use btrx.Pkts.{PktMsg, from_json}
use btrx.Handler.{
  rcv_sz, rcv, send_handshake, send_bfield, send_requests, send_haves, choke_status_check,
}
use btrx.Handler.Stores.{send_bfield-Leads, send_haves-Leads}
use btrx.Handler.Loop.{
  Conn, deref_nbr, set_nbr, on_message, on_timeout, turn, leave, serve, cli_handler,
}
use btrx.Handler.Loop.Shared.{share, shared, maps, Calls, store_calls, Acts, Acts-sock}
use btrx.Handler.Loop.Shared.Cases.{deref_nbr_ok, dispatch-Acts}

module _ {S J L F M : Type 0} (so : Sockets S) (jl : Json J) (pt : Rwlocks L) (fs : Files F)
    (mx : Mutexes M) (junk : ℕ → List ℕ) (peerid_self : ℕ) where
  pub leave-Acts :
      (c : Conn S L F M) {c' : Conn S L F M}
      → leave so jl pt fs mx junk peerid_self c ≡ ok c'
      → Acts pt mx c c'
  unfolding leave set_nbr
  leave-Acts c e =
      let ((p, nbr), at, rest) = ok_of_bind (deref_nbr c) _ e in
      subst (Acts pt mx c) (ok_injective rest) (record {
        calls = one (maps (shared c) _ (leaves c.nmap p nbr (deref_nbr_ok c at)));
        unchoked = refl;
        points = inl refl;
        asks = λ q h. inl h;
      })

  on_message-Acts :
      (pkt0 : PktMsg) (sz : ℕ) (c : Conn S L F M) {c' : Conn S L F M}
      → on_message so jl pt fs mx junk peerid_self pkt0 sz c ≡ ok c'
      → Acts pt mx c c'
  unfolding on_message
  on_message-Acts pkt0 sz c {c'} e =
      let ((sock, bson), _, rest) = ok_of_bind (rcv so c.sock (junk sz)) _ e in
      let (j, _, rest1) = ok_of_bind (or_throw (jl.from_bson bson)) _ rest in
      let (pkt, _, rest2) = ok_of_bind (from_json jl j pkt0) _ rest1 in
      let looked : Outcome (Option Nbr) = elim c.nbr [
        | none ↦ ok none
        | some p ↦ do nbr ← defined (get_elem? c.nmap.heap p); ok (some nbr)
      ] in
      let (nbr, _, rest3) = ok_of_bind looked _ rest2 in
      let (sock', _, rest4) =
        ok_of_bind (choke_status_check so jl sock nbr c.choked_peer) _ rest3 in
      Acts-sock pt mx c c' sock' (
        dispatch-Acts so jl pt fs mx junk peerid_self (record c { sock = sock' }) {c' = c'} pkt
          rest4)

  on_timeout-Acts :
      (c : Conn S L F M) {r : Bool × Conn S L F M}
      → on_timeout so jl pt fs mx junk peerid_self c ≡ ok r
      → Acts pt mx c r.1
  unfolding on_timeout
  on_timeout-Acts c {r} e =
      let (sock, _, rest) = ok_of_bind (send_requests so jl c.sock c.reqs) _ e in
      let even = (c.ntimeouts + 1) % 2 ^ 32 % 2 == 0 in
      let ((sock', ost), said, rest1) =
        ok_of_bind
          (if even then send_haves so jl pt fs 0 sock c.ost c.bfield_peer else ok (sock, c.ost)) _
          rest in
      let acts : Calls pt mx (shared c) (share ost c.nmap) = elim (Bool-cases even) [
        | inl now ↦ store_calls pt mx c.nmap (
            send_haves-Leads so jl pt fs 0 sock c.ost c.bfield_peer {r = (sock', ost)}
              (ground (arith, now, said)))
        | inr later ↦
            let same : ok (sock, c.ost) ≡ ok (sock', ost) = ground (arith, later, said) in
            subst (λ (r : S × ObjStore L F). Calls pt mx (shared c) (share r.1 c.nmap))
              (ok_injective same) stays
      ] in
      subst (λ (r : Bool × Conn S L F M). Acts pt mx c r.1) (ok_injective rest1)
        (record { calls = acts; unchoked = refl; points = inl refl; asks = λ q h. inl h })

  -- What follows `rcv_sz`.
  abbrev arrive : PktMsg → Conn S L F M → Option ℕ → Outcome (Bool × Conn S L F M)
  arrive pkt0 c got = elim got [
    | none ↦ ok (false, c)
    | some sz ↦
        if sz == 0
        then on_timeout so jl pt fs mx junk peerid_self c
        else (do c' ← on_message so jl pt fs mx junk peerid_self pkt0 sz c; ok (true, c'))
  ]

  received-Acts :
      (pkt0 : PktMsg) (c : Conn S L F M) (got : Option ℕ) {r : Bool × Conn S L F M}
      → arrive pkt0 c got ≡ ok r
      → Acts pt mx c r.1
  received-Acts pkt0 c none e =
      subst (λ (r : Bool × Conn S L F M). Acts pt mx c r.1) (ok_injective e)
        (record { calls = stays; unchoked = refl; points = inl refl; asks = λ q h. inl h })
  received-Acts pkt0 c (some sz) {r} e = elim (Bool-cases (sz == 0)) [
    | inl quiet ↦ on_timeout-Acts c {r = r} (ground (arith, quiet, e))
    | inr speaks ↦
        let (c', handled, rest) =
          ok_of_bind (on_message so jl pt fs mx junk peerid_self pkt0 sz c) _ (rw speaks at e) in
        subst (λ (r : Bool × Conn S L F M). Acts pt mx c r.1) (ok_injective rest)
          (on_message-Acts pkt0 sz c handled)
  ]

  -- A round that returns.
  pub turn-Acts :
      (pkt0 : PktMsg) (c : Conn S L F M) {r : Bool × Conn S L F M}
      → turn so jl pt fs mx junk peerid_self pkt0 c ≡ ok r
      → Acts pt mx c r.1
  unfolding turn
  turn-Acts pkt0 c {r} e =
      let ((sock, got), _, rest) = ok_of_bind (rcv_sz so c.sock) _ e in
      Acts-sock pt mx c r.1 sock (received-Acts pkt0 (record c { sock = sock }) got {r = r} rest)

  serve-Calls :
      (rounds : ℕ) (pkt0 : PktMsg) (c : Conn S L F M) {c' : Conn S L F M}
      → serve so jl pt fs mx junk peerid_self rounds pkt0 c ≡ some (ok c')
      → Calls pt mx (shared c) (shared c')
  unfolding serve
  serve-Calls zero pkt0 c e = absurd (ground arith)
  serve-Calls (suc rounds) pkt0 c {c'} e =
      elim (Outcome-cases (turn so jl pt fs mx junk peerid_self pkt0 c)) [
        | inl ((true, c1), at) ↦
            chain_trans (turn-Acts pkt0 c {r = (true, c1)} at).calls
              (serve-Calls rounds pkt0 c1 {c' = c'} (ground (arith, at, e)))
        | inl ((false, c1), at) ↦
            chain_trans (turn-Acts pkt0 c {r = (false, c1)} at).calls
              (leave-Acts c1 {c' = c'} (ground (arith, at, e))).calls
        | inr (inl thrown) ↦ absurd (ground (arith, thrown, e))
        | inr (inr (inl wrong)) ↦ absurd (ground (arith, wrong, e))
        | inr (inr (inr (n, left))) ↦ absurd (ground (arith, left, e))
      ]

  -- Whatever the peer sends, the socket, the files and the locks do: where `cli_handler` returns, what it has
  -- done to the store and the map that it shares with the other threads is a sequence of calls of the
  -- field, of the cache and of the map, and of the three writes through the pointer to its neighbour
  -- (interested, requests, done).
  pub cli_handler-Calls :
      (rounds : ℕ) (pkt0 : PktMsg) (sock : S) (peer : ℕ) (ost : ObjStore L F) (nmap : NbrMap L M)
      {c' : Conn S L F M}
      → cli_handler so jl pt fs mx junk peerid_self rounds pkt0 sock peer ost nmap ≡ some (ok c')
      → Calls pt mx (share ost nmap) (shared c')
  unfolding cli_handler
  cli_handler-Calls rounds pkt0 sock peer ost nmap {c'} e =
      let opening : Outcome (S × ObjStore L F) = (do
        s ← send_handshake so jl sock peerid_self
        send_bfield so jl pt fs s ost) in
      let opened : Outcome (S × ObjStore L F) = if peer == 0 then ok (sock, ost) else opening in
      elim (Outcome-cases opened) [
        | inl ((sock', ost'), at) ↦
            let acts : Calls pt mx (share ost nmap) (share ost' nmap) =
              elim (Bool-cases (peer == 0)) [
                | inl accepted ↦
                    let same : ok (sock, ost) ≡ ok (sock', ost') = ground (arith, accepted, at) in
                    subst (λ (r : S × ObjStore L F). Calls pt mx (share ost nmap) (share r.1 nmap))
                      (ok_injective same) stays
                | inr dialled ↦
                    let said : opening ≡ ok (sock', ost') = ground (arith, dialled, at) in
                    let (s, _, sent) = ok_of_bind (send_handshake so jl sock peerid_self) _ said in
                    store_calls pt mx nmap
                      (send_bfield-Leads so jl pt fs s ost {r = (sock', ost')} sent)
              ] in
            let c0 : Conn S L F M = record {
              sock = sock';
              client = peer == 0;
              ntimeouts = 0;
              choked_node = false;
              choked_peer = false;
              nbr = none;
              diff = [];
              bfield_peer = [];
              reqs = [];
              ost = ost';
              nmap = nmap;
            } in
            chain_trans acts (serve-Calls rounds pkt0 c0 {c' = c'} (ground (arith, at, e)))
        | inr (inl thrown) ↦ absurd (ground (arith, thrown, e))
        | inr (inr (inl wrong)) ↦ absurd (ground (arith, wrong, e))
        | inr (inr (inr (n, left))) ↦ absurd (ground (arith, left, e))
      ]

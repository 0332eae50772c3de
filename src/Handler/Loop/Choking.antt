-- ===== src/Handler/Loop/Choking.antt =====
-- The messages of handler/handler.cpp and who is choked: nobody ever becomes so.
use btrx.Prelude.{
  refl, Outcome-cases, Option-cases, ℕ, ◌+◌, ◌%◌, ◌^◌, ◌≡◌, Bool, true, false, some, List, ok,
  if◌then◌else◌, get_elem?, arith, inl, inr, subst, sym,
}
use btrx.Rwlock.{Rwlocks}
use btrx.Mutex.{Mutexes}
use btrx.Files.{Files}
use btrx.Sockets.{Sockets}
use btrx.Json.{Json}
use btrx.NbrMap.{Nbr, register_cli, earmark}
use btrx.NbrMap.Choking.{
  NoneChoked, NoneChoked-get_elem?, NoneChoked-set, register_cli-NoneChoked, earmark_heap,
}
use btrx.Pkts.{PktMsg}
use btrx.Handler.{send_bfield, choke_status_check}
use btrx.Handler.Loop.{
  Conn, deref_nbr, set_nbr, on_interested, on_handshake, on_un_choke, on_have, on_earmarked,
  on_bit_field, on_request, on_piece, dispatch,
}

abbrev pub AllFree : {S L F M : Type 0} → Conn S L F M → Type 0
AllFree c = NoneChoked c.nmap.heap

module _ {S L F M : Type 0} (c : Conn S L F M) (h : AllFree c) {c' : Conn S L F M} where
  AllFree-on_interested : (b : Bool) → on_interested b c ≡ ok c' → AllFree c'
  unfolding on_interested set_nbr deref_nbr
  AllFree-on_interested b e = elim (Option-cases c.nbr) [
    | inl null ↦ ground arith
    | inr (p, at) ↦ elim (Option-cases (get_elem? c.nmap.heap p)) [
      | inl dangling ↦ ground arith
      | inr (nbr, there) ↦ ground (
        arith,
        NoneChoked-set c.nmap.heap p (record nbr { interested = b }) h
            (NoneChoked-get_elem? c.nmap.heap p h there),
      )
    ]
  ]

  module _ {J : Type 0} (so : Sockets S) (jl : Json J) (pt : Rwlocks L) (fs : Files F)
      (mx : Mutexes M) (junk : ℕ → List ℕ) (peerid_self : ℕ) where
    AllFree-on_handshake :
        (pkt : PktMsg) → on_handshake so jl pt fs mx junk peerid_self pkt c ≡ ok c' → AllFree c'
    unfolding on_handshake
    AllFree-on_handshake pkt e = elim (Outcome-cases (register_cli mx c.nmap pkt.hshake.peerid)) [
      | inl (r, at) ↦ ground (arith, register_cli-NoneChoked c.nmap mx pkt.hshake.peerid h at)
      | inr bad ↦ ground arith
    ]

    AllFree-on_un_choke : on_un_choke so jl pt fs mx junk peerid_self c ≡ ok c' → AllFree c'
    unfolding on_un_choke
    AllFree-on_un_choke e = ground arith

    AllFree-on_have :
        (pkt : PktMsg) → on_have so jl pt fs mx junk peerid_self pkt c ≡ ok c' → AllFree c'
    unfolding on_have
    AllFree-on_have pkt e = ground arith

    AllFree-on_piece :
        (pkt : PktMsg) → on_piece so jl pt fs mx junk peerid_self pkt c ≡ ok c' → AllFree c'
    unfolding on_piece
    AllFree-on_piece pkt e = ground arith

    AllFree-on_earmarked :
        (b : Bool) → on_earmarked so jl pt fs mx junk peerid_self b c ≡ ok c' → AllFree c'
    unfolding on_earmarked
    AllFree-on_earmarked true e = ground arith
    AllFree-on_earmarked false e = ground arith

    AllFree-on_request :
        (pkt : PktMsg) → on_request so jl pt fs mx junk peerid_self pkt c ≡ ok c' → AllFree c'
    unfolding on_request set_nbr deref_nbr
    AllFree-on_request pkt e = elim (Option-cases c.nbr) [
      | inl null ↦ ground arith
      | inr (p, at) ↦ elim (Option-cases (get_elem? c.nmap.heap p)) [
        | inl dangling ↦ ground arith
        | inr (nbr, there) ↦ ground (
          arith,
          NoneChoked-set c.nmap.heap p (record nbr { requests = (nbr.requests + 1) % 2 ^ 32 }) h
              (NoneChoked-get_elem? c.nmap.heap p h there),
        )
      ]
    ]

module _ {S L F M J : Type 0} (so : Sockets S) (jl : Json J) (pt : Rwlocks L) (fs : Files F)
    (mx : Mutexes M) (junk : ℕ → List ℕ) (peerid_self : ℕ) (c : Conn S L F M) (h : AllFree c)
    {c' : Conn S L F M} where
  AllFree-on_bit_field :
      (pkt : PktMsg) → on_bit_field so jl pt fs mx junk peerid_self pkt c ≡ ok c' → AllFree c'
  unfolding on_bit_field
  AllFree-on_bit_field pkt e =
      elim (Outcome-cases
        (if c.client then send_bfield so jl pt fs c.sock c.ost else ok (c.sock, c.ost))) [
          | inr bad ↦ ground arith
          | inl ((sock, ost), sent) ↦ elim (Option-cases ost.bfield) [
            | inl null ↦ ground arith
            | inr (node, there) ↦
                elim (Outcome-cases (earmark pt c.nmap node pkt.bfield.bfield c.diff)) [
                  | inr bad ↦ ground arith
                  | inl ((nmap, node', diff, ret), got) ↦
                      let same = earmark_heap c.nmap pt node pkt.bfield.bfield c.diff got in
                      let next = record c {
                        sock = sock;
                        ost = record ost { bfield = some node' };
                        nmap = nmap;
                        diff = diff;
                        bfield_peer = pkt.bfield.bfield;
                      } in
                      AllFree-on_earmarked next (subst NoneChoked (sym same) h) {c' = c'} so jl pt
                        fs mx junk peerid_self ret (ground arith)
                ]
          ]
        ]

  -- Whatever message a connection handles, if nobody is choked before and the handling returns, then
  -- nobody is choked afterwards: no message makes this node choke a neighbour.
  dispatch-AllFree :
      (pkt : PktMsg) → dispatch so jl pt fs mx junk peerid_self pkt c ≡ ok c' → AllFree c'
  unfolding dispatch
  dispatch-AllFree pkt e = ground (
    arith,
    AllFree-on_handshake c h {c' = c'} so jl pt fs mx junk peerid_self pkt,
    AllFree-on_un_choke c h {c' = c'} so jl pt fs mx junk peerid_self,
    AllFree-on_interested c h {c' = c'} true,
    AllFree-on_interested c h {c' = c'} false,
    AllFree-on_have c h {c' = c'} so jl pt fs mx junk peerid_self pkt,
    AllFree-on_bit_field pkt,
    AllFree-on_request c h {c' = c'} so jl pt fs mx junk peerid_self pkt,
    AllFree-on_piece c h {c' = c'} so jl pt fs mx junk peerid_self pkt,
  )

-- A neighbour that is not choked is told nothing, where its peer has not been choked before.
pub choke_status_check_silent :
    {S J : Type 0} (so : Sockets S) (jl : Json J) (sock : S) (nbr : Nbr)
    → nbr.choked ≡ false
    → choke_status_check so jl sock (some nbr) false ≡ ok sock
unfolding choke_status_check
choke_status_check_silent so jl sock nbr unchoked = rw (choke_status_check, unchoked) refl

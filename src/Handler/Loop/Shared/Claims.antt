-- ===== src/Handler/Loop/Shared/Claims.antt =====
-- What a bit field makes `cli_handler` (handler/handler.cpp) do, as a chain of calls on what the threads
-- share.
use btrx.Prelude.{
  ◌⊎◌, sym, ℕ, ◌/◌, ◌%◌, ◌≡◌, refl, Bool, true, false, not, ◌&&◌, some, List, ok, defined,
  ok_of_bind, ok_injective, subst, Bool-cases, inl, inr, stays, next, chain_trans, arith,
  if◌then◌else◌, defined-some,
}
use btrx.Rwlock.{Rwlocks}
use btrx.Mutex.{Mutexes}
use btrx.Files.{Files}
use btrx.Sockets.{Sockets}
use btrx.Json.{Json}
use btrx.ObjStore.{ObjStore}
use btrx.ObjStore.Steps.{fields}
use btrx.NbrMap.{earmark}
use btrx.NbrMap.Steps.Earmark.{earmark-Marks}
use btrx.Pkts.{PktMsg}
use btrx.Handler.{send_interested, send_not_interested, send_requests, send_bfield, diff_to_reqs}
use btrx.Handler.Stores.{send_bfield-Leads}
use btrx.Handler.Loop.{Conn, on_earmarked, on_bit_field}
use btrx.NbrMap.Steps.Grants.{Granted, earmark-Granted}
use btrx.NbrMap.Claims.Bytes.{digit_at}
use btrx.Handler.Requests.{Asks, Asks-diff_to_reqs}
use btrx.Handler.Loop.Shared.{Shared, share, shared, stores, Calls, store_calls, map_calls, Acts}

-- What `on_earmarked` makes of the locals: the pieces left in `diff` may be new in the requests.
abbrev Marked : {S L F M : Type 0} → Conn S L F M → Conn S L F M → Type 0
Marked c c' =
    (shared c' ≡ shared c)
    × (c'.choked_peer ≡ c.choked_peer)
    × (c'.nbr ≡ c.nbr)
    × ((q : ℕ) → Asks c'.reqs q → Asks c.reqs q ⊎ (digit_at c.diff (q / 8) (q % 8) ≡ true))

module _ {S J L F M : Type 0} (so : Sockets S) (jl : Json J) (pt : Rwlocks L) (fs : Files F)
    (mx : Mutexes M) (junk : ℕ → List ℕ) (peerid_self : ℕ) (c : Conn S L F M) where
  on_earmarked-Marked :
      (b : Bool) {c' : Conn S L F M}
      → on_earmarked so jl pt fs mx junk peerid_self b c ≡ ok c'
      → Marked c c'
  unfolding on_earmarked
  on_earmarked-Marked true e =
      let (sock, _, rest) = ok_of_bind (send_interested so jl c.sock) _ e in
      let (_, _, rest1) =
        ok_of_bind
          (if not c.client && not c.choked_node
            then send_requests so jl sock (diff_to_reqs 0 c.reqs c.diff)
            else ok sock)
          _ rest in
      subst (Marked c) (ok_injective rest1)
        (refl, refl, refl, λ q h. Asks-diff_to_reqs q c.reqs c.diff h)
  on_earmarked-Marked false e =
      let (_, _, rest) = ok_of_bind (send_not_interested so jl c.sock) _ e in
      subst (Marked c) (ok_injective rest) (refl, refl, refl, λ q h. inl h)

module _ {S J L F M : Type 0} (so : Sockets S) (jl : Json J) (pt : Rwlocks L) (fs : Files F)
    (mx : Mutexes M) (junk : ℕ → List ℕ) (peerid_self : ℕ) (c : Conn S L F M)
    {c' : Conn S L F M} where
  pub on_bit_field-Acts :
      (pkt : PktMsg) → on_bit_field so jl pt fs mx junk peerid_self pkt c ≡ ok c' → Acts pt mx c c'
  unfolding on_bit_field
  on_bit_field-Acts pkt e =
      let ((sock, ost), sent, rest) =
        ok_of_bind (if c.client then send_bfield so jl pt fs c.sock c.ost else ok (c.sock, c.ost)) _
          e in
      let (node, at, rest1) = ok_of_bind (defined ost.bfield) _ rest in
      let ((nmap, node', diff, ret), marked, rest2) =
        ok_of_bind (earmark pt c.nmap node pkt.bfield.bfield c.diff) _ rest1 in
      let (compared, claimed) =
        earmark-Marks pt mx c.nmap node pkt.bfield.bfield c.diff {r = (nmap, node', diff, ret)}
          marked in
      let ost' = record ost { bfield = some node' } in
      let said : Calls pt mx (shared c) (share ost c.nmap) = elim (Bool-cases c.client) [
        | inl accepted ↦ store_calls pt mx c.nmap (
            send_bfield-Leads so jl pt fs c.sock c.ost {r = (sock, ost)}
              (ground (arith, accepted, sent)))
        | inr dialled ↦
            let same : ok (c.sock, c.ost) ≡ ok (sock, ost) = ground (arith, dialled, sent) in
            subst (λ (r : S × ObjStore L F). Calls pt mx (shared c) (share r.1 c.nmap))
              (ok_injective same) stays
      ] in
      let read : Calls pt mx (shared c) (share ost' c.nmap) = next said (
        stores (share ost c.nmap) ost'
          (fields ost node node' (defined-some ost.bfield at) compared)) in
      let marks : Conn S L F M = record c {
        sock = sock;
        ost = ost';
        nmap = nmap;
        diff = diff;
        bfield_peer = pkt.bfield.bfield;
      } in
      let (same, unchoked, nbr, asks) =
        on_earmarked-Marked so jl pt fs mx junk peerid_self marks ret {c' = c'} rest2 in
      record {
        calls = chain_trans read (
            subst (λ t. Calls pt mx (share ost' c.nmap) t) (sym same)
              (map_calls pt mx ost' claimed));
        unchoked = unchoked;
        points = inl nbr;
        asks = λ q h. elim (asks q h) [
          | inl before ↦ inl before
          | inr set ↦ inr (
              subst (λ (t : Shared L F M). Granted c.nmap.bfield.bfield t.nmap.bfield.bfield q)
                (sym same)
                (earmark-Granted pt c.nmap node pkt.bfield.bfield c.diff q
                  {r = (nmap, node', diff, ret)} marked set))
        ];
      }

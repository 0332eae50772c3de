-- ===== src/Handler/Stores.antt =====
-- What the helpers of handler/ do to the store, as chains of its calls.
use btrx.Prelude.{
  sym, ap, ℕ, zero, suc, ◌+◌, ◌*◌, ◌≡◌, Bool, List, [], ◌∷◌, ◌++◌, ok, exits, defined, ok_of_bind,
  ok_injective, subst, Bool-cases, inl, inr, stays, one, chain_trans, arith, bit_and, ◌==◌,
  if◌then◌else◌, defined-some,
}
use btrx.Prelude.Bits.{bit_mask}
use btrx.CString.{c_string, snprintf}
use btrx.Prelude.Assoc.{erase}
use btrx.Rwlock.{Rwlocks}
use btrx.Files.{Files}
use btrx.Sockets.{Sockets}
use btrx.Json.{Json}
use btrx.Bfield
use btrx.Bfield.Steps.{clones}
use btrx.ObjStore
use btrx.ObjStore.{ObjStore}
use btrx.ObjStore.Steps.{fields, Leads, add_piece-Leads, get_piece-Leads, exists-Leads}
use btrx.Pkts.{PktMsg, to_json, have, piece, bit_field}
use btrx.Handler.{
  blank, snd, send_bfield, send_piece, send_have, send_haves_bits, send_haves, handle_piece,
}

module _ {L F : Type 0} (pt : Rwlocks L) (fs : Files F) where
  pub handle_piece-Leads :
      (pkt : PktMsg) (o : ObjStore L F) (reqs : List (ℕ × Bool)) (buf junk : List ℕ)
      {r : ObjStore L F × List (ℕ × Bool)}
      → handle_piece pt fs pkt o reqs buf junk ≡ ok r
      → Leads pt o r.0
  unfolding handle_piece
  handle_piece-Leads pkt o reqs buf junk e =
      let (bytes, _, rest) = ok_of_bind (snprintf buf (pkt.piece.payload ++ 0 ∷ [])) _ e in
      let (r', added, rest1) =
        ok_of_bind (ObjStore.add_piece pt fs o pkt.piece.pcno bytes junk) _ rest in
      subst (λ (r : ObjStore L F × List (ℕ × Bool)). Leads pt o r.0) (ok_injective rest1)
        (add_piece-Leads pt fs o pkt.piece.pcno bytes junk {r = r'} added)

  pub handle_piece-reqs :
      (pkt : PktMsg) (o : ObjStore L F) (reqs : List (ℕ × Bool)) (buf junk : List ℕ)
      {r : ObjStore L F × List (ℕ × Bool)}
      → handle_piece pt fs pkt o reqs buf junk ≡ ok r
      → r.1 ≡ erase pkt.piece.pcno reqs
  unfolding handle_piece
  handle_piece-reqs pkt o reqs buf junk e =
      let (bytes, _, rest) = ok_of_bind (snprintf buf (pkt.piece.payload ++ 0 ∷ [])) _ e in
      let (_, _, rest1) =
        ok_of_bind (ObjStore.add_piece pt fs o pkt.piece.pcno bytes junk) _ rest in
      ap (λ (r : ObjStore L F × List (ℕ × Bool)). r.1) (sym (ok_injective rest1))

module _ {S J L F : Type 0} (so : Sockets S) (jl : Json J) (pt : Rwlocks L) (fs : Files F) where
  pub send_bfield-Leads :
      (sock : S) (o : ObjStore L F) {r : S × ObjStore L F}
      → send_bfield so jl pt fs sock o ≡ ok r
      → Leads pt o r.1
  unfolding send_bfield
  send_bfield-Leads sock o e =
      let (field, at, rest) = ok_of_bind (defined o.bfield) _ e in
      let ((field', vec), cloned, rest1) = ok_of_bind (Bfield.clone pt field) _ rest in
      let (_, _, rest2) =
        ok_of_bind
          (snd so jl sock
            (to_json jl (record (blank bit_field) { bfield = record { bfield = vec } })))
          _ rest1 in
      subst (λ (r : S × ObjStore L F). Leads pt o r.1) (ok_injective rest2)
        (one (fields o field field' (defined-some o.bfield at) (clones field field' vec cloned)))

  pub send_piece-Leads :
      (sock : S) (pcno : ℕ) (o : ObjStore L F) (buf junk : List ℕ) {r : S × ObjStore L F}
      → send_piece so jl pt fs sock pcno o buf junk ≡ ok r
      → Leads pt o r.1
  unfolding send_piece
  send_piece-Leads sock pcno o buf junk e =
      let ((o', stat, buf'), got, rest) =
        ok_of_bind (ObjStore.get_piece pt fs o pcno buf junk) _ e in
      let (payload, _, rest1) =
        ok_of_bind (if stat == 0 then exits 1 else defined (c_string buf')) _ rest in
      let (_, _, rest2) =
        ok_of_bind
          (snd so jl sock (
            to_json jl
              (record (blank piece) { piece = record { pcno = pcno; payload = payload } })))
          _ rest1 in
      subst (λ (r : S × ObjStore L F). Leads pt o r.1) (ok_injective rest2)
        (get_piece-Leads pt fs o pcno buf junk {r = (o', stat, buf')} got)

  send_have-Leads :
      (sock : S) (o : ObjStore L F) (i j byte : ℕ) {r : S × ObjStore L F}
      → send_have so jl pt fs sock o i j byte ≡ ok r
      → Leads pt o r.1
  unfolding send_have
  send_have-Leads sock o i j byte {r} e =
      elim (Bool-cases (bit_and byte (bit_mask j) == bit_mask j)) [
        | inl wanted ↦
            let e' = rw (send_have, wanted) at e in
            let ((o', there), looked, rest) =
              ok_of_bind (ObjStore.exists pt fs o (i * 8 + j)) _ e' in
            let (_, _, rest1) =
              ok_of_bind
                (if there
                  then snd so jl sock
                      (to_json jl (record (blank have) { have = record { pcno = i * 8 + j } }))
                  else ok sock)
                _ rest in
            subst (λ (r : S × ObjStore L F). Leads pt o r.1) (ok_injective rest1)
              (exists-Leads pt fs o (i * 8 + j) {r = (o', there)} looked)
        | inr other ↦
            let same : ok (sock, o) ≡ ok r = ground (arith, other, e) in
            subst (λ (r : S × ObjStore L F). Leads pt o r.1) (ok_injective same) stays
      ]

  send_haves_bits-Leads :
      (rounds : ℕ) (sock : S) (o : ObjStore L F) (i j byte : ℕ) {r : S × ObjStore L F}
      → send_haves_bits so jl pt fs rounds sock o i j byte ≡ ok r
      → Leads pt o r.1
  unfolding send_haves_bits
  send_haves_bits-Leads zero sock o i j byte e =
      subst (λ (r : S × ObjStore L F). Leads pt o r.1) (ok_injective e) stays
  send_haves_bits-Leads (suc rounds) sock o i j byte {r} e =
      let ((sock', o'), said, rest) = ok_of_bind (send_have so jl pt fs sock o i j byte) _ e in
      chain_trans (send_have-Leads sock o i j byte {r = (sock', o')} said)
        (send_haves_bits-Leads rounds sock' o' i (j + 1) byte {r = r} rest)

  pub send_haves-Leads :
      (i : ℕ) (sock : S) (o : ObjStore L F) (bfield_peer : List ℕ) {r : S × ObjStore L F}
      → send_haves so jl pt fs i sock o bfield_peer ≡ ok r
      → Leads pt o r.1
  unfolding send_haves
  send_haves-Leads i sock o [] e =
      subst (λ (r : S × ObjStore L F). Leads pt o r.1) (ok_injective e) stays
  send_haves-Leads i sock o (byte ∷ bfield_peer) {r} e =
      let ((sock', o'), said, rest) =
        ok_of_bind (send_haves_bits so jl pt fs 8 sock o i 0 byte) _ e in
      chain_trans (send_haves_bits-Leads 8 sock o i 0 byte {r = (sock', o')} said)
        (send_haves-Leads (i + 1) sock' o' bfield_peer {r = r} rest)

-- ===== src/Pkts/Wire.antt =====
-- Which messages of pkts/pkts.cpp survive their way through JSON.
use btrx.Prelude.{
  ℕ, ◌^◌, ◌<◌, ◌≡◌, ◌≢◌, refl, ◌∙◌, sym, subst, List, ◌∷◌, some, Outcome, ok, throws, ◌==◌,
  if◌then◌else◌, length, arith, inl, inr, Bool-cases, false, ==_iff,
}
use btrx.CString.{bytes_of}
use btrx.Json.{Json, IsLawful, find_key}
use btrx.Pkts.{
  object, body, body_from_json, PktHandshake, PktMsg, PktMsgPiece, handshake, have, bit_field,
  request, piece, to_json, from_json, handshake_to_json, handshake_from_json, have_to_json,
  have_from_json, bfield_to_json, bfield_from_json, request_to_json, request_from_json,
  piece_to_json, piece_from_json,
}

-- The fields fit their C types.
pub record IsWire (pkt : PktMsg) : Type 0 where
  pub type : pkt.type < 2 ^ 16
  pub header : length pkt.hshake.header ≡ 19
  pub zero : length pkt.hshake.zero ≡ 10
  pub peerid : pkt.hshake.peerid < 2 ^ 32
  pub have : pkt.have.pcno < 2 ^ 32
  pub req : pkt.req.pcno < 2 ^ 32

module _ {J : Type 0} (jl : Json J) (lawful : IsLawful jl) where
  -- Reading starts with the type.
  from_json_typed :
      (n : ℕ) (kvs : List (List ℕ × J)) (pkt0 : PktMsg)
      → n < 2 ^ 16
      → let j = object jl ((bytes_of "type", jl.of_uint n) ∷ kvs) in
        from_json jl j pkt0 ≡ body_from_json jl n j (record pkt0 { type = n })
  unfolding from_json find_key
  from_json_typed n kvs pkt0 h =
      rw
        (
          lawful.at_object ((bytes_of "type", jl.of_uint n) ∷ kvs) (bytes_of "type"),
          lawful.uint 16 n h,
        )
        refl

  piece_throws : (pkt pkt0 : PktMsgPiece) → piece_from_json jl (piece_to_json jl pkt) pkt0 ≡ throws
  unfolding piece_to_json piece_from_json
  piece_throws pkt pkt0 =
      rw (lawful.at_array _ (bytes_of "pcno") (inr (inl (lawful.single _)))) refl

  handshake_round_trip :
      (pkt pkt0 : PktHandshake)
      → length pkt.header ≡ 19
      → length pkt.zero ≡ 10
      → pkt.peerid < 2 ^ 32
      → handshake_from_json jl (handshake_to_json jl pkt) pkt0 ≡ ok pkt
  unfolding handshake_to_json handshake_from_json find_key
  handshake_round_trip pkt pkt0 h z p =
      rw
        (
          lawful.at_object,
          lawful.at_object,
          lawful.at_object,
          subst (λ n. jl.to_array n (jl.of_bytes pkt.header) ≡ some pkt.header) h
              (lawful.array pkt.header),
          subst (λ n. jl.to_array n (jl.of_bytes pkt.zero) ≡ some pkt.zero) z
              (lawful.array pkt.zero),
          lawful.uint 32 pkt.peerid p,
        )
        refl

  abbrev Reads : ℕ → PktMsg → PktMsg → Outcome PktMsg → Type 0
  Reads t pkt pkt0 r =
      body_from_json jl t (object jl ((bytes_of "type", jl.of_uint t) ∷ body jl t pkt))
        (record pkt0 { type = t })
      ≡ r

  Reads-handshake :
      (pkt pkt0 : PktMsg)
      → IsWire pkt
      → Reads handshake pkt pkt0 (ok (record pkt0 { type = handshake; hshake = pkt.hshake }))
  unfolding body body_from_json find_key
  Reads-handshake pkt pkt0 w =
      rw (lawful.at_object, handshake_round_trip pkt.hshake pkt0.hshake w.header w.zero w.peerid)
        refl

  Reads-have :
      (pkt pkt0 : PktMsg)
      → IsWire pkt
      → Reads have pkt pkt0 (ok (record pkt0 { type = have; have = pkt.have }))
  unfolding body body_from_json find_key have_to_json have_from_json
  Reads-have pkt pkt0 w =
      rw (lawful.at_object, lawful.at_object, lawful.uint 32 pkt.have.pcno w.have) refl

  Reads-bit_field :
      (pkt pkt0 : PktMsg)
      → Reads bit_field pkt pkt0 (ok (record pkt0 { type = bit_field; bfield = pkt.bfield }))
  unfolding body body_from_json find_key bfield_to_json bfield_from_json
  Reads-bit_field pkt pkt0 =
      rw (lawful.at_object, lawful.at_object, lawful.bytes pkt.bfield.bfield) refl

  Reads-request :
      (pkt pkt0 : PktMsg)
      → IsWire pkt
      → Reads request pkt pkt0 (ok (record pkt0 { type = request; req = pkt.req }))
  unfolding body body_from_json find_key request_to_json request_from_json
  Reads-request pkt pkt0 w =
      rw (lawful.at_object, lawful.at_object, lawful.uint 32 pkt.req.pcno w.req) refl

  Reads-piece : (pkt pkt0 : PktMsg) → Reads piece pkt pkt0 throws
  unfolding body body_from_json find_key
  Reads-piece pkt pkt0 = rw (lawful.at_object, piece_throws pkt.piece pkt0.piece) refl

  -- What is read of a message of type `t`: its type and the member of that type.
  abbrev pub received : ℕ → PktMsg → PktMsg → PktMsg
  received t pkt pkt0 =
      if t == handshake
      then record pkt0 { type = t; hshake = pkt.hshake }
      else (if t == have
          then record pkt0 { type = t; have = pkt.have }
          else (if t == bit_field
              then record pkt0 { type = t; bfield = pkt.bfield }
              else (if t == request
                  then record pkt0 { type = t; req = pkt.req }
                  else record pkt0 { type = t })))

  Reads-received :
      (t : ℕ) (pkt pkt0 : PktMsg)
      → IsWire pkt
      → t ≢ piece
      → Reads t pkt pkt0 (ok (received t pkt pkt0))
  unfolding body body_from_json
  Reads-received t pkt pkt0 w other = elim (Bool-cases (t == handshake)) [
    | inl e ↦
        subst (λ t. Reads t pkt pkt0 (ok (received t pkt pkt0))) (sym ((==_iff t handshake).0 e))
          (Reads-handshake pkt pkt0 w)
    | inr n1 ↦ elim (Bool-cases (t == have)) [
      | inl e ↦
          subst (λ t. Reads t pkt pkt0 (ok (received t pkt pkt0))) (sym ((==_iff t have).0 e))
            (Reads-have pkt pkt0 w)
      | inr n2 ↦ elim (Bool-cases (t == bit_field)) [
        | inl e ↦
            subst (λ t. Reads t pkt pkt0 (ok (received t pkt pkt0)))
              (sym ((==_iff t bit_field).0 e)) (Reads-bit_field pkt pkt0)
        | inr n3 ↦ elim (Bool-cases (t == request)) [
          | inl e ↦
              subst (λ t. Reads t pkt pkt0 (ok (received t pkt pkt0)))
                (sym ((==_iff t request).0 e)) (Reads-request pkt pkt0 w)
          | inr n4 ↦ let n5 : (t == piece) ≡ false = ground arith in rw (n1, n2, n3, n4, n5) refl
        ]
      ]
    ]
  ]

  -- With a lawful JSON library, a message of any type but `Piece` whose fields fit their C types
  -- survives: its type and the member of that type are read back,
  -- and the other members stay what they were.
  pub from_json-to_json :
      (pkt pkt0 : PktMsg)
      → IsWire pkt
      → pkt.type ≢ piece
      → from_json jl (to_json jl pkt) pkt0 ≡ ok (received pkt.type pkt pkt0)
  unfolding to_json
  from_json-to_json pkt pkt0 w other =
      from_json_typed pkt.type (body jl pkt.type pkt) pkt0 w.type
      ∙ Reads-received pkt.type pkt pkt0 w other

  -- With a lawful JSON library, a piece message never survives: reading back what was written throws.
  pub from_json-to_json_piece :
      (pkt pkt0 : PktMsg) → pkt.type ≡ piece → from_json jl (to_json jl pkt) pkt0 ≡ throws
  unfolding to_json
  from_json-to_json_piece pkt pkt0 e =
      from_json_typed pkt.type (body jl pkt.type pkt) pkt0 (omega arith)
      ∙ subst (λ t. Reads t pkt pkt0 throws) (sym e) (Reads-piece pkt pkt0)

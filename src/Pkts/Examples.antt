-- ===== src/Pkts/Examples.antt =====
-- pkts/pkts.cpp at concrete inputs, over a small JSON library.
use btrx.Prelude.{ℕ, ◌≡◌, refl, [], ok, throws, replicate, arith}
use btrx.Host.Values.{small, small-IsLawful}
use btrx.Pkts.{PktMsg, to_json, from_json, have, piece}
use btrx.Pkts.Wire.{IsWire, from_json-to_json, from_json-to_json_piece}

-- A `Have` of piece 300; the other members are zero.
abbrev message : ℕ → PktMsg
message type = record {
  type = type;
  hshake = record { header = replicate 19 0; zero = replicate 10 0; peerid = 0 };
  have = record { pcno = 300 };
  bfield = record { bfield = [] };
  req = record { pcno = 0 };
  piece = record { pcno = 0; payload = [] };
}

message-IsWire : IsWire (message have)
message-IsWire = record {
  type = omega arith;
  header = refl;
  zero = refl;
  peerid = omega arith;
  have = omega arith;
  req = omega arith;
}

from_json-to_json_example :
    from_json small (to_json small (message have)) (message piece) ≡ ok (message have)
from_json-to_json_example =
    from_json-to_json small small-IsLawful (message have) (message piece) message-IsWire
      (omega arith)

from_json-to_json_piece_example :
    from_json small (to_json small (message piece)) (message have) ≡ throws
from_json-to_json_piece_example =
    from_json-to_json_piece small small-IsLawful (message piece) (message have) refl

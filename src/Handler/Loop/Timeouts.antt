-- ===== src/Handler/Loop/Timeouts.antt =====
-- How the loop of `cli_handler` (handler/handler.cpp) is left: its code for timeouts has no part in it.
use btrx.Prelude.{
  ℕ, zero, suc, ◌-◌, ◌≤◌, ◌<◌, ◌≡◌, ◌⊎◌, true, false, some, List, [], ◌∷◌, ◌++◌, ok, Bool-cases,
  Option-cases, Outcome-cases, ok_of_bind, inl, inr, ◌==◌, length, replicate, arith, Chain, stays,
  one, chain_trans, refl,
}
use btrx.Rwlock.{Rwlocks}
use btrx.Mutex.{Mutexes}
use btrx.Files.{Files}
use btrx.Sockets.{Sockets}
use btrx.Json.{Json}
use btrx.Pkts.{PktMsg}
use btrx.Handler.{rcv_sz, word_of}
use btrx.Handler.Loop.{Conn, on_message, turn, leave, serve}

-- The peer has closed the connection, or says that its message has no bytes.
abbrev pub IsEmpty : {S : Type 0} → Sockets S → S → Type 0
IsEmpty so sock =
    (bs : List ℕ) × ((so.peek sock 4).1 ≡ some bs)
    × ((bs ≡ []) ⊎ (word_of (bs ++ replicate (4 - length bs) 0) ≡ 0))

module _ {S J L F M : Type 0} (so : Sockets S) (jl : Json J) (pt : Rwlocks L) (fs : Files F)
    (mx : Mutexes M) (junk : ℕ → List ℕ) (peerid_self : ℕ) (pkt0 : PktMsg)
    (ewouldblock : 4 < so.ewouldblock)
    (short : (s : S) (bs : List ℕ) → (so.peek s 4).1 ≡ some bs → length bs ≤ 4) where
  abbrev pub Rounds : Conn S L F M → Conn S L F M → Type 0
  Rounds c d = Chain (λ c d. turn so jl pt fs mx junk peerid_self pkt0 c ≡ ok (true, d)) c d

  last_round :
      (c c' : Conn S L F M)
      → turn so jl pt fs mx junk peerid_self pkt0 c ≡ ok (false, c')
      → IsEmpty so c.sock
  unfolding turn rcv_sz
  last_round c c' e = elim (Option-cases (so.peek c.sock 4).1) [
    | inl failed ↦ absurd (ground (arith, failed, e))
    | inr ([], got) ↦ ([], got, inl refl)
    | inr (b ∷ bs, got) ↦
        let full : length (b ∷ bs) == so.ewouldblock ≡ false =
          ground (arith, short c.sock (b ∷ bs) got, ewouldblock) in
        let some_bytes : length (b ∷ bs) == 0 ≡ false = ground arith in
        elim (Bool-cases (word_of ((b ∷ bs) ++ replicate (4 - length (b ∷ bs)) 0) == 0)) [
          | inl empty ↦ (b ∷ bs, got, inr (ground (arith, empty)))
          | inr speaks ↦
              let e' = rw (turn, rcv_sz, got, full, some_bytes, speaks) at e in
              let (c'', _, rest) =
                ok_of_bind
                  (on_message so jl pt fs mx junk peerid_self pkt0
                    (word_of ((b ∷ bs) ++ replicate (4 - length (b ∷ bs)) 0))
                    (record c { sock = (so.peek c.sock 4).0 }))
                  _ e' in
              absurd (ground (arith, rest))
        ]
  ]

  -- Where EWOULDBLOCK is more than 4 and `recv` gives no more bytes than it is asked for: a loop that
  -- is left without an error has made rounds up to one in which the peer had closed the connection or
  -- said that its message has no bytes, and what follows the loop comes next.
  pub serve-left :
      (rounds : ℕ) (c c' : Conn S L F M)
      → serve so jl pt fs mx junk peerid_self rounds pkt0 c ≡ some (ok c')
      → (d : Conn S L F M) × (d' : Conn S L F M) × Rounds c d
        × (turn so jl pt fs mx junk peerid_self pkt0 d ≡ ok (false, d'))
        × IsEmpty so d.sock
        × (leave so jl pt fs mx junk peerid_self d' ≡ ok c')
  unfolding serve
  serve-left zero c c' e = absurd (ground arith)
  serve-left (suc rounds) c c' e =
      elim (Outcome-cases (turn so jl pt fs mx junk peerid_self pkt0 c)) [
        | inl ((true, c1), at) ↦
            let (d, d', before, last, empty, left) =
              serve-left rounds c1 c' (ground (arith, at, e)) in
            (d, d', chain_trans (one at) before, last, empty, left)
        | inl ((false, c1), at) ↦ (c, c1, stays, at, last_round c c1 at, ground (arith, at, e))
        | inr (inl thrown) ↦ absurd (ground (arith, thrown, e))
        | inr (inr (inl wrong)) ↦ absurd (ground (arith, wrong, e))
        | inr (inr (inr (n, gone))) ↦ absurd (ground (arith, gone, e))
      ]

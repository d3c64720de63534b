-- ===== src/Router/Peer/Numbers.antt =====
-- The numbers of the envelopes that the loops of all peers send (x/router/peer.go).
use sardis.Common.{
  ℕ, ◌+◌, ◌<◌, ◌≤◌, Bool, true, false, not, ◌&&◌, ◌||◌, ◌⊎◌, nat_beq, Option, none, some, ◌≡◌, ◌≢◌,
  refl, sym, ◌∙◌, Bool-cases, inl, inr, List, [], ◌∷◌, ◌++◌, any, String, string_comparable, ◌==◌,
  arith, eq_iff, length,
}
use sardis.Common.Int.{pos, int_comparable}
use sardis.Router.Model.{Error}
use sardis.Router.Peer.{Envelope, Sending, Senders, Turn, stamped, send_one, send_turn, send_loops}

module _ {P : Type 0} where
  -- Envelopes from this router, whose numbers increase, are greater than `low` and at most `high`.
  abbrev pub Increasing : String → (low high : ℕ) → List (Envelope P) → Type 0
  Increasing self low high [] = low ≤ high
  Increasing self low high (ep ∷ eps) =
      (n : ℕ) × (low < n) × (ep.sequence ≡ pos n) × (ep.source ≡ self) × Increasing self n high eps

  -- One of the envelopes has the number.
  abbrev pub has_number : ℕ → List (Envelope P) → Bool
  has_number n = any (λ ep. ep.sequence == pos n)

  length-snoc :
      (eps : List (Envelope P)) (ep : Envelope P) → length (eps ++ ep ∷ []) ≡ length eps + 1
  length-snoc [] ep = refl
  length-snoc (e ∷ eps) ep = omega (arith, length-snoc eps ep)

  Increasing-grows :
      (self : String) (low high : ℕ) (eps : List (Envelope P))
      → Increasing self low high eps
      → Increasing self low (high + 1) eps
  Increasing-grows self low high [] h = omega arith
  Increasing-grows self low high (ep ∷ eps) (n, less, e, from, rest) =
      (n, less, e, from, Increasing-grows self n high eps rest)

  Increasing-append :
      (self : String) (low high now : ℕ) (eps : List (Envelope P)) (ep : Envelope P)
      → Increasing self low high eps
      → Increasing self low (high + 1) (eps ++ stamped self (high + 1) now ep ∷ [])
  Increasing-append self low high now [] ep h = (high + 1, omega arith, refl, refl, omega arith)
  Increasing-append self low high now (e ∷ eps) ep (n, less, same, from, rest) =
      (n, less, same, from, Increasing-append self n high now eps ep rest)

  Increasing-low :
      (self : String) (low high : ℕ) (eps : List (Envelope P))
      → Increasing self low high eps
      → low ≤ high
  Increasing-low self low high [] h = h
  Increasing-low self low high (ep ∷ eps) (n, less, e, from, rest) =
      let more = Increasing-low self n high eps rest in omega arith

  -- No number above `high` is there.
  above-has_number :
      (self : String) (low high m : ℕ) (eps : List (Envelope P))
      → Increasing self low high eps
      → high < m
      → has_number m eps ≡ false
  above-has_number self low high m [] h above = refl
  above-has_number self low high m (ep ∷ eps) (n, less, e, from, rest) above =
      let later = above-has_number self n high m eps rest above in
      let most = Increasing-low self n high eps rest in rw (e, later) (ground arith)

  has_number-append :
      (self : String) (m seq now : ℕ) (eps : List (Envelope P)) (ep : Envelope P)
      → has_number m (eps ++ stamped self seq now ep ∷ []) ≡ has_number m eps || nat_beq seq m
  has_number-append self m seq now [] ep = ground arith
  has_number-append self m seq now (e ∷ eps) ep =
      ground (arith, has_number-append self m seq now eps ep)

  -- A loop numbered what it sent, and counted it from `start` on.
  abbrev Good : String → (low high start : ℕ) → Sending P → Type 0
  Good self low high start s =
      Increasing self low high s.sent × (s.info.messages_sent ≡ start + length s.sent)

  send_one-Good :
      (self : String) (closing : Option Error) (low high start : ℕ) (ep : Envelope P) (now : ℕ)
      (result : Option Error) (s : Sending P)
      → Good self low high start s
      → Good self low (high + 1) start (send_one self closing (high + 1) ep now result s)
  unfolding send_one
  send_one-Good self closing low high start ep now (some e) s (numbers, count) =
      (Increasing-grows self low high s.sent numbers, count)
  send_one-Good self closing low high start ep now none s (numbers, count) = (
    Increasing-append self low high now s.sent ep numbers,
    omega (arith, count, length-snoc s.sent (stamped self (high + 1) now ep)),
  )

  -- What a loop sent before, and the new number perhaps.
  send_one-has_number :
      (self : String) (closing : Option Error) (seq m : ℕ) (ep : Envelope P) (now : ℕ)
      (result : Option Error) (s : Sending P)
      → has_number m (send_one self closing seq ep now result s).sent ≡ true
      → (has_number m s.sent ≡ true) ⊎ (seq ≡ m)
  unfolding send_one
  send_one-has_number self closing seq m ep now (some e) s h = inl h
  send_one-has_number self closing seq m ep now none s h =
      ground (arith, h, has_number-append self m seq now s.sent ep)

  -- The loops of two peers have both sent an envelope with the number.
  abbrev share : Senders P → (p q : String) → ℕ → Bool
  share r p q m = has_number m (r.loop p).sent && has_number m (r.loop q).sent

  abbrev Apart : Senders P → Type 0
  Apart r = (p q : String) (m : ℕ) → (p == q || not (share r p q m)) ≡ true

  abbrev AllGood : String → ℕ → (String → ℕ) → Senders P → Type 0
  AllGood self low start r = (p : String) → Good self low r.seq (start p) (r.loop p)

  send_turn-AllGood :
      (self : String) (closing : String → Option Error) (low : ℕ) (start : String → ℕ) (t : Turn P)
      (r : Senders P)
      → AllGood self low start r
      → AllGood self low start (send_turn self closing t r)
  unfolding send_turn
  send_turn-AllGood self closing low start t r good p = elim (Bool-cases (r.loop t.peer).runs) [
    | inr idle ↦ rw idle (good p)
    | inl runs ↦ elim (Bool-cases (p == t.peer)) [
      | inl here ↦
          rw (runs, here)
            (send_one-Good self (closing p) low r.seq (start p) t.envelope t.now t.result (r.loop p)
              (good p))
      | inr there ↦
          rw (runs, there)
            ((Increasing-grows self low r.seq (r.loop p).sent (good p).0), (good p).1)
    ]
  ]

  -- What a loop sent before the turn, or the new number in the loop whose turn it was.
  send_turn-has_number :
      (self : String) (closing : String → Option Error) (t : Turn P) (r : Senders P) (p : String)
      (m : ℕ)
      → has_number m ((send_turn self closing t r).loop p).sent ≡ true
      → (has_number m (r.loop p).sent ≡ true) ⊎ ((r.seq + 1 ≡ m) × (p ≡ t.peer))
  unfolding send_turn
  send_turn-has_number self closing t r p m = elim (Bool-cases (r.loop t.peer).runs) [
    | inr idle ↦ rw idle (λ h. inl h)
    | inl runs ↦ elim (Bool-cases (p == t.peer)) [
      | inr there ↦ rw (runs, there) (λ h. inl h)
      | inl here ↦
          rw (runs, here)
            (λ h.
              elim (send_one-has_number self (closing p) (r.seq + 1) m t.envelope t.now t.result
                (r.loop p) h) [ inl old ↦ inl old | inr e ↦ inr (e, (eq_iff p t.peer).0 here) ])
    ]
  ]

  -- The next number is not used yet.
  unused :
      (self : String) (low : ℕ) (start : String → ℕ) (r : Senders P) (p : String) (m : ℕ)
      → AllGood self low start r
      → r.seq + 1 ≡ m
      → has_number m (r.loop p).sent ≢ true
  unused self low start r p m good next h =
      let none_yet =
        above-has_number self low r.seq m (r.loop p).sent (good p).0 (omega (arith, next)) in
      ground (arith, h, none_yet)

  not_both :
      (self : String) (closing : String → Option Error) (low : ℕ) (start : String → ℕ) (t : Turn P)
      (r : Senders P) (p q : String) (m : ℕ)
      → AllGood self low start r
      → Apart r
      → (p == q) ≡ false
      → has_number m ((send_turn self closing t r).loop p).sent ≡ true
      → has_number m ((send_turn self closing t r).loop q).sent ≢ true
  not_both self closing low start t r p q m good apart other hp hq =
      elim (send_turn-has_number self closing t r p m hp) [
        | inl old ↦ elim (send_turn-has_number self closing t r q m hq) [
          | inl old' ↦ ground (arith, apart p q m, other, old, old')
          | inr (next, _) ↦ unused self low start r p m good next old
        ]
        | inr (next, here) ↦ elim (send_turn-has_number self closing t r q m hq) [
          | inl old' ↦ unused self low start r q m good next old'
          | inr (_, here') ↦
              let same = (eq_iff p q).1 (here ∙ sym here') in ground (arith, same, other)
        ]
      ]

  send_turn-Apart :
      (self : String) (closing : String → Option Error) (low : ℕ) (start : String → ℕ) (t : Turn P)
      (r : Senders P)
      → AllGood self low start r
      → Apart r
      → Apart (send_turn self closing t r)
  send_turn-Apart self closing low start t r good apart p q m =
      let r' = send_turn self closing t r in
      elim (Bool-cases (p == q)) [
        | inl same ↦ ground (arith, same)
        | inr other ↦ elim (Bool-cases (has_number m (r'.loop p).sent)) [
          | inr never ↦ ground (arith, other, never)
          | inl hp ↦ elim (Bool-cases (has_number m (r'.loop q).sent)) [
            | inr never ↦ ground (arith, other, never)
            | inl hq ↦ absurd (not_both self closing low start t r p q m good apart other hp hq)
          ]
        ]
      ]

  send_loops-kept :
      (self : String) (closing : String → Option Error) (low : ℕ) (start : String → ℕ)
      (turns : List (Turn P)) (r : Senders P)
      → AllGood self low start r
      → Apart r
      → AllGood self low start (send_loops self closing turns r)
        × Apart (send_loops self closing turns r)
  unfolding send_loops
  send_loops-kept self closing low start [] r good apart = (good, apart)
  send_loops-kept self closing low start (t ∷ turns) r good apart =
      send_loops-kept self closing low start turns (send_turn self closing t r)
        (send_turn-AllGood self closing low start t r good)
        (send_turn-Apart self closing low start t r good apart)

  -- However the loops of the peers take turns, if none has sent anything before: each numbers what it
  -- sends with increasing numbers above the router's counter, puts the router's own name in each
  -- envelope, and counts what it sent; and no number goes to two peers.
  pub send_loops-Increasing :
      (self : String) (closing : String → Option Error) (turns : List (Turn P)) (r : Senders P)
      → ((p : String) → (r.loop p).sent ≡ [])
      → (p q : String) (m : ℕ) → p ≢ q
      → let after = send_loops self closing turns r in
        Increasing self r.seq after.seq (after.loop p).sent
        × ((after.loop p).info.messages_sent
            ≡ (r.loop p).info.messages_sent + length (after.loop p).sent)
        × ((has_number m (after.loop p).sent && has_number m (after.loop q).sent) ≡ false)
  send_loops-Increasing self closing turns r blank p q m apart =
      let start : String → ℕ = λ s. (r.loop s).info.messages_sent in
      let good : AllGood self r.seq start r = λ s. rw (blank s) (omega arith, omega arith) in
      let clear : Apart r = λ s t n. rw (blank s) (ground arith) in
      let kept = send_loops-kept self closing r.seq start turns r good clear in
      let mine = kept.0 p in (mine.0, mine.1, ground (arith, kept.1 p q m, eq_iff p q, apart))

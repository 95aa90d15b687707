-- ===== src/MpiRules/Agreement.antt =====
-- The two ranks of a message come to matching results: src/analysis/include/mpi/SendRule.hpp and
-- RecvRule.hpp there.
use casita.Prelude.{
  ℕ, ◌-◌, ◌≤◌, ◌<◌, ◌≡◌, ◌⊎◌, inl, inr, arith, ltb, leb, ◌==◌, refl, sym, ap, subst, true, false,
  Bool-cases,
}
use casita.Node.Defs.{u64}
use casita.BlameDistribution.Laws.{sub64_lem}
use casita.MpiRules.PointToPoint.{
  Message, Verdict, waits, blamed, balanced, recv_verdict, send_verdict,
}

-- Which of the two waits, with the send first.
pub data Agreed (send recv : Message) : Verdict → Verdict → Type 0 where
  late_receiver :
      send.start_time < recv.start_time
      → recv.start_time < send.end_time
      → Agreed send recv
          (waits (recv.start_time - send.start_time))
          (blamed (recv.start_time - send.start_time))
  late_sender :
      recv.start_time < send.start_time
      → send.start_time < recv.end_time
      → Agreed send recv
          (blamed (send.start_time - recv.start_time))
          (waits (send.start_time - recv.start_time))
  sent_after :
      recv.start_time < send.start_time
      → recv.end_time ≤ send.start_time
      → Agreed send recv balanced (waits (send.start_time - recv.start_time))
  no_wait : send.start_time ≡ recv.start_time → Agreed send recv balanced balanced
  received_after :
      send.start_time < recv.start_time
      → send.end_time ≤ recv.start_time
      → Agreed send recv balanced balanced

lt_or : (a b : ℕ) → (a < b) ⊎ ((b < a) ⊎ (a ≡ b))
lt_or a b = elim (Bool-cases (ltb a b)) [
  | inl t ↦ inl (ground (arith, t))
  | inr t ↦ elim (Bool-cases (ltb b a)) [
    | inl u ↦ inr (inl (ground (arith, u)))
    | inr u ↦ inr (inr (ground (arith, t, u)))
  ]
]

replace_verdicts :
    {send recv : Message} {v v' w w' : Verdict}
    → v ≡ v'
    → w ≡ w'
    → Agreed send recv v' w'
    → Agreed send recv v w
replace_verdicts {send} {recv} {v} {v'} {w} {w'} p q a =
    subst (λ x. Agreed send recv x w) (sym p) (subst (Agreed send recv v') (sym q) a)

module _ (send recv : Message) (h : send.start_time ≤ send.end_time)
    (k : recv.start_time ≤ recv.end_time) (m : send.end_time < u64) (n : recv.end_time < u64) where
  send_first :
      send.start_time < recv.start_time
      → Agreed send recv (send_verdict send recv) (recv_verdict recv send)
  unfolding send_verdict recv_verdict
  send_first l =
      let e = sub64_lem recv.start_time send.start_time (omega (arith, l)) (omega (arith, k, n)) in
      let first : ltb send.start_time recv.start_time ≡ true = ground (arith, l) in
      let before : leb send.start_time recv.start_time ≡ true = ground (arith, l) in
      let not_late : ltb recv.start_time send.start_time ≡ false = ground (arith, l) in
      let not_same : (recv.start_time == send.start_time) ≡ false = ground (arith, l) in
      elim (Bool-cases (ltb recv.start_time send.end_time)) [
        | inl t ↦
            replace_verdicts (rw (send_verdict, before, first, t) (ap waits e))
              (rw (recv_verdict, not_late, not_same, t) (ap blamed e))
              (late_receiver l (ground (arith, t)))
        | inr t ↦
            replace_verdicts (rw (send_verdict, before, first, t) refl)
              (rw (recv_verdict, not_late, not_same, t) refl) (received_after l (ground (arith, t)))
      ]

  recv_first :
      recv.start_time < send.start_time
      → Agreed send recv (send_verdict send recv) (recv_verdict recv send)
  unfolding send_verdict recv_verdict
  recv_first l =
      let e = sub64_lem send.start_time recv.start_time (omega (arith, l)) (omega (arith, h, m)) in
      let not_before : leb send.start_time recv.start_time ≡ false = ground (arith, l) in
      let late : ltb recv.start_time send.start_time ≡ true = ground (arith, l) in
      elim (Bool-cases (ltb send.start_time recv.end_time)) [
        | inl t ↦
            replace_verdicts (rw (send_verdict, not_before, t) (ap blamed e))
              (rw (recv_verdict, late) (ap waits e)) (late_sender l (ground (arith, t)))
        | inr t ↦
            replace_verdicts (rw (send_verdict, not_before, t) refl)
              (rw (recv_verdict, late) (ap waits e)) (sent_after l (ground (arith, t)))
      ]

  same_start :
      send.start_time ≡ recv.start_time
      → Agreed send recv (send_verdict send recv) (recv_verdict recv send)
  unfolding send_verdict recv_verdict
  same_start l =
      let before : leb send.start_time recv.start_time ≡ true = ground (arith, l) in
      let not_first : ltb send.start_time recv.start_time ≡ false = ground (arith, l) in
      let not_late : ltb recv.start_time send.start_time ≡ false = ground (arith, l) in
      let same : (recv.start_time == send.start_time) ≡ true = ground (arith, l) in
      replace_verdicts (rw (send_verdict, before, not_first) refl)
        (rw (recv_verdict, not_late, same) refl) (no_wait l)

-- For a send and a receive whose times are in order and below 2 ^ 64, the ranks' rules agree. If the
-- receive starts during the send, the sender waits up to the receive's start and the receiver is to
-- blame for exactly that time; if the send starts during the receive, the other way round. If the
-- receive ends before the send starts, the receiver waits up to the send's start, and the sender does
-- nothing; otherwise neither rule does anything.
pub verdicts_agree :
    (send recv : Message)
    → send.start_time ≤ send.end_time
    → recv.start_time ≤ recv.end_time
    → send.end_time < u64
    → recv.end_time < u64
    → Agreed send recv (send_verdict send recv) (recv_verdict recv send)
verdicts_agree send recv h k m n = elim (lt_or send.start_time recv.start_time) [
  | inl l ↦ send_first send recv h k m n l
  | inr (inl l) ↦ recv_first send recv h k m n l
  | inr (inr l) ↦ same_start send recv h k m n l
]

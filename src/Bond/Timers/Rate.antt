-- ===== src/Bond/Timers/Rate.antt =====
-- servers/bond_3ad.c: how often ad_tx_machine sends.
use linuxab.Prelude.{
  ℕ, suc, ◌+◌, ◌-◌, ◌*◌, ◌/◌, ◌%◌, ◌<◌, ◌≤◌, ◌≡◌, ap, ◌∙◌, ◌⊎◌, inl, inr, Bool, Option, none, some,
  List, [], ◌∷◌, ◌==◌, if◌then◌else◌, length, arith,
}
use linuxab.Bond.Port.{Port, Lacpdu}
use linuxab.Bond.Timers.{ad_tx_machine}

abbrev one_if : Option Lacpdu → ℕ
one_if none = 0
one_if (some l) = 1

-- The LACPDUs that go out over some ticks. Of what the others make of the port in the meantime, each
-- tick finds a port of its own and whether there is a buffer; the timer is the machine's alone.
unfoldable pub sends : ℕ → ℕ → List (Bool × Port) → ℕ
sends ticks counter [] = 0
sends ticks counter ((sent, port) ∷ rest) =
    let r = ad_tx_machine ticks sent (record port { sm_tx_timer_counter = counter }) in
    one_if (r.0) + sends ticks (r.1.sm_tx_timer_counter) rest

-- What a tick at `counter` can do: with the timer running it counts, and else it may send.
abbrev Tick : ℕ → ℕ → Option Lacpdu × Port → Type 0
Tick ticks counter r =
    ((one_if (r.0) ≡ 0) × (r.1.sm_tx_timer_counter ≡ counter - 1))
    ⊎ ((one_if (r.0) ≡ 1) × (r.1.sm_tx_timer_counter ≡ (ticks / 3) % 65536) × (counter ≤ 1))

tick :
    (ticks : ℕ) (sent : Bool) (p : Port)
    → Tick ticks p.sm_tx_timer_counter (ad_tx_machine ticks sent p)
unfolding ad_tx_machine
tick ticks sent p = ground arith

-- What is left to count before the next transmission, the tick of that one included.
abbrev pub due : ℕ → ℕ
due counter = if counter == 0 then 1 else counter

bound_quiet :
    (w s c c' o n : ℕ)
    → o ≡ 0
    → c' ≡ c - 1
    → s * w + due c' ≤ n + w
    → (o + s) * w + due c ≤ suc n + w
bound_quiet w s c c' o n eo ec ih =
    rw eo (let e : (0 + s) * w ≡ s * w = ap (λ k. k * w) (omega arith) in ground arith)

bound_sent :
    (w s c c' o n : ℕ)
    → o ≡ 1
    → c' ≡ w
    → c ≤ 1
    → 0 < w
    → s * w + due c' ≤ n + w
    → (o + s) * w + due c ≤ suc n + w
bound_sent w s c c' o n eo ec low w_pos ih =
    rw eo (let e : (1 + s) * w ≡ w + s * w = omega arith in ground arith)

-- With at least three ticks to the second, as a u16, whatever the rest of the system makes of the
-- port between the ticks, and with the timer at no more than a third of a second: the LACPDUs that go
-- out, each counted as that third, and the ticks to the next are together no more than the ticks gone
-- by and one more third.
pub sends_bound :
    (ticks counter : ℕ) (rest : List (Bool × Port))
    → 3 ≤ ticks
    → ticks < 65536
    → counter ≤ ticks / 3
    → sends ticks counter rest * (ticks / 3) + due counter ≤ length rest + ticks / 3
unfolding sends
sends_bound ticks counter [] three small low = ground arith
sends_bound ticks counter ((sent, p) ∷ rest) three small low =
    let r = ad_tx_machine ticks sent (record p { sm_tx_timer_counter = counter }) in
    let c' = r.1.sm_tx_timer_counter in
    let w_pos : 0 < ticks / 3 = omega arith in
    elim (tick ticks sent (record p { sm_tx_timer_counter = counter })) [
      | inl t ↦
          bound_quiet (ticks / 3) (sends ticks c' rest) counter c' (one_if (r.0)) (length rest) t.0
            t.1 (sends_bound ticks c' rest three small (let e = t.1 in omega arith))
      | inr t ↦
          let e : c' ≡ ticks / 3 = t.1 ∙ (omega arith) in
          bound_sent (ticks / 3) (sends ticks c' rest) counter c' (one_if (r.0)) (length rest) t.0 e
            t.2 w_pos (sends_bound ticks c' rest three small (omega arith))
    ]

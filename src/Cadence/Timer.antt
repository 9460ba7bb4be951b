-- ===== src/Cadence/Timer.antt =====
-- The send timer over a run of polls: it never sends faster than the interval, and loses none of it
-- while the polls come at least once an interval.
use goldnet_godot.Common.{
  ℕ, ◌+◌, ◌-◌, ◌*◌, ◌/◌, ◌^◌, ◌<◌, ◌≤◌, ◌≡◌, true, false, List, [], ◌∷◌, if◌then◌else◌, arith, suc,
  Bool-cases, inl, inr,
}
use goldnet_godot.Cadence.{send_timer}

-- How many of a run of polls send, and where the timer stands after it.
pub sends : ℕ → ℕ → List ℕ → ℕ
sends iv last [] = 0
sends iv last (now ∷ polls) =
    let rest = sends iv (send_timer iv now last).0 polls in
    if (send_timer iv now last).1 then suc rest else rest

pub stands : ℕ → ℕ → List ℕ → ℕ
stands iv last [] = last
stands iv last (now ∷ polls) = stands iv (send_timer iv now last).0 polls

-- The times of the polls after `now`: they do not go back, and stay below the horizon `end`.
abbrev pub Clock : ℕ → ℕ → List ℕ → Type 0
Clock end now [] = now < end
Clock end now (next ∷ polls) = (now ≤ next) × Clock end next polls

-- The last of them.
abbrev pub last_poll : ℕ → List ℕ → ℕ
last_poll now [] = now
last_poll now (next ∷ polls) = last_poll next polls

-- Each comes at most an interval after the one before.
abbrev pub Prompt : ℕ → ℕ → List ℕ → Type 0
Prompt iv now [] = Unit
Prompt iv now (next ∷ polls) = (next ≤ now + iv) × Prompt iv next polls

-- A timer that has been started stands less than an interval behind the last poll.
abbrev pub Started : ℕ → ℕ → ℕ → Type 0
Started iv now last = (0 < last) × (last ≤ now) × (now < last + iv)

Clock-lt : (end now : ℕ) (polls : List ℕ) → Clock end now polls → now < end
Clock-lt end now [] h = h
Clock-lt end now (next ∷ polls) (le, h) = omega (arith, Clock-lt end next polls h)

-- One poll: the timer stays less than an interval behind it, moves by an interval at least if it sends
-- and not at all if it doesn't.
send_timer_step :
    (iv now last : ℕ)
    → 0 < iv
    → 0 < last
    → last ≤ now
    → now + iv < 2 ^ 63
    → Started iv now (send_timer iv now last).0
      × ((send_timer iv now last).1 ≡ true → last + iv ≤ (send_timer iv now last).0)
      × ((send_timer iv now last).1 ≡ false → (send_timer iv now last).0 ≡ last)
unfolding send_timer
send_timer_step iv now last hi hl hn hb =
    ((ground arith, ground arith, ground arith), ground arith, ground arith)

-- A poll less than two intervals after where the timer stands moves it by one interval exactly.
send_timer_prompt :
    (iv now last : ℕ)
    → 0 < iv
    → 0 < last
    → last ≤ now
    → now < last + iv + iv
    → now + iv < 2 ^ 63
    → (send_timer iv now last).1 ≡ true
    → (send_timer iv now last).0 ≡ last + iv
unfolding send_timer
send_timer_prompt iv now last hi hl hn hp hb h = ground arith

-- The first poll starts the timer and sends nothing.
send_timer_start : (iv now : ℕ) → 0 < iv → now + iv < 2 ^ 63 → send_timer iv now 0 ≡ (now, false)
unfolding send_timer
send_timer_start iv now hi hb = ground arith

-- From a started timer: the sends of a run of polls, an interval each, fit into the time since.
sends_bounded :
    (iv end now last : ℕ) (polls : List ℕ)
    → 0 < iv
    → end + iv < 2 ^ 63
    → Started iv now last
    → Clock end now polls
    → (last + sends iv last polls * iv ≤ stands iv last polls)
      × Started iv (last_poll now polls) (stands iv last polls)
unfolding sends stands
sends_bounded iv end now last [] hi he st c = (omega arith, st)
sends_bounded iv end now last (next ∷ polls) hi he (hl, hn, hs) (up, c) =
    let below = Clock-lt end next polls c in
    let (st, sent, still) = send_timer_step iv next last hi hl (omega arith) (omega arith) in
    let (ih, ended) = sends_bounded iv end next (send_timer iv next last).0 polls hi he st c in
    (
      elim (Bool-cases (send_timer iv next last).1) [
        | inl e ↦ rw e (omega (arith, sent e))
        | inr e ↦ rw e (omega (arith, still e))
      ],
      ended,
    )

sends_exact :
    (iv end now last : ℕ) (polls : List ℕ)
    → 0 < iv
    → end + iv < 2 ^ 63
    → Started iv now last
    → Clock end now polls
    → Prompt iv now polls
    → stands iv last polls ≡ last + sends iv last polls * iv
unfolding sends stands
sends_exact iv end now last [] hi he st c pr = omega arith
sends_exact iv end now last (next ∷ polls) hi he (hl, hn, hs) (up, c) (gap, pr) =
    let below = Clock-lt end next polls c in
    let (st, sent, still) = send_timer_step iv next last hi hl (omega arith) (omega arith) in
    let exact = send_timer_prompt iv next last hi hl (omega arith) (omega arith) (omega arith) in
    let ih = sends_exact iv end next (send_timer iv next last).0 polls hi he st c pr in
    elim (Bool-cases (send_timer iv next last).1) [
      | inl e ↦ rw e (omega (arith, exact e))
      | inr e ↦ rw e (omega (arith, still e))
    ]

first-Started : (iv first : ℕ) → 0 < iv → 0 < first → Started iv first first
first-Started iv first hi hf = omega arith

sends_start :
    (iv first : ℕ) (polls : List ℕ)
    → 0 < iv
    → first + iv < 2 ^ 63
    → sends iv 0 (first ∷ polls) ≡ sends iv first polls
unfolding sends
sends_start iv first polls hi hb = rw (send_timer_start iv first hi hb)

-- However the polls come, a server that starts its timer at the first of them never sends more often
-- than once an interval: its sends, an interval each, fit into the time since.
pub sends_at_most :
    (iv end first : ℕ) (polls : List ℕ)
    → 0 < iv
    → 0 < first
    → end + iv < 2 ^ 63
    → Clock end first polls
    → first + sends iv 0 (first ∷ polls) * iv ≤ last_poll first polls
sends_at_most iv end first polls hi hf he c =
    let (fit, (a, b, d)) =
      sends_bounded iv end first first polls hi he (first-Started iv first hi hf) c in
    let below = Clock-lt end first polls c in
    rw (sends_start iv first polls hi (omega arith)) (omega arith)

quotient : (iv k x : ℕ) → 0 < iv → k * iv ≤ x → x < k * iv + iv → k ≡ x / iv
quotient iv k x hi lo up = grind arith

-- If the polls come at least once an interval, no part of an interval is lost: the sends so far are
-- the whole intervals since the first poll, however the polls fall between them.
pub sends_every_interval :
    (iv end first : ℕ) (polls : List ℕ)
    → 0 < iv
    → 0 < first
    → end + iv < 2 ^ 63
    → Clock end first polls
    → Prompt iv first polls
    → sends iv 0 (first ∷ polls) ≡ (last_poll first polls - first) / iv
sends_every_interval iv end first polls hi hf he c pr =
    let (fit, (a, b, d)) =
      sends_bounded iv end first first polls hi he (first-Started iv first hi hf) c in
    let exact = sends_exact iv end first first polls hi he (first-Started iv first hi hf) c pr in
    let below = Clock-lt end first polls c in
    rw (sends_start iv first polls hi (omega arith)) (
      quotient iv (sends iv first polls) (last_poll first polls - first) hi (omega arith)
        (omega arith))

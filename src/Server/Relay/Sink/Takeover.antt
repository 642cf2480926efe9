-- ===== src/Server/Relay/Sink/Takeover.antt =====
-- Which socket a line reaches when one browser has taken over from another.
use Prim.Native.Nat.{◌+◌, ◌^◌, ◌≤◌, ◌<◌}
use mjx_acp_agent.Server.Relay.Sink.{next_generation, is_current, detach, send, Attached, attach}
use mjx_acp_agent.Prelude.{
  ◌∙◌, ap, ==-refl, arith, sym, none, ==-ne, ◌≡◌, ◌≢◌, some, Bool, ℕ, List, [], ◌∷◌, true, false,
  nat_eq, refl,
}

-- What sockets do to the sink: arrive, leave under their number, and have a line sent to them while the
-- sockets of some attachments are alive.
pub data Op : Type 0 where
  arrives : Op
  leaves : ℕ → Op
  sends : (ℕ → Bool) → Op

pub step : Attached → Op → Attached
step slot arrives = (attach slot).0
step slot (leaves g) = detach slot g
step slot (sends alive) = (send alive slot).0

pub run : Attached → List Op → Attached
run slot [] = slot
run slot (o ∷ os) = run (step slot o) os

-- No browser arrives, socket `g` does not leave, and it is alive whenever a line is sent.
abbrev pub Stays : ℕ → List Op → Type 0
Stays g [] = Unit
Stays g (arrives ∷ os) = ⊥
Stays g (leaves j ∷ os) = (j ≢ g) × Stays g os
Stays g (sends alive ∷ os) = (alive g ≡ true) × Stays g os

abbrev at : ℕ → Attached
at g = record { generation = g; sender = some g }

send_alive : (g : ℕ) (alive : ℕ → Bool) → alive g ≡ true → send alive (at g) ≡ (at g, some g)
unfolding send
send_alive g alive h = rw h

run-Stays : (g : ℕ) (os : List Op) → Stays g os → run (at g) os ≡ at g
unfolding run step attach detach send
run-Stays g [] w = refl
run-Stays g (arrives ∷ os) w = absurd w
run-Stays g (leaves j ∷ os) w = rw (==-ne g j (λ e. w.0 (sym e))) (run-Stays g os w.1)
run-Stays g (sends alive ∷ os) w =
    ap (λ sent. run sent.0 os) (send_alive g alive w.0) ∙ run-Stays g os w.1

-- A socket that has taken over is sent every line for as long as it stays, whichever sockets before it
-- leave late; a line after it has left goes nowhere, and no earlier socket's number is the current one.
pub takeover :
    (slot : Attached) (os : List Op) (alive : ℕ → Bool)
    → slot.generation + 1 < 2 ^ 64
    → Stays (slot.generation + 1) os
    → alive (slot.generation + 1) ≡ true
    → let (attached, g) = attach slot in
      let later = run attached os in
      ((send alive later).1 ≡ some g)
      × ((send alive (detach later g)).1 ≡ none)
      × ((j : ℕ) → j ≤ slot.generation → is_current later j ≡ false)
unfolding attach send detach is_current
takeover slot os alive h w here =
    let e : next_generation slot.generation ≡ slot.generation + 1 = omega arith in
    let here' = run-Stays (slot.generation + 1) os w in
    rw (e, here', here, ==-refl (slot.generation + 1))
      (refl, refl, λ j le. ==-ne (slot.generation + 1) j (omega arith))

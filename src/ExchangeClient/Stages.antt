-- ===== src/ExchangeClient/Stages.antt =====
-- The client as a state machine.
use sneso_ip.Common.{
  ℕ, Bool, false, if◌then◌else◌, ◌+◌, ◌≤◌, ◌<◌, ◌≡◌, ◌⊎◌, true, List, [], ◌∷◌, ◌++◌, arith, Bytes,
  drop, length,
}
use sneso_ip.Common.Int.{ℤ}
use sneso_ip.ExchangeClient.{
  ExchangeClient, Locals, Received, bytes, failed, handle, take_received, round, run,
}

-- Where the client is: running in one of the stages 0, 1 and 2, or stopped in stage 2.
abbrev pub IsStaged : ExchangeClient → Type 0
IsStaged c = (c.stage < 3) × ((c.is_running ≡ true) ⊎ (c.stage ≡ 2))

handle-IsStaged :
    (c : ExchangeClient) (rx : Bytes)
    → IsStaged c
    → IsStaged (handle c rx) × ((handle c rx).stage ≤ c.stage + 1) × (c.stage ≤ (handle c rx).stage)
unfolding handle
handle-IsStaged c rx h = ground arith

round-IsStaged :
    (c : ExchangeClient) (l : Locals) (sent : ℤ) (r : Received)
    → IsStaged c
    → let (c', _, _) = round c l sent r in
      IsStaged c' × (c'.stage ≤ c.stage + 1) × (c.stage ≤ c'.stage)
unfolding round take_received
round-IsStaged c l sent failed h = ground arith
round-IsStaged c l sent (bytes b) h =
    ground (arith, handle-IsStaged c (b ++ drop (length b) l.rx_buffer) h)

run-IsStaged_end :
    (c : ExchangeClient) (l : Locals) (rs : List (ℤ × Received))
    → IsStaged c
    → let (c', _, _) = run c l rs in IsStaged c' × (c.stage ≤ c'.stage)
unfolding run
run-IsStaged_end c l [] h = (h, omega arith)
run-IsStaged_end c l ((sent, r) ∷ rs) h =
    let (h', up, down) = round-IsStaged c l sent r h in
    let next = run-IsStaged_end (round c l sent r).0 (round c l sent r).1 rs h' in
    ground (arith, next)

-- The stage after each round, while the loop runs.
abbrev pub stages : ExchangeClient → Locals → List (ℤ × Received) → List ℕ
stages c l [] = []
stages c l ((sent, r) ∷ rs) =
    let (c', l', _) = round c l sent r in
    let more = stages c' l' rs in if c.is_running then c'.stage ∷ more else []

-- Each stage is the one before or the next one.
abbrev pub Climbs : ℕ → List ℕ → Type 0
Climbs s [] = Unit {0}
Climbs s (t ∷ ts) = (s ≤ t) × (t ≤ s + 1) × Climbs t ts

if-Climbs : (b : Bool) (s : ℕ) (ts : List ℕ) → Climbs s ts → Climbs s (if b then ts else [])
if-Climbs true s ts h = h
if-Climbs false s ts h = tt

run-Climbs :
    (c : ExchangeClient) (l : Locals) (rs : List (ℤ × Received))
    → IsStaged c
    → Climbs c.stage (stages c l rs)
run-Climbs c l [] h = tt
run-Climbs c l ((sent, r) ∷ rs) h =
    let (h', up, down) = round-IsStaged c l sent r h in
    let more = run-Climbs (round c l sent r).0 (round c l sent r).1 rs h' in
    if-Climbs c.is_running c.stage ((round c l sent r).0.stage ∷ stages _ _ rs) (down, up, more)

-- Whatever the server sends, from a proper stage on the client keeps to its stages: after each round it
-- is in the stage before or in the next one, it never comes behind the stage 2, and it stops only there.
pub run-IsStaged :
    (c : ExchangeClient) (l : Locals) (rs : List (ℤ × Received))
    → IsStaged c
    → let (c', _, _) = run c l rs in
      IsStaged c' × (c.stage ≤ c'.stage) × Climbs c.stage (stages c l rs)
run-IsStaged c l rs h =
    let (staged, up) = run-IsStaged_end c l rs h in (staged, up, run-Climbs c l rs h)

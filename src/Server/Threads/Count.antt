-- ===== src/Server/Threads/Count.antt =====
-- The counter of clients, in schedules in which no two threads change it at once.
use sneso_ip.Common.{ℕ, ◌%◌, ◌≡◌, refl, Option, List, [], ◌∷◌, arith, Bytes, get_or}
use sneso_ip.Server.State.{Family, Server}
use sneso_ip.Server.Accept.{
  Outcome, accept_failed, option_failed, no_slot, thread_failed, spawned, accept,
}
use sneso_ip.Server.Conn.{
  Conn, Entry, refused, hangs, entered, Received, enter, register, receive, leave,
}
use sneso_ip.Server.Threads.{
  Thread, created, numbered, counting, talking, leaving, ended, System, Event, accepts, runs, hears,
  spawn, take_entry, hear, run, step, steps,
}
use sneso_ip.Server.Threads.Total.{talks, counted, total_moved, total-append}
use sneso_ip.Server.Threads.Updates.{
  IsOwned, IsSerial, read_value, step-IsOwned, num_clients-receive, num_clients-accept,
  num_clients-enter,
}

-- The counter agrees with the threads, as far as a `uint8_t` can.
abbrev pub IsCounted : System → Type 0
IsCounted y = y.server.num_clients ≡ counted y.threads % 256

pub counted-spawn : (ts : List Thread) (o : Outcome) → counted (spawn ts o) ≡ counted ts
unfolding spawn
counted-spawn ts accept_failed = refl
counted-spawn ts option_failed = refl
counted-spawn ts no_slot = refl
counted-spawn ts thread_failed = refl
counted-spawn ts spawned = omega (arith, total-append talks ts (created ∷ []))

take_entry-IsCounted :
    (y : System) (i : ℕ) (r : Entry)
    → get_or y.threads i ended ≡ created
    → ((s : Server) (c : Conn) → r ≡ entered s c → s.num_clients ≡ y.server.num_clients)
    → IsCounted y
    → IsCounted (take_entry y i r)
unfolding take_entry
take_entry-IsCounted y i (entered s c) e same h =
    omega (arith, same s c refl, total_moved talks y.threads i created (numbered c) e (cc))
take_entry-IsCounted y i refused e same h =
    omega (arith, total_moved talks y.threads i created ended e (cc))
take_entry-IsCounted y i hangs e same h = h

hear-IsCounted :
    (y : System) (i : ℕ) (t : Thread) (r : Received)
    → get_or y.threads i ended ≡ t
    → IsCounted y
    → IsCounted (hear y i t r)
unfolding hear
hear-IsCounted y i (talking c) r e h = omega (
  arith,
  num_clients-receive y.server c r,
  total_moved talks y.threads i (talking c) (talking (receive y.server c r).1) e (cc),
)
hear-IsCounted y i created r e h = h
hear-IsCounted y i (numbered c) r e h = h
hear-IsCounted y i (counting c n) r e h = h
hear-IsCounted y i (leaving n) r e h = h
hear-IsCounted y i ended r e h = h

module _ (inet_ntop : Family → Bytes → ℕ → Option Bytes) where
  run-IsCounted :
      (y : System) (i : ℕ) (t : Thread)
      → get_or y.threads i ended ≡ t
      → IsOwned y
      → IsCounted y
      → IsCounted (run inet_ntop y i t)
  unfolding run register leave
  run-IsCounted y i created e own h =
      take_entry-IsCounted y i (enter inet_ntop y.server) e
        (λ s c q. num_clients-enter inet_ntop y.server s c q) h
  run-IsCounted y i (numbered c) e own h =
      omega
        (arith, total_moved talks y.threads i (numbered c) (counting c y.server.num_clients) e (cc))
  run-IsCounted y i (counting c n) e own h =
      let s = record y.server { num_clients = n } in
      omega (
        arith,
        read_value y i (counting c n) e own,
        total_moved talks y.threads i (counting c n) (talking (register s c).1) e (cc),
      )
  run-IsCounted y i (talking c) e own h =
      ground
        (arith, total_moved talks y.threads i (talking c) (leaving y.server.num_clients) e (cc))
  run-IsCounted y i (leaving n) e own h = omega (
    arith,
    read_value y i (leaving n) e own,
    total_moved talks y.threads i (leaving n) ended e (cc),
  )
  run-IsCounted y i ended e own h = h

  step-IsCounted :
      (y : System) (e : Event) → IsOwned y → IsCounted y → IsCounted (step inet_ntop y e)
  unfolding step
  step-IsCounted y (accepts a) own h =
      omega (arith, num_clients-accept y.server a, counted-spawn y.threads (accept y.server a).1)
  step-IsCounted y (runs i) own h = run-IsCounted y i (get_or y.threads i ended) refl own h
  step-IsCounted y (hears i r) own h = hear-IsCounted y i (get_or y.threads i ended) r refl h

  -- Where no thread reads the counter while another has read it and has yet to write it,
  -- `u8NumClients` is the number of threads that have counted themselves in and not out, modulo 256,
  -- under every such interleaving of the threads and of `main`, if it is so at the start and at most
  -- one thread has read it there.
  pub steps-IsCounted :
      (y : System) (es : List Event)
      → IsSerial inet_ntop y es
      → IsOwned y
      → IsCounted y
      → IsCounted (steps inet_ntop y es)
  unfolding steps
  steps-IsCounted y [] q own h = h
  steps-IsCounted y (e ∷ es) q own h =
      steps-IsCounted (step inet_ntop y e) es q.1 (step-IsOwned inet_ntop y e q.0 own)
        (step-IsCounted y e own h)

-- ===== src/Server/Threads.antt =====
-- The server with its threads: `main` accepts clients while the threads run, and the environment
-- chooses who takes the next step. No lock guards `u8NumClients`: a thread takes its ID in one step,
-- and where it counts itself in or out, it reads the counter in one step and writes it in a later
-- one, so that other threads can come between.
pub mod Updates
pub mod Total
pub mod Count
pub mod Race
mod Tests
pub mod Slots
use sneso_ip.Common.{
  ℕ, suc, ◌+◌, Bool, true, false, Option, none, some, List, [], ◌∷◌, ◌++◌, Bytes, get_or, set,
}
use sneso_ip.Server.Config.{Config}
use sneso_ip.Server.State.{Family, SockAddr, Client, Server}
use sneso_ip.Server.Accept.{
  Accepted, Outcome, accept_failed, option_failed, no_slot, thread_failed, spawned, accept,
}
use sneso_ip.Server.Conn.{
  Conn, Entry, refused, hangs, entered, Received, enter, register, receive, leave,
}

-- Where a thread stands: created, past taking its ID, with the counter read to count itself in, in
-- its loop, with the counter read to count itself out, or ended.
pub data Thread : Type 0 where
  created : Thread
  numbered : Conn → Thread
  counting : Conn → ℕ → Thread
  talking : Conn → Thread
  leaving : ℕ → Thread
  ended : Thread

pub record System : Type 0 where
  pub server : Server
  pub threads : List Thread

-- `main` accepts, or a thread goes on; `hears` is for a round of the loop with what `recv` returned.
pub data Event : Type 0 where
  accepts : Accepted → Event
  runs : ℕ → Event
  hears : ℕ → Received → Event

unfoldable pub spawn : List Thread → Outcome → List Thread
spawn ts spawned = ts ++ (created ∷ [])
spawn ts _ = ts

unfoldable pub hear : System → ℕ → Thread → Received → System
hear y i (talking c) r =
    let (s, c', _) = receive y.server c r in
    record { server = s; threads = set y.threads i (talking c') }
hear y i _ r = y

unfoldable pub take_entry : System → ℕ → Entry → System
take_entry y i (entered s c) = record { server = s; threads = set y.threads i (numbered c) }
take_entry y i refused = record y { threads = set y.threads i ended }
take_entry y i hangs = y

module _ (inet_ntop : Family → Bytes → ℕ → Option Bytes) where
  -- A created thread takes its ID. A numbered one, and one whose loop has ended, read the counter, and
  -- then write what follows from the value that they have read.
  unfoldable pub run : System → ℕ → Thread → System
  run y i created = take_entry y i (enter inet_ntop y.server)
  run y i (numbered c) = record y { threads = set y.threads i (counting c y.server.num_clients) }
  run y i (counting c n) =
      let (s, c', _) = register (record y.server { num_clients = n }) c in
      record { server = s; threads = set y.threads i (talking c') }
  run y i (talking c) = elim c.is_connected [
    | true ↦ y
    | false ↦ record y { threads = set y.threads i (leaving y.server.num_clients) }
  ]
  run y i (leaving n) = record {
    server = leave (record y.server { num_clients = n });
    threads = set y.threads i ended;
  }
  run y i ended = y

  unfoldable pub step : System → Event → System
  step y (accepts a) =
      let (s, o) = accept y.server a in record { server = s; threads = spawn y.threads o }
  step y (runs i) = run y i (get_or y.threads i ended)
  step y (hears i r) = hear y i (get_or y.threads i ended) r

  unfoldable pub steps : System → List Event → System
  steps y [] = y
  steps y (e ∷ es) = steps (step y e) es

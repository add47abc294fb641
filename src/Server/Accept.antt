-- ===== src/Server/Accept.antt =====
-- `main` of Server/src/Server.c: its checks before the server listens, and one round of its loop.
-- The results of the socket calls are arguments.
use sneso_ip.Common.{ℕ, ◌%◌, Bool, true, not, leb, ◌==◌, if◌then◌else◌}
use sneso_ip.Server.State.{SockAddr, Server}

-- Whether the calls of `main` before the loop succeed.
pub record Setup : Type 0 where
  pub ini_parsed : Bool
  pub option_set : Bool
  pub listens : Bool

pub data Start : Type 0 where
  exits : ℕ → Start
  serves : Server → Start

-- Lines 111 to 172. A failure of `socket` or `bind` is reported at most; the code goes on.
unfoldable pub start : Setup → Server → Start
start u s =
    if not u.ini_parsed
    then exits 1
    else if s.config.max_clients == 0
    then exits 1
    else if not (s.config.max_clients % 2 == 0)
    then exits 1
    else if not u.option_set
    then exits 1
    else if not u.listens
    then exits 1
    else serves (record s { is_running = true })

pub data Accepted : Type 0 where
  failed : Accepted
  connected : SockAddr → Bool → Bool → Accepted

pub data Outcome : Type 0 where
  accept_failed option_failed no_slot thread_failed spawned : Outcome

-- Lines 174 to 202: `connected a keepalive thread` says that a client with address `a` was accepted,
-- and whether `setsockopt` and `pthread_create` succeed.
unfoldable pub accept : Server → Accepted → Server × Outcome
accept s failed = (s, accept_failed)
accept s (connected a keepalive thread) =
    let s' = record s { client_addr = a } in
    if not keepalive
    then (s', option_failed)
    else if leb s.config.max_clients s.num_clients
    then (s', no_slot)
    else if not thread
    then (s', thread_failed)
    else (s', spawned)

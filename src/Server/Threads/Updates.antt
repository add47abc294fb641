-- ===== src/Server/Threads/Updates.antt =====
-- The changes of the counter of clients, as a read and a later write.
use sneso_ip.Common.{
  ℕ, ◌+◌, ◌≤◌, ◌≡◌, ◌≢◌, refl, sym, subst, Bool, true, false, Option, List, [], ◌∷◌, arith, Bytes,
  get_or, set, All, All-append,
}
use sneso_ip.Server.State.{Family, Server}
use sneso_ip.Server.Accept.{
  Accepted, Outcome, accept_failed, option_failed, no_slot, thread_failed, spawned, accept,
}
use sneso_ip.Server.Conn.{
  Conn, Entry, refused, hangs, entered, Received, enter, receive, full_command, say_bye,
}
use sneso_ip.Server.Threads.{
  Thread, created, numbered, counting, talking, leaving, ended, System, Event, accepts, runs, hears,
  spawn, take_entry, hear, run, step,
}
use sneso_ip.Server.Threads.Total.{updates, updating, total_moved, total-append, All-set, All-get}

-- A thread that has read the counter has read `n`.
abbrev pub HasRead : ℕ → Thread → Type 0
HasRead n created = Unit {0}
HasRead n (numbered c) = Unit {0}
HasRead n (counting c m) = m ≡ n
HasRead n (talking c) = Unit {0}
HasRead n (leaving m) = m ≡ n
HasRead n ended = Unit {0}

-- At most one thread has read the counter and has yet to write it, and it has the counter's value.
pub record IsOwned (y : System) : Type 0 where
  pub one : updating y.threads ≤ 1
  pub read : All (HasRead y.server.num_clients) y.threads

pub read_value :
    (y : System) (i : ℕ) (t : Thread)
    → get_or y.threads i ended ≡ t
    → IsOwned y
    → HasRead y.server.num_clients t
read_value y i t e own =
    subst (HasRead y.server.num_clients) e
      (All-get (HasRead y.server.num_clients) y.threads i own.read tt)

-- The step of a thread that reads the counter.
abbrev pub IsReader : Thread → Type 0
IsReader created = ⊥
IsReader (numbered c) = Unit {0}
IsReader (counting c n) = ⊥
IsReader (talking c) = c.is_connected ≡ false
IsReader (leaving n) = ⊥
IsReader ended = ⊥

-- A thread reads the counter only where no other has yet to write it.
abbrev pub IsSerialStep : System → Event → Type 0
IsSerialStep y (accepts a) = Unit {0}
IsSerialStep y (runs i) = IsReader (get_or y.threads i ended) → updating y.threads ≡ 0
IsSerialStep y (hears i r) = Unit {0}

pub num_clients-receive :
    (s : Server) (c : Conn) (r : Received) → (receive s c r).0.num_clients ≡ s.num_clients
unfolding receive full_command say_bye
num_clients-receive s c r = ground arith

pub num_clients-accept : (s : Server) (a : Accepted) → (accept s a).0.num_clients ≡ s.num_clients
unfolding accept
num_clients-accept s a = ground arith

none_read : (n : ℕ) (ts : List Thread) → updating ts ≡ 0 → All (HasRead n) ts
none_read n [] h = tt
none_read n (created ∷ ts) h = (tt, none_read n ts (omega arith))
none_read n (numbered c ∷ ts) h = (tt, none_read n ts (omega arith))
none_read n (counting c m ∷ ts) h = absurd (omega arith)
none_read n (talking c ∷ ts) h = (tt, none_read n ts (omega arith))
none_read n (leaving m ∷ ts) h = absurd (omega arith)
none_read n (ended ∷ ts) h = (tt, none_read n ts (omega arith))

-- A thread moves on while the counter stays.
moved-IsOwned :
    (y : System) (i : ℕ) (t u : Thread) (s : Server)
    → get_or y.threads i ended ≡ t
    → t ≢ ended
    → s.num_clients ≡ y.server.num_clients
    → updating y.threads + updates u ≤ 1 + updates t
    → HasRead y.server.num_clients u
    → IsOwned y
    → IsOwned (record { server = s; threads = set y.threads i u })
moved-IsOwned y i t u s e ne same most read own = record {
  one = omega (arith, total_moved updates y.threads i t u e ne, most);
  read =
      subst (λ (n : ℕ). All (HasRead n) (set y.threads i u)) (sym same)
        (All-set (HasRead y.server.num_clients) y.threads i u own.read read);
}

-- The one thread that has read the counter writes it.
written-IsOwned :
    (y : System) (i : ℕ) (t u : Thread) (s : Server)
    → get_or y.threads i ended ≡ t
    → t ≢ ended
    → updates t ≡ 1
    → updates u ≡ 0
    → IsOwned y
    → IsOwned (record { server = s; threads = set y.threads i u })
written-IsOwned y i t u s e ne was is own =
    let moved = total_moved updates y.threads i t u e ne in
    record {
      one = omega (arith, moved, own.one);
      read = none_read s.num_clients (set y.threads i u) (omega (arith, moved, own.one));
    }

spawn-IsOwned :
    (n : ℕ) (ts : List Thread) (o : Outcome)
    → updating ts ≤ 1
    → All (HasRead n) ts
    → (updating (spawn ts o) ≤ 1) × All (HasRead n) (spawn ts o)
unfolding spawn
spawn-IsOwned n ts accept_failed h r = (h, r)
spawn-IsOwned n ts option_failed h r = (h, r)
spawn-IsOwned n ts no_slot h r = (h, r)
spawn-IsOwned n ts thread_failed h r = (h, r)
spawn-IsOwned n ts spawned h r = (
  omega (arith, total-append updates ts (created ∷ [])),
  All-append (HasRead n) ts (created ∷ []) r (tt, tt),
)

take_entry-IsOwned :
    (y : System) (i : ℕ) (r : Entry)
    → get_or y.threads i ended ≡ created
    → ((s : Server) (c : Conn) → r ≡ entered s c → s.num_clients ≡ y.server.num_clients)
    → IsOwned y
    → IsOwned (take_entry y i r)
unfolding take_entry
take_entry-IsOwned y i (entered s c) e same own =
    moved-IsOwned y i created (numbered c) s e (cc) (same s c refl) (omega (arith, own.one)) tt own
take_entry-IsOwned y i refused e same own =
    moved-IsOwned y i created ended y.server e (cc) refl (omega (arith, own.one)) tt own
take_entry-IsOwned y i hangs e same own = own

hear-IsOwned :
    (y : System) (i : ℕ) (t : Thread) (r : Received)
    → get_or y.threads i ended ≡ t
    → IsOwned y
    → IsOwned (hear y i t r)
unfolding hear
hear-IsOwned y i (talking c) r e own =
    moved-IsOwned y i (talking c) (talking (receive y.server c r).1) (receive y.server c r).0 e (cc)
      (num_clients-receive y.server c r) (omega (arith, own.one)) tt own
hear-IsOwned y i created r e own = own
hear-IsOwned y i (numbered c) r e own = own
hear-IsOwned y i (counting c n) r e own = own
hear-IsOwned y i (leaving n) r e own = own
hear-IsOwned y i ended r e own = own

module _ (inet_ntop : Family → Bytes → ℕ → Option Bytes) where
  pub num_clients-enter :
      (s s' : Server) (c : Conn) → enter inet_ntop s ≡ entered s' c → s'.num_clients ≡ s.num_clients
  unfolding enter
  num_clients-enter s s' c e = ground arith

  run-IsOwned :
      (y : System) (i : ℕ) (t : Thread)
      → get_or y.threads i ended ≡ t
      → (IsReader t → updating y.threads ≡ 0)
      → IsOwned y
      → IsOwned (run inet_ntop y i t)
  unfolding run
  run-IsOwned y i created e q own =
      take_entry-IsOwned y i (enter inet_ntop y.server) e (num_clients-enter y.server) own
  run-IsOwned y i (numbered c) e q own =
      moved-IsOwned y i (numbered c) (counting c y.server.num_clients) y.server e (cc) refl
        (omega (arith, q tt)) refl own
  run-IsOwned y i (counting c n) e q own =
      written-IsOwned y i (counting c n) _ _ e (cc) refl refl own
  run-IsOwned y i (talking c) e q own = after c.is_connected refl
    where
      after :
          (up : Bool)
          → c.is_connected ≡ up
          → IsOwned (elim up [
            | true ↦ y
            | false ↦ record y { threads = set y.threads i (leaving y.server.num_clients) }
          ])
      after true h = own
      after false h =
          moved-IsOwned y i (talking c) (leaving y.server.num_clients) y.server e (cc) refl
            (omega (arith, q h)) refl own
  run-IsOwned y i (leaving n) e q own = written-IsOwned y i (leaving n) ended _ e (cc) refl refl own
  run-IsOwned y i ended e q own = own

  pub step-IsOwned :
      (y : System) (e : Event) → IsSerialStep y e → IsOwned y → IsOwned (step inet_ntop y e)
  unfolding step
  step-IsOwned y (accepts a) q own =
      let n = (accept y.server a).0.num_clients in
      let same = num_clients-accept y.server a in
      let read = subst (λ (k : ℕ). All (HasRead k) y.threads) (sym same) own.read in
      let (one, all) = spawn-IsOwned n y.threads (accept y.server a).1 own.one read in
      record { one = one; read = all }
  step-IsOwned y (runs i) q own = run-IsOwned y i (get_or y.threads i ended) refl q own
  step-IsOwned y (hears i r) q own = hear-IsOwned y i (get_or y.threads i ended) r refl own

  -- No two changes of the counter overlap.
  abbrev pub IsSerial : System → List Event → Type 0
  IsSerial y [] = Unit {0}
  IsSerial y (e ∷ es) = IsSerialStep y e × IsSerial (step inet_ntop y e) es

-- ===== src/Server/Threads/Slots.antt =====
-- The limit on clients, for a schedule in which `main` accepts a client only when the thread of every
-- client before has counted itself, and no two threads change the counter at once.
use sneso_ip.Common.{
  ℕ, ◌+◌, ◌≤◌, ◌<◌, ◌≡◌, ◌≢◌, ap, subst, ◌∙◌, refl, Bool, true, false, Option, List, [], ◌∷◌, arith,
  Bytes, get_or, set, All, All-append,
}
use sneso_ip.Server.Config.{Config}
use sneso_ip.Server.State.{Family, Server}
use sneso_ip.Server.Accept.{
  Accepted, Outcome, accept_failed, option_failed, no_slot, thread_failed, spawned, accept,
}
use sneso_ip.Server.Conn.{
  Conn, Entry, refused, hangs, entered, Received, enter, register, receive, leave, full_command,
  say_bye, answer,
}
use sneso_ip.Server.Threads.{
  Thread, created, numbered, counting, talking, leaving, ended, System, Event, accepts, runs, hears,
  spawn, take_entry, hear, run, step, steps,
}
use sneso_ip.Server.Threads.Total.{
  talks, waits, counted, waiting, total_moved, total-append, All-set, All-get,
}
use sneso_ip.Server.Threads.Updates.{
  IsOwned, IsSerialStep, read_value, step-IsOwned, num_clients-receive, num_clients-accept,
}
use sneso_ip.Server.Threads.Count.{counted-spawn}

-- The thread has no ID yet, or one below the limit.
abbrev pub IdBelow : ℕ → Thread → Type 0
IdBelow max created = Unit {0}
IdBelow max (numbered c) = c.client_id < max
IdBelow max (counting c n) = c.client_id < max
IdBelow max (talking c) = c.client_id < max
IdBelow max (leaving n) = Unit {0}
IdBelow max ended = Unit {0}

pub record Slots (max : ℕ) (y : System) : Type 0 where
  pub limit : y.server.config.max_clients ≡ max
  pub small : max < 256
  pub exact : y.server.num_clients ≡ counted y.threads
  pub room : counted y.threads + waiting y.threads ≤ max
  pub ids : All (IdBelow max) y.threads

max-receive : (s : Server) (c : Conn) (r : Received) → (receive s c r).0.config ≡ s.config
unfolding receive full_command say_bye
max-receive s c r = ground arith

id-receive : (s : Server) (c : Conn) (r : Received) → (receive s c r).1.client_id ≡ c.client_id
unfolding receive full_command say_bye answer
id-receive s c r = ground arith

config-accept : (s : Server) (a : Accepted) → (accept s a).0.config ≡ s.config
unfolding accept
config-accept s a = ground arith

-- `main` creates a thread only below the limit.
accept_spawned :
    (s : Server) (a : Accepted) → (accept s a).1 ≡ spawned → s.num_clients < s.config.max_clients
unfolding accept
accept_spawned s a e = ground arith

spawn_room :
    (max : ℕ) (ts : List Thread) (o : Outcome)
    → waiting ts ≡ 0
    → counted ts ≤ max
    → (o ≡ spawned → counted ts < max)
    → counted (spawn ts o) + waiting (spawn ts o) ≤ max
unfolding spawn
spawn_room max ts accept_failed q le lt = omega arith
spawn_room max ts option_failed q le lt = omega arith
spawn_room max ts no_slot q le lt = omega arith
spawn_room max ts thread_failed q le lt = omega arith
spawn_room max ts spawned q le lt =
    omega
      (arith, lt refl, total-append talks ts (created ∷ []), total-append waits ts (created ∷ []))

spawn_ids :
    (max : ℕ) (ts : List Thread) (o : Outcome)
    → All (IdBelow max) ts
    → All (IdBelow max) (spawn ts o)
unfolding spawn
spawn_ids max ts accept_failed h = h
spawn_ids max ts option_failed h = h
spawn_ids max ts no_slot h = h
spawn_ids max ts thread_failed h = h
spawn_ids max ts spawned h = All-append (IdBelow max) ts (created ∷ []) h (tt, tt)

accept-Slots :
    (max : ℕ) (y : System) (a : Accepted)
    → waiting y.threads ≡ 0
    → Slots max y
    → Slots max
        (record { server = (accept y.server a).0; threads = spawn y.threads (accept y.server a).1 })
accept-Slots max y a q v =
    let same = ap Config.max_clients (config-accept y.server a) in
    record {
      limit = same ∙ v.limit;
      small = v.small;
      exact = omega (
        arith,
        v.exact,
        num_clients-accept y.server a,
        counted-spawn y.threads (accept y.server a).1,
      );
      room =
          spawn_room max y.threads (accept y.server a).1 q (omega arith)
            (λ e. omega (arith, accept_spawned y.server a e, v.limit, v.exact));
      ids = spawn_ids max y.threads (accept y.server a).1 v.ids;
    }

-- The thread `t` becomes `u` while the server becomes `s`. With `t` the sums are those of the other
-- threads and its own.
moved-Slots :
    (max : ℕ) (y : System) (i : ℕ) (t u : Thread) (s : Server)
    → get_or y.threads i ended ≡ t
    → t ≢ ended
    → Slots max y
    → s.config ≡ y.server.config
    → s.num_clients + talks t ≡ y.server.num_clients + talks u
    → talks u + waits u ≤ talks t + waits t
    → IdBelow max u
    → Slots max (record { server = s; threads = set y.threads i u })
moved-Slots max y i t u s e ne v same num less below =
    let c = total_moved talks y.threads i t u e ne in
    let w = total_moved waits y.threads i t u e ne in
    record {
      limit = ap Config.max_clients same ∙ v.limit;
      small = v.small;
      exact = omega (arith, c, num, v.exact);
      room = omega (arith, c, w, less, v.room);
      ids = All-set (IdBelow max) y.threads i u v.ids below;
    }

-- A created thread is one of those that wait, so there is room for it.
room_for :
    (max : ℕ) (y : System) (i : ℕ) (t : Thread)
    → get_or y.threads i ended ≡ t
    → waits t ≡ 1
    → t ≢ ended
    → Slots max y
    → y.server.num_clients < max
room_for max y i t e w ne v =
    omega (arith, w, total_moved waits y.threads i t ended e ne, v.exact, v.room)

take_entry-Slots :
    (max : ℕ) (y : System) (i : ℕ) (r : Entry)
    → get_or y.threads i ended ≡ created
    → ((s : Server) (c : Conn)
        → r ≡ entered s c
        → (s.num_clients ≡ y.server.num_clients)
          × (s.config ≡ y.server.config)
          × (c.client_id ≡ y.server.num_clients))
    → Slots max y
    → Slots max (take_entry y i r)
unfolding take_entry
take_entry-Slots max y i (entered s c) e same v =
    let (n, g, id) = same s c refl in
    moved-Slots max y i created (numbered c) s e (cc) v g (omega (arith, n)) (omega arith)
      (omega (arith, id, room_for max y i created e refl (cc) v))
take_entry-Slots max y i refused e same v =
    moved-Slots max y i created ended y.server e (cc) v refl refl (omega arith) tt
take_entry-Slots max y i hangs e same v = v

hear-Slots :
    (max : ℕ) (y : System) (i : ℕ) (t : Thread) (r : Received)
    → get_or y.threads i ended ≡ t
    → Slots max y
    → Slots max (hear y i t r)
unfolding hear
hear-Slots max y i (talking c) r e v =
    let id : c.client_id < max =
      subst (IdBelow max) e (All-get (IdBelow max) y.threads i v.ids tt) in
    moved-Slots max y i (talking c) (talking (receive y.server c r).1) _ e (cc) v
      (max-receive y.server c r) (omega (arith, num_clients-receive y.server c r)) (omega arith)
      (omega (arith, id-receive y.server c r))
hear-Slots max y i created r e v = v
hear-Slots max y i (numbered c) r e v = v
hear-Slots max y i (counting c n) r e v = v
hear-Slots max y i (leaving n) r e v = v
hear-Slots max y i ended r e v = v

module _ (inet_ntop : Family → Bytes → ℕ → Option Bytes) where
  enter_facts :
      (s s' : Server) (c : Conn)
      → enter inet_ntop s ≡ entered s' c
      → (s'.num_clients ≡ s.num_clients) × (s'.config ≡ s.config) × (c.client_id ≡ s.num_clients)
  unfolding enter
  enter_facts s s' c e = ground arith

  run-Slots :
      (max : ℕ) (y : System) (i : ℕ) (t : Thread)
      → get_or y.threads i ended ≡ t
      → IsOwned y
      → Slots max y
      → Slots max (run inet_ntop y i t)
  unfolding run register leave
  run-Slots max y i created e own v =
      take_entry-Slots max y i (enter inet_ntop y.server) e (enter_facts y.server) v
  run-Slots max y i (numbered c) e own v =
      let id : c.client_id < max =
        subst (IdBelow max) e (All-get (IdBelow max) y.threads i v.ids tt) in
      moved-Slots max y i (numbered c) (counting c y.server.num_clients) y.server e (cc) v refl refl
        (omega arith) id
  run-Slots max y i (counting c n) e own v =
      let id : c.client_id < max =
        subst (IdBelow max) e (All-get (IdBelow max) y.threads i v.ids tt) in
      let s = record y.server { num_clients = n } in
      let num = read_value y i (counting c n) e own in
      moved-Slots max y i (counting c n) (talking (register s c).1) (register s c).0 e (cc) v refl
        (omega (arith, num, room_for max y i (counting c n) e refl (cc) v, v.small)) (omega arith)
        id
  run-Slots max y i (talking c) e own v = after c.is_connected
    where
      after :
          (up : Bool)
          → Slots max (elim up [
            | true ↦ y
            | false ↦ record y { threads = set y.threads i (leaving y.server.num_clients) }
          ])
      after true = v
      after false =
          moved-Slots max y i (talking c) (leaving y.server.num_clients) y.server e (cc) v refl refl
            (omega arith) tt
  run-Slots max y i (leaving n) e own v =
      let one : 0 < counted y.threads =
        omega (arith, total_moved talks y.threads i (leaving n) ended e (cc)) in
      let num = read_value y i (leaving n) e own in
      moved-Slots max y i (leaving n) ended (leave (record y.server { num_clients = n })) e (cc) v
        refl (omega (arith, num, one, v.exact, v.room, v.small)) (omega arith) tt
  run-Slots max y i ended e own v = v

  -- Every client is accepted only when no thread has yet to count itself, and no two changes of the
  -- counter overlap.
  abbrev pub IsOrderly : System → Event → Type 0
  IsOrderly y (accepts a) = waiting y.threads ≡ 0
  IsOrderly y (runs i) = IsSerialStep y (runs i)
  IsOrderly y (hears i r) = Unit {0}

  abbrev pub Orderly : System → List Event → Type 0
  Orderly y [] = Unit {0}
  Orderly y (e ∷ es) = IsOrderly y e × Orderly (step inet_ntop y e) es

  step-Slots :
      (max : ℕ) (y : System) (e : Event)
      → IsOrderly y e
      → IsOwned y
      → Slots max y
      → Slots max (step inet_ntop y e) × IsOwned (step inet_ntop y e)
  unfolding step
  step-Slots max y (accepts a) o own v =
      (accept-Slots max y a o v, step-IsOwned inet_ntop y (accepts a) tt own)
  step-Slots max y (runs i) o own v = (
    run-Slots max y i (get_or y.threads i ended) refl own v,
    step-IsOwned inet_ntop y (runs i) o own,
  )
  step-Slots max y (hears i r) o own v = (
    hear-Slots max y i (get_or y.threads i ended) r refl v,
    step-IsOwned inet_ntop y (hears i r) tt own,
  )

  -- Where `main` accepts a client only while no thread has yet to count itself, and no thread reads the
  -- counter while another has read it and has yet to write it, there are never more clients than
  -- `max_clients`, the counter is their number, and every ID is below `max_clients`, if it is so at
  -- the start and at most one thread has read the counter there.
  pub steps-Slots :
      (max : ℕ) (y : System) (es : List Event)
      → Orderly y es
      → IsOwned y
      → Slots max y
      → Slots max (steps inet_ntop y es)
  unfolding steps
  steps-Slots max y [] o own v = v
  steps-Slots max y (e ∷ es) o own v =
      let next = step-Slots max y e o.0 own v in
      steps-Slots max (step inet_ntop y e) es o.1 next.1 next.0

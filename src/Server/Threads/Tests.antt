-- ===== src/Server/Threads/Tests.antt =====
-- Theorems on the server's threads at concrete inputs.
use sneso_ip.Common.{refl, true, List, [], ◌∷◌, arith}
use sneso_ip.Cstring.{print_u8}
use sneso_ip.CommonInclude.Ip.{ip_is_valid, ip_is_valid_fuel}
use sneso_ip.Server.State.{get_in_addr}
use sneso_ip.Server.Accept.{connected, accept}
use sneso_ip.Server.Conn.{closed, enter, addr_text}
use sneso_ip.Server.Sample.{ntop, peer, server, first}
use sneso_ip.Server.Threads.{
  talking, System, Event, accepts, runs, hears, steps, step, spawn, run, take_entry, hear,
}
use sneso_ip.Server.Threads.Count.{IsCounted, steps-IsCounted}
use sneso_ip.Server.Threads.Updates.{IsOwned, IsSerial}
use sneso_ip.Server.Threads.Slots.{Slots, Orderly, steps-Slots}

abbrev system : System
system = record { server = server; threads = talking first ∷ [] }

abbrev schedule : List Event
schedule =
    accepts (connected (peer 10 0 0 3) true true) ∷ runs 1 ∷ runs 1 ∷ hears 0 closed ∷ runs 1 ∷ []

system-IsOwned : IsOwned system
system-IsOwned = record { one = omega arith; read = (tt, tt) }

schedule-IsSerial : IsSerial ntop system schedule
unfolding step spawn accept run take_entry enter ip_is_valid ip_is_valid_fuel addr_text get_in_addr
    print_u8 hear
schedule-IsSerial = (tt, ((λ h. absurd h), ((λ h. refl), (tt, ((λ h. absurd h), tt)))))

schedule-Orderly : Orderly ntop system schedule
unfolding step spawn accept run take_entry enter ip_is_valid ip_is_valid_fuel addr_text get_in_addr
    print_u8 hear
schedule-Orderly = (refl, ((λ h. absurd h), ((λ h. refl), (tt, ((λ h. absurd h), tt)))))

steps-IsCounted_example : IsCounted (steps ntop system schedule)
steps-IsCounted_example = steps-IsCounted ntop system schedule schedule-IsSerial system-IsOwned refl

system-Slots : Slots 4 system
system-Slots = record {
  limit = refl;
  small = omega arith;
  exact = refl;
  room = omega arith;
  ids = (omega arith, tt);
}

steps-Slots_example : Slots 4 (steps ntop system schedule)
steps-Slots_example =
    steps-Slots ntop 4 system schedule schedule-Orderly system-IsOwned system-Slots

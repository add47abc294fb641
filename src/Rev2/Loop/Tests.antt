-- ===== src/Rev2/Loop/Tests.antt =====
-- The loop at concrete inputs.
use sneso_ip.Common.{
  ◌≡◌, Bool, true, false, List, [], ◌∷◌, ◌++◌, Bytes, replicate, codes, if◌then◌else◌,
}
use sneso_ip.Rev2.Loop.{Poll, rounds, booted}
use sneso_ip.Rev2.Loop.Hello.{hellos, has_idle, rounds-hellos}

-- A datagram "AB" for port 1337.
abbrev buffer : Bytes
buffer =
    replicate 23 0
    ++ (17 ∷ (replicate 12 0 ++ (5 ∷ 57 ∷ 0 ∷ 10 ∷ 0 ∷ 0 ∷ (codes "AB" ++ replicate 8 0))))

abbrev poll : Bool → Poll
poll tcp = record {
  tcp = tcp;
  levels = λ i. false;
  io = true;
  my_ip = true;
  buffer = buffer;
  behind = 7;
}

abbrev polls : List Poll
polls = poll true ∷ poll false ∷ poll false ∷ []

rounds-hellos_example : hellos (rounds 1337 (booted 7) polls).1 ≡ (if has_idle polls then 1 else 0)
rounds-hellos_example = rounds-hellos 1337 7 polls

-- ===== src/Terminal/Session.antt =====
-- The sessions of the terminal: what other tasks see of them, and how they end.
use sneso_ip.Common.{◌≡◌, ◌↔◌, refl, ◌∙◌, ap, true, false, List, [], ◌∷◌, ◌++◌, arith, Bytes}
use sneso_ip.Terminal.{
  Place, listening, serving, finished, Terminal, Listened, Received, Event, listens, receives,
  stops, init, de_init, is_host_connected, check_command, end_session, outer_round, inner_round,
  advance, step, steps,
}

-- The flag is set exactly while the thread serves a client.
abbrev pub Agrees : Terminal → Type 0
Agrees t = elim t.place [
  | listening ↦ t.host_connected ≡ false
  | serving ↦ t.host_connected ≡ true
  | finished ↦ t.host_connected ≡ false
]

advance-Agrees :
    (p : Place) (t : Terminal) (e : Event) → t.place ≡ p → Agrees t → Agrees (advance p t e)
unfolding advance outer_round inner_round end_session de_init
advance-Agrees listening t (listens l) q h = ground arith
advance-Agrees listening t (receives r) q h = h
advance-Agrees listening t stops q h = h
advance-Agrees serving t (listens l) q h = h
advance-Agrees serving t (receives r) q h = ground arith
advance-Agrees serving t stops q h = h
advance-Agrees finished t (listens l) q h = h
advance-Agrees finished t (receives r) q h = h
advance-Agrees finished t stops q h = h

steps-Agrees : (t : Terminal) (es : List Event) → Agrees t → Agrees (steps t es)
unfolding steps step
steps-Agrees t [] h = h
steps-Agrees t (e ∷ es) h = steps-Agrees (step t e) es (advance-Agrees t.place t e refl h)

is_host_connected_iff :
    (t : Terminal) → Agrees t → (is_host_connected t ≡ true) ↔ (t.place ≡ serving)
unfolding is_host_connected
is_host_connected_iff t h = ground arith

-- From its start on, whatever happens, `IsHostConnected` is true exactly while the thread serves a
-- client.
pub is_host_connected-steps :
    (es : List Event)
    → (is_host_connected (steps init es) ≡ true) ↔ ((steps init es).place ≡ serving)
is_host_connected-steps es =
    is_host_connected_iff (steps init es) (steps-Agrees init es (unfold init in refl))

advance_finished :
    (t : Terminal) (e : Event) → t.place ≡ finished → (advance finished t e).place ≡ finished
unfolding advance de_init
advance_finished t (listens l) h = h
advance_finished t (receives r) h = h
advance_finished t stops h = h

finished_stays :
    (t : Terminal) (es : List Event) → t.place ≡ finished → (steps t es).place ≡ finished
unfolding steps step
finished_stays t [] h = h
finished_stays t (e ∷ es) h =
    finished_stays (step t e) es
      (ap (λ (p : Place). (advance p t e).place) h ∙ advance_finished t e h)

advance_stops : (p : Place) (t : Terminal) → advance p t stops ≡ de_init t
unfolding advance
advance_stops listening t = refl
advance_stops serving t = refl
advance_stops finished t = refl

stopped_ends :
    (p : Place) (u : Terminal) (r : Received) (l : Listened)
    → u.place ≡ p
    → u.is_running ≡ false
    → (step (step u (receives r)) (listens l)).place ≡ finished
unfolding step advance outer_round inner_round end_session
stopped_ends listening u r l e q = ground arith
stopped_ends serving u r l e q = ground arith
stopped_ends finished u r l e q = ground arith

step_stops : (t : Terminal) → step t stops ≡ de_init t
unfolding step
step_stops t = advance_stops t.place t

stop_ends :
    (t : Terminal) (r : Received) (l : Listened) (es : List Event)
    → (steps t (stops ∷ receives r ∷ listens l ∷ es)).place ≡ finished
unfolding steps de_init
stop_ends t r l es =
    finished_stays (step (step (step t stops) (receives r)) (listens l)) es
      (rw (step_stops t) (stopped_ends t.place (de_init t) r l refl refl))

-- From a state whose flag agrees with its place, after `DeInitTerminal` the thread ends with the next result of `recv`, if it waits for one, and the
-- end of the round: it is past its loops for good, and no client is connected.
pub steps_stop :
    (t : Terminal) (r : Received) (l : Listened) (es : List Event)
    → Agrees t
    → let t' = steps t (stops ∷ receives r ∷ listens l ∷ es) in
      (t'.place ≡ finished) × (is_host_connected t' ≡ false)
steps_stop t r l es h =
    let t' = steps t (stops ∷ receives r ∷ listens l ∷ es) in
    let ends = stop_ends t r l es in
    (ends, ground (arith, is_host_connected_iff t' (steps-Agrees t _ h), ends))

prefix_sound :
    (rx command : Bytes) → check_command rx command ≡ true → (rest : Bytes) × (rx ≡ command ++ rest)
unfolding check_command
prefix_sound rx [] h = (rx, refl)
prefix_sound [] (c ∷ cs) h = cc
prefix_sound (x ∷ rx) (c ∷ cs) h =
    let (rest, e) = prefix_sound rx cs (ground arith) in
    let same : x ≡ c = ground arith in (rest, cc)

prefix_complete : (command rest : Bytes) → check_command (command ++ rest) command ≡ true
unfolding check_command
prefix_complete [] rest = refl
prefix_complete (c ∷ cs) rest = ground (arith, prefix_complete cs rest)

-- `_CheckCommand` accepts exactly the strings that begin with the command.
pub check_command_iff :
    (rx command : Bytes)
    → (check_command rx command ≡ true) ↔ ((rest : Bytes) × (rx ≡ command ++ rest))
check_command_iff rx command =
    (prefix_sound rx command, λ (rest, e). rw e (prefix_complete command rest))

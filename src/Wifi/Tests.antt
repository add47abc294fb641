-- ===== src/Wifi/Tests.antt =====
-- A hand-over by SmartConfig.
use sneso_ip.Common.{◌≡◌, refl, true, List, [], ◌∷◌, arith}
use sneso_ip.Wifi.{
  Driver, sta_start, link_over, init_wifi, event_handler, sc_callback, thread_round, Happening,
  event, status, wake, on_event, on_status, on_wake, Run, here, next, goes_on,
}
use sneso_ip.Wifi.Handover.{started, linked, goes_on-linked, link_over-goes_on}

-- No address is needed: the station never reports one.
abbrev happenings : List Happening
happenings = event sta_start ∷ status link_over ∷ wake ∷ []

abbrev at_end : Driver
at_end = (thread_round (sc_callback link_over (event_handler sta_start init_wifi).0).0).0

no_ip : Run init_wifi happenings at_end
unfolding event_handler sc_callback
no_ip = next (on_event init_wifi sta_start) (
    next (on_status (event_handler sta_start init_wifi).0 link_over) (
      next
        (on_wake (sc_callback link_over (event_handler sta_start init_wifi).0).0 (omega arith) refl)
        (here at_end)))

on_at_end : goes_on at_end ≡ true
unfolding event_handler sc_callback thread_round
on_at_end = refl

goes_on-linked_example : (started happenings ≡ true) × (linked happenings ≡ true)
goes_on-linked_example = goes_on-linked no_ip on_at_end

abbrev one_waits : Driver
one_waits = record init_wifi { waiting = 1 }

link_over-goes_on_example :
    (u : Driver) × Run one_waits (status link_over ∷ wake ∷ []) u
    × ((hs : List Happening) (t : Driver) → Run u hs t → goes_on t ≡ true)
link_over-goes_on_example = link_over-goes_on one_waits (omega arith)

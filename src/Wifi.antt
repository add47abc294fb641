-- ===== src/Wifi.antt =====
-- The WiFi driver of Firmware/src/WiFi.c, and `app_main` of Firmware.c, which waits for it: the event
-- handler, the thread of SmartConfig and its callback over the bits of the event group. The calls of
-- the ESP-IDF are what a step gives; log lines are left out.
pub mod Handover
mod Tests
use sneso_ip.Common.{ℕ, suc, ◌-◌, ◌<◌, ◌≡◌, Bool, true, false, ◌||◌, List, [], ◌∷◌, if◌then◌else◌}

-- `bHasIP`, the two bits of the event group, and how many threads of SmartConfig wait for them.
pub record Driver : Type 0 where
  pub has_ip : Bool
  pub connected : Bool
  pub esptouch_done : Bool
  pub waiting : ℕ

-- The calls of the system.
pub data Call : Type 0 where
  create_thread smartconfig_start smartconfig_stop delete_thread : Call
  wifi_connect wifi_disconnect wifi_set_config : Call

pub data SystemEvent : Type 0 where
  sta_start sta_got_ip sta_disconnected other_event : SystemEvent

pub data Status : Type 0 where
  wait find_channel getting_ssid_pswd link link_over other_status : Status

-- `InitWiFi`.
abbrev pub init_wifi : Driver
init_wifi = record { has_ip = false; connected = false; esptouch_done = false; waiting = 0 }

-- `_EventHandler`; the new thread starts SmartConfig and waits.
unfoldable pub event_handler : SystemEvent → Driver → Driver × List Call
event_handler sta_start s =
    (record s { waiting = suc s.waiting }, create_thread ∷ smartconfig_start ∷ [])
event_handler sta_got_ip s = (record s { connected = true }, [])
event_handler sta_disconnected s = (record s { connected = false }, wifi_connect ∷ [])
event_handler other_event s = (s, [])

-- `_SCCallback`.
unfoldable pub sc_callback : Status → Driver → Driver × List Call
sc_callback link s = (s, wifi_disconnect ∷ wifi_set_config ∷ wifi_connect ∷ [])
sc_callback link_over s = (record s { esptouch_done = true }, [])
sc_callback wait s = (s, [])
sc_callback find_channel s = (s, [])
sc_callback getting_ssid_pswd s = (s, [])
sc_callback other_status s = (s, [])

-- One round of `_SmartConfigThread` behind its wait, which clears both bits.
unfoldable pub thread_round : Driver → Driver × List Call
thread_round s =
    let s' = record s { connected = false; esptouch_done = false } in
    if s.esptouch_done
    then (
      record s' { has_ip = true; waiting = s.waiting - 1 },
      smartconfig_stop ∷ delete_thread ∷ [],
    )
    else (s', [])

-- What happens: an event, a status, or a thread that its wait lets go on.
pub data Happening : Type 0 where
  event : SystemEvent → Happening
  status : Status → Happening
  wake : Happening

-- One step. A thread goes on where one waits and a bit is set.
pub data Step : Driver → Happening → Driver → Type 0 where
  on_event : (s : Driver) (e : SystemEvent) → Step s (event e) (event_handler e s).0
  on_status : (s : Driver) (t : Status) → Step s (status t) (sc_callback t s).0
  on_wake :
      (s : Driver)
      → 0 < s.waiting
      → (s.connected || s.esptouch_done) ≡ true
      → Step s wake (thread_round s).0

pub data Run : Driver → List Happening → Driver → Type 0 where
  here : (s : Driver) → Run s [] s
  next :
      {s t u : Driver} {h : Happening} {hs : List Happening}
      → Step s h t
      → Run t hs u
      → Run s (h ∷ hs) u

-- Whether `WaitForIP` returns, and `app_main` goes on to the terminal and the exchange client.
abbrev pub goes_on : Driver → Bool
goes_on s = s.has_ip

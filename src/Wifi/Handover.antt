-- ===== src/Wifi/Handover.antt =====
-- When `app_main` goes on.
use sneso_ip.Common.{
  ◌<◌, ◌≡◌, refl, Bool, true, false, ◌||◌, Bool-cases, inl, inr, List, [], ◌∷◌, arith,
}
use sneso_ip.Wifi.{
  Driver, SystemEvent, sta_start, sta_got_ip, sta_disconnected, other_event, Status, wait,
  find_channel, getting_ssid_pswd, link, link_over, other_status, init_wifi, event_handler,
  sc_callback, thread_round, Happening, event, status, wake, Step, on_event, on_status, on_wake,
  Run, here, next, goes_on,
}

abbrev is_start : Happening → Bool
is_start (event sta_start) = true
is_start (event sta_got_ip) = false
is_start (event sta_disconnected) = false
is_start (event other_event) = false
is_start (status t) = false
is_start wake = false

abbrev is_link_over : Happening → Bool
is_link_over (status link_over) = true
is_link_over (status link) = false
is_link_over (status wait) = false
is_link_over (status find_channel) = false
is_link_over (status getting_ssid_pswd) = false
is_link_over (status other_status) = false
is_link_over (event e) = false
is_link_over wake = false

abbrev pub started : List Happening → Bool
started [] = false
started (h ∷ hs) = is_start h || started hs

abbrev pub linked : List Happening → Bool
linked [] = false
linked (h ∷ hs) = is_link_over h || linked hs

-- `a` says whether a start has been seen, and `b` whether LINK_OVER has.
record Seen (a b : Bool) (s : Driver) : Type 0 where
  threads : 0 < s.waiting → a ≡ true
  done : s.esptouch_done ≡ true → b ≡ true
  both : s.has_ip ≡ true → (a ≡ true) × (b ≡ true)

or_true : (a : Bool) → (a || true) ≡ true
or_true true = refl
or_true false = refl

or_false : (a : Bool) → (a || false) ≡ a
or_false true = refl
or_false false = refl

same-Seen : {a b : Bool} {s : Driver} → Seen a b s → Seen (a || false) (b || false) s
same-Seen {a} {b} {s} k = rw (or_false a, or_false b) k

event-Seen :
    (a b : Bool) (s : Driver) (e : SystemEvent)
    → Seen a b s
    → Seen (a || is_start (event e)) (b || is_link_over (event e)) (event_handler e s).0
unfolding event_handler
event-Seen a b s sta_start k =
    rw (or_true a, or_false b)
      (record { threads = λ h. refl; done = k.done; both = λ h. (refl, (k.both h).1) })
event-Seen a b s sta_got_ip k =
    same-Seen (record { threads = k.threads; done = k.done; both = k.both })
event-Seen a b s sta_disconnected k =
    same-Seen (record { threads = k.threads; done = k.done; both = k.both })
event-Seen a b s other_event k = same-Seen k

status-Seen :
    (a b : Bool) (s : Driver) (t : Status)
    → Seen a b s
    → Seen (a || is_start (status t)) (b || is_link_over (status t)) (sc_callback t s).0
unfolding sc_callback
status-Seen a b s link_over k =
    rw (or_false a, or_true b)
      (record { threads = k.threads; done = λ h. refl; both = λ h. ((k.both h).0, refl) })
status-Seen a b s link k = same-Seen k
status-Seen a b s wait k = same-Seen k
status-Seen a b s find_channel k = same-Seen k
status-Seen a b s getting_ssid_pswd k = same-Seen k
status-Seen a b s other_status k = same-Seen k

wake-Seen : (a b : Bool) (s : Driver) → 0 < s.waiting → Seen a b s → Seen a b (thread_round s).0
unfolding thread_round
wake-Seen a b s some_thread k = elim (Bool-cases s.esptouch_done) [
  | inl done ↦ rw done (record {
    threads = λ h. k.threads some_thread;
    done = λ h. absurd (ground arith);
    both = λ h. (k.threads some_thread, k.done done);
  })
  | inr other ↦
      rw other (record { threads = k.threads; done = λ h. absurd (ground arith); both = k.both })
]

Step-Seen :
    {s t : Driver} {h : Happening} (a b : Bool)
    → Step s h t
    → Seen a b s
    → Seen (a || is_start h) (b || is_link_over h) t
Step-Seen a b (on_event s e) k = event-Seen a b s e k
Step-Seen a b (on_status s t) k = status-Seen a b s t k
Step-Seen a b (on_wake s some_thread bits) k = same-Seen (wake-Seen a b s some_thread k)

or_assoc : (a b c : Bool) → ((a || b) || c) ≡ (a || (b || c))
or_assoc true b c = refl
or_assoc false b c = refl

Run-Seen :
    {s t : Driver} {hs : List Happening} (a b : Bool)
    → Run s hs t
    → Seen a b s
    → Seen (a || started hs) (b || linked hs) t
Run-Seen a b (here s) k = same-Seen k
Run-Seen a b (next {h = h} {hs = hs} st r) k =
    rw (← or_assoc a (is_start h) (started hs), ← or_assoc b (is_link_over h) (linked hs))
      (Run-Seen (a || is_start h) (b || is_link_over h) r (Step-Seen a b st k))

-- Whatever happens after `InitWiFi`: `app_main` goes on only after the station has started and
-- SmartConfig has reported LINK_OVER.
pub goes_on-linked :
    {hs : List Happening} {t : Driver}
    → Run init_wifi hs t
    → goes_on t ≡ true
    → (started hs ≡ true) × (linked hs ≡ true)
goes_on-linked r on =
    let k = Run-Seen false false r (record {
      threads = λ h. absurd (omega arith);
      done = λ h. absurd (ground arith);
      both = λ h. absurd (ground arith);
    }) in
    k.both on

-- Once it may go on, it may for good.
Step-goes_on : {s t : Driver} {h : Happening} → Step s h t → goes_on s ≡ true → goes_on t ≡ true
unfolding event_handler sc_callback thread_round
Step-goes_on (on_event s sta_start) on = on
Step-goes_on (on_event s sta_got_ip) on = on
Step-goes_on (on_event s sta_disconnected) on = on
Step-goes_on (on_event s other_event) on = on
Step-goes_on (on_status s link_over) on = on
Step-goes_on (on_status s link) on = on
Step-goes_on (on_status s wait) on = on
Step-goes_on (on_status s find_channel) on = on
Step-goes_on (on_status s getting_ssid_pswd) on = on
Step-goes_on (on_status s other_status) on = on
Step-goes_on (on_wake s some_thread bits) on = ground arith

Run-goes_on :
    {s t : Driver} {hs : List Happening} → Run s hs t → goes_on s ≡ true → goes_on t ≡ true
Run-goes_on (here s) on = on
Run-goes_on (next st r) on = Run-goes_on r (Step-goes_on st on)

woken : (s : Driver) → s.esptouch_done ≡ true → goes_on (thread_round s).0 ≡ true
unfolding thread_round
woken s done = rw done refl

-- Where a thread of SmartConfig waits and LINK_OVER is reported, the thread can go on, whether the
-- station has an IP or not; and after these two steps `app_main` goes on whatever happens then,
-- also after a loss of the connection.
pub link_over-goes_on :
    (s : Driver)
    → 0 < s.waiting
    → (u : Driver) × Run s (status link_over ∷ wake ∷ []) u
      × ((hs : List Happening) (t : Driver) → Run u hs t → goes_on t ≡ true)
unfolding sc_callback
link_over-goes_on s some_thread =
    let done = record s { esptouch_done = true } in
    (
      (thread_round done).0,
      next (on_status s link_over) (next (on_wake done some_thread (or_true s.connected)) (here _)),
      λ hs t r. Run-goes_on r (woken done refl),
    )

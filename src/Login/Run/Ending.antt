-- ===== src/Login/Run/Ending.antt =====
-- The tests, the crash and the end of a session keep the invariant.
use sneso_ip.Common.{
  ℕ, ◌≡◌, refl, Bool, true, false, ◌&&◌, arith, Bytes, if◌then◌else◌, bytes_eq, Bool-cases, inl,
  inr,
}
use sneso_ip.Common.Int.{pos}
use sneso_ip.Login.{
  Setting, set_online, set_ip, set_port, changed, none_text, World, ended, crashed, update, stop,
  clean_up,
}
use sneso_ip.Login.Watch.{Monitor, fresh, leave, watch, watch_all, watch_all-append, away}
use sneso_ip.Login.Run.Invariant.{is_ended, Sound, Keeps, back, update-back-Keeps}

clean_up_away :
    (u : Bytes) (m : Monitor) (user : Bytes)
    → bytes_eq user u ≡ true
    → away (
        watch u
          (watch u (watch u m (changed (set_online user false))) (changed (set_ip user none_text)))
          (changed (set_port user (pos 0))))
      ≡ true
unfolding watch leave
clean_up_away u m user h = rw h refl

clean_up_named :
    {Db : Type 0} (env : Setting Db) (u : Bytes) (w : World Db)
    → let user = w.session.username in
      let w' =
        update env
          (set_port user (pos 0))
          (update env (set_ip user none_text) (update env (set_online user false) w)) in
      Keeps u w → Keeps u w' × (bytes_eq user u ≡ true → away (watch_all u fresh w'.acts) ≡ true)
unfolding back
clean_up_named env u w k =
    let user = w.session.username in
    let w1 = update env (set_online user false) w in
    let w2 = update env (set_ip user none_text) w1 in
    (
      update-back-Keeps env u (set_port user (pos 0)) w2 refl (
          update-back-Keeps env u (set_ip user none_text) w1 refl
            (update-back-Keeps env u (set_online user false) w refl k)),
      λ h.
          rw
            (
              watch_all-append u fresh w2.acts (changed (set_port user (pos 0))),
              watch_all-append u fresh w1.acts (changed (set_ip user none_text)),
              watch_all-append u fresh w.acts (changed (set_online user false)),
            )
            (clean_up_away u (watch_all u fresh w.acts) user h),
    )

-- The invariant after the end, from where nothing is left of the user.
end-Sound :
    (u : Bytes) (m : Monitor) (a b : Bool) (name : Bytes) (c : ℕ) (e : Bool)
    → (bytes_eq name u ≡ true → b ≡ true → away m ≡ true)
    → Sound u m a b name c e
    → Sound u m a b name c true
end-Sound u m a b name c e h k = record {
  named = k.named;
  granted_name = k.granted_name;
  all_allowed = k.all_allowed;
  rest_away = k.rest_away;
  end_away = λ t. elim (Bool-cases (b && bytes_eq name u)) [
    | inl both ↦ h (ground arith) (ground arith)
    | inr other ↦ k.rest_away other
  ];
  counted = k.counted;
  few = k.few;
}

-- The two branches of a test.
pub if-Keeps :
    {Db : Type 0} (u : Bytes) (b : Bool) (w w' : World Db)
    → (b ≡ true → Keeps u w)
    → (b ≡ false → Keeps u w')
    → Keeps u (if b then w else w')
if-Keeps u true w w' k k' = k refl
if-Keeps u false w w' k k' = k' refl

stop_if :
    {Db : Type 0} (u : Bytes) (b : Bool) (w w' : World Db)
    → (b ≡ true → Keeps u (stop ended w))
    → (b ≡ false → Keeps u (stop ended w'))
    → Keeps u (stop ended (if b then w else w'))
stop_if u true w w' k k' = k refl
stop_if u false w w' k k' = k' refl

-- The end of a session, after its changes.
pub end-Keeps :
    {Db : Type 0} (env : Setting Db) (u : Bytes) (w : World Db)
    → Keeps u w
    → Keeps u (stop ended (clean_up env w))
unfolding clean_up
end-Keeps env u w k =
    let s = w.session in
    let (k', leaves) = clean_up_named env u w k in
    let named : s.auth_set ≡ true → s.user_set ≡ true = k.named in
    stop_if u s.user_set _ w
      (λ is.
        end-Sound u _ s.user_set s.auth_set s.username s.brutforce_counter (is_ended w.status)
          (λ same t. leaves same) k')
      (λ is_not.
        end-Sound u _ s.user_set s.auth_set s.username s.brutforce_counter (is_ended w.status)
          (λ same t. absurd (ground (arith, named t))) k)

-- A crash.
pub crash-Keeps : {Db : Type 0} (u : Bytes) (w : World Db) → Keeps u w → Keeps u (stop crashed w)
crash-Keeps u w k = record {
  named = k.named;
  granted_name = k.granted_name;
  all_allowed = k.all_allowed;
  rest_away = k.rest_away;
  end_away = λ t. absurd (ground arith);
  counted = k.counted;
  few = k.few;
}

-- ===== src/Registry/Rates/Prompt.antt =====
-- The interval that is kept is that of the synchronizers we own, so a poll that comes one of their
-- intervals after the last send sends.
use goldnet_godot.Common.{
  ◌++◌, if◌then◌else◌, ℕ, ◌+◌, ◌^◌, ◌<◌, ◌≤◌, ◌≡◌, refl, ap, sym, ◌∙◌, inl, inr, Bool, true, false,
  Bool-cases, Option, none, some, Option-cases, ◌==◌, List, [], ◌∷◌, map, HashSet, contains, nat_eq,
  arith,
}
use mathlib.Core.Path.{subst}
use goldnet_godot.Platform.{Platform}
use goldnet_godot.Cadence.{
  poll, server_poll, send_uplink, inner_poll, ensure_link, pump_sim, print_stats, drain_spawns,
  detect_despawns, Act, Seconds, Session, Timing, server_tick, sync_us, min_interval_us, send_timer,
  timed_tick,
}
use goldnet_godot.Cadence.Interval.{AtMostAll, NoneLive, min_interval_us_least}
use goldnet_godot.Registry.{Registry, wrap_spawner}
use goldnet_godot.Registry.Configuration.{
  spawner, synchronizer, unknown, object_configuration_add, object_configuration_remove,
}
use goldnet_godot.Registry.Rates.{
  Pacing, Change, added, removed, rated, refresh_interval, set_snapshot_rate, add_refreshing,
  remove_refreshing, change, change_all,
}

timed_tick_due :
    (s : Session) (t : Timing)
    → 0 < t.cached_min_interval_us
    → 0 < t.last_send_us
    → t.last_send_us + t.cached_min_interval_us ≤ s.now_us
    → s.now_us < 2 ^ 64
    → (timed_tick s t).1 ≡ server_tick ∷ []
unfolding timed_tick send_timer
timed_tick_due s t pos started due small = ground (arith, pos, started, due, small)

-- A server's session that has peers, and that sends by itself.
abbrev pub Hosting : Session → Type 0
Hosting s =
    (s.peer_null ≡ false)
    × (s.disconnected ≡ false)
    × ((s.unique_id == 1) ≡ true)
    × (s.manual_send ≡ false)
    × (0 < s.peer_count)

-- All that a poll that sends calls.
abbrev pub Sends : Session → List Act → Type 0
Sends s acts =
    acts
    ≡ send_uplink
      ∷ inner_poll
      ∷ ensure_link
      ∷ pump_sim
      ∷ ((if s.rpc_stats then print_stats ∷ [] else [])
          ++ drain_spawns ∷ detect_despawns ∷ server_tick ∷ [])

poll-Sends :
    (s : Session) (t : Timing)
    → Hosting s
    → (timed_tick s t).1 ≡ server_tick ∷ []
    → Sends s (poll s t).1
unfolding poll server_poll
poll-Sends s t (there, connected, server, automatic, peers) due =
    ground (arith, there, connected, server, automatic, peers, due)

module _ (d : Seconds) (rate_of_us : ℕ → d.D) (interval : ℕ → Option d.D) where
  open d use {D, is_positive}

  NoneLive-AtMostAll : (us : ℕ) (syncs : List (Option D)) → NoneLive d syncs → AtMostAll d us syncs
  NoneLive-AtMostAll us [] h = tt
  NoneLive-AtMostAll us (none ∷ syncs) h = NoneLive-AtMostAll us syncs h
  NoneLive-AtMostAll us (some sec ∷ syncs) h = elim h [ ]

  min_interval_us_bounds :
      (setting : D) (syncs : List (Option D))
      → is_positive setting ≡ false
      → (0 < min_interval_us d setting syncs) × AtMostAll d (min_interval_us d setting syncs) syncs
  min_interval_us_bounds setting syncs unset = elim (min_interval_us_least d setting syncs unset) [
    | inl (gone, e) ↦
        (omega (arith, e), NoneLive-AtMostAll (min_interval_us d setting syncs) syncs gone)
    | inr (pos, all, one) ↦ (pos, all)
  ]

  AtMostAll-contains :
      (us : ℕ) (owned : HashSet) (sync : ℕ) (sec : D)
      → AtMostAll d us (map interval owned)
      → contains owned sync ≡ true
      → interval sync ≡ some sec
      → us ≤ sync_us d sec
  AtMostAll-contains us [] sync sec all h e = (let no : ⊥ = ground (arith, h) in elim no [ ])
  AtMostAll-contains us (o ∷ owned) sync sec all h e = elim (Bool-cases (o == sync)) [
    | inl same ↦
        let named : o ≡ sync = ground (arith, same) in
        let at : interval o ≡ some sec = ap interval named ∙ e in
        (subst (λ (i : Option D). AtMostAll d us (i ∷ map interval owned)) at all).0
    | inr other ↦ elim (Option-cases (interval o)) [
      | inl gone ↦
          AtMostAll-contains us owned sync sec
            (subst (λ (i : Option D). AtMostAll d us (i ∷ map interval owned)) gone all)
            (ground (arith, h, other)) e
      | inr (of, live) ↦
          AtMostAll-contains us owned sync sec
            (subst (λ (i : Option D). AtMostAll d us (i ∷ map interval owned)) live all).1
            (ground (arith, h, other)) e
    ]
  ]

  -- The interval that is kept is the one that _min_interval_us now works out.
  abbrev pub Current : HashSet → Pacing d → Type 0
  Current owned c =
      c.timing.cached_min_interval_us
      ≡ min_interval_us d c.snapshot_rate_setting (map interval owned)

  module _ (p : Platform) {Callable : Type 0} (zero : D) where
    owned_after_spawner :
        (r : Registry p Callable) (sp : ℕ) (on_server has_object : Bool) (fn : Callable)
        → (object_configuration_add p r on_server has_object (spawner sp fn)).0.owned ≡ r.owned
    unfolding object_configuration_add wrap_spawner
    owned_after_spawner r sp on_server has_object fn = ground arith

    Current-change :
        (r : Registry p Callable) (c : Pacing d) (x : Change d Callable)
        → Current r.owned c
        → let s = change d rate_of_us interval p zero (r, c) x in Current s.0.owned s.1
    unfolding change add_refreshing remove_refreshing refresh_interval set_snapshot_rate
        object_configuration_add object_configuration_remove
    Current-change r c (added on_server has_object (spawner sp fn)) h =
        subst (λ (owned : HashSet). Current owned c)
          (sym (owned_after_spawner r sp on_server has_object fn)) h
    Current-change r c (added on_server has_object (synchronizer sync true)) h = refl
    Current-change r c (added on_server has_object (synchronizer sync false)) h = h
    Current-change r c (added on_server has_object unknown) h = h
    Current-change r c (removed (spawner sp fn)) h = h
    Current-change r c (removed (synchronizer sync streams)) h =
        elim (Bool-cases (contains r.owned sync)) [
          | inl mine ↦ rw mine refl
          | inr other ↦ rw other h
        ]
    Current-change r c (removed unknown) h = h
    Current-change r c (rated hz) h = refl

    Current-change_all :
        (s : Registry p Callable × Pacing d) (xs : List (Change d Callable))
        → Current s.0.owned s.1
        → let t = change_all d rate_of_us interval p zero s xs in Current t.0.owned t.1
    unfolding change_all
    Current-change_all s [] h = h
    Current-change_all (r, c) (x ∷ xs) h =
        Current-change_all (change d rate_of_us interval p zero (r, c) x) xs
          (Current-change r c x h)

    -- After any synchronizers and spawners were added and removed and any snapshot rates set, none being
    -- set in the end, a server's poll that comes the interval of a live synchronizer we own after the last
    -- send calls the server's tick, once it has drained spawns and detected despawns. The members start
    -- as the constructor leaves them; no synchronizer's interval changes and none is freed without being
    -- removed; the server has peers and does not send by hand; and the clock fits in 64 bits.
    pub change_all-poll :
        (r : Registry p Callable) (c : Pacing d) (xs : List (Change d Callable)) (s : Session)
        (sync : ℕ) (sec : D)
        → let t = change_all d rate_of_us interval p zero (r, c) xs in
          Current r.owned c
          → is_positive t.1.snapshot_rate_setting ≡ false
          → contains t.0.owned sync ≡ true
          → interval sync ≡ some sec
          → 0 < t.1.timing.last_send_us
          → t.1.timing.last_send_us + sync_us d sec ≤ s.now_us
          → s.now_us < 2 ^ 64
          → Hosting s
          → Sends s (poll s t.1.timing).1
    change_all-poll r c xs s sync sec current unset ours live started due small hosting =
        let t = change_all d rate_of_us interval p zero (r, c) xs in
        let kept = Current-change_all (r, c) xs current in
        let (pos, all) =
          min_interval_us_bounds t.1.snapshot_rate_setting (map interval t.0.owned) unset in
        let least =
          AtMostAll-contains (min_interval_us d t.1.snapshot_rate_setting (map interval t.0.owned))
            t.0.owned sync sec all ours live in
        poll-Sends s t.1.timing hosting (
          timed_tick_due s t.1.timing (omega (arith, kept, pos)) started
            (omega (arith, kept, least, due)) small)

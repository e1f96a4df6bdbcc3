-- ===== src/Healing/Loop/Steps.antt =====
-- What every step of the main loop of main.go keeps, from what the parts of a step keep.
use beryl7_ai_agent.Base.{
  ℕ, zero, suc, ◌+◌, ◌≡◌, String, Bool, true, false, not, ◌&&◌, Option, none, some, List, [], ◌∷◌,
  leb, if◌then◌else◌, Bool-cases, inl, inr,
}
use beryl7_ai_agent.Base.Text.{Text}
use beryl7_ai_agent.Base.Float.{Float64}
use beryl7_ai_agent.Executor.Effects.{World}
use beryl7_ai_agent.LogParser.{LogParser, sanitize_log}
use beryl7_ai_agent.Watchdog.{Body, record_health_check_success, is_safe_mode}
use beryl7_ai_agent.Healing.{Metrics, Tick, Unverified, Healer, is_kill_switch_active}
use beryl7_ai_agent.Healing.Detect.{detect, cooldown}
use beryl7_ai_agent.Healing.Outcome.{finish_verification}
use beryl7_ai_agent.Healing.Decide.{request, run, propose}
use beryl7_ai_agent.Healing.Loop.{
  last_of, is_too_early, on_success, boosted, count_low_traffic, adapt_bandwidth, run_on_lan,
  stabilize, accelerate_streaming, accelerate_download, due, heal_if_due, act, with_history,
  check_health, measured, on_metrics, tick, maintain, finish_at, Event, ticked, maintained,
  verified, step, run_events, harmonize_repeater_state, is_wired_wan_active, ready,
}
use beryl7_ai_agent.Healing.Loop.Keeps.{Stable, heal-keeps, either_keeps}

module _ (fl : Float64) (w : World) (digest : Body → String) (seconds : ℕ → fl.F) where
  open fl use {F, lit, lt, le}

  abbrev pub State : Type 0
  State = Healer fl

  module _ (Inv : Healer fl → Type 0) (st : Stable fl w digest seconds Inv) where
    either : (b : Bool) (x y : Healer fl) → Inv x → Inv y → Inv (if b then x else y)
    either = either_keeps fl w digest seconds Inv st

    -- Modes are set by parts.
    sets :
        (s : Healer fl) (n : ℕ) (b streaming bulk : Bool) (p : LogParser)
        → Inv s
        → Inv (record s {
          low_traffic_cycles = n;
          is_wifi_boosted = b;
          streaming_pipeline_active = streaming;
          bulk_download_active = bulk;
          parser = p;
        })
    sets = st.modes

    on_success-keeps :
        (b : Bool) (r : Bool × Healer fl)
        → Inv r.1
        → Inv (on_success fl w digest seconds (boosted fl w digest seconds b) r)
    on_success-keeps b (true, s) h =
        sets s 0 b s.streaming_pipeline_active s.bulk_download_active s.parser h
    on_success-keeps b (false, s) h = h

    cycles-keeps : (n : ℕ) (s : Healer fl) → Inv s → Inv (record s { low_traffic_cycles = n })
    cycles-keeps n s h =
        sets s n s.is_wifi_boosted s.streaming_pipeline_active s.bulk_download_active s.parser h

    count_low_traffic-keeps :
        (s : Healer fl) → Inv s → Inv (count_low_traffic fl w digest seconds s)
    count_low_traffic-keeps s h =
        let s' = record s { low_traffic_cycles = s.low_traffic_cycles + 1 } in
        let h' : Inv s' = cycles-keeps (s.low_traffic_cycles + 1) s h in
        let req = request "revert_wifi_bandwidth" "radio1" [] in
        either (leb 60 (s.low_traffic_cycles + 1)) _ s'
          (on_success-keeps false (run fl w digest seconds req s.cfg.dry_run s')
            (st.runs req s.cfg.dry_run s' h'))
          h'

    adapt_bandwidth-keeps :
        (m : Metrics fl) (s : Healer fl) → Inv s → Inv (adapt_bandwidth fl w digest seconds m s)
    unfolding adapt_bandwidth
    adapt_bandwidth-keeps m s h =
        let req = request "boost_wifi_bandwidth" "radio1" [] in
        either (lt s.cfg.bandwidth_boost_mbps m.download_mbps && not s.is_wifi_boosted) _ _
          (on_success-keeps true (run fl w digest seconds req s.cfg.dry_run s)
            (st.runs req s.cfg.dry_run s h))
          (either (s.is_wifi_boosted && lt m.download_mbps s.cfg.bandwidth_restore_mbps) _ _
            (count_low_traffic-keeps s h)
            (either (s.is_wifi_boosted && le s.cfg.bandwidth_restore_mbps m.download_mbps) _ s
              (cycles-keeps 0 s h) h))

    run_on_lan-keeps :
        (name : String) (s : Healer fl) → Inv s → Inv (run_on_lan fl w digest seconds name s)
    run_on_lan-keeps name s h = st.runs (request name "lan" []) false s h

    stabilize-keeps :
        (t : Tick fl) (m : Metrics fl) (s : Healer fl)
        → Inv s
        → Inv (stabilize fl w digest seconds t m s)
    unfolding stabilize
    stabilize-keeps t m s h = either _ _ s (run_on_lan-keeps "stabilize_latency_and_jitter" s h) h

    accelerate_streaming-keeps :
        (m : Metrics fl) (s : Healer fl)
        → Inv s
        → Inv (accelerate_streaming fl w digest seconds m s)
    unfolding accelerate_streaming
    accelerate_streaming-keeps m s h =
        let s' = record s { streaming_pipeline_active = m.is_streaming_active } in
        let h' : Inv s' =
          sets s s.low_traffic_cycles s.is_wifi_boosted m.is_streaming_active s.bulk_download_active
            s.parser h in
        either (m.is_streaming_active && not s.streaming_pipeline_active) _ s'
          (run_on_lan-keeps "optimize_streaming_pipeline" s' h') h'

    accelerate_download-keeps :
        (m : Metrics fl) (s : Healer fl) → Inv s → Inv (accelerate_download fl w digest seconds m s)
    unfolding accelerate_download
    accelerate_download-keeps m s h =
        let s' = record s { bulk_download_active = m.is_bulk_download_active } in
        let h' : Inv s' =
          sets s s.low_traffic_cycles s.is_wifi_boosted s.streaming_pipeline_active
            m.is_bulk_download_active s.parser h in
        either (m.is_bulk_download_active && not s.bulk_download_active) _ s'
          (run_on_lan-keeps "tune_network_performance" s' h') h'

    pub maintain-keeps : (s : Healer fl) → Inv s → Inv (maintain fl w digest seconds s)
    unfolding maintain
    maintain-keeps s h =
        let req = request "purge_memory_cache" "ram" [] in
        run_on_lan-keeps "tune_network_performance" (run fl w digest seconds req false s).1
          (st.runs req false s h)

    with_history-keeps :
        (t : Tick fl) (s : Healer fl) → Inv s → Inv (with_history fl w digest seconds t s)
    with_history-keeps t s h = st.learns s s.unverified _ h

    pub check_health-keeps :
        (t : Tick fl) (s : Healer fl) → Inv s → Inv (check_health fl w digest seconds t s)
    check_health-keeps t s h =
        let (ended, wd, disk) = record_health_check_success digest t.system s.watchdog s.disk in
        st.files s disk wd s.commands s.pending h

    pub finish_at-keeps :
        (i : ℕ) (t : Tick fl) (alpha : F) (us : List (Unverified fl)) (s : Healer fl)
        → Inv s
        → Inv (finish_at fl w digest seconds i t alpha us s)
    unfolding finish_at
    finish_at-keeps i t alpha [] s h = h
    finish_at-keeps zero t alpha (u ∷ rest) s h =
        st.learns s rest (finish_verification fl t alpha u s.store) h
    finish_at-keeps (suc i) t alpha (u ∷ rest) s h =
        let s' = finish_at fl w digest seconds i t alpha rest s in
        st.learns s' (u ∷ s'.unverified) s'.store (finish_at-keeps i t alpha rest s h)

    harmonize_repeater_state-keeps :
        (b : Bool) (s : Healer fl) → Inv s → Inv (harmonize_repeater_state fl w digest seconds b s)
    unfolding harmonize_repeater_state
    harmonize_repeater_state-keeps b s h =
        either w.is_linux _ s (st.files s s.disk s.watchdog _ s.pending h) h

    -- What a tick does before the safe mode and the kill switch are asked for
    pub begun-keeps :
        (t : Tick fl) (b : Bool) (s : Healer fl)
        → Inv s
        → Inv
            (harmonize_repeater_state fl w digest seconds b (with_history fl w digest seconds t s))
    begun-keeps t b s h =
        harmonize_repeater_state-keeps b (with_history fl w digest seconds t s)
          (with_history-keeps t s h)

    pub ready-keeps :
        (t : Tick fl) (m : Metrics fl) (s : Healer fl)
        → Inv s
        → Inv (ready fl w digest seconds t m s)
    ready-keeps t m s h =
        let s₀ = stabilize fl w digest seconds t m (adapt_bandwidth fl w digest seconds m s) in
        let s₁ =
          accelerate_download fl w digest seconds m
            (accelerate_streaming fl w digest seconds m s₀) in
        let h₀ : Inv s₀ =
          stabilize-keeps t m (adapt_bandwidth fl w digest seconds m s)
            (adapt_bandwidth-keeps m s h) in
        let h₁ : Inv s₁ =
          accelerate_download-keeps m (accelerate_streaming fl w digest seconds m s₀)
            (accelerate_streaming-keeps m s₀ h₀) in
        sets s₁ s₁.low_traffic_cycles s₁.is_wifi_boosted s₁.streaming_pipeline_active
          s₁.bulk_download_active ((detect fl t m s₁.parser).1) h₁

    module _
        (asks : (t : Tick fl) (a : String) (log : Text) (m : Metrics fl) (s : Healer fl)
          → Inv s
          → Inv (propose fl w digest seconds t a log m s).1)
        (marks : (a : String) (now : ℕ) (s : Healer fl)
          → is_too_early (cooldown a) now (last_of a s.last_action) ≡ false
          → Inv s
          → Inv (record s { last_action = (a, now) ∷ s.last_action })) where
      heal_due-keeps :
          (t : Tick fl) (m : Metrics fl) (o : Option String) (s : Healer fl)
          → Inv s
          → Inv
              (heal_if_due fl w digest seconds t m (due fl w digest seconds t s.last_action o) s).1
      heal_due-keeps t m none s h = h
      heal_due-keeps t m (some a) s h =
          elim (Bool-cases (is_too_early (cooldown a) t.now (last_of a s.last_action))) [
            | inl e ↦ rw e h
            | inr e ↦ rw e (
                heal-keeps fl w digest seconds Inv st t a (sanitize_log t.log_sample) m
                  (asks t a (sanitize_log t.log_sample) m)
                  (record s { last_action = (a, t.now) ∷ s.last_action }) (marks a t.now s e h))
          ]

      act-keeps :
          (t : Tick fl) (m : Metrics fl) (s : Healer fl)
          → Inv s
          → Inv (act fl w digest seconds t m s).1
      unfolding act
      act-keeps t m s h =
          heal_due-keeps t m _ (ready fl w digest seconds t m s) (ready-keeps t m s h)

      measured-keeps :
          (t : Tick fl) (m : Metrics fl) (s : Healer fl)
          → Inv s
          → Inv (measured fl w digest seconds t m s).1
      unfolding measured
      measured-keeps t m s h =
          let wired = is_wired_wan_active fl w digest seconds m in
          let s' =
            harmonize_repeater_state fl w digest seconds wired
              (with_history fl w digest seconds t s) in
          let h' : Inv s' = begun-keeps t wired s h in
          elim (Bool-cases (is_safe_mode s'.watchdog)) [
            | inl e ↦ rw e (check_health-keeps t s' h')
            | inr e ↦ elim (Bool-cases (is_kill_switch_active fl s'.cfg t.switches)) [
              | inl f ↦ rw (e, f) h'
              | inr f ↦ rw (e, f) (act-keeps t m s' h')
            ]
          ]

      step-keeps :
          (e : Event fl w digest seconds) (s : Healer fl)
          → Inv s
          → Inv (step fl w digest seconds e s).1
      unfolding step tick
      step-keeps (ticked t) s h = on t.metrics
        where
          on : (o : Option (Metrics fl)) → Inv (on_metrics fl w digest seconds t o s).1
          on none = h
          on (some m) = measured-keeps t m s h
      step-keeps maintained s h = maintain-keeps s h
      step-keeps (verified i t alpha) s h = finish_at-keeps i t alpha s.unverified s h

      pub run_events-keeps :
          (es : List (Event fl w digest seconds)) (s : Healer fl)
          → Inv s
          → Inv (run_events fl w digest seconds es s)
      unfolding run_events
      run_events-keeps [] s h = h
      run_events-keeps (e ∷ rest) s h =
          run_events-keeps rest (step fl w digest seconds e s).1 (step-keeps e s h)

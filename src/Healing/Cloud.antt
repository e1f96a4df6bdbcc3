-- ===== src/Healing/Cloud.antt =====
-- What the main loop of main.go sends to the cloud.
use beryl7_ai_agent.Base.{
  ℕ, ◌+◌, ◌≤◌, ◌≡◌, String, Bool, true, not, Option, none, some, List, if◌then◌else◌, Bool-cases,
  inl, inr, arith,
}
use beryl7_ai_agent.Base.Text.{Text}
use beryl7_ai_agent.Base.Float.{Float64}
use beryl7_ai_agent.Ai.Client.Redact.{has_mac}
use beryl7_ai_agent.Ai.Client.Fetch.{HttpEvent, sends, sends-append, all_sent, all_sent-append}
use beryl7_ai_agent.Ai.Client.Analyze.{analyze_anomaly, sent_by}
use beryl7_ai_agent.Ai.Client.Analyze.Sends.{analyze_anomaly-sends}
use beryl7_ai_agent.Executor.Effects.{World}
use beryl7_ai_agent.SkillStore.{Skill}
use beryl7_ai_agent.Watchdog.{Body}
use beryl7_ai_agent.Healing.{Metrics, Tick, Healer}
use beryl7_ai_agent.Healing.Decide.{
  run, propose, heal, heal_by, is_offline, to_cloud, signature, with_rates,
}
use beryl7_ai_agent.Healing.Loop.{Event, run_events}
use beryl7_ai_agent.Healing.Loop.Keeps.{Stable, follow-keeps, carry_out-keeps}
use beryl7_ai_agent.Healing.Loop.Steps.{run_events-keeps}

module _ (fl : Float64) (w : World) (digest : Body → String) (seconds : ℕ → fl.F) where
  -- A statement about what was sent is kept by all but the requests.
  about_sent : (P : List HttpEvent → Type 0) → Stable fl w digest seconds (λ s. P s.sent)
  unfolding run
  about_sent P = record {
    runs = λ req dry_run s h. h;
    files = λ s d wd cmds p h. h;
    learns = λ s us st h. h;
    modes = λ s n b streaming bulk p h. h;
  }

  module _ (t : Tick fl) (anomaly : String) (log : Text) (m : Metrics fl) where
    -- How many requests a healing may send
    abbrev pub allowed : ℕ
    allowed = if is_offline fl w digest seconds anomaly m then 0 else 3

    propose-sends :
        (s : Healer fl)
        → sends ((propose fl w digest seconds t anomaly log m s).1.sent) ≤ sends s.sent + allowed
    unfolding propose
    propose-sends s =
        let a = to_cloud fl w digest seconds t anomaly log in
        let evs =
          sent_by fl seconds t.web a (analyze_anomaly fl seconds t.web a t.times s.client) in
        elim (Bool-cases (is_offline fl w digest seconds anomaly m)) [
          | inl e ↦ rw e (omega arith)
          | inr e ↦
              rw (e, sends-append s.sent evs)
                (omega (arith, (analyze_anomaly-sends fl seconds t.web a t.times s.client).0))
        ]

    heal_by-sends :
        (local : String) (o : Option (Skill fl)) (s : Healer fl)
        → sends ((heal_by fl w digest seconds t anomaly log m local o s).sent)
          ≤ sends s.sent + allowed
    unfolding heal_by
    heal_by-sends local none s =
        let (o, s') = propose fl w digest seconds t anomaly log m s in
        let P : List HttpEvent → Type 0 = λ l. sends l ≤ sends s.sent + allowed in
        follow-keeps fl w digest seconds (λ x. P x.sent) (about_sent P) t anomaly local
          (signature fl w digest seconds anomaly m) o s' (propose-sends s)
    heal_by-sends local (some sk) s =
        let P : List HttpEvent → Type 0 = λ l. sends l ≤ sends s.sent + allowed in
        carry_out-keeps fl w digest seconds (λ x. P x.sent) (about_sent P) t
          (with_rates fl w digest seconds t sk.action) sk (signature fl w digest seconds anomaly m)
          s (omega arith)

    -- To heal an anomaly at most three requests are sent to the cloud, and none if the WAN is lost or offline.
    pub heal-sends :
        (s : Healer fl)
        → sends ((heal fl w digest seconds t anomaly log m s).sent) ≤ sends s.sent + allowed
    unfolding heal
    heal-sends s = heal_by-sends _ _ _

  abbrev hides_macs : Text → Bool
  hides_macs text = not (has_mac text)

  propose-hides_macs :
      (t : Tick fl) (a : String) (log : Text) (m : Metrics fl) (s : Healer fl)
      → all_sent hides_macs s.sent ≡ true
      → all_sent hides_macs ((propose fl w digest seconds t a log m s).1.sent) ≡ true
  unfolding propose
  propose-hides_macs t a log m s h =
      let c = to_cloud fl w digest seconds t a log in
      let evs = sent_by fl seconds t.web c (analyze_anomaly fl seconds t.web c t.times s.client) in
      elim (Bool-cases (is_offline fl w digest seconds a m)) [
        | inl e ↦ rw e h
        | inr e ↦ rw e (
            all_sent-append hides_macs s.sent evs h
              (analyze_anomaly-sends fl seconds t.web c t.times s.client).1)
      ]

  -- Whatever stands in the log, in the metrics and in the skills, nothing that the main loop sends to the cloud
  -- over any ticks, maintenance and verifications holds a MAC address.
  pub run_events-hides_macs :
      (es : List (Event fl w digest seconds)) (s : Healer fl)
      → all_sent (λ text. not (has_mac text)) s.sent ≡ true
      → all_sent (λ text. not (has_mac text)) ((run_events fl w digest seconds es s).sent) ≡ true
  run_events-hides_macs =
      run_events-keeps fl w digest seconds (λ s. all_sent hides_macs s.sent ≡ true)
        (about_sent (λ l. all_sent hides_macs l ≡ true)) propose-hides_macs (λ a now s due h. h)

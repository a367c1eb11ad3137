-- ===== src/Monitoring/Nats/Once.antt =====
-- How often an event is sent, and as what.
use k8s_container_service_pr.Base.{
  All-append, ℕ, zero, suc, ◌*◌, ◌≤◌, String, Bool, Option, List, [], ◌∷◌, ◌++◌, ◌≡◌, ◌⊎◌, refl,
  sym, ap, ◌∙◌, inl, inr, Result, ok, err, Result-cases, Bool-cases, Option-cases, All, map, length,
  arith, ◌<>◌, length-append,
}
use mathlib.Core.Path.{subst}
use mathlib.Core.List.{append-nil, append_assoc, map-append}
use k8s_container_service_pr.Monitoring.Debouncer.{StatusEvent}
use k8s_container_service_pr.Monitoring.Publish.{
  Delivery, delivered, gave_up, cancelled, Trace, publish_from, publish_with_retry,
  new_status_cloud_event,
}
use k8s_container_service_pr.Monitoring.Nats.{
  NatsPublisher, Libraries, new_nats_publisher, publish, send, event_data,
}

-- The messages that a connection has been given, each with its subject: a publication gives it one, which
-- an error may keep from it, and nothing else changes them.
pub record ConnLaws {W : Type 0} (lib : Libraries W) (wait : ℕ → W → Bool × W) : Type 0 where
  pub messages : W → List (String × String)
  pub sent :
      (subject body : String) (w : W)
      → (lib.conn_publish subject body w).0 ≡ ok tt
      → messages (lib.conn_publish subject body w).1 ≡ messages w ++ (subject, body) ∷ []
  pub failed :
      (subject body e : String) (w : W)
      → (lib.conn_publish subject body w).0 ≡ err e
      → (messages (lib.conn_publish subject body w).1 ≡ messages w)
        ⊎ (messages (lib.conn_publish subject body w).1 ≡ messages w ++ (subject, body) ∷ [])
  pub uuid_keeps : (w : W) → messages (lib.new_uuid w).1 ≡ messages w
  pub now_keeps : (w : W) → messages (lib.now w).1 ≡ messages w
  pub wait_keeps : (ms : ℕ) (w : W) → messages (wait ms w).1 ≡ messages w

-- How many messages an end of publishing has sent at least.
abbrev pub at_least : Delivery → ℕ
at_least delivered = 1
at_least gave_up = 0
at_least cancelled = 0

module _ {W : Type 0} (lib : Libraries W) (wait : ℕ → W → Bool × W) (laws : ConnLaws lib wait) where
  -- The body of a cloud event of an event of a provider: version 1.0, with an identifier and a time of
  -- its own, and with the instance, the status and the message as its data.
  abbrev pub IsBody : String → StatusEvent → String → Type 0
  IsBody provider_name event body =
      (uuid time : String) × (lib.marshal (record {
        spec_version = "1.0";
        id = uuid;
        source = "dcm/providers/" <> provider_name;
        type_ = "dcm.status.container";
        subject = "dcm.container";
        time = time;
        data_content_type = "application/json";
        payload = record { id = event.instance_id; status = event.status; message = event.message };
      })
        ≡ ok body)

  -- What is sent from one world to another: some bodies of the event, under the subject dcm.container,
  -- of which there are at least and at most so many.
  abbrev pub SentBetween : String → StatusEvent → ℕ → ℕ → W → W → Type 0
  SentBetween provider_name event least most w w' =
      (bodies : List String) × All (IsBody provider_name event) bodies
      × (laws.messages w' ≡ laws.messages w ++ map (λ b. ("dcm.container", b)) bodies)
      × (least ≤ length bodies)
      × (length bodies ≤ most)

  abbrev pub Sent : String → StatusEvent → W → Trace → W → Type 0
  Sent provider_name event w trace w' =
      SentBetween provider_name event (at_least trace.end) trace.attempts w w'

  none_sent :
      (name : String) (event : StatusEvent) (most : ℕ) (w w' : W)
      → laws.messages w' ≡ laws.messages w
      → SentBetween name event 0 most w w'
  none_sent name event most w w' same =
      ([], tt, same ∙ sym (append-nil _), omega arith, omega arith)

  one_sent :
      (name : String) (event : StatusEvent) (least : ℕ) (body : String) (w w' : W)
      → least ≤ 1
      → IsBody name event body
      → laws.messages w' ≡ laws.messages w ++ ("dcm.container", body) ∷ []
      → SentBetween name event least 1 w w'
  one_sent name event least body w w' h is_body same =
      (body ∷ [], (is_body, tt), same, omega (arith, h), omega arith)

  then_sent :
      (name : String) (event : StatusEvent) (least rest : ℕ) (w v x : W)
      → SentBetween name event 0 1 w v
      → SentBetween name event least rest v x
      → SentBetween name event least (suc rest) w x
  then_sent name event least rest w v x (bs, are, same, lo, hi) (cs, are', same', lo', hi') = (
    bs ++ cs,
    All-append (IsBody name event) bs cs are are',
    same'
        ∙ ap (λ l. l ++ map (λ b. ("dcm.container", b)) cs) same
        ∙ append_assoc (laws.messages w) (map (λ b. ("dcm.container", b)) bs)
            (map (λ b. ("dcm.container", b)) cs)
        ∙ ap (λ l. laws.messages w ++ l) (sym (map-append (λ b. ("dcm.container", b)) bs cs)),
    omega (arith, length-append bs cs, lo'),
    omega (arith, length-append bs cs, hi, hi'),
  )

  abbrev nats : String → NatsPublisher
  nats name = record { provider_name = name; subject = "dcm.container" }

  abbrev Attempted : String → StatusEvent → W → Result String (Unit {0}) → W → Type 0
  Attempted name event w (ok t) w' = SentBetween name event 1 1 w w'
  Attempted name event w (err e) w' = SentBetween name event 0 1 w w'

  publish-Attempted :
      (name : String) (event : StatusEvent) (w : W)
      → Attempted name event w
          (publish lib (nats name) event w).0
          (publish lib (nats name) event w).1
  unfolding publish event_data new_status_cloud_event
  publish-Attempted name event w = made (event_data lib (nats name) event uuid time) refl
    where
      uuid : String
      uuid = (lib.new_uuid w).0

      time : String
      time = (lib.now (lib.new_uuid w).1).0

      u : W
      u = (lib.now (lib.new_uuid w).1).1

      kept : laws.messages u ≡ laws.messages w
      kept = laws.now_keeps (lib.new_uuid w).1 ∙ laws.uuid_keeps w

      added :
          (body : String)
          → laws.messages u ++ ("dcm.container", body) ∷ []
            ≡ laws.messages w ++ ("dcm.container", body) ∷ []
      added body = ap (λ l. l ++ ("dcm.container", body) ∷ []) kept

      made :
          (d : Result String String)
          → event_data lib (nats name) event uuid time ≡ d
          → Attempted name event w (send lib (nats name) d u).0 (send lib (nats name) d u).1
      made (err e) h = none_sent name event 1 w u kept
      made (ok body) h = elim (Result-cases (lib.conn_publish "dcm.container" body u).0) [
        | inl (t, k) ↦ rw k (
            one_sent name event 1 body w _ (omega arith) (uuid, time, h)
              (laws.sent "dcm.container" body u k ∙ added body))
        | inr (e, k) ↦ elim (laws.failed "dcm.container" body e u k) [
          | inl same ↦ rw k (none_sent name event 1 w _ (same ∙ kept))
          | inr one ↦
              rw k (one_sent name event 0 body w _ (omega arith) (uuid, time, h) (one ∙ added body))
        ]
      ]

  publish_from-Sent :
      (left backoff : ℕ) (name : String) (event : StatusEvent) (w : W)
      → let (trace, x) = publish_from (publish lib (nats name)) wait left backoff event w in
        Sent name event w trace x
  unfolding publish_from
  publish_from-Sent zero b name event w =
      let once = publish-Attempted name event w in
      elim (Result-cases (publish lib (nats name) event w).0) [
        | inl (t, e) ↦ rw (publish_from, e) (rw e at once)
        | inr (f, e) ↦ rw (publish_from, e) (rw e at once)
      ]
  publish_from-Sent (suc left) b name event w =
      let once = publish-Attempted name event w in
      let w' = (publish lib (nats name) event w).1 in
      let v = (wait b w').1 in
      let rest = publish_from-Sent left (b * 2) name event v in
      elim (Result-cases (publish lib (nats name) event w).0) [
        | inl (t, e) ↦ rw (publish_from, e) (rw e at once)
        | inr (f, e) ↦
            let waited = later name event 0 1 w w' v (rw e at once) (laws.wait_keeps b w') in
            elim (Bool-cases (wait b w').0) [
              | inl c ↦ rw (publish_from, e, c) waited
              | inr c ↦ rw (publish_from, e, c) (then_sent name event _ _ w v _ waited rest)
            ]
      ]
    where
      later :
          (name : String) (event : StatusEvent) (least most : ℕ) (w v x : W)
          → SentBetween name event least most w v
          → laws.messages x ≡ laws.messages v
          → SentBetween name event least most w x
      later name event least most w v x (bs, are, same, lo, hi) kept =
          (bs, are, kept ∙ same, lo, hi)

  -- publishWithRetry over the publisher of NewNATSPublisher: every message that it sends has the subject
  -- dcm.container and the body of a cloud event of this event and this provider; there are at most as
  -- many as attempts, and at least one where the event is delivered.
  pub publish_with_retry-Sent :
      (connect : String → Option String) (nats_url provider_name : String) (p : NatsPublisher)
      (event : StatusEvent) (w : W)
      → new_nats_publisher connect nats_url provider_name ≡ ok p
      → let (trace, x) = publish_with_retry (publish lib p) wait event w in
        Sent provider_name event w trace x
  unfolding publish_with_retry new_nats_publisher
  publish_with_retry-Sent connect nats_url provider_name p event w made =
      elim (Option-cases (connect nats_url)) [
        | inl e ↦
            subst
              (λ q.
                let (trace, x) = publish_with_retry (publish lib q) wait event w in
                Sent provider_name event w trace x)
              (ok_inj (rw (new_nats_publisher, e) at made))
              (publish_from-Sent 4 10 provider_name event w)
        | inr (f, e) ↦ absurd (err≢ok (rw (new_nats_publisher, e) at made))
      ]
    where
      err≢ok : {a : NatsPublisher} {e : String} → err e ≡ ok a → ⊥
      err≢ok h = cc

      ok_inj : {a b : NatsPublisher} → ◌≡◌ {A = Result String NatsPublisher} (ok a) (ok b) → a ≡ b
      ok_inj h = cc

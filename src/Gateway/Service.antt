-- ===== src/Gateway/Service.antt =====
-- The request handler of intel/gateway.py with the validation of intel/integration.py and the
-- scoring and recording of intel/scoring.py and intel/database.py in place: what a client that gets
-- a decision may rely on.
use mathlib.Core.List.Memᴰ
mod Tests
use vexyl_guard.Prelude.{
  ℕ, ◌+◌, ◌*◌, ◌≤◌, String, Bool, true, List, [], Memᴰ, ◌≡◌, refl, sym, ap, ◌∙◌, subst, arith,
}
use vexyl_guard.Outcome.{
  Outcome, raised, returned, ◌>>=◌, raised-returned, returned-inj, bind-returned, then-returned,
}
use vexyl_guard.Python.{Python, Json, null, bool, int, float, str, arr, obj, Fields, get}
use vexyl_guard.Models.{RuntimeAiEvent, RiskDecision}
use vexyl_guard.Models.Reading.{Fresh, from_dict, to_dict}
use vexyl_guard.Gateway.{decision_policy_exit_code}
use vexyl_guard.Gateway.Handler.{
  Request, parsed, envelope_fields, event_fields, ScoringEnd, scored, failed, Reply, decided,
  Configuration, is_authorized, do_post, validate_envelope,
}
use vexyl_guard.Gateway.Replies.{do_post-IsAnswered}
use vexyl_guard.Scoring.Accumulator.{AttackIndex}
use vexyl_guard.Runtime.Store.{
  RuntimeRow, HistoryDb, missing, unreadable, table, Instant, open_db, record_runtime_event,
  insert_or_replace, delete_expired,
}
use vexyl_guard.Runtime.Session.{Arrival, decision_at, score_and_record}
use vexyl_guard.Runtime.Retention.{Within, Memᴰ-delete_expired, inserted}
use vexyl_guard.Runtime.Chain.{arrival_row}
use vexyl_guard.Integration.Validators.{validate_gateway_event}
use vexyl_guard.Integration.Accepted.{IsAccepted}
use vexyl_guard.Integration.Validation.{validate_gateway_event-IsAccepted}

unfoldable pub scoring_end : {F : Type 0} → Outcome (RiskDecision × HistoryDb F) → ScoringEnd
scoring_end (raised message) = failed
scoring_end (returned done) = scored done.0

module _ {F : Type 0} (py : Python F) (index : AttackIndex) (hours : ℕ) where
  scored-returned :
      (end : Outcome (RiskDecision × HistoryDb F)) (decision : RiskDecision)
      → scoring_end end ≡ scored decision
      → (stored : HistoryDb F) × (end ≡ returned (decision, stored))
  unfolding scoring_end
  scored-returned (raised message) decision e = absurd (ground arith)
  scored-returned (returned done) decision e = (done.1, ap (λ d. returned (d, done.1)) (cc))

  -- A recording that returns has opened a table, or made one.
  record-stores :
      (arrival : Arrival F) (db stored : HistoryDb F)
      → record_runtime_event py hours arrival.instant arrival.event
          (decision_at py index arrival db)
          db
        ≡ returned stored
      → (rows : List (RuntimeRow F)) × (stored ≡ table rows)
        × (Within (hours * 3600) arrival.instant.deleted_at (arrival_row py index hours arrival db)
            → Memᴰ (arrival_row py index hours arrival db) rows)
  unfolding record_runtime_event
  record-stores arrival db stored e =
      let (found, opened, e₁) = bind-returned _ _ _ e in
      let (u, fits, e₂) = then-returned _ _ _ e₁ in
      let (v, works, e₃) = then-returned _ _ _ e₂ in
      (
        _,
        sym (returned-inj e₃),
        Memᴰ-delete_expired hours arrival.instant.deleted_at _
            (inserted (arrival_row py index hours arrival db) found),
      )

  score_and_record-stores :
      (arrival : Arrival F) (db : HistoryDb F) (decision : RiskDecision) (stored : HistoryDb F)
      → score_and_record py index hours arrival db ≡ returned (decision, stored)
      → (decision ≡ decision_at py index arrival db)
        × (rows : List (RuntimeRow F)) × (stored ≡ table rows)
        × (Within (hours * 3600) arrival.instant.deleted_at (arrival_row py index hours arrival db)
            → Memᴰ (arrival_row py index hours arrival db) rows)
  unfolding score_and_record
  score_and_record-stores arrival db decision stored e =
      let (written, recording, e₁) = bind-returned _ _ _ e in
      let same = returned-inj e₁ in
      let (rows, is_table, found) = record-stores arrival db written recording in
      (sym (ap (λ d. d.0) same), rows, sym (ap (λ d. d.1) same) ∙ is_table, found)

  recorded :
      (arrival : Arrival F) (db : HistoryDb F) (decision : RiskDecision)
      → scoring_end (score_and_record py index hours arrival db) ≡ scored decision
      → (decision ≡ decision_at py index arrival db)
        × (rows : List (RuntimeRow F)) × (score_and_record py index hours arrival db
            ≡ returned (decision, table rows))
        × (Within (hours * 3600) arrival.instant.deleted_at (arrival_row py index hours arrival db)
            → Memᴰ (arrival_row py index hours arrival db) rows)
  recorded arrival db decision e =
      let (stored, done) = scored-returned _ decision e in
      let (same, rows, is_table, found) = score_and_record-stores arrival db decision stored done in
      (same, rows, done ∙ ap (λ d. returned (decision, d)) is_table, found)

module _ {F E : Type 0} (py : Python F) (config : Configuration)
    (first_sorted : List String → String) (validate : Fields F → Outcome E)
    (score : E → ScoringEnd) where
  object-returned :
      (v : Json F) (fields : Fields F)
      → envelope_fields py config v ≡ returned fields
      → v ≡ obj fields
  object-returned null fields e = absurd (raised-returned e)
  object-returned (bool b) fields e = absurd (raised-returned e)
  object-returned (int n) fields e = absurd (raised-returned e)
  object-returned (float f) fields e = absurd (raised-returned e)
  object-returned (str s) fields e = absurd (raised-returned e)
  object-returned (arr vs) fields e = absurd (raised-returned e)
  object-returned (obj fs) fields e = ap obj (returned-inj e)

  event-returned :
      (v : Json F) (fields : Fields F) → event_fields py config v ≡ returned fields → v ≡ obj fields
  event-returned null fields e = absurd (raised-returned e)
  event-returned (bool b) fields e = absurd (raised-returned e)
  event-returned (int n) fields e = absurd (raised-returned e)
  event-returned (float f) fields e = absurd (raised-returned e)
  event-returned (str s) fields e = absurd (raised-returned e)
  event-returned (arr vs) fields e = absurd (raised-returned e)
  event-returned (obj fs) fields e = ap obj (returned-inj e)

  -- A valid envelope holds a valid event.
  envelope-event :
      (envelope : Json F) (ev : E)
      → validate_envelope py config first_sorted validate score envelope ≡ returned ev
      → (outer fields : Fields F) × (envelope ≡ obj outer)
        × (get "event" outer ≡ obj fields)
        × (validate fields ≡ returned ev)
  unfolding validate_envelope
  envelope-event envelope ev e =
      let (outer, is_object, e₁) = bind-returned _ _ _ e in
      let (u, known, e₂) = then-returned _ _ _ e₁ in
      let (v, schema, e₃) = then-returned _ _ _ e₂ in
      let (inner, is_dict, valid) = bind-returned _ _ _ e₃ in
      (
        outer,
        inner,
        object-returned envelope outer is_object,
        event-returned _ inner is_dict,
        valid,
      )

-- What the service has besides a request: the attack index, the retention, the database, what is
-- made up for an event without a name or a time when its dictionary is read and read again, and the
-- readings of the clock.
pub record Service (F : Type 0) : Type 0 where
  pub index : AttackIndex
  pub hours : ℕ
  pub db : HistoryDb F
  pub fresh : Fresh
  pub fresh_again : Fresh
  pub loaded_at : ℕ
  pub instant : Instant

module _ {F : Type 0} (py : Python F) (config : Configuration) (first_sorted : List String → String)
    (service : Service F) where
  abbrev pub arrival_of : RuntimeAiEvent F → Arrival F
  arrival_of ev = record { event = ev; loaded_at = service.loaded_at; instant = service.instant }

  -- `validate_gateway_event(event).to_dict()`
  unfoldable pub validated_dict : Fields F → Outcome (Fields F)
  validated_dict fields = do
    ev ← validate_gateway_event py first_sorted service.fresh fields
    returned (to_dict ev)

  -- `score_and_record_ai_event` of a dictionary
  unfoldable pub score_event : Fields F → ScoringEnd
  score_event dict = scoring_end (
      score_and_record py service.index service.hours
        (arrival_of (from_dict py service.fresh_again dict)) service.db)

  -- `do_POST`, with what it calls
  unfoldable pub serve : Request F → Reply
  serve request = do_post py config first_sorted validated_dict score_event request

  -- the event that is scored for the dictionary of a request
  abbrev pub scored_event : Fields F → RuntimeAiEvent F
  scored_event fields =
      from_dict py service.fresh_again (to_dict (from_dict py service.fresh fields))

  -- A decision that was served on a request: the event of the request's body is an accepted one, the
  -- decision is the one of its scoring, and the event is in the store.
  pub record IsServed (request : Request F) (exit_code : ℕ) (decision : RiskDecision) : Type 0 where
    pub envelope : Fields F
    pub fields : Fields F
    pub rows : List (RuntimeRow F)
    pub authorized : is_authorized py config request ≡ true
    pub in_body : request.body ≡ parsed (obj envelope)
    pub in_envelope : get "event" envelope ≡ obj fields
    pub accepted : IsAccepted py service.fresh (from_dict py service.fresh fields)
    pub decides :
        decision ≡ decision_at py service.index (arrival_of (scored_event fields)) service.db
    pub has_exit_code : exit_code ≡ decision_policy_exit_code decision
    pub stores :
        score_and_record py service.index service.hours
          (arrival_of (scored_event fields))
          service.db
        ≡ returned (decision, table rows)
    pub stored :
        Within
          (service.hours * 3600)
          service.instant.deleted_at
          (arrival_row py service.index service.hours (arrival_of (scored_event fields)) service.db)
        → Memᴰ
            (arrival_row py service.index service.hours
              (arrival_of (scored_event fields))
              service.db)
            rows

  dict-IsAccepted :
      (fields dict : Fields F)
      → validated_dict fields ≡ returned dict
      → (dict ≡ to_dict (from_dict py service.fresh fields))
        × IsAccepted py service.fresh (from_dict py service.fresh fields)
  unfolding validated_dict
  dict-IsAccepted fields dict e =
      let (ev, valid, e₁) = bind-returned _ _ _ e in
      let (same, accepted) =
        validate_gateway_event-IsAccepted py first_sorted service.fresh fields ev valid in
      (sym (returned-inj e₁) ∙ ap to_dict same, subst (IsAccepted py service.fresh) same accepted)

  -- If the service answers a request with a decision, then the request is authorized, its body is an
  -- envelope, and what the event of this envelope is read as is accepted by the validation. This
  -- event is turned into a dictionary and read again; the decision is the one that scoring it gives
  -- under the stored history, and the exit code is the decision's. The recording of the event has
  -- returned: its row is in the table, unless the retention has passed since its time.
  pub serve-IsServed :
      (request : Request F) (exit_code : ℕ) (decision : RiskDecision)
      → serve request ≡ decided exit_code decision
      → IsServed request exit_code decision
  unfolding serve score_event
  serve-IsServed request exit_code decision e =
      let answered =
        do_post-IsAnswered py config first_sorted validated_dict score_event request exit_code
          decision e in
      let (envelope, fields, is_object, is_event, valid) =
        envelope-event py config first_sorted validated_dict score_event answered.envelope
          answered.event answered.valid in
      let (same, accepted) = dict-IsAccepted fields answered.event valid in
      let scores = subst (λ d. score_event d ≡ scored decision) same answered.is_scored in
      let (decides, rows, stores, stored) =
        recorded py service.index service.hours (arrival_of (scored_event fields)) service.db
          decision scores in
      record {
        envelope = envelope;
        fields = fields;
        rows = rows;
        authorized = answered.authorized;
        in_body = answered.has_body ∙ ap parsed is_object;
        in_envelope = is_event;
        accepted = accepted;
        decides = decides;
        has_exit_code = answered.has_exit_code;
        stores = stores;
        stored = stored;
      }

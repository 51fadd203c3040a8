-- ===== src/Adapters/Client/Batch.antt =====
-- What `batch_upload_documents` of adapters/core_client.py sends, and what its outcomes mean.
use ops_incident_collector.Prelude.{
  ℕ, String, true, Option, none, some, List, [], ◌∷◌, ◌++◌, ◌+◌, ◌<>◌, ◌≡◌, ◌∙◌, refl, ◌==◌,
  append_assoc, Result, ok, lift, ◌>>=◌, raise, missing_batch_endpoint, ==_iff, Bool-cases,
  Option-cases, inl, inr, if◌then◌else◌,
}
use ops_incident_collector.Core.Json.{Value, Fields, object, text, put_field}
use ops_incident_collector.Adapters.Http.{
  Request, Response, Reply, answered, unreachable, CoreCapabilities, Service, World, is_success,
  send, json_of, answer, post_method,
}
use ops_incident_collector.Adapters.Endpoints.{resolve_endpoint, format, or_key_error}
use ops_incident_collector.Adapters.Client.{
  batch_upload_documents, versioned_batch_payload, legacy_batch, fallback_ingest, ingest_answer,
}

module _ (service : Service) (version : String) where
  abbrev after : World → Request → World
  after w request = record w {
    sent = w.sent ++ request ∷ [];
    clock = w.clock + service.elapsed w.sent request;
  }

  -- Core answered a request, made after others, with a status.
  abbrev pub Answered : List Request → Request → (ℕ → Type 0) → Type 0
  Answered before request P =
      (r : Response) × (service.reply before request ≡ answered r) × P r.status_code

  -- What the outcome of a call says, of the requests before it and the world after it.
  abbrev pub Explains : World → Result Value × World → Type 0
  Explains w (ok v, w') =
      (before : List Request) × (request : Request) × (w'.sent ≡ before ++ request ∷ [])
      × Answered before request (λ status. is_success status ≡ true)
  Explains w (raise missing_batch_endpoint, w') =
      (a : Request) × (b : Request) × (c : Request) × (w'.sent ≡ w.sent ++ a ∷ b ∷ c ∷ [])
      × Answered w.sent a (λ status. status ≡ 404)
      × Answered (w.sent ++ a ∷ []) b (λ status. status ≡ 404)
      × Answered (w.sent ++ a ∷ b ∷ []) c (λ status. status ≡ 404)
  Explains w (raise e, w') = Unit

  -- `response.raise_for_status(); return response.json()` after a request.
  json_of-Explains :
      (w w' : World) (before : List Request) (request : Request) (r : Response)
      → w'.sent ≡ before ++ request ∷ []
      → service.reply before request ≡ answered r
      → Explains w (json_of r, w')
  json_of-Explains w w' before request r e h = elim (Bool-cases (is_success r.status_code)) [
    | inl t ↦ elim (Option-cases r.json) [
      | inl bad ↦ rw (t, bad) tt
      | inr (v, good) ↦ rw (t, good) (before, request, e, (r, h, t))
    ]
    | inr f ↦ rw f tt
  ]

  module _ (w : World) (a b : Request) (not_a : Answered w.sent a (λ status. status ≡ 404))
      (not_b : Answered (w.sent ++ a ∷ []) b (λ status. status ≡ 404)) where
    ingest_answer-Explains :
        (w' : World) (c : Request) (o : Reply)
        → service.reply (w.sent ++ a ∷ b ∷ []) c ≡ o
        → w'.sent ≡ (w.sent ++ a ∷ b ∷ []) ++ c ∷ []
        → Explains w ((do r ← lift (answer o); ingest_answer service version r) w')
    ingest_answer-Explains w' c (unreachable m) h e = tt
    ingest_answer-Explains w' c (answered r) h e = elim (Bool-cases (r.status_code == 404)) [
      | inl t ↦ rw t (
        a,
        b,
        c,
        e ∙ append_assoc w.sent (a ∷ b ∷ []) (c ∷ []),
        not_a,
        not_b,
        (r, h, (==_iff r.status_code 404).0 t),
      )
      | inr f ↦ rw f (json_of-Explains w w' (w.sent ++ a ∷ b ∷ []) c r e h)
    ]

    fallback_ingest-Explains :
        (w' : World) (project_id source_id : String) (payload : Fields)
        (caps : Option CoreCapabilities) (url : Option String)
        → format (("project_id", project_id) ∷ []) (resolve_endpoint caps "fallback_ingest") ≡ url
        → w'.sent ≡ w.sent ++ a ∷ b ∷ []
        → Explains w (fallback_ingest service version project_id source_id payload caps w')
    unfolding send
    fallback_ingest-Explains w' project_id source_id payload caps none u e = rw u tt
    fallback_ingest-Explains w' project_id source_id payload caps (some url) u e =
        let c : Request = record {
          method = post_method;
          url = url;
          body = object (put_field "source_id" (text source_id) payload);
        } in
        rw u
          (ingest_answer-Explains (after w' c) c (service.reply w'.sent c) (rw e refl) (rw e refl))

  module _ (w : World) (a : Request) (not_a : Answered w.sent a (λ status. status ≡ 404)) where
    legacy_answer-Explains :
        (w' : World) (b : Request) (project_id source_id : String) (payload : Fields)
        (caps : Option CoreCapabilities) (o : Reply)
        → service.reply (w.sent ++ a ∷ []) b ≡ o
        → w'.sent ≡ (w.sent ++ a ∷ []) ++ b ∷ []
        → Explains w (
            (do
              l ← lift (answer o)
              if l.status_code == 404
                  then fallback_ingest service version project_id source_id payload caps
                  else lift (json_of l))
              w')
    legacy_answer-Explains w' b project_id source_id payload caps (unreachable m) h e = tt
    legacy_answer-Explains w' b project_id source_id payload caps (answered r) h e =
        elim (Bool-cases (r.status_code == 404)) [
          | inl t ↦ rw t (
              fallback_ingest-Explains w a b not_a (r, h, (==_iff r.status_code 404).0 t) w'
                project_id source_id payload caps _ refl
                (e ∙ append_assoc w.sent (a ∷ []) (b ∷ [])))
          | inr f ↦ rw f (json_of-Explains w w' (w.sent ++ a ∷ []) b r e h)
        ]

    legacy_batch-Explains :
        (w' : World) (project_id source_id : String) (payload : Fields)
        (caps : Option CoreCapabilities)
        → w'.sent ≡ w.sent ++ a ∷ []
        → Explains w (legacy_batch service version project_id source_id payload caps w')
    unfolding send
    legacy_batch-Explains w' project_id source_id payload caps e =
        let b : Request = record {
          method = post_method;
          url = "/v1/projects/" <> project_id <> "/sources/" <> source_id <> "/documents:batch";
          body = object payload;
        } in
        legacy_answer-Explains (after w' b) b project_id source_id payload caps
          (service.reply w'.sent b) (rw e refl) (rw e refl)

  module _ (w : World) where
    batch_answer-Explains :
        (w' : World) (a : Request) (project_id source_id : String) (payload : Fields)
        (caps : Option CoreCapabilities) (o : Reply)
        → service.reply w.sent a ≡ o
        → w'.sent ≡ w.sent ++ a ∷ []
        → Explains w (
            (do
              r ← lift (answer o)
              if r.status_code == 404
                  then legacy_batch service version project_id source_id payload caps
                  else lift (json_of r))
              w')
    batch_answer-Explains w' a project_id source_id payload caps (unreachable m) h e = tt
    batch_answer-Explains w' a project_id source_id payload caps (answered r) h e =
        elim (Bool-cases (r.status_code == 404)) [
          | inl t ↦ rw t (
              legacy_batch-Explains w a (r, h, (==_iff r.status_code 404).0 t) w' project_id
                source_id payload caps e)
          | inr f ↦ rw f (json_of-Explains w w' w.sent a r e h)
        ]

    batch_url-Explains :
        (project_id source_id : String) (payload : Fields) (caps : Option CoreCapabilities)
        (url : Option String)
        → Explains w (
            (do
              u ← lift (or_key_error url)
              r ← send service post_method u (object payload)
              if r.status_code == 404
                  then legacy_batch service version project_id source_id payload caps
                  else lift (json_of r))
              w)
    unfolding send
    batch_url-Explains project_id source_id payload caps none = tt
    batch_url-Explains project_id source_id payload caps (some url) =
        let a : Request = record { method = post_method; url = url; body = object payload } in
        batch_answer-Explains (after w a) a project_id source_id payload caps
          (service.reply w.sent a) refl refl

  -- A batch upload that returns has had an answer of success to its last request; one that reports
  -- a missing endpoint has sent three requests, and each of them was answered with 404.
  pub batch_upload_documents-Explains :
      (w : World) (project_id source_id : String) (documents : List Value)
      (sync_id collector_id : Option String) (caps : Option CoreCapabilities)
      → Explains w (
          batch_upload_documents service version project_id source_id documents sync_id collector_id
            caps w)
  unfolding batch_upload_documents
  batch_upload_documents-Explains w project_id source_id documents sync_id collector_id caps =
      batch_url-Explains w project_id source_id
        (versioned_batch_payload version documents sync_id collector_id) caps _

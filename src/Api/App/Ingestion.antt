-- ===== src/Api/App/Ingestion.antt =====
-- What the routes under /v1 publish and answer.
use ingestkit.Prelude.{
  ℕ, ◌≡◌, refl, ap, ◌∙◌, ◌≢◌, ◌⊎◌, inl, inr, Bool, true, false, Option, some, List, [], ◌∷◌, Bytes,
  map, ok, Result-cases, arith, Bool-cases, if◌then◌else◌,
}
use ingestkit.Event.{Json, Input, Envelope, Time, utc, accept}
use ingestkit.Event.Laws.{accept_iff}
use ingestkit.Api.Auth.{AuthResult, missing_header, invalid_key, authenticated, api_key_auth}
use ingestkit.Api.RateLimit.{allow}
use ingestkit.Api.App.{
  App, Response, reply, send_error, Request, Route, single, batch, decode_body, stamp, publish_all,
  ingest, bucket_tenant, rate_limited, request_failed, protected, serve, accepted,
  authentication_failed, unknown_v1,
}

-- The envelope that the service makes of an event.
abbrev pub stamped : Bytes → Time → Input → Envelope
stamped tenant received i = record { input = i; tenant_id = tenant; received_at = utc received }

stamp-ok :
    (j : Json) (tenant : Bytes) (received : Time) (is : List Input) (es : List Envelope)
    → stamp j tenant received is ≡ ok es
    → es ≡ map (stamped tenant received) is
unfolding stamp
stamp-ok j tenant received [] es h = ground arith
stamp-ok j tenant received (i ∷ is) es h = elim (Result-cases (accept j i tenant received)) [
  | inr w ↦ absurd (ground arith)
  | inl w ↦ elim (Result-cases (stamp j tenant received is)) [
    | inr v ↦ absurd (ground arith)
    | inl v ↦
        let (_, _, _, e) = (accept_iff j i tenant received w.0).0 w.1 in
        ground (arith, e, stamp-ok j tenant received is v.0 v.1)
  ]
]

-- Everything that a handler of /v1 has done when it answers 202: who asked, what was decoded, what
-- was handed to the publisher, and the identifiers that are answered.
pub record Ingested (j : Json) (publish : List Envelope → Bool) (app : App) (many : Bool)
    (r : Request) (a : Response) : Type 0 where
  pub tenant : Bytes
  pub inputs : List Input
  pub known : api_key_auth app.keys r.authorization ≡ authenticated tenant
  pub granted : (allow app.limiter tenant r.now).0.0 ≡ true
  pub decoded : decode_body j many r.body ≡ ok inputs
  pub handed : a.handed ≡ some (map (stamped tenant r.received) inputs)
  pub acknowledged : publish (map (stamped tenant r.received) inputs) ≡ true
  pub answered : a.body ≡ accepted (map (λ i. i.event_id) inputs)

map-event_id-stamped :
    (t : Bytes) (received : Time) (is : List Input)
    → map (λ (e : Envelope). e.event_id) (map (stamped t received) is)
      ≡ map (λ (i : Input). i.event_id) is
map-event_id-stamped t received [] = refl
map-event_id-stamped t received (i ∷ is) = cc (map-event_id-stamped t received is)

abbrev answer_202 : Bytes → Time → List Input → Response
answer_202 tenant received is = record (reply 202 (accepted (map (λ i. i.event_id) is))) {
  handed = some (map (stamped tenant received) is);
}

AuthResult-cases :
    (a : AuthResult)
    → ((t : Bytes) × (a ≡ authenticated t)) ⊎ ((a ≡ missing_header) ⊎ (a ≡ invalid_key))
AuthResult-cases missing_header = inr (inl refl)
AuthResult-cases invalid_key = inr (inr refl)
AuthResult-cases (authenticated t) = inl (t, refl)

-- What the limiter lets through keeps its status and its contents.
rate_limited-202 :
    (app : App) (t : Bytes) (now : ℕ) (next : Response)
    → (rate_limited app (some t) now next).0.status ≡ 202
    → ((allow app.limiter t now).0.0 ≡ true)
      × (next.status ≡ 202)
      × ((rate_limited app (some t) now next).0.handed ≡ next.handed)
      × ((rate_limited app (some t) now next).0.body ≡ next.body)
unfolding rate_limited bucket_tenant
rate_limited-202 app t now next h = ground arith

protected-authenticated :
    (app : App) (r : Request) (handler : Option Bytes → Response) (t : Bytes)
    → api_key_auth app.keys r.authorization ≡ authenticated t
    → protected app r handler ≡ rate_limited app (some t) r.now (handler (some t))
unfolding protected
protected-authenticated app r handler t e = rw (e, protected)

neither :
    {a : AuthResult} → (a ≡ missing_header) ⊎ (a ≡ invalid_key) → (t : Bytes) → a ≢ authenticated t
neither (inl e) t f = cc (e, f)
neither (inr e) t f = cc (e, f)

protected-unauthenticated :
    (app : App) (r : Request) (handler : Option Bytes → Response)
    → ((tenant : Bytes) → api_key_auth app.keys r.authorization ≢ authenticated tenant)
    → protected app r handler ≡ (send_error 401 authentication_failed, app)
unfolding protected
protected-unauthenticated app r handler n =
    elim (AuthResult-cases (api_key_auth app.keys r.authorization)) [
      | inl w ↦ absurd (n w.0 w.1)
      | inr (inl e) ↦ rw (e, protected)
      | inr (inr e) ↦ rw (e, protected)
    ]

module _ (j : Json) (publish : List Envelope → Bool) where
  publish_all-202 :
      (tenant : Bytes) (received : Time) (is : List Input)
      → (publish_all j publish (map (stamped tenant received) is)).status ≡ 202
      → (publish (map (stamped tenant received) is) ≡ true)
        × (publish_all j publish (map (stamped tenant received) is) ≡ answer_202 tenant received is)
  unfolding publish_all
  publish_all-202 tenant received is h =
      elim (Bool-cases (publish (map (stamped tenant received) is))) [
        | inl e ↦ (e, rw (e, map-event_id-stamped tenant received is))
        | inr e ↦ absurd (ground arith)
      ]

  -- The handler behind a decoded body and stamped events.
  ingest-publish_all :
      (many : Bool) (tenant : Bytes) (received : Time) (raw : Bytes) (is : List Input)
      (es : List Envelope)
      → decode_body j many raw ≡ ok is
      → stamp j tenant received is ≡ ok es
      → ingest j publish many (some tenant) received raw
        ≡ publish_all j publish (map (stamped tenant received) is)
  unfolding ingest
  ingest-publish_all many tenant received raw is es p q =
      rw (p, ingest) (rw q (ap (publish_all j publish) (stamp-ok j tenant received is es q)))

  ingest-202 :
      (many : Bool) (tenant : Bytes) (received : Time) (raw : Bytes)
      → (ingest j publish many (some tenant) received raw).status ≡ 202
      → (is : List Input) × (decode_body j many raw ≡ ok is)
        × (publish (map (stamped tenant received) is) ≡ true)
        × (ingest j publish many (some tenant) received raw ≡ answer_202 tenant received is)
  ingest-202 many tenant received raw h = elim (Result-cases (decode_body j many raw)) [
    | inr w ↦ unfold ingest in absurd (ground arith)
    | inl w ↦ elim (Result-cases (stamp j tenant received w.0)) [
      | inr v ↦ unfold ingest in absurd (ground arith)
      | inl v ↦
          let e = ingest-publish_all many tenant received raw w.0 v.0 w.1 v.1 in
          let (p, q) = publish_all-202 tenant received w.0 (rw e at h) in (w.0, w.1, p, e ∙ q)
    ]
  ]

  module _ (ping : Bool) (app : App) (r : Request) where
    protected-202 :
        (many : Bool)
        → (protected app r (λ t. ingest j publish many t r.received r.body)).0.status ≡ 202
        → Ingested j publish app many r
            (protected app r (λ t. ingest j publish many t r.received r.body)).0
    protected-202 many h = elim (AuthResult-cases (api_key_auth app.keys r.authorization)) [
      | inl w ↦
          let handler = λ (t : Option Bytes). ingest j publish many t r.received r.body in
          let e = protected-authenticated app r handler w.0 w.1 in
          let (g, s, kept, body) =
            rate_limited-202 app w.0 r.now (handler (some w.0)) (rw e at h) in
          let (is, d, p, q) = ingest-202 many w.0 r.received r.body s in
          rw e (record {
            tenant = w.0;
            inputs = is;
            known = w.1;
            granted = g;
            decoded = d;
            handed = kept ∙ ap (λ (a : Response). a.handed) q;
            acknowledged = p;
            answered = body ∙ ap (λ (a : Response). a.body) q;
          })
      | inr n ↦
          let e =
            protected-unauthenticated app r (λ t. ingest j publish many t r.received r.body)
              (neither n) in
          absurd (omega (arith, (rw e at h)))
    ]

    -- An event route answers 202 only to a request whose key is that of a tenant to which the
    -- limiter grants it, whose body decodes to events, and all of whose envelopes, each event with
    -- that tenant and the time of receipt in UTC, in their order, the publisher has acknowledged. It
    -- answers their identifiers.
    pub serve-202 :
        (many : Bool)
        → (serve j publish ping app (if many then batch else single) r).0.status ≡ 202
        → Ingested j publish app many r
            (serve j publish ping app (if many then batch else single) r).0
    unfolding serve
    serve-202 true h = protected-202 true h
    serve-202 false h = protected-202 false h

    -- A request that is not authenticated is answered 401 on every route below /v1, publishes
    -- nothing and leaves the limiter as it is.
    pub serve-unauthenticated :
        (route : Route)
        → (route ≡ single) ⊎ ((route ≡ batch) ⊎ (route ≡ unknown_v1))
        → ((tenant : Bytes) → api_key_auth app.keys r.authorization ≢ authenticated tenant)
        → serve j publish ping app route r ≡ (send_error 401 authentication_failed, app)
    unfolding serve
    serve-unauthenticated single h n =
        protected-unauthenticated app r (λ t. ingest j publish false t r.received r.body) n
    serve-unauthenticated batch h n =
        protected-unauthenticated app r (λ t. ingest j publish true t r.received r.body) n
    serve-unauthenticated unknown_v1 h n =
        protected-unauthenticated app r (λ t. send_error 404 request_failed) n
    serve-unauthenticated route h n = absurd (ground arith)

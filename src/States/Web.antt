-- ===== src/States/Web.antt =====
-- pkg/engine/states/remote/http/http_state.go: a state kept by an HTTP server. The decoder is JSON's, which
-- makes a float64 of every number: it is not faithful (IsFaithful in States/Local) to a state with
-- integers in its attributes.
use kusion.Base.{
  ℕ, String, not, Option, none, some, List, [], ◌∷◌, ◌≡◌, refl, arith, nat_eq, if◌then◌else◌,
}
use kusion.Base.Text.{◌<>◌}
use kusion.Control.{Result, value, error}
use kusion.States.{State, StateQuery, StateStorage, query_for}
use kusion.States.Local.{Codec}

pub record HttpResponse : Type 0 where
  pub status_code : ℕ
  pub status : String
  -- what could be read of it
  pub body : String

-- `Sprintf` of a format behind a prefix, and requests by method, URL and body; a request that cannot be
-- made or sent is an error.
pub record Server (W : Type 0) : Type 0 where
  pub format : String → String → List String → String
  pub decimal : ℕ → String
  pub send : String → String → Option String → W → Result HttpResponse × W

pub record HttpState : Type 0 where
  pub url_prefix : String
  pub apply_url_format : String
  pub get_latest_url_format : String

module _ {W : Type 0} (c : Codec) (server : Server W) (h : HttpState) where
  unfoldable pub latest_url : StateQuery → String
  latest_url q =
      server.format h.url_prefix h.get_latest_url_format
        (q.tenant ∷ q.project ∷ q.stack ∷ q.cluster ∷ [])

  unfoldable pub apply_url : State → String
  apply_url s =
      server.format h.url_prefix h.apply_url_format
        (s.tenant ∷ s.project ∷ s.stack ∷ s.cluster ∷ [])

  refused : String → HttpResponse → String
  refused what r =
      what <> " failed. StatusCode:" <> server.decimal r.status_code <> ", Status:" <> r.status

  unfoldable pub decoded : Result State → Result (Option State)
  decoded (error e) = error e
  decoded (value s) = value (some s)

  received : Result HttpResponse → Result (Option State)
  unfolding refused decoded
  received (error e) = error e
  received (value r) =
      if nat_eq r.status_code 404
      then value none
      else if not (nat_eq r.status_code 200)
      then error (refused "get the latest state" r)
      else decoded (c.unmarshal r.body)

  unfoldable pub get_latest_state : StateQuery → W → Result (Option State) × W
  unfolding latest_url received
  get_latest_state q w = let (r, w') = server.send "GET" (latest_url q) none w in (received r, w')

  accepted : Result HttpResponse → Result (Unit {0})
  unfolding refused
  accepted (error e) = error e
  accepted (value r) =
      if not (nat_eq r.status_code 200) then error (refused "apply state" r) else value tt

  post : State → Result String → W → Result (Unit {0}) × State × W
  unfolding apply_url accepted
  post s (error e) w = (error e, s, w)
  post s (value text) w =
      let (r, w') = server.send "POST" (apply_url s) (some text) w in (accepted r, s, w')

  unfoldable pub apply : State → W → Result (Unit {0}) × State × W
  unfolding post
  apply s w = post s (c.marshal s) w

  -- `Delete`, of any id
  unfoldable pub delete : String → Result (Unit {0})
  delete id = error "not supported"

  unfoldable pub http_storage : StateStorage W
  unfolding apply get_latest_state
  http_storage = record { get_latest_state = get_latest_state; apply = apply }

  -- What the server promises, of its own addresses: it answers a request of the latest state of a tenant,
  -- project, stack and cluster with what it has accepted for these.
  pub record Serves : Type 0 where
    pub answers :
        (tenant project stack cluster text : String) (w w' : W) (r : HttpResponse)
        → server.send "POST"
            (server.format h.url_prefix h.apply_url_format
              (tenant ∷ project ∷ stack ∷ cluster ∷ []))
            (some text)
            w
          ≡ (value r, w')
        → r.status_code ≡ 200
        → (latest : HttpResponse) × ((server.send "GET"
              (server.format h.url_prefix h.get_latest_url_format
                (tenant ∷ project ∷ stack ∷ cluster ∷ []))
              none
              w').0
            ≡ value latest)
          × (latest.status_code ≡ 200)
          × (latest.body ≡ text)

  accepted-value :
      (r : Result HttpResponse)
      → accepted r ≡ value tt
      → (response : HttpResponse) × (r ≡ value response) × (response.status_code ≡ 200)
  unfolding accepted
  accepted-value (error e) k = cc
  accepted-value (value r) k = (r, refl, ground arith)

  post-value :
      (s out : State) (encoded : Result String) (w w' : W)
      → post s encoded w ≡ (value tt, out, w')
      → (text : String) × (r : HttpResponse) × (encoded ≡ value text)
        × (server.send "POST" (apply_url s) (some text) w ≡ (value r, w'))
        × (r.status_code ≡ 200)
        × (out ≡ s)
  unfolding post
  post-value s out (error e) w w' k = cc
  post-value s out (value text) w w' k =
      let (r, e, ok_code) =
        accepted-value (server.send "POST" (apply_url s) (some text) w).0 (cc) in
      (text, r, refl, ground arith, ok_code, (cc))

  received-latest :
      (text : String) (latest : HttpResponse)
      → latest.status_code ≡ 200
      → latest.body ≡ text
      → received (value latest) ≡ decoded (c.unmarshal text)
  unfolding received
  received-latest text latest code body = ground arith

  -- Over a server that answers with what it has accepted, a state whose `Apply` succeeds is left as it is,
  -- and its text is what the latest state of its tenant, project, stack and cluster is decoded from: what
  -- is read is the state itself only as far as the decoder reads what was encoded.
  pub http_storage-reads_back :
      Serves
      → (s out : State) (w w' : W) → http_storage.apply s w ≡ (value tt, out, w')
      → (text : String) × (c.marshal s ≡ value text)
        × (out ≡ s)
        × ((http_storage.get_latest_state (query_for out) w').0 ≡ decoded (c.unmarshal text))
  unfolding http_storage apply get_latest_state apply_url latest_url
  http_storage-reads_back serves s out w w' k =
      let (text, r, m, p, code, same) = post-value s out (c.marshal s) w w' k in
      let (latest, g, code', body) =
        serves.answers s.tenant s.project s.stack s.cluster text w w' r p code in
      (text, m, same, rw (same, g) (received-latest text latest code' body))

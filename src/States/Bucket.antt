-- ===== src/States/Bucket.antt =====
-- pkg/engine/states/remote/oss/oss_state.go and s3/s3_state.go: a state as an object of a bucket, under a
-- key made of its tenant, project and stack. The two differ in the client and in the decoder, which are
-- parameters.
use kusion.Base.{ap, String, Option, none, some, List, [], ◌∷◌, ◌≡◌, refl, sym, ◌∙◌, arith}
use kusion.Base.Text.{◌<>◌}
use kusion.Control.{Outcome, panicked, Result, value, error}
use kusion.States.{State, StateQuery, StateStorage, IsSaving, query_for}
use kusion.States.Local.{Codec, IsFaithful}

-- a call that fails may have changed the world
pub record Bucket (W : Type 0) : Type 0 where
  pub put_object : String → String → W → Result (Unit {0}) × W
  -- the keys with a prefix, up to the next `/`
  pub list_objects : String → W → Result (List String) × W
  -- an object, read to its end
  pub get_object : String → W → Result String × W

-- What a bucket promises: an object that was put is listed and read.
pub record IsKept {W : Type 0} (b : Bucket W) : Type 0 where
  pub listed :
      (key text : String) (w w' : W)
      → b.put_object key text w ≡ (value tt, w')
      → (first : String) × (rest : List String) × (w'' : W) × (b.list_objects key w'
          ≡ (value (first ∷ rest), w''))
        × (b.get_object key w'').0 ≡ value text

-- OSSStateName and S3StateName
abbrev pub state_name : String
state_name = "kusion_state.json"

unfoldable pub object_key : String → String → String → String
object_key tenant project stack = tenant <> "/" <> project <> "/" <> stack <> "/" <> state_name

module _ {W : Type 0} (c : Codec) (b : Bucket W) where
  put : State → Result String → W → Result (Unit {0}) × State × W
  unfolding object_key
  put s (error e) w = (error e, s, w)
  put s (value text) w =
      let (r, w') = b.put_object (object_key s.tenant s.project s.stack) text w in (r, s, w')

  unfoldable pub apply : State → W → Result (Unit {0}) × State × W
  unfolding put
  apply s w = put s (c.marshal s) w

  unfoldable pub decoded : Result State → Result (Option State)
  decoded (error e) = error e
  decoded (value s) = value (some s)

  read : Result String × W → Result (Option State) × W
  unfolding decoded
  read (error e, w) = (error e, w)
  read (value text, w) = (decoded (c.unmarshal text), w)

  after_list : String → Result (List String) × W → Result (Option State) × W
  unfolding read
  after_list key (error e, w) = (error e, w)
  after_list key (value [], w) = (value none, w)
  after_list key (value (first ∷ rest), w) = read (b.get_object key w)

  unfoldable pub get_latest_state : StateQuery → W → Result (Option State) × W
  unfolding after_list object_key
  get_latest_state q w =
      let key = object_key q.tenant q.project q.stack in after_list key (b.list_objects key w)

  -- `Delete` is not written yet.
  unfoldable pub delete : String → Outcome (Unit {0})
  delete id = panicked "implement me"

  unfoldable pub bucket_storage : StateStorage W
  unfolding apply get_latest_state
  bucket_storage = record { get_latest_state = get_latest_state; apply = apply }

  put-value :
      (s out : State) (r : Result String) (w w' : W)
      → put s r w ≡ (value tt, out, w')
      → (text : String) × (r ≡ value text)
        × (b.put_object (object_key s.tenant s.project s.stack) text w ≡ (value tt, w'))
        × (out ≡ s)
  unfolding put
  put-value s out (error e) w w' h = cc
  put-value s out (value text) w w' h = (text, refl, ground arith, cc)

  read_back :
      (key text : String) (listing : Result (List String) × W) (w' : W)
      → (first : String) × (rest : List String) × (w'' : W) × (listing
          ≡ (value (first ∷ rest), w''))
        × ((b.get_object key w'').0 ≡ value text)
      → (after_list key listing).0 ≡ decoded (c.unmarshal text)
  unfolding after_list read
  read_back key text listing w' (first, rest, w'', l, g) = rw l (ground arith)

  -- Over a bucket that keeps what is put, a state whose `Apply` succeeds is left as it is, and its text is
  -- what the latest state of its tenant, project and stack is decoded from: what is read is the state
  -- itself only as far as the decoder reads what was encoded.
  pub bucket_storage-reads_back :
      IsKept b
      → (s out : State) (w w' : W) → bucket_storage.apply s w ≡ (value tt, out, w')
      → (text : String) × (c.marshal s ≡ value text)
        × (out ≡ s)
        × ((bucket_storage.get_latest_state (query_for out) w').0 ≡ decoded (c.unmarshal text))
  unfolding bucket_storage apply get_latest_state
  bucket_storage-reads_back kept s out w w' h =
      let (text, m, p, same) = put-value s out (c.marshal s) w w' h in
      (
        text,
        m,
        same,
        rw same (
            read_back (object_key s.tenant s.project s.stack) text _ w'
              (kept.listed (object_key s.tenant s.project s.stack) text w w' p)),
      )

-- The storage of OSS, whose decoder is YAML's, which reads the integers of a JSON text as they are
abbrev pub oss_storage : {W : Type 0} → Codec → Bucket W → StateStorage W
oss_storage yaml bucket = bucket_storage yaml bucket

-- The storage of S3, whose decoder is JSON's, which makes a float64 of every number: it is not faithful
-- (IsFaithful in States/Local) to a state with integers in its attributes.
abbrev pub s3_storage : {W : Type 0} → Codec → Bucket W → StateStorage W
s3_storage json bucket = bucket_storage json bucket

decoded-faithful :
    {W : Type 0} (c : Codec) (b : Bucket W) (s : State) (text : String)
    → IsFaithful c
    → c.marshal s ≡ value text
    → decoded c b (c.unmarshal text) ≡ value (some s)
unfolding decoded
decoded-faithful c b s text f m = rw (f.unmarshal-marshal s text m) refl

-- Over a bucket that keeps what is put, and with a decoder that reads what is encoded, a state whose
-- `Apply` succeeds in OSS is the latest one of its tenant, project and stack, unchanged: the storage
-- keeps the promise that the engine relies on.
pub oss_storage-IsSaving :
    {W : Type 0} (yaml : Codec) (b : Bucket W)
    → IsFaithful yaml
    → IsKept b
    → IsSaving (oss_storage yaml b)
oss_storage-IsSaving yaml b f kept = record {
  reads_back = λ s out w w' h.
      let (text, m, same, got) = bucket_storage-reads_back yaml b kept s out w w' h in
      got ∙ decoded-faithful yaml b s text f m ∙ ap (λ t. value (some t)) (sym same);
  keeps = λ s out w w' h.
      let (text, m, same, got) = bucket_storage-reads_back yaml b kept s out w w' h in
      (ap (λ t. t.resources) same, ap (λ t. t.serial) same);
}

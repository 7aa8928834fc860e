-- ===== src/Webhook.antt =====
-- The handlers of pkg/webhook/server.go. Decoding and encoding belong to k8s.io/apimachinery and to
-- encoding/json on types of k8s.io/api, and are parameters, as is whether a write to the client fails.
-- `Kept` is the rest of a review, which the code only passes on.
pub mod Answers
use kube_valet.Prelude.{
  ℕ, String, Bool, true, false, not, ◌==◌, Option, none, some, List, [], ◌∷◌, ◌++◌, if◌then◌else◌,
}
use kube_valet.Outcome.{Outcome, ok, panic, ◌>>=◌}
use kube_valet.Kube.Cluster.{Reply, reply, failed}
use kube_valet.Kube.Pods.{Pod}

pub record AdmissionRequest : Type 0 where
  pub uid : String
  pub kind : String
  pub namespace : String
  pub raw : String

-- `patch_type` is `some` where the response has a patch, and `message` where it has a result.
pub record AdmissionResponse : Type 0 where
  pub uid : String
  pub allowed : Bool
  pub patch : Option String
  pub patch_type : Option String
  pub message : Option String

pub record AdmissionReview : Type 0 where
  pub request : Option AdmissionRequest
  pub response : Option AdmissionResponse

pub data HttpWrite : Type 0 where
  http_error : String → ℕ → HttpWrite
  written : String → HttpWrite

-- `body` is `none` for a nil body, else what reading it gives.
pub record HttpRequest : Type 0 where
  pub body : Option (Reply String)
  pub content_type : String

-- `decode` answers with the review that it leaves beside an error; `write_error` is the error of the
-- write of the answer; `patches` is GetPodSchedulingPatches with the encoding of what it returns.
pub record Codec : Type 0 where
  pub decode : String → Option String × AdmissionReview
  pub decode_pod : String → Reply Pod
  pub patches : Pod → Reply String
  pub encode : AdmissionReview → Reply String
  pub write_error : Option String

abbrev pub refusal : String → AdmissionResponse
refusal message = record {
  uid = "";
  allowed = false;
  patch = none;
  patch_type = none;
  message = some message;
}

abbrev pub permission : String → AdmissionResponse
permission patch = record {
  uid = "";
  allowed = true;
  patch = some patch;
  patch_type = some "JSONPatch";
  message = none;
}

abbrev pub read_body : Option (Reply String) → String
read_body none = ""
read_body (some (reply read)) = read
read_body (some (failed e)) = ""

module _ (codec : Codec) where
  open codec use {decode, decode_pod, patches, encode, write_error}

  abbrev pub answer_patches : Reply String → AdmissionResponse
  answer_patches (reply patch) = permission patch
  answer_patches (failed e) = refusal e

  abbrev pub answer_pod : String → Reply Pod → AdmissionResponse
  answer_pod namespace (reply pod) = answer_patches (patches (record pod { namespace = namespace }))
  answer_pod namespace (failed e) = refusal e

  unfoldable pub mutate_pod : AdmissionRequest → AdmissionResponse
  mutate_pod req = answer_pod req.namespace (decode_pod req.raw)

  -- The refusal of a body that cannot be decoded.
  abbrev pub decode_response : Option String → Option AdmissionResponse
  decode_response none = none
  decode_response (some e) = some (refusal e)

  -- The kind is read without a test for a missing request, which is a panic.
  unfoldable pub review : Option String × AdmissionReview → Outcome AdmissionReview
  unfolding mutate_pod
  review (e, ar) = elim ar.request [
    | none ↦ panic
    | some req ↦
        let response = if req.kind == "Pod" then some (mutate_pod req) else decode_response e in
        elim response [
          | none ↦ ok ar
          | some r ↦ ok (record ar { response = some (record r { uid = req.uid }) })
        ]
  ]

  abbrev pub report_write : List HttpWrite
  report_write = elim write_error [
    | none ↦ []
    | some e ↦ http_error "could not write response" 500 ∷ []
  ]

  -- After an encoding error an empty answer is written all the same.
  abbrev pub send_review : Reply String → List HttpWrite
  send_review (reply text) = written text ∷ report_write
  send_review (failed e) = http_error "could not encode response" 500 ∷ written "" ∷ report_write

  abbrev pub answer : Outcome AdmissionReview → Outcome (List HttpWrite)
  answer r = do ar ← r; ok (send_review (encode ar))

  unfoldable pub mutate_handler : HttpRequest → Outcome (List HttpWrite)
  unfolding review
  mutate_handler r =
      let body = read_body r.body in
      if body == ""
      then ok (http_error "empty body" 400 ∷ [])
      else if not (r.content_type == "application/json")
      then ok (http_error "Invalid Content-Type, expected `application/json`" 415 ∷ [])
      else answer (review (decode body))

-- ===== src/Webhook/Answers.antt =====
-- What the webhook answers, and when it panics.
use kube_valet.Prelude.{
  String, ◌≡◌, refl, sym, ◌∙◌, ◌↔◌, Bool, true, false, not, ◌&&◌, ◌==◌, Option, none, some,
  Bool-cases, inl, inr, Option-cases, if◌then◌else◌,
}
use kube_valet.Outcome.{Outcome, ok, err, panic, exit}
use kube_valet.Webhook.{
  AdmissionRequest, AdmissionResponse, AdmissionReview, HttpRequest, Codec, read_body,
  decode_response, mutate_pod, review, answer, mutate_handler,
}

module _ (codec : Codec) where
  abbrev pub has_no_request : AdmissionReview → Bool
  has_no_request ar = elim ar.request [ none ↦ true | some _ ↦ false ]

  -- A body that is read and said to be JSON.
  abbrev pub is_json : HttpRequest → Bool
  is_json r = not (read_body r.body == "") && (r.content_type == "application/json")

  abbrev panics {ℓ} : {A : Type ℓ} → Outcome A → Bool
  panics (ok a) = false
  panics (err e) = false
  panics panic = true
  panics exit = false

  panics_iff {ℓ} : {A : Type ℓ} (o : Outcome A) → (o ≡ panic) ↔ (panics o ≡ true)
  panics_iff (ok a) = (λ h. absurd (cc h), λ h. absurd (cc h))
  panics_iff (err e) = (λ h. absurd (cc h), λ h. absurd (cc h))
  panics_iff panic = (λ h. refl, λ h. refl)
  panics_iff exit = (λ h. absurd (cc h), λ h. absurd (cc h))

  panics-review :
      (e : Option String) (ar : AdmissionReview)
      → panics (answer codec (review codec (e, ar))) ≡ has_no_request ar
  unfolding review
  panics-review e ar = elim (Option-cases ar.request) [
    | inl h ↦ rw h refl
    | inr (req, h) ↦ rw h (
        responds
          (if req.kind == "Pod" then some (mutate_pod codec req) else decode_response codec e) req)
  ]
    where
      responds :
          (response : Option AdmissionResponse) (req : AdmissionRequest)
          → panics (
              answer codec (elim response [
                | none ↦ ok ar
                | some r ↦ ok (record ar { response = some (record r { uid = req.uid }) })
              ]))
            ≡ false
      responds none req = refl
      responds (some r) req = refl

  panics-mutate_handler :
      (r : HttpRequest)
      → panics (mutate_handler codec r)
        ≡ is_json r && has_no_request (codec.decode (read_body r.body)).1
  unfolding mutate_handler
  panics-mutate_handler r = elim (Bool-cases (read_body r.body == "")) [
    | inl e ↦ rw e refl
    | inr e ↦ rw e (elim (Bool-cases (r.content_type == "application/json")) [
      | inl h ↦
          rw h
            (panics-review (codec.decode (read_body r.body)).0 (codec.decode (read_body r.body)).1)
      | inr h ↦ rw h refl
    ])
  ]

  -- The handler panics exactly when the body is not empty, is said to be JSON, and is decoded, with or
  -- without an error, to a review without a request.
  pub mutate_handler-panics :
      (r : HttpRequest)
      → (mutate_handler codec r ≡ panic)
        ↔ (is_json r && has_no_request (codec.decode (read_body r.body)).1 ≡ true)
  mutate_handler-panics r =
      let (there, back) = panics_iff (mutate_handler codec r) in
      let e = panics-mutate_handler r in (λ h. sym e ∙ there h, λ h. back (e ∙ h))

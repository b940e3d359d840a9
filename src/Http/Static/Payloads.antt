-- ===== src/Http/Static/Payloads.antt =====
-- What an upload and a download return.
use netix_backend.Prelude.{
  ◌⊎◌, [], ◌∷◌, ◌++◌, eq_iff, str_eq, ℕ, ◌≡◌, ◌==◌, inl, inr, refl, ap, sym, ◌∙◌, Bool, true, false,
  List, Option, none, some, String, Result, ok, err, arith, Bool-cases, ok_inj, if◌then◌else◌,
}
use netix_backend.Prelude.Int.{ℤ, pos_part}
use netix_backend.Prelude.Floats.{Floats}
use netix_backend.Prelude.Dict.{Dict, get, get-set}
use netix_backend.Env.{Environ, ConfigurationError, or_default}
use netix_backend.Discovery.{Snapshot}
use netix_backend.Http.Retry.{Bound, retryable_exc, is_retryable_status, default_backoff}
use netix_backend.Http.Static.{
  Field, Response, Attempt, answered, failed, What, upload, download, Failure, static_service_error,
  no_link, Round, stop, Event, requested, slept, closed, attempt_round, upload_payload,
  upload_round, fetch_round, accepted_upload_status, payload_of, with_link, with_file,
}
use netix_backend.Http.Static.Client.{
  Client, attempts, in_client, or_raised, closing, static_call, static_upload, fetch,
  build_static_client,
}
use netix_backend.Http.Static.Loop.{loop-ok, was_requested}

-- The payload that belongs to an answer of the service: its own JSON, which has a link that is not
-- empty, and under `file` what the service sent there, or the link if it sent nothing.
pub record IsCompleted (r : Response) (payload : Dict Field) : Type 0 where
  pub sent : Dict Field
  pub link : Field
  pub accepted : (r.status_code ≡ 200) ⊎ (r.status_code ≡ 201)
  pub decoded : r.json ≡ some sent
  pub link_sent : get sent "link" ≡ some link
  pub link_is_true : link.is_true ≡ true
  pub entries :
      (key : String)
      → get payload key
        ≡ (if str_eq "file" key then some (or_default link (get sent "file")) else get sent key)

stop_inj : {R : Type 0} {a b : Result Failure R} → stop a ≡ stop b → a ≡ b
stop_inj e = cc

-- Only a response gives a value.
attempt_round-ok :
    {R : Type 0} (what : What) (round : Response → Round R) (a : Attempt) (value : R)
    → attempt_round what round a ≡ stop (ok value)
    → (r : Response) × (a ≡ answered r) × (round r ≡ stop (ok value))
unfolding attempt_round
attempt_round-ok what round (answered r) value e = (r, refl, e)
attempt_round-ok what round (failed x) value e = elim (Bool-cases (retryable_exc x)) [
  | inl more ↦ absurd (let h = rw more at e in cc)
  | inr last ↦ absurd (let h = rw last at e in cc)
]

with_file-get :
    (sent : Dict Field) (link : Field) (file : Option Field) (key : String)
    → get sent "file" ≡ file
    → get (with_file sent link file) key
      ≡ (if str_eq "file" key then some (or_default link file) else get sent key)
with_file-get sent link none key h = get-set sent "file" key link
with_file-get sent link (some file) key h = elim (Bool-cases (str_eq "file" key)) [
  | inl hit ↦ rw hit (ap (get sent) (sym ((eq_iff "file" key).0 hit)) ∙ h)
  | inr miss ↦ rw miss refl
]

accepted_status : (n : ℕ) → accepted_upload_status n ≡ true → (n ≡ 200) ⊎ (n ≡ 201)
unfolding accepted_upload_status
accepted_status n h = ground (arith, h)

with_link-IsCompleted :
    (r : Response) (sent : Dict Field) (found : Option Field) (p : Dict Field)
    → accepted_upload_status r.status_code ≡ true
    → r.json ≡ some sent
    → get sent "link" ≡ found
    → with_link sent found ≡ ok p
    → IsCompleted r p
with_link-IsCompleted r sent none p accepted decoded found e = absurd (cc)
with_link-IsCompleted r sent (some link) p accepted decoded found e = guarded link.is_true refl e
  where
    guarded :
        (b : Bool)
        → link.is_true ≡ b
        → (if b
            then ok (with_file sent link (get sent "file"))
            else err (static_service_error (no_link sent)))
          ≡ ok p
        → IsCompleted r p
    guarded false empty h = absurd (cc)
    guarded true full h = record {
      sent = sent;
      link = link;
      accepted = accepted_status r.status_code accepted;
      decoded = decoded;
      link_sent = found;
      link_is_true = full;
      entries = λ key.
          ap (λ d. get d key) (sym (ok_inj h)) ∙ with_file-get sent link (get sent "file") key refl;
    }

upload_round-IsCompleted :
    (count n : ℕ) (r : Response) (p : Dict Field)
    → upload_round count n r ≡ stop (ok p)
    → IsCompleted r p
unfolding upload_round upload_payload
upload_round-IsCompleted count n r p e = elim (Bool-cases (accepted_upload_status r.status_code)) [
  | inl accepted ↦ from_json accepted r.json refl (stop_inj (rw accepted at e))
  | inr other ↦ elim (Bool-cases (is_retryable_status r.status_code)) [
    | inl more ↦ absurd (let h = rw (other, more) at e in cc)
    | inr last ↦ absurd (let h = rw (other, last) at e in cc)
  ]
]
  where
    from_json :
        accepted_upload_status r.status_code ≡ true
        → (json : Option (Dict Field)) → r.json ≡ json
        → payload_of json ≡ ok p
        → IsCompleted r p
    from_json accepted none decoded h = absurd (cc)
    from_json accepted (some sent) decoded h =
        with_link-IsCompleted r sent (get sent "link") p accepted decoded refl h

requested-closed :
    {F : Type 0} (es : List (Event F)) (n : ℕ)
    → was_requested es n ≡ true
    → was_requested (es ++ closed ∷ []) n ≡ true
requested-closed [] n h = absurd (cc)
requested-closed (requested m ∷ es) n h = elim (Bool-cases (m == n)) [
  | inl hit ↦ rw hit refl
  | inr miss ↦ rw miss (requested-closed es n (rw miss at h))
]
requested-closed (slept d ∷ es) n h = requested-closed es n h
requested-closed (closed ∷ es) n h = requested-closed es n h

fetch_round-ok :
    (link : String) (count n : ℕ) (r value : Response)
    → fetch_round link count n r ≡ stop (ok value)
    → (r.status_code == 200 ≡ true) × (r ≡ value)
unfolding fetch_round
fetch_round-ok link count n r value e = elim (Bool-cases (r.status_code == 200)) [
  | inl found ↦ (found, ok_inj (stop_inj (rw found at e)))
  | inr other ↦ elim (Bool-cases (r.status_code == 404)) [
    | inl gone ↦ absurd (let h = rw (other, gone) at e in cc)
    | inr error ↦ elim (Bool-cases (is_retryable_status r.status_code)) [
      | inl more ↦ absurd (let h = rw (other, error, more) at e in cc)
      | inr last ↦ absurd (let h = rw (other, error, last) at e in cc)
    ]
  ]
]

module _ (f : Floats) {T : Type 0} (env : Environ) (bound : Bound f.F) (registry : Snapshot)
    (draws : ℕ → f.F → f.F) (send : Option (Client f T) → ℕ → Attempt) where
  or_raised-ok :
      {R A : Type 0} (m : Result ConfigurationError A)
      (body : A → List (Event f.F) × Result Failure R) (trace : List (Event f.F)) (value : R)
      → or_raised f env bound registry draws send m body ≡ (trace, ok value)
      → (a : A) × (body a ≡ (trace, ok value))
  or_raised-ok (ok a) body trace value e = (a, e)
  or_raised-ok (err x) body trace value e = absurd (cc)

  closing-ok :
      {R : Type 0} (r : List (Event f.F) × Result Failure R) (trace : List (Event f.F)) (value : R)
      → closing f env bound registry draws send r ≡ (trace, ok value)
      → r ≡ (r.0, ok value)
  closing-ok (es, result) trace value e = ap (λ x. (es, x)) (ap (λ p. p.1) e)

  in_client-ok :
      {R : Type 0} (own_client : Bool) (timeout : Option f.F) (transport : Option T)
      (body : Option (Client f T) → List (Event f.F) × Result Failure R) (trace : List (Event f.F))
      (value : R)
      → in_client f env bound registry draws send own_client timeout transport body
        ≡ (trace, ok value)
      → (c : Option (Client f T)) × (es : List (Event f.F)) × (body c ≡ (es, ok value))
        × ((n : ℕ) → was_requested es n ≡ true → was_requested trace n ≡ true)
  in_client-ok true timeout transport body trace value e = (none, trace, e, λ n made. made)
  in_client-ok false timeout transport body trace value e =
      let (created, h) =
        or_raised-ok (build_static_client f env bound registry timeout transport)
          (λ created. closing f env bound registry draws send (body (some created))) trace value
          e in
      (
        some created,
        _,
        closing-ok (body (some created)) trace value h,
        λ n made.
            ap (λ p. was_requested p.0 n) (sym h) ∙ requested-closed (body (some created)).0 n made,
      )

  -- Where a call's value comes from: some attempt, through the caller's client or a built one.
  static_call-ok :
      {R : Type 0} (what : What) (round : ℕ → ℕ → Response → Round R) (own_client : Bool)
      (timeout : Option f.F) (retries : Option ℤ) (transport : Option T) (trace : List (Event f.F))
      (value : R)
      → static_call f env bound registry draws send what round own_client timeout retries transport
        ≡ (trace, ok value)
      → (count : ℕ) × (n : ℕ) × (c : Option (Client f T)) × (r : Response) × (send c n ≡ answered r)
        × (was_requested trace n ≡ true)
        × (round count n r ≡ stop (ok value))
  unfolding static_call
  static_call-ok what round own_client timeout retries transport trace value e =
      let (count, h1) = or_raised-ok (attempts f env bound retries) _ trace value e in
      let (backoff, h2) = or_raised-ok (default_backoff f env bound) _ trace value h1 in
      let (c, es, h3, kept) = in_client-ok own_client timeout transport _ trace value h2 in
      let (n, made, h4) =
        loop-ok f what round backoff draws (send c) (pos_part count) es value h3 in
      let (r, h5, h6) = attempt_round-ok what (round (pos_part count) n) (send c n) value h4 in
      (pos_part count, n, c, r, h5, kept n made, h6)

  -- What an upload returns is the answer to one of the attempts that it made, with status 200 or 201
  -- and a link that is not empty: the entries are those of the answer's JSON, but for `file`, which
  -- is the link if the service sent none.
  pub static_upload-IsCompleted :
      (own_client : Bool) (timeout : Option f.F) (retries : Option ℤ) (transport : Option T)
      (trace : List (Event f.F)) (payload : Dict Field)
      → static_upload f env bound registry draws send own_client timeout retries transport
        ≡ (trace, ok payload)
      → (c : Option (Client f T)) × (n : ℕ) × (r : Response) × (was_requested trace n ≡ true)
        × (send c n ≡ answered r)
        × IsCompleted r payload
  unfolding static_upload
  static_upload-IsCompleted own_client timeout retries transport trace payload e =
      let (count, n, c, r, h, made, is) =
        static_call-ok upload upload_round own_client timeout retries transport trace payload e in
      (c, n, r, made, h, upload_round-IsCompleted count n r payload is)

  -- What a download returns is the answer of one of its attempts, with status 200.
  pub fetch-answered :
      (link : String) (own_client : Bool) (timeout : Option f.F) (retries : Option ℤ)
      (transport : Option T) (trace : List (Event f.F)) (response : Response)
      → fetch f env bound registry draws send link own_client timeout retries transport
        ≡ (trace, ok response)
      → (c : Option (Client f T)) × (n : ℕ) × (send c n ≡ answered response)
        × (response.status_code ≡ 200)
  unfolding fetch
  fetch-answered link own_client timeout retries transport trace response e =
      let (count, n, c, r, h, made, is) =
        static_call-ok download (fetch_round link) own_client timeout retries transport trace
          response e in
      let (found, same) = fetch_round-ok link count n r response is in
      let status : response.status_code == 200 ≡ true =
        ap (λ x. x.status_code == 200) (sym same) ∙ found in
      (c, n, h ∙ ap answered same, ground arith)

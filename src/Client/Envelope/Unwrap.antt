-- ===== src/Client/Envelope/Unwrap.antt =====
-- client.go, `unwrap`: what holds of the result of every answer.
use arca_go_sdk.Prelude.{
  ℕ, ◌≡◌, refl, inl, inr, String, Option, none, some, true, arith, Option-cases, sym, ◌∙◌,
}
use arca_go_sdk.Client.Json.{Json, Fields}
use arca_go_sdk.Client.Errors.{
  ArcaError, Error, Result, ok, err, typed, transient, other, as_arca_error,
}
use arca_go_sdk.Client.Envelope.{
  Codec, ApiResponseError, Envelope, Body, Response, Wire, wired, unreadable, non_json, unwrap,
  stamp, stamp_result, unwrap_envelope, unmarshal_envelope,
}

stamp_status :
    (s : ℕ) (e : Error) (a : ArcaError) → as_arca_error (stamp s e) ≡ some a → a.status_code ≡ s
unfolding stamp as_arca_error
stamp_status s (typed k e) a h = ground arith
stamp_status s (transient n e) a h = stamp_status s e a h
stamp_status s (other m) a h = cc

stamp_result_status :
    {A : Type 0} (s : ℕ) (r : Result A) (e : Error) (a : ArcaError)
    → stamp_result s r ≡ err e
    → as_arca_error e ≡ some a
    → a.status_code ≡ s
stamp_result_status s (ok x) e a h k = cc
stamp_result_status s (err x) e a h k = stamp_status s x a (ground arith)

module _ {A : Type 0} (codec : Codec A) where
  -- An SDK error that `unwrap` returns carries the HTTP status of the answer, whichever way it came
  -- about.
  pub unwrap-status :
      (resp : Response) (e : Error) (a : ArcaError)
      → unwrap codec resp ≡ err e
      → as_arca_error e ≡ some a
      → a.status_code ≡ resp.status
  unfolding unwrap
  unwrap-status resp e a h k = stamp_result_status resp.status _ e a h k

  unwrap_envelope-ok :
      (status : ℕ) (env : Envelope) (a : A)
      → unwrap_envelope codec status env ≡ ok a
      → (env.success ≡ true) × ((v : Json) × (env.content ≡ some v) × (codec.decode v ≡ ok a))
  unfolding unwrap_envelope
  unwrap_envelope-ok status env a h = by_content env.content refl
    where
      by_content :
          (o : Option Json)
          → env.content ≡ o
          → (env.success ≡ true) × ((v : Json) × (env.content ≡ some v) × (codec.decode v ≡ ok a))
      by_content none p = absurd (ground arith)
      by_content (some v) p = (ground arith, (v, p, ground arith))

  unmarshal_keeps :
      (decode : Fields → Option ApiResponseError) (w : Wire) (env : Envelope)
      → unmarshal_envelope decode w ≡ some env
      → (env.success ≡ w.success) × (env.content ≡ w.content)
  unfolding unmarshal_envelope
  unmarshal_keeps decode w env h = ground arith

  -- A call succeeds only on a JSON envelope that says success and holds a value, and the result is
  -- that value decoded.
  pub unwrap-ok :
      (resp : Response) (a : A)
      → unwrap codec resp ≡ ok a
      → (text : String) × (w : Wire) × (v : Json) × (resp.body ≡ wired text w)
        × (w.success ≡ true)
        × (w.content ≡ some v)
        × (codec.decode v ≡ ok a)
  unfolding unwrap
  unwrap-ok resp a h = by_body resp.body refl
    where
      by_body :
          (b : Body)
          → resp.body ≡ b
          → (text : String) × (w : Wire) × (v : Json) × (resp.body ≡ wired text w)
            × (w.success ≡ true)
            × (w.content ≡ some v)
            × (codec.decode v ≡ ok a)
      by_body (unreadable e) p = absurd (ground arith)
      by_body (non_json t) p = absurd (ground arith)
      by_body (wired t w) p = elim (Option-cases (unmarshal_envelope codec.decode_error w)) [
        | inl q ↦ absurd (ground arith)
        | inr (env, q) ↦
            let (s, (v, c, d)) = unwrap_envelope-ok resp.status env a (ground arith) in
            let k = unmarshal_keeps codec.decode_error w env q in
            (t, w, v, p, sym k.0 ∙ s, sym k.1 ∙ c, d)
      ]

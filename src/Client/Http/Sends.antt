-- ===== src/Client/Http/Sends.antt =====
-- client.go: how often a call reaches the network.
use mathlib.Core.List.{append_assoc}
use arca_go_sdk.Prelude.{
  ℕ, zero, suc, ◌+◌, ◌≤◌, ◌≡◌, refl, ap, ◌∙◌, ◌⊎◌, inl, inr, List, [], ◌∷◌, ◌++◌, true, false,
  if◌then◌else◌, arith, length, length-append, All, All-append, All-map,
}
use arca_go_sdk.Client.Errors.{Error, Result, ok, err, is_transient, Result-cases}
use arca_go_sdk.Client.Types.{Method, Request, Call, Net, HttpClient}
use arca_go_sdk.Client.Http.{
  is_read, build_request, send, request_once, request_attempts, request_with_retry, max_retries,
  retry_or_stop,
}

-- How many requests a loop with so many attempts left may send.
abbrev pub budget : Method → ℕ → ℕ
budget m left = if is_read m then suc left else 1

-- `c'` is `c` after at most `n` more requests, each with the credential of `c` and the method `m`.
pub record Sends (n : ℕ) (m : Method) (c c' : HttpClient) : Type 0 where
  pub fresh : List Request
  pub few : length fresh ≤ n
  pub each : All (λ r. (r.credential ≡ c.credential) × (r.method ≡ m)) fresh
  pub after : c' ≡ record c { sent = fresh ++ c.sent }

-- Two stretches of requests one after the other.
Sends-trans :
    {m n : ℕ} {d : Method} {a b c : HttpClient}
    → Sends m d a b
    → Sends n d b c
    → Sends (m + n) d a c
Sends-trans {a} {b} s t = record {
  fresh = t.fresh ++ s.fresh;
  few = omega (arith, length-append t.fresh s.fresh, s.few, t.few);
  each =
      All-append _ t.fresh s.fresh
        (All-map _ _ (λ r p. (p.0 ∙ ap (λ (x : HttpClient). x.credential) s.after, p.1)) t.fresh
          t.each)
        s.each;
  after = cc (s.after, t.after, append_assoc t.fresh s.fresh a.sent);
}

Sends-weaken : {m n : ℕ} {d : Method} {a b : HttpClient} → m ≤ n → Sends m d a b → Sends n d a b
Sends-weaken h s = record {
  fresh = s.fresh;
  few = omega (arith, s.few);
  each = s.each;
  after = s.after;
}

module _ {A : Type 0} (net : Net A) where
  build_request_lem :
      (c : HttpClient) (call : Call) (req : Request)
      → build_request net c call ≡ ok req
      → (req.credential ≡ c.credential) × (req.method ≡ call.method)
  unfolding build_request
  build_request_lem c call req h = ground arith

  pub request_once-Sends :
      (c : HttpClient) (call : Call) → Sends 1 call.method c (request_once net c call).0
  unfolding request_once send
  request_once-Sends c call = elim (Result-cases (build_request net c call)) [
    | inl (req, e) ↦
        rw (e, request_once)
          (record {
            fresh = req ∷ [];
            few = omega arith;
            each = (build_request_lem c call req e, tt);
            after = refl;
          })
    | inr (x, e) ↦
        rw (e, request_once) (record { fresh = []; few = omega arith; each = tt; after = refl })
  ]

  -- The loop stops after its first attempt, or goes on from the state after it.
  retry_or_stop_cases :
      (call : Call) (again : HttpClient → HttpClient × Result A) (p : HttpClient × Result A)
      → ((retry_or_stop net call again p).0 ≡ p.0)
        ⊎ ((is_read call.method ≡ true) × (retry_or_stop net call again p ≡ again p.0))
  retry_or_stop_cases call again (c, ok a) = inl refl
  retry_or_stop_cases call again (c, err e) = ground arith

  request_attempts-Sends :
      (left : ℕ) (c : HttpClient) (call : Call)
      → Sends (budget call.method left) call.method c (request_attempts net left c call).0
  unfolding request_attempts
  request_attempts-Sends zero c call = Sends-weaken (ground arith) (request_once-Sends c call)
  request_attempts-Sends (suc left) c call =
      elim (retry_or_stop_cases call (λ c'. request_attempts net left c' call)
        (request_once net c call)) [
          | inl e ↦ rw e (Sends-weaken (ground arith) (request_once-Sends c call))
          | inr (r, e) ↦ rw e (
              Sends-weaken (ground arith) (
                Sends-trans (request_once-Sends c call)
                  (request_attempts-Sends left (request_once net c call).0 call)))
        ]

  -- A call without auth handling: a mutation reaches the network at most once and a read at most
  -- three times, always with the client's credential and the caller's method; nothing but the log of
  -- requests changes.
  pub request_with_retry-Sends :
      (c : HttpClient) (call : Call)
      → Sends (budget call.method max_retries) call.method c (request_with_retry net c call).0
  unfolding request_with_retry
  request_with_retry-Sends c call = request_attempts-Sends max_retries c call

  -- A request does not depend on what was sent before.
  build_request_sent :
      (c : HttpClient) (call : Call) (log : List Request)
      → build_request net (record c { sent = log }) call ≡ build_request net c call
  unfolding build_request
  build_request_sent c call log = refl

  request_attempts_exhausted :
      (left : ℕ) (c : HttpClient) (call : Call) (req : Request) (e : Error)
      → is_read call.method ≡ true
      → ((log : List Request) → net.is_done log ≡ false)
      → build_request net c call ≡ ok req
      → (request_attempts net left c call).1 ≡ err e
      → is_transient e ≡ true
      → length (request_attempts net left c call).0.sent ≡ length c.sent + suc left
  unfolding request_attempts request_once send
  request_attempts_exhausted zero c call req e r d b h t = ground arith
  request_attempts_exhausted (suc left) c call req e r d b h t = ground (
    arith,
    d (req ∷ c.sent),
    build_request_sent c call (req ∷ c.sent),
    request_attempts_exhausted left (record c { sent = req ∷ c.sent }) call req e r d,
  )

  -- A read that ends in a transient failure, with a context that did not end, was sent three times.
  pub request_with_retry_exhausted :
      (c : HttpClient) (call : Call) (req : Request) (e : Error)
      → is_read call.method ≡ true
      → ((log : List Request) → net.is_done log ≡ false)
      → build_request net c call ≡ ok req
      → (request_with_retry net c call).1 ≡ err e
      → is_transient e ≡ true
      → length (request_with_retry net c call).0.sent ≡ length c.sent + 3
  unfolding request_with_retry
  request_with_retry_exhausted c call req e r d b h t =
      request_attempts_exhausted max_retries c call req e r d b h t

-- ===== src/Ws/Requests/Replies.antt =====
-- websocket.go: what the callers of the requests make of the way their wait ends.
use arca_go_sdk.Prelude.{◌≡◌, refl, String, none, some, false, str_eq, arith, Bool-cases, inl, inr}
use arca_go_sdk.Client.Errors.{Result, ok, err, ◌>>=◌}
use arca_go_sdk.Ws.Requests.{
  Wake, context_done, timed_out, woken, Decoder, projection_reply, checked,
}

module _ {A : Type 0} (d : Decoder A) where
  checked_ok :
      (raw : String) (h : Result (String × String)) (a : A)
      → (h >>= checked d raw) ≡ ok a
      → (kind : String) × (message : String) × (h ≡ ok (kind, message))
        × (str_eq kind "error" ≡ false)
        × (d.body raw ≡ ok a)
  checked_ok raw (err e) a p = absurd (ground (arith, p))
  checked_ok raw (ok (kind, message)) a p = elim (Bool-cases (str_eq kind "error")) [
    | inl e ↦ absurd (ground (arith, p, e))
    | inr e ↦ (kind, message, refl, e, ground (arith, p, e))
  ]

  returned :
      (w : Wake) (a : A)
      → projection_reply d w ≡ ok a
      → (raw : String) × (kind : String) × (message : String) × (w ≡ woken (some raw))
        × (d.head raw ≡ ok (kind, message))
        × (str_eq kind "error" ≡ false)
        × (d.body raw ≡ ok a)
  unfolding projection_reply
  returned context_done a p = absurd (ground (arith, p))
  returned timed_out a p = absurd (ground (arith, p))
  returned (woken none) a p = absurd (ground (arith, p))
  returned (woken (some raw)) a p =
      let (kind, message, h, n, b) = checked_ok raw (d.head raw) a p in
      (raw, kind, message, refl, h, n, b)

  returns :
      (w : Wake) (a : A) (raw kind message : String)
      → w ≡ woken (some raw)
      → d.head raw ≡ ok (kind, message)
      → str_eq kind "error" ≡ false
      → d.body raw ≡ ok a
      → projection_reply d w ≡ ok a
  unfolding projection_reply
  returns w a raw kind message e h n b = rw (e, h, n) b

-- ===== src/Ws/Requests/Channels.antt =====
-- websocket.go: how the pending requests and their channels fit together.
use native.Mathlib.Decide.{ℕ_discrete}
use arca_go_sdk.Prelude.{
  ℕ, suc, ◌<◌, ◌≡◌, ◌≢◌, sym, subst, refl, ap, ◌∙◌, String, List, [], ◌∷◌, none, some, update,
  lookup, put, del, str_eq, arith, All, All-map, Option-cases, inl, inr, Bool-cases,
}
use arca_go_sdk.Ws.Requests.{
  Channel, idle, shut, broken, send_on, close_on, Requests, register_pending, take_pending,
  send_taken, close_all, reject_pending, drop_pending,
}

abbrev pub On : (ℕ → Type 0) → String × ℕ → Type 0
On P e = P e.1

-- No two requests wait on one channel.
abbrev pub Apart : List (String × ℕ) → Type 0
Apart [] = Unit
Apart (e ∷ m) = All (On (λ d. d ≢ e.1)) m × Apart m

-- An empty, open channel that nothing is on its way to.
abbrev pub Waits : Requests → ℕ → Type 0
Waits s c = (s.channels c ≡ idle) × (s.sending c ≡ none) × (c < s.next_channel)

-- The channels of the requests that wait are such, those that an answer is on its way to are empty and
-- open, and no channel is broken.
pub record Inv (s : Requests) : Type 0 where
  pub waiting : All (On (Waits s)) s.pending
  pub taken :
      (c : ℕ) (data_ : String)
      → s.sending c ≡ some data_
      → (s.channels c ≡ idle) × (c < s.next_channel)
  pub apart : Apart s.pending
  pub sound : (c : ℕ) → s.channels c ≢ broken

module _ (P : ℕ → Type 0) where
  All-put :
      (k : String) (c : ℕ) (m : List (String × ℕ)) → P c → All (On P) m → All (On P) (put k c m)
  unfolding put
  All-put k c [] p a = (p, tt)
  All-put k c ((j, d) ∷ m) p a = elim (Bool-cases (str_eq j k)) [
    | inl e ↦ rw e (p, a.1)
    | inr e ↦ rw e (a.0, All-put k c m p a.1)
  ]

  All-del : (k : String) (m : List (String × ℕ)) → All (On P) m → All (On P) (del k m)
  unfolding del
  All-del k [] a = tt
  All-del k ((j, d) ∷ m) a = elim (Bool-cases (str_eq j k)) [
    | inl e ↦ rw e (All-del k m a.1)
    | inr e ↦ rw e (a.0, All-del k m a.1)
  ]

  pub All-lookup :
      (k : String) (m : List (String × ℕ)) (c : ℕ) → All (On P) m → lookup k m ≡ some c → P c
  unfolding lookup
  All-lookup k [] c a e = absurd (ground (arith, e))
  All-lookup k ((j, d) ∷ m) c a e = elim (Bool-cases (str_eq j k)) [
    | inl f ↦ let same : d ≡ c = ground (arith, e, f) in subst P same a.0
    | inr f ↦ All-lookup k m c a.1 (ground (arith, e, f))
  ]

Apart-put :
    (k : String) (c : ℕ) (m : List (String × ℕ))
    → All (On (λ d. d ≢ c)) m
    → Apart m
    → Apart (put k c m)
unfolding put
Apart-put k c [] n a = (tt, tt)
Apart-put k c ((j, d) ∷ m) n a = elim (Bool-cases (str_eq j k)) [
  | inl e ↦ rw e (n.1, a.1)
  | inr e ↦
      let other : c ≢ d = λ f. n.0 (sym f) in
      rw e (All-put (λ x. x ≢ d) k c m other a.0, Apart-put k c m n.1 a.1)
]

Apart-del : (k : String) (m : List (String × ℕ)) → Apart m → Apart (del k m)
unfolding del
Apart-del k [] a = tt
Apart-del k ((j, d) ∷ m) a = elim (Bool-cases (str_eq j k)) [
  | inl e ↦ rw e (Apart-del k m a.1)
  | inr e ↦ rw e (All-del (λ x. x ≢ d) k m a.0, Apart-del k m a.1)
]

-- Once a request is taken out, no other waits on its channel.
rest_elsewhere :
    (k : String) (m : List (String × ℕ)) (c : ℕ)
    → Apart m
    → lookup k m ≡ some c
    → All (On (λ d. d ≢ c)) (del k m)
unfolding del lookup
rest_elsewhere k [] c a e = tt
rest_elsewhere k ((j, d) ∷ m) c a e = elim (Bool-cases (str_eq j k)) [
  | inl f ↦
      let same : d ≡ c = ground (arith, e, f) in
      rw f (All-del (λ x. x ≢ c) k m (subst (λ x. All (On (λ y. y ≢ x)) m) same a.0))
  | inr f ↦
      let there : lookup k m ≡ some c = ground (arith, e, f) in
      let other : c ≢ d = All-lookup (λ x. x ≢ d) k m c a.0 there in
      rw f ((λ g. other (sym g)), rest_elsewhere k m c a.1 there)
]

All-both :
    (P Q : ℕ → Type 0) (m : List (String × ℕ))
    → All (On P) m
    → All (On Q) m
    → All (On (λ c. P c × Q c)) m
All-both P Q [] a b = tt
All-both P Q (e ∷ m) a b = ((a.0, b.0), All-both P Q m a.1 b.1)

module _ (s : Requests) (v : Inv s) where
  pub register-Inv : (id : String) → Inv (register_pending id s)
  unfolding register_pending
  register-Inv id =
      let n = s.next_channel in
      let fresh : s.sending n ≡ none = elim (Option-cases (s.sending n)) [
        | inl e ↦ e
        | inr (data_, e) ↦ absurd (omega (arith, (v.taken n data_ e).1))
      ] in
      record {
        waiting =
            All-put (λ c. (update s.channels n idle c ≡ idle) × (s.sending c ≡ none) × (c < suc n))
              id n s.pending (ground arith, fresh, omega arith)
              (All-map (On (Waits s))
                (On (λ c. (update s.channels n idle c ≡ idle) × (s.sending c ≡ none) × (c < suc n)))
                (λ e p. (ground (arith, p.0), p.1, omega (arith, p.2))) s.pending v.waiting);
        apart =
            Apart-put id n s.pending
              (All-map (On (Waits s)) (On (λ c. c ≢ n)) (λ e p. λ f. absurd (omega (arith, p.2, f)))
                s.pending v.waiting)
              v.apart;
        taken = λ c data_ e. let t = v.taken c data_ e in (ground (arith, t.0), omega (arith, t.1));
        sound = λ c. ground (arith, v.sound c);
      }

  pub drop-Inv : (id : String) → Inv (drop_pending id s)
  unfolding drop_pending
  drop-Inv id = record {
    waiting = All-del (Waits s) id s.pending v.waiting;
    apart = Apart-del id s.pending v.apart;
    taken = v.taken;
    sound = v.sound;
  }

  pub take-Inv : (id data_ : String) → Inv (take_pending id data_ s).0
  unfolding take_pending
  take-Inv id data_ = elim (Option-cases (lookup id s.pending)) [
    | inl e ↦ rw (e, take_pending) v
    | inr (c, e) ↦
        let open_ = All-lookup (Waits s) id s.pending c v.waiting e in
        rw (e, take_pending)
          (record {
            waiting =
                All-map (On (λ d. Waits s d × (d ≢ c)))
                  (On (λ d.
                    (s.channels d ≡ idle)
                    × (update s.sending c (some data_) d ≡ none)
                    × (d < s.next_channel)))
                  (λ f p. (p.0.0, ground (arith, p.0.1, p.1), p.0.2)) (del id s.pending)
                  (All-both _ (λ d. d ≢ c) (del id s.pending)
                    (All-del (Waits s) id s.pending v.waiting)
                    (rest_elsewhere id s.pending c v.apart e));
            apart = Apart-del id s.pending v.apart;
            taken = λ d other h. elim (ℕ_discrete c d) [
              | yes q ↦
                  subst (λ x. (s.channels x ≡ idle) × (x < s.next_channel)) q (open_.0, open_.2)
              | no n ↦ v.taken d other (ground (arith, h, n))
            ];
            sound = v.sound;
          })
  ]

  pub send-Inv : (c : ℕ) → Inv (send_taken c s)
  unfolding send_taken
  send-Inv c = elim (Option-cases (s.sending c)) [
    | inl e ↦ rw (e, send_taken) v
    | inr (data_, e) ↦
        let open_ = v.taken c data_ e in
        rw (e, send_taken)
          (record {
            waiting =
                All-map (On (Waits s))
                  (On (λ d.
                    (update s.channels c (send_on data_ (s.channels c)) d ≡ idle)
                    × (update s.sending c none d ≡ none)
                    × (d < s.next_channel)))
                  (λ f p. (ground (arith, p.0, p.1, e), ground (arith, p.1), p.2)) s.pending
                  v.waiting;
            apart = v.apart;
            taken = λ d other h. elim (ℕ_discrete c d) [
              | yes q ↦ absurd (ground (arith, h, q))
              | no n ↦
                  let t = v.taken d other (ground (arith, h, n)) in (ground (arith, t.0, n), t.1)
            ];
            sound = λ d. ground (arith, open_, v.sound d);
          })
  ]

-- What the loop of a rejection does: it shuts the channels of the requests and touches no other.
close_all_sound :
    (m : List (String × ℕ)) (chans : ℕ → Channel)
    → All (On (λ c. chans c ≡ idle)) m
    → Apart m
    → ((c : ℕ) → chans c ≢ broken)
    → (c : ℕ) → close_all m chans c ≢ broken
unfolding close_all
close_all_sound [] chans a b n = n
close_all_sound ((k, d) ∷ m) chans a b n =
    close_all_sound m (update chans d (close_on (chans d)))
      (All-map (On (λ c. (chans c ≡ idle) × (c ≢ d)))
        (On (λ c. update chans d (close_on (chans d)) c ≡ idle)) (λ e p. ground (arith, p)) m
        (All-both (λ c. chans c ≡ idle) (λ c. c ≢ d) m a.1 b.0))
      b.1 (λ c. ground (arith, a.0, n c))

close_all-shut :
    (m : List (String × ℕ)) (chans : ℕ → Channel) (c : ℕ)
    → chans c ≡ shut
    → All (On (λ d. d ≢ c)) m
    → close_all m chans c ≡ shut
unfolding close_all
close_all-shut [] chans c e n = e
close_all-shut ((k, d) ∷ m) chans c e n =
    close_all-shut m (update chans d (close_on (chans d))) c (ground (arith, e, n.0)) n.1

pub close_all-wakes :
    (m : List (String × ℕ)) (chans : ℕ → Channel)
    → All (On (λ c. chans c ≡ idle)) m
    → Apart m
    → All (On (λ c. close_all m chans c ≡ shut)) m
unfolding close_all
close_all-wakes [] chans a b = tt
close_all-wakes ((k, d) ∷ m) chans a b =
    let after = update chans d (close_on (chans d)) in
    (
      close_all-shut m after d (ground (arith, a.0)) b.0,
      close_all-wakes m after
          (All-map (On (λ c. (chans c ≡ idle) × (c ≢ d))) (On (λ c. after c ≡ idle))
            (λ e p. ground (arith, p)) m (All-both (λ c. chans c ≡ idle) (λ c. c ≢ d) m a.1 b.0))
          b.1,
    )

pub close_all-elsewhere :
    (m : List (String × ℕ)) (chans : ℕ → Channel) (c : ℕ)
    → All (On (λ d. d ≢ c)) m
    → close_all m chans c ≡ chans c
unfolding close_all
close_all-elsewhere [] chans c n = refl
close_all-elsewhere ((k, d) ∷ m) chans c n =
    close_all-elsewhere m (update chans d (close_on (chans d))) c n.1 ∙ ground (arith, n.0)

pub idle_only : (s : Requests) → Inv s → All (On (λ c. s.channels c ≡ idle)) s.pending
idle_only s v =
    All-map (On (Waits s)) (On (λ c. s.channels c ≡ idle)) (λ e p. p.0) s.pending v.waiting

-- A rejection does not touch a channel that an answer is on its way to.
pub taken_elsewhere :
    (s : Requests)
    → Inv s
    → (c : ℕ) (data_ : String) → s.sending c ≡ some data_
    → close_all s.pending s.channels c ≡ idle
taken_elsewhere s v c data_ e =
    close_all-elsewhere s.pending s.channels c (
      All-map (On (Waits s)) (On (λ d. d ≢ c)) (λ f p. λ q. cc (p.1, ap s.sending q, e)) s.pending
        v.waiting)
    ∙ (v.taken c data_ e).0

pub reject-Inv : (s : Requests) → Inv s → Inv (reject_pending s)
unfolding reject_pending
reject-Inv s v = record {
  waiting = tt;
  apart = tt;
  taken = λ c data_ e. (taken_elsewhere s v c data_ e, (v.taken c data_ e).1);
  sound = close_all_sound s.pending s.channels (idle_only s v) v.apart v.sound;
}

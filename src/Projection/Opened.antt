-- ===== src/Projection/Opened.antt =====
-- accounting_pending.go: the markets that executions open, sorted and each once.
use mathlib.Core.Bool.{false≢true}
use Prim.Native.Char.{code}
use arca_go_sdk.Prelude.{
  ℕ, ◌≡◌, refl, sym, ap, ◌∙◌, String, List, [], ◌∷◌, true, false, ◌||◌, ◌&&◌, not, ◌==◌, All,
  All-map, contains, str_eq, eq_iff, inl, inr, Bool-cases, arith,
}
use text.Mathlib.TextEquality.{Char-path}
use arca_go_sdk.Projection.Types.{PendingExecution}
use arca_go_sdk.Projection.Compose.{text_less, insert, opened_markets}

unfoldable pub pending_markets : List PendingExecution → List String
pending_markets [] = []
pending_markets (e ∷ es) = e.market ∷ pending_markets es

contains-insert :
    (m t : String) (us : List String) → contains m (insert t us) ≡ (str_eq t m || contains m us)
unfolding contains insert
contains-insert m t [] = refl
contains-insert m t (u ∷ us) =
    ground (arith, eq_iff t u, eq_iff t m, eq_iff u m, contains-insert m t us)

pub contains-same :
    (m : String) (seen : List String) (k : String)
    → str_eq k m ≡ true
    → contains m seen ≡ contains k seen
contains-same m seen k h = ap (λ (t : String). contains t seen) (sym ((eq_iff k m).0 h))

-- A market is opened exactly if an execution names it and the ledger has no position there.
pub contains-opened_markets :
    (m : String) (seen : List String) (es : List PendingExecution)
    → contains m (opened_markets seen es) ≡ not (contains m seen) && contains m (pending_markets es)
unfolding contains opened_markets pending_markets
contains-opened_markets m seen [] = ground arith
contains-opened_markets m seen (e ∷ es) = elim (Bool-cases (contains e.market seen)) [
  | inl y ↦ rw y (elim (Bool-cases (str_eq e.market m)) [
    | inl z ↦ rw (contains-opened_markets m seen es) (rw (contains-same m seen e.market z ∙ y) refl)
    | inr z ↦ rw z (contains-opened_markets m seen es)
  ])
  | inr y ↦ rw y (
      rw (contains-insert m e.market (opened_markets seen es)) (
        rw (contains-opened_markets m seen es) (elim (Bool-cases (str_eq e.market m)) [
          | inl z ↦ rw z (rw (contains-same m seen e.market z ∙ y) refl)
          | inr z ↦ rw z refl
        ])))
]

text_less_trans :
    (s t u : String) → text_less s t ≡ true → text_less t u ≡ true → text_less s u ≡ true
unfolding text_less
text_less_trans String.[] String.[] u h k = absurd (false≢true h)
text_less_trans String.[] (String.◌∷◌ d t) (String.◌∷◌ e u) h k = refl
text_less_trans String.[] (String.◌∷◌ d t) String.[] h k = absurd (false≢true k)
text_less_trans (String.◌∷◌ c s) String.[] u h k = absurd (false≢true h)
text_less_trans (String.◌∷◌ c s) (String.◌∷◌ d t) String.[] h k = absurd (false≢true k)
text_less_trans (String.◌∷◌ c s) (String.◌∷◌ d t) (String.◌∷◌ e u) h k =
    ground (arith, text_less_trans s t u)

same_code : (a b : ℕ) → (a == b) ≡ true → a ≡ b
same_code a b h = ground arith

text_less_total : (s t : String) → str_eq s t ≡ false → text_less s t ≡ false → text_less t s ≡ true
unfolding text_less
text_less_total String.[] String.[] h k = absurd (false≢true (sym h))
text_less_total String.[] (String.◌∷◌ d t) h k = absurd (false≢true (sym k))
text_less_total (String.◌∷◌ c s) String.[] h k = refl
text_less_total (String.◌∷◌ c s) (String.◌∷◌ d t) h k = elim (Bool-cases (code c == code d)) [
  | inl y ↦ elim (Bool-cases (str_eq s t)) [
    | inl z ↦ absurd (
        false≢true (
          sym h
          ∙ (eq_iff (String.◌∷◌ c s) (String.◌∷◌ d t)).1 (λ i.
              String.◌∷◌ (Char-path c d (same_code (code c) (code d) y) i) ((eq_iff s t).0 z i))))
    | inr z ↦ ground (arith, text_less_total s t)
  ]
  | inr y ↦ ground (arith, y, k)
]

-- A list of texts of which each is less than all that follow.
abbrev pub IsAscending : List String → Type 0
IsAscending [] = Unit
IsAscending (t ∷ us) = All (λ (u : String). text_less t u ≡ true) us × IsAscending us

abbrev IsBelow : String → String → Type 0
IsBelow t u = text_less t u ≡ true

IsBelow-All :
    (t u : String) (us : List String) → IsBelow t u → All (IsBelow u) us → All (IsBelow t) us
IsBelow-All t u us h k = All-map (IsBelow u) (IsBelow t) (λ v p. text_less_trans t u v h p) us k

insert-IsBelow :
    (t u : String) (us : List String)
    → IsBelow u t
    → All (IsBelow u) us
    → All (IsBelow u) (insert t us)
unfolding insert
insert-IsBelow t u [] h k = (h, tt)
insert-IsBelow t u (v ∷ vs) h k = elim (Bool-cases (str_eq t v)) [
  | inl y ↦ rw y k
  | inr y ↦ rw y (elim (Bool-cases (text_less t v)) [
    | inl z ↦ rw z (h, k)
    | inr z ↦ rw z (k.0, insert-IsBelow t u vs h k.1)
  ])
]

insert-IsAscending : (t : String) (us : List String) → IsAscending us → IsAscending (insert t us)
unfolding insert
insert-IsAscending t [] h = (tt, tt)
insert-IsAscending t (u ∷ us) h = elim (Bool-cases (str_eq t u)) [
  | inl y ↦ rw y h
  | inr y ↦ rw y (elim (Bool-cases (text_less t u)) [
    | inl z ↦ rw z ((z, IsBelow-All t u us z h.0), h)
    | inr z ↦
        rw z (insert-IsBelow t u us (text_less_total t u y z) h.0, insert-IsAscending t us h.1)
  ])
]

pub opened_markets-IsAscending :
    (seen : List String) (es : List PendingExecution) → IsAscending (opened_markets seen es)
unfolding opened_markets
opened_markets-IsAscending seen [] = tt
opened_markets-IsAscending seen (e ∷ es) = elim (Bool-cases (contains e.market seen)) [
  | inl y ↦ rw y (opened_markets-IsAscending seen es)
  | inr y ↦
      rw y
        (insert-IsAscending e.market (opened_markets seen es) (opened_markets-IsAscending seen es))
]

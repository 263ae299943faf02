-- ===== src/CashStream/Frames.antt =====
-- cash_v9_stream.go: what the reader makes of a frame as the server writes it.
use Prim.Native.String.{◌++◌ as str_append, ◌∷◌ as str_cons}
use Prim.Native.Char.{Char, code}
use text.Mathlib.Text.{starts_with}
use text.Mathlib.TextEquality.{starts_with_iff}
use text.Mathlib.TextLemmas.{cons-append, head-eq_of_cons-eq, append_assoc, cons≢nil}
use text.Mathlib.TextPositions.{starts_with-append, slice-append_right, len-append}
use arca_go_sdk.Prelude.{
  ◌≡◌, ◌≢◌, refl, sym, ap, ◌∙◌, subst, String, List, [], ◌∷◌, ◌++◌, Option, none, some, true, false,
  arith, str_eq, eq_iff, Bool-cases, inl, inr, trim_space,
}
use mathlib.Core.List.{append-nil, append_assoc as list_append_assoc, map}
use arca_go_sdk.Client.Errors.{Error}
use arca_go_sdk.CashStream.{
  Snapshot, Scan, trim_prefix, read_line, read_lines, dispatch, join_lines,
}

-- A text does not start with one that begins with another character.
first_differs :
    (c d : Char) (s t : String)
    → code c ≢ code d
    → starts_with (str_cons d s) (str_cons c t) ≡ false
first_differs c d s t n = elim (Bool-cases (starts_with (str_cons d s) (str_cons c t))) [
  | inr e ↦ e
  | inl e ↦
      let (u, f) = (starts_with_iff (str_cons d s) (str_cons c t)).0 e in
      absurd (n (ap code (head-eq_of_cons-eq (sym (cons-append c t u) ∙ f))))
]

line_differs :
    (c d : Char) (t r l : String)
    → code c ≢ code d
    → starts_with (str_append (str_cons d r) l) (str_cons c t) ≡ false
line_differs c d t r l n =
    subst (λ x. starts_with x (str_cons c t) ≡ false) (sym (cons-append d r l))
      (first_differs c d (str_append r l) t n)

not_empty : (d : Char) (r l : String) → str_eq (str_append (str_cons d r) l) "" ≡ false
not_empty d r l = elim (Bool-cases (str_eq (str_append (str_cons d r) l) "")) [
  | inr e ↦ e
  | inl e ↦
      absurd (cons≢nil (sym (cons-append d r l) ∙ (eq_iff (str_append (str_cons d r) l) "").0 e))
]

split_data : (l : String) → str_append "data: " l ≡ str_append "data:" (str_append " " l)
split_data l = append_assoc "data:" " " l

trim_prefix-append : (p s : String) → trim_prefix (str_append p s) p ≡ s
unfolding trim_prefix
trim_prefix-append p s = rw (starts_with-append p s) (rw (len-append p s) (slice-append_right p s))

module _ {A : Type 0} (realm : String) (decode : String → Option (Snapshot A))
    (accept : List (Snapshot A) → Snapshot A → Option Error) where
  data_line :
      (s : Scan A) (l : String)
      → read_line realm decode accept s (str_append "data: " l)
        ≡ (record s { lines = s.lines ++ l ∷ [] }, none)
  unfolding read_line
  data_line s l =
      let begins : starts_with (str_append "data: " l) "data:" ≡ true =
        subst (λ x. starts_with x "data:" ≡ true) (sym (split_data l))
          (starts_with-append "data:" (str_append " " l)) in
      let rest : trim_prefix (trim_prefix (str_append "data: " l) "data:") " " ≡ l =
        ap (λ x. trim_prefix (trim_prefix x "data:") " ") (split_data l)
        ∙ ap (λ x. trim_prefix x " ") (trim_prefix-append "data:" (str_append " " l))
        ∙ trim_prefix-append " " l in
      ground (
        arith,
        not_empty "d" "ata: " l,
        line_differs ":" "d" "" "ata: " l (ground arith),
        line_differs "i" "d" "d:" "ata: " l (ground arith),
        line_differs "e" "d" "vent:" "ata: " l (ground arith),
        begins,
        rest,
      )

  id_line :
      (s : Scan A) (l : String) → read_line realm decode accept s (str_append "id: " l) ≡ (s, none)
  unfolding read_line
  id_line s l = ground (
    arith,
    not_empty "i" "d: " l,
    line_differs ":" "i" "" "d: " l (ground arith),
    subst (λ x. starts_with x "id:" ≡ true) (sym (append_assoc "id:" " " l))
        (starts_with-append "id:" (str_append " " l)),
  )

  event_line :
      (s : Scan A)
      → read_line realm decode accept s "event: snapshot" ≡ (record s { event = "snapshot" }, none)
  unfolding read_line trim_prefix trim_space
  event_line s = refl

  read_next :
      (s t : Scan A) (l : String) (ls : List String) (cause : Option String)
      → read_line realm decode accept s l ≡ (t, none)
      → read_lines realm decode accept s (l ∷ ls) cause ≡ read_lines realm decode accept t ls cause
  unfolding read_lines
  read_next s t l ls cause e = rw e refl

  read_data :
      (s : Scan A) (ls rest : List String) (cause : Option String)
      → read_lines realm decode accept s (map (str_append "data: ") ls ++ rest) cause
        ≡ read_lines realm decode accept (record s { lines = s.lines ++ ls }) rest cause
  read_data s [] rest cause =
      ap (λ x. read_lines realm decode accept (record s { lines = x }) rest cause)
        (sym (append-nil s.lines))
  read_data s (l ∷ ls) rest cause =
      read_next s (record s { lines = s.lines ++ l ∷ [] }) (str_append "data: " l)
        (map (str_append "data: ") ls ++ rest) cause (data_line s l)
      ∙ read_data (record s { lines = s.lines ++ l ∷ [] }) ls rest cause
      ∙ ap (λ x. read_lines realm decode accept (record s { lines = x }) rest cause)
          (list_append_assoc s.lines (l ∷ []) ls)

  delivers :
      (s : Scan A) (l : String) (ls : List String) (w : Snapshot A)
      → s.event ≡ "snapshot"
      → s.lines ≡ l ∷ ls
      → decode (join_lines (l ∷ ls)) ≡ some w
      → w.schema ≡ 1
      → w.realm_id ≡ realm
      → accept s.accepted w ≡ none
      → read_line realm decode accept s "" ≡ (
        record s {
          event = "";
          lines = [];
          last = w.revision;
          delivered = true;
          accepted = w ∷ s.accepted;
        },
        none,
      )
  unfolding read_line dispatch
  delivers s l ls w e f d c r a =
      let same : str_eq w.realm_id realm ≡ true = (eq_iff w.realm_id realm).1 r in
      rw (e, f, d) (ground (arith, c, same, a))

  -- A snapshot that the server writes as a frame of an id, the event's name and its text on one or
  -- more lines, of schema 1 and of the realm, reaches `accept`; if that takes it, the reader goes on
  -- with the lines after the frame, at the snapshot's revision.
  pub read_lines-frame :
      (s : Scan A) (id l : String) (ls rest : List String) (cause : Option String) (w : Snapshot A)
      → s.lines ≡ []
      → decode (join_lines (l ∷ ls)) ≡ some w
      → w.schema ≡ 1
      → w.realm_id ≡ realm
      → accept s.accepted w ≡ none
      → read_lines realm decode accept s
          (str_append "id: " id
            ∷ "event: snapshot"
            ∷ (map (str_append "data: ") (l ∷ ls) ++ "" ∷ rest))
          cause
        ≡ read_lines realm decode accept
            (record s {
              event = "";
              lines = [];
              last = w.revision;
              delivered = true;
              accepted = w ∷ s.accepted;
            })
            rest
            cause
  read_lines-frame s id l ls rest cause w n d c r a =
      read_next s s (str_append "id: " id) _ cause (id_line s id)
      ∙ read_next s (record s { event = "snapshot" }) "event: snapshot" _ cause (event_line s)
      ∙ read_data (record s { event = "snapshot" }) (l ∷ ls) ("" ∷ rest) cause
      ∙ read_next (record s { event = "snapshot"; lines = s.lines ++ l ∷ ls }) _ "" rest cause
          (delivers (record s { event = "snapshot"; lines = s.lines ++ l ∷ ls }) l ls w refl
            (ap (λ x. x ++ l ∷ ls) n) d c r a)

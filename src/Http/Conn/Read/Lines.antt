-- ===== src/Http/Conn/Read/Lines.antt =====
-- `parse_line` on bytes that arrive in parts.
-- A text without line ends.
use mathlib.Core.List.{append_assoc, append-nil}
use my_bookstore.Base.{
  ℕ, ◌∙◌, refl, sym, ap, inr, [], inl, last_is, Bool-cases, false, ◌∷◌, All, nat_eq, ◌++◌, ◌≡◌,
  Text,
}
use my_bookstore.Http.Conn.{at_return, open_, ok, at_newline, scan_line, LineStatus}

abbrev pub IsPlainByte : ℕ → Type 0
IsPlainByte c = (nat_eq c 13 ≡ false) × (nat_eq c 10 ≡ false)

abbrev pub IsPlain : Text → Type 0
IsPlain = All IsPlainByte

abbrev pub Scan : Type 0
Scan = LineStatus × Text × Text

-- What a longer text gives where the scan of a part of it stopped: a complete line is the same, and
-- otherwise the scan goes on from there.
abbrev pub Stays : Text → LineStatus → Scan → Scan → Type 0
Stays t ok (_, b, r) longer = longer ≡ (ok, b, r ++ t)
Stays t _ (_, b, r) longer = scan_line b (r ++ t) ≡ longer

at_return-Stays : (b s t : Text) → Stays t (at_return b s).0 (at_return b s) (at_return b (s ++ t))
unfolding scan_line
at_return-Stays b [] t = refl
at_return-Stays b (d ∷ s) t = elim (Bool-cases (nat_eq d 10)) [
  | inl e ↦ rw e refl
  | inr e ↦ rw e (rw e refl)
]

at_newline-Stays :
    (b s t : Text) → Stays t (at_newline b s).0 (at_newline b s) (at_newline b (s ++ t))
unfolding scan_line
at_newline-Stays b s t = elim (Bool-cases (last_is 13 b)) [
  | inl e ↦ rw e refl
  | inr e ↦ rw e (rw e refl)
]

-- A line that is not complete is scanned on from where the scan stopped, and any other status is final.
pub scan_line-Stays :
    (s b t : Text) → Stays t (scan_line b s).0 (scan_line b s) (scan_line b (s ++ t))
unfolding scan_line
scan_line-Stays [] b t = refl
scan_line-Stays (c ∷ s) b t = elim (Bool-cases (nat_eq c 13)) [
  | inl e ↦ rw e (at_return-Stays b s t)
  | inr e ↦ elim (Bool-cases (nat_eq c 10)) [
    | inl d ↦ rw (e, d) (at_newline-Stays b s t)
    | inr d ↦ rw (e, d) (scan_line-Stays s (b ++ c ∷ []) t)
  ]
]

-- A complete line.
pub scan_line-line :
    (l b r : Text) → IsPlain l → scan_line b (l ++ 13 ∷ 10 ∷ r) ≡ (ok, (b ++ l) ++ 0 ∷ 0 ∷ [], r)
unfolding scan_line
scan_line-line [] b r h = ap (λ x. (ok, x ++ 0 ∷ 0 ∷ [], r)) (sym (append-nil b))
scan_line-line (c ∷ l) b r h =
    rw (h.0.0, h.0.1)
      (scan_line-line l (b ++ c ∷ []) r h.1
        ∙ ap (λ x. (ok, x ++ 0 ∷ 0 ∷ [], r)) (append_assoc b (c ∷ []) l))

-- Plain bytes leave the line incomplete.
pub scan_line_plain : (l b : Text) → IsPlain l → scan_line b l ≡ (open_, b ++ l, [])
unfolding scan_line
scan_line_plain [] b h = ap (λ x. (open_, x, [])) (sym (append-nil b))
scan_line_plain (c ∷ l) b h =
    rw (h.0.0, h.0.1)
      (scan_line_plain l (b ++ c ∷ []) h.1 ∙ ap (λ x. (open_, x, [])) (append_assoc b (c ∷ []) l))

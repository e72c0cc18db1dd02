-- ===== src/Http/Router/Split.antt =====
-- `split_path` cuts a path at its slashes: no part is empty or has a slash, and joining the parts of
-- a path and cutting again gives them back.
use mathlib.Core.List.{append-nil}
use my_bookstore.Base.{
  ◌∙◌, ap, split_at-append, split_at-none, none, length-append, some, Option, ◌≤◌, length, inr, [],
  arith, inl, refl, zero, Bool-cases, false, suc, ◌++◌, All, Lacks, is_empty, nat_eq, ◌∷◌, ◌≡◌,
  List, Text, split_at, ℕ,
}
use my_bookstore.Http.Router.{
  parts_after, cut_part, ℕ, split_at, Text, List, skip_slashes, split_loop, split_path,
}

-- A part of a path: not empty, without a slash.
abbrev pub IsPart : Text → Type 0
IsPart part = (is_empty part ≡ false) × Lacks b'/' part

-- A slash in front of each part.
abbrev pub join_path : List Text → Text
join_path [] = []
join_path (part ∷ parts) = b'/' ∷ (part ++ join_path parts)

split_at-Lacks : (c : ℕ) (s : Text) → Lacks c (split_at c s).0
unfolding split_at
split_at-Lacks c [] = tt
split_at-Lacks c (x ∷ s) = elim (Bool-cases (nat_eq x c)) [
  | inl e ↦ rw e tt
  | inr e ↦ rw e (e, split_at-Lacks c s)
]

-- What follows the skipped slashes does not begin with one.
skip_slashes_head : (s : Text) (c : ℕ) (r : Text) → skip_slashes s ≡ c ∷ r → nat_eq c b'/' ≡ false
unfolding skip_slashes
skip_slashes_head [] c r e = cc
skip_slashes_head (x ∷ s) c r e = ground (arith, skip_slashes_head s c r)

split_at-nonempty :
    (c : ℕ) (s : Text) → nat_eq c b'/' ≡ false → is_empty (split_at b'/' (c ∷ s)).0 ≡ false
unfolding split_at
split_at-nonempty c s e = rw e refl

parts_after-parts :
    (again : Text → List Text) (rest : Option Text)
    → ((s : Text) → All IsPart (again s))
    → All IsPart (parts_after again rest)
unfolding parts_after
parts_after-parts again none h = tt
parts_after-parts again (some s) h = h s

cut_part-parts :
    (again : Text → List Text) (t : Text)
    → ((s : Text) → All IsPart (again s))
    → ((c : ℕ) (r : Text) → t ≡ c ∷ r → nat_eq c b'/' ≡ false)
    → All IsPart (cut_part again t)
unfolding cut_part
cut_part-parts again [] h head = tt
cut_part-parts again (c ∷ s) h head = (
  (split_at-nonempty c s (head c s refl), split_at-Lacks b'/' (c ∷ s)),
  parts_after-parts again (split_at b'/' (c ∷ s)).1 h,
)

split_loop-parts : (fuel : ℕ) (s : Text) → All IsPart (split_loop fuel s)
unfolding split_loop
split_loop-parts zero s = tt
split_loop-parts (suc fuel) s =
    cut_part-parts (split_loop fuel) (skip_slashes s) (split_loop-parts fuel) (skip_slashes_head s)

-- Whatever the path, each part has a character and no slash.
pub split_path-parts : (path : Text) → All IsPart (split_path path)
unfolding split_path
split_path-parts path = split_loop-parts (length path) path

skip_slashes_part : (part s : Text) → IsPart part → skip_slashes (part ++ s) ≡ part ++ s
unfolding skip_slashes
skip_slashes_part [] s h = cc (h.0)
skip_slashes_part (c ∷ part) s h = rw (h.1.0) refl

cut_part_last :
    (again : Text → List Text) (part : Text) → IsPart part → cut_part again part ≡ part ∷ []
unfolding cut_part
cut_part_last again [] h = cc (h.0)
cut_part_last again (c ∷ part) h = rw (split_at-none b'/' (c ∷ part) h.1) refl

cut_part-append :
    (again : Text → List Text) (part s : Text)
    → IsPart part
    → cut_part again (part ++ b'/' ∷ s) ≡ part ∷ again s
unfolding cut_part
cut_part-append again [] s h = cc (h.0)
cut_part-append again (c ∷ part) s h = rw (split_at-append b'/' (c ∷ part) s h.1) refl

-- One round takes the first part off.
split_loop-append :
    (part : Text) (parts : List Text) (fuel : ℕ)
    → length parts ≤ fuel
    → IsPart part
    → All IsPart parts
    → split_loop (suc fuel) (part ++ join_path parts) ≡ part ∷ parts
unfolding split_loop
split_loop-append part [] fuel k h hs =
    ap (cut_part (split_loop fuel)) (skip_slashes_part part [] h ∙ append-nil part)
    ∙ cut_part_last (split_loop fuel) part h
split_loop-append part (q ∷ qs) zero k h hs = absurd (omega arith)
split_loop-append part (q ∷ qs) (suc fuel) k h hs =
    ap (cut_part (split_loop (suc fuel))) (skip_slashes_part part (join_path (q ∷ qs)) h)
    ∙ cut_part-append (split_loop (suc fuel)) part (q ++ join_path qs) h
    ∙ ap (λ l. part ∷ l) (split_loop-append q qs fuel (omega arith) hs.0 hs.1)

split_loop-join :
    (parts : List Text) (fuel : ℕ)
    → length parts ≤ fuel
    → All IsPart parts
    → split_loop fuel (join_path parts) ≡ parts
unfolding split_loop skip_slashes cut_part
split_loop-join [] zero k h = refl
split_loop-join [] (suc fuel) k h = refl
split_loop-join (part ∷ parts) zero k h = absurd (omega arith)
split_loop-join (part ∷ parts) (suc fuel) k h =
    split_loop-append part parts fuel (omega arith) h.0 h.1

length-join_path : (parts : List Text) → length parts ≤ length (join_path parts)
length-join_path [] = omega arith
length-join_path (part ∷ parts) =
    omega (arith, length-append part (join_path parts), length-join_path parts)

-- Cutting a path that was joined from parts that are not empty and have no slash gives the parts
-- back.
pub split_path-join_path :
    (parts : List Text) → All IsPart parts → split_path (join_path parts) ≡ parts
unfolding split_path
split_path-join_path parts h =
    split_loop-join parts (length (join_path parts)) (length-join_path parts) h

-- ===== src/Http/Router/Match.antt =====
-- `match_path` and the patterns of routes: which paths a pattern matches, and what its parameters
-- hold.
-- A pattern and the parts of a path it matches, position by position.
use my_bookstore.Base.{
  suc, if◌then◌else◌, ==_ne, list_eq_iff, subst, inr, lookup-insert, nat_eq_iff, refl, inl, text_eq,
  ◌∙◌, ==_refl, ap, arith, insert, nat_eq, none, sym, ◌≢◌, Bool-cases, lookup, ◌==◌, ◌↔◌, ◌∷◌,
  false, some, true, length, ◌≡◌, All, Dict, [], is_some, List, Text,
}
use my_bookstore.Http.Router.{param_name, is_param, match_path, match_loop}

pub data Matches : List Text → List Text → Type 0 where
  ends : Matches [] []
  plain :
      (p q : Text) {pattern parts : List Text}
      → is_param p ≡ false
      → p ≡ q
      → Matches pattern parts
      → Matches (p ∷ pattern) (q ∷ parts)
  param :
      (p q : Text) {pattern parts : List Text}
      → is_param p ≡ true
      → Matches pattern parts
      → Matches (p ∷ pattern) (q ∷ parts)

-- The parameter's name stands nowhere in the pattern.
abbrev pub Free : Text → List Text → Type 0
Free name = All (λ p. is_param p ≡ true → param_name p ≢ name)

-- The last parameter of that name stands at the position of that part.
pub data Binds (name part : Text) : List Text → List Text → Type 0 where
  here :
      (p q : Text) {pattern parts : List Text}
      → is_param p ≡ true
      → param_name p ≡ name
      → q ≡ part
      → Free name pattern
      → Binds name part (p ∷ pattern) (q ∷ parts)
  later :
      (p q : Text) {pattern parts : List Text}
      → Binds name part pattern parts
      → Binds name part (p ∷ pattern) (q ∷ parts)

module _ (p q : Text) (pattern parts : List Text) (params : Dict Text Text) where
  match_loop-param :
      is_param p ≡ true
      → match_loop (p ∷ pattern) (q ∷ parts) params
        ≡ match_loop pattern parts (insert (param_name p) q params)
  unfolding match_loop
  match_loop-param e = rw e refl

  match_loop-plain :
      is_param p ≡ false
      → p ≡ q
      → match_loop (p ∷ pattern) (q ∷ parts) params ≡ match_loop pattern parts params
  unfolding match_loop
  match_loop-plain e d = rw (e, d, ==_refl q) refl

  match_loop-stop :
      is_param p ≡ false → (p == q) ≡ false → match_loop (p ∷ pattern) (q ∷ parts) params ≡ none
  unfolding match_loop
  match_loop-stop e d = rw (e, d) refl

match_loop-Matches :
    (pattern parts : List Text) (params : Dict Text Text)
    → length pattern ≡ length parts
    → is_some (match_loop pattern parts params) ≡ true
    → Matches pattern parts
match_loop-Matches [] [] params k h = ends
match_loop-Matches [] (q ∷ parts) params k h = absurd (omega arith)
match_loop-Matches (p ∷ pattern) [] params k h = absurd (omega arith)
match_loop-Matches (p ∷ pattern) (q ∷ parts) params k h = elim (Bool-cases (is_param p)) [
  | inl e ↦ param p q e (
      match_loop-Matches pattern parts (insert (param_name p) q params) (omega arith)
        (ap is_some (sym (match_loop-param p q pattern parts params e)) ∙ h))
  | inr e ↦ elim (Bool-cases (p == q)) [
    | inl d ↦ plain p q e ((list_eq_iff p q).0 d) (
        match_loop-Matches pattern parts params (omega arith) (
          ap is_some (sym (match_loop-plain p q pattern parts params e ((list_eq_iff p q).0 d)))
          ∙ h))
    | inr d ↦ cc (ap is_some (match_loop-stop p q pattern parts params e d), h)
  ]
]

Matches-match_loop :
    (pattern parts : List Text) (params : Dict Text Text)
    → Matches pattern parts
    → (length pattern ≡ length parts) × (is_some (match_loop pattern parts params) ≡ true)
unfolding match_loop
Matches-match_loop [] [] params ends = (refl, refl)
Matches-match_loop [] (q ∷ parts) params m = elim m [ ]
Matches-match_loop (p ∷ pattern) [] params m = elim m [ ]
Matches-match_loop (p ∷ pattern) (q ∷ parts) params (plain _ _ e d m) =
    let (k, h) = Matches-match_loop pattern parts params m in
    (ap suc k, ap is_some (match_loop-plain p q pattern parts params e d) ∙ h)
Matches-match_loop (p ∷ pattern) (q ∷ parts) params (param _ _ e m) =
    let (k, h) = Matches-match_loop pattern parts (insert (param_name p) q params) m in
    (ap suc k, ap is_some (match_loop-param p q pattern parts params e) ∙ h)

match_path-length :
    (pattern parts : List Text)
    → is_some (match_path pattern parts) ≡ true
    → (length pattern ≡ length parts) × (match_path pattern parts ≡ match_loop pattern parts [])
unfolding match_path
match_path-length pattern parts h = elim (Bool-cases (nat_eq (length pattern) (length parts))) [
  | inl e ↦ ((nat_eq_iff (length pattern) (length parts)).0 e, rw e refl)
  | inr e ↦ cc (subst (λ b. is_some (if b then match_loop pattern parts [] else none) ≡ true) e h)
]

-- A pattern matches a path exactly if it has the path's length and each of its parts is a parameter
-- or the path's part at that position.
pub match_path_iff :
    (pattern parts : List Text)
    → (is_some (match_path pattern parts) ≡ true) ↔ Matches pattern parts
unfolding match_path
match_path_iff pattern parts = (
  (λ h.
      let (k, e) = match_path-length pattern parts h in
      match_loop-Matches pattern parts [] k (ap is_some (sym e) ∙ h)),
  (λ m.
      let (k, h) = Matches-match_loop pattern parts [] m in
      rw ((nat_eq_iff (length pattern) (length parts)).1 k) h),
)

match_loop-Free :
    (name : Text) (pattern parts : List Text) (params found : Dict Text Text)
    → Free name pattern
    → match_loop pattern parts params ≡ some found
    → lookup name found ≡ lookup name params
unfolding match_loop
match_loop-Free name [] parts params found f h = ap (lookup name) (sym (cc h))
match_loop-Free name (p ∷ pattern) [] params found f h = cc h
match_loop-Free name (p ∷ pattern) (q ∷ parts) params found f h = elim (Bool-cases (is_param p)) [
  | inl e ↦
      match_loop-Free name pattern parts (insert (param_name p) q params) found f.1
        (sym (match_loop-param p q pattern parts params e) ∙ h)
      ∙ lookup-insert (param_name p) name q params
      ∙ rw (==_ne (param_name p) name (f.0 e)) refl
  | inr e ↦ elim (Bool-cases (p == q)) [
    | inl d ↦
        match_loop-Free name pattern parts params found f.1
          (sym (match_loop-plain p q pattern parts params e ((list_eq_iff p q).0 d)) ∙ h)
    | inr d ↦ cc (match_loop-stop p q pattern parts params e d, h)
  ]
]

match_loop-Binds :
    (name part : Text) (pattern parts : List Text) (params found : Dict Text Text)
    → Binds name part pattern parts
    → match_loop pattern parts params ≡ some found
    → lookup name found ≡ some part
match_loop-Binds name part [] parts params found b h = elim b [ ]
match_loop-Binds name part (p ∷ pattern) [] params found b h = elim b [ ]
match_loop-Binds name part (p ∷ pattern) (q ∷ parts) params found (here _ _ e n d f) h =
    match_loop-Free name pattern parts (insert (param_name p) q params) found f
      (sym (match_loop-param p q pattern parts params e) ∙ h)
    ∙ lookup-insert (param_name p) name q params
    ∙ rw (n, d, ==_refl name) refl
match_loop-Binds name part (p ∷ pattern) (q ∷ parts) params found (later _ _ b) h =
    elim (Bool-cases (is_param p)) [
      | inl e ↦
          match_loop-Binds name part pattern parts (insert (param_name p) q params) found b
            (sym (match_loop-param p q pattern parts params e) ∙ h)
      | inr e ↦ elim (Bool-cases (p == q)) [
        | inl d ↦
            match_loop-Binds name part pattern parts params found b
              (sym (match_loop-plain p q pattern parts params e ((list_eq_iff p q).0 d)) ∙ h)
        | inr d ↦ cc (match_loop-stop p q pattern parts params e d, h)
      ]
    ]

-- Where a path matches, a parameter's name finds the part at the last position of a parameter of
-- that name.
pub match_path-Binds :
    (name part : Text) (pattern parts : List Text) (found : Dict Text Text)
    → Binds name part pattern parts
    → match_path pattern parts ≡ some found
    → lookup name found ≡ some part
match_path-Binds name part pattern parts found b h =
    match_loop-Binds name part pattern parts [] found b
      (sym ((match_path-length pattern parts (ap is_some h)).1) ∙ h)

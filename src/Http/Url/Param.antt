-- ===== src/Http/Url/Param.antt =====
-- `get_param` finds a value in a form body, whatever pairs stand before it.
use mathlib.Core.List.{append_assoc}
use my_bookstore.Base.{
  split_at-none, sym, split_at, Option, ◌+◌, ◌∙◌, ap, ◌-◌, ◌≤◌, All, ◌≢◌, drop-append, Lacks,
  split_at-append, starts_with-append, length-append, arith, ltb, refl, [], length, none, some,
  true, suc, ◌++◌, ◌∷◌, ◌≡◌, List, Text, ℕ,
}
use my_bookstore.Http.Url.{get_param, ℕ, Text, value_after, get_param_loop}

-- The token of the key has its value, if that is not empty.
value_after-append : (p : Text) (v : ℕ) (s : Text) → value_after p (p ++ v ∷ s) ≡ some (v ∷ s)
unfolding value_after
value_after-append p v s =
    let longer : ltb (length p) (length (p ++ v ∷ s)) ≡ true =
      ground (arith, length-append p (v ∷ s)) in
    rw (longer, starts_with-append p (v ∷ s), drop-append p (v ∷ s)) refl

value_after_nil : (p value : Text) → value_after p [] ≢ some value
unfolding value_after
value_after_nil p value e = ground arith

-- A key that is there with an empty value is answered like a key that is not there.
value_after_empty : (p : Text) → value_after p p ≡ none
unfolding value_after
value_after_empty p = ground arith

-- The pairs in front of the key's own are passed over.
abbrev pub joined : List Text → Text → Text
joined [] last = last
joined (t ∷ ts) last = t ++ b'&' ∷ joined ts last

-- A token of another key: not empty, without `&`, and without the prefix.
abbrev pub IsOther : Text → Text → Type 0
IsOther prefix t = Lacks b'&' t × (value_after prefix t ≡ none)

module _ (fuel : ℕ) (prefix : Text) (c : ℕ) (body token : Text) (rest : Option Text)
    (cut : split_at b'&' (c ∷ body) ≡ (token, rest)) where
  loop_found :
      (value : Text)
      → value_after prefix token ≡ some value
      → get_param_loop (suc fuel) prefix (c ∷ body) ≡ some value
  unfolding get_param_loop
  loop_found value e = rw (cut, e, get_param_loop) refl

  loop_next :
      (body' : Text)
      → value_after prefix token ≡ none
      → rest ≡ some body'
      → get_param_loop (suc fuel) prefix (c ∷ body) ≡ get_param_loop fuel prefix body'
  unfolding get_param_loop
  loop_next body' e r = rw (cut, e, get_param_loop) (rw (cut, r) refl)

get_param_loop_last :
    (fuel : ℕ) (prefix token : Text)
    → Lacks b'&' token
    → value_after prefix token ≡ none
    → get_param_loop (suc fuel) prefix token ≡ none
unfolding get_param_loop
get_param_loop_last fuel prefix [] h e = refl
get_param_loop_last fuel prefix (c ∷ s) h e =
    let cut = split_at-none b'&' (c ∷ s) h in rw (cut, e, get_param_loop) (rw cut refl)

get_param_loop-next :
    (fuel : ℕ) (prefix t body : Text)
    → IsOther prefix t
    → get_param_loop (suc fuel) prefix (t ++ b'&' ∷ body) ≡ get_param_loop fuel prefix body
get_param_loop-next fuel prefix [] body h =
    loop_next fuel prefix b'&' body [] (some body) (split_at-append b'&' [] body tt) body h.1 refl
get_param_loop-next fuel prefix (c ∷ t) body h =
    loop_next fuel prefix c (t ++ b'&' ∷ body) (c ∷ t) (some body)
      (split_at-append b'&' (c ∷ t) body h.0) body h.1 refl

-- A value that ends the body, or that other pairs follow.
abbrev pub ended : Text → Option Text → Text
ended value none = value
ended value (some rest) = value ++ b'&' ∷ rest

split_at-ended :
    (token : Text) (rest : Option Text)
    → Lacks b'&' token
    → split_at b'&' (ended token rest) ≡ (token, rest)
split_at-ended token none h = split_at-none b'&' token h
split_at-ended token (some rest) h = split_at-append b'&' token rest h

ended_cons : (c : ℕ) (s : Text) (rest : Option Text) → ended (c ∷ s) rest ≡ c ∷ ended s rest
ended_cons c s none = refl
ended_cons c s (some rest) = refl

get_param_loop-found :
    (fuel : ℕ) (prefix token : Text) (rest : Option Text) (value : Text)
    → Lacks b'&' token
    → value_after prefix token ≡ some value
    → get_param_loop (suc fuel) prefix (ended token rest) ≡ some value
get_param_loop-found fuel prefix [] rest value h e = absurd (value_after_nil prefix value e)
get_param_loop-found fuel prefix (c ∷ s) rest value h e =
    ap (get_param_loop (suc fuel) prefix) (ended_cons c s rest)
    ∙ loop_found fuel prefix c (ended s rest) (c ∷ s) rest
        (ap (split_at b'&') (sym (ended_cons c s rest)) ∙ split_at-ended (c ∷ s) rest h) value e

get_param_loop-joined :
    (before : List Text) (fuel : ℕ) (prefix last : Text)
    → All (IsOther prefix) before
    → get_param_loop (length before + fuel) prefix (joined before last)
      ≡ get_param_loop fuel prefix last
get_param_loop-joined [] fuel prefix last h = ap (λ f. get_param_loop f prefix last) (omega arith)
get_param_loop-joined (t ∷ ts) fuel prefix last h =
    ap (λ f. get_param_loop f prefix (t ++ b'&' ∷ joined ts last)) (omega arith)
    ∙ get_param_loop-next (length ts + fuel) prefix t (joined ts last) h.0
    ∙ get_param_loop-joined ts fuel prefix last h.1

length-joined :
    (before : List Text) (last : Text) → length before + length last ≤ length (joined before last)
length-joined [] last = omega arith
length-joined (t ∷ ts) last =
    omega (arith, length-append t (b'&' ∷ joined ts last), length-joined ts last)

length-ended : (token : Text) (rest : Option Text) → length token ≤ length (ended token rest)
length-ended token none = omega arith
length-ended token (some rest) = omega (arith, length-append token (b'&' ∷ rest))

-- `get_param` returns the value of the first pair of the key when that value is not empty,
-- whatever well-formed pairs of other keys stand before it and whatever follows.
pub get_param_first :
    (key : Text) (v : ℕ) (value : Text) (before : List Text) (rest : Option Text)
    → Lacks b'&' (key ++ b'=' ∷ v ∷ value)
    → All (IsOther (key ++ b'=' ∷ [])) before
    → get_param (joined before (ended (key ++ b'=' ∷ v ∷ value) rest)) key ≡ some (v ∷ value)
unfolding get_param
get_param_first key v value before rest h others =
    let prefix = key ++ b'=' ∷ [] in
    let token = key ++ b'=' ∷ v ∷ value in
    let last = ended token rest in
    let fuel = length (joined before last) - length before - 1 in
    let enough : length (joined before last) ≡ length before + suc fuel = omega (
      arith,
      length-joined before last,
      length-ended token rest,
      length-append key (b'=' ∷ v ∷ value),
    ) in
    let found : value_after prefix token ≡ some (v ∷ value) =
      ap (value_after prefix) (sym (append_assoc key (b'=' ∷ []) (v ∷ value)))
      ∙ value_after-append prefix v value in
    ap (λ f. get_param_loop f prefix (joined before last)) enough
    ∙ get_param_loop-joined before (suc fuel) prefix last others
    ∙ get_param_loop-found fuel prefix token rest (v ∷ value) h found

-- A key whose pair has an empty value at the end of the body, behind pairs of other keys, is
-- reported as missing.
pub get_param_empty :
    (key : Text) (before : List Text)
    → Lacks b'&' (key ++ b'=' ∷ [])
    → All (IsOther (key ++ b'=' ∷ [])) before
    → get_param (joined before (key ++ b'=' ∷ [])) key ≡ none
unfolding get_param
get_param_empty key before h others =
    let last = key ++ b'=' ∷ [] in
    let fuel = length (joined before last) - length before - 1 in
    let enough : length (joined before last) ≡ length before + suc fuel =
      omega (arith, length-joined before last, length-append key (b'=' ∷ [])) in
    ap (λ f. get_param_loop f last (joined before last)) enough
    ∙ get_param_loop-joined before (suc fuel) last last others
    ∙ get_param_loop_last fuel last last h (value_after_empty last)

-- ===== src/Http/Conn/Read/Resume.antt =====
-- `process_read` goes on where it stopped.
use my_bookstore.Http.Conn.Read.Longer.{
  longer_round, is_no_request, Answers, round-append_bytes, dispatch-Answers,
}
use my_bookstore.Http.Conn.Read.Fuel.{scan_line-Shorter, process_read_ends}
use my_bookstore.Http.Conn.Read.Lines.{scan_line-Stays, Stays, Scan}
use my_bookstore.Http.Conn.Read.Keeps.{dispatch_state-Keeps, Keeps}
use my_bookstore.Http.Conn.Read.{
  result, out_of_fuel, ended_with, Ran, start_line, parse_content, loop_step, is_ok, round,
  process_read, after_round, next_line, read_loop, throws, goes_on, returns, Round, is_content,
}
use my_bookstore.Http.Conn.{
  scan_line, get_line, at_return, at_newline, bad, ok, open_, LineStatus, parse_line, header,
  request_line, no_request, content, append_bytes, Conn, CheckState,
}
use my_bookstore.Base.{
  [], length-append, nat_eq, ◌∷◌, arith, last_is, sym, ◌<◌, ◌++◌, ◌+◌, ◌≤◌, ◌*◌, length, ltb_ℤ,
  ◌||◌, leb_ℤ, subst, ◌&&◌, zero, suc, ℕ, ◌∙◌, ap, inr, pos, inl, refl, true, Bool-cases, false,
  if◌then◌else◌, none, some, ◌≡◌, Bool, Text,
}
use my_bookstore.Http.Conn.Request.{parse_content}

-- A connection that waits for its body goes on waiting for it.
abbrev waits_for_body : Ran → Bool
waits_for_body out_of_fuel = true
waits_for_body (ended_with none) = true
waits_for_body (ended_with (some (code, d))) =
    if is_no_request code then is_content d.check_state else true

abbrev Loop : Type 0
Loop = LineStatus → Conn → Ran

content-round :
    (f : Loop) (c : Conn)
    → c.check_state ≡ content
    → ((d : Conn) → d.check_state ≡ content → waits_for_body (f open_ d) ≡ true)
    → waits_for_body (after_round f (round c)) ≡ true
unfolding round parse_content
content-round f c e h =
    elim (Bool-cases
      (leb_ℤ c.content_length (pos 0) || ltb_ℤ (pos (length c.rest)) c.content_length)) [
        | inl b ↦ rw (e, b) (h (record (start_line c) { check_state = content }) refl)
        | inr b ↦ rw (e, b) refl
      ]

content-step :
    (f : Loop) (status : LineStatus) (c : Conn)
    → c.check_state ≡ content
    → ((d : Conn) → d.check_state ≡ content → waits_for_body (f open_ d) ≡ true)
    → waits_for_body (loop_step f (status, c)) ≡ true
content-step f ok c e h = content-round f c e h
content-step f bad c e h = ap is_content e
content-step f open_ c e h = ap is_content e

read_loop-content :
    (n : ℕ) (status : LineStatus) (c : Conn)
    → c.check_state ≡ content
    → waits_for_body (read_loop n status c) ≡ true
unfolding read_loop next_line parse_line
read_loop-content zero status c e = refl
read_loop-content (suc n) status c e =
    elim (Bool-cases (is_content c.check_state && is_ok status)) [
      | inl b ↦ rw b (content-step (read_loop n) ok c e (λ d k. read_loop-content n open_ d k))
      | inr b ↦ rw b (
          content-step (read_loop n) (parse_line c).0 (parse_line c).1 e
            (λ d k. read_loop-content n open_ d k))
    ]

-- What the result of the longer buffer is, where the shorter one asks for more in front of the body.
abbrev Resumes : Text → Ran → Ran → Type 0
Resumes t out_of_fuel longer = Unit
Resumes t (ended_with none) longer = Unit
Resumes t (ended_with (some (code, d))) longer =
    is_no_request code ≡ true
    → is_content d.check_state ≡ false
    → ended_with (process_read (append_bytes t d)) ≡ longer

waiting-Resumes : (t : Text) (o longer : Ran) → waits_for_body o ≡ true → Resumes t o longer
waiting-Resumes t out_of_fuel longer h = tt
waiting-Resumes t (ended_with none) longer h = tt
waiting-Resumes t (ended_with (some (code, d))) longer h = λ asks here. absurd (
    let x : is_content d.check_state ≡ true =
      subst (λ b. (if b then is_content d.check_state else true) ≡ true) asks h in
    cc (x, here))

after_round-Resumes :
    (t : Text) (f g : Loop) (whole : Bool) (c : Conn) (r : Round)
    → Answers r
    → Keeps whole c r
    → ((status : LineStatus) (d : Conn)
        → d.rest ≡ c.rest
        → Resumes t (f status d) (g status (append_bytes t d)))
    → Resumes t (after_round f r) (after_round g (longer_round t r))
after_round-Resumes t f g whole c (returns code d) a k h = λ asks here. absurd (cc (a, asks))
after_round-Resumes t f g whole c throws a k h = tt
after_round-Resumes t f g whole c (goes_on status d) a k h = h status d k.0

at_return_bound : (b s : Text) → length (at_return b s).2 ≤ suc (length s)
at_return_bound b [] = omega arith
at_return_bound b (d ∷ s) = elim (Bool-cases (nat_eq d 10)) [
  | inl e ↦ rw e (omega arith)
  | inr e ↦ rw e (omega arith)
]

at_newline_bound : (b s : Text) → length (at_newline b s).2 ≤ suc (length s)
at_newline_bound b s = elim (Bool-cases (last_is 13 b)) [
  | inl e ↦ rw e (omega arith)
  | inr e ↦ rw e (omega arith)
]

scan_line_bound : (s b : Text) → length (scan_line b s).2 ≤ length s
unfolding scan_line
scan_line_bound [] b = omega arith
scan_line_bound (c ∷ s) b = elim (Bool-cases (nat_eq c 13)) [
  | inl e ↦ rw e (at_return_bound b s)
  | inr e ↦ elim (Bool-cases (nat_eq c 10)) [
    | inl d ↦ rw (e, d) (at_newline_bound b s)
    | inr d ↦ rw (e, d) (let k = scan_line_bound s (b ++ c ∷ []) in omega (arith, k))
  ]
]

abbrev behind : Scan → Conn → Conn
behind (status, b, r) c = record c { before = b; rest = r }

next_pass :
    (m : ℕ) (status : LineStatus) (c : Conn)
    → is_content c.check_state ≡ false
    → read_loop (suc m) status c
      ≡ loop_step
          (read_loop m)
          ((scan_line c.before c.rest).0, behind (scan_line c.before c.rest) c)
unfolding read_loop next_line parse_line
next_pass m status c e = rw e refl

stopped :
    (t : Text) (m : ℕ) (c : Conn) (longer : Scan)
    → scan_line c.before (c.rest ++ t) ≡ longer
    → 2 * (length c.rest + length t) + 2 ≤ suc m
    → is_content c.check_state ≡ false
    → ended_with (process_read (append_bytes t c))
      ≡ loop_step (read_loop m) (longer.0, behind longer c)
stopped t m c longer e h here =
    sym (process_read_ends (append_bytes t c) (suc m) (omega (arith, h, length-append c.rest t)))
    ∙ next_pass m ok (append_bytes t c) here
    ∙ ap (λ l. loop_step (read_loop m) (l.0, behind l c)) e

step-Resumes :
    (t : Text) (n m : ℕ) (c : Conn) (found longer : Scan)
    → Stays t found.0 found longer
    → is_content c.check_state ≡ false
    → (is_ok found.0 ≡ true → length found.2 < length c.rest)
    → length found.2 ≤ length c.rest
    → 2 * (length c.rest + length t) + 2 ≤ suc m
    → ((status : LineStatus) (d : Conn)
        → 2 * (length d.rest + length t) + 2 ≤ m
        → Resumes t (read_loop n status d) (read_loop m status (append_bytes t d)))
    → Resumes t
        (loop_step (read_loop n) (found.0, behind found c))
        (loop_step (read_loop m) (longer.0, behind longer c))
unfolding round get_line
step-Resumes t n m c (ok, b, r) longer s e short le fuel ih =
    let c' = behind (ok, b, r) c in
    let k = short refl in
    let text = get_line c' in
    subst
      (λ l.
        Resumes t (after_round (read_loop n) (round c'))
          (loop_step (read_loop m) (l.0, behind l c)))
      (sym s)
      (subst (λ x. Resumes t (after_round (read_loop n) (round c')) (after_round (read_loop m) x))
        (sym (round-append_bytes t c.check_state text (start_line c') e))
        (after_round-Resumes t (read_loop n) (read_loop m) (is_content c.check_state)
          (start_line c') (round c') (dispatch-Answers c.check_state text (start_line c') e)
          (dispatch_state-Keeps c.check_state text (start_line c'))
          (λ status d same.
            let l : length d.rest ≡ length r = ap length same in
            ih status d (omega (arith, l, k, fuel)))))
step-Resumes t n m c (bad, b, r) longer s e short le fuel ih =
    λ asks here. stopped t m (behind (bad, b, r) c) longer s (omega (arith, le, fuel)) here
step-Resumes t n m c (open_, b, r) longer s e short le fuel ih =
    λ asks here. stopped t m (behind (open_, b, r) c) longer s (omega (arith, le, fuel)) here

is_content-content : (state : CheckState) → is_content state ≡ true → state ≡ content
is_content-content request_line e = absurd (cc e)
is_content-content header e = absurd (cc e)
is_content-content content e = refl

too_little : (k : ℕ) → k + 2 ≤ 0 → ⊥
too_little k h = omega arith

read_loop-Resumes :
    (t : Text) (n m : ℕ) (status : LineStatus) (c : Conn)
    → 2 * (length c.rest + length t) + 2 ≤ m
    → Resumes t (read_loop n status c) (read_loop m status (append_bytes t c))
unfolding read_loop
read_loop-Resumes t n zero status c fuel = absurd (too_little _ fuel)
read_loop-Resumes t zero (suc m) status c fuel = tt
read_loop-Resumes t (suc n) (suc m) status c fuel = elim (Bool-cases (is_content c.check_state)) [
  | inl e ↦
      waiting-Resumes t (read_loop (suc n) status c) (read_loop (suc m) status (append_bytes t c))
        (read_loop-content (suc n) status c (is_content-content c.check_state e))
  | inr e ↦
      subst (λ o. Resumes t o (read_loop (suc m) status (append_bytes t c)))
        (sym (next_pass n status c e))
        (subst
          (Resumes t (
            loop_step (read_loop n)
              ((scan_line c.before c.rest).0, behind (scan_line c.before c.rest) c)))
          (sym (next_pass m status (append_bytes t c) e))
          (step-Resumes t n m c (scan_line c.before c.rest) (scan_line c.before (c.rest ++ t))
            (scan_line-Stays c.rest c.before t) e (scan_line-Shorter c.rest c.before)
            (scan_line_bound c.rest c.before) fuel (λ st d h. read_loop-Resumes t n m st d h)))
]

-- When `process_read` asks for more bytes and does not wait for the body, it goes on with the bytes
-- that come next as if they had been there from the start: it does not matter how the bytes of the
-- request line and the header arrive.
pub process_read-append_bytes :
    (c d : Conn) (t : Text)
    → process_read c ≡ some (no_request, d)
    → is_content d.check_state ≡ false
    → process_read (append_bytes t d) ≡ process_read (append_bytes t c)
process_read-append_bytes c d t asks here =
    let m = 2 * (length c.rest + length t) + 2 in
    let whole = process_read_ends (append_bytes t c) m (omega (arith, length-append c.rest t)) in
    let resumed = read_loop-Resumes t (2 * length c.rest + 2) m ok c (omega arith) in
    let stops = process_read_ends c (2 * length c.rest + 2) (omega arith) ∙ ap ended_with asks in
    let goes_on_from : Resumes t (ended_with (some (no_request, d)))
        (read_loop m ok (append_bytes t c)) =
      subst (λ o. Resumes t o (read_loop m ok (append_bytes t c))) stops resumed in
    ap result (goes_on_from refl here ∙ whole)

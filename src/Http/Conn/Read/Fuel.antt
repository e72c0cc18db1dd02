-- ===== src/Http/Conn/Read/Fuel.antt =====
-- The loop of `process_read` ends within its fuel.
use my_bookstore.Http.Conn.Read.Keeps.{Keeps, dispatch_state-Keeps}
use my_bookstore.Http.Conn.Read.Lines.{Scan}
use my_bookstore.Http.Conn.Read.{
  ended_with, result, Ran, start_line, loop_step, round, read_loop, process_read, next_line,
  after_round, throws, is_ok, goes_on, returns, Round, is_content,
}
use my_bookstore.Base.{
  sym, none, ◌∙◌, some, ap, zero, ◌≤◌, [], arith, ◌&&◌, ◌++◌, last_is, nat_eq, ◌+◌, ◌<◌, ◌*◌, ◌∷◌,
  suc, ℕ, if◌then◌else◌, Option, length, refl, inr, inl, ◌≡◌, Bool-cases, false, true, Text, Bool,
}
use my_bookstore.Http.Conn.{
  no_request, parse_line, open_, get_line, bad, ok, at_return, at_newline, HttpCode, scan_line,
  LineStatus, Conn,
}

-- A complete line takes a byte at least.
abbrev pub Shorter : ℕ → Scan → Type 0
Shorter n (status, b, r) = is_ok status ≡ true → length r < n

at_return-Shorter : (b s : Text) → Shorter (suc (length s)) (at_return b s)
at_return-Shorter b [] = λ h. cc h
at_return-Shorter b (d ∷ s) = elim (Bool-cases (nat_eq d 10)) [
  | inl e ↦ rw e (λ h. omega arith)
  | inr e ↦ rw e (λ h. cc h)
]

at_newline-Shorter : (b s : Text) → Shorter (suc (length s)) (at_newline b s)
at_newline-Shorter b s = elim (Bool-cases (last_is 13 b)) [
  | inl e ↦ rw e (λ h. omega arith)
  | inr e ↦ rw e (λ h. cc h)
]

pub scan_line-Shorter : (s b : Text) → Shorter (length s) (scan_line b s)
unfolding scan_line
scan_line-Shorter [] b = λ h. cc h
scan_line-Shorter (c ∷ s) b = elim (Bool-cases (nat_eq c 13)) [
  | inl e ↦ rw e (at_return-Shorter b s)
  | inr e ↦ elim (Bool-cases (nat_eq c 10)) [
    | inl d ↦ rw (e, d) (at_newline-Shorter b s)
    | inr d ↦ rw (e, d) (λ h. let k = scan_line-Shorter s (b ++ c ∷ []) h in omega arith)
  ]
]

abbrev flag_of : Bool → ℕ
flag_of b = if b then 1 else 0

-- The rounds that are left are fewer than this.
abbrev weight : LineStatus → Conn → ℕ
weight status c = 2 * length c.rest + flag_of (is_content c.check_state && is_ok status)

abbrev Again : Type 0
Again = LineStatus → Conn → Ran

-- Both end, with the same result.
abbrev EndSame : Ran → Ran → Type 0
EndSame x y = (r : Option (HttpCode × Conn)) × ((x ≡ ended_with r) × (y ≡ ended_with r))

after_round-same :
    (f g : Again) (whole : Bool) (c : Conn) (r : Round)
    → Keeps whole c r
    → ((st : LineStatus) (d : Conn)
        → d.rest ≡ c.rest
        → (whole ≡ true → is_ok st ≡ false)
        → EndSame (f st d) (g st d))
    → EndSame (after_round f r) (after_round g r)
after_round-same f g whole c (returns code d) h k = (some (code, d), (refl, refl))
after_round-same f g whole c throws h k = (none, (refl, refl))
after_round-same f g whole c (goes_on st d) h k = k st d h.0 h.2

flag_bound : (b : Bool) → flag_of b ≤ 1
flag_bound true = omega arith
flag_bound false = omega arith

and_left : (a b : Bool) → a && b ≡ true → a ≡ true
and_left true b e = refl
and_left false b e = cc e

flag_off : (a b : Bool) → b ≡ false → flag_of (a && b) ≡ 0
flag_off true b e = ap flag_of e
flag_off false b e = refl

round-same :
    (f g : Again) (c : Conn)
    → ((st : LineStatus) (d : Conn)
        → d.rest ≡ c.rest
        → (is_content c.check_state ≡ true → is_ok st ≡ false)
        → EndSame (f st d) (g st d))
    → EndSame (after_round f (round c)) (after_round g (round c))
unfolding round
round-same f g c k =
    after_round-same f g (is_content c.check_state) (start_line c) (round c)
      (dispatch_state-Keeps c.check_state (get_line c) (start_line c)) k

-- A round on the content, which reads no line.
content-same :
    (f g : Again) (status : LineStatus) (c : Conn)
    → is_content c.check_state && is_ok status ≡ true
    → ((st : LineStatus) (d : Conn) → weight st d < weight status c → EndSame (f st d) (g st d))
    → EndSame (after_round f (round c)) (after_round g (round c))
content-same f g status c e k = round-same f g c (λ st d p q.
    let flag =
      flag_off (is_content d.check_state) (is_ok st)
        (q (and_left (is_content c.check_state) (is_ok status) e)) in
    let same : length d.rest ≡ length c.rest = ap length p in
    let on : flag_of (is_content c.check_state && is_ok status) ≡ 1 = ap flag_of e in
    k st d (omega arith))

-- A round on a line.
line-same :
    (f g : Again) (st : LineStatus) (c : Conn) (n : ℕ)
    → (is_ok st ≡ true → length c.rest < n)
    → ((st' : LineStatus) (d : Conn) → weight st' d < 2 * n → EndSame (f st' d) (g st' d))
    → EndSame (loop_step f (st, c)) (loop_step g (st, c))
line-same f g ok c n h k = round-same f g c (λ st d p q.
    let l = h refl in
    let same : length d.rest ≡ length c.rest = ap length p in
    let flag = flag_bound (is_content d.check_state && is_ok st) in k st d (omega arith))
line-same f g bad c n h k = (some (no_request, c), (refl, refl))
line-same f g open_ c n h k = (some (no_request, c), (refl, refl))

-- A pass of the loop, where both fuels are enough for what is left.
loop_step-same :
    (f g : Again) (status : LineStatus) (c : Conn)
    → ((st : LineStatus) (d : Conn) → weight st d < weight status c → EndSame (f st d) (g st d))
    → EndSame (loop_step f (next_line status c)) (loop_step g (next_line status c))
unfolding next_line parse_line
loop_step-same f g status c k = elim (Bool-cases (is_content c.check_state && is_ok status)) [
  | inl e ↦ rw e (content-same f g status c e k)
  | inr e ↦ rw e (
      line-same f g (scan_line c.before c.rest).0 (parse_line c).1 (length c.rest)
        (scan_line-Shorter c.rest c.before) (λ st d l. k st d (omega arith)))
]

bound_zero : {a : ℕ} → a < 0 → ⊥
bound_zero h = omega arith

-- With more fuel than the rounds that are left, the loop ends, and the result is the same.
read_loop-same :
    (n m : ℕ) (status : LineStatus) (c : Conn)
    → weight status c < n
    → weight status c < m
    → EndSame (read_loop n status c) (read_loop m status c)
unfolding read_loop
read_loop-same zero m status c h k = elim (bound_zero h) [ ]
read_loop-same (suc n) zero status c h k = elim (bound_zero k) [ ]
read_loop-same (suc n) (suc m) status c h k =
    loop_step-same (read_loop n) (read_loop m) status c
      (λ st d l. read_loop-same n m st d (omega arith) (omega arith))

-- The loop of `process_read` ends: with fuel of two for each byte that is not scanned yet and two
-- more, or with any more than that, the fuel is not used up, and the result is that of
-- `process_read`.
pub process_read_ends :
    (c : Conn) (fuel : ℕ)
    → 2 * length c.rest + 2 ≤ fuel
    → read_loop fuel ok c ≡ ended_with (process_read c)
unfolding process_read
process_read_ends c fuel h =
    let flag : flag_of (is_content c.check_state && is_ok ok) ≤ 1 = flag_bound _ in
    let enough : weight ok c < 2 * length c.rest + 2 = omega (arith, flag) in
    let (r, (large, exact)) =
      read_loop-same fuel (2 * length c.rest + 2) ok c (omega (arith, enough, h)) enough in
    large ∙ ap (λ x. ended_with (result x)) (sym exact)

-- What the loop gives with enough fuel is the result of `process_read`.
pub process_read_lem :
    (c : Conn) (fuel : ℕ) {r : Option (HttpCode × Conn)}
    → 2 * length c.rest + 2 ≤ fuel
    → read_loop fuel ok c ≡ ended_with r
    → process_read c ≡ r
process_read_lem c fuel h e = ap result (sym (process_read_ends c fuel h) ∙ e)

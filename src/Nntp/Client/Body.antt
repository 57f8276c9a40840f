-- ===== src/Nntp/Client/Body.antt =====
-- `body` of `NntpClient`, and an article's lines on the wire.
use lore_x.Prelude.{
  ℕ, zero, suc, ◌+◌, ◌<◌, ◌≤◌, ◌≡◌, refl, ap, ◌∙◌, true, false, List, [], ◌∷◌, ◌++◌, if◌then◌else◌,
  arith, All, length, take, drop, append_assoc, length-append, length-drop, take-append-drop,
  Bool-cases, inl, inr, ◌=?◌, nat_eq, list_eq,
}
use lore_x.Result.{Result, ok}
use lore_x.Text.{Text, codes, is_empty, starts_with, ends_with}
use lore_x.Nntp.Stream.{Bytes, joined}
use lore_x.Nntp.Yenc.Chunks.{joined-append}
use lore_x.Nntp.Yenc.Article.{crlf, NoNewline}
use lore_x.Text.Strip.{ends_with-append}
use lore_x.Nntp.Client.{
  Connection, readline, rstrip_crlf, read_raw_line, unstuffed, slices, body_lines, request_body,
  body,
}

-- A line of the article that fits the limit on the wire: it holds no newline and ends in no CR.
pub record IsLine (m : ℕ) (l : Bytes) : Type 0 where
  pub one_line : NoNewline l
  pub stripped : rstrip_crlf l ≡ l
  pub fits : length l + 3 ≤ m

-- The line as the server sends it.
abbrev pub stuffed : Bytes → Bytes
stuffed l = if starts_with (codes ".") l then 46 ∷ l else l

readline-line :
    (n : ℕ) (l rest : Bytes)
    → NoNewline l
    → length l + 2 ≤ n
    → readline n (l ++ 13 ∷ 10 ∷ rest) ≡ (l ++ 13 ∷ 10 ∷ [], rest)
unfolding readline
readline-line zero l rest h f = absurd (omega arith)
readline-line (suc zero) l rest h f = absurd (omega arith)
readline-line (suc (suc n)) [] rest h f = refl
readline-line (suc n) (c ∷ l) rest h f = ground (arith, readline-line n l rest h.1)

rstrip_crlf-line : (l : Bytes) → rstrip_crlf (l ++ 13 ∷ 10 ∷ []) ≡ rstrip_crlf l
unfolding rstrip_crlf
rstrip_crlf-line [] = refl
rstrip_crlf-line (c ∷ l) = ground (arith, rstrip_crlf-line l)

line_there : (l : Bytes) → is_empty (l ++ 13 ∷ 10 ∷ []) ≡ false
line_there [] = refl
line_there (c ∷ l) = refl

line_ends : (l : Bytes) → ends_with (10 ∷ []) (l ++ 13 ∷ 10 ∷ []) ≡ true
line_ends l = rw (append_assoc l (13 ∷ []) (10 ∷ [])) at (ends_with-append (l ++ 13 ∷ []) 10)

read_line :
    (m : ℕ) (l rest : Bytes) (c : Connection)
    → NoNewline l
    → rstrip_crlf l ≡ l
    → length l + 2 ≤ m
    → c.incoming ≡ l ++ 13 ∷ 10 ∷ rest
    → read_raw_line m c ≡ (record c { incoming = rest }, ok l)
unfolding read_raw_line
read_line m l rest c h s f e = ground (
  arith,
  e,
  s,
  readline-line (suc m) l rest h (omega arith),
  rstrip_crlf-line l,
  length-append l (13 ∷ 10 ∷ []),
  line_ends l,
  line_there l,
)

joined-slices : (fuel n : ℕ) (s : Bytes) → 0 < n → length s ≤ fuel → joined (slices fuel n s) ≡ s
unfolding slices
joined-slices zero n [] h f = refl
joined-slices zero n (c ∷ s) h f = absurd (omega arith)
joined-slices (suc fuel) n [] h f = refl
joined-slices (suc fuel) n (c ∷ s) h f =
    ap (λ t. take n (c ∷ s) ++ t)
      (joined-slices fuel n (drop n (c ∷ s)) h (omega (arith, length-drop n (c ∷ s))))
    ∙ take-append-drop n (c ∷ s)

unstuffed-stuffed : (l : Bytes) → unstuffed (stuffed l) ≡ l
unfolding unstuffed starts_with
unstuffed-stuffed [] = refl
unstuffed-stuffed (c ∷ []) = ground arith
unstuffed-stuffed (c ∷ d ∷ l) = ground arith

stuffed-dot : (l : Bytes) → (stuffed l =? codes ".") ≡ false
unfolding starts_with
stuffed-dot [] = refl
stuffed-dot (c ∷ []) = ground arith
stuffed-dot (c ∷ d ∷ l) = ground arith

dotted : (l : Bytes) → rstrip_crlf l ≡ l → rstrip_crlf (46 ∷ l) ≡ 46 ∷ l
unfolding rstrip_crlf
dotted l h = ground (arith, h)

IsLine-stuffed :
    (m : ℕ) (l : Bytes)
    → IsLine m l
    → NoNewline (stuffed l) × (rstrip_crlf (stuffed l) ≡ stuffed l) × (length (stuffed l) + 2 ≤ m)
IsLine-stuffed m l i = elim (Bool-cases (starts_with (codes ".") l)) [
  | inl dot ↦ rw dot ((omega arith, i.one_line), dotted l i.stripped, omega (arith, i.fits))
  | inr none_there ↦ rw none_there (i.one_line, i.stripped, omega (arith, i.fits))
]

-- What the server sends of the lines: each stuffed, and then the dot.
abbrev pub wire : List Bytes → Bytes → Bytes
wire [] rest = 46 ∷ 13 ∷ 10 ∷ rest
wire (l ∷ ls) rest = stuffed l ++ 13 ∷ 10 ∷ wire ls rest

abbrev pub article : List Bytes → Bytes
article [] = []
article (l ∷ ls) = crlf l ++ article ls

-- The decoded lines, each with its line end, reach the consumer, in chunks; the connection is left
-- exactly behind the dot.
abbrev pub Received :
    List Bytes → Bytes → Connection → List Bytes × Connection × Result (Unit {0}) → Type 0
Received ls rest c r =
    (joined r.0 ≡ article ls) × (r.1 ≡ record c { incoming = rest }) × (r.2 ≡ ok tt)

body_lines_more :
    (decode : Bytes → Text) (m fuel n : ℕ) (c c' : Connection) (raw : Bytes)
    → read_raw_line m c ≡ (c', ok raw)
    → (raw =? codes ".") ≡ false
    → body_lines decode m (suc fuel) n c ≡ (
      slices (length (crlf (unstuffed raw))) n (crlf (unstuffed raw))
          ++ (body_lines decode m fuel n c').0,
      (body_lines decode m fuel n c').1,
      (body_lines decode m fuel n c').2,
    )
unfolding body_lines
body_lines_more decode m fuel n c c' raw read more = ground (arith, read, more)

body_lines_end :
    (decode : Bytes → Text) (m fuel n : ℕ) (c c' : Connection)
    → read_raw_line m c ≡ (c', ok (codes "."))
    → body_lines decode m (suc fuel) n c ≡ ([], c', ok tt)
unfolding body_lines
body_lines_end decode m fuel n c c' read = ground (arith, read)

body_lines-line :
    (decode : Bytes → Text) (m fuel n : ℕ) (l : Bytes) (ls : List Bytes) (rest s : Bytes)
    (c : Connection)
    → 0 < n
    → IsLine m l
    → c.incoming ≡ stuffed l ++ 13 ∷ 10 ∷ s
    → Received ls rest
        (record c { incoming = s })
        (body_lines decode m fuel n (record c { incoming = s }))
    → Received (l ∷ ls) rest c (body_lines decode m (suc fuel) n c)
body_lines-line decode m fuel n l ls rest s c positive i e (j, after, fine) =
    let (h, st, f) = IsLine-stuffed m l i in
    let read = read_line m (stuffed l) s c h st f e in
    let all_of = joined-slices (length (crlf l)) n (crlf l) positive (omega arith) in
    rw
      (
        body_lines_more decode m fuel n c (record c { incoming = s }) (stuffed l) read
            (stuffed-dot l),
        unstuffed-stuffed l,
      )
      (
        joined-append (slices (length (crlf l)) n (crlf l)) _
            ∙ (ap (λ t. t ++ joined (body_lines decode m fuel n (record c { incoming = s })).0)
                  all_of
                ∙ ap (λ t. crlf l ++ t) j),
        after,
        fine,
      )

body_lines-dot :
    (decode : Bytes → Text) (m fuel n : ℕ) (rest : Bytes) (c : Connection)
    → 3 ≤ m
    → c.incoming ≡ 46 ∷ 13 ∷ 10 ∷ rest
    → Received [] rest c (body_lines decode m (suc fuel) n c)
unfolding rstrip_crlf
body_lines-dot decode m fuel n rest c limit e =
    let read = read_line m (46 ∷ []) rest c (omega arith, tt) refl limit e in
    rw (body_lines_end decode m fuel n c (record c { incoming = rest }) read) (refl, refl, refl)

body_lines-wire :
    (decode : Bytes → Text) (m fuel n : ℕ) (ls : List Bytes) (rest : Bytes) (c : Connection)
    → 0 < n
    → 3 ≤ m
    → All (IsLine m) ls
    → length ls ≤ fuel
    → c.incoming ≡ wire ls rest
    → Received ls rest c (body_lines decode m (suc fuel) n c)
body_lines-wire decode m fuel n [] rest c positive limit fit enough e =
    body_lines-dot decode m fuel n rest c limit e
body_lines-wire decode m zero n (l ∷ ls) rest c positive limit fit enough e = absurd (omega arith)
body_lines-wire decode m (suc fuel) n (l ∷ ls) rest c positive limit fit enough e =
    body_lines-line decode m (suc fuel) n l ls rest (wire ls rest) c positive fit.0 e (
      body_lines-wire decode m fuel n ls rest (record c { incoming = wire ls rest }) positive limit
        fit.1 (omega arith) refl)

length-wire : (ls : List Bytes) (rest : Bytes) → length ls ≤ length (wire ls rest)
length-wire [] rest = omega arith
length-wire (l ∷ ls) rest =
    omega (arith, length-append (stuffed l) (13 ∷ 10 ∷ wire ls rest), length-wire ls rest)

accepted :
    (decode : Bytes → Text) (m n : ℕ) (message_id : Text) (before c : Connection)
    → request_body decode m message_id before ≡ (c, ok tt)
    → body decode m n message_id before ≡ body_lines decode m (suc (length c.incoming)) n c
unfolding body
accepted decode m n message_id before c asked = ground (arith, asked)

-- If `BODY` is accepted, and what the server sends then begins with the stuffed lines of an article
-- and the closing dot, where every line fits the limit, holds no newline and ends in no CR, then
-- `body` hands on exactly those lines, each with its line end, in chunks, returns, and leaves the
-- connection right behind the dot.
pub body-wire :
    (decode : Bytes → Text) (m n : ℕ) (message_id : Text) (ls : List Bytes) (rest : Bytes)
    (before c : Connection)
    → 0 < n
    → 3 ≤ m
    → All (IsLine m) ls
    → request_body decode m message_id before ≡ (c, ok tt)
    → c.incoming ≡ wire ls rest
    → Received ls rest c (body decode m n message_id before)
body-wire decode m n message_id ls rest before c positive limit fit asked e =
    rw (accepted decode m n message_id before c asked) (
      body_lines-wire decode m (length c.incoming) n ls rest c positive limit fit
        (rw e (length-wire ls rest)) e)

-- ===== src/Nntp/Client.antt =====
-- backend/lorex/nntp/client.py: the conversation over an open connection. A connection is what the
-- server is still going to send, up to the end of the stream, what has been sent to it, and the
-- overview command. Faults of the socket itself are not modelled; the decoding of a response's text
-- is a parameter.
pub mod Body
pub mod Overview
mod Tests
use lore_x.Prelude.{
  ℕ, zero, suc, ◌+◌, ◌≡◌, Bool, true, false, not, ◌||◌, ◌&&◌, Option, none, some, List, [], ◌∷◌,
  ◌++◌, any, all, ltb, leb, ◌==◌, if◌then◌else◌, length, take, drop, ◌=?◌, nat_eq, list_eq,
}
use lore_x.Prelude.Int.{ℤ, pos, ltb_ℤ}
use lore_x.Result.{
  Result, ok, err, Error, value_error, protocol_error, temporary_error, authentication_error,
  article_missing,
}
use lore_x.Text.{
  Text, codes, is_empty, is_space, strip, starts_with, ends_with, decimal_value, in_range,
}
use lore_x.Text.Number.{words, int_of}
use lore_x.Nntp.Models.{GroupInfo}
use lore_x.Nntp.Stream.{Bytes}

pub record Connection : Type 0 where
  pub incoming : Bytes
  pub sent : List Text
  pub overview_command : Text

-- One request or read: it may raise, and leaves the connection in the state it reached.
abbrev pub Talk : Type 0 → Type 0
Talk A = Connection → Connection × Result A

abbrev pub answer : {A : Type 0} → A → Talk A
answer a c = (c, ok a)

abbrev pub fail : {A : Type 0} → Error → Talk A
fail e c = (c, err e)

infixl 5 ◌>>=◌ ◌>>◌
abbrev pub follow : {A B : Type 0} → Connection × Result A → (A → Talk B) → Connection × Result B
follow (c, err e) f = (c, err e)
follow (c, ok a) f = f a c

abbrev pub ◌>>=◌ : {A B : Type 0} → Talk A → (A → Talk B) → Talk B
m >>= f = λ c. follow (m c) f

abbrev pub ◌>>◌ : {B : Type 0} → Talk (Unit {0}) → Talk B → Talk B
m >> k = m >>= λ _. k

-- `readline(limit)`
unfoldable pub readline : ℕ → Bytes → Bytes × Bytes
readline zero s = ([], s)
readline (suc n) [] = ([], [])
readline (suc n) (c ∷ s) =
    let later = readline n s in if c == 10 then (c ∷ [], s) else (c ∷ later.0, later.1)

-- `line.rstrip(b"\r\n")`
unfoldable pub rstrip_crlf : Bytes → Bytes
rstrip_crlf [] = []
rstrip_crlf (c ∷ s) =
    let rest = rstrip_crlf s in if is_empty rest && (c == 13 || c == 10) then [] else c ∷ rest

unfoldable pub read_raw_line : ℕ → Talk Bytes
unfolding readline rstrip_crlf
read_raw_line max_line_length c =
    let (line, rest) = readline (suc max_line_length) c.incoming in
    let c' : Connection = record c { incoming = rest } in
    if is_empty line
    then (c', err (temporary_error "NNTP connection closed unexpectedly"))
    else if ltb max_line_length (length line)
    then (c', err (protocol_error "NNTP response line exceeds configured limit"))
    else if not (ends_with (10 ∷ []) line)
    then (c', err (protocol_error "NNTP response line is incomplete"))
    else (c', ok (rstrip_crlf line))

-- `_validate_argument`
unfoldable pub validate_argument : Text → Talk Text
validate_argument value =
    if any (λ c. c == 13 || c == 10) value
    then fail (value_error "NNTP command arguments cannot contain line breaks")
    else answer value

-- `_send_line`: the command must be ASCII.
unfoldable pub send_line : Text → Talk (Unit {0})
send_line command c =
    if all (λ k. ltb k 128) command
    then (record c { sent = c.sent ++ command ∷ [] }, ok tt)
    else (c, err (temporary_error "NNTP command send failed"))

-- The code of a response: three ASCII digits.
unfoldable pub response_code : Bytes → Option ℕ
response_code raw =
    if ltb (length raw) 3 || not (all (λ k. in_range 48 57 k) (take 3 raw))
    then none
    else decimal_value 0 (take 3 raw)

unfoldable pub raise_for_code : Bool → Bool → ℕ → Result (Unit {0})
raise_for_code auth article code =
    if leb 200 code && ltb code 400
    then ok tt
    else if article && (code == 423 || code == 430)
    then err (article_missing "NNTP article is unavailable")
    else if auth && (code == 480 || code == 481 || code == 482 || code == 502)
    then err (authentication_error "NNTP authentication failed")
    else if leb 400 code && ltb code 500
    then err (temporary_error "NNTP provider returned a temporary failure")
    else err (protocol_error "NNTP provider rejected the command")

abbrev pub check : Result (Unit {0}) → Talk (Unit {0})
check r c = (c, r)

-- The slices `logical[offset : offset + size]`; with fuel for every byte.
unfoldable pub slices : ℕ → ℕ → Bytes → List Bytes
slices zero size s = []
slices (suc fuel) size s =
    let rest = slices fuel size (drop size s) in if is_empty s then [] else take size s ∷ rest

-- `raw[1:]` of a line that begins with two dots.
unfoldable pub unstuffed : Bytes → Bytes
unstuffed raw = if starts_with (codes "..") raw then drop 1 raw else raw

module _ (decode : Bytes → Text) (max_line_length : ℕ) where
  unfoldable pub read_response : Talk (ℕ × Text)
  unfolding read_raw_line response_code
  read_response = read_raw_line max_line_length >>= λ raw. elim (response_code raw) [
    | none ↦ fail (protocol_error "Malformed NNTP response")
    | some code ↦ answer (code, if ltb 4 (length raw) then decode (drop 4 raw) else [])
  ]

  -- `authenticate`, behind the answer to the user's name.
  unfoldable pub authenticate : Text → Text → Talk (Unit {0})
  unfolding read_response raise_for_code send_line validate_argument
  authenticate username password = validate_argument username >>= λ user.
      validate_argument password >>= λ secret.
      send_line (codes "AUTHINFO USER " ++ user)
      >> (read_response >>= λ r1.
          if r1.0 == 281
          then answer tt
          else if not (r1.0 == 381)
          then check (raise_for_code true false r1.0)
            >> fail (authentication_error "NNTP authentication failed")
          else (send_line (codes "AUTHINFO PASS " ++ secret)
              >> (read_response >>= λ r2.
                  if r2.0 == 281
                  then answer tt
                  else (check (raise_for_code true false r2.0)
                      >> fail (authentication_error "NNTP authentication failed")))))

  -- The four words of a GROUP response.
  unfoldable pub group_info : List Text → Option GroupInfo
  group_info (count ∷ low ∷ high ∷ name ∷ more) = elim (int_of 10 count) [
    | none ↦ none
    | some n ↦ elim (int_of 10 low) [
      | none ↦ none
      | some l ↦ elim (int_of 10 high) [
        | none ↦ none
        | some h ↦ some (record { count = n; low = l; high = h; name = name })
      ]
    ]
  ]
  group_info _ = none

  unfoldable pub group : Text → Talk GroupInfo
  unfolding group_info read_response
  group name = validate_argument (strip name) >>= λ clean.
      if is_empty clean
      then fail (value_error "group name is required")
      else (send_line (codes "GROUP " ++ clean)
          >> (read_response >>= λ r.
              check (raise_for_code false false r.0)
              >> (if not (r.0 == 211)
                  then fail (protocol_error "Unexpected GROUP response")
                  else (elim (group_info (words is_space r.1)) [
                    | none ↦ fail (protocol_error "Malformed GROUP response")
                    | some info ↦ answer info
                  ]))))

  -- The loop of `body`, on fuel for the bytes to come: the chunks, the connection, how it ends.
  unfoldable pub body_lines : ℕ → ℕ → Connection → List Bytes × Connection × Result (Unit {0})
  unfolding read_raw_line unstuffed slices
  body_lines zero size c = ([], c, err (temporary_error "NNTP connection closed unexpectedly"))
  body_lines (suc fuel) size c =
      let r = read_raw_line max_line_length c in
      let later = body_lines fuel size r.0 in
      elim r.1 [
        | err e ↦ ([], r.0, err e)
        | ok raw ↦
            let logical = unstuffed raw ++ 13 ∷ 10 ∷ [] in
            if raw =? codes "."
            then ([], r.0, ok tt)
            else (slices (length logical) size logical ++ later.0, later.1, later.2)
      ]

  -- The exchange before the lines of a body.
  unfoldable pub request_body : Text → Talk (Unit {0})
  unfolding read_response raise_for_code
  request_body message_id = validate_argument (strip message_id) >>= λ clean.
      if is_empty clean
      then fail (value_error "message id is required")
      else (send_line (codes "BODY " ++ clean)
          >> (read_response >>= λ r.
              check (raise_for_code false true r.0)
              >> (if r.0 == 222
                  then answer tt
                  else fail (protocol_error "Unexpected BODY response"))))

  unfoldable pub body : ℕ → Text → Connection → List Bytes × Connection × Result (Unit {0})
  unfolding request_body body_lines
  body size message_id c =
      let r = request_body message_id c in
      elim r.1 [ err e ↦ ([], r.0, err e) | ok _ ↦ body_lines (suc (length r.0.incoming)) size r.0 ]

-- ===== src/Nntp/Client/Tests.antt =====
-- A body of three lines, one of which begins with a dot.
use lore_x.Prelude.{◌≡◌, refl, ◌++◌, List, [], ◌∷◌, arith, All}
use lore_x.Result.{ok}
use lore_x.Text.{Text, codes, text_functions}
use lore_x.Nntp.Stream.{Bytes}
use lore_x.Nntp.Client.{
  Connection, request_body, body, read_response, response_code, raise_for_code, send_line,
  validate_argument, read_raw_line, readline, rstrip_crlf,
}
use lore_x.Nntp.Client.Body.{IsLine, Received, wire, body-wire}

abbrev decode : Bytes → Text
decode s = s

abbrev lines : List Bytes
lines = codes "=ybegin line=128 size=1 name=a" ∷ codes ".k" ∷ codes "=yend size=1" ∷ []

abbrev before : Connection
before = record {
  incoming = codes "222 0 <1> body" ++ 13 ∷ 10 ∷ wire lines (codes "205 bye");
  sent = [];
  overview_command = codes "XOVER";
}

abbrev asked : Connection
asked = record before { incoming = wire lines (codes "205 bye"); sent = codes "BODY <1>" ∷ [] }

accepted : request_body decode 1024 (codes "<1>") before ≡ (asked, ok tt)
unfolding request_body read_response response_code raise_for_code send_line validate_argument
    read_raw_line readline rstrip_crlf text_functions
accepted = refl

fit : All (IsLine 1024) lines
unfolding rstrip_crlf
fit = (
  record { one_line = omega arith; stripped = refl; fits = omega arith },
  (
    record { one_line = omega arith; stripped = refl; fits = omega arith },
    (record { one_line = omega arith; stripped = refl; fits = omega arith }, tt),
  ),
)

body-wire_example :
    Received lines (codes "205 bye") asked (body decode 1024 64 (codes "<1>") before)
body-wire_example =
    body-wire decode 1024 64 (codes "<1>") lines (codes "205 bye") before asked (omega arith)
      (omega arith) fit accepted refl

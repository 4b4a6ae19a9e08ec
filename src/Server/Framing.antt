-- ===== src/Server/Framing.antt =====
-- Reading a request and writing an answer (src/main.rs, `read_http_request`, `write_json`). The stream is
-- the list of what its reads give; an empty read, and a read behind the list, is the closed connection.
-- The decoding of bytes with replacement characters (`String::from_utf8_lossy`) is an argument.
use baijimu_digital_employee.Base.{
  ℕ, ◌+◌, ◌*◌, String, Bool, true, false, not, ◌&&◌, Option, none, some, List, [], ◌∷◌, ◌++◌, take,
  drop, length, Result, ok, err, ltb, eqb, and_then, unwrap_or, ◌>>=◌, guard, ◌>>◌, if◌then◌else◌,
}
use baijimu_digital_employee.Text.{◌⁺⁺◌, trim, split_once, parse_uint, max_u64, to_decimal}
use baijimu_digital_employee.Text.Search.{lines, split_whitespace, eq_ignore_ascii_case}

-- `HttpRequest`
pub record HttpRequest : Type 0 where
  pub method : String
  pub path : String
  pub authorization : Option String
  pub last_event_id : Option String
  pub workspace_id : Option ℕ
  pub body : List ℕ

abbrev pub Reads : Type 0
Reads = List (Result String (List ℕ))

abbrev pub at_headers_end : List ℕ → Bool
at_headers_end (a ∷ b ∷ c ∷ d ∷ rest) = eqb a 13 && eqb b 10 && eqb c 13 && eqb d 10
at_headers_end _ = false

abbrev pub find_from : ℕ → List ℕ → Option ℕ
find_from i [] = none
find_from i (b ∷ buffer) =
    let rest = find_from (i + 1) buffer in if at_headers_end (b ∷ buffer) then some i else rest

-- `find_headers_end`
unfoldable pub find_headers_end : List ℕ → Option ℕ
find_headers_end buffer = find_from 0 buffer

-- What the reading of the headers leaves: their end, the bytes so far, and the reads behind them.
pub record Head : Type 0 where
  pub headers_end : ℕ
  pub buffer : List ℕ
  pub rest : Reads

abbrev pub max_headers : ℕ
max_headers = 65536

-- The loop over the headers.
unfoldable pub read_head : List ℕ → Reads → Result String Head
unfolding find_headers_end
read_head buffer [] = err "connection closed"
read_head buffer (err e ∷ reads) = err e
read_head buffer (ok [] ∷ reads) = err "connection closed"
read_head buffer (ok (b ∷ chunk) ∷ reads) =
    let next = buffer ++ b ∷ chunk in
    elim (ltb max_headers (length next)) [
      | true ↦ err "HTTP headers too large"
      | false ↦ elim (find_headers_end next) [
        | some end ↦ ok (record { headers_end = end; buffer = next; rest = reads })
        | none ↦ read_head next reads
      ]
    ]

-- The loop over the body: it reads until there are `wanted` bytes.
unfoldable pub read_body : ℕ → List ℕ → Reads → Result String (List ℕ)
read_body wanted buffer [] = ok buffer
read_body wanted buffer (read ∷ reads) = elim (ltb (length buffer) wanted) [
  | false ↦ ok buffer
  | true ↦ elim read [
    | err e ↦ err e
    | ok [] ↦ ok buffer
    | ok (b ∷ chunk) ↦ read_body wanted (buffer ++ b ∷ chunk) reads
  ]
]

unfoldable pub value_of : String → String → Option String
unfolding split_once trim eq_ignore_ascii_case
value_of expected line =
    and_then (split_once b':' line)
      (λ p. if eq_ignore_ascii_case p.0 expected then some (trim p.1) else none)

abbrev pub find_header : String → List String → Option String
find_header expected [] = none
find_header expected (line ∷ ls) = elim (value_of expected line) [
  | some v ↦ some v
  | none ↦ find_header expected ls
]

-- The first line with the name decides, also where its value is no number.
abbrev pub length_in : List String → Option ℕ
length_in ls = and_then (find_header "content-length" ls) (parse_uint max_u64)

abbrev pub tail_of : List String → List String
tail_of [] = []
tail_of (_ ∷ ls) = ls

abbrev pub head_of : List String → String
head_of [] = ""
head_of (l ∷ _) = l

abbrev pub positive : Option ℕ → Result String (Option ℕ)
positive none = err "x-baijimu-workspace-id must be a positive integer"
positive (some n) = ok (if eqb n 0 then none else some n)

-- The header of the workspace: absent or 0 is none, and what is no number is an error.
abbrev pub workspace_of : Option String → Result String (Option ℕ)
workspace_of none = ok none
workspace_of (some value) = positive (parse_uint max_u64 value)

abbrev pub max_body : ℕ
max_body = 8 * 1024 * 1024

module _ (lossy : List ℕ → String) where
  -- `parse_content_length`
  unfoldable pub parse_content_length : List ℕ → Option ℕ
  unfolding lines value_of parse_uint
  parse_content_length headers = length_in (lines (lossy headers))

  -- The fields of the request from its text.
  abbrev pub request_of : List String → List ℕ → Result String HttpRequest
  request_of ls body =
      workspace_of (find_header "x-baijimu-workspace-id" (tail_of ls)) >>= λ workspace. ok (record {
        method = head_of (split_whitespace (head_of ls));
        path = head_of (tail_of (split_whitespace (head_of ls)));
        authorization = find_header "authorization" (tail_of ls);
        last_event_id = find_header "last-event-id" (tail_of ls);
        workspace_id = workspace;
        body = body;
      })

  abbrev pub read_rest : Head → Result String HttpRequest
  read_rest head =
      let content_length = unwrap_or (parse_content_length (take head.headers_end head.buffer)) 0 in
      let body_start = head.headers_end + 4 in
      guard (not (ltb max_body content_length)) "HTTP body too large"
      >> read_body (body_start + content_length) head.buffer head.rest
      >>= λ buffer.
          guard (eqb (length buffer) (body_start + content_length)) "HTTP body length mismatch"
          >> request_of (lines (lossy (take head.headers_end buffer))) (drop body_start buffer)

  -- `read_http_request`
  unfoldable pub read_http_request : Reads → Result String HttpRequest
  unfolding read_head read_body parse_content_length lines split_whitespace value_of parse_uint
  read_http_request reads = read_head [] reads >>= read_rest

abbrev pub reason_of : ℕ → String
reason_of status =
    if eqb status 400
    then "Bad Request"
    else if eqb status 401
    then "Unauthorized"
    else if eqb status 403
    then "Forbidden"
    else if eqb status 404
    then "Not Found"
    else if eqb status 409
    then "Conflict"
    else if eqb status 410
    then "Gone"
    else if eqb status 503
    then "Service Unavailable"
    else if eqb status 500
    then "Internal Server Error"
    else "OK"

-- The headers that `write_json` sends before a body of this many bytes.
unfoldable pub headers_of : ℕ → ℕ → String
unfolding to_decimal
headers_of status body_length =
    "HTTP/1.1 "
    ⁺⁺ to_decimal status
    ⁺⁺ " "
    ⁺⁺ reason_of status
    ⁺⁺ "\r\nContent-Type: application/json; charset=utf-8\r\nContent-Length: "
    ⁺⁺ to_decimal body_length
    ⁺⁺ "\r\nConnection: close\r\n\r\n"
